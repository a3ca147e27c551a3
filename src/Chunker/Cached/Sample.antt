-- ===== src/Chunker/Cached/Sample.antt =====
-- A cache that holds one DAG, for tests.
use index_provider.Prelude.{
  ℕ, ◌≤◌, ◌<◌, ◌≡◌, ◌≢◌, refl, ap, Option, none, some, List, [], ◌∷◌, ◌++◌, ite, if_pos, if_neg,
  ℕ_discrete, arith, length,
}
use index_provider.Chunker.Cached.{Dag, Lru}

abbrev pub Slot : Type 0
Slot = Option (Dag ℕ)

abbrev pub contents : Slot → List (Dag ℕ)
contents none = []
contents (some d) = d ∷ []

abbrev pub add : ℕ → List ℕ → Slot → Slot × List (Dag ℕ)
add l ls none = (some (l, ls), [])
add l ls (some (r, old)) = (some (l, ls), ite (ℕ_discrete r l) [] ((r, old) ∷ []))

abbrev pub clear : Slot → Slot × List (Dag ℕ)
clear s = (none, contents s)

pub add_new :
    (l : ℕ) (ls : List ℕ) (s : Slot)
    → ((d : ℕ × List ℕ) (before after : List (Dag ℕ)) → contents s ≡ before ++ d ∷ after → d.0 ≢ l)
    → contents (add l ls s).0 ++ (add l ls s).1 ≡ (l, ls) ∷ contents s
add_new l ls none new = refl
add_new l ls (some (r, old)) new =
    ap (λ ds. (l, ls) ∷ ds) (if_neg (ℕ_discrete r l) (new (r, old) [] [] refl) [] ((r, old) ∷ []))

pub add_again :
    (l : ℕ) (ls old : List ℕ) (before after : List (Dag ℕ)) (s : Slot)
    → contents s ≡ before ++ (l, old) ∷ after
    → (contents (add l ls s).0 ≡ (l, ls) ∷ before ++ after) × ((add l ls s).1 ≡ [])
add_again l ls old [] after none p = absurd (cc)
add_again l ls old (b ∷ bs) after none p = absurd (cc)
add_again l ls old [] after (some (r, o)) p = (
  ap (λ ds. (l, ls) ∷ ds) (ground arith),
  if_pos (ℕ_discrete r l) (ground arith) [] ((r, o) ∷ []),
)
add_again l ls old (b ∷ []) after (some d) p = absurd (ground arith)
add_again l ls old (b ∷ c ∷ bs) after (some d) p = absurd (ground arith)

pub add_bounded :
    (l : ℕ) (ls : List ℕ) (s : Slot)
    → length (contents s) ≤ 1
    → 0 < 1
    → length (contents (add l ls s).0) ≤ 1
add_bounded l ls none h k = omega arith
add_bounded l ls (some (r, o)) h k = omega arith

abbrev pub one_dag : Lru ℕ
one_dag = record {
  State = Slot;
  contents = contents;
  max_entries = 1;
  add = add;
  clear = clear;
  add_new = add_new;
  add_again = add_again;
  add_bounded = add_bounded;
  clear_lem = λ s. (refl, refl);
}
