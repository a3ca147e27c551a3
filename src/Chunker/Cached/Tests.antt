-- ===== src/Chunker/Cached/Tests.antt =====
-- A cache of one DAG over a datastore in memory, and the theorems of the cache at it.
use index_provider.Prelude.{
  ℕ, ◌+◌, ◌≤◌, ◌≡◌, refl, Option, none, some, List, [], ◌∷◌, map, ite, if_pos, if_neg, ℕ_discrete,
  arith,
}
use index_provider.Exec.{ok}
use index_provider.Exec.Post.{Post}
use index_provider.Datastore.Assoc.{memory}
use index_provider.Schema.{Bytes}
use index_provider.Words.{put_uint64}
use index_provider.Chunker.Cached.{Setup, Cached, Key, block, overlap, root, key_discrete, chunk}
use index_provider.Chunker.Cached.Sample.{one_dag}
use index_provider.Chunker.Cached.Accounting.{count, total}
use index_provider.Chunker.Cached.Balance.{cached, Balanced, nothing, IsNew}
use index_provider.Chunker.Cached.Chunks.{Blamed, chunk-Balanced}
use index_provider.Chunker.Cached.Again.{leaked, chunk-again}

abbrev first : List ℕ → Option ℕ
first [] = none
first (l ∷ ls) = some l

-- Each number is a block, and the first is the root.
abbrev setup : Setup
setup = record {
  Link = ℕ;
  link_discrete = ℕ_discrete;
  link_bytes = λ l. l ∷ [];
  store = memory (key_discrete ℕ_discrete);
  lru = one_dag;
  Iterator = List ℕ;
  dag = λ ls. (map (λ l. (l, l ∷ [])) ls, ok (first ls));
}

abbrev empty : Cached setup
empty = record { ds = λ k. none; cache = none }

program : Unit {0}
unfolding chunk put_uint64 ℕ_discrete key_discrete
program = tt

-- The block and the root are stored.
chunk_first : (chunk setup (5 ∷ []) empty).0 ≡ ok (some 5)
unfolding program
chunk_first = refl

chunk_first_block : (chunk setup (5 ∷ []) empty).1.ds (block 5) ≡ some (5 ∷ [])
unfolding program
chunk_first_block = refl

-- The same multihashes again: a reference more to the one block, for the one DAG.
chunk_twice :
    (chunk setup (5 ∷ []) (chunk setup (5 ∷ []) empty).1).1.ds (overlap 5)
    ≡ some (1 ∷ 0 ∷ 0 ∷ 0 ∷ 0 ∷ 0 ∷ 0 ∷ 0 ∷ [])
unfolding program
chunk_twice = refl

one_link : (j : ℕ) → count setup j (5 ∷ []) ≤ 1
one_link j = elim (ℕ_discrete 5 j) as (λ d. ite d 1 0 ≤ 1) [
  | yes p ↦ omega arith
  | no p ↦ omega arith
]

empty-Balanced : Balanced setup (nothing setup) empty
empty-Balanced j = (refl, refl)

empty-IsNew : (r : ℕ) → IsNew setup r empty
empty-IsNew r d [] after q = absurd (cc)
empty-IsNew r d (b ∷ bs) after q = absurd (cc)

chunk-Balanced_example :
    Post
      (chunk setup (5 ∷ []))
      empty
      (λ o t. (ok (first (5 ∷ [])) ≡ ok o) × Balanced setup (nothing setup) t)
      (Blamed setup (5 ∷ []))
chunk-Balanced_example =
    chunk-Balanced setup (5 ∷ []) (nothing setup) empty empty-Balanced
      (λ j. omega (arith, one_link j)) (λ r p. empty-IsNew r) (λ p. absurd (cc))

-- The state after one call.
abbrev one_view : Key ℕ → Option Bytes
one_view (block j) = ite (ℕ_discrete 5 j) (some (5 ∷ [])) none
one_view (overlap j) = none
one_view (root j) = ite (ℕ_discrete 5 j) (some (5 ∷ [])) none

abbrev one : Cached setup
one = record { ds = one_view; cache = some (5, 5 ∷ []) }

one-Balanced : Balanced setup (nothing setup) one
one-Balanced j = elim (ℕ_discrete 5 j) [
  | yes p ↦
      let n : total setup j (cached setup one) + 0 ≡ 1 =
        omega (arith, if_pos {C = ℕ} (ℕ_discrete 5 j) p 1 0) in
      rw n (
        (λ q. absurd (cc (if_pos {C = Option Bytes} (ℕ_discrete 5 j) p (some (5 ∷ [])) none))),
        refl,
      )
  | no p ↦
      let n : total setup j (cached setup one) + 0 ≡ 0 =
        omega (arith, if_neg {C = ℕ} (ℕ_discrete 5 j) p 1 0) in
      rw n (if_neg (ℕ_discrete 5 j) p (some (5 ∷ [])) none, refl)
]

chunk-again_example :
    Post
      (chunk setup (5 ∷ []))
      one
      (λ _ t. Balanced setup (leaked setup 5 (5 ∷ []) [] [] (nothing setup)) t)
      (Blamed setup (5 ∷ []))
chunk-again_example =
    chunk-again setup 5 (5 ∷ []) [] [] (5 ∷ []) (nothing setup) one one-Balanced
      (λ j. omega (arith, one_link j)) refl refl
