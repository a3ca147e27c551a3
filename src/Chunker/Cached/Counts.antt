-- ===== src/Chunker/Cached/Counts.antt =====
-- Storing a block adds one reference to its link, and the loop of an eviction takes one away.
use mathlib.Core.Path.{subst}
use index_provider.Prelude.{
  ℕ, zero, suc, ◌<◌, ◌≡◌, ◌≢◌, refl, sym, ap, ◌∙◌, Bool, true, false, Option, none, some, arith,
  if◌then◌else◌,
}
use index_provider.Exec.Post.{Post, Post-bind, Post-weaken}
use index_provider.Schema.{Bytes}
use index_provider.Words.{word_mod, put_uint64}
use index_provider.Chunker.Cached.{
  Setup, Cached, Key, block, overlap, root, on_ds, next_count, increment_overlap, commit,
}
use index_provider.Chunker.Cached.Overlap.{
  view, updated, Counted, Touches, Faulty, Held, has_lem, put_lem, at_key, off_key, overlap_of,
  read_overlap_lem,
}

module _ (G : Setup) where
  open G use {Link, store as D}

  pub Counted-held :
      (v w : Key Link → Option Bytes) (l : Link) (n : ℕ) → w ≡ v → Counted G v l n → Counted G w l n
  Counted-held v w l n p c = subst (λ u. Counted G u l n) (sym p) c

  abbrev pub IsOf : Link → Key Link → Type 0
  IsOf l (block j) = l ≡ j
  IsOf l (overlap j) = l ≡ j
  IsOf l (root j) = ⊥

  ne-block : (l : Link) (k : Key Link) (j : Link) → IsOf l k → ¬ (l ≡ j) → ¬ (k ≡ block j)
  ne-block l (block i) j is ne = λ q. ne (cc)
  ne-block l (overlap i) j is ne = λ q. absurd (cc)
  ne-block l (root i) j is ne = absurd is

  ne-overlap : (l : Link) (k : Key Link) (j : Link) → IsOf l k → ¬ (l ≡ j) → ¬ (k ≡ overlap j)
  ne-overlap l (overlap i) j is ne = λ q. ne (cc)
  ne-overlap l (block i) j is ne = λ q. absurd (cc)
  ne-overlap l (root i) j is ne = absurd is

  ne-root : (l : Link) (k : Key Link) (j : Link) → IsOf l k → ¬ (k ≡ root j)
  ne-root l (overlap i) j is = λ q. absurd (cc)
  ne-root l (block i) j is = λ q. absurd (cc)
  ne-root l (root i) j is = absurd is

  pub others_kept : {l : Link} (e t u : Cached G) → Held G e t → Touches G l t u → Touches G l e u
  others_kept e t u h p = record {
    blocks = λ j ne. p.blocks j ne ∙ ap (λ v. v (block j)) h.held;
    overlaps = λ j ne. p.overlaps j ne ∙ ap (λ v. v (overlap j)) h.held;
    roots = λ j. p.roots j ∙ ap (λ v. v (root j)) h.held;
    cache = p.cache ∙ h.cache;
  }

  -- A change at the block or at the overlap key of a link, after a read.
  pub touches :
      (l : Link) (k : Key Link) (o : Option Bytes) (e t u : Cached G)
      → IsOf l k
      → Held G e t
      → view G u ≡ updated G (view G t) k o
      → u.cache ≡ t.cache
      → Touches G l e u
  touches l k o e t u is h p c = record {
    blocks = λ j ne.
        off_key G (view G t) (view G u) k (block j) o p (ne-block l k j is ne)
        ∙ ap (λ v. v (block j)) h.held;
    overlaps = λ j ne.
        off_key G (view G t) (view G u) k (overlap j) o p (ne-overlap l k j is ne)
        ∙ ap (λ v. v (overlap j)) h.held;
    roots = λ j.
        off_key G (view G t) (view G u) k (root j) o p (ne-root l k j is)
        ∙ ap (λ v. v (root j)) h.held;
    cache = c ∙ h.cache;
  }

  next_count_lem : (n : ℕ) → suc (suc n) < word_mod → next_count G (overlap_of G (suc n)) ≡ suc n
  unfolding next_count
  next_count_lem zero h = refl
  next_count_lem (suc n) h = omega arith

  increment_overlap_lem :
      (l : Link) (n : ℕ) (e : Cached G)
      → suc (suc n) < word_mod
      → Counted G (view G e) l (suc n)
      → Post
          (increment_overlap G l)
          e
          (λ _ t. Counted G (view G t) l (suc (suc n)) × Touches G l e t)
          (Faulty G)
  unfolding increment_overlap
  increment_overlap_lem l n e h c =
      Post-bind _ _ e (read_overlap_lem G l (suc n) e (omega arith) c)
        (λ o t p.
          Post-weaken _ t (put_lem G (overlap l) (put_uint64 (next_count G o)) t)
            (λ _ u q. (
              (
                λ none'. held_block n c (
                    sym (ap (λ v. v (block l)) p.1.held)
                    ∙ sym (
                        off_key G (view G t) (view G u) (overlap l) (block l) _ q.0
                          (λ x. absurd (cc)))
                    ∙ none'),
                at_key G (view G t) (view G u) (overlap l) _ q.0
                    ∙ ap (λ m. some (put_uint64 m)) (ap (next_count G) p.0 ∙ next_count_lem n h),
              ),
              touches l (overlap l) _ e t u refl p.1 q.0 q.1,
            ))
            (λ _ _ r. r))
        (λ _ _ r. r)
    where
      held_block : (n : ℕ) → Counted G (view G e) l (suc n) → view G e (block l) ≢ none
      held_block zero c = c.0
      held_block (suc n) c = c.0

  pub has_block :
      (v : Key Link → Option Bytes) (l : Link) (n : ℕ) → Counted G v l (suc n) → v (block l) ≢ none
  has_block v l zero c = c.0
  has_block v l (suc n) c = c.0

  -- The committer of the link system adds one reference.
  pub commit_lem :
      (l : Link) (b : Bytes) (n : ℕ) (e : Cached G)
      → suc n < word_mod
      → Counted G (view G e) l n
      → Post (commit G l b) e (λ _ t. Counted G (view G t) l (suc n) × Touches G l e t) (Faulty G)
  unfolding commit
  commit_lem l b n e h c =
      Post-bind _ _ e (has_lem G (block l) e) (λ x t p. after n x t h c p.0 p.1 p.2) (λ _ _ r. r)
    where
      after :
          (n : ℕ) (x : Bool) (t : Cached G)
          → suc n < word_mod
          → Counted G (view G e) l n
          → (x ≡ true → view G e (block l) ≢ none)
          → (x ≡ false → view G e (block l) ≡ none)
          → Held G e t
          → Post
              (if x then increment_overlap G l else on_ds G (D.put (block l) b))
              t
              (λ _ u. Counted G (view G u) l (suc n) × Touches G l e u)
              (Faulty G)
      after zero true t h c there absent p = absurd (there refl c.0)
      after (suc n) false t h c there absent p = absurd (has_block (view G e) l n c (absent refl))
      after zero false t h c there absent p =
          Post-weaken _ t (put_lem G (block l) b t)
            (λ _ u q. (
              (
                λ x. absurd (cc (at_key G (view G t) (view G u) (block l) (some b) q.0, x)),
                off_key G (view G t) (view G u) (block l) (overlap l) (some b) q.0
                      (λ x. absurd (cc))
                    ∙ ap (λ v. v (overlap l)) p.held
                    ∙ c.1,
              ),
              touches l (block l) (some b) e t u refl p q.0 q.1,
            ))
            (λ _ _ r. r)
      after (suc n) true t h c there absent p =
          Post-weaken _ t
            (increment_overlap_lem l n t h (Counted-held (view G e) (view G t) l (suc n) p.held c))
            (λ _ u q. (q.0, others_kept e t u p q.1)) (λ _ _ r. r)
