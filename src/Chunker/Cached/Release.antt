-- ===== src/Chunker/Cached/Release.antt =====
-- One round of the loop in `onEvicted` takes one reference of a link away.
use index_provider.Prelude.{
  ℕ, zero, suc, ◌<◌, ◌≡◌, ◌≢◌, refl, sym, ap, ◌∙◌, Option, none, some, arith, if◌then◌else◌, ltb,
  ◌==◌,
}
use index_provider.Exec.Post.{Post, Post-pure, Post-bind, Post-weaken, Post-if}
use index_provider.Schema.{Bytes}
use index_provider.Words.{word_mod, put_uint64}
use index_provider.Chunker.Cached.{
  Setup, Cached, block, overlap, on_ds, store_decremented, decrement_from, decrement_overlap,
  count_or_zero, count_overlap, release,
}
use index_provider.Chunker.Cached.Overlap.{
  view, updated, Counted, Touches, Faulty, Held, put_lem, delete_lem, at_key, off_key, overlap_of,
  read_overlap_lem,
}
use index_provider.Chunker.Cached.Counts.{Counted-held, touches, others_kept, has_block}

module _ (G : Setup) where
  open G use {Link, store as D}

  count_lem : (n : ℕ) → count_or_zero G (overlap_of G (suc n)) ≡ n
  unfolding count_or_zero
  count_lem zero = refl
  count_lem (suc n) = refl

  count_overlap_lem :
      (l : Link) (n : ℕ) (e : Cached G)
      → suc n < word_mod
      → Counted G (view G e) l (suc n)
      → Post (count_overlap G l) e (λ c t. (c ≡ n) × Held G e t) (Faulty G)
  unfolding count_overlap
  count_overlap_lem l n e h c =
      Post-bind _ _ e (read_overlap_lem G l (suc n) e h c)
        (λ o t p. Post-pure _ t (ap (count_or_zero G) p.0 ∙ count_lem n, p.1)) (λ _ _ r. r)

  -- A write at the overlap key leaves the block.
  kept_block :
      (l : Link) (n : ℕ) (t u : Cached G) (o : Option Bytes)
      → Counted G (view G t) l (suc n)
      → view G u ≡ updated G (view G t) (overlap l) o
      → view G u (block l) ≢ none
  kept_block l n t u o c q = λ x.
      has_block G (view G t) l n c
        (sym (off_key G (view G t) (view G u) (overlap l) (block l) o q (λ y. absurd (cc))) ∙ x)

  store_decremented_lem :
      (l : Link) (n m : ℕ) (t : Cached G)
      → m ≡ n
      → Counted G (view G t) l (suc (suc n))
      → Post
          (store_decremented G l m)
          t
          (λ _ u. Counted G (view G u) l (suc n) × Touches G l t u)
          (Faulty G)
  unfolding store_decremented
  store_decremented_lem l zero m t p c = rw p (
      Post-weaken _ t (delete_lem G (overlap l) t)
        (λ _ u q. (
          (kept_block l 1 t u none c q.0, at_key G (view G t) (view G u) (overlap l) none q.0),
          touches G l (overlap l) none t t u refl (record { held = refl; cache = refl }) q.0 q.1,
        ))
        (λ _ _ r. r))
  store_decremented_lem l (suc n) m t p c = rw p (
      Post-if (ltb (suc n) 1) _ _ t (λ x. absurd (ground arith))
        (λ _.
          Post-weaken _ t (put_lem G (overlap l) (put_uint64 (suc n)) t)
            (λ _ u q. (
              (
                kept_block l (suc (suc n)) t u (some (put_uint64 (suc n))) c q.0,
                at_key G (view G t) (view G u) (overlap l) (some (put_uint64 (suc n))) q.0,
              ),
              touches G l (overlap l) (some (put_uint64 (suc n))) t t u refl
                  (record { held = refl; cache = refl }) q.0 q.1,
            ))
            (λ _ _ r. r)))

  decrement_overlap_lem :
      (l : Link) (n : ℕ) (e : Cached G)
      → suc (suc n) < word_mod
      → Counted G (view G e) l (suc (suc n))
      → Post
          (decrement_overlap G l)
          e
          (λ _ t. Counted G (view G t) l (suc n) × Touches G l e t)
          (Faulty G)
  unfolding decrement_overlap decrement_from
  decrement_overlap_lem l n e h c =
      Post-bind _ _ e (read_overlap_lem G l (suc (suc n)) e h c)
        (λ o t p. rw p.0 (
          Post-weaken _ t
            (store_decremented_lem l n _ t (omega arith)
              (Counted-held G (view G e) (view G t) l (suc (suc n)) p.1.held c))
            (λ _ u q. (q.0, others_kept G e t u p.1 q.1)) (λ _ _ r. r)))
        (λ _ _ r. r)

  -- One round of the loop takes one reference away; with the last one the block goes.
  pub release_lem :
      (l : Link) (n : ℕ) (e : Cached G)
      → suc n < word_mod
      → Counted G (view G e) l (suc n)
      → Post (release G l) e (λ _ t. Counted G (view G t) l n × Touches G l e t) (Faulty G)
  unfolding release
  release_lem l n e h c =
      Post-bind _ _ e (count_overlap_lem l n e h c)
        (λ m t p.
          rw p.0 (choose n t h (Counted-held G (view G e) (view G t) l (suc n) p.1.held c) p.1))
        (λ _ _ r. r)
    where
      choose :
          (n : ℕ) (t : Cached G)
          → suc n < word_mod
          → Counted G (view G t) l (suc n)
          → Held G e t
          → Post
              (if n == 0 then on_ds G (D.delete (block l)) else decrement_overlap G l)
              t
              (λ _ u. Counted G (view G u) l n × Touches G l e u)
              (Faulty G)
      choose zero t h c p =
          Post-weaken _ t (delete_lem G (block l) t)
            (λ _ u q. (
              (
                at_key G (view G t) (view G u) (block l) none q.0,
                off_key G (view G t) (view G u) (block l) (overlap l) none q.0 (λ x. absurd (cc))
                    ∙ c.1,
              ),
              touches G l (block l) none e t u refl p q.0 q.1,
            ))
            (λ _ _ r. r)
      choose (suc n) t h c p =
          Post-if (suc n == 0) _ _ t (λ x. absurd (ground arith))
            (λ _.
              Post-weaken _ t (decrement_overlap_lem l n t h c)
                (λ _ u q. (q.0, others_kept G e t u p q.1)) (λ _ _ r. r))
