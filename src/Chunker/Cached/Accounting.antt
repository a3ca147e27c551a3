-- ===== src/Chunker/Cached/Accounting.antt =====
-- The references of every link at once: what `Chunk` and the evictions add and take away.
use mathlib.Core.Path.{subst}
use index_provider.Prelude.{
  ℕ, zero, suc, ◌+◌, ◌<◌, ◌≡◌, refl, sym, ap, ◌∙◌, Option, none, some, List, [], ◌∷◌, ◌++◌, ite,
  if_pos, if_neg, arith,
}
use index_provider.Exec.{Error}
use index_provider.Exec.Post.{
  Post, Post-pure, Post-raise, Post-bind, Post-weaken, Post-recover, Post-any,
}
use index_provider.Schema.{Bytes}
use index_provider.Words.{word_mod}
use index_provider.Chunker.Cached.{
  Setup, Cached, Dag, Key, block, overlap, root, commit_all, links_of, release_all, on_evicted,
  evict_all,
}
use index_provider.Chunker.Cached.Overlap.{view, Counted, Touches, Faulty, delete_lem, off_key}
use index_provider.Chunker.Cached.Counts.{commit_lem}
use index_provider.Chunker.Cached.Release.{release_lem}

module _ (G : Setup) where
  open G use {Link, link_discrete, store as D}

  -- How often a link stands in the list of a DAG, and in the lists of several.
  abbrev pub count : Link → List Link → ℕ
  count j [] = 0
  count j (l ∷ ls) = ite (link_discrete l j) (suc (count j ls)) (count j ls)

  abbrev pub total : Link → List (Dag Link) → ℕ
  total j [] = 0
  total j ((r, ls) ∷ ds) = count j ls + total j ds

  pub total-append :
      (j : Link) (xs ys : List (Dag Link)) → total j (xs ++ ys) ≡ total j xs + total j ys
  total-append j [] ys = omega arith
  total-append j ((r, ls) ∷ xs) ys = omega (arith, total-append j xs ys)

  -- Each link is stored for as many references as the function says.
  abbrev pub Counts : (Key Link → Option Bytes) → (Link → ℕ) → Type 0
  Counts v f = (j : Link) → Counted G v j (f j)

  pub Counted-off :
      (v w : Key Link → Option Bytes) (j : Link) (n : ℕ)
      → w (block j) ≡ v (block j)
      → w (overlap j) ≡ v (overlap j)
      → Counted G v j n
      → Counted G w j n
  Counted-off v w j zero p q c = (p ∙ c.0, q ∙ c.1)
  Counted-off v w j (suc zero) p q c = ((λ x. c.0 (sym p ∙ x)), q ∙ c.1)
  Counted-off v w j (suc (suc n)) p q c = ((λ x. c.0 (sym p ∙ x)), q ∙ c.1)

  pub Counts-eq :
      (v : Key Link → Option Bytes) (f g : Link → ℕ)
      → ((j : Link) → f j ≡ g j)
      → Counts v f
      → Counts v g
  Counts-eq v f g p c = λ j. subst (Counted G v j) (p j) (c j)

  -- One link has changed, to `n` references.
  Counts-set :
      (l : Link) (n : ℕ) (f g : Link → ℕ) (e t : Cached G)
      → Counts (view G e) f
      → Counted G (view G t) l n
      → Touches G l e t
      → g l ≡ n
      → ((j : Link) → ¬ (l ≡ j) → g j ≡ f j)
      → Counts (view G t) g
  Counts-set l n f g e t c at p here there = λ j. elim (link_discrete l j) [
    | yes q ↦
        subst (λ i. Counted G (view G t) i (g i)) q (subst (Counted G (view G t) l) (sym here) at)
    | no q ↦
        subst (Counted G (view G t) j) (sym (there j q))
          (Counted-off (view G e) (view G t) j (f j) (p.blocks j q) (p.overlaps j q) (c j))
  ]

  count_self : (l : Link) (ls : List Link) → count l (l ∷ ls) ≡ suc (count l ls)
  count_self l ls = if_pos (link_discrete l l) refl _ _

  count-ne : (l j : Link) (ls : List Link) → ¬ (l ≡ j) → count j (l ∷ ls) ≡ count j ls
  count-ne l j ls h = if_neg (link_discrete l j) h _ _

  abbrev added : (Link → ℕ) → Link → Link → ℕ
  added f l j = ite (link_discrete l j) (suc (f j)) (f j)

  added-count :
      (f : Link → ℕ) (l j : Link) (ls : List Link)
      → added f l j + count j ls ≡ f j + count j (l ∷ ls)
  added-count f l j ls =
      elim (link_discrete l j)
        as (λ d.
          ite d (suc (f j)) (f j) + count j ls ≡ f j + ite d (suc (count j ls)) (count j ls)) [
            | yes p ↦ omega arith
            | no p ↦ omega arith
          ]

  -- The stores of an inner chunker add what they store.
  pub commit_all_lem :
      (bs : List (Link × Bytes)) (f : Link → ℕ) (e : Cached G)
      → ((j : Link) → f j + count j (links_of G bs) < word_mod)
      → Counts (view G e) f
      → Post
          (commit_all G bs)
          e
          (λ _ t. Counts (view G t) (λ j. f j + count j (links_of G bs)) × (t.cache ≡ e.cache))
          (Faulty G)
  unfolding commit_all
  commit_all_lem [] f e room c =
      Post-pure tt e (Counts-eq (view G e) f _ (λ j. omega arith) c, refl)
  commit_all_lem ((l, b) ∷ bs) f e room c =
      Post-bind _ _ e
        (commit_lem G l b (f l) e (omega (arith, room l, count_self l (links_of G bs))) (c l))
        (λ _ t p.
          Post-weaken _ t
            (commit_all_lem bs (added f l) t
              (λ j. subst (λ n. n < word_mod) (sym (added-count f l j (links_of G bs))) (room j))
              (Counts-set l (suc (f l)) f (added f l) e t c p.0 p.1
                (if_pos (link_discrete l l) refl _ _) (λ j q. if_neg (link_discrete l j) q _ _)))
            (λ _ u q. (
              Counts-eq (view G u) _ _ (λ j. added-count f l j (links_of G bs)) q.0,
              q.1 ∙ p.1.cache,
            ))
            (λ _ _ r. r))
        (λ _ _ r. r)

  -- The loop of an eviction takes away what the links of the DAG had.
  release_all_lem :
      (ls : List Link) (g : Link → ℕ) (e : Cached G)
      → ((j : Link) → g j + count j ls < word_mod)
      → Counts (view G e) (λ j. g j + count j ls)
      → Post (release_all G ls) e (λ _ t. Counts (view G t) g × (t.cache ≡ e.cache)) (Faulty G)
  unfolding release_all
  release_all_lem [] g e room c =
      Post-pure tt e (Counts-eq (view G e) _ g (λ j. omega arith) c, refl)
  release_all_lem (l ∷ ls) g e room c =
      Post-bind _ _ e
        (release_lem G l (g l + count l ls) e (omega (arith, room l, count_self l ls))
          (subst (Counted G (view G e) l) (self_sum l ls) (c l)))
        (λ _ t p.
          Post-weaken _ t
            (release_all_lem ls g t (λ j. smaller j)
              (Counts-set l (g l + count l ls) (λ j. g j + count j (l ∷ ls)) (λ j. g j + count j ls)
                e t c p.0 p.1 refl (λ j q. ap (λ n. g j + n) (sym (count-ne l j ls q)))))
            (λ _ u q. (q.0, q.1 ∙ p.1.cache)) (λ _ _ r. r))
        (λ _ _ r. r)
    where
      self_sum : (l : Link) (ls : List Link) → g l + count l (l ∷ ls) ≡ suc (g l + count l ls)
      self_sum l ls = omega (arith, count_self l ls)

      smaller : (j : Link) → g j + count j ls < word_mod
      smaller j = elim (link_discrete l j) [
        | yes q ↦
            omega (arith, room j, if_pos (link_discrete l j) q (suc (count j ls)) (count j ls))
        | no q ↦ omega (arith, room j, count-ne l j ls q)
      ]

  on_evicted_lem :
      (r : Link) (ls : List Link) (g : Link → ℕ) (e : Cached G)
      → ((j : Link) → g j + count j ls < word_mod)
      → Counts (view G e) (λ j. g j + count j ls)
      → Post (on_evicted G (r, ls)) e (λ _ t. Counts (view G t) g × (t.cache ≡ e.cache)) (Faulty G)
  unfolding on_evicted
  on_evicted_lem r ls g e room c =
      Post-bind _ _ e (release_all_lem ls g e room c)
        (λ _ t p.
          Post-weaken _ t (delete_lem G (root r) t)
            (λ _ u q. (
              λ j.
                  Counted-off (view G t) (view G u) j (g j)
                    (off_key G (view G t) (view G u) (root r) (block j) none q.0 (λ x. absurd (cc)))
                    (off_key G (view G t) (view G u) (root r) (overlap j) none q.0
                      (λ x. absurd (cc)))
                    (p.0 j),
              q.1 ∙ p.1,
            ))
            (λ _ _ r. r))
        (λ _ _ r. r)

  -- Once a call of `OnEvicted` has failed, the operation of the cache reports an error.
  evict_all_failed :
      (ds : List (Dag Link)) (x : Error) (e : Cached G)
      → Post (evict_all G ds (some x)) e (λ _ _. ⊥) (λ _ _. Unit)
  unfolding evict_all
  evict_all_failed [] x e = Post-raise x e tt
  evict_all_failed (d ∷ ds) x e =
      Post-recover _ _ _ e (Post-any (on_evicted G d) e) (λ _ t _. evict_all_failed ds x t)
        (λ y t _. evict_all_failed ds y t)

  -- The evictions of one operation take away what the evicted DAGs had.
  pub evict_all_lem :
      (ds : List (Dag Link)) (g : Link → ℕ) (e : Cached G)
      → ((j : Link) → g j + total j ds < word_mod)
      → Counts (view G e) (λ j. g j + total j ds)
      → Post (evict_all G ds none) e (λ _ t. Counts (view G t) g × (t.cache ≡ e.cache)) (Faulty G)
  unfolding evict_all
  evict_all_lem [] g e room c = Post-pure tt e (Counts-eq (view G e) _ g (λ j. omega arith) c, refl)
  evict_all_lem ((r, ls) ∷ ds) g e room c =
      Post-recover _ _ _ e
        (on_evicted_lem r ls (λ j. g j + total j ds) e (λ j. omega (arith, room j))
          (Counts-eq (view G e) _ _ (λ j. omega arith) c))
        (λ _ t p.
          Post-weaken _ t (evict_all_lem ds g t (λ j. omega (arith, room j)) p.0)
            (λ _ u q. (q.0, q.1 ∙ p.1)) (λ _ _ r. r))
        (λ x t broken.
          Post-weaken _ t (evict_all_failed ds x t) (λ _ _ q. absurd q) (λ _ _ _. broken))
