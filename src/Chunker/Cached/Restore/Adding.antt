-- ===== src/Chunker/Cached/Restore/Adding.antt =====
-- Adding a DAG to the cache that is being restored.
use mathlib.Core.Path.{subst}
use index_provider.Prelude.{
  ◌+◌, ◌<◌, ◌≤◌, ◌≡◌, ◌≢◌, refl, sym, ap, ◌∙◌, List, [], ◌∷◌, ◌++◌, length, arith,
}
use index_provider.Exec.Post.{Post, Post-weaken}
use index_provider.Words.{word_mod}
use index_provider.Chunker.Cached.{Setup, Cached, Dag, perform_on_cache}
use index_provider.Chunker.Cached.Overlap.{view, Faulty}
use index_provider.Chunker.Cached.Accounting.{total, total-append, Counts-eq}
use index_provider.Chunker.Cached.Balance.{cached, Balanced, IsNew, perform_lem}

module _ (G : Setup) where
  open G use {Link, link_discrete, store as D, lru}

  -- No DAG of the list has this root; no two have the same root; each has its root's link at least.
  abbrev pub Unlike : Link → List (Dag Link) → Type 0
  Unlike r [] = Unit {0}
  Unlike r ((q, ls) ∷ ds) = (r ≢ q) × Unlike r ds

  abbrev pub Distinct : List (Dag Link) → Type 0
  Distinct [] = Unit {0}
  Distinct ((r, ls) ∷ ds) = Unlike r ds × (ls ≢ []) × Distinct ds

  abbrev pub AllNew : List (Dag Link) → Cached G → Type 0
  AllNew [] e = Unit {0}
  AllNew ((r, ls) ∷ ds) e = IsNew G r e × AllNew ds e

  append_assoc : {A : Type 0} (xs ys zs : List A) → (xs ++ ys) ++ zs ≡ xs ++ (ys ++ zs)
  append_assoc [] ys zs = refl
  append_assoc (x ∷ xs) ys zs = ap (λ l. x ∷ l) (append_assoc xs ys zs)

  tail : {A : Type 0} (x y : A) (xs ys : List A) → x ∷ xs ≡ y ∷ ys → xs ≡ ys
  tail x y xs ys p = cc

  -- A root that is not in the cache is not there after another one was added.
  IsNew-add :
      (q r : Link) (ls : List Link) (e t : Cached G)
      → r ≢ q
      → IsNew G r e
      → IsNew G q e
      → t.cache ≡ (lru.add r ls e.cache).0
      → IsNew G q t
  IsNew-add q r ls e t ne new here p d before after split = in_old before (
      sym (lru.add_new r ls e.cache new)
      ∙ ap (λ c. c ++ (lru.add r ls e.cache).1) (sym (ap lru.contents p) ∙ split)
      ∙ append_assoc before (d ∷ after) (lru.add r ls e.cache).1)
    where
      in_old :
          (before : List (Dag Link))
          → (r, ls) ∷ cached G e ≡ before ++ (d ∷ (after ++ (lru.add r ls e.cache).1))
          → d.0 ≢ q
      in_old [] s = λ x. ne (cc (s, x))
      in_old (b ∷ bs) s =
          here d bs (after ++ (lru.add r ls e.cache).1) (tail (r, ls) b (cached G e) _ s)

  pub AllNew-add :
      (ds : List (Dag Link)) (r : Link) (ls : List Link) (e t : Cached G)
      → Unlike r ds
      → IsNew G r e
      → AllNew ds e
      → t.cache ≡ (lru.add r ls e.cache).0
      → AllNew ds t
  AllNew-add [] r ls e t u new a p = tt
  AllNew-add ((q, ks) ∷ ds) r ls e t u new a p =
      (IsNew-add q r ls e t u.0 new a.0 p, AllNew-add ds r ls e t u.1 new a.1 p)

  -- At most as many DAGs as the cache may have.
  abbrev pub Fits : Cached G → Type 0
  Fits e = length (cached G e) ≤ lru.max_entries

  pub add_lem :
      (r : Link) (ls : List Link) (ds : List (Dag Link)) (e : Cached G)
      → IsNew G r e
      → 0 < lru.max_entries
      → Fits e
      → ((j : Link) → total G j (cached G e) + total G j ((r, ls) ∷ ds) < word_mod)
      → Balanced G (λ j. total G j ((r, ls) ∷ ds)) e
      → Post
          (perform_on_cache G (lru.add r ls))
          e
          (λ _ t. Balanced G (λ j. total G j ds) t × (t.cache ≡ (lru.add r ls e.cache).0) × Fits t)
          (Faulty G)
  add_lem r ls ds e new some_room fits room c =
      Post-weaken (perform_on_cache G (lru.add r ls)) e
        (perform_lem G (lru.add r ls) (λ j. total G j ds) e
          (λ j. subst (λ n. n < word_mod) (sum j) (room j)) (Counts-eq G (view G e) _ _ sum c))
        (λ _ t p. (
          p.0,
          p.1,
          subst (λ s. length (lru.contents s) ≤ lru.max_entries) (sym p.1)
              (lru.add_bounded r ls e.cache fits some_room),
        ))
        (λ _ _ f. f)
    where
      sum :
          (j : Link)
          → total G j (cached G e) + total G j ((r, ls) ∷ ds)
            ≡ total G j (lru.contents (lru.add r ls e.cache).0)
              + total G j ds
              + total G j (lru.add r ls e.cache).1
      sum j = omega (
        arith,
        total-append G j (lru.contents (lru.add r ls e.cache).0) (lru.add r ls e.cache).1,
        ap (total G j) (lru.add_new r ls e.cache new),
      )
