-- ===== src/Chunker/Cached/Chunks.antt =====
-- What a call of `Chunk` does to the balance, with a root that is new to the cache and with one that
-- is there.
use mathlib.Core.Path.{subst}
use index_provider.Prelude.{
  ℕ, ◌+◌, ◌<◌, ◌≡◌, sym, ap, ◌∙◌, ◌⊎◌, inl, inr, Option, none, some, [], arith,
}
use index_provider.Exec.{Error, ok, err}
use index_provider.Exec.Post.{Post, Post-pure, Post-bind, Post-weaken, Post-lift-bind}
use index_provider.Words.{word_mod}
use index_provider.Chunker.Cached.{Setup, Cached, links_of, remember, chunk}
use index_provider.Chunker.Cached.Overlap.{view, Faulty}
use index_provider.Chunker.Cached.Accounting.{count, total, Counts, Counts-eq, commit_all_lem}
use index_provider.Chunker.Cached.Balance.{cached, Balanced, IsNew, HasRoom, remember-new}

module _ (G : Setup) where
  open G use {Link, store as D, lru, Iterator, dag}

  -- The call fails because the datastore or the inner chunker does.
  abbrev pub Blamed : Iterator → Error → Cached G → Type 0
  Blamed it x _ = (D.Reliable → ⊥) ⊎ ((dag it).1 ≡ err x)

  -- The stores of the inner chunker, and then what is done with its root.
  pub chunk_lem :
      (it : Iterator) (extra : Link → ℕ) (Q : Option Link → Cached G → Type 0) (e : Cached G)
      → Balanced G extra e
      → HasRoom G it extra e
      → ((o : Option Link) (t : Cached G)
          → (dag it).1 ≡ ok o
          → t.cache ≡ e.cache
          → Counts G
              (view G t)
              (λ j. total G j (cached G t) + extra j + count G j (links_of G (dag it).0))
          → Post (remember G o (links_of G (dag it).0)) t Q (Faulty G))
      → Post (chunk G it) e Q (Blamed it)
  unfolding chunk
  chunk_lem it extra Q e c room rest =
      Post-bind _ _ e (commit_all_lem G (dag it).0 (λ j. total G j (cached G e) + extra j) e room c)
        (λ _ t p.
          Post-lift-bind (dag it).1 _ t
            (λ o q.
              Post-weaken _ t
                (rest o t q p.1 (
                  subst
                    (λ s. Counts G (view G t) (λ j.
                      total G j (lru.contents s) + extra j + count G j (links_of G (dag it).0)))
                    (sym p.1) p.0))
                (λ _ _ r. r) (λ _ _ r. inl r))
            (λ x q. inr q))
        (λ _ _ r. inl r)

  -- From a cache in balance a call of `Chunk` whose root is new to the cache, and whose inner chunker
  -- stores nothing if it has no root, returns that root and leaves the cache in balance: each link is
  -- stored exactly as often as the cached DAGs refer to it, whatever was evicted. It fails only if
  -- the datastore or the inner chunker does.
  pub chunk-Balanced :
      (it : Iterator) (extra : Link → ℕ) (e : Cached G)
      → Balanced G extra e
      → HasRoom G it extra e
      → ((r : Link) → (dag it).1 ≡ ok (some r) → IsNew G r e)
      → ((dag it).1 ≡ ok none → (dag it).0 ≡ [])
      → Post (chunk G it) e (λ o t. ((dag it).1 ≡ ok o) × Balanced G extra t) (Blamed it)
  unfolding remember
  chunk-Balanced it extra e c room new silent =
      chunk_lem it extra (λ o t. ((dag it).1 ≡ ok o) × Balanced G extra t) e c room rest
    where
      rest :
          (o : Option Link) (t : Cached G)
          → (dag it).1 ≡ ok o
          → t.cache ≡ e.cache
          → Counts G
              (view G t)
              (λ j. total G j (cached G t) + extra j + count G j (links_of G (dag it).0))
          → Post
              (remember G o (links_of G (dag it).0))
              t
              (λ o t. ((dag it).1 ≡ ok o) × Balanced G extra t)
              (Faulty G)
      rest none t p same d = Post-pure none t (
        p,
        Counts-eq G (view G t) _ _
            (λ j. omega (arith, ap (λ bs. count G j (links_of G bs)) (silent p))) d,
      )
      rest (some r) t p same d =
          Post-weaken _ t
            (remember-new G r (links_of G (dag it).0) extra t
              (λ x before after q. new r p x before after (ap lru.contents (sym same) ∙ q))
              (λ j.
                subst
                  (λ s.
                    total G j (lru.contents s) + extra j + count G j (links_of G (dag it).0)
                    < word_mod)
                  (sym same) (room j))
              d)
            (λ o u q. (p ∙ ap ok (sym q.0), q.1)) (λ _ _ x. x)
