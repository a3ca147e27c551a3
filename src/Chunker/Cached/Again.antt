-- ===== src/Chunker/Cached/Again.antt =====
-- `Chunk` with a root that is already in the cache.
use mathlib.Core.Path.{subst}
use index_provider.Prelude.{ℕ, ◌+◌, ◌<◌, ◌≡◌, sym, ap, ◌∙◌, Option, some, List, ◌∷◌, ◌++◌, arith}
use index_provider.Exec.{ok, ok-injective}
use index_provider.Exec.Post.{Post, Post-bind, Post-weaken}
use index_provider.Words.{word_mod}
use index_provider.Chunker.Cached.{Setup, Cached, Dag, links_of, encode_links, remember, chunk}
use index_provider.Chunker.Cached.Overlap.{view, Faulty}
use index_provider.Chunker.Cached.Accounting.{count, total, total-append, Counts, Counts-eq}
use index_provider.Chunker.Cached.Balance.{cached, Balanced, HasRoom, perform_lem, finish_lem}
use index_provider.Chunker.Cached.Chunks.{Blamed, chunk_lem}

module _ (G : Setup) (r : G.Link) (old : List G.Link) (before after : List (Dag G.Link)) where
  open G use {Link, lru, Iterator, dag}

  -- One reference more for each link of the DAG that was cached under the root.
  abbrev pub leaked : (Link → ℕ) → Link → ℕ
  leaked extra j = extra j + count G j old

  remember-again :
      (ls : List Link) (extra : Link → ℕ) (e : Cached G)
      → cached G e ≡ before ++ (r, old) ∷ after
      → ((j : Link) → total G j (cached G e) + extra j + count G j ls < word_mod)
      → Counts G (view G e) (λ j. total G j (cached G e) + extra j + count G j ls)
      → Post (remember G (some r) ls) e (λ _ t. Balanced G (leaked extra) t) (Faulty G)
  unfolding remember
  remember-again ls extra e is room c =
      Post-bind _ _ e
        (perform_lem G (lru.add r ls) (leaked extra) e
          (λ j. subst (λ n. n < word_mod) (sum j) (room j)) (Counts-eq G (view G e) _ _ sum c))
        (λ _ t p.
          Post-weaken _ t (finish_lem G r (encode_links G ls) (leaked extra) t p.0) (λ _ _ q. q.1)
            (λ _ _ x. x))
        (λ _ _ x. x)
    where
      sum :
          (j : Link)
          → total G j (cached G e) + extra j + count G j ls
            ≡ total G j (lru.contents (lru.add r ls e.cache).0)
              + leaked extra j
              + total G j (lru.add r ls e.cache).1
      sum j =
          let now = lru.add_again r ls old before after e.cache is in
          omega (
            arith,
            ap (total G j) is,
            total-append G j before ((r, old) ∷ after),
            total-append G j before after,
            ap (total G j) now.0,
            ap (total G j) now.1,
          )

  -- If the root that the inner chunker returns is in the cache already, a call of `Chunk` that
  -- succeeds leaves, for each link of the DAG that was cached there, one reference more than the
  -- cached DAGs have. It fails only if the datastore or the inner chunker does.
  pub chunk-again :
      (it : Iterator) (extra : Link → ℕ) (e : Cached G)
      → Balanced G extra e
      → HasRoom G it extra e
      → (dag it).1 ≡ ok (some r)
      → cached G e ≡ before ++ (r, old) ∷ after
      → Post (chunk G it) e (λ _ t. Balanced G (leaked extra) t) (Blamed G it)
  chunk-again it extra e c room root is =
      chunk_lem G it extra (λ _ t. Balanced G (leaked extra) t) e c room
        (λ o t p same d. rw (found o p) (
          remember-again (links_of G (dag it).0) extra t (ap lru.contents same ∙ is)
            (λ j.
              subst
                (λ s.
                  total G j (lru.contents s) + extra j + count G j (links_of G (dag it).0)
                  < word_mod)
                (sym same) (room j))
            d))
    where
      found : (o : Option Link) → (dag it).1 ≡ ok o → o ≡ some r
      found o p = ok-injective _ _ (sym p ∙ root)
