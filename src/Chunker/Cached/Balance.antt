-- ===== src/Chunker/Cached/Balance.antt =====
-- `Chunk` keeps the balance between the DAGs in the cache and the blocks in the datastore.
use mathlib.Core.Path.{subst}
use index_provider.Prelude.{ℕ, ◌+◌, ◌<◌, ◌≡◌, ◌≢◌, refl, sym, ap, ◌∙◌, some, List, ◌∷◌, ◌++◌, arith}
use index_provider.Exec.{pure, ◌>>◌}
use index_provider.Exec.Post.{Post, Post-pure, Post-bind, Post-weaken, Post-zoom, Post-unless}
use index_provider.Schema.{Bytes}
use index_provider.Words.{word_mod}
use index_provider.Chunker.Cached.{
  Setup, Cached, Dag, block, overlap, root, on_ds, with_ds, links_of, perform_on_cache,
  encode_links, remember,
}
use index_provider.Chunker.Cached.Overlap.{view, updated, Counted, Faulty, put_lem, off_key}
use index_provider.Chunker.Cached.Accounting.{
  count, total, total-append, Counts, Counts-eq, Counted-off, evict_all_lem,
}

module _ (G : Setup) where
  open G use {Link, link_discrete, store as D, lru, Iterator, dag}

  abbrev pub cached : Cached G → List (Dag Link)
  cached e = lru.contents e.cache

  -- Every link is stored for exactly as many references as the DAGs in the cache have to it, and for
  -- `extra` more.
  abbrev pub Balanced : (Link → ℕ) → Cached G → Type 0
  Balanced extra e = Counts G (view G e) (λ j. total G j (cached e) + extra j)

  abbrev pub nothing : Link → ℕ
  nothing _ = 0

  -- No DAG in the cache has this root.
  abbrev pub IsNew : Link → Cached G → Type 0
  IsNew r e =
      (d : Dag Link) (before after : List (Dag Link)) → cached e ≡ before ++ d ∷ after → d.0 ≢ r

  sync_lem :
      (e : Cached G)
      → Post (on_ds G D.sync) e (λ _ t. (view G t ≡ view G e) × (t.cache ≡ e.cache)) (Faulty G)
  unfolding on_ds
  sync_lem e =
      Post-zoom (λ x. x.ds) (with_ds G) D.sync e
        (Post-unless D.Reliable D.sync e.ds (D.sync_lem e.ds) (D.sync_reliable e.ds))
        (λ _ _ p. (p, refl)) (λ _ _ r. r)

  -- What an operation of the cache leaves: the DAGs that it returns, after its evictions.
  pub perform_lem :
      (action : lru.State → lru.State × List (Dag Link)) (extra : Link → ℕ) (e : Cached G)
      → ((j : Link)
          → total G j (lru.contents (action e.cache).0) + extra j + total G j (action e.cache).1
            < word_mod)
      → Counts G (view G e) (λ j.
        total G j (lru.contents (action e.cache).0) + extra j + total G j (action e.cache).1)
      → Post
          (perform_on_cache G action)
          e
          (λ _ t. Balanced extra t × (t.cache ≡ (action e.cache).0))
          (Faulty G)
  unfolding perform_on_cache
  perform_lem action extra e room c =
      let after : Cached G = record e { cache = (action e.cache).0 } in
      record {
        at =
            (Post-weaken _ after
              (evict_all_lem G (action e.cache).1
                (λ j. total G j (lru.contents (action e.cache).0) + extra j) after room c)
              (λ _ t p. (
                subst (λ s. Counts G (view G t) (λ j. total G j (lru.contents s) + extra j))
                    (sym p.1) p.0,
                p.1,
              ))
              (λ _ _ r. r)).at;
      }

  -- The root is written and the datastore synchronised; no block changes.
  pub finish_lem :
      (r : Link) (b : Bytes) (extra : Link → ℕ) (e : Cached G)
      → Balanced extra e
      → Post
          (do on_ds G (D.put (root r) b); on_ds G D.sync; pure (some r))
          e
          (λ o t. (o ≡ some r) × Balanced extra t)
          (Faulty G)
  finish_lem r b extra e c =
      Post-bind _ _ e (put_lem G (root r) b e)
        (λ _ t p.
          Post-bind _ _ t (sync_lem t)
            (λ _ u q. Post-pure (some r) u (refl, settled t u p.0 p.1 q.0 q.1)) (λ _ _ x. x))
        (λ _ _ x. x)
    where
      settled :
          (t u : Cached G)
          → view G t ≡ updated G (view G e) (root r) (some b)
          → t.cache ≡ e.cache
          → view G u ≡ view G t
          → u.cache ≡ t.cache
          → Balanced extra u
      settled t u p p' q q' = λ j.
          subst (λ s. Counted G (view G u) j (total G j (lru.contents s) + extra j)) (sym (q' ∙ p'))
            (Counted-off G (view G e) (view G u) j _
              (ap (λ v. v (block j)) q
                ∙ off_key G (view G e) (view G t) (root r) (block j) (some b) p (λ x. absurd (cc)))
              (ap (λ v. v (overlap j)) q
                ∙ off_key G (view G e) (view G t) (root r) (overlap j) (some b) p
                    (λ x. absurd (cc)))
              (c j))

  -- The room that a call of `Chunk` needs in the 64-bit counts.
  abbrev pub HasRoom : Iterator → (Link → ℕ) → Cached G → Type 0
  HasRoom it extra e =
      (j : Link) → total G j (cached e) + extra j + count G j (links_of G (dag it).0) < word_mod

  -- The links that this call has stored are accounted to no DAG yet.
  pub remember-new :
      (r : Link) (ls : List Link) (extra : Link → ℕ) (e : Cached G)
      → IsNew r e
      → ((j : Link) → total G j (cached e) + extra j + count G j ls < word_mod)
      → Counts G (view G e) (λ j. total G j (cached e) + extra j + count G j ls)
      → Post (remember G (some r) ls) e (λ o t. (o ≡ some r) × Balanced extra t) (Faulty G)
  unfolding remember
  remember-new r ls extra e new room c =
      Post-bind _ _ e
        (perform_lem (lru.add r ls) extra e (λ j. subst (λ n. n < word_mod) (sum j) (room j))
          (Counts-eq G (view G e) _ _ sum c))
        (λ _ t p. finish_lem r (encode_links G ls) extra t p.0) (λ _ _ x. x)
    where
      sum :
          (j : Link)
          → total G j (cached e) + extra j + count G j ls
            ≡ total G j (lru.contents (lru.add r ls e.cache).0)
              + extra j
              + total G j (lru.add r ls e.cache).1
      sum j = omega (
        arith,
        total-append G j (lru.contents (lru.add r ls e.cache).0) (lru.add r ls e.cache).1,
        ap (total G j) (lru.add_new r ls e.cache new),
      )
