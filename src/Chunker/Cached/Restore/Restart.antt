-- ===== src/Chunker/Cached/Restore/Restart.antt =====
-- A chunker that is made again over the datastore of one that was in balance is in balance.
use mathlib.Core.Path.{subst}
use index_provider.Prelude.{
  ◌<◌, ◌≤◌, ◌≡◌, ◌≢◌, refl, sym, ap, ◌∙◌, Bool, true, false, List, [], ◌∷◌,
}
use index_provider.Exec.{Result, pure, ◌>>=◌}
use index_provider.Exec.Post.{Post, Post-pure, Post-bind, Post-weaken, Post-recover, Post-lift-bind}
use index_provider.Datastore.Queries.{Queries}
use index_provider.Words.{word_mod}
use index_provider.Chunker.Cached.{Setup, Cached, Dag, on_ds}
use index_provider.Chunker.Cached.Overlap.{view, Faulty}
use index_provider.Chunker.Cached.Accounting.{total, Counts}
use index_provider.Chunker.Cached.Balance.{cached, Balanced, nothing}
use index_provider.Chunker.Cached.Restore.{
  CidReader, is_root, restore_all, prune, restore_cache, clear, restore_or_clear,
  new_cached_entries_chunker, len, cap,
}
use index_provider.Chunker.Cached.Restore.Cleared.{IsEmpty, clear-IsEmpty}
use index_provider.Chunker.Cached.Restore.Restored.{
  root_entries, start, query_roots, IsEmpty-Balanced,
}
use index_provider.Chunker.Cached.Restore.Adding.{Distinct, Fits}
use index_provider.Chunker.Cached.Restore.Cleared.{delete_all_lem}

-- With a positive capacity, over the datastore, whose query for the root keys lists the DAGs `ds`, with an empty cache.
module _ (G : Setup) (R : CidReader G) (queries : Queries G.store)
    (some_room : 0 < G.lru.max_entries) (ds : List (Dag G.Link)) (e : Cached G)
    (distinct : Distinct G ds) (empty : cached G e ≡ [])
    (room : (j : G.Link) → total G j ds < word_mod)
    (balanced : Counts G (view G e) (λ j. total G j ds))
    (listed : Post
      (queries.query (is_root G R queries))
      e.ds
      (λ rs _. rs ≡ root_entries G R queries some_room ds)
      (λ _ _. ⊥)) where
  open G use {Link, store as D, lru}

  restored :
      (t : Cached G)
      → view G t ≡ view G e
      → t.cache ≡ e.cache
      → Post
          (restore_all G R queries (root_entries G R queries some_room ds))
          t
          (λ _ u. Balanced G (nothing G) u × Fits G u)
          (Faulty G)
  restored = start G R queries some_room ds e distinct empty room balanced

  -- Where a query for the root keys lists the DAGs of a cache that was in balance, at least one and
  -- each with its own root, restoring an empty cache of positive capacity leaves it in balance, whatever was evicted
  -- because the capacity is smaller than before, and with at most as many DAGs as the capacity. It
  -- fails only if the datastore does.
  pub restore_cache-Balanced :
      ds ≢ []
      → Post
          (restore_cache G R queries)
          e
          (λ _ t. Balanced G (nothing G) t × (len G R queries t ≤ cap G R queries))
          (Faulty G)
  unfolding restore_cache len cap prune
  restore_cache-Balanced some_dag =
      Post-bind (on_ds G (queries.query (is_root G R queries))) _ e
        (query_roots G R queries some_room ds e listed)
        (λ rs t p. rw (p.0) (
          Post-bind (restore_all G R queries (root_entries G R queries some_room ds)) _ t
            (restored t p.1 p.2) (λ _ u q. kept ds u some_dag q) (λ _ _ f. f)))
        (λ _ _ f. absurd f)
    where
      kept :
          (xs : List (Dag Link)) (u : Cached G)
          → xs ≢ []
          → Balanced G (nothing G) u × Fits G u
          → Post
              (prune G R queries (root_entries G R queries some_room xs))
              u
              (λ _ t. Balanced G (nothing G) t × Fits G t)
              (Faulty G)
      kept [] u h q = absurd (h refl)
      kept (x ∷ xs) u h q = Post-pure tt u q

  emptied : (t : Cached G) → IsEmpty G R queries t → cached G t ≡ [] → Balanced G (nothing G) t
  emptied = IsEmpty-Balanced G R queries some_room ds e distinct empty room balanced

  -- What follows the query for the root keys.
  rest :
      (xs : List (Dag Link)) (t : Cached G)
      → xs ≡ ds
      → view G t ≡ view G e
      → t.cache ≡ e.cache
      → Post
          (restore_all G R queries (root_entries G R queries some_room xs) >>= λ _.
            prune G R queries (root_entries G R queries some_room xs))
          t
          (λ _ u. Balanced G (nothing G) u)
          (λ _ _. Unit {0})
  unfolding prune restore_all
  rest [] t p q r =
      Post-bind {P = λ _ u. u ≡ t} {F = λ _ _. ⊥} (restore_all G R queries [])
        (λ _. prune G R queries []) t (Post-pure tt t refl)
        (λ _ u h.
          Post-weaken (prune G R queries []) u
            (delete_all_lem G R queries "cannot read cache key" u)
            (λ _ v k. emptied v k.0 (ap lru.contents (k.1 ∙ ap (λ x. x.cache) h ∙ r) ∙ empty))
            (λ _ _ _. tt))
        (λ _ _ f. absurd f)
  rest (x ∷ xs) t p q r =
      Post-bind (restore_all G R queries (root_entries G R queries some_room (x ∷ xs)))
        (λ _. prune G R queries (root_entries G R queries some_room (x ∷ xs))) t
        (subst
          (λ l.
            Post (restore_all G R queries (root_entries G R queries some_room l)) t
              (λ _ u. Balanced G (nothing G) u × Fits G u) (Faulty G))
          (sym p) (restored t q r))
        (λ _ u h. Post-pure tt u h.0) (λ _ _ _. tt)

  cleared :
      (t : Cached G)
      → Post (clear G R queries) t (λ _ u. Balanced G (nothing G) u) (λ _ _. Unit {0})
  cleared t =
      Post-weaken (clear G R queries) t (clear-IsEmpty G R queries t) (λ _ u k. emptied u k.0 k.1)
        (λ _ _ _. tt)

  restore_cache_lem :
      Post (restore_cache G R queries) e (λ _ u. Balanced G (nothing G) u) (λ _ _. Unit {0})
  unfolding restore_cache
  restore_cache_lem =
      Post-bind (on_ds G (queries.query (is_root G R queries))) _ e
        (query_roots G R queries some_room ds e listed)
        (λ rs t p. rw (p.0) (rest ds t refl p.1 p.2)) (λ _ _ _. tt)

  -- Where a query for the root keys lists the DAGs of a cache that was in balance, each with its own
  -- root, `NewCachedEntriesChunker` with a positive capacity leaves an empty cache in balance if it succeeds, with the purge flag
  -- and without, also if restoring fails half-way and everything is cleared instead.
  pub new_cached_entries_chunker-Balanced :
      (new_chunker : Result (Unit {0})) (purge : Bool)
      → Post
          (new_cached_entries_chunker G R queries new_chunker purge)
          e
          (λ _ t. Balanced G (nothing G) t)
          (λ _ _. Unit {0})
  unfolding new_cached_entries_chunker restore_or_clear
  new_cached_entries_chunker-Balanced new_chunker purge =
      Post-lift-bind new_chunker (λ _. restore_or_clear G R queries purge) e (λ _ _. either purge)
        (λ _ _. tt)
    where
      either :
          (purge : Bool)
          → Post
              (restore_or_clear G R queries purge)
              e
              (λ _ t. Balanced G (nothing G) t)
              (λ _ _. Unit {0})
      either true = cleared e
      either false =
          Post-recover (restore_cache G R queries) pure (λ _. clear G R queries) e restore_cache_lem
            (λ _ t h. Post-pure _ t h) (λ _ t _. cleared t)
