-- ===== src/Chunker/Cached/Restore/Restored.antt =====
-- Restoring the cache, DAG by DAG.
use mathlib.Core.Path.{subst}
use index_provider.Prelude.{
  suc, ◌+◌, ◌<◌, ◌≤◌, ◌≡◌, ◌≢◌, refl, sym, ap, ◌∙◌, List, [], ◌∷◌, ◌++◌, length, arith,
}
use index_provider.Exec.{ok, ok-injective}
use index_provider.Exec.Post.{Post, Post-pure, Post-bind, Post-zoom, Post-lift-bind, Post-both}
use index_provider.Datastore.Queries.{Queries}
use index_provider.Schema.{Bytes}
use index_provider.Words.{word_mod}
use index_provider.Chunker.Cached.{
  Setup, Cached, Dag, block, overlap, root, on_ds, with_ds, encode_links, perform_on_cache,
}
use index_provider.Chunker.Cached.Overlap.{view, Faulty, Counted}
use index_provider.Chunker.Cached.Accounting.{total, total-append, Counts, Counts-eq}
use index_provider.Chunker.Cached.Balance.{cached, Balanced, nothing, IsNew}
use index_provider.Chunker.Cached.Restore.{
  CidReader, Results, is_root, parse_links, link_from_key, restore_entry, restore_all,
}
use index_provider.Chunker.Cached.Restore.Links.{parse_links-encode_links, encode_links-nonempty}
use index_provider.Chunker.Cached.Restore.Cleared.{IsEmpty}
use index_provider.Chunker.Cached.Restore.Adding.{Distinct, AllNew, AllNew-add, add_lem, Fits}

module _ (G : Setup) where
  open G use {Link, link_discrete, store as D, lru}

  module _ (R : CidReader G) (queries : Queries D) (some_room : 0 < lru.max_entries) where
    -- What a query for the root keys of these DAGs returns.
    abbrev pub root_entries : List (Dag Link) → Results G R queries
    root_entries [] = []
    root_entries ((r, ls) ∷ ds) = ok (root r, encode_links G ls) ∷ root_entries ds

    abbrev Added : Link → List Link → List (Dag Link) → Cached G → Cached G → Type 0
    Added r ls ds e t =
        Balanced G (λ j. total G j ds) t × (t.cache ≡ (lru.add r ls e.cache).0) × Fits G t

    abbrev Room : List (Dag Link) → Cached G → Type 0
    Room ds e = (j : Link) → total G j (cached G e) + total G j ds < word_mod

    restore_entry_lem :
        (r : Link) (ls : List Link) (ds : List (Dag Link)) (b : Bytes) (e : Cached G)
        → b ≡ encode_links G ls
        → ls ≢ []
        → IsNew G r e
        → Fits G e
        → Room ((r, ls) ∷ ds) e
        → Balanced G (λ j. total G j ((r, ls) ∷ ds)) e
        → Post (restore_entry G R queries (root r) b) e (λ _ t. Added r ls ds e t) (Faulty G)
    unfolding restore_entry link_from_key
    restore_entry_lem r [] ds b e p ne new fits room c = absurd (ne refl)
    restore_entry_lem r (l ∷ ls) ds [] e p ne new fits room c =
        absurd (encode_links-nonempty G R queries l ls (sym p))
    restore_entry_lem r (l ∷ ls) ds (x ∷ b) e p ne new fits room c =
        Post-lift-bind (parse_links G R queries (suc (length (x ∷ b))) (x ∷ b)) _ e
          (λ links is. rw (← ok-injective _ _ (sym parsed ∙ is)) (
            Post-lift-bind (ok r) (λ l'. perform_on_cache G (lru.add l' (l ∷ ls))) e
              (λ l' q.
                rw (← ok-injective r l' q) (add_lem G r (l ∷ ls) ds e new some_room fits room c))
              (λ _ q. absurd (cc (q)))))
          (λ x' is. absurd (cc (sym parsed ∙ is)))
      where
        parsed : parse_links G R queries (suc (length (x ∷ b))) (x ∷ b) ≡ ok (l ∷ ls)
        parsed =
            subst (λ b. parse_links G R queries (suc (length b)) b ≡ ok (l ∷ ls)) (sym p)
              (parse_links-encode_links G R queries (l ∷ ls))

    Room-add :
        (r : Link) (ls : List Link) (ds : List (Dag Link)) (e t : Cached G)
        → IsNew G r e
        → Room ((r, ls) ∷ ds) e
        → t.cache ≡ (lru.add r ls e.cache).0
        → Room ds t
    Room-add r ls ds e t new room p j =
        subst (λ s. total G j (lru.contents s) + total G j ds < word_mod) (sym p)
          (omega (
            arith,
            room j,
            total-append G j (lru.contents (lru.add r ls e.cache).0) (lru.add r ls e.cache).1,
            ap (total G j) (lru.add_new r ls e.cache new),
          ))

    restore_all_lem :
        (ds : List (Dag Link)) (e : Cached G)
        → Distinct G ds
        → AllNew G ds e
        → Fits G e
        → Room ds e
        → Balanced G (λ j. total G j ds) e
        → Post
            (restore_all G R queries (root_entries ds))
            e
            (λ _ t. Balanced G (nothing G) t × Fits G t)
            (Faulty G)
    unfolding restore_all
    restore_all_lem [] e d a fits room c = Post-pure tt e (c, fits)
    restore_all_lem ((r, ls) ∷ ds) e d a fits room c =
        Post-bind (restore_entry G R queries (root r) (encode_links G ls))
          (λ _. restore_all G R queries (root_entries ds)) e
          (restore_entry_lem r ls ds (encode_links G ls) e refl d.1 a.0 fits room c)
          (λ _ t p.
            restore_all_lem ds t d.2 (AllNew-add G ds r ls e t d.0 a.0 a.1 p.1) p.2
              (Room-add r ls ds e t a.0 room p.1) p.0)
          (λ _ _ f. f)

    all_new : (ds : List (Dag Link)) (e : Cached G) → cached G e ≡ [] → AllNew G ds e
    all_new [] e p = tt
    all_new ((r, ls) ∷ ds) e p =
        ((λ d before after q. absurd (no_split before d after (sym p ∙ q))), all_new ds e p)
      where
        no_split :
            (before : List (Dag Link)) (d : Dag Link) (after : List (Dag Link))
            → ¬ ([] ≡ before ++ d ∷ after)
        no_split [] d after q = cc (q)
        no_split (b ∷ bs) d after q = cc (q)

    pub query_roots :
        (ds : List (Dag Link)) (e : Cached G)
        → Post (queries.query (is_root G R queries)) e.ds (λ rs _. rs ≡ root_entries ds) (λ _ _. ⊥)
        → Post
            (on_ds G (queries.query (is_root G R queries)))
            e
            (λ rs t. (rs ≡ root_entries ds) × (view G t ≡ view G e) × (t.cache ≡ e.cache))
            (λ _ _. ⊥)
    unfolding on_ds
    query_roots ds e h =
        Post-zoom (λ x. x.ds) (with_ds G) (queries.query (is_root G R queries)) e
          (Post-both _ _ _ _ (queries.query (is_root G R queries)) e.ds h
            (queries.query_lem (is_root G R queries) e.ds))
          (λ rs d p. (p.0, p.1.0, refl)) (λ _ _ p. p.0)

    module _ (ds : List (Dag Link)) (e : Cached G) (distinct : Distinct G ds)
        (empty : cached G e ≡ []) (room : (j : Link) → total G j ds < word_mod)
        (balanced : Counts G (view G e) (λ j. total G j ds)) where
      pub start :
          (t : Cached G)
          → view G t ≡ view G e
          → t.cache ≡ e.cache
          → Post
              (restore_all G R queries (root_entries ds))
              t
              (λ _ u. Balanced G (nothing G) u × Fits G u)
              (Faulty G)
      start t p q =
          restore_all_lem ds t distinct (all_new ds t none_there)
            (subst (λ l. length l ≤ lru.max_entries) (sym none_there) (omega arith))
            (λ j. omega (arith, room j, ap (total G j) none_there))
            (subst (λ v. Counts G v (λ j. total G j (cached G t) + total G j ds)) (sym p)
              (Counts-eq G (view G e) _ _ (λ j. omega (arith, ap (total G j) none_there)) balanced))
        where
          none_there : cached G t ≡ []
          none_there = ap lru.contents q ∙ empty

      pub IsEmpty-Balanced :
          (t : Cached G) → IsEmpty G R queries t → cached G t ≡ [] → Balanced G (nothing G) t
      IsEmpty-Balanced t none_held p j =
          subst (λ n. Counted G (view G t) j n) {x = 0} {y = total G j (cached G t) + 0}
            (omega (arith, ap (total G j) p)) (none_held (block j), none_held (overlap j))
