-- ===== src/Chunker/Cached/Restore/Cleared.antt =====
-- Clearing the cache empties it and the datastore.
use index_provider.Prelude.{
  ℕ, ◌≡◌, ◌≢◌, refl, ap, ◌∙◌, inl, inr, Bool, true, Option, none, some, List, [], ◌∷◌, if_pos,
  if_neg, String, if◌then◌else◌, ltb, ◌==◌,
}
use index_provider.Exec.{Error, Result, ok, err, wrap, Exec, pure, raise, lift, recover, ◌>>=◌}
use index_provider.Exec.Post.{
  Post, Post-pure, Post-raise, Post-bind, Post-weaken, Post-zoom, Post-any,
}
use index_provider.Exec.Within.{
  Within, Within-pure, Within-raise, Within-lift, Within-bind, Within-recover, Within-if,
}
use index_provider.Datastore.Queries.{Queries, Lists}
use index_provider.Schema.{Bytes}
use index_provider.Words.{put_uint64}
use index_provider.Chunker.Cached.{
  Setup, Cached, Dag, Key, block, overlap, key_discrete, on_ds, with_ds, read_overlap,
  decrement_overlap, decrement_from, store_decremented, count_overlap, release, release_all,
  on_evicted, evict_all, perform_on_cache,
}
use index_provider.Chunker.Cached.Overlap.{view, updated, delete_lem}
use index_provider.Chunker.Cached.Restore.{CidReader, Results, delete_listed, delete_all, clear}

module _ (G : Setup) where
  open G use {Link, link_discrete, store as D, lru}

  -- The cache stays.
  abbrev Same : Cached G → Cached G → Type 0
  Same e t = t.cache ≡ e.cache

  abbrev W : {A : Type 0} → Exec (Cached G) A → Type 0
  W = Within Same

  K-pure : {A : Type 0} (a : A) → W (pure a)
  K-pure = Within-pure Same (λ _. refl) (λ a b c p q. q ∙ p)

  K-raise : {A : Type 0} (x : Error) → W (raise {A = A} x)
  K-raise = Within-raise Same (λ _. refl) (λ a b c p q. q ∙ p)

  K-lift : {A : Type 0} (r : Result A) → W (lift r)
  K-lift = Within-lift Same (λ _. refl) (λ a b c p q. q ∙ p)

  K-bind :
      {A B : Type 0} (m : Exec (Cached G) A) (f : A → Exec (Cached G) B)
      → W m
      → ((a : A) → W (f a))
      → W (m >>= f)
  K-bind = Within-bind Same (λ _. refl) (λ a b c p q. q ∙ p)

  K-recover :
      {A B : Type 0} (m : Exec (Cached G) A) (f : A → Exec (Cached G) B)
      (g : Error → Exec (Cached G) B)
      → W m
      → ((a : A) → W (f a))
      → ((x : Error) → W (g x))
      → W (recover m f g)
  K-recover = Within-recover Same (λ _. refl) (λ a b c p q. q ∙ p)

  K-ds : {A : Type 0} (m : Exec D.State A) → W (on_ds G m)
  unfolding on_ds
  K-ds m = record {
    at = λ e.
        Post-zoom (λ x. x.ds) (with_ds G) m e (Post-any m e.ds) (λ _ _ _. refl) (λ _ _ _. refl);
  }

  ruleset rules = (K-pure, K-raise, K-lift, K-bind, K-ds)

  K-read : (l : Link) → W (read_overlap G l)
  unfolding read_overlap
  K-read l = search rules

  K-if : {A : Type 0} (b : Bool) (m n : Exec (Cached G) A) → W m → W n → W (if b then m else n)
  K-if = Within-if Same (λ _. refl) (λ a b c p q. q ∙ p)

  K-store : (l : Link) (n : ℕ) → W (store_decremented G l n)
  unfolding store_decremented
  K-store l n =
      K-if (ltb n 1) (on_ds G (D.delete (overlap l))) (on_ds G (D.put (overlap l) (put_uint64 n)))
        (K-ds (D.delete (overlap l))) (K-ds (D.put (overlap l) (put_uint64 n)))

  K-from : (l : Link) (o : Option ℕ) → W (decrement_from G l o)
  unfolding decrement_from
  K-from l none = K-pure tt
  K-from l (some n) = K-store l _

  K-decrement : (l : Link) → W (decrement_overlap G l)
  unfolding decrement_overlap
  K-decrement l = search (rules, K-read, K-from)

  K-count : (l : Link) → W (count_overlap G l)
  unfolding count_overlap
  K-count l = search (rules, K-read)

  K-release : (l : Link) → W (release G l)
  unfolding release
  K-release l = K-bind (count_overlap G l) _ (K-count l) (λ n.
      K-if (n == 0) (on_ds G (D.delete (block l))) (decrement_overlap G l)
        (K-ds (D.delete (block l))) (K-decrement l))

  K-release_all : (ls : List Link) → W (release_all G ls)
  unfolding release_all
  K-release_all [] = K-pure tt
  K-release_all (l ∷ ls) =
      K-bind (release G l) (λ _. release_all G ls) (K-release l) (λ _. K-release_all ls)

  K-evicted : (d : Dag Link) → W (on_evicted G d)
  unfolding on_evicted
  K-evicted (r, ls) = search (rules, K-release_all)

  evict_all-Same : (ds : List (Dag Link)) (o : Option Error) → W (evict_all G ds o)
  unfolding evict_all
  evict_all-Same [] none = K-pure tt
  evict_all-Same [] (some x) = K-raise x
  evict_all-Same (d ∷ ds) o =
      K-recover (on_evicted G d) _ _ (K-evicted d) (λ _. evict_all-Same ds o)
        (λ x. evict_all-Same ds (some x))

  -- An operation of the cache leaves the cache as the operation does.
  pub perform_on_cache-cache :
      (action : lru.State → lru.State × List (Dag Link)) (e : Cached G)
      → Post
          (perform_on_cache G action)
          e
          (λ _ t. t.cache ≡ (action e.cache).0)
          (λ _ t. t.cache ≡ (action e.cache).0)
  unfolding perform_on_cache
  perform_on_cache-cache action e = record {
    at = ((evict_all-Same (action e.cache).1 none).at (record e { cache = (action e.cache).0 })).at;
  }

  module _ (R : CidReader G) (queries : Queries G.store) where
    -- Every key that holds something is listed.
    abbrev Complete : Results G R queries → Cached G → Type 0
    Complete rs e = (k : Key Link) → view G e k ≢ none → Lists k rs

    abbrev pub IsEmpty : Cached G → Type 0
    IsEmpty e = (k : Key Link) → view G e k ≡ none

    absent : (o : Option Bytes) → ¬ (o ≢ none) → o ≡ none
    absent none h = refl
    absent (some b) h = absurd (h (λ p. cc (p)))

    rest_listed :
        (k : Key Link) (b : Bytes) (rs : Results G R queries) (e t : Cached G)
        → Complete (ok (k, b) ∷ rs) e
        → view G t ≡ updated G (view G e) k none
        → Complete rs t
    rest_listed k b rs e t c p j h = elim (key_discrete link_discrete k j) [
      | yes q ↦
          absurd (h (ap (λ v. v j) p ∙ if_pos (key_discrete link_discrete k j) q none (view G e j)))
      | no q ↦
          elim (c j (λ x.
            h (
              ap (λ v. v j) p ∙ if_neg (key_discrete link_discrete k j) q none (view G e j) ∙ x))) [
                | inl x ↦ absurd (q x)
                | inr x ↦ x
              ]
    ]

    delete_listed_lem :
        (what : String) (rs : Results G R queries) (e : Cached G)
        → Complete rs e
        → Post (delete_listed G R queries what rs) e (λ _ t. IsEmpty t × Same e t) (λ _ _. Unit {0})
    unfolding delete_listed
    delete_listed_lem what [] e c = Post-pure tt e (λ k. absent (view G e k) (c k), refl)
    delete_listed_lem what (err x ∷ rs) e c = Post-raise (wrap what x) e tt
    delete_listed_lem what (ok (k, b) ∷ rs) e c =
        Post-bind (on_ds G (D.delete k)) (λ _. delete_listed G R queries what rs) e
          (delete_lem G k e)
          (λ _ t p.
            Post-weaken (delete_listed G R queries what rs) t
              (delete_listed_lem what rs t (rest_listed k b rs e t c p.0))
              (λ _ u q. (q.0, q.1 ∙ p.1)) (λ _ _ _. tt))
          (λ _ _ _. tt)

    query_all :
        (e : Cached G)
        → Post
            (on_ds G (queries.query (λ _. true)))
            e
            (λ rs t. Complete rs t × Same e t)
            (λ _ _. Unit {0})
    unfolding on_ds
    query_all e =
        Post-zoom (λ x. x.ds) (with_ds G) (queries.query (λ _. true)) e
          (queries.query_lem (λ _. true) e.ds)
          (λ rs d p. (λ k h. p.2 k refl (λ x. h (ap (λ v. v k) p.0 ∙ x)), refl)) (λ _ _ _. tt)

    pub delete_all_lem :
        (what : String) (e : Cached G)
        → Post (delete_all G R queries what) e (λ _ t. IsEmpty t × Same e t) (λ _ _. Unit {0})
    unfolding delete_all
    delete_all_lem what e =
        Post-bind (on_ds G (queries.query (λ _. true))) (delete_listed G R queries what) e
          (query_all e)
          (λ rs t p.
            Post-weaken (delete_listed G R queries what rs) t (delete_listed_lem what rs t p.0)
              (λ _ u q. (q.0, q.1 ∙ p.1)) (λ _ _ _. tt))
          (λ _ _ _. tt)

    -- If `Clear` succeeds then nothing is left in the cache and nothing in the datastore, whatever was
    -- there.
    pub clear-IsEmpty :
        (e : Cached G)
        → Post
            (clear G R queries)
            e
            (λ _ t. IsEmpty t × (lru.contents t.cache ≡ []))
            (λ _ _. Unit {0})
    unfolding clear
    clear-IsEmpty e =
        Post-bind (perform_on_cache G lru.clear)
          (λ _. delete_all G R queries "cannot list cache key to clear") e
          (perform_on_cache-cache lru.clear e)
          (λ _ t p.
            Post-weaken (delete_all G R queries "cannot list cache key to clear") t
              (delete_all_lem "cannot list cache key to clear" t)
              (λ _ u q. (q.0, ap lru.contents (q.1 ∙ p) ∙ (lru.clear_lem e.cache).0)) (λ _ _ _. tt))
          (λ _ _ _. tt)
