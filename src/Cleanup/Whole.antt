-- ===== src/Cleanup/Whole.antt =====
-- `deletePrefix` as a whole.
use mathlib.Core.Path.{subst}
use index_provider.Prelude.{
  ◌≡◌, ◌≢◌, refl, sym, ap, ◌∙◌, ◌⊎◌, inl, inr, true, false, Option, none, some, List, [], All,
}
use index_provider.Exec.{wrap, Result, pure, relabel, ◌>>=◌}
use index_provider.Exec.Post.{Post, Post-pure, Post-bind, Post-relabel}
use index_provider.Datastore.Queries.{IsEntry, Lists}
use index_provider.Cleanup.{Setup, commit_batch, delete_entries, delete_prefix}
use index_provider.Cleanup.Deleted.{
  Outside, Safe, Handled, Inside, commit_batch-Outside, delete_entries-Goes,
}

module _ (G : Setup) (prefix : G.Key) (s : G.store.State) where
  open G use {Key, Value, store as D, queries, batches as B, is_empty, under}

  abbrev Kept : D.State → Type 0
  Kept t = Outside G prefix (D.view s) t

  -- Every key with a text under the prefix is gone.
  abbrev pub Cleaned : D.State → Type 0
  Cleaned t = (k : Key) → under prefix k ≡ true → is_empty k ≡ false → D.view t k ≡ none

  Kept-eq : (t u : D.State) → D.view u ≡ D.view t → Kept t → Kept u
  Kept-eq t u p h k f = ap (λ v. v k) p ∙ h k f

  start : (b : B.Batch) (t : D.State) → B.pending b ≡ [] → Kept t → Safe G prefix (D.view s) b t
  start b t p h = (h, subst (Inside G prefix (D.view s)) (sym p) (λ k x. absurd x))

  queried :
      Post
        (relabel (wrap "cannot query datastore") (queries.query (under prefix)))
        s
        (λ rs t.
          (D.view t ≡ D.view s)
          × All (IsEntry (under prefix) (D.view s)) rs
          × ((k : Key) → under prefix k ≡ true → D.view s k ≢ none → Lists k rs))
        (λ _ t. Kept t)
  queried =
      Post-relabel (λ _ t. Kept t) (wrap "cannot query datastore") (queries.query (under prefix)) s
        (queries.query_lem (under prefix) s) (λ _ _ p. p) (λ _ t p k f. ap (λ v. v k) p)

  batched :
      (t : D.State)
      → D.view t ≡ D.view s
      → Post
          (relabel (wrap "cannot create datastore batch") B.new_batch)
          t
          (λ b u. (B.pending b ≡ []) × (D.view u ≡ D.view s))
          (λ _ u. Kept u)
  batched t p =
      Post-relabel (λ _ u. Kept u) (wrap "cannot create datastore batch") B.new_batch t
        (B.new_batch_lem t) (λ b u q. (q.0, q.1 ∙ p)) (λ _ u q k f. ap (λ v. v k) (q ∙ p))

  there_or_not : (o : Option Value) → (o ≡ none) ⊎ (o ≢ none)
  there_or_not none = inl refl
  there_or_not (some x) = inr (λ p. cc (p))

  -- If deletePrefix succeeds then every key under the prefix, other than an empty one, is gone and every
  -- other key is as it was. If it fails, the keys that are not under the prefix are as they were.
  pub delete_prefix-Cleaned :
      Post
        (delete_prefix G prefix)
        s
        (λ _ t. Cleaned t × ((k : Key) → under prefix k ≡ false → D.view t k ≡ D.view s k))
        (λ _ t. (k : Key) → under prefix k ≡ false → D.view t k ≡ D.view s k)
  unfolding delete_prefix
  delete_prefix-Cleaned =
      Post-bind (relabel (wrap "cannot query datastore") (queries.query (under prefix))) _ s queried
        (λ rs t p.
          Post-bind (relabel (wrap "cannot create datastore batch") B.new_batch) _ t (batched t p.0)
            (λ b u q. rest rs b u p.1 p.2 q.0 q.1) (λ _ _ x. x))
        (λ _ _ x. x)
    where
      rest :
          (rs : List (Result (Key × Value))) (b : B.Batch) (u : D.State)
          → All (IsEntry (under prefix) (D.view s)) rs
          → ((k : Key) → under prefix k ≡ true → D.view s k ≢ none → Lists k rs)
          → B.pending b ≡ []
          → D.view u ≡ D.view s
          → Post
              (delete_entries G rs (record { batch = b; key_count = 0; write_count = 0 }) >>= λ p.
                commit_batch G p.batch >>= λ _. D.sync >>= λ _. pure p.key_count)
              u
              (λ _ t. Cleaned t × Kept t)
              (λ _ t. Kept t)
      rest rs b u is all p q =
          Post-bind (delete_entries G rs (record { batch = b; key_count = 0; write_count = 0 })) _ u
            (delete_entries-Goes G prefix (D.view s) rs
              (record { batch = b; key_count = 0; write_count = 0 }) u is
              (start b u p (λ k f. ap (λ v. v k) q)))
            (λ r w h.
              Post-bind (commit_batch G r.batch) (λ _. D.sync >>= λ _. pure r.key_count) w
                (commit_batch-Outside G prefix (D.view s) r.batch w h.1)
                (λ b' x c.
                  Post-bind D.sync (λ _. pure r.key_count) x (D.sync_lem x)
                    (λ _ y z. Post-pure r.key_count y (
                      (λ k m e. ap (λ v. v k) z ∙ c.0 k (h.0 k e (found k m))),
                      Kept-eq x y z c.1.0,
                    ))
                    (λ _ y z. Kept-eq x y z c.1.0))
                (λ _ _ z. z))
            (λ _ _ z. z)
        where
          found : (k : Key) → under prefix k ≡ true → Handled G prefix (D.view s) k b u ⊎ Lists k rs
          found k m = elim (there_or_not (D.view s k)) [
            | inl h ↦ inl (inr (ap (λ v. v k) q ∙ h))
            | inr h ↦ inr (all k m h)
          ]
