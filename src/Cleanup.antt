-- ===== src/Cleanup.antt =====
-- engine/datastore.go: deleting every record under a prefix, in batches. The deadline is left out.
pub mod Deleted
pub mod Whole
mod Tests
use index_provider.Prelude.{
  ℕ, suc, ◌≡◌, ◌≢◌, ◌⊎◌, Bool, true, false, Option, none, some, List, [], ◌∷◌, leb,
}
use index_provider.Exec.{
  Error, wrap, Result, ok, err, Exec, pure, raise, lift, relabel, ◌>>=◌, ◌>>◌,
}
use index_provider.Exec.Post.{Post}
use index_provider.Datastore.{Datastore}
use index_provider.Datastore.Queries.{Queries}

abbrev pub In : {K : Type 0} → K → List K → Type 0
In k [] = ⊥
In k (j ∷ ks) = (j ≡ k) ⊎ In k ks

module _ {K V : Type 0} where
  -- The keys are deleted, and no other.
  pub record Erases (ks : List K) (v w : K → Option V) : Type 0 where
    pub gone : (k : K) → In k ks → w k ≡ none
    pub kept : (k : K) → ¬ In k ks → w k ≡ v k

-- `Batch` of ipfs/go-datastore, for deletions. A commit that fails may have deleted some of the keys; one
-- that succeeds has deleted them all, and the batch may keep them or not.
pub record Batches {K V : Type 0} {dec : Discrete K} (D : Datastore K V dec) : Type 1 where
  pub Batch : Type 0
  pub pending : Batch → List K
  pub new_batch : Exec D.State Batch
  pub new_batch_lem :
      (s : D.State)
      → Post new_batch s
          (λ b t. (pending b ≡ []) × (D.view t ≡ D.view s))
          (λ _ t. D.view t ≡ D.view s)
  pub delete_in : K → Batch → Result Batch
  pub delete_in_lem : (k : K) (b b' : Batch) → delete_in k b ≡ ok b' → pending b' ≡ k ∷ pending b
  pub commit : Batch → Exec D.State Batch
  pub commit_lem :
      (b : Batch) (s : D.State)
      → Post
          (commit b)
          s
          (λ b' t.
            Erases (pending b) (D.view s) (D.view t)
            × ((pending b' ≡ []) ⊎ (pending b' ≡ pending b)))
          (λ _ t. (k : K) → ¬ In k (pending b) → D.view t k ≡ D.view s k)

pub record Setup : Type 1 where
  pub Key : Type 0
  pub Value : Type 0
  pub key_discrete : Discrete Key
  pub store : Datastore Key Value key_discrete
  pub queries : Queries store
  pub batches : Batches store
  pub is_empty : Key → Bool
  -- whether a query with the prefix gives the key
  pub under : Key → Key → Bool

abbrev pub update_batch_size : ℕ
update_batch_size = 500000

module _ (G : Setup) where
  open G use {Key, Value, store as D, queries, batches as B, is_empty, under}

  pub record Progress : Type 0 where
    pub batch : B.Batch
    pub key_count : ℕ
    pub write_count : ℕ

  unfoldable pub commit_batch : B.Batch → Exec D.State B.Batch
  unfolding relabel
  commit_batch b = relabel (wrap "cannot commit datastore") (B.commit b)

  unfoldable pub flush_full : Bool → Progress → Exec D.State Progress
  unfolding ◌>>=◌ commit_batch
  flush_full false p = pure p
  flush_full true p = do b ← commit_batch p.batch; pure (record p { batch = b; write_count = 0 })

  unfoldable pub delete_key : Bool → Key → Progress → Exec D.State Progress
  unfolding ◌>>=◌
  delete_key true k p = pure p
  delete_key false k p = do
    b ← lift (B.delete_in k p.batch)
    pure (record { batch = b; key_count = suc p.key_count; write_count = suc p.write_count })

  unfoldable pub delete_entry : Result (Key × Value) → Progress → Exec D.State Progress
  unfolding delete_key relabel
  delete_entry (err e) p = raise (wrap "cannot read query result from datastore" e)
  delete_entry (ok (k, v)) p =
      relabel (wrap "cannot delete key from datastore") (delete_key (is_empty k) k p)

  unfoldable pub delete_entries : List (Result (Key × Value)) → Progress → Exec D.State Progress
  unfolding ◌>>=◌ flush_full delete_entry
  delete_entries [] p = pure p
  delete_entries (r ∷ rs) p = do
    q ← flush_full (leb update_batch_size p.write_count) p
    q' ← delete_entry r q
    delete_entries rs q'

  unfoldable pub delete_prefix : Key → Exec D.State ℕ
  unfolding ◌>>=◌ relabel commit_batch delete_entries
  delete_prefix prefix = do
    rs ← relabel (wrap "cannot query datastore") (queries.query (under prefix))
    b ← relabel (wrap "cannot create datastore batch") B.new_batch
    p ← delete_entries rs (record { batch = b; key_count = 0; write_count = 0 })
    commit_batch p.batch
    D.sync
    pure p.key_count
