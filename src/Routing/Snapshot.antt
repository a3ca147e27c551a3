-- ===== src/Routing/Snapshot.antt =====
-- delegatedrouting/ds_wrapper.go: the snapshot of all CIDs with their times, cut into chunks.
use index_provider.Prelude.{
  ℕ, zero, suc, ◌<◌, Bool, true, false, not, ◌&&◌, if◌then◌else◌, Option, none, some, List, [], ◌∷◌,
  ◌++◌, length, take, drop, member, remove,
}
use index_provider.Exec.{wrap, Result, ok, err, Exec, pure, lift, relabel, recover, ◌>>=◌, ◌>>◌}
use index_provider.Schema.{Bytes}
use index_provider.Routing.Queue.{CidNode}
use index_provider.Routing.State.{
  Setup, Listener, Key, snapshot, legacy_snapshot, timestamp_by_cid, key_discrete, on_ds,
}

-- The slices of a list, of the given size but for the last one. The first number bounds the slices.
-- The size has to be positive: with 0 the loop never ends.
unfoldable pub slices {ℓ} : {A : Type ℓ} → ℕ → (size : ℕ) → 0 < size → List A → List (List A)
slices zero size positive xs = []
slices (suc n) size positive [] = []
slices (suc n) size positive (x ∷ xs) =
    take size (x ∷ xs) ∷ slices n size positive (drop size (x ∷ xs))

module _ {Cid : Type 0} where
  -- What the queries with the prefixes "ts" and "tc/" find: not the key "ts" itself.
  abbrev pub is_snapshot : Key Cid → Bool
  is_snapshot (snapshot n) = true
  is_snapshot _ = false

  abbrev pub is_timestamp : Key Cid → Bool
  is_timestamp (timestamp_by_cid c) = true
  is_timestamp _ = false

module _ (G : Setup) where
  open G use {Cid, store as D, queries as Q}

  abbrev keys_discrete : Discrete (Key Cid)
  keys_discrete = key_discrete G.cid_discrete

  -- `Rest`, which stops at an error.
  unfoldable pub keys_of : List (Result (Key Cid × Bytes)) → Result (List (Key Cid))
  keys_of [] = ok []
  keys_of (err e ∷ rs) = err e
  keys_of (ok (k, v) ∷ rs) = elim (keys_of rs) [ err e ↦ err e | ok ks ↦ ok (k ∷ ks) ]

  unfoldable pub with_legacy : Bool → List (Key Cid) → List (Key Cid)
  unfolding member key_discrete
  with_legacy exists keys =
      if exists && not (member keys_discrete legacy_snapshot keys)
      then keys ++ legacy_snapshot ∷ []
      else keys

  unfoldable pub get_snapshot_chunk_keys : Exec (Listener G) (List (Key Cid))
  unfolding ◌>>=◌ relabel on_ds keys_of with_legacy
  get_snapshot_chunk_keys = do
    rs ←
        relabel (wrap "error reading timestamp snapshot keys from the datastore")
          (on_ds G (Q.query is_snapshot))
    keys ←
        relabel (wrap "error reading timestamp snapshot keys from the datastore")
          (lift (keys_of rs))
    exists ←
        relabel (wrap "error reading timestamp snapshot keys from the datastore")
          (on_ds G (D.has legacy_snapshot))
    pure (with_legacy exists keys)

  -- Store the slices from a number on, and return the keys that are not among theirs.
  unfoldable pub put_slices :
      ℕ → List (List (CidNode Cid)) → List (Key Cid) → Exec (Listener G) (List (Key Cid))
  unfolding ◌>>=◌ on_ds remove key_discrete
  put_slices cnt [] old = pure old
  put_slices cnt (sl ∷ sls) old = do
    b ← lift (G.encode_nodes sl)
    on_ds G (D.put (snapshot cnt) b)
    put_slices (suc cnt) sls (remove keys_discrete (snapshot cnt) old)

  unfoldable pub delete_old : List (Key Cid) → Exec (Listener G) (Unit {0})
  unfolding ◌>>=◌ relabel on_ds
  delete_old [] = pure tt
  delete_old (k ∷ ks) = do
    relabel (wrap "error cleaning up snapshot chunks from the datastore") (on_ds G (D.delete k))
    delete_old ks

  -- An error is logged. The result of a failed read has no key, and nothing is deleted for it.
  unfoldable pub delete_timestamps : List (Result (Key Cid × Bytes)) → Exec (Listener G) (Unit {0})
  unfolding ◌>>=◌ recover on_ds
  delete_timestamps [] = pure tt
  delete_timestamps (err e ∷ rs) = delete_timestamps rs
  delete_timestamps (ok (k, v) ∷ rs) =
      recover (on_ds G (D.delete k)) (λ _. delete_timestamps rs) (λ _. delete_timestamps rs)

  unfoldable pub record_timestamps_snapshot : List (CidNode Cid) → Exec (Listener G) (Unit {0})
  unfolding ◌>>=◌ relabel on_ds get_snapshot_chunk_keys slices put_slices delete_old
      delete_timestamps
  record_timestamps_snapshot ns = do
    keys ← get_snapshot_chunk_keys
    old ←
        put_slices 0
          (slices (length ns) G.snapshot_chunk_max_size G.snapshot_chunk_max_size_positive ns) keys
    delete_old old
    rs ←
        relabel (wrap "error reading timestamp by cid index from the datastore")
          (on_ds G (Q.query is_timestamp))
    delete_timestamps rs

  -- Reading: a chunk that is missing or empty is passed over.
  unfoldable pub parse_slice : Option Bytes → Result (List (CidNode Cid))
  parse_slice none = ok []
  parse_slice (some []) = ok []
  parse_slice (some (b ∷ bs)) = G.decode_nodes (b ∷ bs)

  unfoldable pub read_slices : List (Key Cid) → Exec (Listener G) (List (CidNode Cid))
  unfolding ◌>>=◌ relabel on_ds parse_slice
  read_slices [] = pure []
  read_slices (k ∷ ks) = do
    o ← relabel (wrap "error reading timestamps snapshot from the datastore") (on_ds G (D.get k))
    ns ← relabel (wrap "error parsing timestamps snapshot") (lift (parse_slice o))
    rest ← read_slices ks
    pure (ns ++ rest)

  unfoldable pub read_snapshot_from_ds : Exec (Listener G) (List (CidNode Cid))
  unfolding ◌>>=◌ get_snapshot_chunk_keys read_slices
  read_snapshot_from_ds = do keys ← get_snapshot_chunk_keys; read_slices keys
