-- ===== src/Routing/State.antt =====
-- The state of `Listener` (delegatedrouting/listener.go) with its chunker, and what it is given: the
-- engine behind `provider.Interface` (interface.go), a datastore, hashing, encoding, and a clock.
use index_provider.Prelude.{◌<◌, ℕ, ℕ_discrete, suc, ◌≡◌, ◌==◌, if◌then◌else◌, Bool, Option, List}
use index_provider.Exec.{Result, ok, Exec, zoom}
use index_provider.Exec.Within.{Within}
use index_provider.Datastore.{Datastore}
use index_provider.Datastore.Queries.{Queries, Pages}
use index_provider.Schema.{Bytes, PeerId}
use index_provider.Engine.{AddrInfo}
use index_provider.Routing.Queue.{CidNode, CidQueue}

-- The prefixes "ccid/", "tc/" and "ts", with what follows them.
pub data Key (Cid : Type 0) : Type 0 where
  chunk_by_context : Bytes → Key Cid
  timestamp_by_cid : Cid → Key Cid
  snapshot : ℕ → Key Cid
  legacy_snapshot : Key Cid

unfoldable pub key_discrete : {Cid : Type 0} → Discrete Cid → Discrete (Key Cid)
key_discrete dec = hlevel (dec, ℕ_discrete)

pub record CidsChunk (Cid : Type 0) : Type 0 where
  pub context_id : Bytes
  pub cids : List Cid
  pub removed : Bool

-- The calls of `provider.Interface` that the listener makes. `NotifyPut` may call the multihash
-- lister, and changes the state that the lister stands on by such calls only.
pub record Notifier : Type 1 where
  pub State : Type 0
  pub notify_put :
      (S : Type 0)
      → (PeerId → Bytes → Exec S (List Bytes))
      → AddrInfo
      → Bytes
      → Exec (State × S) (Unit {0})
  pub notify_remove : PeerId → Bytes → Exec State (Unit {0})
  pub notify_put-Within :
      (S : Type 0) (R : S → S → Type 0) (lister : PeerId → Bytes → Exec S (List Bytes))
      (p : AddrInfo) (ctx : Bytes)
      → ((s : S) → R s s)
      → ((a b c : S) → R a b → R b c → R a c)
      → ((id : PeerId) (k : Bytes) → Within R (lister id k))
      → Within (λ a b. R a.1 b.1) (notify_put S lister p ctx)

pub record Setup : Type 1 where
  pub Cid : Type 0
  pub cid_discrete : Discrete Cid
  -- `c.String()` and `c.Hash()`
  pub cid_text : Cid → Bytes
  pub cid_hash : Cid → Bytes
  -- `slices.Sort` of texts and `slices.SortStableFunc` of multihashes, and sha256
  pub sort : List Bytes → List Bytes
  pub sha256 : Bytes → Bytes
  -- base64
  pub context_id_to_str : Bytes → Bytes
  -- `encoding/gob` at chunks
  pub encode_chunk : CidsChunk Cid → Result Bytes
  pub decode_chunk : Bytes → Result (CidsChunk Cid)
  pub decode_chunk-encode_chunk :
      (ch : CidsChunk Cid) (b : Bytes) → encode_chunk ch ≡ ok b → decode_chunk b ≡ ok ch
  pub store : Datastore (Key Cid) Bytes (key_discrete cid_discrete)
  pub queries : Queries store
  pub pages : Pages store
  -- `encoding/gob` at lists of nodes, whose chunks are not encoded.
  pub encode_nodes : List (CidNode Cid) → Result Bytes
  pub decode_nodes : Bytes → Result (List (CidNode Cid))
  -- The loop that cuts a snapshot never ends if this is not positive, which no code checks.
  pub snapshot_chunk_max_size : ℕ
  pub snapshot_chunk_max_size_positive : 0 < snapshot_chunk_max_size
  pub page_size : ℕ
  pub engine : Notifier
  -- The times that successive calls of `time.Now` return, in nanoseconds, and the nonces.
  pub clock : ℕ → ℕ
  pub nonce_gen : ℕ → Bytes
  pub cid_ttl : ℕ
  pub chunk_size : ℕ
  pub snapshot_size : ℕ
  pub configured_provider_info : Option AddrInfo

module _ (G : Setup) where
  open G use {Cid, store as D, engine as N}

  -- Chunks are shared by the chunker and the queue, and changed while they are, so that they stand in
  -- a heap, and a pointer to one is a number. `ticks` and `nonces` count the calls that were made.
  pub record Listener : Type 0 where
    pub ds : D.State
    pub engine : N.State
    pub chunks : ℕ → CidsChunk Cid
    pub next_chunk : ℕ
    pub chunk_by_context_id : List (Bytes × ℕ)
    pub current_chunk : ℕ
    pub current_chunk_time : ℕ
    pub cid_queue : CidQueue Cid
    pub last_seen_provider_info : AddrInfo
    pub nonces : ℕ
    pub ticks : ℕ

  abbrev pub with_ds : Listener → D.State → Listener
  with_ds s d = record s { ds = d }

  unfoldable pub on_ds : {A : Type 0} → Exec D.State A → Exec Listener A
  unfolding zoom
  on_ds = zoom (λ s. s.ds) with_ds

  abbrev pub with_engine : Listener → N.State → Listener
  with_engine s e = record s { engine = e }

  unfoldable pub on_engine : {A : Type 0} → Exec N.State A → Exec Listener A
  unfolding zoom
  on_engine = zoom (λ s. s.engine) with_engine

  -- The engine with the listener, which the engine calls back.
  abbrev pub back_from_engine : Listener → N.State × Listener → Listener
  back_from_engine s (e, t) = record t { engine = e }

  unfoldable pub on_both : {A : Type 0} → Exec (N.State × Listener) A → Exec Listener A
  unfolding zoom
  on_both = zoom (λ s. (s.engine, s)) back_from_engine

  abbrev pub tick : Listener → Listener
  tick s = record s { ticks = suc s.ticks }

  unfoldable pub time_now : Exec Listener ℕ
  time_now s = (ok (G.clock s.ticks), tick s)

  abbrev pub draw : Listener → Listener
  draw s = record s { nonces = suc s.nonces }

  unfoldable pub next_nonce : Exec Listener Bytes
  next_nonce s = (ok (G.nonce_gen s.nonces), draw s)

  abbrev pub current : Listener → CidsChunk Cid
  current s = s.chunks s.current_chunk

  abbrev pub write_chunk : ℕ → CidsChunk Cid → Listener → Listener
  write_chunk r ch s = record s { chunks = λ i. if r == i then ch else s.chunks i }

  -- A new chunk, at the next number.
  abbrev pub alloc_chunk : CidsChunk Cid → Listener → Listener
  alloc_chunk ch s = record s {
    chunks = λ i. if s.next_chunk == i then ch else s.chunks i;
    next_chunk = suc s.next_chunk;
  }

  abbrev pub with_queue : Listener → CidQueue Cid → Listener
  with_queue s q = record s { cid_queue = q }
