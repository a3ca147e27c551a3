-- ===== src/Routing/Requests.antt =====
-- delegatedrouting/listener.go: `ProvideBitswap` as a whole, and the flush of the current chunk.
use index_provider.Prelude.{
  ℕ, ◌-◌, ◌==◌, ltb, leb, Bool, true, false, not, ◌||◌, ◌&&◌, Option, none, some, List, length,
}
use index_provider.Exec.{text, Exec, pure, raise, gets, modify, recover, ◌>>=◌, ◌>>◌}
use index_provider.Schema.{Bytes, PeerId}
use index_provider.Engine.{AddrInfo}
use index_provider.Engine.Keys.{bytes_discrete}
use index_provider.Routing.Queue.{get_timestamps_snapshot}
use index_provider.Routing.State.{Setup, Listener, current, time_now}
use index_provider.Routing.Chunks.{flush_current_chunk}
use index_provider.Routing.Snapshot.{record_timestamps_snapshot}
use index_provider.Routing.Publish.{notify_put_and_persist}
use index_provider.Routing.Listener.{provide_all, remove_expired_cids}

abbrev is_peer : PeerId → PeerId → Bool
is_peer p q = elim (bytes_discrete p q) [ yes _ ↦ true | no _ ↦ false ]

-- The configured provider and the last one seen, each if there is one, are the only ones allowed.
unfoldable pub is_allowed : PeerId → Option AddrInfo → PeerId → Bool
unfolding bytes_discrete
is_allowed pid none seen = length seen == 0 || is_peer seen pid
is_allowed pid (some p) seen = is_peer p.id pid && (length seen == 0 || is_peer seen pid)

module _ (G : Setup) where
  open G use {Cid, cid_discrete, cid_ttl, snapshot_size}

  -- Errors are not looked at.
  unfoldable pub take_snapshot : Bool → Exec (Listener G) (Unit {0})
  unfolding ◌>>=◌ recover record_timestamps_snapshot get_timestamps_snapshot
  take_snapshot false = pure tt
  take_snapshot true = do
    ns ← gets (λ s. get_timestamps_snapshot cid_discrete s.cid_queue)
    recover (record_timestamps_snapshot G ns) pure (λ _. pure tt)

  abbrev pub see : PeerId → List Bytes → Listener G → Listener G
  see pid addrs s = record s { last_seen_provider_info = record { id = pid; addrs = addrs } }

  unfoldable pub provide_seen : ℕ → List Cid → Exec (Listener G) ℕ
  unfolding ◌>>=◌ provide_all remove_expired_cids take_snapshot
  provide_seen start cids = do
    provide_all G (ltb (length cids) snapshot_size) cids start
    removed ← remove_expired_cids G
    take_snapshot (removed || leb snapshot_size (length cids))
    pure cid_ttl

  unfoldable pub provide_from : ℕ → PeerId → List Bytes → List Cid → Bool → Exec (Listener G) ℕ
  unfolding ◌>>=◌ modify provide_seen
  provide_from start pid addrs cids false = raise (text "provider isn't allowed")
  provide_from start pid addrs cids true = do modify (see pid addrs); provide_seen start cids

  unfoldable pub provide_bitswap : PeerId → List Bytes → List Cid → Exec (Listener G) ℕ
  unfolding ◌>>=◌ time_now is_allowed provide_from
  provide_bitswap pid addrs cids = do
    start ← time_now G
    allowed ← gets (λ s. is_allowed pid G.configured_provider_info s.last_seen_provider_info.id)
    provide_from start pid addrs cids allowed

  -- `flushFunc` of the flush worker, which logs an error: only a chunk with some CIDs in it, and of an
  -- age above the flush frequency.
  unfoldable pub flush_old : ℕ → Bool → Exec (Listener G) (Unit {0})
  unfolding recover flush_current_chunk notify_put_and_persist
  flush_old frequency false = pure tt
  flush_old frequency true =
      recover (flush_current_chunk G (notify_put_and_persist G)) pure (λ _. pure tt)

  unfoldable pub flush_func : ℕ → Exec (Listener G) (Unit {0})
  unfolding ◌>>=◌ time_now flush_old
  flush_func frequency = do
    now ← time_now G
    due ←
        gets
          (λ s. not (length (current G s).cids == 0) && ltb frequency (now - s.current_chunk_time))
    flush_old frequency due
