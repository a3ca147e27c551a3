-- ===== src/Routing/Listener.antt =====
-- delegatedrouting/listener.go: `ProvideBitswap`, `removeExpiredCids` and the flush of the current chunk.
-- Errors that are logged and not returned end with `pure`.
use index_provider.Prelude.{
  ℕ, ◌-◌, if◌then◌else◌, leb, Bool, true, false, Option, none, some, List, [], ◌∷◌, map, member,
  add, remove, insert,
}
use mathlib.Core.List.{reverse}
use index_provider.Exec.{Exec, pure, gets, modify, recover, ◌>>=◌, ◌>>◌}
use index_provider.Schema.{Bytes}
use index_provider.Engine.Keys.{bytes_discrete}
use index_provider.Routing.Queue.{
  CidNode, record_cid_node, remove_cid_node, get_node_by_cid, with_time,
}
use index_provider.Routing.State.{Setup, Listener, alloc_chunk, with_queue, time_now}
use index_provider.Routing.Chunks.{add_cid_to_current_chunk, generate_context_id}
use index_provider.Routing.Store.{record_cid_timestamp}
use index_provider.Routing.Publish.{notify_put_and_persist, notify_remove_and_persist}

module _ (G : Setup) where
  open G use {Cid, cid_discrete, context_id_to_str as str, cid_ttl, snapshot_size}

  abbrev L : Type 0
  L = Listener G

  abbrev pub drop_node : Cid → L → L
  drop_node c s = with_queue G s (remove_cid_node cid_discrete c s.cid_queue)

  abbrev pub record_node : CidNode Cid → L → L
  record_node n s = with_queue G s (record_cid_node cid_discrete n s.cid_queue)

  unfoldable pub add_to_chunk : Cid → Exec L (Unit {0})
  unfolding add_cid_to_current_chunk notify_put_and_persist
  add_to_chunk c = add_cid_to_current_chunk G c (notify_put_and_persist G)

  -- A CID that is not in the queue.
  unfoldable pub provide_new : Cid → ℕ → Exec L (Unit {0})
  unfolding ◌>>=◌ recover modify record_cid_node remove_cid_node add_to_chunk
  provide_new c start = do
    modify (record_node (record { timestamp = start; c = c; chunk = none }))
    recover (add_to_chunk c) pure (λ _. modify (drop_node c))

  -- A CID that is there goes to the current chunk if it has none.
  unfoldable pub add_if_none : Cid → Option ℕ → Exec L (Unit {0})
  unfolding recover add_to_chunk
  add_if_none c none = recover (add_to_chunk c) pure (λ _. pure tt)
  add_if_none c (some r) = pure tt

  unfoldable pub provide_known : Cid → CidNode Cid → ℕ → Exec L (Unit {0})
  unfolding ◌>>=◌ modify record_cid_node add_if_none
  provide_known c n start = do modify (record_node (with_time start n)); add_if_none c n.chunk

  unfoldable pub provide_at : Cid → ℕ → Option (CidNode Cid) → Exec L (Unit {0})
  unfolding provide_new provide_known
  provide_at c start none = provide_new c start
  provide_at c start (some n) = provide_known c n start

  unfoldable pub provide_cid : Cid → ℕ → Exec L (Unit {0})
  unfolding ◌>>=◌ provide_at get_node_by_cid
  provide_cid c start = do
    o ← gets (λ s. get_node_by_cid cid_discrete c s.cid_queue)
    provide_at c start o

  -- The timestamp is persisted only if this is not a snapshot; if that fails the CID is passed over.
  unfoldable pub provide_one : Bool → Cid → ℕ → Exec L (Unit {0})
  unfolding recover record_cid_timestamp provide_cid
  provide_one true c start =
      recover (record_cid_timestamp G c start) (λ _. provide_cid c start) (λ _. pure tt)
  provide_one false c start = provide_cid c start

  unfoldable pub provide_all : Bool → List Cid → ℕ → Exec L (Unit {0})
  unfolding ◌>>=◌ provide_one
  provide_all persist [] start = pure tt
  provide_all persist (c ∷ cs) start = do provide_one persist c start; provide_all persist cs start

  -- The chunks, by their context IDs, and the CIDs that are to be removed, and whether a CID expired.
  abbrev pub Expired : Type 0
  Expired = List (Bytes × ℕ) × List Cid × Bool

  unfoldable pub expire_node : CidNode Cid → Option ℕ → Expired → Exec L Expired
  unfolding ◌>>=◌ gets modify insert add remove_cid_node bytes_discrete
  expire_node n (some r) (chunks, cids, _) = gets (λ s. (
    insert bytes_discrete (str (s.chunks r).context_id) r chunks,
    add cid_discrete n.c cids,
    true,
  ))
  expire_node n none (chunks, cids, _) = do modify (drop_node n.c); pure (chunks, cids, true)

  -- The walk from the back of the queue to the first CID that has not expired.
  unfoldable pub find_expired : ℕ → List (CidNode Cid) → Expired → Exec L Expired
  unfolding ◌>>=◌ expire_node
  find_expired now [] found = pure found
  find_expired now (n ∷ ns) found =
      if leb (now - n.timestamp) cid_ttl
      then pure found
      else expire_node n n.chunk found >>= find_expired now ns

  -- Split the CIDs of a chunk: those that have expired leave the queue, the others are kept.
  unfoldable pub sort_out : List Cid → List Cid → List Cid → Exec L (List Cid × List Cid)
  unfolding ◌>>=◌ modify member remove remove_cid_node
  sort_out [] kept expired = pure (kept, expired)
  sort_out (c ∷ cs) kept expired = elim (member cid_discrete c expired) [
    | false ↦ sort_out cs (add cid_discrete c kept) expired
    | true ↦ do modify (drop_node c); sort_out cs kept (remove cid_discrete c expired)
  ]

  -- Only a chunk that has some CIDs left is replaced.
  unfoldable pub replace_chunk : List Cid → Exec L (Unit {0})
  unfolding ◌>>=◌ modify recover generate_context_id notify_put_and_persist
  replace_chunk [] = pure tt
  replace_chunk (c ∷ cs) = do
    id ← generate_context_id G (c ∷ cs)
    r ← gets (λ s. s.next_chunk)
    modify (alloc_chunk G (record { context_id = id; cids = c ∷ cs; removed = false }))
    recover (notify_put_and_persist G r) pure (λ _. pure tt)

  unfoldable pub remove_all : List Cid → List Cid → List Cid
  unfolding remove
  remove_all [] s = s
  remove_all (c ∷ cs) s = remove_all cs (remove cid_discrete c s)

  unfoldable pub split_cids : List Cid → List Cid → Exec L (List Cid)
  unfolding ◌>>=◌ sort_out replace_chunk
  split_cids expired cids = do p ← sort_out cids [] expired; replace_chunk p.0; pure p.1

  unfoldable pub split_chunk : ℕ → List Cid → Exec L (List Cid)
  unfolding ◌>>=◌ gets split_cids
  split_chunk r expired = do cids ← gets (λ s. (s.chunks r).cids); split_cids expired cids

  -- If a chunk cannot be removed, its CIDs are left for the next time.
  unfoldable pub leave_chunk : ℕ → List Cid → Exec L (List Cid)
  unfolding gets remove_all
  leave_chunk r expired = gets (λ s. remove_all (s.chunks r).cids expired)

  unfoldable pub expire_chunk : ℕ → List Cid → Exec L (List Cid)
  unfolding recover notify_remove_and_persist split_chunk leave_chunk
  expire_chunk r expired =
      recover (notify_remove_and_persist G r) (λ _. split_chunk r expired)
        (λ _. leave_chunk r expired)

  unfoldable pub expire_chunks : List (Bytes × ℕ) → List Cid → Exec L (List Cid)
  unfolding ◌>>=◌ expire_chunk
  expire_chunks [] expired = pure expired
  expire_chunks ((id, r) ∷ chunks) expired = do
    rest ← expire_chunk r expired
    expire_chunks chunks rest

  unfoldable pub drop_all : List Cid → Exec L (Unit {0})
  unfolding ◌>>=◌ modify remove_cid_node
  drop_all [] = pure tt
  drop_all (c ∷ cs) = do modify (drop_node c); drop_all cs

  unfoldable pub finish_expired : Expired → Exec L Bool
  unfolding ◌>>=◌ expire_chunks drop_all
  finish_expired found = do rest ← expire_chunks found.0 found.1; drop_all rest; pure found.2

  -- The nodes of the queue, from the back.
  abbrev pub backwards : L → List (CidNode Cid)
  backwards s = reverse (map (λ e. e.value) s.cid_queue.nodes_ll)

  abbrev pub nothing_found : Expired
  nothing_found = ([], [], false)

  unfoldable pub expire_from : ℕ → Exec L Bool
  unfolding ◌>>=◌ find_expired finish_expired
  expire_from now = do
    ns ← gets backwards
    found ← find_expired now ns nothing_found
    finish_expired found

  unfoldable pub remove_expired_cids : Exec L Bool
  unfolding ◌>>=◌ time_now expire_from
  remove_expired_cids = do now ← time_now G; expire_from now
