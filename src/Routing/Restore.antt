-- ===== src/Routing/Restore.antt =====
-- delegatedrouting/ds_wrapper.go: what `New` of delegatedrouting/listener.go reads from the datastore, and
-- how it fills the queue with it.
use index_provider.Prelude.{
  ℕ, zero, suc, ◌+◌, ◌*◌, ◌==◌, if◌then◌else◌, leb, Bool, true, false, Option, none, some, List, [],
  ◌∷◌, ◌++◌, length,
}
use index_provider.Exec.{
  wrap, panic, Result, ok, err, Exec, pure, raise, lift, gets, modify, relabel, recover, ◌>>=◌,
  ◌>>◌,
}
use index_provider.Schema.{Bytes}
use index_provider.Words.{uint64}
use index_provider.Routing.Queue.{
  CidNode, get_node_by_cid, assign_cids_chunk, get_timestamps_snapshot,
}
use index_provider.Routing.State.{
  Setup, Listener, CidsChunk, Key, chunk_by_context, timestamp_by_cid, on_ds, with_queue,
  alloc_chunk, tick,
}
use index_provider.Routing.Snapshot.{
  is_timestamp, read_snapshot_from_ds, record_timestamps_snapshot,
}
use index_provider.Routing.Listener.{record_node}

abbrev pub is_chunk : {Cid : Type 0} → Key Cid → Bool
is_chunk (chunk_by_context b) = true
is_chunk _ = false

module _ {Cid : Type 0} where
  -- `slices.SortStableFunc` by the time
  unfoldable pub insert_by_time : CidNode Cid → List (CidNode Cid) → List (CidNode Cid)
  insert_by_time n [] = n ∷ []
  insert_by_time n (m ∷ ns) =
      let rest = insert_by_time n ns in if leb n.timestamp m.timestamp then n ∷ m ∷ ns else m ∷ rest

  unfoldable pub sort_by_time : List (CidNode Cid) → List (CidNode Cid)
  unfolding insert_by_time
  sort_by_time [] = []
  sort_by_time (n ∷ ns) = insert_by_time n (sort_by_time ns)

module _ (G : Setup) where
  open G use {Cid, cid_discrete, store as D, queries as Q, pages as P}

  -- A CID of a chunk that is read: one that is known gets the chunk, others are put in with the time.
  unfoldable pub import_at : ℕ → ℕ → Cid → Option (CidNode Cid) → Listener G → Listener G
  unfolding assign_cids_chunk
  import_at r now c (some n) s = with_queue G s (assign_cids_chunk cid_discrete c r s.cid_queue)
  import_at r now c none s = record_node G (record { timestamp = now; c = c; chunk = some r }) s

  unfoldable pub import_cids : ℕ → ℕ → List Cid → Listener G → Listener G
  unfolding import_at get_node_by_cid
  import_cids r now [] s = s
  import_cids r now (c ∷ cs) s =
      import_cids r now cs (import_at r now c (get_node_by_cid cid_discrete c s.cid_queue) s)

  -- The chunk importer of `New`
  unfoldable pub import_chunk : CidsChunk Cid → Listener G → Listener G
  unfolding import_cids
  import_chunk ch s =
      import_cids s.next_chunk (G.clock s.ticks) ch.cids (alloc_chunk G ch (tick G s))

  -- Chunks that are marked as removed are not imported.
  unfoldable pub import_unless : Bool → CidsChunk Cid → Listener G → Listener G
  unfolding import_chunk
  import_unless true ch s = s
  import_unless false ch s = import_chunk ch s

  unfoldable pub import_page : List (Result (Key Cid × Bytes)) → Exec (Listener G) (Unit {0})
  unfolding ◌>>=◌ relabel modify import_unless
  import_page [] = pure tt
  import_page (err e ∷ rs) = raise (wrap "error fetching datastore record" e)
  import_page (ok (k, v) ∷ rs) = do
    ch ← relabel (wrap "error deserialising record from the datastore") (lift (G.decode_chunk v))
    modify (import_unless ch.removed ch)
    import_page rs

  unfoldable pub unless_empty :
      List (Result (Key Cid × Bytes)) → Exec (Listener G) Bool → Exec (Listener G) Bool
  unless_empty [] m = pure true
  unless_empty (r ∷ rs) m = m

  -- The pages from an offset on, until one is empty. The first number bounds the pages that are read;
  -- `false` is returned if it is too small.
  unfoldable pub read_pages : ℕ → ℕ → Exec (Listener G) Bool
  unfolding ◌>>=◌ relabel on_ds import_page unless_empty
  read_pages zero offset = pure false
  read_pages (suc n) offset =
      let rest = read_pages n (offset + G.page_size) in
      do
        rs ←
            relabel (wrap "error reading from the datastore")
              (on_ds G (P.query_page is_chunk offset G.page_size))
        import_page rs
        unless_empty rs rest

  -- The number of a page is computed for a log, and panics if the size is 0.
  unfoldable pub initialise_chunks : ℕ → Exec (Listener G) Bool
  unfolding read_pages
  initialise_chunks bound = if G.page_size == 0 then raise panic else read_pages bound 0

  -- The entries of single CIDs. `UnixMilli` of a word below 2 ^ 63 is a time after 1970.
  unfoldable pub read_times : List (Result (Key Cid × Bytes)) → Result (List (CidNode Cid))
  unfolding uint64
  read_times [] = ok []
  read_times (err e ∷ rs) = err (wrap "error fetching datastore record" e)
  read_times (ok (timestamp_by_cid c, v) ∷ rs) = elim (uint64 v) [
    | err e ↦ err e
    | ok t ↦ elim (read_times rs) [
      | err e ↦ err e
      | ok ns ↦ ok (record { timestamp = t * 1000000; c = c; chunk = none } ∷ ns)
    ]
  ]
  read_times (ok (k, v) ∷ rs) = read_times rs

  unfoldable pub import_nodes : List (CidNode Cid) → Listener G → Listener G
  import_nodes [] s = s
  import_nodes (n ∷ ns) s = import_nodes ns (record_node G n s)

  unfoldable pub initialise_cids : Exec (Listener G) (Unit {0})
  unfolding ◌>>=◌ relabel on_ds modify read_snapshot_from_ds read_times sort_by_time import_nodes
  initialise_cids = do
    old ←
        relabel (wrap "error reading timestamp snapshot from the datastore")
          (read_snapshot_from_ds G)
    rs ←
        relabel (wrap "error reading timestamp by cid index from the datastore")
          (on_ds G (Q.query is_timestamp))
    ns ← lift (read_times rs)
    modify (import_nodes (sort_by_time (old ++ ns)))

  -- The snapshot is written again if there is any CID; errors are not looked at.
  unfoldable pub write_merged : Bool → Exec (Listener G) (Unit {0})
  unfolding ◌>>=◌ recover record_timestamps_snapshot get_timestamps_snapshot
  write_merged true = pure tt
  write_merged false = do
    ns ← gets (λ s. get_timestamps_snapshot cid_discrete s.cid_queue)
    recover (record_timestamps_snapshot G ns) pure (λ _. pure tt)

  unfoldable pub restore : ℕ → Exec (Listener G) Bool
  unfolding ◌>>=◌ initialise_cids initialise_chunks write_merged
  restore bound = do
    initialise_cids
    done ← initialise_chunks bound
    empty ← gets (λ s. length s.cid_queue.list_node_by_cid == 0)
    write_merged empty
    pure done
