-- ===== src/Routing/Queue/Refinement.antt =====
-- The queue refines a list of nodes that knows nothing of the map and the pointers.
use index_provider.Prelude.{ℕ, ◌≡◌, List}
use index_provider.Routing.Queue.{
  CidNode, CidQueue, new_cid_queue, record_cid_node, remove_cid_node, assign_cids_chunk,
  get_node_by_cid, with_chunk,
}
use index_provider.Routing.Queue.Links.{
  nodes, find, without, changed, recorded, IsLinked, get_node_by_cid-find, remove_cid_node-without,
  assign_cids_chunk-changed,
}
use index_provider.Routing.Queue.Kept.{
  new_cid_queue-IsLinked, remove_cid_node-IsLinked, assign_cids_chunk-IsLinked,
}
use index_provider.Routing.Queue.Recorded.{record_cid_node-recorded}

module _ {Cid : Type 0} (dec : Discrete Cid) where
  -- The queue is linked, and its nodes are those.
  pub record Is (q : CidQueue Cid) (l : List (CidNode Cid)) : Type 0 where
    pub linked : IsLinked dec q
    pub listed : nodes q ≡ l

  -- On a queue whose map and list are linked, as they are in a new one, recording a CID puts its node
  -- in front, with the chunk that it had if it was there; removing a CID takes its node out; assigning
  -- a chunk sets it in the CID's node; getting finds the CID's node; and the queue is linked again.
  pub queue-refines :
      (q : CidQueue Cid) (n : CidNode Cid) (c : Cid) (r : ℕ)
      → IsLinked dec q
      → Is (record_cid_node dec n q) (recorded dec n (find dec n.c (nodes q)) (nodes q))
        × Is (remove_cid_node dec c q) (without dec c (nodes q))
        × Is (assign_cids_chunk dec c r q) (changed dec c (with_chunk r) (nodes q))
        × (get_node_by_cid dec c q ≡ find dec c (nodes q))
        × IsLinked dec new_cid_queue
  queue-refines q n c r k =
      let a = record_cid_node-recorded dec n q k in
      (
        record { linked = a.0; listed = a.1 },
        record {
          linked = remove_cid_node-IsLinked dec c q k;
          listed = remove_cid_node-without dec c q k;
        },
        record {
          linked = assign_cids_chunk-IsLinked dec c r q k;
          listed = assign_cids_chunk-changed dec c r q k;
        },
        get_node_by_cid-find dec c q k,
        new_cid_queue-IsLinked dec,
      )
