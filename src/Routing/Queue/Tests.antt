-- ===== src/Routing/Queue/Tests.antt =====
-- A queue of two CIDs, and the theorem of the queue at it.
use index_provider.Prelude.{ℕ, ◌≡◌, refl, none, [], ◌∷◌, ℕ_discrete, lookup, insert, erase}
use index_provider.Routing.Queue.{
  CidNode, CidQueue, new_cid_queue, value_at, unlink, change, move_to_front, record_cid_node,
  remove_cid_node, assign_cids_chunk, get_node_by_cid, get_timestamps_snapshot, with_chunk,
}
use index_provider.Routing.Queue.Links.{nodes, find, without, changed, recorded, IsLinked}
use index_provider.Routing.Queue.Kept.{new_cid_queue-IsLinked}
use index_provider.Routing.Queue.Recorded.{record_cid_node-recorded}
use index_provider.Routing.Queue.Refinement.{Is, queue-refines}

abbrev node : ℕ → ℕ → CidNode ℕ
node t c = record { timestamp = t; c = c; chunk = none }

abbrev two : CidQueue ℕ
two = record_cid_node ℕ_discrete (node 20 8) (record_cid_node ℕ_discrete (node 10 7) new_cid_queue)

two-IsLinked : IsLinked ℕ_discrete two
two-IsLinked =
    (record_cid_node-recorded ℕ_discrete (node 20 8)
      (record_cid_node ℕ_discrete (node 10 7) new_cid_queue)
      (record_cid_node-recorded ℕ_discrete (node 10 7) new_cid_queue
        (new_cid_queue-IsLinked ℕ_discrete)).0).0

program : Unit {0}
unfolding new_cid_queue value_at unlink change move_to_front record_cid_node remove_cid_node
    assign_cids_chunk get_node_by_cid get_timestamps_snapshot lookup insert erase ℕ_discrete
program = tt

-- A CID that is announced again goes to the front.
again : nodes (record_cid_node ℕ_discrete (node 30 7) two) ≡ node 30 7 ∷ node 20 8 ∷ []
unfolding program
again = refl

gone : nodes (remove_cid_node ℕ_discrete 7 two) ≡ node 20 8 ∷ []
unfolding program
gone = refl

queue-refines_example :
    Is ℕ_discrete
      (record_cid_node ℕ_discrete (node 30 7) two)
      (recorded ℕ_discrete (node 30 7) (find ℕ_discrete 7 (nodes two)) (nodes two))
    × Is ℕ_discrete (remove_cid_node ℕ_discrete 8 two) (without ℕ_discrete 8 (nodes two))
    × Is ℕ_discrete
        (assign_cids_chunk ℕ_discrete 8 5 two)
        (changed ℕ_discrete 8 (with_chunk 5) (nodes two))
    × (get_node_by_cid ℕ_discrete 8 two ≡ find ℕ_discrete 8 (nodes two))
    × IsLinked ℕ_discrete new_cid_queue
queue-refines_example = queue-refines ℕ_discrete two (node 30 7) 8 5 two-IsLinked
