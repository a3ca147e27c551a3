-- ===== src/Routing/Queue.antt =====
-- delegatedrouting/cid_queue.go: `cidQueue`, a doubly linked list of the announced CIDs with a map from
-- a CID to its list element. A pointer to an element is a number; `container/list` is a list of the
-- elements, the front first.
pub mod Links
pub mod Kept
pub mod Recorded
pub mod Refinement
mod Tests
use index_provider.Prelude.{
  ℕ, suc, ◌==◌, if◌then◌else◌, Option, none, some, List, [], ◌∷◌, map, lookup, insert, erase,
}

-- A chunk is a pointer to it.
pub record CidNode (Cid : Type 0) : Type 0 where
  pub timestamp : ℕ
  pub c : Cid
  pub chunk : Option ℕ

pub record Element (Cid : Type 0) : Type 0 where
  pub id : ℕ
  pub value : CidNode Cid

pub record CidQueue (Cid : Type 0) : Type 0 where
  pub list_node_by_cid : List (Cid × ℕ)
  pub nodes_ll : List (Element Cid)
  pub next_id : ℕ

module _ {Cid : Type 0} where
  unfoldable pub new_cid_queue : CidQueue Cid
  new_cid_queue = record { list_node_by_cid = []; nodes_ll = []; next_id = 0 }

  -- `Element.Value` of a pointer
  unfoldable pub value_at : ℕ → List (Element Cid) → Option (CidNode Cid)
  value_at i [] = none
  value_at i (e ∷ es) = if e.id == i then some e.value else value_at i es

  -- `list.Remove`
  unfoldable pub unlink : ℕ → List (Element Cid) → List (Element Cid)
  unlink i [] = []
  unlink i (e ∷ es) = let rest = unlink i es in if e.id == i then rest else e ∷ rest

  -- A write through the pointer that `Element.Value` is.
  unfoldable pub change : ℕ → (CidNode Cid → CidNode Cid) → List (Element Cid) → List (Element Cid)
  change i f [] = []
  change i f (e ∷ es) =
      (if e.id == i then record { id = e.id; value = f e.value } else e) ∷ change i f es

  -- `list.MoveToFront`
  unfoldable pub move_to_front : ℕ → Option (CidNode Cid) → List (Element Cid) → List (Element Cid)
  unfolding unlink
  move_to_front i none es = es
  move_to_front i (some n) es = record { id = i; value = n } ∷ unlink i es

  abbrev pub with_time : ℕ → CidNode Cid → CidNode Cid
  with_time t n = record n { timestamp = t }

  abbrev pub with_chunk : ℕ → CidNode Cid → CidNode Cid
  with_chunk r n = record n { chunk = some r }

  module _ (dec : Discrete Cid) where
    -- What `recordCidNode` does at an element of the map, or at none.
    unfoldable pub record_at : CidQueue Cid → CidNode Cid → Option ℕ → CidQueue Cid
    unfolding change move_to_front value_at
    record_at q n (some i) =
        let es = change i (with_time n.timestamp) q.nodes_ll in
        record q { nodes_ll = move_to_front i (value_at i es) es }
    record_at q n none = record {
      list_node_by_cid = insert dec n.c q.next_id q.list_node_by_cid;
      nodes_ll = record { id = q.next_id; value = n } ∷ q.nodes_ll;
      next_id = suc q.next_id;
    }

    unfoldable pub record_cid_node : CidNode Cid → CidQueue Cid → CidQueue Cid
    unfolding record_at
    record_cid_node n q = record_at q n (lookup dec n.c q.list_node_by_cid)

    unfoldable pub remove_at : CidQueue Cid → Cid → Option ℕ → CidQueue Cid
    unfolding unlink
    remove_at q c none = q
    remove_at q c (some i) = record q {
      list_node_by_cid = erase dec c q.list_node_by_cid;
      nodes_ll = unlink i q.nodes_ll;
    }

    unfoldable pub remove_cid_node : Cid → CidQueue Cid → CidQueue Cid
    unfolding remove_at
    remove_cid_node c q = remove_at q c (lookup dec c q.list_node_by_cid)

    unfoldable pub assign_at : CidQueue Cid → ℕ → Option ℕ → CidQueue Cid
    unfolding change
    assign_at q r none = q
    assign_at q r (some i) = record q { nodes_ll = change i (with_chunk r) q.nodes_ll }

    unfoldable pub assign_cids_chunk : Cid → ℕ → CidQueue Cid → CidQueue Cid
    unfolding assign_at
    assign_cids_chunk c r q = assign_at q r (lookup dec c q.list_node_by_cid)

    unfoldable pub node_at : CidQueue Cid → Option ℕ → Option (CidNode Cid)
    unfolding value_at
    node_at q none = none
    node_at q (some i) = value_at i q.nodes_ll

    unfoldable pub get_node_by_cid : Cid → CidQueue Cid → Option (CidNode Cid)
    unfolding node_at
    get_node_by_cid c q = node_at q (lookup dec c q.list_node_by_cid)

    snapshot_of : CidQueue Cid → List (Cid × ℕ) → List (CidNode Cid)
    unfolding node_at
    snapshot_of q [] = []
    snapshot_of q ((c, i) ∷ m) = elim (value_at i q.nodes_ll) [
      | none ↦ snapshot_of q m
      | some n ↦ n ∷ snapshot_of q m
    ]

    unfoldable pub get_timestamps_snapshot : CidQueue Cid → List (CidNode Cid)
    unfolding snapshot_of
    get_timestamps_snapshot q = snapshot_of q q.list_node_by_cid
