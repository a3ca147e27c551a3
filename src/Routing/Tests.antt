-- ===== src/Routing/Tests.antt =====
-- The theorems of the listener at a concrete one.
use mathlib.Core.List.{flatten}
use index_provider.Prelude.{
  ℕ, ◌<◌, ◌≡◌, refl, true, false, some, List, [], ◌∷◌, length, All, ℕ_discrete, lookup, insert,
  erase, member, add, remove, arith,
}
use index_provider.Exec.Post.{Post}
use index_provider.Datastore.Listed.{pick}
use index_provider.Routing.Queue.{CidNode, new_cid_queue, record_cid_node, assign_cids_chunk}
use index_provider.Routing.Queue.Links.{nodes, find}
use index_provider.Routing.State.{Listener, key_discrete, chunk_by_context}
use index_provider.Routing.Snapshot.{slices}
use index_provider.Routing.Listener.{remove_expired_cids}
use index_provider.Routing.Requests.{provide_bitswap, flush_func}
use index_provider.Routing.Published.{HasChunk, Settled, remove_expired-Settled}
use index_provider.Routing.Fresh.Replaced.{HasTime}
use index_provider.Routing.Fresh.{remove_expired-HasTime}
use index_provider.Routing.Linked.{Linked, provide_bitswap-IsLinked}
use index_provider.Routing.Restore.{restore, initialise_chunks, is_chunk}
use index_provider.Routing.Restored.{initialise_chunks-Imports}
use index_provider.Routing.Restored.Entries.{Failure}
use index_provider.Routing.Restored.Placed.{Imports}
use index_provider.Routing.Sizes.{Small, provide_bitswap-Small}
use index_provider.Routing.Started.{restore-IsLinked}
use index_provider.Routing.Slices.{IsSlice, flatten-slices}
use index_provider.Routing.Sample.{setup, encoded, queue, queue-IsLinked, refusing}

queue_program : Unit {0}
unfolding record_cid_node assign_cids_chunk find lookup insert ℕ_discrete new_cid_queue
queue_program = tt

found_four :
    find ℕ_discrete 4 (nodes queue) ≡ some (record { timestamp = 100; c = 4; chunk = some 0 })
unfolding queue_program
found_four = refl

HasChunk-four : HasChunk setup 4 queue
HasChunk-four = record { linked = queue-IsLinked; chunk = λ n p z. cc (found_four) }

HasTime-four : HasTime setup 4 100 queue
HasTime-four = record {
  linked = queue-IsLinked;
  node = record { timestamp = 100; c = 4; chunk = some 0 };
  found = found_four;
  timed = refl;
}

-- The chunk is gone at the engine, and was not replaced, and CID 4 still points to it.
unfoldable kept_nodes : List (CidNode ℕ)
unfolding remove_expired_cids
kept_nodes = nodes (remove_expired_cids setup refusing).1.cid_queue

left_behind : kept_nodes ≡ record { timestamp = 100; c = 4; chunk = some 0 } ∷ []
unfolding kept_nodes queue_program member add remove erase
left_behind = refl

remove_expired-Settled_example :
    Post
      (remove_expired_cids setup)
      refusing
      (λ _ t. Settled setup 4 150 t)
      (λ _ t. Settled setup 4 150 t)
remove_expired-Settled_example = remove_expired-Settled setup 4 150 refusing HasChunk-four

remove_expired-HasTime_example :
    Post
      (remove_expired_cids setup)
      refusing
      (λ _ t. HasTime setup 4 100 t.cid_queue)
      (λ _ t. HasTime setup 4 100 t.cid_queue)
remove_expired-HasTime_example = remove_expired-HasTime setup 4 100 refusing HasTime-four refl

provide_bitswap-IsLinked_example :
    Post
      (provide_bitswap setup (1 ∷ []) [] (7 ∷ []))
      refusing
      (λ _ t. Linked setup t)
      (λ _ t. Linked setup t)
    × Post (flush_func setup 30) refusing (λ _ t. Linked setup t) (λ _ t. Linked setup t)
provide_bitswap-IsLinked_example =
    provide_bitswap-IsLinked setup (1 ∷ []) [] (7 ∷ []) 30 refusing queue-IsLinked

abbrev three : List ℕ
three = 7 ∷ 8 ∷ 9 ∷ []

two_positive : 0 < 2
two_positive = omega arith

flatten-slices_example :
    (flatten (slices (length three) 2 two_positive three) ≡ three)
    × All (IsSlice 2) (slices (length three) 2 two_positive three)
flatten-slices_example = flatten-slices 2 three two_positive

-- Two chunks in the datastore, which take two pages, and a third one to see that there are no more.
abbrev stored : Listener setup
stored = record refusing {
  ds =
      (
        chunk_by_context (3 ∷ []),
        encoded (record { context_id = 3 ∷ []; cids = 5 ∷ 6 ∷ []; removed = false }),
      )
      ∷ (
        chunk_by_context (4 ∷ []),
        encoded (record { context_id = 4 ∷ []; cids = 7 ∷ []; removed = false }),
      )
      ∷ [];
}

stored_length : length (pick (key_discrete ℕ_discrete) is_chunk stored.ds) < 3
unfolding pick
stored_length = omega arith

initialise_chunks-Imports_example :
    Post
      (initialise_chunks setup 3)
      stored
      (λ b t.
        (b ≡ true) × Imports setup (pick (key_discrete ℕ_discrete) is_chunk stored.ds) stored t)
      (λ e _. Failure setup e)
initialise_chunks-Imports_example =
    initialise_chunks-Imports setup 3 stored (omega arith) stored_length queue-IsLinked

pages_read : length (nodes (initialise_chunks setup 3 stored).1.cid_queue) ≡ 4
unfolding initialise_chunks queue_program pick
pages_read = refl

Small-refusing : Small setup refusing
Small-refusing = (omega arith, omega arith)

provide_bitswap-Small_example :
    Post
      (provide_bitswap setup (1 ∷ []) [] (6 ∷ 7 ∷ 8 ∷ []))
      refusing
      (λ _ t. Small setup t)
      (λ _ t. Small setup t)
    × Post (flush_func setup 30) refusing (λ _ t. Small setup t) (λ _ t. Small setup t)
provide_bitswap-Small_example =
    provide_bitswap-Small setup (1 ∷ []) [] (6 ∷ 7 ∷ 8 ∷ []) 30 refusing (omega arith)
      Small-refusing

restore-IsLinked_example :
    Post (restore setup 3) stored (λ _ t. Linked setup t) (λ _ t. Linked setup t)
restore-IsLinked_example = restore-IsLinked setup 3 stored queue-IsLinked
