-- ===== src/Routing/Chunks.antt =====
-- delegatedrouting/chunker.go: `chunker`, the chunk that is being filled and the index of those that
-- the engine has not asked for yet. What is done with a full chunk is a function of the caller.
use index_provider.Prelude.{
  ℕ, if◌then◌else◌, leb, Bool, true, false, Option, some, List, [], ◌++◌, map, flatten, length,
  member, add, lookup, insert, erase,
}
use index_provider.Exec.{Exec, pure, gets, modify, ◌>>=◌, ◌>>◌}
use index_provider.Schema.{Bytes}
use index_provider.Engine.Keys.{bytes_discrete}
use index_provider.Routing.State.{
  Setup, Listener, CidsChunk, time_now, next_nonce, current, write_chunk, alloc_chunk,
}

module _ (G : Setup) where
  open G use {Cid, cid_discrete, context_id_to_str as str, chunk_size}

  abbrev pub empty_chunk : CidsChunk Cid
  empty_chunk = record { context_id = []; cids = []; removed = false }

  abbrev pub start_chunk : ℕ → Listener G → Listener G
  start_chunk t s = record (alloc_chunk G empty_chunk s) {
    current_chunk = s.next_chunk;
    current_chunk_time = t;
  }

  unfoldable pub set_new_current_chunk : Exec (Listener G) (Unit {0})
  unfolding ◌>>=◌ modify time_now
  set_new_current_chunk = do t ← time_now G; modify (start_chunk t)

  -- `getChunkByContextID` of the chunker: the current chunk, or one of the index.
  unfoldable pub chunk_in_memory : Bytes → Listener G → Option ℕ
  unfolding lookup bytes_discrete
  chunk_in_memory id s = elim (bytes_discrete id (str (current G s).context_id)) [
    | yes _ ↦ some s.current_chunk
    | no _ ↦ lookup bytes_discrete id s.chunk_by_context_id
  ]

  unfoldable pub add_chunk : ℕ → Listener G → Listener G
  unfolding insert
  add_chunk r s = record s {
    chunk_by_context_id =
        insert bytes_discrete (str (s.chunks r).context_id) r s.chunk_by_context_id;
  }

  unfoldable pub remove_chunk : ℕ → Listener G → Listener G
  unfolding erase
  remove_chunk r s = record s {
    chunk_by_context_id = erase bytes_discrete (str (s.chunks r).context_id) s.chunk_by_context_id;
  }

  unfoldable pub generate_context_id : List Cid → Exec (Listener G) Bytes
  unfolding ◌>>=◌ next_nonce
  generate_context_id cids = do
    nonce ← next_nonce G
    pure (G.sha256 (flatten (G.sort (map G.cid_text cids)) ++ nonce))

  abbrev pub name_current : Bytes → Listener G → Listener G
  name_current id s = write_chunk G s.current_chunk (record (current G s) { context_id = id }) s

  unfoldable pub publish_current : (ℕ → Exec (Listener G) (Unit {0})) → Exec (Listener G) (Unit {0})
  unfolding ◌>>=◌ modify generate_context_id
  publish_current chunk_full = do
    cids ← gets (λ s. (current G s).cids)
    id ← generate_context_id cids
    modify (name_current id)
    r ← gets (λ s. s.current_chunk)
    chunk_full r

  unfoldable pub flush_current_chunk :
      (ℕ → Exec (Listener G) (Unit {0})) → Exec (Listener G) (Unit {0})
  unfolding ◌>>=◌ publish_current set_new_current_chunk
  flush_current_chunk chunk_full = do publish_current chunk_full; set_new_current_chunk

  abbrev pub put_cid : Cid → Listener G → Listener G
  put_cid c s =
      write_chunk G s.current_chunk
        (record (current G s) { cids = add cid_discrete c (current G s).cids }) s

  -- If the current chunk is full, publish it and create a new one.
  unfoldable pub make_room : (ℕ → Exec (Listener G) (Unit {0})) → Exec (Listener G) (Unit {0})
  unfolding ◌>>=◌ flush_current_chunk
  make_room chunk_full = do
    n ← gets (λ s. length (current G s).cids)
    if leb chunk_size n then flush_current_chunk chunk_full else pure tt

  unfoldable pub add_unless :
      Cid → (ℕ → Exec (Listener G) (Unit {0})) → Bool → Exec (Listener G) (Unit {0})
  unfolding ◌>>=◌ modify make_room add
  add_unless c chunk_full true = pure tt
  add_unless c chunk_full false = do make_room chunk_full; modify (put_cid c)

  unfoldable pub add_cid_to_current_chunk :
      Cid → (ℕ → Exec (Listener G) (Unit {0})) → Exec (Listener G) (Unit {0})
  unfolding ◌>>=◌ add_unless member
  add_cid_to_current_chunk c chunk_full = do
    found ← gets (λ s. member cid_discrete c (current G s).cids)
    add_unless c chunk_full found
