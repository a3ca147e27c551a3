-- ===== src/Routing/Store.antt =====
-- delegatedrouting/ds_wrapper.go: the records of CIDs and chunks in the datastore.
use index_provider.Prelude.{ℕ, ◌/◌, ◌%◌, Option, none, some}
use index_provider.Exec.{Exec, not_found, raise, lift, gets, ◌>>=◌}
use index_provider.Schema.{Bytes}
use index_provider.Words.{word_mod, put_uint64}
use index_provider.Routing.State.{
  Setup, Listener, CidsChunk, chunk_by_context, timestamp_by_cid, on_ds,
}

-- `UnixMilli` of a time after 1970, as an unsigned word.
unfoldable pub int64_to_bytes : ℕ → Bytes
unfolding put_uint64
int64_to_bytes t = put_uint64 (t / 1000000 % word_mod)

module _ (G : Setup) where
  open G use {Cid, store as D}

  unfoldable pub record_cid_timestamp : Cid → ℕ → Exec (Listener G) (Unit {0})
  unfolding on_ds int64_to_bytes
  record_cid_timestamp c t = on_ds G (D.put (timestamp_by_cid c) (int64_to_bytes t))

  unfoldable pub record_chunk_by_context_id : ℕ → Exec (Listener G) (Unit {0})
  unfolding ◌>>=◌ on_ds
  record_chunk_by_context_id r = do
    ch ← gets (λ s. s.chunks r)
    b ← lift (G.encode_chunk ch)
    on_ds G (D.put (chunk_by_context (G.context_id_to_str ch.context_id)) b)

  unfoldable pub delete_chunk : ℕ → Exec (Listener G) (Unit {0})
  unfolding ◌>>=◌ on_ds
  delete_chunk r = do
    ch ← gets (λ s. s.chunks r)
    on_ds G (D.delete (chunk_by_context (G.context_id_to_str ch.context_id)))

  unfoldable pub deserialise : Option Bytes → Exec (Listener G) (CidsChunk Cid)
  deserialise none = raise not_found
  deserialise (some b) = lift (G.decode_chunk b)

  unfoldable pub get_chunk_by_context_id : Bytes → Exec (Listener G) (CidsChunk Cid)
  unfolding ◌>>=◌ on_ds deserialise
  get_chunk_by_context_id id = do
    o ← on_ds G (D.get (chunk_by_context (G.context_id_to_str id)))
    deserialise o
