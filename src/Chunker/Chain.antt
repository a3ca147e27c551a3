-- ===== src/Chunker/Chain.antt =====
-- engine/chunker/chain_chunker.go: `ChainChunker`. An iterator is the multihashes that it returns and
-- the error that ends them; the blocks that the link system stores are collected in order; what
-- a store does besides, and when it fails, is a parameter.
pub mod Chunks
use index_provider.Prelude.{
  ℕ, ◌≡◌, Bool, true, false, Option, none, some, List, [], ◌∷◌, ◌++◌, ltb, ◌==◌, if◌then◌else◌,
  length,
}
use index_provider.Exec.{
  Error, text, Result, ok, err, Exec, pure, raise, lift, gets, ◌>>=◌, ◌>>◌, modify,
}
use index_provider.Schema.{Bytes}
use index_provider.Entries.{EntryChunk, Codec, Stream, is_eof}

module _ (K : Codec) where
  open K use {Link, encode}

  abbrev pub Log : Type 0
  Log = List (Link × Bytes)

  -- `newEntriesChunkNode`, then `Store`
  unfoldable pub store_chunk : List Bytes → Option Link → Exec Log Link
  unfolding ◌>>=◌ modify
  store_chunk mhs next = do
    (l, b) ← lift (encode (record { entries = mhs; next = next }))
    log ← gets (λ log. log)
    lift (K.commit l b log)
    modify (λ log. log ++ (l, b) ∷ [])
    pure l

  -- What follows the loop: a chunk of the multihashes that are left.
  unfoldable pub flush : List Bytes → Option Link → Exec Log (Option Link)
  unfolding ◌>>=◌ store_chunk
  flush [] next = pure next
  flush (mh ∷ mhs) next = do l ← store_chunk (mh ∷ mhs) next; pure (some l)

  -- The loop, on the multihashes to come, those of the chunk in progress, and the last chunk's link.
  unfoldable pub drain : ℕ → Error → List Bytes → List Bytes → Option Link → Exec Log (Option Link)
  unfolding ◌>>=◌ flush store_chunk is_eof
  drain size ending [] mhs next = if is_eof ending then flush mhs next else raise ending
  drain size ending (mh ∷ items) mhs next =
      if ltb (length (mhs ++ mh ∷ [])) size
      then drain size ending items (mhs ++ mh ∷ []) next
      else store_chunk (mhs ++ mh ∷ []) next >>= λ l. drain size ending items [] (some l)

  unfoldable pub chunk : ℕ → Stream → Exec Log (Option Link)
  unfolding drain
  chunk size mhi = drain size mhi.ending mhi.items [] none

  -- A chunker is made for a chunk size of at least 1 only.
  unfoldable pub new_chain_chunker : ℕ → Result (Stream → Exec Log (Option Link))
  unfolding chunk
  new_chain_chunker size =
      if ltb size 1 then err (text "chunk size must be at least 1") else ok (chunk size)
