-- ===== src/Entries.antt =====
-- The chunks of multihashes that are an advertisement's entries (`schema.EntryChunk` of libipni), and
-- what the chunkers and iterators use of ipld to store and load them.
use index_provider.Prelude.{◌≡◌, Bool, true, false, Option, List}
use index_provider.Exec.{Error, eof, wrap, Result, ok}
use index_provider.Schema.{Bytes}

-- `schema.EntryChunk`
pub record EntryChunk (Link : Type 0) : Type 0 where
  pub entries : List Bytes
  pub next : Option Link

-- `ToNode`, the codec and the hash of the link prototype; `Load` of a block that has been read, and
-- `UnwrapEntryChunk`. They are parameters; what was encoded is decoded to what it was.
pub record Codec : Type 1 where
  pub Link : Type 0
  pub encode : EntryChunk Link → Result (Link × Bytes)
  -- The write opener and the committer of the link system, at a block and those stored so far: a block
  -- is stored if they do not fail.
  pub commit : Link → Bytes → List (Link × Bytes) → Result (Unit {0})
  pub Node : Type 0
  pub decode : Bytes → Result Node
  pub unwrap : Node → Result (EntryChunk Link)
  pub decode-encode :
      (c : EntryChunk Link) (l : Link) (b : Bytes)
      → encode c ≡ ok (l, b)
      → (n : Node) × (decode b ≡ ok n) × (unwrap n ≡ ok c)

-- What an iterator will return: multihashes, and the error that comes after them.
pub record Stream : Type 0 where
  pub items : List Bytes
  pub ending : Error

-- `errors.Is(err, io.EOF)`
unfoldable pub is_eof : Error → Bool
is_eof eof = true
is_eof (wrap _ e) = is_eof e
is_eof _ = false
