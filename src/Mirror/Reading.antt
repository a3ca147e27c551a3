-- ===== src/Mirror/Reading.antt =====
-- mirror/store.go and the link system of mirror/mirror.go: the references, loading advertisements and
-- entries, and the read opener.
use index_provider.Prelude.{ℕ, zero, suc, ◌≡◌, Bool, true, false, Option, none, some, [], ◌∷◌}
use index_provider.Exec.{not_found, text, panic, Exec, pure, raise, lift, ◌>>=◌, ◌>>◌}
use index_provider.Schema.{Bytes, Advertisement}
use index_provider.Mirror.{Setup, Mirror, Kind, entry_chunk, hamt, unknown, on_ds, on_chunker}
use index_provider.Mirror.Keys.{block, latest_mirrored, latest_original, mirrored_entries_link}

module _ (G : Setup) where
  open G use {libraries as L, store as D, Iterator, config}
  open G.libraries use {Cid}

  abbrev M : Type 0
  M = Mirror G

  unfoldable pub parse_reference : Option Bytes → Exec M (Option Cid)
  unfolding ◌>>=◌
  parse_reference none = pure none
  parse_reference (some b) = do c ← lift (L.cid_from_bytes b); pure (some c)

  -- `none` is `cid.Undef`
  unfoldable pub get_latest_original_ad_cid : Exec M (Option Cid)
  unfolding ◌>>=◌ on_ds parse_reference
  get_latest_original_ad_cid = do o ← on_ds G (D.get latest_original); parse_reference o

  unfoldable pub set_latest_original_ad_cid : Cid → Exec M (Unit {0})
  unfolding on_ds
  set_latest_original_ad_cid c = on_ds G (D.put latest_original (L.cid_bytes c))

  unfoldable pub get_latest_mirrored_ad_cid : Exec M (Option Cid)
  unfolding ◌>>=◌ on_ds parse_reference
  get_latest_mirrored_ad_cid = do o ← on_ds G (D.get latest_mirrored); parse_reference o

  unfoldable pub set_latest_mirrored_ad_cid : Cid → Exec M (Unit {0})
  unfolding on_ds
  set_latest_mirrored_ad_cid c = on_ds G (D.put latest_mirrored (L.cid_bytes c))

  -- The second argument is a nil interface if the chunker returned no link, and the type assertion on
  -- it panics.
  unfoldable pub set_mirrored_entries_link : Option Cid → Cid → Exec M (Unit {0})
  unfolding on_ds
  set_mirrored_entries_link none original = raise panic
  set_mirrored_entries_link (some mirrored) original =
      on_ds G (D.put (mirrored_entries_link original) (L.cid_bytes mirrored))

  unfoldable pub parse_link : Option Bytes → Exec M Cid
  parse_link none = raise not_found
  parse_link (some b) = lift (L.cid_from_bytes b)

  unfoldable pub get_original_entries_link_from_mirror : Cid → Exec M Cid
  unfolding ◌>>=◌ on_ds parse_link
  get_original_entries_link_from_mirror c = do
    o ← on_ds G (D.get (mirrored_entries_link c))
    parse_link o

  -- What loads blocks through the link system: `ls` opens a link.
  module _ (ls : Cid → Exec M Bytes) where
    unfoldable pub load_ad : Cid → Exec M (Advertisement Cid)
    unfolding ◌>>=◌
    load_ad c = do b ← ls c; lift (L.decode b)

    -- The block is loaded once more.
    unfoldable pub iterate : Cid → Kind → Exec M Iterator
    unfolding ◌>>=◌
    iterate c unknown = raise (text "unknown entries type")
    iterate c entry_chunk = do b ← ls c; lift (G.iterator entry_chunk c b)
    iterate c hamt = do b ← ls c; lift (G.iterator hamt c b)

    unfoldable pub load_entries : Cid → Exec M Iterator
    unfolding ◌>>=◌ iterate
    load_entries c = do b ← ls c; k ← lift (G.kind_of b); iterate c k

    unfoldable pub known_kind : Kind → Exec M Kind
    known_kind unknown = raise (text "unknown entries type")
    known_kind entry_chunk = pure entry_chunk
    known_kind hamt = pure hamt

    unfoldable pub get_entries_prototype : Cid → Exec M Kind
    unfolding ◌>>=◌ known_kind
    get_entries_prototype c = do b ← ls c; k ← lift (G.kind_of b); known_kind k

    unfoldable pub same_link : Cid → Option Cid → Exec M (Unit {0})
    same_link c none = raise (text "chunked link does not match the mapping to original entry")
    same_link c (some d) = elim (L.cid_discrete d c) [
      | yes _ ↦ pure tt
      | no _ ↦ raise (text "chunked link does not match the mapping to original entry")
    ]

    -- The entries of a link that is not cached are chunked again.
    unfoldable pub fill : Cid → Option Bytes → Exec M (Unit {0})
    unfolding ◌>>=◌ get_original_entries_link_from_mirror load_entries on_chunker same_link
    fill c (some b) = pure tt
    fill c none = do
      orig ← get_original_entries_link_from_mirror c
      mhi ← load_entries orig
      lnk ← on_chunker G (G.chunk mhi)
      same_link c lnk

    unfoldable pub served : Option Bytes → Exec M Bytes
    served none = raise not_found
    served (some []) = raise not_found
    served (some (b ∷ bs)) = pure (b ∷ bs)

    unfoldable pub read_cached : Cid → Exec M Bytes
    unfolding ◌>>=◌ on_chunker served
    read_cached c = do o ← on_chunker G (G.raw c); served o

    unfoldable pub read_remapped : Cid → Bool → Exec M Bytes
    unfolding ◌>>=◌ on_chunker fill read_cached
    read_remapped c false = raise not_found
    read_remapped c true = do o ← on_chunker G (G.raw c); fill c o; read_cached c

    unfoldable pub read_block : Cid → Option Bytes → Exec M Bytes
    unfolding read_remapped
    read_block c none = read_remapped c config.remap_entries_enabled
    read_block c (some []) = read_remapped c config.remap_entries_enabled
    read_block c (some (b ∷ bs)) = pure (b ∷ bs)

    unfoldable pub open_unless : (c : Cid) → Dec (c ≡ L.no_entries) → Exec M Bytes
    unfolding ◌>>=◌ on_ds read_block
    open_unless c (yes _) = raise (text "no-entries CID is not retrievable")
    open_unless c (no _) = on_ds G (D.get (block c)) >>= read_block c

    unfoldable pub storage_read_opener : Cid → Exec M Bytes
    unfolding open_unless
    storage_read_opener c = open_unless c (L.cid_discrete c L.no_entries)

  -- The read opener loads entries through the link system, so that it may call itself. The number
  -- bounds the calls inside one another.
  unfoldable pub read : ℕ → Cid → Exec M Bytes
  unfolding storage_read_opener
  read zero c = raise (text "too deep")
  read (suc n) c = storage_read_opener (read n) c
