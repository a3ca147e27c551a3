-- ===== src/Engine/LinkSystem.antt =====
-- engine/linksystem.go: the read opener of the engine's link system, which serves advertisements from
-- the datastore, and entries from the cache or from the multihash lister. Contexts and their deadline
-- are left out.
pub mod Serving
pub mod Orphans
use index_provider.Prelude.{◌≡◌, Bool, true, false, Option, none, some, List, [], ◌∷◌}
use index_provider.Exec.{
  Error, not_found, no_multihash_lister, text, wrap, eof, Result, ok, err, Exec, pure, raise, lift,
  gets, recover, ◌>>=◌, ◌>>◌,
}
use index_provider.Schema.{Bytes, PeerId, Advertisement}
use index_provider.Engine.{Setup, Engine, on_ds, on_chunker, get_cid_key_map}
use index_provider.Engine.Keys.{block}

-- What the read opener calls besides: `GetRawCachedChunk` of the chunker of entries, where `none` is a
-- nil slice; the decoder of dag-json with the lookup of the field `Signature`, which every encoded
-- advertisement has and the empty block is not; and `peer.IDFromBytes`.
pub record Readers (G : Setup) : Type 0 where
  pub raw : G.libraries.Cid → Exec G.Chunks (Option Bytes)
  pub has_signature : Bytes → Result Bool
  pub has_signature-encode :
      (a : Advertisement G.libraries.Cid) (c : G.libraries.Cid) (b : Bytes)
      → G.libraries.encode a ≡ ok (c, b)
      → has_signature b ≡ ok true
  pub has_signature-empty : (b : Bool) → has_signature [] ≡ ok b → ⊥
  pub peer_from_bytes : Bytes → Result PeerId
  -- `storageReadOpenerErrorHook`, which may use the engine and may return nil, which is `none`
  pub error_hook : Option (G.libraries.Cid → Error → Exec (Engine G) (Option Error))

-- `errors.Is(err, datastore.ErrNotFound)`
unfoldable pub is_not_found : Error → Bool
is_not_found not_found = true
is_not_found (wrap s e) = is_not_found e
is_not_found _ = false

-- `ipld.ErrNotExists{}`
abbrev pub not_exists : Error
not_exists = text "not exists"

module _ (G : Setup) (K : Readers G) where
  open G use {libraries as L, store as D, Iterator, chunk}
  open G.libraries use {Cid}

  abbrev E : Type 0
  E = Engine G

  unfoldable pub skippable : Error → Error
  unfolding is_not_found
  skippable e = elim (is_not_found e) [ true ↦ not_exists | false ↦ e ]

  -- The entries were generated again: they have to have the link that is asked for.
  unfoldable pub same_link : Cid → Option Cid → Exec E (Unit {0})
  same_link c none = raise not_found
  same_link c (some d) = elim (L.cid_discrete c d) [ yes _ ↦ pure tt | no _ ↦ raise not_found ]

  unfoldable pub regenerate : Cid → (PeerId → Bytes → Result Iterator) → Exec E (Unit {0})
  unfolding ◌>>=◌ recover get_cid_key_map skippable on_chunker same_link
  regenerate c lister = do
    pc ← recover (get_cid_key_map G c) pure (λ e. raise (skippable e))
    p ← lift (K.peer_from_bytes pc.provider)
    iter ← lift (lister p pc.context_id)
    lnk ← on_chunker G (chunk iter)
    same_link c lnk

  -- Only if the entries are not cached.
  unfoldable pub fill : Cid → (PeerId → Bytes → Result Iterator) → Option Bytes → Exec E (Unit {0})
  unfolding regenerate
  fill c lister none = regenerate c lister
  fill c lister (some b) = pure tt

  unfoldable pub served : Option Bytes → Exec E Bytes
  served none = raise not_found
  served (some []) = raise not_found
  served (some (b ∷ bs)) = pure (b ∷ bs)

  unfoldable pub read_cached : Cid → Exec E Bytes
  unfolding ◌>>=◌ on_chunker served
  read_cached c = do o ← on_chunker G (K.raw c); served o

  unfoldable pub read_with : Cid → Option (PeerId → Bytes → Result Iterator) → Exec E Bytes
  unfolding ◌>>=◌ on_chunker fill read_cached
  read_with c none = raise no_multihash_lister
  read_with c (some lister) = do o ← on_chunker G (K.raw c); fill c lister o; read_cached c

  unfoldable pub read_entries : Cid → Exec E Bytes
  unfolding ◌>>=◌ read_with
  read_entries c = do lister ← gets (λ e. e.mh_lister); read_with c lister

  unfoldable pub if_advertisement : Cid → Bytes → Bool → Exec E Bytes
  unfolding read_entries
  if_advertisement c b true = pure b
  if_advertisement c b false = read_entries c

  -- What the datastore has for the link: an advertisement is returned.
  unfoldable pub read_block : Cid → Option Bytes → Exec E Bytes
  unfolding ◌>>=◌ if_advertisement read_entries
  read_block c none = read_entries c
  read_block c (some []) = read_entries c
  read_block c (some (b ∷ bs)) = do
    ad ← lift (K.has_signature (b ∷ bs))
    if_advertisement c (b ∷ bs) ad

  unfoldable pub open_unless : (c : Cid) → Dec (c ≡ L.no_entries) → Exec E Bytes
  unfolding ◌>>=◌ on_ds read_block
  open_unless c (yes _) = raise (text "no entries; see schema.NoEntries")
  open_unless c (no _) = on_ds G (D.get (block c)) >>= read_block c

  unfoldable pub storage_read_opener : Cid → Exec E Bytes
  unfolding open_unless
  storage_read_opener c = open_unless c (L.cid_discrete c L.no_entries)

  abbrev pub Hook : Type 0
  Hook = Cid → Error → Exec E (Option Error)

  -- What is returned beside the nil reader: the error of the hook.
  unfoldable pub from_hook : Option Error → Exec E (Option Bytes)
  from_hook none = pure none
  from_hook (some e) = raise e

  -- What becomes of an error.
  unfoldable pub report : Option Hook → Cid → Error → Exec E (Option Bytes)
  unfolding ◌>>=◌ from_hook
  report none c e = raise e
  report (some hook) c e = do o ← hook c e; from_hook o

  -- `none` is a nil reader without an error.
  unfoldable pub hooked : Option Hook → Cid → Exec E (Option Bytes)
  unfolding recover storage_read_opener report
  hooked hook c = recover (storage_read_opener c) (λ b. pure (some b)) (report hook c)

  -- The `StorageReadOpener` that `mkLinkSystem` sets
  unfoldable pub read_opener : Cid → Exec E (Option Bytes)
  unfolding hooked
  read_opener = hooked K.error_hook
