-- ===== src/Engine/QuietEntries.antt =====
-- The part of `publishAdvForIndex` that finds or drops the entries leaves all but the maps alone.
use index_provider.Prelude.{Option, none, some}
use index_provider.Schema.{Bytes, PeerId}
use index_provider.Engine.{Setup}
use index_provider.Engine.Publish.{
  fresh_entries, known_entries, entries_for, put_entries, known_cid,
}
use index_provider.Engine.Frame.{
  IsQuiet, IsQuiet-pure, IsQuiet-raise, IsQuiet-lift, IsQuiet-gets, IsQuiet-if, IsQuiet-relabel,
  IsQuiet-bind,
}
use index_provider.Engine.Quiet.{
  IsQuiet-chunker, IsQuiet-ds_get, IsQuiet-or_absent, IsQuiet-put_key_cid_map,
  IsQuiet-get_key_cid_map, IsQuiet-delete_key_cid_map, IsQuiet-delete_cid_key_map,
  IsQuiet-put_key_metadata_map, IsQuiet-get_key_metadata_map, IsQuiet-delete_key_metadata_map,
}

module _ (G : Setup) where
  open G use {libraries as L, store as D}
  open G.libraries use {Cid, Metadata}

  ruleset quiet = (
    IsQuiet-pure, IsQuiet-raise, IsQuiet-lift, IsQuiet-gets, IsQuiet-if, IsQuiet-relabel,
    IsQuiet-bind, IsQuiet-chunker, IsQuiet-ds_get, IsQuiet-or_absent, IsQuiet-put_key_cid_map,
    IsQuiet-get_key_cid_map, IsQuiet-delete_key_cid_map, IsQuiet-delete_cid_key_map,
    IsQuiet-put_key_metadata_map, IsQuiet-get_key_metadata_map, IsQuiet-delete_key_metadata_map,
  )

  IsQuiet-fresh_entries : (p : PeerId) (ctx : Bytes) → IsQuiet G (fresh_entries G p ctx)
  unfolding fresh_entries
  IsQuiet-fresh_entries p ctx = search quiet depth 9

  IsQuiet-known_entries :
      (p : PeerId) (ctx : Bytes) (md : Metadata) (c : Cid) → IsQuiet G (known_entries G p ctx md c)
  unfolding known_entries
  IsQuiet-known_entries p ctx md c = search quiet depth 9

  IsQuiet-entries_for :
      (p : PeerId) (ctx : Bytes) (md : Metadata) (known : Option Cid)
      → IsQuiet G (entries_for G p ctx md known)
  unfolding entries_for
  IsQuiet-entries_for p ctx md none = IsQuiet-fresh_entries p ctx
  IsQuiet-entries_for p ctx md (some c) = IsQuiet-known_entries p ctx md c

  pub IsQuiet-put_entries :
      (p : PeerId) (ctx : Bytes) (md : Metadata) (known : Option Cid)
      → IsQuiet G (put_entries G p ctx md known)
  unfolding put_entries
  IsQuiet-put_entries p ctx md known = search (quiet, IsQuiet-entries_for) depth 7

  pub IsQuiet-known_cid : (p : PeerId) (ctx : Bytes) → IsQuiet G (known_cid G p ctx)
  unfolding known_cid
  IsQuiet-known_cid p ctx = search quiet
