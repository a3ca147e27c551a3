-- ===== src/Engine/Publish.antt =====
-- engine/engine.go: `publishAdvForIndex`, `NotifyPut`, `NotifyRemove` and the operations that read
-- or offer again what has been published.
use index_provider.Prelude.{Bool, true, false, Option, none, some, List, [], ◌∷◌, if◌then◌else◌}
use index_provider.Exec.{
  no_multihash_lister, context_id_not_found, already_advertised, text, wrap, panic, Result, err,
  Exec, pure, raise, lift, gets, relabel, ◌>>=◌, ◌>>◌, modify,
}
use index_provider.Schema.{Bytes, PeerId, Advertisement}
use index_provider.Engine.{
  Setup, Engine, AddrInfo, on_chunker, or_absent, ds_get, put_key_cid_map, get_key_cid_map,
  delete_key_cid_map, delete_cid_key_map, put_key_metadata_map, get_key_metadata_map,
  delete_key_metadata_map, get_latest_ad_cid, publish, offer,
}
use index_provider.Engine.Keys.{block}

module _ (G : Setup) where
  open G use {libraries as L, Iterator, chunk, config}
  open G.libraries use {Cid, Metadata}

  abbrev E : Type 0
  E = Engine G

  -- The lister that is registered, or the error that there is none.
  unfoldable pub call_lister :
      PeerId → Bytes → Option (PeerId → Bytes → Result Iterator) → Result Iterator
  call_lister p ctx none = err no_multihash_lister
  call_lister p ctx (some lister) = lister p ctx

  unfoldable pub or_no_entries : Option Cid → Cid
  or_no_entries none = L.no_entries
  or_no_entries (some c) = c

  -- No advertisement was published for the context ID: list its multihashes, chunk them, and store
  -- the mapping.
  unfoldable pub fresh_entries : PeerId → Bytes → Exec E Cid
  unfolding ◌>>=◌ relabel call_lister or_no_entries on_chunker put_key_cid_map
  fresh_entries p ctx = do
    lister ← gets (λ e. e.mh_lister)
    iter ← lift (call_lister p ctx lister)
    lnk ← relabel (λ _. text "could not generate entries list") (on_chunker G (chunk iter))
    relabel (λ _. text "failed to write provider + context id to entries cid mapping")
        (put_key_cid_map G p ctx (or_no_entries lnk))
    pure (or_no_entries lnk)

  unfoldable pub or_empty_metadata : Option Metadata → Metadata
  or_empty_metadata none = L.empty_metadata
  or_empty_metadata (some md) = md

  -- One was published: with the same metadata there is nothing to do, and with other metadata the
  -- entries stay as they are.
  unfoldable pub known_entries : PeerId → Bytes → Metadata → Cid → Exec E Cid
  unfolding ◌>>=◌ or_absent or_empty_metadata get_key_metadata_map
  known_entries p ctx md c = do
    prev ←
        or_absent G (λ _. text "could not get metadata for provider + context id")
          (get_key_metadata_map G p ctx)
    if L.metadata_equal md (or_empty_metadata prev) then raise already_advertised else pure c

  unfoldable pub entries_for : PeerId → Bytes → Metadata → Option Cid → Exec E Cid
  unfolding fresh_entries known_entries
  entries_for p ctx md none = fresh_entries p ctx
  entries_for p ctx md (some c) = known_entries p ctx md c

  unfoldable pub put_entries : PeerId → Bytes → Metadata → Option Cid → Exec E Cid
  unfolding ◌>>=◌ relabel entries_for put_key_metadata_map
  put_entries p ctx md known = do
    lnk ← entries_for p ctx md known
    relabel (λ _. text "failed to write provider + context id to metadata mapping")
        (put_key_metadata_map G p ctx md)
    pure lnk

  unfoldable pub remove_entries : PeerId → Bytes → Option Cid → Exec E Cid
  unfolding ◌>>=◌ relabel delete_key_cid_map delete_cid_key_map delete_key_metadata_map
  remove_entries p ctx none = raise context_id_not_found
  remove_entries p ctx (some c) = do
    relabel (λ _. text "failed to delete provider + context id to entries cid mapping")
        (delete_key_cid_map G p ctx)
    relabel (λ _. text "failed to delete entries cid to provider + context id mapping")
        (delete_cid_key_map G c)
    relabel (λ _. text "failed to delete provider + context id to metadata mapping")
        (delete_key_metadata_map G p ctx)
    pure L.no_entries

  abbrev pub unsigned :
      PeerId → List Bytes → Bytes → Cid → Bytes → Bool → Option Cid → Advertisement Cid
  unsigned p addrs ctx lnk md is_rm previous = record {
    previous_id = previous;
    provider = L.peer_text p;
    addresses = addrs;
    entries = lnk;
    context_id = ctx;
    metadata = md;
    is_rm = is_rm;
    extended_provider = none;
    signature = none;
  }

  -- Build the advertisement, link it to the latest one, sign it and publish it.
  unfoldable pub publish_entries : PeerId → List Bytes → Bytes → Metadata → Bool → Cid → Exec E Cid
  unfolding ◌>>=◌ relabel get_latest_ad_cid publish
  publish_entries p addrs ctx md is_rm lnk = do
    bytes ← lift (L.marshal_metadata md)
    previous ← relabel (λ _. text "could not get latest advertisement") (get_latest_ad_cid G)
    signature ← lift (L.sign (unsigned p addrs ctx lnk bytes is_rm previous))
    publish G
        (record (unsigned p addrs ctx lnk bytes is_rm previous) { signature = some signature })

  -- The entries that were published for the context ID, if any.
  unfoldable pub known_cid : PeerId → Bytes → Exec E (Option Cid)
  unfolding or_absent get_key_cid_map
  known_cid p ctx =
      or_absent G (λ _. text "cound not not get entries cid by provider + context id")
        (get_key_cid_map G p ctx)

  unfoldable pub publish_adv_for_index : PeerId → List Bytes → Bytes → Metadata → Bool → Exec E Cid
  unfolding ◌>>=◌ known_cid put_entries remove_entries publish_entries
  publish_adv_for_index p addrs ctx md false = do
    known ← known_cid p ctx
    lnk ← put_entries p ctx md known
    publish_entries p addrs ctx md false lnk
  publish_adv_for_index p addrs ctx md true = do
    known ← known_cid p ctx
    lnk ← remove_entries p ctx known
    publish_entries p addrs ctx L.empty_metadata true lnk

  unfoldable pub notify_put : Option AddrInfo → Bytes → Metadata → Exec E Cid
  unfolding publish_adv_for_index
  notify_put none ctx md =
      publish_adv_for_index config.provider.id config.provider.addrs ctx md false
  notify_put (some p) ctx md = publish_adv_for_index p.id p.addrs ctx md false

  -- an empty provider is the default one
  unfoldable pub notify_remove : PeerId → Bytes → Exec E Cid
  unfolding publish_adv_for_index
  notify_remove p ctx =
      publish_adv_for_index (elim p [ [] ↦ config.provider.id | b ∷ bs ↦ b ∷ bs ]) [] ctx
        L.empty_metadata true

  -- `e.publisher.SetRoot` on a nil publisher is a nil dereference.
  unfoldable pub set_root : Option Cid → Option (Option Cid) → Exec E (Unit {0})
  unfolding modify offer
  set_root c none = raise panic
  set_root c (some _) = modify (offer G c)

  unfoldable pub latest_for : Option (Option Cid) → Exec E (Option Cid)
  unfolding relabel get_latest_ad_cid
  latest_for none = pure none
  latest_for (some _) =
      relabel (wrap "failed to get latest advertisement cid") (get_latest_ad_cid G)

  unfoldable pub latest_ad_to_publish : Exec E (Option Cid)
  unfolding ◌>>=◌ latest_for
  latest_ad_to_publish = do publisher ← gets (λ e. e.publisher); latest_for publisher

  unfoldable pub publish_latest : Exec E (Option Cid)
  unfolding ◌>>=◌ latest_ad_to_publish set_root
  publish_latest = do
    ad_cid ← latest_ad_to_publish
    publisher ← gets (λ e. e.publisher)
    set_root ad_cid publisher
    pure ad_cid

  -- The vanilla link system reads the block and decodes it.
  unfoldable pub get_adv : Cid → Exec E (Advertisement Cid)
  unfolding ◌>>=◌ relabel ds_get
  get_adv c = do
    b ←
        relabel (λ _. text "cannot load advertisement from blockstore with vanilla linksystem")
          (ds_get G (block c))
    lift (L.decode b)

  abbrev Latest : Type 0
  Latest = Option (Cid × Advertisement Cid)

  adv_at : Option Cid → Exec E Latest
  unfolding ◌>>=◌ relabel get_adv
  adv_at none = pure none
  adv_at (some c) = do
    ad ← relabel (λ _. text "count not get latest advertisement from blockstore by cid") (get_adv c)
    pure (some (c, ad))

  unfoldable pub get_latest_adv : Exec E Latest
  unfolding ◌>>=◌ relabel get_latest_ad_cid adv_at
  get_latest_adv = do
    c ←
        relabel (λ _. text "could not get latest advertisement cid from blockstore")
          (get_latest_ad_cid G)
    adv_at c

  unfoldable pub register_multihash_lister : (PeerId → Bytes → Result Iterator) → Exec E (Unit {0})
  unfolding modify
  register_multihash_lister lister = modify (λ e. record e { mh_lister = some lister })
