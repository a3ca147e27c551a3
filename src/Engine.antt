-- ===== src/Engine.antt =====
-- engine/engine.go: the state of an `Engine`, the maps that it keeps in its datastore, and the
-- operations that publish advertisements. The entries chunker and the iterators are parameters.
pub mod Keys
pub mod Publish
pub mod Frame
pub mod Quiet
pub mod QuietEntries
pub mod Reads
pub mod Chain
pub mod Append
pub mod Growth
pub mod Latest
pub mod Refusals
pub mod MapsKept
pub mod Removal
pub mod SharedEntries
pub mod LinkSystem
pub mod Succeeds
pub mod Sample
mod Tests
use index_provider.Prelude.{
  ℕ, Bool, true, false, Option, none, some, List, [], ◌∷◌, if◌then◌else◌, ite, not,
}
use index_provider.Exec.{
  Error, not_found, no_multihash_lister, context_id_not_found, already_advertised, text, wrap,
  panic, Result, ok, err, Exec, pure, raise, lift, gets, relabel, ◌>>=◌, ◌>>◌, recover, zoom,
  modify,
}
use index_provider.Datastore.{Datastore}
use index_provider.Schema.{Bytes, PeerId, Advertisement, ProviderAndContext, Libraries}
use Keys.{
  Key, key_to_cid, cid_to_key, cid_to_provider_and_key, key_to_metadata, latest_adv, block,
  key_discrete, context_key,
}

-- The addresses and the ID of a `peer.AddrInfo`; an address is its text.
pub record AddrInfo : Type 0 where
  pub id : PeerId
  pub addrs : List Bytes

-- What the operations take from the options and never change: `options.provider`, and whether
-- `pubKind` is `NoPublisher`.
pub record Config : Type 0 where
  pub provider : AddrInfo
  pub no_publisher : Bool

-- What an engine is built from: the libraries, the datastore, the chunker of its entries (an
-- `EntriesChunker` with a state of its own, on its own namespace of the datastore), the
-- multihash iterators, and the options.
pub record Setup : Type 1 where
  pub libraries : Libraries
  pub store : Datastore (Key libraries.Cid) Bytes (key_discrete libraries.cid_discrete)
  pub Iterator : Type 0
  pub Chunks : Type 0
  pub chunk : Iterator → Exec Chunks (Option libraries.Cid)
  pub config : Config

module _ (G : Setup) where
  open G use {libraries as L, store as D, Iterator, Chunks, chunk, config}
  open G.libraries use {Cid, Metadata}

  -- `publisher` is the root that `dagsync.Publisher` serves, if there is a publisher;
  -- `announced` are the identifiers given to `announce.Send`, the newest first.
  pub record Engine : Type 0 where
    pub ds : D.State
    pub entries_chunker : Chunks
    pub publisher : Option (Option Cid)
    pub announced : List (Option Cid)
    pub mh_lister : Option (PeerId → Bytes → Result Iterator)

  abbrev pub with_ds : Engine → D.State → Engine
  with_ds e d = record e { ds = d }

  abbrev pub with_chunks : Engine → Chunks → Engine
  with_chunks e c = record e { entries_chunker = c }

  unfoldable pub on_ds : {A : Type 0} → Exec D.State A → Exec Engine A
  unfolding zoom
  on_ds = zoom (λ e. e.ds) with_ds

  unfoldable pub on_chunker : {A : Type 0} → Exec Chunks A → Exec Engine A
  unfolding zoom
  on_chunker = zoom (λ e. e.entries_chunker) with_chunks

  abbrev ds_put : Key Cid → Bytes → Exec Engine (Unit {0})
  ds_put k v = on_ds (D.put k v)

  abbrev ds_delete : Key Cid → Exec Engine (Unit {0})
  ds_delete k = on_ds (D.delete k)

  found : Option Bytes → Exec Engine Bytes
  found none = raise not_found
  found (some b) = pure b

  -- `ds.Get`: a missing key is the error `ErrNotFound`.
  unfoldable pub ds_get : Key Cid → Exec Engine Bytes
  unfolding on_ds found ◌>>=◌
  ds_get k = do o ← on_ds (D.get k); found o

  -- What a caller does that takes `ErrNotFound` for an absent value, and wraps other errors.
  catch_not_found : {A : Type 0} → (Error → Error) → Error → Exec Engine (Option A)
  catch_not_found f not_found = pure none
  catch_not_found f e = raise (f e)

  unfoldable pub or_absent : {A : Type 0} → (Error → Error) → Exec Engine A → Exec Engine (Option A)
  unfolding catch_not_found recover
  or_absent f m = recover m (λ a. pure (some a)) (catch_not_found f)

  unfoldable pub key_to_cid_key : PeerId → Bytes → Key Cid
  unfolding context_key
  key_to_cid_key p ctx = key_to_cid (context_key L.peer_text config.provider.id p ctx)

  unfoldable pub key_to_metadata_key : PeerId → Bytes → Key Cid
  unfolding context_key
  key_to_metadata_key p ctx = key_to_metadata (context_key L.peer_text config.provider.id p ctx)

  unfoldable pub put_key_cid_map : PeerId → Bytes → Cid → Exec Engine (Unit {0})
  unfolding ◌>>=◌ on_ds key_to_cid_key
  put_key_cid_map p ctx c = do
    ds_put (key_to_cid_key p ctx) (L.cid_bytes c)
    pb ← lift (L.peer_bytes p)
    m ← lift (L.marshal_pair (record { provider = pb; context_id = ctx }))
    ds_put (cid_to_provider_and_key c) m

  unfoldable pub get_key_cid_map : PeerId → Bytes → Exec Engine Cid
  unfolding ◌>>=◌ ds_get key_to_cid_key
  get_key_cid_map p ctx = do b ← ds_get (key_to_cid_key p ctx); lift (L.cid_from_bytes b)

  unfoldable pub delete_key_cid_map : PeerId → Bytes → Exec Engine (Unit {0})
  unfolding on_ds key_to_cid_key
  delete_key_cid_map p ctx = ds_delete (key_to_cid_key p ctx)

  unfoldable pub delete_cid_key_map : Cid → Exec Engine (Unit {0})
  unfolding ◌>>=◌ on_ds
  delete_cid_key_map c = do ds_delete (cid_to_provider_and_key c); ds_delete (cid_to_key c)

  -- if provider is empty (which should never happen), assume the default one
  or_default : ProviderAndContext → ProviderAndContext
  or_default pc = elim pc.provider [ [] ↦ record pc { provider = config.provider.id } | _ ∷ _ ↦ pc ]

  legacy_pair : Bytes → ProviderAndContext
  legacy_pair val = record { provider = config.provider.id; context_id = val }

  unfoldable pub current_pair : Cid → Exec Engine ProviderAndContext
  unfolding ◌>>=◌ ds_get or_default
  current_pair c = do
    val ← ds_get (cid_to_provider_and_key c)
    pc ← lift (L.unmarshal_pair val)
    pure (or_default pc)

  unfoldable pub choose_pair : Cid → Option Bytes → Exec Engine ProviderAndContext
  unfolding current_pair legacy_pair
  choose_pair c (some val) = pure (legacy_pair val)
  choose_pair c none = current_pair c

  unfoldable pub get_cid_key_map : Cid → Exec Engine ProviderAndContext
  unfolding ◌>>=◌ ds_get or_absent choose_pair
  get_cid_key_map c = do o ← or_absent (λ e. e) (ds_get (cid_to_key c)); choose_pair c o

  unfoldable pub put_key_metadata_map : PeerId → Bytes → Metadata → Exec Engine (Unit {0})
  unfolding ◌>>=◌ on_ds key_to_metadata_key
  put_key_metadata_map p ctx md = do
    bytes ← lift (L.marshal_metadata md)
    ds_put (key_to_metadata_key p ctx) bytes

  unfoldable pub get_key_metadata_map : PeerId → Bytes → Exec Engine Metadata
  unfolding ◌>>=◌ ds_get key_to_metadata_key
  get_key_metadata_map p ctx = do
    bytes ← ds_get (key_to_metadata_key p ctx)
    lift (L.unmarshal_metadata bytes)

  unfoldable pub delete_key_metadata_map : PeerId → Bytes → Exec Engine (Unit {0})
  unfolding on_ds key_to_metadata_key
  delete_key_metadata_map p ctx = ds_delete (key_to_metadata_key p ctx)

  unfoldable pub put_latest_adv : Bytes → Exec Engine (Unit {0})
  unfolding on_ds
  put_latest_adv b = ds_put latest_adv b

  unfoldable pub parse_latest : Option Bytes → Exec Engine (Option Cid)
  unfolding ◌>>=◌
  parse_latest none = pure none
  parse_latest (some b) = do c ← lift (L.cid_from_bytes b); pure (some c)

  unfoldable pub get_latest_ad_cid : Exec Engine (Option Cid)
  unfolding ◌>>=◌ ds_get or_absent parse_latest
  get_latest_ad_cid = do o ← or_absent (λ e. e) (ds_get latest_adv); parse_latest o

  -- `lsys.Store` with the engine's write opener: encode, hash, and put the block.
  unfoldable pub store_ad : Advertisement Cid → Exec Engine Cid
  unfolding ◌>>=◌ on_ds
  store_ad adv = do (c, b) ← lift (L.encode adv); ds_put (block c) b; pure c

  unfoldable pub publish_local : Advertisement Cid → Exec Engine Cid
  unfolding ◌>>=◌ relabel store_ad put_latest_adv
  publish_local adv = do
    lift (L.validate adv)
    c ← relabel (λ _. text "cannot generate advertisement link") (store_ad adv)
    relabel (wrap "failed to update reference to latest advertisement")
        (put_latest_adv (L.cid_bytes c))
    pure c

  -- `announce`, which logs an error of `announce.Send` and goes on
  unfoldable pub announce : Option Cid → Engine → Engine
  announce c e = if config.no_publisher then e else record e { announced = c ∷ e.announced }

  -- `SetRoot` and `announce`, if there is a publisher
  unfoldable pub offer : Option Cid → Engine → Engine
  unfolding announce
  offer c e = elim e.publisher [ none ↦ e | some _ ↦ announce c (record e { publisher = some c }) ]

  unfoldable pub publish : Advertisement Cid → Exec Engine Cid
  unfolding ◌>>=◌ relabel publish_local modify offer
  publish adv = do
    c ← relabel (wrap "failed to publish advertisement locally") (publish_local adv)
    modify (offer (some c))
    pure c
