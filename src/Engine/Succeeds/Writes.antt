-- ===== src/Engine/Succeeds/Writes.antt =====
-- With a datastore that does not fail, the writes of the engine succeed, and so does `Publish` of an
-- advertisement that the libraries take.
use index_provider.Prelude.{◌≡◌, some}
use index_provider.Exec.{ok}
use index_provider.Exec.Sure.{
  Sure, Sure-pure, Sure-lift, Sure-gets, Sure-relabel, Sure-modify, Sure-bind, Sure-zoom,
}
use index_provider.Schema.{Bytes, PeerId, Advertisement}
use index_provider.Engine.{
  Setup, on_ds, with_ds, delete_key_cid_map, delete_cid_key_map, delete_key_metadata_map,
  put_latest_adv, store_ad, publish_local, publish,
}
use index_provider.Engine.Keys.{Key}
use index_provider.Engine.Publish.{remove_entries}

module _ (G : Setup) where
  open G use {libraries as L, store as D, Iterator, chunk}
  open G.libraries use {Cid, Metadata}

  module _ (reliable : D.Reliable) where
    pub S-put : (k : Key Cid) (b : Bytes) → Sure (on_ds G (D.put k b))
    unfolding on_ds
    S-put k b = Sure-zoom (λ e. e.ds) (with_ds G) (D.put k b) (λ d. D.put_reliable k b d reliable)

    S-delete : (k : Key Cid) → Sure (on_ds G (D.delete k))
    unfolding on_ds
    S-delete k =
        Sure-zoom (λ e. e.ds) (with_ds G) (D.delete k) (λ d. D.delete_reliable k d reliable)

    pub S-get : (k : Key Cid) → Sure (on_ds G (D.get k))
    unfolding on_ds
    S-get k = Sure-zoom (λ e. e.ds) (with_ds G) (D.get k) (λ d. D.get_reliable k d reliable)

    ruleset rules =
        (Sure-pure, Sure-gets, Sure-lift, Sure-relabel, Sure-modify, Sure-bind, S-put, S-delete)

    S-put_latest_adv : (b : Bytes) → Sure (put_latest_adv G b)
    unfolding put_latest_adv
    S-put_latest_adv b = search rules

    S-delete_key_cid_map : (p : PeerId) (ctx : Bytes) → Sure (delete_key_cid_map G p ctx)
    unfolding delete_key_cid_map
    S-delete_key_cid_map p ctx = search rules

    S-delete_cid_key_map : (c : Cid) → Sure (delete_cid_key_map G c)
    unfolding delete_cid_key_map
    S-delete_cid_key_map c = search rules

    S-delete_key_metadata_map : (p : PeerId) (ctx : Bytes) → Sure (delete_key_metadata_map G p ctx)
    unfolding delete_key_metadata_map
    S-delete_key_metadata_map p ctx = search rules

    pub S-remove_known :
        (p : PeerId) (ctx : Bytes) (c : Cid) → Sure (remove_entries G p ctx (some c))
    unfolding remove_entries
    S-remove_known p ctx c =
        search (rules, S-delete_key_cid_map, S-delete_cid_key_map, S-delete_key_metadata_map) depth
          8

    S-store_ad :
        (a : Advertisement Cid) → ((r : Cid × Bytes) × (L.encode a ≡ ok r)) → Sure (store_ad G a)
    unfolding store_ad
    S-store_ad a h = search rules

    S-publish_local :
        (a : Advertisement Cid)
        → ((u : Unit {0}) × (L.validate a ≡ ok u))
        → ((r : Cid × Bytes) × (L.encode a ≡ ok r))
        → Sure (publish_local G a)
    unfolding publish_local
    S-publish_local a v h = search (rules, S-store_ad, S-put_latest_adv) depth 7

    pub S-publish :
        (a : Advertisement Cid)
        → ((u : Unit {0}) × (L.validate a ≡ ok u))
        → ((r : Cid × Bytes) × (L.encode a ≡ ok r))
        → Sure (publish G a)
    unfolding publish
    S-publish a v h = search (rules, S-publish_local) depth 7
