-- ===== src/Engine/Succeeds.antt =====
-- engine/engine.go: when `publishAdvForIndex` succeeds.
pub mod Writes
pub mod Reads
pub mod Entries
use index_provider.Prelude.{
  ◌≡◌, ◌≢◌, refl, sym, ap, ◌∙◌, Bool, true, false, Option, none, some, List, [], ◌∷◌,
}
use mathlib.Core.Path.{subst}
use index_provider.Exec.{
  Error, not_found, text, wrap, Result, ok, err, Exec, pure, raise, lift, gets, relabel, recover,
  modify, ◌>>=◌, ◌>>◌,
}
use index_provider.Exec.Post.{
  Post, Post-pure, Post-raise, Post-bind, Post-weaken, Post-relabel, Post-recover, Post-both,
  Post-zoom,
}
use index_provider.Exec.Sure.{
  Returns, Post-bind_known, lift_known, gets_known, Sure, Post-Returns, Sure-pure, Sure-lift,
  Sure-gets, Sure-relabel, Sure-modify, Sure-bind, Sure-zoom,
}
use index_provider.Schema.{Bytes, PeerId, Advertisement, ProviderAndContext}
use index_provider.Engine.{
  Setup, Engine, on_ds, with_ds, on_chunker, with_chunks, found, ds_get, catch_not_found, or_absent,
  key_to_cid_key, put_key_cid_map, get_key_cid_map, delete_key_cid_map, delete_cid_key_map,
  put_key_metadata_map, delete_key_metadata_map, put_latest_adv, parse_latest, get_latest_ad_cid,
  store_ad, publish_local, offer, publish,
}
use index_provider.Engine.Keys.{Key, latest_adv}
use index_provider.Engine.Frame.{view, Frame}
use index_provider.Engine.Reads.{
  Unchanged, Unchanged-Frame, Holds, read_cid, ds_get_lem, or_absent_lem, get_latest_ad_cid_lem,
  known_cid_lem,
}
use index_provider.Engine.QuietEntries.{IsQuiet-put_entries}
use index_provider.Engine.Chain.{IsChain, Holds-same}
use index_provider.Engine.Growth.{
  Grown, Describes, remove_entries_lem, publish_adv_for_index-IsChain,
}
use index_provider.Engine.Publish.{
  call_lister, or_no_entries, fresh_entries, entries_for, put_entries, remove_entries, unsigned,
  publish_entries, known_cid, publish_adv_for_index,
}
use Writes.{S-publish, S-remove_known}
use Reads.{latest-Known, known-Known}
use Entries.{Listable, Listable-Unchanged, put_entries-Fits}

module _ (G : Setup) where
  open G use {libraries as L, store as D, Iterator, chunk}
  open G.libraries use {Cid, Metadata}

  -- What the libraries answer when the advertisement of `lnk` is built after `l`: its metadata can be
  -- encoded, and it can be signed, is valid, and can be stored.
  pub record Accepted (p : PeerId) (addrs : List Bytes) (ctx : Bytes) (md : Metadata) (is_rm : Bool)
      (l : Option Cid) (lnk : Cid) : Type 0 where
    pub bytes : Bytes
    pub signature : Bytes
    pub stored : Cid × Bytes
    pub has_bytes : L.marshal_metadata md ≡ ok bytes
    pub signs : L.sign (unsigned G p addrs ctx lnk bytes is_rm l) ≡ ok signature
    pub valid :
        L.validate
          (record (unsigned G p addrs ctx lnk bytes is_rm l) { signature = some signature })
        ≡ ok tt
    pub encodes :
        L.encode (record (unsigned G p addrs ctx lnk bytes is_rm l) { signature = some signature })
        ≡ ok stored

  publish_entries-Returns :
      (p : PeerId) (addrs : List Bytes) (ctx : Bytes) (md : Metadata) (is_rm : Bool)
      (l : Option Cid) (lnk : Cid) (e : Engine G)
      → D.Reliable
      → Holds G (view G e) latest_adv l
      → Accepted p addrs ctx md is_rm l lnk
      → Returns (publish_entries G p addrs ctx md is_rm lnk) e
  unfolding publish_entries
  publish_entries-Returns p addrs ctx md is_rm l lnk e W h A =
      Post-bind_known A.bytes (lift (L.marshal_metadata md)) _ e
        (lift_known (L.marshal_metadata md) A.bytes e A.has_bytes)
        (λ t same.
          Post-bind_known l (relabel _ (get_latest_ad_cid G)) _ t
            (Post-relabel (λ _ _. ⊥) _ (get_latest_ad_cid G) t
              (latest-Known G W l t (subst (λ s. Holds G (view G s) latest_adv l) (sym same) h))
              (λ _ _ q. q) (λ _ _ x. x))
            (λ u _.
              Post-bind_known A.signature _ _ u (lift_known _ A.signature u A.signs)
                (λ v _. (S-publish G W _ (tt, A.valid) (A.stored, A.encodes)).at v)))

  module _ (l : Option Cid) (ads : List (Advertisement Cid)) where
    put-Returns :
        (p : PeerId) (addrs : List Bytes) (ctx : Bytes) (md : Metadata) (b : Bytes) (e : Engine G)
        → D.Reliable
        → IsChain G (view G e) l ads
        → view G e (key_to_cid_key G p ctx) ≡ none
        → L.marshal_metadata md ≡ ok b
        → Listable G p ctx (Accepted p addrs ctx md false l) e
        → Returns (publish_adv_for_index G p addrs ctx md false) e
    unfolding publish_adv_for_index
    put-Returns p addrs ctx md b e W ch new has X =
        Post-bind _ _ e (known-Known G W p ctx none e new)
          (λ known t q.
            Post-bind _ _ t (put_known known t q.0 q.1)
              (λ lnk u r.
                publish_entries-Returns p addrs ctx md false l lnk u W
                  (Holds-same G (view G t) (view G u) l r.1.latest
                    (Holds-same G (view G e) (view G t) l (Unchanged-Frame G q.1).latest ch.0))
                  r.0)
              (λ _ _ x. x))
          (λ _ _ x. x)
      where
        put_known :
            (known : Option Cid) (t : Engine G)
            → known ≡ none
            → Unchanged G e t
            → Post
                (put_entries G p ctx md known)
                t
                (λ lnk u. Accepted p addrs ctx md false l lnk × Frame G t u)
                (λ _ _. ⊥)
        put_known none t _ u =
            Post-weaken _ t
              (Post-both _ _ _ _ (put_entries G p ctx md none) t
                (put_entries-Fits G md b t W has (Listable-Unchanged G u X))
                ((IsQuiet-put_entries G p ctx md none).at t))
              (λ _ _ z. z) (λ _ _ z. z.0)
        put_known (some c) t h _ = absurd (cc)

    remove-Returns :
        (p : PeerId) (addrs : List Bytes) (ctx : Bytes) (md : Metadata) (c : Cid) (e : Engine G)
        → D.Reliable
        → IsChain G (view G e) l ads
        → view G e (key_to_cid_key G p ctx) ≡ some (L.cid_bytes c)
        → Accepted p addrs ctx L.empty_metadata true l L.no_entries
        → Returns (publish_adv_for_index G p addrs ctx md true) e
    unfolding publish_adv_for_index
    remove-Returns p addrs ctx md c e W ch known A =
        Post-bind _ _ e (known-Known G W p ctx (some c) e known)
          (λ o t q.
            Post-bind _ _ t (remove_known o t q.0)
              (λ lnk u r.
                publish_entries-Returns p addrs ctx L.empty_metadata true l lnk u W
                  (Holds-same G (view G t) (view G u) l r.1.latest
                    (Holds-same G (view G e) (view G t) l (Unchanged-Frame G q.1).latest ch.0))
                  (subst (λ x. Accepted p addrs ctx L.empty_metadata true l x) (sym r.0) A))
              (λ _ _ x. x))
          (λ _ _ x. x)
      where
        remove_known :
            (o : Option Cid) (t : Engine G)
            → o ≡ some c
            → Post
                (remove_entries G p ctx o)
                t
                (λ lnk u. (lnk ≡ L.no_entries) × Frame G t u)
                (λ _ _. ⊥)
        remove_known none t h = absurd (cc)
        remove_known (some d) t _ =
            Post-Returns _ t (remove_entries_lem G l ads p ctx (some d) t)
              ((S-remove_known G W p ctx d).at t)

    -- What a put or a removal takes to succeed. A put is of a context ID of which nothing is known: its
    -- metadata can be encoded, a lister gives an iterator, the chunker makes entries of it, and the
    -- libraries take the advertisement of these entries. A removal is of a context ID that has entries, and
    -- the libraries take the advertisement of it.
    abbrev pub Ready : PeerId → List Bytes → Bytes → Metadata → Bool → Engine G → Type 0
    Ready p addrs ctx md false e =
        (view G e (key_to_cid_key G p ctx) ≡ none)
        × ((b : Bytes) × (L.marshal_metadata md ≡ ok b))
        × Listable G p ctx (Accepted p addrs ctx md false l) e
    Ready p addrs ctx md true e =
        ((c : Cid) × (view G e (key_to_cid_key G p ctx) ≡ some (L.cid_bytes c)))
        × Accepted p addrs ctx L.empty_metadata true l L.no_entries

    publish-Returns :
        (p : PeerId) (addrs : List Bytes) (ctx : Bytes) (md : Metadata) (is_rm : Bool)
        (e : Engine G)
        → D.Reliable
        → IsChain G (view G e) l ads
        → Ready p addrs ctx md is_rm e
        → Returns (publish_adv_for_index G p addrs ctx md is_rm) e
    publish-Returns p addrs ctx md false e W ch (new, (b, has), X) =
        put-Returns p addrs ctx md b e W ch new has X
    publish-Returns p addrs ctx md true e W ch ((c, known), A) =
        remove-Returns p addrs ctx md c e W ch known A

    -- With a datastore that does not fail, putting a context ID of which nothing is known, and removing one
    -- that has entries, succeeds if the lister, the chunker and the libraries take it: it puts one
    -- advertisement that says what was asked in front of the chain, and offers it to the indexers.
    pub publish_adv_for_index-succeeds :
        (p : PeerId) (addrs : List Bytes) (ctx : Bytes) (md : Metadata) (is_rm : Bool)
        (e : Engine G)
        → D.Reliable
        → IsChain G (view G e) l ads
        → Ready p addrs ctx md is_rm e
        → Post
            (publish_adv_for_index G p addrs ctx md is_rm)
            e
            (Grown G l ads (Describes G l ads p addrs ctx is_rm) e)
            (λ _ _. ⊥)
    publish_adv_for_index-succeeds p addrs ctx md is_rm e W ch R =
        Post-Returns _ e (publish_adv_for_index-IsChain G l ads p addrs ctx md is_rm e ch)
          (publish-Returns p addrs ctx md is_rm e W ch R)
