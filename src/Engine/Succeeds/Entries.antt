-- ===== src/Engine/Succeeds/Entries.antt =====
-- When the entries of a context ID of which nothing is known are listed, chunked and recorded.
use index_provider.Prelude.{◌≡◌, sym, ap, ◌∙◌, Option, none, some}
use mathlib.Core.Path.{subst}
use index_provider.Exec.{text, Result, ok, Exec, pure, lift, gets, relabel, ◌>>=◌, ◌>>◌}
use index_provider.Exec.Post.{Post, Post-pure, Post-bind, Post-relabel, Post-zoom}
use index_provider.Exec.Sure.{Returns, Post-bind_known, lift_known, gets_known}
use index_provider.Schema.{Bytes, PeerId}
use index_provider.Engine.{
  Setup, Engine, on_chunker, with_chunks, key_to_cid_key, put_key_cid_map, put_key_metadata_map,
}
use index_provider.Engine.Reads.{Unchanged}
use index_provider.Engine.Publish.{
  call_lister, or_no_entries, fresh_entries, entries_for, put_entries,
}
use index_provider.Engine.Succeeds.Writes.{S-put}

module _ (G : Setup) where
  open G use {libraries as L, store as D, Iterator, chunk}
  open G.libraries use {Cid, Metadata}

  -- What putting a context ID of which nothing is known takes: a registered lister that gives an
  -- iterator, a chunker that makes entries of it that fit, and encodings of the pair.
  pub record Listable (p : PeerId) (ctx : Bytes) (Fits : Cid → Type 0) (e : Engine G) : Type 0 where
    pub lister : PeerId → Bytes → Result Iterator
    pub iterator : Iterator
    pub peer : Bytes
    pub pair : Bytes
    pub registered : e.mh_lister ≡ some lister
    pub lists : lister p ctx ≡ ok iterator
    pub chunks :
        Post (chunk iterator) e.entries_chunker (λ lnk _. Fits (or_no_entries G lnk)) (λ _ _. ⊥)
    pub has_peer : L.peer_bytes p ≡ ok peer
    pub has_pair : L.marshal_pair (record { provider = peer; context_id = ctx }) ≡ ok pair

  module _ {p : PeerId} {ctx : Bytes} {Fits : Cid → Type 0} where
    pub Listable-Unchanged :
        {e t : Engine G} → Unchanged G e t → Listable p ctx Fits e → Listable p ctx Fits t
    Listable-Unchanged {e} {t} u X = record {
      lister = X.lister;
      iterator = X.iterator;
      peer = X.peer;
      pair = X.pair;
      registered = u.lister ∙ X.registered;
      lists = X.lists;
      chunks =
          subst (λ s. Post (chunk X.iterator) s (λ lnk _. Fits (or_no_entries G lnk)) (λ _ _. ⊥))
            (sym u.chunks) X.chunks;
      has_peer = X.has_peer;
      has_pair = X.has_pair;
    }

    map-Returns :
        (c : Cid) (e t : Engine G)
        → D.Reliable
        → Listable p ctx Fits e
        → Returns (put_key_cid_map G p ctx c) t
    unfolding put_key_cid_map
    map-Returns c e t W X =
        Post-bind _ _ t ((S-put G W (key_to_cid_key G p ctx) (L.cid_bytes c)).at t)
          (λ _ u _. Post-bind_known X.peer _ _ u (lift_known _ X.peer u X.has_peer) (λ v _.
            Post-bind_known X.pair _ _ v (lift_known _ X.pair v X.has_pair)
              (λ w _. (S-put G W _ X.pair).at w)))
          (λ _ _ x. x)

    called :
        (e : Engine G) (X : Listable p ctx Fits e) → call_lister G p ctx e.mh_lister ≡ ok X.iterator
    unfolding call_lister
    called e X = ap (λ o. call_lister G p ctx o) X.registered ∙ X.lists

    chunk_at :
        (e t : Engine G) (X : Listable p ctx Fits e) (it : Iterator)
        → it ≡ X.iterator
        → t ≡ e
        → Post (on_chunker G (chunk it)) t (λ lnk _. Fits (or_no_entries G lnk)) (λ _ _. ⊥)
    unfolding on_chunker
    chunk_at e t X it is same =
        Post-zoom (λ s. s.entries_chunker) (with_chunks G) (chunk it) t
          (subst (λ s. Post (chunk it) s (λ lnk _. Fits (or_no_entries G lnk)) (λ _ _. ⊥))
            (ap (λ s. s.entries_chunker) (sym same))
            (subst
              (λ i.
                Post (chunk i) e.entries_chunker (λ lnk _. Fits (or_no_entries G lnk)) (λ _ _. ⊥))
              (sym is) X.chunks))
          (λ _ _ q. q) (λ _ _ x. x)

    fresh_entries-Fits :
        (e : Engine G)
        → D.Reliable
        → Listable p ctx Fits e
        → Post (fresh_entries G p ctx) e (λ lnk _. Fits lnk) (λ _ _. ⊥)
    unfolding fresh_entries
    fresh_entries-Fits e W X =
        Post-bind (gets (λ s. s.mh_lister)) rest e (gets_known (λ s. s.mh_lister) e)
          (λ lister t q.
            Post-bind _ _ t
              (lift_known _ X.iterator t (ap (λ o. call_lister G p ctx o) q.0 ∙ called e X))
              (λ iter u r.
                Post-bind _ _ u
                  (Post-relabel (λ _ _. ⊥) _ (on_chunker G (chunk iter)) u
                    (chunk_at e u X iter r.0 (r.1 ∙ q.1)) (λ _ _ h. h) (λ _ _ x. x))
                  (λ lnk v fits.
                    Post-bind _ _ v
                      (Post-relabel (λ _ _. ⊥) _ (put_key_cid_map G p ctx (or_no_entries G lnk)) v
                        (map-Returns (or_no_entries G lnk) e v W X) (λ _ _ h. h) (λ _ _ x. x))
                      (λ _ w _. Post-pure (or_no_entries G lnk) w fits) (λ _ _ x. x))
                  (λ _ _ x. x))
              (λ _ _ x. x))
          (λ _ _ x. x)
      where
        rest : Option (PeerId → Bytes → Result Iterator) → Exec (Engine G) Cid
        rest lister = do
          iter ← lift (call_lister G p ctx lister)
          lnk ← relabel (λ _. text "could not generate entries list") (on_chunker G (chunk iter))
          relabel (λ _. text "failed to write provider + context id to entries cid mapping")
              (put_key_cid_map G p ctx (or_no_entries G lnk))
          pure (or_no_entries G lnk)

    pub put_entries-Fits :
        (md : Metadata) (b : Bytes) (e : Engine G)
        → D.Reliable
        → L.marshal_metadata md ≡ ok b
        → Listable p ctx Fits e
        → Post (put_entries G p ctx md none) e (λ lnk _. Fits lnk) (λ _ _. ⊥)
    unfolding put_entries entries_for put_key_metadata_map
    put_entries-Fits md b e W h X =
        Post-bind _ _ e (fresh_entries-Fits e W X)
          (λ lnk t fits.
            Post-bind _ _ t
              (Post-relabel (λ _ _. ⊥) _ (put_key_metadata_map G p ctx md) t
                (Post-bind_known b (lift (L.marshal_metadata md)) _ t (lift_known _ b t h)
                  (λ u _. (S-put G W _ b).at u))
                (λ _ _ q. q) (λ _ _ x. x))
              (λ _ u _. Post-pure lnk u fits) (λ _ _ x. x))
          (λ _ _ x. x)
