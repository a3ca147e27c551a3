-- ===== src/Engine/MapsKept.antt =====
-- Publishing an advertisement leaves the four maps alone.
use index_provider.Prelude.{
  ◌≡◌, ◌≢◌, refl, sym, ap, ◌∙◌, Bool, Option, none, some, List, inl, inr, arith, if_neg,
}
use index_provider.Exec.{Error, Exec, pure, lift, relabel, ◌>>=◌}
use index_provider.Exec.Post.{Post-weaken, Post-zoom, Post-modify}
use index_provider.Exec.Within.{Within, Within-pure, Within-lift, Within-relabel, Within-bind}
use index_provider.Schema.{Bytes, PeerId, Advertisement}
use index_provider.Engine.{
  Setup, Engine, on_ds, with_ds, ds_get, publish, publish_local, offer, store_ad, get_latest_ad_cid,
  parse_latest,
}
use index_provider.Engine.Keys.{Key, latest_adv, block, key_discrete}
use index_provider.Engine.Frame.{IsMapKey, IsMapKey-ne-block, IsMapKey-ne-latest, view, updated}
use index_provider.Engine.Reads.{ds_get_lem, or_absent_lem}
use index_provider.Engine.Publish.{publish_entries}

module _ (G : Setup) where
  open G use {libraries as L, store as D}
  open G.libraries use {Cid, Metadata}

  abbrev E : Type 0
  E = Engine G

  -- The four maps are left alone.
  pub record MapsKept (e e' : E) : Type 0 where
    pub kept : (k : Key Cid) → IsMapKey k → view G e' k ≡ view G e k

  MapsKept-refl : (e : E) → MapsKept e e
  MapsKept-refl e = record { kept = λ k h. refl }

  MapsKept-trans : (a b c : E) → MapsKept a b → MapsKept b c → MapsKept a c
  MapsKept-trans a b c p q = record { kept = λ k h. q.kept k h ∙ p.kept k h }

  MapsKept-held : (e e' : E) → view G e' ≡ view G e → MapsKept e e'
  MapsKept-held e e' p = record { kept = λ k h. ap (λ v. v k) p }

  MapsKept-updated :
      (e e' : E) (j : Key Cid) (o : Option Bytes)
      → ((k : Key Cid) → IsMapKey k → k ≢ j)
      → view G e' ≡ updated G (view G e) j o
      → MapsKept e e'
  MapsKept-updated e e' j o ne p = record {
    kept =
        λ k h. ap (λ v. v k) p ∙ if_neg (key_discrete L.cid_discrete j k) (λ q. ne k h (sym q)) _ _;
  }

  pure' : {A : Type 0} (a : A) → Within MapsKept (pure a)
  pure' = Within-pure MapsKept MapsKept-refl MapsKept-trans

  lift' : {A : Type 0} (r : _) → Within MapsKept (lift {A = A} r)
  lift' = Within-lift MapsKept MapsKept-refl MapsKept-trans

  relabel' :
      {A : Type 0} (f : Error → Error) (m : Exec E A)
      → Within MapsKept m
      → Within MapsKept (relabel f m)
  relabel' = Within-relabel MapsKept MapsKept-refl MapsKept-trans

  bind' :
      {A B : Type 0} (m : Exec E A) (f : A → Exec E B)
      → Within MapsKept m
      → ((a : A) → Within MapsKept (f a))
      → Within MapsKept (m >>= f)
  bind' = Within-bind MapsKept MapsKept-refl MapsKept-trans

  put' :
      (j : Key Cid) (b : Bytes)
      → ((k : Key Cid) → IsMapKey k → k ≢ j)
      → Within MapsKept (on_ds G (D.put j b))
  unfolding on_ds
  put' j b ne = record {
    at = λ e.
        Post-zoom (λ x. x.ds) (with_ds G) (D.put j b) e (D.put_lem j b e.ds)
          (λ _ d p. MapsKept-updated e (with_ds G e d) j (some b) ne p)
          (λ _ d p. elim p [
            | inl q ↦ MapsKept-held e (with_ds G e d) q
            | inr q ↦ MapsKept-updated e (with_ds G e d) j (some b) ne q
          ]);
  }

  latest' : Within MapsKept (get_latest_ad_cid G)
  unfolding get_latest_ad_cid
  latest' =
      bind' _ _
        (record {
          at = λ e.
              Post-weaken _ e
                (or_absent_lem G (λ x. x) (ds_get G latest_adv) e (ds_get_lem G latest_adv e))
                (λ _ t p. MapsKept-held e t p.2.held) (λ _ t p. MapsKept-held e t p.1.held);
        })
        parse'
    where
      parse' : (o : Option Bytes) → Within MapsKept (parse_latest G o)
      parse' none = pure' none
      parse' (some b) = bind' _ _ (lift' (L.cid_from_bytes b)) (λ c. pure' (some c))

  offer-ds :
      (c : Option Cid) (r : Option (Option Cid)) (e : E) → e.publisher ≡ r → (offer G c e).ds ≡ e.ds
  unfolding offer
  offer-ds c none e p = ground arith
  offer-ds c (some r) e p = ground arith

  publish_local' : (a : Advertisement Cid) → Within MapsKept (publish_local G a)
  unfolding publish_local
  publish_local' a = bind' _ _ (lift' (L.validate a)) (λ _. bind' _ _ (relabel' _ _ store') (λ c.
      bind' _ _ (relabel' _ _ (put' latest_adv (L.cid_bytes c) IsMapKey-ne-latest)) (λ _. pure' c)))
    where
      store' : Within MapsKept (store_ad G a)
      store' =
          bind' _ _ (lift' (L.encode a))
            (λ (c, b). bind' _ _ (put' (block c) b (λ k. IsMapKey-ne-block k c)) (λ _. pure' c))

  publish' : (a : Advertisement Cid) → Within MapsKept (publish G a)
  unfolding publish
  publish' a = bind' _ _ (relabel' _ _ (publish_local' a)) (λ c.
      bind' _ _
        (record {
          at = λ e.
              Post-modify {E = λ _ t. MapsKept e t} (offer G (some c)) e
                (MapsKept-held e _ (ap D.view (offer-ds (some c) e.publisher e refl)));
        })
        (λ _. pure' c))

  pub publish_entries-MapsKept :
      (p : PeerId) (addrs : List Bytes) (ctx : Bytes) (md : Metadata) (is_rm : Bool) (lnk : Cid)
      → Within MapsKept (publish_entries G p addrs ctx md is_rm lnk)
  unfolding publish_entries
  publish_entries-MapsKept p addrs ctx md is_rm lnk =
      bind' _ _ (lift' (L.marshal_metadata md)) (λ bytes.
        bind' _ _ (relabel' _ _ latest')
          (λ previous. bind' _ _ (lift' _) (λ signature. publish' _)))
