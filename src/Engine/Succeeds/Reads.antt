-- ===== src/Engine/Succeeds/Reads.antt =====
-- With a datastore that does not fail, the reads that begin a publication succeed.
use index_provider.Prelude.{◌≡◌, refl, sym, Option, none, some}
use mathlib.Core.Path.{subst}
use index_provider.Exec.{Error, not_found, text, Exec}
use index_provider.Exec.Post.{
  Post, Post-pure, Post-raise, Post-bind, Post-weaken, Post-recover, Post-both,
}
use index_provider.Exec.Sure.{Returns, lift_known, Post-Returns}
use index_provider.Schema.{Bytes, PeerId}
use index_provider.Engine.{
  Setup, Engine, found, ds_get, catch_not_found, or_absent, key_to_cid_key, get_key_cid_map,
  parse_latest, get_latest_ad_cid,
}
use index_provider.Engine.Keys.{Key, latest_adv}
use index_provider.Engine.Frame.{view}
use index_provider.Engine.Reads.{
  Unchanged, Holds, read_cid, ds_get_lem, or_absent_lem, get_latest_ad_cid_lem, known_cid_lem,
}
use index_provider.Engine.Publish.{known_cid}
use index_provider.Engine.Succeeds.Writes.{S-get}

module _ (G : Setup) where
  open G use {libraries as L, store as D, Iterator, chunk}
  open G.libraries use {Cid, Metadata}

  module _ (reliable : D.Reliable) where
    only_not_found :
        (o : Option Bytes) (e : Engine G)
        → Post (found G o) e (λ _ _. Unit {0}) (λ x _. x ≡ not_found)
    unfolding found
    only_not_found none e = Post-raise not_found e refl
    only_not_found (some b) e = Post-pure b e tt

    -- A read of a reliable datastore fails only of an absent key.
    ds_get-Missing :
        (k : Key Cid) (e : Engine G)
        → Post
            (ds_get G k)
            e
            (λ b e'. (view G e k ≡ some b) × Unchanged G e e')
            (λ x _. x ≡ not_found)
    unfolding ds_get
    ds_get-Missing k e =
        Post-weaken _ e
          (Post-both _ _ _ _ (ds_get G k) e (ds_get_lem G k e) (
            Post-bind _ (found G) e ((S-get G reliable k).at e) (λ o t _. only_not_found o t)
              (λ _ _ x. absurd x)))
          (λ _ _ q. q.0) (λ _ _ q. q.1)

    catch-Returns :
        {A : Type 0} (f : Error → Error) (x : Error) (e : Engine G)
        → x ≡ not_found
        → Returns (catch_not_found G {A = A} f x) e
    unfolding catch_not_found
    catch-Returns {A} f x e h =
        subst (λ y. Returns (catch_not_found G {A = A} f y) e) (sym h) (Post-pure none e tt)

    or_absent-Returns :
        {A : Type 0} {Q : A → Engine G → Type 0} (f : Error → Error) (m : Exec (Engine G) A)
        (e : Engine G)
        → Post m e Q (λ x _. x ≡ not_found)
        → Returns (or_absent G f m) e
    unfolding or_absent
    or_absent-Returns f m e h =
        Post-recover m _ _ e h (λ a t _. Post-pure (some a) t tt) (λ x t q. catch-Returns f x t q)

    parse-Returns :
        (l : Option Cid) (o : Option Bytes) (e t : Engine G)
        → Holds G (view G e) latest_adv l
        → ((b : Bytes) → o ≡ some b → view G e latest_adv ≡ some b)
        → Returns (parse_latest G o) t
    unfolding parse_latest
    parse-Returns l none e t h p = Post-pure none t tt
    parse-Returns l (some b) e t h p =
        let (c, is, parses) = read_cid G (view G e) latest_adv l b h (p b refl) in
        Post-bind _ _ t (lift_known (L.cid_from_bytes b) c t parses)
          (λ d u _. Post-pure (some d) u tt) (λ _ _ x. x)

    latest-Returns :
        (l : Option Cid) (e : Engine G)
        → Holds G (view G e) latest_adv l
        → Returns (get_latest_ad_cid G) e
    unfolding get_latest_ad_cid
    latest-Returns l e h =
        Post-bind _ (parse_latest G) e
          (Post-both _ _ _ _ _ e
            (or_absent_lem G (λ x. x) (ds_get G latest_adv) e (ds_get_lem G latest_adv e))
            (or_absent-Returns (λ x. x) (ds_get G latest_adv) e (ds_get-Missing latest_adv e)))
          (λ o t q. parse-Returns l o e t h q.0.0) (λ _ _ q. q.1)

    -- The reference to the latest advertisement can be read.
    pub latest-Known :
        (l : Option Cid) (e : Engine G)
        → Holds G (view G e) latest_adv l
        → Post (get_latest_ad_cid G) e (λ r t. (r ≡ l) × Unchanged G e t) (λ _ _. ⊥)
    latest-Known l e h = Post-Returns _ e (get_latest_ad_cid_lem G l e h) (latest-Returns l e h)

    map-Missing :
        (p : PeerId) (ctx : Bytes) (o : Option Cid) (e : Engine G)
        → Holds G (view G e) (key_to_cid_key G p ctx) o
        → Post (get_key_cid_map G p ctx) e (λ _ _. Unit {0}) (λ x _. x ≡ not_found)
    unfolding get_key_cid_map
    map-Missing p ctx o e h =
        Post-bind _ _ e (ds_get-Missing (key_to_cid_key G p ctx) e)
          (λ b t q.
            let (c, is, parses) = read_cid G (view G e) (key_to_cid_key G p ctx) o b h q.0 in
            Post-weaken _ t (lift_known (L.cid_from_bytes b) c t parses) (λ _ _ _. tt)
              (λ _ _ x. absurd x))
          (λ _ _ q. q)

    known-Returns :
        (p : PeerId) (ctx : Bytes) (o : Option Cid) (e : Engine G)
        → Holds G (view G e) (key_to_cid_key G p ctx) o
        → Returns (known_cid G p ctx) e
    unfolding known_cid
    known-Returns p ctx o e h =
        or_absent-Returns (λ _. text "cound not not get entries cid by provider + context id") _ e
          (map-Missing p ctx o e h)

    -- What is known of a context ID can be read.
    pub known-Known :
        (p : PeerId) (ctx : Bytes) (o : Option Cid) (e : Engine G)
        → Holds G (view G e) (key_to_cid_key G p ctx) o
        → Post (known_cid G p ctx) e (λ r t. (r ≡ o) × Unchanged G e t) (λ _ _. ⊥)
    known-Known p ctx o e h =
        Post-Returns _ e (known_cid_lem G p ctx o e h) (known-Returns p ctx o e h)
