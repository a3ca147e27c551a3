-- ===== src/Engine/Reads.antt =====
-- What a read of the engine's datastore returns, and that it changes nothing.
use index_provider.Prelude.{◌≡◌, ◌≢◌, refl, sym, ap, ◌∙◌, Option, none, some, arith}
use mathlib.Core.Path.{subst}
use mathlib.Core.Option.{some-injective}
use index_provider.Exec.{Error, Result, ok, ok-injective, text, Exec, not_found, lift}
use index_provider.Exec.Post.{
  Post, Post-pure, Post-raise, Post-lift, Post-bind, Post-weaken, Post-recover, Post-zoom,
}
use index_provider.Schema.{Bytes, PeerId}
use index_provider.Engine.Publish.{known_cid}
use index_provider.Engine.{
  Setup, Engine, on_ds, with_ds, found, ds_get, or_absent, catch_not_found, get_latest_ad_cid,
  parse_latest, key_to_cid_key, get_key_cid_map,
}
use index_provider.Engine.Keys.{Key, latest_adv, block}
use index_provider.Engine.Frame.{view, Frame}

module _ (G : Setup) where
  open G use {libraries as L, store as D}
  open G.libraries use {Cid}

  -- The datastore holds what it held, and no other field has changed.
  pub record Unchanged (e e' : Engine G) : Type 0 where
    pub held : view G e' ≡ view G e
    pub publisher : e'.publisher ≡ e.publisher
    pub announced : e'.announced ≡ e.announced
    pub lister : e'.mh_lister ≡ e.mh_lister
    pub chunks : e'.entries_chunker ≡ e.entries_chunker

  pub Unchanged-refl : (e : Engine G) → Unchanged e e
  Unchanged-refl e = record {
    held = refl;
    publisher = refl;
    announced = refl;
    lister = refl;
    chunks = refl;
  }

  pub Unchanged-trans : {a b c : Engine G} → Unchanged a b → Unchanged b c → Unchanged a c
  Unchanged-trans p q = record {
    held = q.held ∙ p.held;
    publisher = q.publisher ∙ p.publisher;
    announced = q.announced ∙ p.announced;
    lister = q.lister ∙ p.lister;
    chunks = q.chunks ∙ p.chunks;
  }

  pub Unchanged-Frame : {e e' : Engine G} → Unchanged e e' → Frame G e e'
  Unchanged-Frame u = record {
    blocks = λ c. ap (λ f. f (block c)) u.held;
    latest = ap (λ f. f latest_adv) u.held;
    publisher = u.publisher;
    announced = u.announced;
    lister = u.lister;
  }

  pub same : (e : Engine G) (d : D.State) → D.view d ≡ view G e → Unchanged e (with_ds G e d)
  same e d p = record { held = p; publisher = refl; announced = refl; lister = refl; chunks = refl }

  on_ds-get :
      (k : Key Cid) (e : Engine G)
      → Post
          (on_ds G (D.get k))
          e
          (λ o e'. (o ≡ view G e k) × Unchanged e e')
          (λ x e'. (x ≢ not_found) × Unchanged e e')
  unfolding on_ds
  on_ds-get k e =
      Post-zoom (λ x. x.ds) (with_ds G) (D.get k) e (D.get_lem k e.ds)
        (λ o d p. (p.0, same e d p.1)) (λ x d p. (p.0, same e d p.1))

  found_lem :
      (k : Key Cid) (e e' : Engine G) (o : Option Bytes)
      → o ≡ view G e k
      → Unchanged e e'
      → Post
          (found G o)
          e'
          (λ b t. (view G e k ≡ some b) × Unchanged e t)
          (λ x t. (x ≡ not_found → view G e k ≡ none) × Unchanged e t)
  unfolding found
  found_lem k e e' none p u = Post-raise not_found e' (λ _. sym p, u)
  found_lem k e e' (some b) p u = Post-pure b e' (sym p, u)

  pub ds_get_lem :
      (k : Key Cid) (e : Engine G)
      → Post
          (ds_get G k)
          e
          (λ b e'. (view G e k ≡ some b) × Unchanged e e')
          (λ x e'. (x ≡ not_found → view G e k ≡ none) × Unchanged e e')
  unfolding ds_get
  ds_get_lem k e =
      Post-bind _ (found G) e (on_ds-get k e) (λ o t p. found_lem k e t o p.0 p.1)
        (λ x t p. (λ q. absurd (p.0 q), p.1))

  catch_lem :
      {A : Type 0} {Q : Option A → Engine G → Type 0} (f : Error → Error) (x : Error)
      (e e' : Engine G)
      → (x ≡ not_found → Q none e')
      → Unchanged e e'
      → Post (catch_not_found G {A = A} f x) e' Q (λ y t. ((z : Error) × (y ≡ f z)) × Unchanged e t)
  unfolding catch_not_found
  catch_lem f not_found e e' h u = Post-pure none e' (h refl)
  catch_lem f x e e' h u = Post-raise (f x) e' ((x, refl), u)

  -- A read by a caller that takes `ErrNotFound` for an absent value.
  pub or_absent_lem :
      {A : Type 0} {P : A → Type 0} {N : Type 0} (f : Error → Error) (m : Exec (Engine G) A)
      (e : Engine G)
      → Post m e (λ a e'. P a × Unchanged e e') (λ x e'. (x ≡ not_found → N) × Unchanged e e')
      → Post
          (or_absent G f m)
          e
          (λ o e'. ((a : A) → o ≡ some a → P a) × (o ≡ none → N) × Unchanged e e')
          (λ y e'. ((z : Error) × (y ≡ f z)) × Unchanged e e')
  unfolding or_absent
  or_absent_lem {P} f m e h =
      Post-recover m _ _ e h
        (λ a t p.
          Post-pure (some a) t (λ b q. subst P (some-injective _ _ q) p.0, λ q. absurd (cc), p.1))
        (λ x t p. catch_lem f x e t (λ q. (λ b r. absurd (cc), λ _. p.0 q, p.1)) p.1)

  -- The identifier that a view holds as bytes under a key, if any.
  abbrev pub Holds : (Key Cid → Option Bytes) → Key Cid → Option Cid → Type 0
  Holds v k none = v k ≡ none
  Holds v k (some c) = v k ≡ some (L.cid_bytes c)

  -- Reading the bytes of an identifier gives it back.
  pub read_cid :
      (v : Key Cid → Option Bytes) (k : Key Cid) (l : Option Cid) (b : Bytes)
      → Holds v k l
      → v k ≡ some b
      → (c : Cid) × (l ≡ some c) × (L.cid_from_bytes b ≡ ok c)
  read_cid v k none b h p = absurd (cc)
  read_cid v k (some c) b h p =
      (c, refl, ap L.cid_from_bytes (some-injective _ _ (sym p ∙ h)) ∙ L.cid_from_bytes-cid_bytes c)

  pub absent_cid :
      (v : Key Cid → Option Bytes) (k : Key Cid) (l : Option Cid)
      → Holds v k l
      → v k ≡ none
      → l ≡ none
  absent_cid v k none h p = refl
  absent_cid v k (some c) h p = absurd (cc)

  lift_same :
      {A : Type 0} {r : Result A} {a : A} (e e' : Engine G)
      → r ≡ ok a
      → Unchanged e e'
      → Post (lift r) e' (λ b t. (b ≡ a) × Unchanged e t) (λ _ t. Unchanged e t)
  lift_same e e' h u = rw h (Post-lift _ e' (λ b q. (ground arith, u)) (λ x q. absurd (cc)))

  parse_latest_lem :
      (l : Option Cid) (o : Option Bytes) (e e' : Engine G)
      → Holds (view G e) latest_adv l
      → ((b : Bytes) → o ≡ some b → view G e latest_adv ≡ some b)
      → (o ≡ none → view G e latest_adv ≡ none)
      → Unchanged e e'
      → Post (parse_latest G o) e' (λ r t. (r ≡ l) × Unchanged e t) (λ _ t. Unchanged e t)
  unfolding parse_latest
  parse_latest_lem l none e e' h p q u =
      Post-pure none e' (sym (absent_cid (view G e) latest_adv l h (q refl)), u)
  parse_latest_lem l (some b) e e' h p q u =
      let (c, is, parses) = read_cid (view G e) latest_adv l b h (p b refl) in
      Post-bind _ _ e' (lift_same e e' parses u)
        (λ d t r. Post-pure (some d) t (ap some r.0 ∙ sym is, r.1)) (λ _ _ r. r)

  -- `getLatestAdCid` returns what the reference to the latest advertisement names.
  pub get_latest_ad_cid_lem :
      (l : Option Cid) (e : Engine G)
      → Holds (view G e) latest_adv l
      → Post (get_latest_ad_cid G) e (λ r e'. (r ≡ l) × Unchanged e e') (λ _ e'. Unchanged e e')
  unfolding get_latest_ad_cid
  get_latest_ad_cid_lem l e h =
      Post-bind _ (parse_latest G) e
        (or_absent_lem (λ x. x) (ds_get G latest_adv) e (ds_get_lem latest_adv e))
        (λ o t p. parse_latest_lem l o e t h p.0 p.1 p.2) (λ _ _ u. u.1)

  get_key_cid_map_lem :
      (p : PeerId) (ctx : Bytes) (o : Option Cid) (e : Engine G)
      → Holds (view G e) (key_to_cid_key G p ctx) o
      → Post
          (get_key_cid_map G p ctx)
          e
          (λ c e'. (o ≡ some c) × Unchanged e e')
          (λ x e'. (x ≡ not_found → o ≡ none) × Unchanged e e')
  unfolding get_key_cid_map
  get_key_cid_map_lem p ctx o e h =
      Post-bind _ _ e (ds_get_lem (key_to_cid_key G p ctx) e)
        (λ b t q.
          let (c, is, parses) = read_cid (view G e) _ o b h q.0 in
          Post-lift (L.cid_from_bytes b) t
            (λ d r. (is ∙ ap some (ok-injective _ _ (sym parses ∙ r)), q.1))
            (λ x r. (λ n. absurd (cc), q.1)))
        (λ x t q. (λ n. absent_cid (view G e) _ o h (q.0 n), q.1))

  option-eq :
      {A : Type 0} (o r : Option A)
      → ((a : A) → r ≡ some a → o ≡ some a)
      → (r ≡ none → o ≡ none)
      → r ≡ o
  option-eq o none h n = sym (n refl)
  option-eq o (some a) h n = sym (h a refl)

  -- The lookup that begins `publishAdvForIndex` returns what the map holds.
  pub known_cid_lem :
      (p : PeerId) (ctx : Bytes) (o : Option Cid) (e : Engine G)
      → Holds (view G e) (key_to_cid_key G p ctx) o
      → Post
          (known_cid G p ctx)
          e
          (λ r e'. (r ≡ o) × Unchanged e e')
          (λ x e'.
            (x ≡ text "cound not not get entries cid by provider + context id") × Unchanged e e')
  unfolding known_cid
  known_cid_lem p ctx o e h =
      Post-weaken _ e
        (or_absent_lem (λ _. text "cound not not get entries cid by provider + context id") _ e
          (get_key_cid_map_lem p ctx o e h))
        (λ r t q. (option-eq o r q.0 q.1, q.2)) (λ x t q. (q.0.1, q.1))
