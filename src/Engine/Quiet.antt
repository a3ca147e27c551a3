-- ===== src/Engine/Quiet.antt =====
-- The reads of the engine, the writes to its four maps and the chunker leave the rest alone.
use index_provider.Prelude.{◌≡◌, refl, ap, ◌∙◌, Option, none, some, if_neg, ◌⊎◌, inl, inr}
use index_provider.Exec.{Error, Exec, not_found}
use index_provider.Exec.Post.{Post-any, Post-zoom}
use index_provider.Schema.{Bytes, PeerId}
use index_provider.Engine.{
  Setup, Engine, on_ds, on_chunker, with_ds, with_chunks, found, ds_get, or_absent, catch_not_found,
  put_key_cid_map, get_key_cid_map, delete_key_cid_map, delete_cid_key_map, put_key_metadata_map,
  get_key_metadata_map, delete_key_metadata_map,
}
use index_provider.Engine.Keys.{Key, latest_adv, block, key_discrete}
use index_provider.Engine.Frame.{
  IsMapKey, IsMapKey-ne-block, IsMapKey-ne-latest, view, updated, Frame, IsQuiet, IsQuiet-pure,
  IsQuiet-raise, IsQuiet-lift, IsQuiet-bind, IsQuiet-recover,
}

module _ (G : Setup) where
  open G use {libraries as L, store as D, Chunks}
  open G.libraries use {Cid, Metadata}

  Frame-ds :
      (e : Engine G) (k : Key Cid) (o : Option Bytes) (d : D.State)
      → IsMapKey k
      → D.view d ≡ updated G (view G e) k o
      → Frame G e (record e { ds = d })
  Frame-ds e k o d h p = record {
    blocks = λ c.
        ap (λ f. f (block c)) p
        ∙ if_neg (key_discrete L.cid_discrete k (block c)) (IsMapKey-ne-block k c h) _ _;
    latest =
        ap (λ f. f latest_adv) p
        ∙ if_neg (key_discrete L.cid_discrete k latest_adv) (IsMapKey-ne-latest k h) _ _;
    publisher = refl;
    announced = refl;
    lister = refl;
  }

  Frame-same : (e : Engine G) (d : D.State) → D.view d ≡ view G e → Frame G e (record e { ds = d })
  Frame-same e d p = record {
    blocks = λ c. ap (λ f. f (block c)) p;
    latest = ap (λ f. f latest_adv) p;
    publisher = refl;
    announced = refl;
    lister = refl;
  }

  Frame-failed :
      (e : Engine G) (k : Key Cid) (o : Option Bytes) (d : D.State)
      → IsMapKey k
      → (D.view d ≡ view G e) ⊎ (D.view d ≡ updated G (view G e) k o)
      → Frame G e (record e { ds = d })
  Frame-failed e k o d h (inl p) = Frame-same e d p
  Frame-failed e k o d h (inr p) = Frame-ds e k o d h p

  pub IsQuiet-put : (k : Key Cid) (v : Bytes) → IsMapKey k → IsQuiet G (on_ds G (D.put k v))
  unfolding on_ds
  IsQuiet-put k v h = record {
    at = λ e.
        Post-zoom (λ x. x.ds) (with_ds G) (D.put k v) e (D.put_lem k v e.ds)
          (λ _ d p. Frame-ds e k (some v) d h p) (λ _ d p. Frame-failed e k (some v) d h p);
  }

  pub IsQuiet-delete : (k : Key Cid) → IsMapKey k → IsQuiet G (on_ds G (D.delete k))
  unfolding on_ds
  IsQuiet-delete k h = record {
    at = λ e.
        Post-zoom (λ x. x.ds) (with_ds G) (D.delete k) e (D.delete_lem k e.ds)
          (λ _ d p. Frame-ds e k none d h p) (λ _ d p. Frame-failed e k none d h p);
  }

  IsQuiet-get : (k : Key Cid) → IsQuiet G (on_ds G (D.get k))
  unfolding on_ds
  IsQuiet-get k = record {
    at = λ e.
        Post-zoom (λ x. x.ds) (with_ds G) (D.get k) e (D.get_lem k e.ds)
          (λ _ d p. Frame-same e d p.1) (λ _ d p. Frame-same e d p.1);
  }

  pub IsQuiet-chunker : {A : Type 0} (m : Exec Chunks A) → IsQuiet G (on_chunker G m)
  unfolding on_chunker
  IsQuiet-chunker m = record {
    at = λ e.
        Post-zoom (λ x. x.entries_chunker) (with_chunks G) m e (Post-any m e.entries_chunker)
          (λ _ c _. record {
            blocks = λ _. refl;
            latest = refl;
            publisher = refl;
            announced = refl;
            lister = refl;
          })
          (λ _ c _. record {
            blocks = λ _. refl;
            latest = refl;
            publisher = refl;
            announced = refl;
            lister = refl;
          });
  }

  IsQuiet-found : (o : Option Bytes) → IsQuiet G (found G o)
  unfolding found
  IsQuiet-found none = IsQuiet-raise G not_found
  IsQuiet-found (some b) = IsQuiet-pure G b

  pub IsQuiet-ds_get : (k : Key Cid) → IsQuiet G (ds_get G k)
  unfolding ds_get
  IsQuiet-ds_get k = IsQuiet-bind G _ _ (IsQuiet-get k) IsQuiet-found

  IsQuiet-catch :
      {A : Type 0} (f : Error → Error) (x : Error) → IsQuiet G (catch_not_found G {A = A} f x)
  unfolding catch_not_found
  IsQuiet-catch f not_found = IsQuiet-pure G none
  IsQuiet-catch f x = IsQuiet-raise G (f x)

  pub IsQuiet-or_absent :
      {A : Type 0} (f : Error → Error) (m : Exec (Engine G) A)
      → IsQuiet G m
      → IsQuiet G (or_absent G f m)
  unfolding or_absent
  IsQuiet-or_absent f m q =
      IsQuiet-recover G m _ _ q (λ a. IsQuiet-pure G (some a)) (IsQuiet-catch f)

  ruleset steps = (
    IsQuiet-pure, IsQuiet-raise, IsQuiet-lift, IsQuiet-bind, IsQuiet-put, IsQuiet-delete,
    IsQuiet-ds_get, IsQuiet-or_absent, tt,
  )

  pub IsQuiet-put_key_cid_map :
      (p : PeerId) (ctx : Bytes) (c : Cid) → IsQuiet G (put_key_cid_map G p ctx c)
  unfolding put_key_cid_map
  IsQuiet-put_key_cid_map p ctx c = search steps

  pub IsQuiet-get_key_cid_map : (p : PeerId) (ctx : Bytes) → IsQuiet G (get_key_cid_map G p ctx)
  unfolding get_key_cid_map
  IsQuiet-get_key_cid_map p ctx = search steps

  pub IsQuiet-delete_key_cid_map :
      (p : PeerId) (ctx : Bytes) → IsQuiet G (delete_key_cid_map G p ctx)
  unfolding delete_key_cid_map
  IsQuiet-delete_key_cid_map p ctx = search steps

  pub IsQuiet-delete_cid_key_map : (c : Cid) → IsQuiet G (delete_cid_key_map G c)
  unfolding delete_cid_key_map
  IsQuiet-delete_cid_key_map c = search steps

  pub IsQuiet-put_key_metadata_map :
      (p : PeerId) (ctx : Bytes) (md : Metadata) → IsQuiet G (put_key_metadata_map G p ctx md)
  unfolding put_key_metadata_map
  IsQuiet-put_key_metadata_map p ctx md = search steps

  pub IsQuiet-get_key_metadata_map :
      (p : PeerId) (ctx : Bytes) → IsQuiet G (get_key_metadata_map G p ctx)
  unfolding get_key_metadata_map
  IsQuiet-get_key_metadata_map p ctx = search steps

  pub IsQuiet-delete_key_metadata_map :
      (p : PeerId) (ctx : Bytes) → IsQuiet G (delete_key_metadata_map G p ctx)
  unfolding delete_key_metadata_map
  IsQuiet-delete_key_metadata_map p ctx = search steps
