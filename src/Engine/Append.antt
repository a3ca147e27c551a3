-- ===== src/Engine/Append.antt =====
-- What `PublishLocal`, `Publish` and `publishAdvForIndex` do to the chain, on success and on error.
use index_provider.Prelude.{◌≡◌, refl, sym, ap, ◌∙◌, Option, some, List, ◌∷◌, ◌⊎◌, inl, inr}
use mathlib.Core.Path.{subst}
use index_provider.Exec.{ok}
use index_provider.Exec.Post.{
  Post, Post-pure, Post-lift-bind, Post-bind, Post-relabel, Post-zoom, Post-weaken,
}
use index_provider.Schema.{Bytes, Advertisement}
use index_provider.Engine.{Setup, Engine, on_ds, with_ds, store_ad, put_latest_adv, publish_local}
use index_provider.Engine.Keys.{Key, latest_adv, block}
use index_provider.Engine.Frame.{view, updated}
use index_provider.Engine.Chain.{IsChain, IsChain-block, IsChain-latest, update_self}

module _ (G : Setup) where
  open G use {libraries as L, store as D, config}
  open G.libraries use {Cid, Metadata}

  -- The fields that a write to the datastore leaves alone.
  pub record Rest (e e' : Engine G) : Type 0 where
    pub publisher : e'.publisher ≡ e.publisher
    pub announced : e'.announced ≡ e.announced
    pub lister : e'.mh_lister ≡ e.mh_lister

  rest : (e : Engine G) (d : D.State) → Rest e (with_ds G e d)
  rest e d = record { publisher = refl; announced = refl; lister = refl }

  pub Rest-trans : {a b c : Engine G} → Rest a b → Rest b c → Rest a c
  Rest-trans p q = record {
    publisher = q.publisher ∙ p.publisher;
    announced = q.announced ∙ p.announced;
    lister = q.lister ∙ p.lister;
  }

  put_lem :
      (k : Key Cid) (b : Bytes) (e : Engine G)
      → Post
          (on_ds G (D.put k b))
          e
          (λ _ e'. (view G e' ≡ updated G (view G e) k (some b)) × Rest e e')
          (λ _ e'. (view G e' ≡ view G e) ⊎ (view G e' ≡ updated G (view G e) k (some b)))
  unfolding on_ds
  put_lem k b e =
      Post-zoom (λ x. x.ds) (with_ds G) (D.put k b) e (D.put_lem k b e.ds) (λ _ d p. (p, rest e d))
        (λ _ d p. p)

  module _ (l : Option Cid) (ads : List (Advertisement Cid)) where
    move : (v w : Key Cid → Option Bytes) → w ≡ v → IsChain G v l ads → IsChain G w l ads
    move v w p h = subst (λ u. IsChain G u l ads) (sym p) h

    module _ (a : Advertisement Cid) where
      move-block :
          (v w : Key Cid → Option Bytes) (c : Cid) (b : Bytes)
          → L.encode a ≡ ok (c, b)
          → IsChain G v l ads
          → (w ≡ v) ⊎ (w ≡ updated G v (block c) (some b))
          → IsChain G w l ads
      move-block v w c b is h (inl p) = move v w p h
      move-block v w c b is h (inr p) = move _ w p (IsChain-block G v l ads a c b is h)

      -- The block is stored, and the chain is as it was.
      store_ad_lem :
          (e : Engine G)
          → IsChain G (view G e) l ads
          → Post
              (store_ad G a)
              e
              (λ c e'.
                ((b : Bytes) × (L.encode a ≡ ok (c, b)) × (view G e' (block c) ≡ some b))
                × IsChain G (view G e') l ads
                × Rest e e')
              (λ _ e'. IsChain G (view G e') l ads)
      unfolding store_ad
      store_ad_lem e h =
          Post-lift-bind (L.encode a) _ e
            (λ (c, b) is.
              Post-bind _ _ e (put_lem (block c) b e)
                (λ _ t p. Post-pure c t (
                  (
                    (
                      b,
                      is,
                      ap (λ v. v (block c)) p.0 ∙ update_self G (view G e) (block c) (some b),
                    ),
                    move-block (view G e) (view G t) c b is h (inr p.0),
                    p.1,
                  )))
                (λ _ t p. move-block (view G e) (view G t) c b is h p))
            (λ _ _. h)

      -- The reference is moved, or has stayed where it was.
      put_latest_adv_lem :
          (c : Cid) (b : Bytes) (e : Engine G)
          → L.encode a ≡ ok (c, b)
          → view G e (block c) ≡ some b
          → a.previous_id ≡ l
          → IsChain G (view G e) l ads
          → Post
              (put_latest_adv G (L.cid_bytes c))
              e
              (λ _ e'. IsChain G (view G e') (some c) (a ∷ ads) × Rest e e')
              (λ _ e'. IsChain G (view G e') l ads ⊎ IsChain G (view G e') (some c) (a ∷ ads))
      unfolding put_latest_adv
      put_latest_adv_lem c b e is at prev h =
          Post-weaken _ e (put_lem latest_adv (L.cid_bytes c) e) (λ _ t p. (moved t p.0, p.1))
            (λ _ t p. elim p [
              | inl q ↦ inl (move (view G e) (view G t) q h)
              | inr q ↦ inr (moved t q)
            ])
        where
          moved :
              (t : Engine G)
              → view G t ≡ updated G (view G e) latest_adv (some (L.cid_bytes c))
              → IsChain G (view G t) (some c) (a ∷ ads)
          moved t q =
              subst (λ u. IsChain G u (some c) (a ∷ ads)) (sym q)
                (IsChain-latest G (view G e) l ads a c b is at prev h)

      -- After an error the store has the chain that it had, or that chain with `a` in front.
      abbrev pub Recovers : Engine G → Type 0
      Recovers e =
          IsChain G (view G e) l ads ⊎ ((c : Cid) × IsChain G (view G e) (some c) (a ∷ ads))

      pub publish_local_lem :
          (e : Engine G)
          → a.previous_id ≡ l
          → IsChain G (view G e) l ads
          → Post
              (publish_local G a)
              e
              (λ c e'. IsChain G (view G e') (some c) (a ∷ ads) × Rest e e')
              (λ _ e'. Recovers e')
      unfolding publish_local
      publish_local_lem e prev h =
          Post-lift-bind (L.validate a) _ e
            (λ _ _.
              Post-bind _ _ e
                (Post-relabel (λ _ t. Recovers t) _ _ e (store_ad_lem e h) (λ _ _ p. p)
                  (λ _ _ p. inl p))
                (λ c t p.
                  Post-bind _ _ t
                    (Post-relabel (λ _ u. Recovers u) _ _ t
                      (put_latest_adv_lem c p.0.0 t p.0.1 p.0.2 prev p.1) (λ _ _ q. q)
                      (λ _ _ q. elim q [ inl x ↦ inl x | inr x ↦ inr (c, x) ]))
                    (λ _ u q. Post-pure c u (q.0, Rest-trans p.2 q.1)) (λ _ _ q. q))
                (λ _ _ q. q))
            (λ _ _. inl h)
