-- ===== src/Mirror/Copying/Published.antt =====
-- Publishing the copy of an advertisement puts it in front of the mirror's chain.
pub mod Copies
use mathlib.Core.Path.{subst}
use mathlib.Core.Option.{some-injective}
use index_provider.Prelude.{
  ℕ, ◌≡◌, refl, sym, ap, ◌∙◌, ◌⊎◌, inl, inr, Bool, true, false, ◌||◌, Option, none, some, List, ◌∷◌,
}
use index_provider.Exec.{ok, pure, lift, modify, ◌>>=◌}
use index_provider.Exec.Post.{
  Post, Post-pure, Post-bind, Post-modify, Post-zoom, Post-lift, Post-lift-bind,
}
use index_provider.Schema.{Bytes, Advertisement}
use index_provider.Mirror.{Setup, Mirror, on_ds, with_ds, view}
use index_provider.Mirror.Keys.{block, latest_mirrored}
use index_provider.Mirror.Reading.{set_latest_mirrored_ad_cid}
use index_provider.Mirror.Copying.{
  other_previous, or_else, relinked, differs, ad_changed, sign_if, store_ad, offer, publish,
  mirror_with,
}
use index_provider.Mirror.Copying.Chain.{
  Stored, IsChain, put_in, IsChain-block, put-block, IsChain-latest,
}
use Copies.{CopyOf, Draft, unsigned, signed}

module _ (G : Setup) (depth : ℕ) where
  open G use {libraries as L, store as D, config}
  open G.libraries use {Cid}

  abbrev M : Type 0
  M = Mirror G

  abbrev Ad : Type 0
  Ad = Advertisement Cid

  abbrev pub IsMirror : Option Cid → List Ad → M → Type 0
  IsMirror l ads s = IsChain G (view G s) l ads

  module _ (orig : Ad) (l : Option Cid) (ads : List Ad) (s : M) where
    pub record Copied (t : M) : Type 0 where
      pub copy : Ad
      pub link : Cid
      pub copy_of : CopyOf G depth orig l copy
      pub chain : IsMirror (some link) (copy ∷ ads) t
      pub root : t.root ≡ some link
      pub announced : t.announced ≡ link ∷ s.announced

    -- The chain is the former one, or has a copy in front.
    abbrev pub Recovers : M → Type 0
    Recovers t =
        IsMirror l ads t
        ⊎ ((a : Ad) × (c : Cid) × CopyOf G depth orig l a × IsMirror (some c) (a ∷ ads) t)

    module _ (a : Ad) (is_copy : CopyOf G depth orig l a) where
      put_ad :
          (c : Cid) (b : Bytes) (t : M)
          → L.encode a ≡ ok (c, b)
          → IsMirror l ads t
          → t.announced ≡ s.announced
          → Post
              (on_ds G (D.put (block c) b))
              t
              (λ _ u. IsMirror l ads u × Stored G (view G u) a c × (u.announced ≡ s.announced))
              (λ _ u. Recovers u)
      unfolding on_ds
      put_ad c b t is h an =
          Post-zoom (λ x. x.ds) (with_ds G) (D.put (block c) b) t (D.put_lem (block c) b t.ds)
            (λ _ d p.
              (moved d p, (b, ap (λ v. v (block c)) p ∙ put-block G (view G t) c b, is), an))
            (λ _ d p. elim p [
              | inl q ↦ inl (subst (λ v. IsChain G v l ads) (sym q) h)
              | inr q ↦ inl (moved d q)
            ])
        where
          moved :
              (d : D.State)
              → D.view d ≡ put_in G (view G t) (block c) b
              → IsChain G (D.view d) l ads
          moved d p =
              subst (λ v. IsChain G v l ads) (sym p) (IsChain-block G (view G t) l ads a c b is h)

      store_lem :
          (t : M)
          → IsMirror l ads t
          → t.announced ≡ s.announced
          → Post
              (store_ad G depth a)
              t
              (λ c u. IsMirror l ads u × Stored G (view G u) a c × (u.announced ≡ s.announced))
              (λ _ u. Recovers u)
      unfolding store_ad
      store_lem t h an =
          Post-lift-bind (L.encode a) _ t
            (λ (c, b) is.
              Post-bind (on_ds G (D.put (block c) b)) (λ _. pure c) t (put_ad c b t is h an)
                (λ _ u p. Post-pure c u p) (λ _ _ p. p))
            (λ _ _. inl h)

      linked : (d : Cid) → l ≡ some d → a.previous_id ≡ l
      linked d p = is_copy.previous ∙ ap (λ x. or_else G depth x orig.previous_id) p ∙ sym p

      set_lem :
          (c : Cid) (t : M)
          → IsMirror l ads t
          → Stored G (view G t) a c
          → t.announced ≡ s.announced
          → Post
              (set_latest_mirrored_ad_cid G c)
              t
              (λ _ u. IsMirror (some c) (a ∷ ads) u × (u.announced ≡ s.announced))
              (λ _ u. Recovers u)
      unfolding set_latest_mirrored_ad_cid on_ds
      set_lem c t h st an =
          Post-zoom (λ x. x.ds) (with_ds G) (D.put latest_mirrored (L.cid_bytes c)) t
            (D.put_lem latest_mirrored (L.cid_bytes c) t.ds) (λ _ d p. (moved d p, an))
            (λ _ d p. elim p [
              | inl q ↦ inl (subst (λ v. IsChain G v l ads) (sym q) h)
              | inr q ↦ inr (a, c, is_copy, moved d q)
            ])
        where
          moved :
              (d : D.State)
              → D.view d ≡ put_in G (view G t) latest_mirrored (L.cid_bytes c)
              → IsChain G (D.view d) (some c) (a ∷ ads)
          moved d p =
              subst (λ v. IsChain G v (some c) (a ∷ ads)) (sym p)
                (IsChain-latest G (view G t) l ads a c linked st h)

      offered :
          (c : Cid) (t : M)
          → IsMirror (some c) (a ∷ ads) t
          → t.announced ≡ s.announced
          → Post
              (modify (offer G depth c) >>= λ _. lift (G.send c))
              t
              (λ _ u. Copied u)
              (λ _ u. Recovers u)
      offered c t h an =
          Post-bind {P = λ _ u. u ≡ offer G depth c t} {F = λ _ _. ⊥} (modify (offer G depth c))
            (λ _. lift (G.send c)) t (Post-modify (offer G depth c) t refl)
            (λ _ u p. rw (p) (
              Post-lift (G.send c) (offer G depth c t)
                (λ _ _. record {
                  copy = a;
                  link = c;
                  copy_of = is_copy;
                  chain = h;
                  root = refl;
                  announced = ap (λ x. c ∷ x) an;
                })
                (λ _ _. inr (a, c, is_copy, h))))
            (λ _ _ f. absurd f)

      publish_lem :
          (t : M)
          → IsMirror l ads t
          → t.announced ≡ s.announced
          → Post (publish G depth a) t (λ _ u. Copied u) (λ _ u. Recovers u)
      unfolding publish
      publish_lem t h an =
          Post-lift-bind (L.validate a) _ t
            (λ _ _.
              Post-bind (store_ad G depth a) _ t (store_lem t h an)
                (λ c u p.
                  Post-bind (set_latest_mirrored_ad_cid G c)
                    (λ _. modify (offer G depth c) >>= λ _. lift (G.send c)) u
                    (set_lem c u p.0 p.1 p.2) (λ _ v q. offered c v q.0 q.1) (λ _ _ q. q))
                (λ _ _ q. q))
            (λ _ _. inl h)

    module _ (entries : Cid) (removal : orig.is_rm ≡ true → entries ≡ orig.entries) where
      sign_lem :
          (b : Bool) (t : M)
          → (config.always_re_sign_ads || ad_changed G depth orig (Draft G depth orig l entries))
            ≡ b
          → Post
              (sign_if G depth b (Draft G depth orig l entries))
              t
              (λ a u. CopyOf G depth orig l a × (u ≡ t))
              (λ _ u. u ≡ t)
      unfolding sign_if
      sign_lem false t ch =
          Post-pure (Draft G depth orig l entries) t (unsigned G depth orig l entries removal, refl)
      sign_lem true t ch =
          Post-lift-bind (L.sign (Draft G depth orig l entries)) _ t
            (λ sig _.
              Post-pure (record (Draft G depth orig l entries) { signature = some sig }) t
                (signed G depth orig l entries removal sig ch, refl))
            (λ _ _. refl)

      pub mirror_with_lem :
          (t : M)
          → IsMirror l ads t
          → t.announced ≡ s.announced
          → Post (mirror_with G depth orig l entries) t (λ _ u. Copied u) (λ _ u. Recovers u)
      unfolding mirror_with
      mirror_with_lem t h an =
          Post-bind
            (sign_if G depth
              (config.always_re_sign_ads || ad_changed G depth orig (Draft G depth orig l entries))
              (Draft G depth orig l entries))
            (publish G depth) t (sign_lem _ t refl) (λ a u p. rw (p.1) (publish_lem a p.0 t h an))
            (λ _ u p. rw (p) (inl h))
