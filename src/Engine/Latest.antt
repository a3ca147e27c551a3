-- ===== src/Engine/Latest.antt =====
-- `PublishLatest`.
use mathlib.Core.Path.{subst}
use index_provider.Prelude.{
  ◌≡◌, refl, sym, ap, ◌∙◌, inl, inr, Option, none, some, ◌∷◌, if◌then◌else◌, Bool-cases,
}
use index_provider.Exec.{panic, err, gets, pure, ◌>>=◌, ◌>>◌}
use index_provider.Exec.Post.{Post, Post-pure, Post-bind, Post-gets-bind, Post-relabel, Post-modify}
use index_provider.Engine.{Setup, Engine, offer, announce}
use index_provider.Engine.Keys.{latest_adv}
use index_provider.Engine.Frame.{view}
use index_provider.Engine.Reads.{Holds, Unchanged, Unchanged-trans, get_latest_ad_cid_lem}
use index_provider.Engine.Publish.{publish_latest, latest_ad_to_publish, latest_for, set_root}

module _ (G : Setup) where
  open G.libraries use {Cid}

  latest_ad_to_publish_lem :
      (l p : Option Cid) (e : Engine G)
      → Holds G (view G e) latest_adv l
      → e.publisher ≡ some p
      → Post (latest_ad_to_publish G) e (λ r t. (r ≡ l) × Unchanged G e t) (λ _ t. Unchanged G e t)
  unfolding latest_ad_to_publish latest_for
  latest_ad_to_publish_lem l p e h is =
      Post-gets-bind (λ x. x.publisher) (latest_for G) e
        (subst
          (λ q. Post (latest_for G q) e (λ r t. (r ≡ l) × Unchanged G e t) (λ _ t. Unchanged G e t))
          (sym is)
          (Post-relabel (λ _ t. Unchanged G e t) _ _ e (get_latest_ad_cid_lem G l e h) (λ _ _ r. r)
            (λ _ _ r. r)))

  -- The publisher has the identifier as its root, it was announced if announcements are made, and
  -- the datastore holds what it held.
  pub record Offered (c : Option Cid) (e t : Engine G) : Type 0 where
    pub root : t.publisher ≡ some c
    pub announced : t.announced ≡ (if G.config.no_publisher then e.announced else c ∷ e.announced)
    pub held : view G t ≡ view G e

  announce_lem :
      (c : Option Cid) (e : Engine G)
      → ((announce G c e).publisher ≡ e.publisher)
        × ((announce G c e).announced
            ≡ (if G.config.no_publisher then e.announced else c ∷ e.announced))
        × (view G (announce G c e) ≡ view G e)
  unfolding announce
  announce_lem c e = elim (Bool-cases G.config.no_publisher) [
    | inl z ↦ rw (z) (refl, refl, refl)
    | inr z ↦ rw (z) (refl, refl, refl)
  ]

  offered : (c p : Option Cid) (e : Engine G) → e.publisher ≡ some p → Offered c e (offer G c e)
  unfolding offer
  offered c p e is =
      let a = announce_lem c (record e { publisher = some c }) in
      rw (is) (record { root = a.0; announced = a.1; held = a.2 })

  after_read : {c : Option Cid} {e t u : Engine G} → Unchanged G e t → Offered c t u → Offered c e u
  after_read {c} n o = record {
    root = o.root;
    announced = o.announced ∙ ap (λ xs. if G.config.no_publisher then xs else c ∷ xs) n.announced;
    held = o.held ∙ n.held;
  }

  offer_latest :
      (c p : Option Cid) (t : Engine G)
      → t.publisher ≡ some p
      → Post (set_root G c t.publisher) t (λ _ u. Offered c t u) (λ _ u. Unchanged G t u)
  unfolding set_root
  offer_latest c p t is =
      subst (λ q. Post (set_root G c q) t (λ _ u. Offered c t u) (λ _ u. Unchanged G t u)) (sym is)
        (Post-modify (offer G c) t (offered c p t is))

  -- An engine with a publisher and a published advertisement gives the publisher the latest
  -- advertisement's identifier, announces it if announcements are made, and returns it; if the
  -- identifier cannot be read, nothing is changed.
  pub publish_latest-Offered :
      (l : Cid) (p : Option Cid) (e : Engine G)
      → view G e latest_adv ≡ some (G.libraries.cid_bytes l)
      → e.publisher ≡ some p
      → Post
          (publish_latest G)
          e
          (λ c t. (c ≡ some l) × Offered (some l) e t)
          (λ _ t. Unchanged G e t)
  unfolding publish_latest
  publish_latest-Offered l p e h is =
      Post-bind (latest_ad_to_publish G) _ e (latest_ad_to_publish_lem (some l) p e h is)
        (λ c t r.
          Post-gets-bind (λ x. x.publisher) (λ q. set_root G c q >> pure c) t
            (Post-bind (set_root G c t.publisher) _ t (offer_latest c p t (r.1.publisher ∙ is))
              (λ _ u o. Post-pure c u (r.0, subst (λ d. Offered d e u) r.0 (after_read r.1 o)))
              (λ _ u n. Unchanged-trans G r.1 n)))
        (λ _ _ n. n)

  -- An engine without a publisher panics.
  pub publish_latest-panics :
      (e : Engine G) → e.publisher ≡ none → publish_latest G e ≡ (err panic, e)
  unfolding publish_latest latest_ad_to_publish latest_for set_root ◌>>=◌ gets
  publish_latest-panics e is = rw (is) refl
