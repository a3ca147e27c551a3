-- ===== src/Engine/Growth.antt =====
-- `Publish`, `NotifyPut` and `NotifyRemove` put one advertisement in front of the chain, whatever
-- fails on the way.
use index_provider.Prelude.{
  ◌≡◌, refl, sym, ◌∙◌, Bool, true, false, Option, none, some, List, ◌∷◌, ◌⊎◌, inl, inr,
  if◌then◌else◌, arith,
}
use mathlib.Core.Path.{subst}
use index_provider.Exec.{context_id_not_found}
use index_provider.Exec.Post.{
  Post, Post-pure, Post-raise, Post-lift-bind, Post-bind, Post-relabel, Post-modify,
}
use index_provider.Schema.{Bytes, PeerId, Advertisement}
use index_provider.Engine.{Setup, Engine, publish, offer}
use index_provider.Engine.Frame.{view, Frame, Frame-refl, Frame-trans, IsQuiet-relabel}
use index_provider.Engine.Quiet.{
  IsQuiet-delete_key_cid_map, IsQuiet-delete_cid_key_map, IsQuiet-delete_key_metadata_map,
}
use index_provider.Engine.QuietEntries.{IsQuiet-put_entries, IsQuiet-known_cid}
use index_provider.Engine.Reads.{Unchanged-Frame, get_latest_ad_cid_lem}
use index_provider.Engine.Publish.{unsigned, remove_entries, publish_entries, publish_adv_for_index}
use index_provider.Engine.Chain.{IsChain, IsChain-Frame}
use index_provider.Engine.Append.{publish_local_lem}

module _ (G : Setup) where
  open G use {libraries as L, config}
  open G.libraries use {Cid, Metadata}

  -- If there is a publisher, its root is the new advertisement, which has been announced unless
  -- announcements are disabled.
  abbrev OfferedTo : Option (Option Cid) → Engine G → Cid → Engine G → Type 0
  OfferedTo none e c e' = (e'.publisher ≡ none) × (e'.announced ≡ e.announced)
  OfferedTo (some root) e c e' =
      (e'.publisher ≡ some (some c))
      × (e'.announced ≡ (if config.no_publisher then e.announced else some c ∷ e.announced))

  abbrev pub Offered : Engine G → Cid → Engine G → Type 0
  Offered e c e' = OfferedTo e.publisher e c e'

  offer_lem :
      (e t : Engine G) (c : Cid) (root : Option (Option Cid))
      → e.publisher ≡ root
      → t.publisher ≡ e.publisher
      → t.announced ≡ e.announced
      → OfferedTo root e c (offer G (some c) t) × (view G (offer G (some c) t) ≡ view G t)
  unfolding offer
  offer_lem e t c none r p q = ground arith
  offer_lem e t c (some root) r p q = ground arith

  module _ (l : Option Cid) (ads : List (Advertisement Cid)) where
    abbrev pub Grown : (Advertisement Cid → Type 0) → Engine G → Cid → Engine G → Type 0
    Grown P e c e' =
        (a : Advertisement Cid) × P a × IsChain G (view G e') (some c) (a ∷ ads) × Offered e c e'

    -- After an error: the chain that there was, or that chain with the new advertisement in front.
    abbrev pub Recovered : (Advertisement Cid → Type 0) → Engine G → Type 0
    Recovered P e' =
        IsChain G (view G e') l ads
        ⊎ ((c : Cid) × (a : Advertisement Cid) × P a × IsChain G (view G e') (some c) (a ∷ ads))

    publish_lem :
        (P : Advertisement Cid → Type 0) (a : Advertisement Cid) (e t : Engine G)
        → P a
        → a.previous_id ≡ l
        → IsChain G (view G t) l ads
        → Frame G e t
        → Post (publish G a) t (Grown P e) (λ _ e'. Recovered P e')
    unfolding publish
    publish_lem P a e t pa prev h f =
        Post-bind _ _ t
          (Post-relabel (λ _ u. Recovered P u) _ _ t (publish_local_lem G l ads a t prev h)
            (λ _ _ q. q) (λ _ _ q. elim q [ inl x ↦ inl x | inr (c, x) ↦ inr (c, a, pa, x) ]))
          (λ c u q.
            let off =
              offer_lem e u c e.publisher refl (q.1.publisher ∙ f.publisher)
                (q.1.announced ∙ f.announced) in
            Post-bind _ _ u
              (Post-modify {Q = λ _ v. Grown P e c v} {E = λ _ v. Recovered P v} (offer G (some c))
                u (a, pa, subst (λ v. IsChain G v (some c) (a ∷ ads)) (sym off.1) q.0, off.0))
              (λ _ v g. Post-pure c v g) (λ _ _ g. g))
          (λ _ _ q. q)

    -- The advertisement is what the call asked for, and names the one that was the latest.
    abbrev pub Describes : PeerId → List Bytes → Bytes → Bool → Advertisement Cid → Type 0
    Describes p addrs ctx is_rm a =
        (a.previous_id ≡ l)
        × (a.provider ≡ L.peer_text p)
        × (a.addresses ≡ addrs)
        × (a.context_id ≡ ctx)
        × (a.is_rm ≡ is_rm)
        × (is_rm ≡ true → a.entries ≡ L.no_entries)

    publish_entries_lem :
        (p : PeerId) (addrs : List Bytes) (ctx : Bytes) (md : Metadata) (is_rm : Bool) (lnk : Cid)
        (e t : Engine G)
        → (is_rm ≡ true → lnk ≡ L.no_entries)
        → IsChain G (view G t) l ads
        → Frame G e t
        → Post
            (publish_entries G p addrs ctx md is_rm lnk)
            t
            (Grown (Describes p addrs ctx is_rm) e)
            (λ _ e'. Recovered (Describes p addrs ctx is_rm) e')
    unfolding publish_entries
    publish_entries_lem p addrs ctx md is_rm lnk e t none_if h f =
        Post-lift-bind (L.marshal_metadata md) _ t
          (λ bytes _.
            Post-bind _ _ t
              (Post-relabel (λ _ u. Recovered (Describes p addrs ctx is_rm) u) _ _ t
                (get_latest_ad_cid_lem G l t h.0) (λ _ _ q. q)
                (λ _ u q. inl (IsChain-Frame G l ads (Unchanged-Frame G q) h)))
              (λ previous u q.
                let still = IsChain-Frame G l ads (Unchanged-Frame G q.1) h in
                Post-lift-bind (L.sign (unsigned G p addrs ctx lnk bytes is_rm previous)) _ u
                  (λ signature _.
                    publish_lem (Describes p addrs ctx is_rm) _ e u
                      (q.0, refl, refl, refl, refl, none_if) q.0 still
                      (Frame-trans G f (Unchanged-Frame G q.1)))
                  (λ _ _. inl still))
              (λ _ _ q. q))
          (λ _ _. inl h)

    pub remove_entries_lem :
        (p : PeerId) (ctx : Bytes) (known : Option Cid) (e : Engine G)
        → Post
            (remove_entries G p ctx known)
            e
            (λ lnk e'. (lnk ≡ L.no_entries) × Frame G e e')
            (λ _ e'. Frame G e e')
    unfolding remove_entries
    remove_entries_lem p ctx none e = Post-raise context_id_not_found e (Frame-refl G e)
    remove_entries_lem p ctx (some c) e =
        Post-bind _ _ e ((IsQuiet-relabel G _ _ (IsQuiet-delete_key_cid_map G p ctx)).at e)
          (λ _ t f.
            Post-bind _ _ t ((IsQuiet-relabel G _ _ (IsQuiet-delete_cid_key_map G c)).at t)
              (λ _ u g.
                Post-bind _ _ u
                  ((IsQuiet-relabel G _ _ (IsQuiet-delete_key_metadata_map G p ctx)).at u)
                  (λ _ v h. Post-pure L.no_entries v (refl, Frame-trans G f (Frame-trans G g h)))
                  (λ _ _ h. Frame-trans G f (Frame-trans G g h)))
              (λ _ _ g. Frame-trans G f g))
          (λ _ _ f. f)

    -- Whatever `publishAdvForIndex` is asked, one advertisement that says so is put in front of the
    -- chain and offered to the indexers, and an error leaves the chain whole: as it was, or with
    -- that one advertisement in front.
    pub publish_adv_for_index-IsChain :
        (p : PeerId) (addrs : List Bytes) (ctx : Bytes) (md : Metadata) (is_rm : Bool)
        (e : Engine G)
        → IsChain G (view G e) l ads
        → Post
            (publish_adv_for_index G p addrs ctx md is_rm)
            e
            (Grown (Describes p addrs ctx is_rm) e)
            (λ _ e'. Recovered (Describes p addrs ctx is_rm) e')
    unfolding publish_adv_for_index
    publish_adv_for_index-IsChain p addrs ctx md false e h =
        Post-bind _ _ e ((IsQuiet-known_cid G p ctx).at e)
          (λ known t f.
            Post-bind _ _ t ((IsQuiet-put_entries G p ctx md known).at t)
              (λ lnk u g.
                let k = Frame-trans G f g in
                publish_entries_lem p addrs ctx md false lnk e u (λ q. absurd (cc))
                  (IsChain-Frame G l ads k h) k)
              (λ _ _ g. inl (IsChain-Frame G l ads (Frame-trans G f g) h)))
          (λ _ _ f. inl (IsChain-Frame G l ads f h))
    publish_adv_for_index-IsChain p addrs ctx md true e h =
        Post-bind _ _ e ((IsQuiet-known_cid G p ctx).at e)
          (λ known t f.
            Post-bind _ _ t (remove_entries_lem p ctx known t)
              (λ lnk u g.
                let k = Frame-trans G f g.1 in
                publish_entries_lem p addrs ctx L.empty_metadata true lnk e u (λ _. g.0)
                  (IsChain-Frame G l ads k h) k)
              (λ _ _ g. inl (IsChain-Frame G l ads (Frame-trans G f g) h)))
          (λ _ _ f. inl (IsChain-Frame G l ads f h))
