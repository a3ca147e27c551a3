-- ===== src/Mirror/Copying/Rounds.antt =====
-- A round of the mirror only puts copies in front of its chain.
use mathlib.Core.Path.{subst}
use mathlib.Core.List.{reverse}
use index_provider.Prelude.{
  ℕ, ◌≡◌, refl, sym, inl, inr, Bool, true, false, Option, none, some, List, [], ◌∷◌, ◌++◌,
}
use index_provider.Exec.{
  Error, eof, not_found, no_multihash_lister, context_id_not_found, already_advertised, text, wrap,
  external, panic, Exec, pure, lift,
}
use index_provider.Exec.Post.{
  Post, Post-pure, Post-raise, Post-bind, Post-zoom, Post-weaken, Post-recover, Post-lift,
}
use index_provider.Schema.{Advertisement}
use index_provider.Mirror.{Setup, Mirror, on_ds, with_ds, view}
use index_provider.Mirror.Keys.{latest_original}
use index_provider.Mirror.Reading.{
  get_latest_original_ad_cid, set_latest_original_ad_cid, load_ad, read,
}
use index_provider.Mirror.Copying.{
  mirror, mirror_loaded, unless_panic, mirror_all, note_original, mirror_synced, limit_for,
  sync_ads, sync_round, last, round,
}
use index_provider.Mirror.Copying.Quiet.{
  Quiet, read-Quiet, same_held, get_latest_original_ad_cid-Quiet,
}
use index_provider.Mirror.Copying.Steps.{Kept, grown, Kept-Quiet}
use index_provider.Mirror.Copying.Chain.{IsChain, IsChain-Grown, IsChain-original, put_in}
use index_provider.Mirror.Copying.Published.{IsMirror}
use index_provider.Mirror.Copying.Extended.{mirror_loaded_lem}

module _ (G : Setup) (depth : ℕ) (ads : List (Advertisement G.libraries.Cid)) where
  open G use {libraries as L, store as D, config}
  open G.libraries use {Cid}

  abbrev M : Type 0
  M = Mirror G

  -- The chain has the advertisements `ads`, with others in front.
  abbrev pub Continues : M → Type 0
  Continues t =
      (l : Option Cid) × (new : List (Advertisement Cid)) × IsMirror G depth l (new ++ ads) t

  abbrev Goes : {A : Type 0} → Exec M A → M → Type 0
  Goes m s = Post m s (λ _ t. Continues t) (λ _ t. Continues t)

  mirror_loaded-Continues :
      (a : Advertisement Cid) (s t : M)
      → Continues s
      → Kept G s t
      → Goes (mirror_loaded G depth a) t
  mirror_loaded-Continues a s t (l, new, h) k =
      Post-weaken (mirror_loaded G depth a) t (mirror_loaded_lem G depth a l (new ++ ads) s h t k)
        (λ _ u p. (some p.link, p.copy ∷ new, p.chain))
        (λ _ u p. elim p [ inl q ↦ (l, new, q) | inr q ↦ (some q.1, q.0 ∷ new, q.3) ])

  kept : (s t : M) → Continues s → Kept G s t → Continues t
  kept s t (l, new, h) k = (l, new, IsChain-Grown G (view G s) (view G t) l (new ++ ads) k.grown h)

  mirror-Continues : (c : Cid) (s : M) → Continues s → Goes (mirror G depth c) s
  unfolding mirror load_ad
  mirror-Continues c s h =
      Post-bind (load_ad G (read G depth) c) (mirror_loaded G depth) s
        (Post-bind {P = λ _ t. Kept G s t} {F = λ _ t. Kept G s t} (read G depth c)
          (λ b. lift (L.decode b)) s
          (Post-weaken (read G depth c) s ((read-Quiet G depth c).at s)
            (λ _ t q. Kept-Quiet G s t q) (λ _ t q. Kept-Quiet G s t q))
          (λ b t k. Post-lift {Q = λ _ t. Kept G s t} (L.decode b) t (λ _ _. k) (λ _ _. k))
          (λ _ _ k. k))
        (λ a t k. mirror_loaded-Continues a s t h k) (λ _ t k. kept s t h k)

  -- Nothing but a panic ends a round early.
  abbrev Ends : {A : Type 0} → Exec M A → M → Type 0
  Ends m s = Post m s (λ _ t. Continues t) (λ e t. (e ≡ panic) × Continues t)

  unless_panic-Ends :
      (e : Error) (m : Exec M (Unit {0})) (s : M)
      → Continues s
      → Ends m s
      → Ends (unless_panic G depth e m) s
  unfolding unless_panic
  unless_panic-Ends panic m s h g = Post-raise panic s (refl, h)
  unless_panic-Ends eof m s h g = g
  unless_panic-Ends not_found m s h g = g
  unless_panic-Ends no_multihash_lister m s h g = g
  unless_panic-Ends context_id_not_found m s h g = g
  unless_panic-Ends already_advertised m s h g = g
  unless_panic-Ends (text x) m s h g = g
  unless_panic-Ends (wrap x e) m s h g = g
  unless_panic-Ends external m s h g = g

  mirror_all-Ends : (cs : List Cid) (s : M) → Continues s → Ends (mirror_all G depth cs) s
  unfolding mirror_all
  mirror_all-Ends [] s h = Post-pure tt s h
  mirror_all-Ends (c ∷ cs) s h =
      Post-recover (mirror G depth c) (λ _. mirror_all G depth cs)
        (λ e. unless_panic G depth e (mirror_all G depth cs)) s (mirror-Continues c s h)
        (λ _ t p. mirror_all-Ends cs t p)
        (λ e t p. unless_panic-Ends e (mirror_all G depth cs) t p (mirror_all-Ends cs t p))

  same_chain : (s : M) (d : D.State) → Continues s → D.view d ≡ view G s → Continues (with_ds G s d)
  same_chain s d h p = kept s (with_ds G s d) h (Kept-Quiet G s (with_ds G s d) (same_held G s d p))

  set_original : (c : Cid) (s : M) → Continues s → Goes (set_latest_original_ad_cid G c) s
  unfolding set_latest_original_ad_cid on_ds
  set_original c s h =
      Post-zoom (λ x. x.ds) (with_ds G) (D.put latest_original (L.cid_bytes c)) s
        (D.put_lem latest_original (L.cid_bytes c) s.ds) (λ _ d p. noted d p)
        (λ _ d p. elim p [ inl q ↦ same_chain s d h q | inr q ↦ noted d q ])
    where
      noted :
          (d : D.State)
          → D.view d ≡ put_in G (view G s) latest_original (L.cid_bytes c)
          → Continues (with_ds G s d)
      noted d p = (
        h.0,
        h.1,
        subst (λ v. IsChain G v h.0 (h.1 ++ ads)) (sym p)
            (IsChain-original G (view G s) h.0 (h.1 ++ ads) (L.cid_bytes c) h.2),
      )

  note_original-Ends : (o : Option Cid) (s : M) → Continues s → Ends (note_original G depth o) s
  unfolding note_original
  note_original-Ends none s h = Post-pure tt s h
  note_original-Ends (some c) s h =
      Post-recover (set_latest_original_ad_cid G c) pure (λ _. pure tt) s (set_original c s h)
        (λ _ t p. Post-pure _ t p) (λ _ t p. Post-pure tt t p)

  mirror_synced-Ends : (cs : List Cid) (s : M) → Continues s → Ends (mirror_synced G depth cs) s
  unfolding mirror_synced
  mirror_synced-Ends cs s h =
      Post-bind (mirror_all G depth cs) (λ _. note_original G depth (last G depth cs)) s
        (mirror_all-Ends cs s h) (λ _ t p. note_original-Ends (last G depth cs) t p) (λ _ _ p. p)

  synced :
      (head : Option Cid) (limit : ℕ) (s : M)
      → Continues s
      → Goes (on_ds G (G.sync_ad_chain head limit)) s
  unfolding on_ds
  synced head limit s h =
      Post-zoom (λ x. x.ds) (with_ds G) (G.sync_ad_chain head limit) s
        (G.sync_ad_chain-Grown head limit s.ds) (λ _ d g. kept s (with_ds G s d) h (grown G s d g))
        (λ _ d g. kept s (with_ds G s d) h (grown G s d g))

  sync_ads-Continues :
      (head : Option Cid) (limit : ℕ) (b : Bool) (s : M)
      → Continues s
      → Goes (sync_ads G depth head limit b) s
  unfolding sync_ads
  sync_ads-Continues head limit true s h = Post-raise _ s h
  sync_ads-Continues head limit false s h =
      Post-bind (on_ds G (G.sync_ad_chain head limit)) (λ cs. pure (reverse cs)) s
        (synced head limit s h) (λ _ t p. Post-pure _ t p) (λ _ _ p. p)

  sync_round-Ends : (mc : Option Cid) (s : M) → Continues s → Ends (sync_round G depth mc) s
  unfolding sync_round
  sync_round-Ends mc s h =
      Post-recover (sync_ads G depth mc (limit_for config.init_ad_recur_limit mc) config.no_source)
        (mirror_synced G depth) (λ _. pure tt) s (sync_ads-Continues mc _ config.no_source s h)
        (λ cs t p. mirror_synced-Ends cs t p) (λ _ t p. Post-pure tt t p)

  -- If the chain of a mirror is `ads` from the reference `l` on, then after a round that chain is
  -- there with at most other advertisements in front, whatever failed in the round; and nothing but a
  -- panic makes the round fail.
  pub round-Continues :
      (l : Option Cid) (s : M)
      → IsMirror G depth l ads s
      → Post (round G depth) s (λ _ t. Continues t) (λ e t. (e ≡ panic) × Continues t)
  unfolding round
  round-Continues l s h =
      Post-recover (get_latest_original_ad_cid G) (sync_round G depth) (λ _. pure tt) s
        (Post-weaken (get_latest_original_ad_cid G) s ((get_latest_original_ad_cid-Quiet G).at s)
          (λ _ t q. read_on t q) (λ _ t q. read_on t q))
        (λ mc t p. sync_round-Ends mc t p) (λ _ t p. Post-pure tt t p)
    where
      read_on : (t : M) → Quiet G s t → Continues t
      read_on t q = kept s t (l, [], h) (Kept-Quiet G s t q)
