-- ===== src/Mirror/Copying/Succeeds/Working.antt =====
-- What mirroring an advertisement depends on, working; and the steps that then succeed.
use mathlib.Core.Path.{subst}
use index_provider.Prelude.{ℕ, ◌≡◌, refl, sym, ap, Bool, true, false, ◌||◌, Option, some}
use index_provider.Exec.{ok, lift}
use index_provider.Exec.Post.{Post, Post-pure, Post-bind}
use index_provider.Exec.Sure.{
  Returns, lift_known, Sure, Sure-pure, Sure-lift, Sure-modify, Sure-bind, Sure-zoom,
}
use index_provider.Schema.{Bytes, PeerId, Advertisement}
use index_provider.Mirror.{Setup, Mirror, on_ds, with_ds}
use index_provider.Mirror.Keys.{Key}
use index_provider.Mirror.Reading.{set_latest_mirrored_ad_cid}
use index_provider.Mirror.Copying.{
  relinked, ad_changed, sign_if, store_ad, publish, remap_entries, sync_and_remap,
  unless_no_entries, mirror_entries, mirror_with,
}

module _ (G : Setup) (depth : ℕ) where
  open G use {libraries as L, store as D, config}
  open G.libraries use {Cid}

  abbrev M : Type 0
  M = Mirror G

  abbrev Ad : Type 0
  Ad = Advertisement Cid

  abbrev unsigned_copy : Ad → Option Cid → Ad
  unsigned_copy orig l = relinked G depth orig l orig.entries

  abbrev must_sign : Ad → Option Cid → Bool
  must_sign orig l = config.always_re_sign_ads || ad_changed G depth orig (unsigned_copy orig l)

  abbrev signed_if : Bool → Bytes → Ad → Ad
  signed_if false signature a = a
  signed_if true signature a = record a { signature = some signature }

  -- Nothing that mirroring the advertisement after `l` depends on fails: the datastore, getting the
  -- entries from the source, verifying the advertisement, signing, checking and encoding its copy, and
  -- announcing it. Entries are not chunked anew.
  pub record Works (orig : Ad) (l : Option Cid) : Type 0 where
    pub reliable : D.Reliable
    pub has_source : config.no_source ≡ false
    pub keeps_entries : config.remap_entries_enabled ≡ false
    pub syncs : (d : D.State) → Returns (G.sync_entries orig.entries) d
    pub valid : L.validate orig ≡ ok tt
    pub verified : (p : PeerId) × (G.verify orig ≡ ok p)
    pub signature : Bytes
    pub signs : L.sign (unsigned_copy orig l) ≡ ok signature
    pub copy_valid :
        L.validate (signed_if (must_sign orig l) signature (unsigned_copy orig l)) ≡ ok tt
    pub copy_encodes :
        (r : Cid × Bytes) × (L.encode
            (signed_if (must_sign orig l) signature (unsigned_copy orig l))
          ≡ ok r)
    pub sends : (c : Cid) → (u : Unit {0}) × (G.send c ≡ ok u)

  module _ {orig : Ad} {l : Option Cid} (W : Works orig l) where
    S-put : (k : Key Cid) (b : Bytes) → Sure (on_ds G (D.put k b))
    unfolding on_ds
    S-put k b = Sure-zoom (λ e. e.ds) (with_ds G) (D.put k b) (λ d. D.put_reliable k b d W.reliable)

    pub S-get : (k : Key Cid) → Sure (on_ds G (D.get k))
    unfolding on_ds
    S-get k = Sure-zoom (λ e. e.ds) (with_ds G) (D.get k) (λ d. D.get_reliable k d W.reliable)

    S-sync : Sure (on_ds G (G.sync_entries orig.entries))
    unfolding on_ds
    S-sync = Sure-zoom (λ e. e.ds) (with_ds G) (G.sync_entries orig.entries) W.syncs

    S-send : (c : Cid) → Sure {S = M} (lift (G.send c))
    S-send c = Sure-lift (G.send c) (W.sends c)

    ruleset rules = (Sure-pure, Sure-lift, Sure-modify, Sure-bind, S-put, S-get, S-sync, S-send)

    S-set : (c : Cid) → Sure (set_latest_mirrored_ad_cid G c)
    unfolding set_latest_mirrored_ad_cid
    S-set c = search rules

    S-store : (a : Ad) → ((r : Cid × Bytes) × (L.encode a ≡ ok r)) → Sure (store_ad G depth a)
    unfolding store_ad
    S-store a h = search rules

    S-publish :
        (a : Ad)
        → ((u : Unit {0}) × (L.validate a ≡ ok u))
        → ((r : Cid × Bytes) × (L.encode a ≡ ok r))
        → Sure (publish G depth a)
    unfolding publish
    S-publish a v h = search (rules, S-set, S-store) depth 8

    sign_known :
        (b : Bool) (a : Ad) (signature : Bytes) (s : M)
        → L.sign a ≡ ok signature
        → Post (sign_if G depth b a) s (λ x _. x ≡ signed_if b signature a) (λ _ _. ⊥)
    unfolding sign_if
    sign_known false a signature s h = Post-pure a s refl
    sign_known true a signature s h =
        Post-bind _ _ s (lift_known (L.sign a) signature s h)
          (λ x t q. Post-pure _ t (ap (λ y. record a { signature = some y }) q.0)) (λ _ _ x. x)

    pub S-with : Sure (mirror_with G depth orig l orig.entries)
    unfolding mirror_with
    S-with = record {
      at = λ s.
          Post-bind _ (publish G depth) s
            (sign_known (must_sign orig l) (unsigned_copy orig l) W.signature s W.signs)
            (λ a t is.
              subst (λ x. Returns (publish G depth x) t) (sym is)
                ((S-publish _ (tt, W.copy_valid) W.copy_encodes).at t))
            (λ _ _ x. x);
    }

    E-remap :
        (b : Bool) (s : M)
        → b ≡ false
        → Post (remap_entries G depth orig.entries b) s (λ c _. c ≡ orig.entries) (λ _ _. ⊥)
    unfolding remap_entries
    E-remap false s h = Post-pure orig.entries s refl
    E-remap true s h = absurd (cc)

    E-sync :
        (b : Bool) (s : M)
        → b ≡ false
        → Post (sync_and_remap G depth orig.entries b) s (λ c _. c ≡ orig.entries) (λ _ _. ⊥)
    unfolding sync_and_remap
    E-sync false s h =
        Post-bind _ _ s (S-sync.at s)
          (λ _ t _. E-remap config.remap_entries_enabled t W.keeps_entries) (λ _ _ x. x)
    E-sync true s h = absurd (cc)

    E-unless :
        (d : Dec (orig.entries ≡ L.no_entries)) (s : M)
        → Post (unless_no_entries G depth orig.entries d) s (λ c _. c ≡ orig.entries) (λ _ _. ⊥)
    unfolding unless_no_entries
    E-unless (yes _) s = Post-pure orig.entries s refl
    E-unless (no _) s = E-sync config.no_source s W.has_source

    -- The entries are got from the source, and stay as they are.
    pub entries_known :
        (b : Bool) (s : M)
        → Post (mirror_entries G depth orig.entries b) s (λ c _. c ≡ orig.entries) (λ _ _. ⊥)
    unfolding mirror_entries
    entries_known true s = Post-pure orig.entries s refl
    entries_known false s = E-unless (L.cid_discrete orig.entries L.no_entries) s
