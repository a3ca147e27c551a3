-- ===== src/Mirror/Copying/Published/Copies.antt =====
-- What a copy of an advertisement is, and that relinking and signing one makes a copy.
use mathlib.Core.Option.{some-injective}
use index_provider.Prelude.{
  ℕ, Bool, ◌↔◌, ◌≡◌, refl, sym, ap, ◌∙◌, true, false, ◌||◌, Option, none, some,
}
use index_provider.Schema.{Bytes, Advertisement}
use index_provider.Mirror.{Setup, Mirror}
use index_provider.Mirror.Copying.{other_previous, or_else, relinked, differs, ad_changed}

module _ (G : Setup) (depth : ℕ) where
  open G use {libraries as L, store as D, config}
  open G.libraries use {Cid}

  abbrev M : Type 0
  M = Mirror G

  abbrev Ad : Type 0
  Ad = Advertisement Cid

  -- A copy: the previous advertisement is the mirror's latest one, if there is one; the entries may be
  -- others unless this is a removal; and the signature may be another unless nothing was changed.
  pub record CopyOf (orig : Ad) (l : Option Cid) (a : Ad) : Type 0 where
    pub previous : a.previous_id ≡ or_else G depth l orig.previous_id
    pub provider : a.provider ≡ orig.provider
    pub addresses : a.addresses ≡ orig.addresses
    pub context_id : a.context_id ≡ orig.context_id
    pub metadata : a.metadata ≡ orig.metadata
    pub is_rm : a.is_rm ≡ orig.is_rm
    pub extended : a.extended_provider ≡ orig.extended_provider
    pub removal : orig.is_rm ≡ true → a.entries ≡ orig.entries
    pub same :
        config.always_re_sign_ads ≡ false
        → a.previous_id ≡ orig.previous_id
        → a.entries ≡ orig.entries
        → a ≡ orig

  module _ (orig : Ad) (l : Option Cid) where
    abbrev pub Draft : Cid → Ad
    Draft entries = relinked G depth orig l entries

    same_draft :
        (entries : Cid)
        → (Draft entries).previous_id ≡ orig.previous_id
        → entries ≡ orig.entries
        → ad_changed G depth orig (Draft entries) ≡ false
    unfolding ad_changed
    same_draft entries p q =
        ap (λ x. x || differs G depth (L.cid_discrete orig.entries entries))
          (kept orig.previous_id (Draft entries).previous_id p)
        ∙ alike (L.cid_discrete orig.entries entries) (sym q)
      where
        alike : {A : Type 0} {a b : A} (d : Dec (a ≡ b)) → a ≡ b → differs G depth d ≡ false
        alike (yes _) h = refl
        alike (no n) h = absurd (n h)

        kept : (a b : Option Cid) → b ≡ a → other_previous G depth a b ≡ false
        kept none none h = refl
        kept none (some d) h = absurd (cc (h))
        kept (some c) none h = absurd (cc (h))
        kept (some c) (some d) h = alike (L.cid_discrete c d) (some-injective c d (sym h))

    parts :
        (entries : Cid)
        → ad_changed G depth orig (Draft entries) ≡ false
        → ((Draft entries).previous_id ≡ orig.previous_id) × (entries ≡ orig.entries)
    unfolding ad_changed
    parts entries h =
        let b = other_previous G depth orig.previous_id (Draft entries).previous_id in
        let d = differs G depth (L.cid_discrete orig.entries entries) in
        (
          sym (linked orig.previous_id (Draft entries).previous_id (or-left b d h)),
          sym (equal (L.cid_discrete orig.entries entries) (or-right b d h)),
        )
      where
        or-left : (b d : Bool) → (b || d) ≡ false → b ≡ false
        or-left false d h = refl
        or-left true d h = absurd (cc (h))

        or-right : (b d : Bool) → (b || d) ≡ false → d ≡ false
        or-right false d h = h
        or-right true d h = absurd (cc (h))

        equal : {A : Type 0} {a b : A} (d : Dec (a ≡ b)) → differs G depth d ≡ false → a ≡ b
        equal (yes p) h = p
        equal (no n) h = absurd (cc (h))

        linked : (a b : Option Cid) → other_previous G depth a b ≡ false → a ≡ b
        linked none none h = refl
        linked none (some d) h = absurd (cc (h))
        linked (some c) none h = absurd (cc (h))
        linked (some c) (some d) h = ap some (equal (L.cid_discrete c d) h)

    -- The test whether an advertisement was changed, which compares two fields, reports no change if and
    -- only if the advertisement with the new predecessor and entries is the original one.
    pub ad_changed-relinked :
        (entries : Cid)
        → (ad_changed G depth orig (relinked G depth orig l entries) ≡ false)
          ↔ (relinked G depth orig l entries ≡ orig)
    ad_changed-relinked entries = (
      λ h. let p = parts entries h in λ i. record orig { previous_id = p.0 i; entries = p.1 i },
      λ e. same_draft entries (ap (λ a. a.previous_id) e) (ap (λ a. a.entries) e),
    )

    module _ (entries : Cid) (removal : orig.is_rm ≡ true → entries ≡ orig.entries) where
      pub unsigned : CopyOf orig l (Draft entries)
      unsigned = record {
        previous = refl;
        provider = refl;
        addresses = refl;
        context_id = refl;
        metadata = refl;
        is_rm = refl;
        extended = refl;
        removal = removal;
        same = λ _ p q. λ i. record orig { previous_id = p i; entries = q i };
      }

      pub signed :
          (sig : Bytes)
          → (config.always_re_sign_ads || ad_changed G depth orig (Draft entries)) ≡ true
          → CopyOf orig l (record (Draft entries) { signature = some sig })
      signed sig ch = record {
        previous = refl;
        provider = refl;
        addresses = refl;
        context_id = refl;
        metadata = refl;
        is_rm = refl;
        extended = refl;
        removal = removal;
        same = λ n p q. absurd (
            true≢false (
              sym ch
              ∙ ap (λ x. x || ad_changed G depth orig (Draft entries)) n
              ∙ same_draft entries p q));
      }
        where
          true≢false : ¬ (true ≡ false)
          true≢false h = cc
