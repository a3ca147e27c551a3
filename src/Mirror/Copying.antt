-- ===== src/Mirror/Copying.antt =====
-- mirror/mirror.go: mirroring one advertisement, and one round of `Start`. Logs and metrics are left
-- out.
pub mod Quiet
pub mod Steps
pub mod Chain
pub mod Published
pub mod Extended
pub mod Succeeds
pub mod Evicted
pub mod Rounds
use index_provider.Prelude.{
  ℕ, ◌≡◌, ◌≢◌, Bool, true, false, ◌||◌, not, Option, none, some, List, [], ◌∷◌,
}
use mathlib.Core.List.{reverse}
use index_provider.Exec.{
  Error, panic, text, Result, ok, err, Exec, pure, raise, lift, gets, modify, recover, ◌>>=◌, ◌>>◌,
}
use index_provider.Schema.{Bytes, Advertisement}
use index_provider.Mirror.{Setup, Mirror, Kind, kind_discrete, on_ds, on_chunker}
use index_provider.Mirror.Keys.{block}
use index_provider.Mirror.Reading.{
  get_latest_original_ad_cid, set_latest_original_ad_cid, get_latest_mirrored_ad_cid,
  set_latest_mirrored_ad_cid, set_mirrored_entries_link, load_ad, load_entries,
  get_entries_prototype, read,
}

-- The depth limit of `dagsync` that is no limit is 0.
abbrev pub limit_for : {A : Type 0} → ℕ → Option A → ℕ
limit_for n none = n
limit_for n (some c) = 0

module _ (G : Setup) (depth : ℕ) where
  open G use {libraries as L, store as D, config}
  open G.libraries use {Cid}

  abbrev M : Type 0
  M = Mirror G

  abbrev ls : Cid → Exec M Bytes
  ls = read G depth

  -- Chunk the entries anew, and store the mapping.
  unfoldable pub rechunk : Cid → Exec M Cid
  unfolding ◌>>=◌ load_entries on_chunker set_mirrored_entries_link
  rechunk original = do
    mhi ← load_entries G ls original
    mirrored ← on_chunker G (G.chunk mhi)
    set_mirrored_entries_link G mirrored original
    pure (elim mirrored [ none ↦ original | some c ↦ c ])

  unfoldable pub unless_matching : Cid → Kind → Exec M Cid
  unfolding rechunk kind_discrete
  unless_matching original k = elim (kind_discrete k config.entries_remap_prototype) [
    | yes _ ↦ pure original
    | no _ ↦ rechunk original
  ]

  unfoldable pub remap : Cid → Bool → Exec M Cid
  unfolding ◌>>=◌ get_entries_prototype unless_matching rechunk
  remap original true = get_entries_prototype G ls original >>= unless_matching original
  remap original false = rechunk original

  unfoldable pub remap_entries : Cid → Bool → Exec M Cid
  unfolding remap
  remap_entries original false = pure original
  remap_entries original true = remap original config.skip_remap_on_entries_type_match

  unfoldable pub sync_and_remap : Cid → Bool → Exec M Cid
  unfolding ◌>>=◌ on_ds remap_entries
  sync_and_remap c true = raise (text "no address for source")
  sync_and_remap c false = do
    on_ds G (G.sync_entries c)
    remap_entries c config.remap_entries_enabled

  unfoldable pub unless_no_entries : (c : Cid) → Dec (c ≡ L.no_entries) → Exec M Cid
  unfolding sync_and_remap
  unless_no_entries c (yes _) = pure c
  unless_no_entries c (no _) = sync_and_remap c config.no_source

  -- The link to the entries of the mirrored advertisement.
  unfoldable pub mirror_entries : Cid → Bool → Exec M Cid
  unfolding unless_no_entries
  mirror_entries c true = pure c
  mirror_entries c false = unless_no_entries c (L.cid_discrete c L.no_entries)

  abbrev pub or_else : Option Cid → Option Cid → Option Cid
  or_else none o = o
  or_else (some c) o = some c

  abbrev pub relinked : Advertisement Cid → Option Cid → Cid → Advertisement Cid
  relinked ad prev entries = record ad {
    previous_id = or_else prev ad.previous_id;
    entries = entries;
  }

  abbrev pub differs : {A : Type 0} {a b : A} → Dec (a ≡ b) → Bool
  differs (yes _) = false
  differs (no _) = true

  abbrev pub other_previous : Option Cid → Option Cid → Bool
  other_previous none none = false
  other_previous none (some d) = true
  other_previous (some c) none = true
  other_previous (some c) (some d) = differs (L.cid_discrete c d)

  unfoldable pub ad_changed : Advertisement Cid → Advertisement Cid → Bool
  ad_changed a b =
      other_previous a.previous_id b.previous_id || differs (L.cid_discrete a.entries b.entries)

  unfoldable pub sign_if : Bool → Advertisement Cid → Exec M (Advertisement Cid)
  unfolding ◌>>=◌
  sign_if false a = pure a
  sign_if true a = do s ← lift (L.sign a); pure (record a { signature = some s })

  unfoldable pub store_ad : Advertisement Cid → Exec M Cid
  unfolding ◌>>=◌ on_ds
  store_ad a = do (c, b) ← lift (L.encode a); on_ds G (D.put (block c) b); pure c

  abbrev pub offer : Cid → M → M
  offer c m = record m { root = some c; announced = c ∷ m.announced }

  unfoldable pub publish : Advertisement Cid → Exec M (Unit {0})
  unfolding ◌>>=◌ modify store_ad set_latest_mirrored_ad_cid
  publish a = do
    lift (L.validate a)
    c ← store_ad a
    set_latest_mirrored_ad_cid G c
    modify (offer c)
    lift (G.send c)

  unfoldable pub mirror_with : Advertisement Cid → Option Cid → Cid → Exec M (Unit {0})
  unfolding ◌>>=◌ ad_changed sign_if publish
  mirror_with ad prev entries = do
    signed ←
        sign_if (config.always_re_sign_ads || ad_changed ad (relinked ad prev entries))
          (relinked ad prev entries)
    publish signed

  unfoldable pub mirror_loaded : Advertisement Cid → Exec M (Unit {0})
  unfolding ◌>>=◌ get_latest_mirrored_ad_cid mirror_entries mirror_with
  mirror_loaded ad = do
    lift (L.validate ad)
    lift (G.verify ad)
    prev ← get_latest_mirrored_ad_cid G
    entries ← mirror_entries ad.entries ad.is_rm
    mirror_with ad prev entries

  unfoldable pub mirror : Cid → Exec M (Unit {0})
  unfolding ◌>>=◌ load_ad mirror_loaded
  mirror c = do ad ← load_ad G ls c; mirror_loaded ad

  unfoldable pub sync_ads : Option Cid → ℕ → Bool → Exec M (List Cid)
  unfolding ◌>>=◌ on_ds
  sync_ads head limit true = raise (text "no address for source")
  sync_ads head limit false = do cs ← on_ds G (G.sync_ad_chain head limit); pure (reverse cs)

  -- A panic ends the program.
  unfoldable pub unless_panic : Error → Exec M (Unit {0}) → Exec M (Unit {0})
  unless_panic panic m = raise panic
  unless_panic _ m = m

  -- An advertisement that cannot be mirrored is passed over.
  unfoldable pub mirror_all : List Cid → Exec M (Unit {0})
  unfolding recover mirror unless_panic
  mirror_all [] = pure tt
  mirror_all (c ∷ cs) =
      recover (mirror c) (λ _. mirror_all cs) (λ e. unless_panic e (mirror_all cs))

  abbrev pub last : List Cid → Option Cid
  last [] = none
  last (c ∷ []) = some c
  last (c ∷ d ∷ cs) = last (d ∷ cs)

  unfoldable pub note_original : Option Cid → Exec M (Unit {0})
  unfolding recover set_latest_original_ad_cid
  note_original none = pure tt
  note_original (some c) = recover (set_latest_original_ad_cid G c) pure (λ _. pure tt)

  unfoldable pub mirror_synced : List Cid → Exec M (Unit {0})
  unfolding ◌>>=◌ mirror_all note_original
  mirror_synced cs = do mirror_all cs; note_original (last cs)

  unfoldable pub sync_round : Option Cid → Exec M (Unit {0})
  unfolding recover sync_ads mirror_synced
  sync_round mc =
      recover (sync_ads mc (limit_for config.init_ad_recur_limit mc) config.no_source) mirror_synced
        (λ _. pure tt)

  -- One tick of `Start`
  unfoldable pub round : Exec M (Unit {0})
  unfolding recover get_latest_original_ad_cid sync_round
  round = recover (get_latest_original_ad_cid G) sync_round (λ _. pure tt)
