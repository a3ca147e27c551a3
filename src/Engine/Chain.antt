-- ===== src/Engine/Chain.antt =====
-- The advertisement chain of an engine: from the reference to the latest advertisement, each block
-- holds an advertisement that names the one before it. `Store`, `putLatestAdv` and `PublishLocal`.
use mathlib.Core.Path.{subst}
use index_provider.Prelude.{
  ◌≡◌, refl, sym, ap, ◌∙◌, Option, none, some, List, [], ◌∷◌, if_pos, if_neg,
}
use index_provider.Exec.{ok}
use index_provider.Schema.{Bytes, Advertisement}
use index_provider.Engine.{Setup, Engine}
use index_provider.Engine.Keys.{Key, latest_adv, block, key_discrete}
use index_provider.Engine.Frame.{view, updated, Frame}
use index_provider.Engine.Reads.{Holds}

module _ (G : Setup) where
  open G use {libraries as L, store as D}
  open G.libraries use {Cid}

  abbrev View : Type 0
  View = Key Cid → Option Bytes

  abbrev pub Chain : View → Option Cid → List (Advertisement Cid) → Type 0
  Chain v none [] = Unit
  Chain v (some c) [] = ⊥
  Chain v none (a ∷ ads) = ⊥
  Chain v (some c) (a ∷ ads) =
      ((b : Bytes) × (v (block c) ≡ some b) × (L.encode a ≡ ok (c, b))) × Chain v a.previous_id ads

  -- The reference names `l`, and the chain from there is `ads`, the newest first.
  abbrev pub IsChain : View → Option Cid → List (Advertisement Cid) → Type 0
  IsChain v l ads = Holds G v latest_adv l × Chain v l ads

  -- Every block of an advertisement in the one view is in the other.
  pub Extends : View → View → Type 0
  Extends v w =
      (a : Advertisement Cid) (c : Cid) (b : Bytes)
      → L.encode a ≡ ok (c, b)
      → v (block c) ≡ some b
      → w (block c) ≡ some b

  pub Chain-Extends :
      (v w : View) (l : Option Cid) (ads : List (Advertisement Cid))
      → Extends v w
      → Chain v l ads
      → Chain w l ads
  unfolding Extends
  Chain-Extends v w none [] x h = h
  Chain-Extends v w (some c) [] x h = h
  Chain-Extends v w none (a ∷ ads) x h = h
  Chain-Extends v w (some c) (a ∷ ads) x ((b, at, is), rest) =
      ((b, x a c b is at, is), Chain-Extends v w a.previous_id ads x rest)

  pub Holds-same :
      (v w : View) (l : Option Cid)
      → w latest_adv ≡ v latest_adv
      → Holds G v latest_adv l
      → Holds G w latest_adv l
  Holds-same v w none p h = p ∙ h
  Holds-same v w (some c) p h = p ∙ h

  update-ne : (v : View) (k j : Key Cid) (o : Option Bytes) → ¬ (k ≡ j) → updated G v k o j ≡ v j
  update-ne v k j o h = if_neg (key_discrete L.cid_discrete k j) h _ _

  pub update_self : (v : View) (k : Key Cid) (o : Option Bytes) → updated G v k o k ≡ o
  update_self v k o = if_pos (key_discrete L.cid_discrete k k) refl _ _

  -- A new block: identifiers are hashes, so a block that was there is not overwritten by another.
  Extends-block :
      (v : View) (a : Advertisement Cid) (c : Cid) (b : Bytes)
      → L.encode a ≡ ok (c, b)
      → Extends v (updated G v (block c) (some b))
  unfolding Extends
  Extends-block v a c b is a' c' b' is' at = elim (L.cid_discrete c c') [
    | yes p ↦
        ap (updated G v (block c) (some b)) (ap block (sym p))
        ∙ update_self v (block c) (some b)
        ∙ ap some (L.encode_hash a a' c b b' is (is' ∙ ap (λ d. ok (d, b')) (sym p)))
    | no p ↦ update-ne v (block c) (block c') (some b) (λ q. p (cc)) ∙ at
  ]

  Extends-latest : (v : View) (o : Option Bytes) → Extends v (updated G v latest_adv o)
  unfolding Extends
  Extends-latest v o a c b is at = update-ne v latest_adv (block c) o (λ q. absurd (cc)) ∙ at

  pub IsChain-block :
      (v : View) (l : Option Cid) (ads : List (Advertisement Cid)) (a : Advertisement Cid) (c : Cid)
      (b : Bytes)
      → L.encode a ≡ ok (c, b)
      → IsChain v l ads
      → IsChain (updated G v (block c) (some b)) l ads
  IsChain-block v l ads a c b is (h, ch) = (
    Holds-same v (updated G v (block c) (some b)) l
        (update-ne v (block c) latest_adv (some b) (λ q. absurd (cc))) h,
    Chain-Extends v _ l ads (Extends-block v a c b is) ch,
  )

  -- The reference moved to a stored advertisement that names the latest one.
  pub IsChain-latest :
      (v : View) (l : Option Cid) (ads : List (Advertisement Cid)) (a : Advertisement Cid) (c : Cid)
      (b : Bytes)
      → L.encode a ≡ ok (c, b)
      → v (block c) ≡ some b
      → a.previous_id ≡ l
      → IsChain v l ads
      → IsChain (updated G v latest_adv (some (L.cid_bytes c))) (some c) (a ∷ ads)
  IsChain-latest v l ads a c b is at prev (h, ch) = (
    update_self v latest_adv _,
    (
      (b, Extends-at, is),
      subst (λ m. Chain (updated G v latest_adv (some (L.cid_bytes c))) m ads) (sym prev)
          (Chain-Extends v _ l ads (Extends-latest v (some (L.cid_bytes c))) ch),
    ),
  )
    where
      Extends-at : updated G v latest_adv (some (L.cid_bytes c)) (block c) ≡ some b
      Extends-at = update-ne v latest_adv (block c) _ (λ q. absurd (cc)) ∙ at

  -- What leaves the blocks and the reference alone leaves the chain alone.
  pub IsChain-Frame :
      {e e' : Engine G} (l : Option Cid) (ads : List (Advertisement Cid))
      → Frame G e e'
      → IsChain (view G e) l ads
      → IsChain (view G e') l ads
  unfolding Extends
  IsChain-Frame {e} {e'} l ads f (h, ch) = (
    Holds-same (view G e) (view G e') l f.latest h,
    Chain-Extends (view G e) (view G e') l ads (λ a c b is at. f.blocks c ∙ at) ch,
  )
