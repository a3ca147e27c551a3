-- ===== src/Mirror/Copying/Chain.antt =====
-- The chain of a mirror: from the reference to the latest mirrored advertisement, each block holds an
-- advertisement that names the one before it; the oldest one may name one of the source's chain.
use mathlib.Core.Path.{subst}
use index_provider.Prelude.{◌≡◌, refl, sym, ap, ◌∙◌, Option, none, some, List, [], ◌∷◌, if_pos}
use index_provider.Exec.{ok}
use index_provider.Datastore.{update}
use index_provider.Schema.{Bytes, Advertisement}
use index_provider.Mirror.{Setup}
use index_provider.Mirror.Keys.{Key, key_discrete, block, latest_mirrored, latest_original, Grown}
use index_provider.Mirror.Copying.Steps.{update_ne}

module _ (G : Setup) where
  open G use {libraries as L}
  open G.libraries use {Cid}

  abbrev View : Type 0
  View = Key Cid → Option Bytes

  abbrev Ad : Type 0
  Ad = Advertisement Cid

  abbrev pub Stored : View → Ad → Cid → Type 0
  Stored v a c = (b : Bytes) × (v (block c) ≡ some b) × (L.encode a ≡ ok (c, b))

  abbrev pub Chain : View → Option Cid → List Ad → Type 0
  Chain v none [] = Unit {0}
  Chain v none (a ∷ ads) = ⊥
  Chain v (some c) [] = ⊥
  Chain v (some c) (a ∷ []) = Stored v a c
  Chain v (some c) (a ∷ a' ∷ ads) = Stored v a c × Chain v a.previous_id (a' ∷ ads)

  abbrev pub Holds : View → Option Cid → Type 0
  Holds v none = v latest_mirrored ≡ none
  Holds v (some c) = v latest_mirrored ≡ some (L.cid_bytes c)

  -- The reference names `l`, and the chain from there is `ads`, the newest first.
  abbrev pub IsChain : View → Option Cid → List Ad → Type 0
  IsChain v l ads = Holds v l × Chain v l ads

  -- Every block of an advertisement in the one view is in the other.
  abbrev pub Extends : View → View → Type 0
  Extends v w =
      (a : Ad) (c : Cid) (b : Bytes)
      → L.encode a ≡ ok (c, b)
      → v (block c) ≡ some b
      → w (block c) ≡ some b

  Stored-Extends : (v w : View) (a : Ad) (c : Cid) → Extends v w → Stored v a c → Stored w a c
  Stored-Extends v w a c x (b, at, is) = (b, x a c b is at, is)

  Chain-Extends :
      (v w : View) (l : Option Cid) (ads : List Ad) → Extends v w → Chain v l ads → Chain w l ads
  Chain-Extends v w none [] x h = h
  Chain-Extends v w none (a ∷ ads) x h = h
  Chain-Extends v w (some c) [] x h = h
  Chain-Extends v w (some c) (a ∷ []) x h = Stored-Extends v w a c x h
  Chain-Extends v w (some c) (a ∷ a' ∷ ads) x (s, h) =
      (Stored-Extends v w a c x s, Chain-Extends v w a.previous_id (a' ∷ ads) x h)

  Holds-same :
      (v w : View) (l : Option Cid) → w latest_mirrored ≡ v latest_mirrored → Holds v l → Holds w l
  Holds-same v w none p h = p ∙ h
  Holds-same v w (some c) p h = p ∙ h

  pub IsChain-Grown :
      (v w : View) (l : Option Cid) (ads : List Ad) → Grown v w → IsChain v l ads → IsChain w l ads
  IsChain-Grown v w l ads g h = (
    Holds-same v w l g.mirrored h.0,
    Chain-Extends v w l ads (λ a c b is at. g.blocks c b at) h.1,
  )

  abbrev pub put_in : View → Key Cid → Bytes → View
  put_in v k b = update (key_discrete L.cid_discrete) v k (some b)

  update_self : (v : View) (k : Key Cid) (b : Bytes) → put_in v k b k ≡ some b
  update_self v k b = if_pos (key_discrete L.cid_discrete k k) refl _ _

  block-injective : (c d : Cid) → ◌≡◌ {A = Key Cid} (block c) (block d) → c ≡ d
  block-injective c d p = cc

  -- A new block: identifiers are hashes, so no advertisement's block is overwritten by another.
  Extends-block :
      (v : View) (a : Ad) (c : Cid) (b : Bytes)
      → L.encode a ≡ ok (c, b)
      → Extends v (put_in v (block c) b)
  Extends-block v a c b is a' d b' is' at = elim (key_discrete L.cid_discrete (block c) (block d)) [
    | yes p ↦
        if_pos (key_discrete L.cid_discrete (block c) (block d)) p (some b) (v (block d))
        ∙ ap some (
            L.encode_hash a a' c b b' is
              (subst (λ x. L.encode a' ≡ ok (x, b')) (sym (block-injective c d p)) is'))
    | no p ↦ update_ne G v (block c) (block d) (some b) p ∙ at
  ]

  pub IsChain-block :
      (v : View) (l : Option Cid) (ads : List Ad) (a : Ad) (c : Cid) (b : Bytes)
      → L.encode a ≡ ok (c, b)
      → IsChain v l ads
      → IsChain (put_in v (block c) b) l ads
  IsChain-block v l ads a c b is h = (
    Holds-same v (put_in v (block c) b) l
        (update_ne G v (block c) latest_mirrored (some b) (λ e. cc)) h.0,
    Chain-Extends v (put_in v (block c) b) l ads (Extends-block v a c b is) h.1,
  )

  pub put-block : (v : View) (c : Cid) (b : Bytes) → put_in v (block c) b (block c) ≡ some b
  put-block v c b = update_self v (block c) b

  Extends-latest : (v : View) (b : Bytes) → Extends v (put_in v latest_mirrored b)
  Extends-latest v b a c x is at = update_ne G v latest_mirrored (block c) (some b) (λ e. cc) ∙ at

  -- The new one in front: the previous one is the former latest, if there was one.
  front :
      (v w : View) (l : Option Cid) (ads : List Ad) (a : Ad) (c : Cid)
      → ((d : Cid) → l ≡ some d → a.previous_id ≡ l)
      → Extends v w
      → Stored w a c
      → Chain v l ads
      → Chain w (some c) (a ∷ ads)
  front v w none [] a c p x s h = s
  front v w none (a' ∷ ads) a c p x s h = absurd h
  front v w (some d) [] a c p x s h = absurd h
  front v w (some d) (a' ∷ ads) a c p x s h = (
    s,
    subst (λ l. Chain w l (a' ∷ ads)) (sym (p d refl)) (Chain-Extends v w (some d) (a' ∷ ads) x h),
  )

  pub IsChain-latest :
      (v : View) (l : Option Cid) (ads : List Ad) (a : Ad) (c : Cid)
      → ((d : Cid) → l ≡ some d → a.previous_id ≡ l)
      → Stored v a c
      → IsChain v l ads
      → IsChain (put_in v latest_mirrored (L.cid_bytes c)) (some c) (a ∷ ads)
  IsChain-latest v l ads a c p s h = (
    update_self v latest_mirrored (L.cid_bytes c),
    front v (put_in v latest_mirrored (L.cid_bytes c)) l ads a c p
        (Extends-latest v (L.cid_bytes c))
        (Stored-Extends v (put_in v latest_mirrored (L.cid_bytes c)) a c
          (Extends-latest v (L.cid_bytes c)) s)
        h.1,
  )

  pub IsChain-original :
      (v : View) (l : Option Cid) (ads : List Ad) (b : Bytes)
      → IsChain v l ads
      → IsChain (put_in v latest_original b) l ads
  IsChain-original v l ads b h = (
    Holds-same v (put_in v latest_original b) l
        (update_ne G v latest_original latest_mirrored (some b) (λ e. cc)) h.0,
    Chain-Extends v (put_in v latest_original b) l ads
        (λ a c x is at. update_ne G v latest_original (block c) (some b) (λ e. cc) ∙ at) h.1,
  )
