-- ===== src/Engine/Keys.antt =====
-- The datastore keys of engine/engine.go. A key is the prefix and the text behind it: `NewKey`, which
-- cleans a path, is taken to leave these keys apart, so a context ID that holds `//`, `/../` or a
-- slash at its end is outside the model.
use native.Mathlib.Decide.{ℕ_discrete}
use index_provider.Prelude.{◌≡◌, ◌≢◌, ◌∷◌, ◌++◌, ite, if_pos, if_neg}
use index_provider.Schema.{Bytes, PeerId}

pub data Key (Cid : Type 0) : Type 0 where
  -- "map/keyCid/", "map/cidKey/", "map/cidProvAndKey/", "map/keyMD/", "sync/adv/"
  key_to_cid : Bytes → Key Cid
  cid_to_key : Cid → Key Cid
  cid_to_provider_and_key : Cid → Key Cid
  key_to_metadata : Bytes → Key Cid
  latest_adv : Key Cid
  -- a block of the link system, under the text of its identifier
  block : Cid → Key Cid

unfoldable pub bytes_discrete : Discrete Bytes
bytes_discrete = hlevel ℕ_discrete

unfoldable pub key_discrete : {Cid : Type 0} → Discrete Cid → Discrete (Key Cid)
key_discrete dec = hlevel (dec, ℕ_discrete)

module _ (peer_text : PeerId → Bytes) (default : PeerId) where
  -- What stands behind the prefix in `keyToCidKey` and `keyToMetadataKey`.
  unfoldable pub context_key : PeerId → Bytes → Bytes
  context_key provider context_id =
      ite (bytes_discrete provider default) context_id (peer_text provider ++ b'/' ∷ context_id)

  -- A context ID of the default provider that begins with another peer's text and a slash has the
  -- key of that peer's context ID: the two share one entry of each map.
  pub context_key_collision :
      (provider : PeerId) (context_id : Bytes)
      → provider ≢ default
      → context_key default (peer_text provider ++ b'/' ∷ context_id)
        ≡ context_key provider context_id
  unfolding context_key
  context_key_collision provider context_id h = rw (
    if_pos (bytes_discrete default default) (λ i. default),
    if_neg (bytes_discrete provider default) h,
  )
