-- ===== src/Policy.antt =====
-- engine/peerutil/policy.go and engine/policy/policy.go. A policy holds a Go map, which is a
-- reference: copying the struct shares the map. So the maps stand in a heap.
pub mod Evaluation
pub mod Aliasing
mod Tests
use index_provider.Prelude.{
  ℕ, suc, ◌+◌, Bool, true, false, not, Option, none, some, List, [], ◌∷◌, map, length, ◌==◌, ite,
  ℕ_discrete, if◌then◌else◌, member, add, remove,
}
use index_provider.Exec.{Result, ok, err, text}
use index_provider.Schema.{Bytes, PeerId}
use index_provider.Engine.Keys.{bytes_discrete}

pub record Heap : Type 0 where
  pub next : ℕ
  pub maps : ℕ → List PeerId

-- `except` is nil or a map.
pub record Policy : Type 0 where
  pub value : Bool
  pub except : Option ℕ

abbrev pub write : Heap → ℕ → List PeerId → Heap
write h r s = record h { maps = λ i. if r == i then s else h.maps i }

abbrev pub alloc : Heap → List PeerId → Heap
alloc h s = record { next = suc h.next; maps = λ i. if h.next == i then s else h.maps i }

-- The peers in the except map; a nil map has none.
abbrev pub entries_at : Heap → Option ℕ → List PeerId
entries_at h none = []
entries_at h (some r) = h.maps r

abbrev pub entries : Heap → Policy → List PeerId
entries h p = entries_at h p.except

abbrev pub is_excepted : Heap → Policy → PeerId → Bool
is_excepted h p id = member bytes_discrete id (entries h p)

unfoldable pub add_all : List PeerId → List PeerId → List PeerId
add_all [] s = s
add_all (id ∷ ids) s = add_all ids (add bytes_discrete id s)

unfoldable pub new_policy : Heap → Bool → List PeerId → Heap × Policy
unfolding add_all
new_policy h value [] = (h, record { value = value; except = none })
new_policy h value (id ∷ ids) =
    (alloc h (add_all (id ∷ ids) []), record { value = value; except = some h.next })

-- `peer.Decode` is a parameter.
module _ (decode : Bytes → Result PeerId) where
  unfoldable pub decode_all : List Bytes → Result (List PeerId)
  decode_all [] = ok []
  decode_all (s ∷ ss) = elim (decode s) [
    | err e ↦ err (text "error decoding peer id")
    | ok id ↦ elim (decode_all ss) [ err e ↦ err e | ok ids ↦ ok (id ∷ ids) ]
  ]

  unfoldable pub new_policy_strings : Heap → Bool → List Bytes → Result (Heap × Policy)
  unfolding decode_all new_policy
  new_policy_strings h value ss = elim (decode_all ss) [
    | err e ↦ err e
    | ok ids ↦ ok (new_policy h value ids)
  ]

  -- `policy.New`
  unfoldable pub new : Heap → Bool → List Bytes → Result (Heap × Policy)
  unfolding new_policy_strings
  new h allow except = elim (new_policy_strings h allow except) [
    | err e ↦ err (text "bad allow policy")
    | ok r ↦ ok r
  ]

unfoldable pub eval : Heap → Policy → PeerId → Bool
eval h p id = if p.value then not (is_excepted h p id) else is_excepted h p id

abbrev pub same : Bool → Bool → Bool
same true b = b
same false b = not b

unfoldable pub any : Heap → Policy → Bool → Bool
any h p value = if same value p.value then true else not (length (entries h p) == 0)

-- Add the peer to the map, which is made if it is nil; report whether the map has grown.
unfoldable pub except_peer : Heap → Policy → PeerId → Option ℕ → Heap × Policy × Bool
except_peer h p id none = (
  alloc h (add bytes_discrete id []),
  record p { except = some h.next },
  not (length (add bytes_discrete id []) == 0),
)
except_peer h p id (some r) = (
  write h r (add bytes_discrete id (h.maps r)),
  p,
  not (length (add bytes_discrete id (h.maps r)) == length (h.maps r)),
)

-- Take the peer out of the map, if there is one; report whether the map has shrunk.
unfoldable pub restore_peer : Heap → Policy → PeerId → Option ℕ → Heap × Policy × Bool
restore_peer h p id none = (h, p, false)
restore_peer h p id (some r) = if length (h.maps r) == 0 then (h, p, false) else (
  write h r (remove bytes_discrete id (h.maps r)),
  p,
  not (length (remove bytes_discrete id (h.maps r)) == length (h.maps r)),
)

unfoldable pub set_peer : Heap → Policy → PeerId → Bool → Heap × Policy × Bool
unfolding except_peer restore_peer
set_peer h p id value =
    if same value p.value then restore_peer h p id p.except else except_peer h p id p.except

unfoldable pub default : Policy → Bool
default p = p.value

-- `Except` and `ExceptStrings`: the peers, and their texts (`peer.ID.String` is a parameter).
unfoldable pub except_list : Heap → Policy → List PeerId
except_list h p = entries h p

unfoldable pub except_strings : (PeerId → Bytes) → Heap → Policy → List Bytes
except_strings peer_text h p = map peer_text (entries h p)

-- engine/policy: the same under a lock.
unfoldable pub allowed : Heap → Policy → PeerId → Bool
unfolding eval
allowed h p id = eval h p id

unfoldable pub allow : Heap → Policy → PeerId → Heap × Policy × Bool
unfolding set_peer
allow h p id = set_peer h p id true

unfoldable pub block : Heap → Policy → PeerId → Heap × Policy × Bool
unfolding set_peer
block h p id = set_peer h p id false

-- `p.allow = other.allow`
unfoldable pub copy : Policy → Policy → Policy
copy p other = other

unfoldable pub to_config : (PeerId → Bytes) → Heap → Policy → Bool × List Bytes
unfolding default except_strings
to_config peer_text h p = (default p, except_strings peer_text h p)
