-- ===== src/Policy/Evaluation.antt =====
-- What a policy says of each peer, after it was made and after it was set for a peer.
use index_provider.Prelude.{
  ℕ, ◌≡◌, ◌≢◌, refl, sym, ap, ◌∙◌, inl, inr, Bool, true, false, not, Option, none, some, List, [],
  ◌∷◌, length, ◌==◌, if◌then◌else◌, arith, ite, member, add, remove, IsKeySet, member-add_self,
  member-add_ne, member-remove_self, member-remove_ne, length-remove, remove_absent, Bool-cases,
  false≢true,
}
use index_provider.Schema.{PeerId}
use index_provider.Engine.Keys.{bytes_discrete}
use index_provider.Policy.{
  Heap, Policy, entries, entries_at, is_excepted, eval, any, same, except_peer, restore_peer,
  set_peer,
}

-- The map after `SetPeer`.
after_set : (s : List PeerId) (id : PeerId) (same : Bool) → List PeerId
after_set s id true = remove bytes_discrete id s
after_set s id false = add bytes_discrete id s

remove-empty :
    (id : PeerId) (s : List PeerId) → (length s == 0) ≡ true → remove bytes_discrete id s ≡ s
unfolding remove
remove-empty id [] h = refl
remove-empty id (x ∷ s) h = absurd (ground arith)

-- A slot of the heap that was just written.
write_self : (m : ℕ → List PeerId) (r : ℕ) (s : List PeerId) → (if r == r then s else m r) ≡ s
write_self m r s = ground arith

abbrev pub of : Bool → Option ℕ → Policy
of b o = record { value = b; except = o }

restore_entries :
    (h : Heap) (b : Bool) (id : PeerId) (o : Option ℕ)
    → (entries (restore_peer h (of b o) id o).0 (restore_peer h (of b o) id o).1
        ≡ remove bytes_discrete id (entries_at h o))
      × ((restore_peer h (of b o) id o).1.value ≡ b)
unfolding restore_peer remove
restore_entries h b id none = (refl, refl)
restore_entries h b id (some r) = elim (Bool-cases (length (h.maps r) == 0)) [
  | inl z ↦ rw (z) (sym (remove-empty id (h.maps r) z), refl)
  | inr z ↦ rw (z) (write_self h.maps r (remove bytes_discrete id (h.maps r)), refl)
]

except_entries :
    (h : Heap) (b : Bool) (id : PeerId) (o : Option ℕ)
    → (entries (except_peer h (of b o) id o).0 (except_peer h (of b o) id o).1
        ≡ add bytes_discrete id (entries_at h o))
      × ((except_peer h (of b o) id o).1.value ≡ b)
unfolding except_peer
except_entries h b id none = (write_self h.maps h.next (add bytes_discrete id []), refl)
except_entries h b id (some r) = (write_self h.maps r (add bytes_discrete id (h.maps r)), refl)

-- The value of a policy is not changed by `SetPeer`, and its map holds what it should.
set_peer-entries :
    (h : Heap) (p : Policy) (id : PeerId) (v : Bool)
    → (entries (set_peer h p id v).0 (set_peer h p id v).1
        ≡ after_set (entries h p) id (same v p.value))
      × ((set_peer h p id v).1.value ≡ p.value)
unfolding set_peer after_set
set_peer-entries h p id v = elim (Bool-cases (same v p.value)) [
  | inl e ↦ rw (e) (restore_entries h p.value id p.except)
  | inr e ↦ rw (e) (except_entries h p.value id p.except)
]

-- What `Eval` says, from the value and the entries.
verdict : Bool → Bool → Bool
verdict true b = not b
verdict false b = b

eval_lem : (h : Heap) (p : Policy) (j : PeerId) → eval h p j ≡ verdict p.value (is_excepted h p j)
unfolding eval verdict
eval_lem h p j = elim (Bool-cases p.value) [ inl e ↦ rw (e) refl | inr e ↦ rw (e) refl ]

after_set_self :
    (s : List PeerId) (id : PeerId) (v b : Bool)
    → verdict b (member bytes_discrete id (after_set s id (same v b))) ≡ v
unfolding verdict after_set
after_set_self s id true true = rw (member-remove_self bytes_discrete id s) refl
after_set_self s id true false = rw (member-add_self bytes_discrete id s) refl
after_set_self s id false true = rw (member-add_self bytes_discrete id s) refl
after_set_self s id false false = rw (member-remove_self bytes_discrete id s) refl

after_set_ne :
    (s : List PeerId) (id j : PeerId) (c : Bool)
    → id ≢ j
    → member bytes_discrete j (after_set s id c) ≡ member bytes_discrete j s
unfolding after_set
after_set_ne s id j true n = member-remove_ne bytes_discrete id j s n
after_set_ne s id j false n = member-add_ne bytes_discrete id j s n

-- After `SetPeer` the policy evaluates to the value at the peer, and at every other peer to what it
-- did before, whatever map the policy had.
pub eval-set_peer :
    (h : Heap) (p : Policy) (id j : PeerId) (v : Bool)
    → eval (set_peer h p id v).0 (set_peer h p id v).1 j ≡ ite (bytes_discrete id j) v (eval h p j)
eval-set_peer h p id j v =
    let e = set_peer-entries h p id v in
    rw (eval_lem (set_peer h p id v).0 (set_peer h p id v).1 j, eval_lem h p j, e.0, e.1)
      (elim (bytes_discrete id j)
        as (λ d.
          verdict p.value (member bytes_discrete j (after_set (entries h p) id (same v p.value)))
          ≡ ite d v (verdict p.value (is_excepted h p j))) [
            | yes q ↦ rw (← q) (after_set_self (entries h p) id v p.value)
            | no q ↦ ap (verdict p.value) (after_set_ne (entries h p) id j (same v p.value) q)
          ])

no_entries :
    (s : List PeerId) (j : PeerId) → (length s == 0) ≡ true → member bytes_discrete j s ≡ false
unfolding member
no_entries [] j z = refl
no_entries (x ∷ s) j z = absurd (ground arith)

opposite : (v b : Bool) → same v b ≡ false → verdict b false ≡ not v
unfolding verdict
opposite true true e = e
opposite true false e = refl
opposite false true e = refl
opposite false false e = sym e

-- If `Any` denies a value, no peer evaluates to it.
pub any-eval :
    (h : Heap) (p : Policy) (v : Bool) (j : PeerId) → any h p v ≡ false → eval h p j ≡ not v
unfolding any no_entries verdict
any-eval h p v j a = elim (Bool-cases (same v p.value)) [
  | inl e ↦ absurd (ground arith)
  | inr e ↦ elim (Bool-cases (length (entries h p) == 0)) [
    | inl z ↦ rw (eval_lem h p j, no_entries (entries h p) j z) (opposite v p.value e)
    | inr z ↦ absurd (ground arith)
  ]
]

removed_some :
    (id : PeerId) (s : List PeerId)
    → IsKeySet bytes_discrete s
    → not (length (remove bytes_discrete id s) == length s) ≡ member bytes_discrete id s
removed_some id s u = elim (Bool-cases (member bytes_discrete id s)) [
  | inl e ↦ ground (arith, length-remove bytes_discrete id s u e)
  | inr e ↦ ground (arith, remove_absent bytes_discrete id s e)
]

added_one :
    (id : PeerId) (s : List PeerId)
    → not (length (add bytes_discrete id s) == length s) ≡ not (member bytes_discrete id s)
unfolding add
added_one id s = elim (Bool-cases (member bytes_discrete id s)) [
  | inl e ↦ rw (e, add) (ground arith)
  | inr e ↦ rw (e, add) (ground arith)
]

restore_changed :
    (h : Heap) (b : Bool) (id : PeerId) (o : Option ℕ)
    → IsKeySet bytes_discrete (entries_at h o)
    → (restore_peer h (of b o) id o).2 ≡ member bytes_discrete id (entries_at h o)
unfolding restore_peer member
restore_changed h b id none u = refl
restore_changed h b id (some r) u = elim (Bool-cases (length (h.maps r) == 0)) [
  | inl z ↦ rw (z) (sym (no_entries (h.maps r) id z))
  | inr z ↦ rw (z) (removed_some id (h.maps r) u)
]

except_changed :
    (h : Heap) (b : Bool) (id : PeerId) (o : Option ℕ)
    → (except_peer h (of b o) id o).2 ≡ not (member bytes_discrete id (entries_at h o))
unfolding except_peer
except_changed h b id none = added_one id []
except_changed h b id (some r) = added_one id (h.maps r)

differs : (v b m : Bool) → same v b ≡ true → m ≡ not (same v (verdict b m))
unfolding verdict
differs true true true e = refl
differs true true false e = refl
differs true false m e = absurd (false≢true e)
differs false true m e = absurd (false≢true e)
differs false false true e = refl
differs false false false e = refl

agrees : (v b m : Bool) → same v b ≡ false → not m ≡ not (same v (verdict b m))
unfolding verdict
agrees true true m e = absurd (false≢true (sym e))
agrees true false true e = refl
agrees true false false e = refl
agrees false true true e = refl
agrees false true false e = refl
agrees false false m e = absurd (false≢true (sym e))

-- `SetPeer` reports a change exactly if the policy did not evaluate to the value at the peer; a map
-- holds no key twice.
pub changed-set_peer :
    (h : Heap) (p : Policy) (id : PeerId) (v : Bool)
    → IsKeySet bytes_discrete (entries h p)
    → (set_peer h p id v).2 ≡ not (same v (eval h p id))
unfolding set_peer
changed-set_peer h p id v u = rw (eval_lem h p id) (elim (Bool-cases (same v p.value)) [
  | inl e ↦
      rw (e) (restore_changed h p.value id p.except u ∙ differs v p.value (is_excepted h p id) e)
  | inr e ↦ rw (e) (except_changed h p.value id p.except ∙ agrees v p.value (is_excepted h p id) e)
])
