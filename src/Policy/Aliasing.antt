-- ===== src/Policy/Aliasing.antt =====
-- Policies that share a map.
use index_provider.Prelude.{
  ℕ, ◌≡◌, refl, sym, ap, ◌∙◌, Bool, true, some, ite, ◌==◌, length, Bool-cases, inl, inr,
}
use index_provider.Schema.{PeerId}
use index_provider.Engine.Keys.{bytes_discrete}
use index_provider.Policy.{
  Heap, Policy, eval, same, except_peer, restore_peer, set_peer, copy, allow,
}
use index_provider.Policy.Evaluation.{of, eval-set_peer}

-- A policy with a map keeps it.
keeps_map :
    (h : Heap) (b : Bool) (r : ℕ) (id : PeerId) (v : Bool)
    → (set_peer h (of b (some r)) id v).1 ≡ of b (some r)
unfolding set_peer restore_peer except_peer
keeps_map h b r id v = elim (Bool-cases (same v b)) [
  | inl e ↦
      rw (e)
        (elim (Bool-cases (length (h.maps r) == 0)) [ inl z ↦ rw (z) refl | inr z ↦ rw (z) refl ])
  | inr e ↦ rw (e) refl
]

eval-shared :
    (h : Heap) (b : Bool) (r : ℕ) (id j : PeerId) (v : Bool)
    → eval (set_peer h (of b (some r)) id v).0 (of b (some r)) j
      ≡ ite (bytes_discrete id j) v (eval h (of b (some r)) j)
eval-shared h b r id j v =
    ap (λ q. eval (set_peer h (of b (some r)) id v).0 q j) (sym (keeps_map h b r id v))
    ∙ eval-set_peer h (of b (some r)) id j v

-- After `Copy` of a policy that has an except map, `Allow` on the copy changes the original too: it
-- then allows the peer.
pub allow-copy :
    (h : Heap) (p other : Policy) (r : ℕ) (id j : PeerId)
    → other.except ≡ some r
    → eval (allow h (copy p other) id).0 other j ≡ ite (bytes_discrete id j) true (eval h other j)
unfolding allow copy
allow-copy h p other r id j e =
    let same_policy : other ≡ of other.value (some r) = ap (of other.value) e in
    rw (same_policy) (eval-shared h other.value r id j true)
