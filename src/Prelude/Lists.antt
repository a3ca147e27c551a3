-- ===== src/Prelude/Lists.antt =====
-- Lists measured by native numbers, and lists as finite sets.
use Prim.Native.Nat.{ℕ, zero, suc, ◌+◌}
use mathlib.Core.Path.{◌≡◌, refl, sym, ap, ◌∙◌}
use mathlib.Core.Logic.{◌≢◌, ite, if_pos, if_neg}
use mathlib.Core.Bool.{Bool, true, false, false≢true}
use mathlib.Core.Option.{Option, none, some}
use mathlib.Core.List.{append_assoc, flatten, List, [], ◌∷◌, ◌++◌}
use native.Mathlib.Omega.{arith}

module _ {ℓ} {A : Type ℓ} where
  abbrev pub length : List A → ℕ
  length [] = 0
  length (x ∷ xs) = suc (length xs)

  pub length-append : (xs ys : List A) → length (xs ++ ys) ≡ length xs + length ys
  length-append [] ys = omega arith
  length-append (x ∷ xs) ys = omega (arith, length-append xs ys)

  -- The element at an index that is in range.
  abbrev pub get_elem? : List A → ℕ → Option A
  get_elem? [] i = none
  get_elem? (x ∷ xs) zero = some x
  get_elem? (x ∷ xs) (suc i) = get_elem? xs i

  abbrev pub take : ℕ → List A → List A
  take zero xs = []
  take (suc n) [] = []
  take (suc n) (x ∷ xs) = x ∷ take n xs

  abbrev pub drop : ℕ → List A → List A
  drop zero xs = xs
  drop (suc n) [] = []
  drop (suc n) (x ∷ xs) = drop n xs

  pub get_elem?-append :
      (xs : List A) (x : A) (ys : List A) → get_elem? (xs ++ x ∷ ys) (length xs) ≡ some x
  get_elem?-append [] x ys = refl
  get_elem?-append (y ∷ xs) x ys = get_elem?-append xs x ys

  pub flatten-append : (xss yss : List (List A)) → flatten (xss ++ yss) ≡ flatten xss ++ flatten yss
  unfolding flatten
  flatten-append [] yss = refl
  flatten-append (xs ∷ xss) yss =
      ap (λ r. xs ++ r) (flatten-append xss yss) ∙ sym (append_assoc xs (flatten xss) (flatten yss))

-- A predicate of every member of a list.
abbrev pub All {ℓ κ} : {A : Type ℓ} → (A → Type κ) → List A → Type κ
All P [] = Unit
All P (x ∷ xs) = P x × All P xs

pub All-append {ℓ κ} :
    {A : Type ℓ} (P : A → Type κ) (xs ys : List A) → All P xs → All P ys → All P (xs ++ ys)
All-append P [] ys hx hy = hy
All-append P (x ∷ xs) ys hx hy = (hx.0, All-append P xs ys hx.1 hy)

-- A Go `map[K]struct{}` as the list of its keys, each once. The order stands for the order in
-- which `range` happens to visit them.
module _ {ℓ} {K : Type ℓ} (dec : Discrete K) where
  unfoldable pub member : K → List K → Bool
  member k [] = false
  member k (j ∷ s) = ite (dec j k) true (member k s)

  unfoldable pub add : K → List K → List K
  unfolding member
  add k s = elim (member k s) [ true ↦ s | false ↦ k ∷ s ]

  unfoldable pub remove : K → List K → List K
  remove k [] = []
  remove k (j ∷ s) = let rest = remove k s in ite (dec j k) rest (j ∷ rest)

  -- No key stands twice.
  abbrev pub IsKeySet : List K → Type 0
  IsKeySet [] = Unit {0}
  IsKeySet (j ∷ s) = (member j s ≡ false) × IsKeySet s

  pub member-add_self : (k : K) (s : List K) → member k (add k s) ≡ true
  unfolding member add
  member-add_self k s = ground arith

  pub member-add_ne : (k j : K) (s : List K) → k ≢ j → member j (add k s) ≡ member j s
  unfolding member add
  member-add_ne k j s h = ground arith

  pub member-remove_self : (k : K) (s : List K) → member k (remove k s) ≡ false
  unfolding member remove
  member-remove_self k [] = refl
  member-remove_self k (i ∷ s) = elim (dec i k) [
    | yes p ↦ rw (if_pos _ p) (member-remove_self k s)
    | no p ↦ rw (if_neg (dec i k) p, if_neg (dec i k) p) (member-remove_self k s)
  ]

  pub member-remove_ne : (k j : K) (s : List K) → k ≢ j → member j (remove k s) ≡ member j s
  unfolding member remove
  member-remove_ne k j [] h = refl
  member-remove_ne k j (i ∷ s) h = elim (dec i k) [
    | yes p ↦ rw (if_pos _ p, if_neg (dec i j) (λ q. h (sym p ∙ q))) (member-remove_ne k j s h)
    | no p ↦ rw (if_neg (dec i k) p, member-remove_ne k j s h)
  ]

  pub remove_absent : (k : K) (s : List K) → member k s ≡ false → remove k s ≡ s
  unfolding member remove
  remove_absent k [] h = refl
  remove_absent k (i ∷ s) h = elim (dec i k) [
    | yes p ↦ absurd (false≢true (sym h ∙ if_pos (dec i k) p _ _))
    | no p ↦
        rw (if_neg (dec i k) p) (ap (◌∷◌ i) (remove_absent k s (sym (if_neg (dec i k) p _ _) ∙ h)))
  ]

  pub length-remove :
      (k : K) (s : List K) → IsKeySet s → member k s ≡ true → suc (length (remove k s)) ≡ length s
  unfolding member remove
  length-remove k [] u h = absurd (false≢true h)
  length-remove k (i ∷ s) u h = elim (dec i k) [
    | yes p ↦ rw (if_pos (dec i k) p) (ap (λ r. suc (length r)) (remove_absent k s (rw (← p) u.0)))
    | no p ↦
        rw (if_neg (dec i k) p) (ap suc (length-remove k s u.1 (sym (if_neg (dec i k) p _ _) ∙ h)))
  ]

  pub remove-IsKeySet : (k : K) (s : List K) → IsKeySet s → IsKeySet (remove k s)
  unfolding remove
  remove-IsKeySet k [] u = u
  remove-IsKeySet k (i ∷ s) u = elim (dec i k) [
    | yes p ↦ rw (if_pos (dec i k) p) (remove-IsKeySet k s u.1)
    | no p ↦
        rw (if_neg (dec i k) p)
          (member-remove_ne k i s (λ e. p (sym e)) ∙ u.0, remove-IsKeySet k s u.1)
  ]
