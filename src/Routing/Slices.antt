-- ===== src/Routing/Slices.antt =====
-- How a snapshot is cut into slices, and put together when it is read.
use mathlib.Core.List.{flatten}
use index_provider.Prelude.{
  ℕ, zero, suc, ◌<◌, ◌≡◌, refl, ap, ◌∙◌, List, [], ◌∷◌, ◌++◌, length, take, drop, All, arith,
}
use index_provider.Routing.Snapshot.{slices}

module _ {ℓ} {A : Type ℓ} where
  pub take-drop : (n : ℕ) (xs : List A) → take n xs ++ drop n xs ≡ xs
  take-drop zero xs = refl
  take-drop (suc n) [] = refl
  take-drop (suc n) (x ∷ xs) = ap (◌∷◌ x) (take-drop n xs)

  length-take : (n : ℕ) (xs : List A) → length (take n xs) < suc n
  length-take zero xs = omega arith
  length-take (suc n) [] = omega arith
  length-take (suc n) (x ∷ xs) = omega (arith, length-take n xs)

  pub length-drop : (n : ℕ) (xs : List A) → length (drop n xs) < suc (length xs)
  length-drop zero xs = omega arith
  length-drop (suc n) [] = omega arith
  length-drop (suc n) (x ∷ xs) = omega (arith, length-drop n xs)

  -- A slice has some element, and not more than the size.
  abbrev pub IsSlice : ℕ → List A → Type 0
  IsSlice size sl = (0 < length sl) × (length sl < suc size)

  cut :
      (n size : ℕ) (positive : 0 < suc size) (xs : List A)
      → length xs < suc n
      → (flatten (slices n (suc size) positive xs) ≡ xs)
        × All (IsSlice (suc size)) (slices n (suc size) positive xs)
  unfolding slices flatten
  cut zero size positive [] h = (refl, tt)
  cut zero size positive (x ∷ xs) h = absurd (omega (arith, h))
  cut (suc n) size positive [] h = (refl, tt)
  cut (suc n) size positive (x ∷ xs) h =
      let (joined, sliced) =
        cut n size positive (drop size xs) (omega (arith, h, length-drop size xs)) in
      (
        ap (λ r. take (suc size) (x ∷ xs) ++ r) joined ∙ take-drop (suc size) (x ∷ xs),
        ((omega arith, length-take (suc size) (x ∷ xs)), sliced),
      )

  -- With a positive size, the slices that a snapshot of a list is cut into are the list when put
  -- together, each has some element and at most as many as the size, and as many slices as the list
  -- has elements are enough.
  pub flatten-slices :
      (size : ℕ) (xs : List A) (positive : 0 < size)
      → (flatten (slices (length xs) size positive xs) ≡ xs)
        × All (IsSlice size) (slices (length xs) size positive xs)
  flatten-slices zero xs h = absurd (omega (arith, h))
  flatten-slices (suc size) xs h = cut (length xs) size h xs (omega arith)
