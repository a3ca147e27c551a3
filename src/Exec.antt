-- ===== src/Exec.antt =====
-- Go methods that change state and may return an error: the state they leave comes back beside the
-- result on either path, since what was written before an early return stays written.
pub mod Post
pub mod Within
pub mod Sure
use index_provider.Prelude.{String, ◌≡◌, refl}

-- The sentinel errors of the repository and of the libraries it calls, the errors that the code
-- makes itself (with or without the cause wrapped in), and the errors of code outside it.
pub data Error : Type 0 where
  eof not_found : Error
  no_multihash_lister context_id_not_found already_advertised : Error
  text : String → Error
  wrap : String → Error → Error
  external : Error
  -- a Go panic, which no caller here recovers
  panic : Error

pub data Result {ℓ} (A : Type ℓ) : Type ℓ where
  ok : A → Result A
  err : Error → Result A

pub ok-injective {ℓ} : {A : Type ℓ} (a b : A) → ok a ≡ ok b → a ≡ b
ok-injective a b p = cc

module _ {ℓ} {A B : Type ℓ} where
  -- `if err != nil { return err }` without a state
  abbrev pub and_then : Result A → (A → Result B) → Result B
  and_then (ok a) f = f a
  and_then (err e) f = err e

  pub and_then-ok :
      (r : Result A) (f : A → Result B) (b : B)
      → and_then r f ≡ ok b
      → (a : A) × (r ≡ ok a) × (f a ≡ ok b)
  and_then-ok (ok a) f b h = (a, refl, h)
  and_then-ok (err e) f b h = absurd (cc (h))

abbrev pub Exec {ℓ} : Type ℓ → Type ℓ → Type ℓ
Exec S A = S → Result A × S

module _ {ℓ} {S A : Type ℓ} where
  unfoldable pub pure : A → Exec S A
  pure a s = (ok a, s)

  unfoldable pub raise : Error → Exec S A
  raise e s = (err e, s)

  unfoldable pub lift : Result A → Exec S A
  lift r s = (r, s)

  unfoldable pub gets : (S → A) → Exec S A
  gets f s = (ok (f s), s)

  abbrev pub relabel_result : (Error → Error) → Result A × S → Result A × S
  relabel_result f (ok a, s) = (ok a, s)
  relabel_result f (err e, s) = (err (f e), s)

  -- `if err != nil { return fmt.Errorf(…, err) }`
  unfoldable pub relabel : (Error → Error) → Exec S A → Exec S A
  relabel f m s = relabel_result f (m s)

module _ {ℓ} {S A B : Type ℓ} where
  abbrev pub continue : Result A × S → (A → Exec S B) → Result B × S
  continue (ok a, s) f = f a s
  continue (err e, s) f = (err e, s)

  infixl 10 ◌>>=◌ ◌>>◌
  unfoldable pub ◌>>=◌ : Exec S A → (A → Exec S B) → Exec S B
  unfolding pure raise lift gets relabel
  ◌>>=◌ m f s = continue (m s) f

  abbrev pub ◌>>◌ : Exec S A → Exec S B → Exec S B
  m >> n = m >>= λ _. n

  abbrev pub recover_result : Result A × S → (A → Exec S B) → (Error → Exec S B) → Result B × S
  recover_result (ok a, s) f g = f a s
  recover_result (err e, s) f g = g e s

  -- Go on from a result or from an error.
  unfoldable pub recover : Exec S A → (A → Exec S B) → (Error → Exec S B) → Exec S B
  recover m f g s = recover_result (m s) f g

module _ {ℓ} {S T A : Type ℓ} (part : S → T) (put_back : S → T → S) where
  abbrev pub zoom_result : S → Result A × T → Result A × S
  zoom_result s (r, t) = (r, put_back s t)

  -- An action on a part of the state.
  unfoldable pub zoom : Exec T A → Exec S A
  zoom m s = zoom_result s (m (part s))

unfoldable pub modify : {S : Type 0} → (S → S) → Exec S (Unit {0})
modify f s = (ok tt, f s)
