-- ===== src/Exec/Post.antt =====
-- What an action ensures when run in a state: one predicate for a result and the state it leaves,
-- one for an error and the state it leaves. A rule for each way to build an action.
use index_provider.Prelude.{Bool, true, false, ◌≡◌, refl, if◌then◌else◌}
use index_provider.Exec.{
  Error, Result, ok, err, Exec, pure, raise, lift, gets, relabel, relabel_result, continue, ◌>>=◌,
  recover, recover_result, zoom, zoom_result, modify,
}

abbrev pub Outcome {ℓ} :
    {S A : Type ℓ} → Result A × S → (A → S → Type ℓ) → (Error → S → Type ℓ) → Type ℓ
Outcome (ok a, s) Q E = Q a s
Outcome (err e, s) Q E = E e s

pub record Post {ℓ} {S A : Type ℓ} (m : Exec S A) (s : S) (Q : A → S → Type ℓ)
    (E : Error → S → Type ℓ) : Type ℓ where
  pub at : Outcome (m s) Q E

module _ {ℓ} {S A : Type ℓ} {Q : A → S → Type ℓ} {E : Error → S → Type ℓ} where
  pub Post-pure : (a : A) (s : S) → Q a s → Post (pure a) s Q E
  unfolding pure
  Post-pure a s h = record { at = h }

  pub Post-raise : (e : Error) (s : S) → E e s → Post (raise e) s Q E
  unfolding raise
  Post-raise e s h = record { at = h }

  pub Post-gets : (f : S → A) (s : S) → Q (f s) s → Post (gets f) s Q E
  unfolding gets
  Post-gets f s h = record { at = h }

  pub Post-lift :
      (r : Result A) (s : S)
      → ((a : A) → r ≡ ok a → Q a s)
      → ((e : Error) → r ≡ err e → E e s)
      → Post (lift r) s Q E
  unfolding lift
  Post-lift (ok a) s q e = record { at = q a refl }
  Post-lift (err x) s q e = record { at = e x refl }

  pub Post-if :
      (b : Bool) (m n : Exec S A) (s : S)
      → (b ≡ true → Post m s Q E)
      → (b ≡ false → Post n s Q E)
      → Post (if b then m else n) s Q E
  Post-if true m n s hm hn = hm refl
  Post-if false m n s hm hn = hn refl

module _ {ℓ} {S A : Type ℓ} {Q P : A → S → Type ℓ} {E F : Error → S → Type ℓ} where
  weaken_outcome :
      (r : Result A × S)
      → Outcome r P F
      → ((a : A) (s : S) → P a s → Q a s)
      → ((e : Error) (s : S) → F e s → E e s)
      → Outcome r Q E
  weaken_outcome (ok a, s) h q e = q a s h
  weaken_outcome (err x, s) h q e = e x s h

  pub Post-weaken :
      (m : Exec S A) (s : S)
      → Post m s P F
      → ((a : A) (s : S) → P a s → Q a s)
      → ((e : Error) (s : S) → F e s → E e s)
      → Post m s Q E
  Post-weaken m s h q e = record { at = weaken_outcome (m s) h.at q e }

module _ {ℓ} {S A : Type ℓ} {Q P : A → S → Type ℓ} {F : Error → S → Type ℓ} (E : Error → S → Type ℓ)
    (f : Error → Error) where
  relabel_outcome :
      (r : Result A × S)
      → Outcome r P F
      → ((a : A) (s : S) → P a s → Q a s)
      → ((e : Error) (s : S) → F e s → E (f e) s)
      → Outcome (relabel_result f r) Q E
  relabel_outcome (ok a, s) h q e = q a s h
  relabel_outcome (err x, s) h q e = e x s h

  pub Post-relabel :
      (m : Exec S A) (s : S)
      → Post m s P F
      → ((a : A) (s : S) → P a s → Q a s)
      → ((e : Error) (s : S) → F e s → E (f e) s)
      → Post (relabel f m) s Q E
  unfolding relabel
  Post-relabel m s h q e = record { at = relabel_outcome (m s) h.at q e }

module _ {ℓ} {S A B : Type ℓ} {P : A → S → Type ℓ} {Q : B → S → Type ℓ}
    {E F : Error → S → Type ℓ} where
  continue_outcome :
      (r : Result A × S) (f : A → Exec S B)
      → Outcome r P F
      → ((a : A) (s : S) → P a s → Post (f a) s Q E)
      → ((e : Error) (s : S) → F e s → E e s)
      → Outcome (continue r f) Q E
  continue_outcome (ok a, s) f h q e = (q a s h).at
  continue_outcome (err x, s) f h q e = e x s h

  -- The rule for `m; f`: what `m` ensures is what the rest may use.
  pub Post-bind :
      (m : Exec S A) (f : A → Exec S B) (s : S)
      → Post m s P F
      → ((a : A) (s : S) → P a s → Post (f a) s Q E)
      → ((e : Error) (s : S) → F e s → E e s)
      → Post (m >>= f) s Q E
  unfolding ◌>>=◌
  Post-bind m f s h q e = record { at = continue_outcome (m s) f h.at q e }

  recover_outcome :
      (r : Result A × S) (f : A → Exec S B) (g : Error → Exec S B)
      → Outcome r P F
      → ((a : A) (s : S) → P a s → Post (f a) s Q E)
      → ((e : Error) (s : S) → F e s → Post (g e) s Q E)
      → Outcome (recover_result r f g) Q E
  recover_outcome (ok a, s) f g h q e = (q a s h).at
  recover_outcome (err x, s) f g h q e = (e x s h).at

  pub Post-recover :
      (m : Exec S A) (f : A → Exec S B) (g : Error → Exec S B) (s : S)
      → Post m s P F
      → ((a : A) (s : S) → P a s → Post (f a) s Q E)
      → ((e : Error) (s : S) → F e s → Post (g e) s Q E)
      → Post (recover m f g) s Q E
  unfolding recover
  Post-recover m f g s h q e = record { at = recover_outcome (m s) f g h.at q e }

module _ {ℓ} {S A B : Type ℓ} {Q : B → S → Type ℓ} {E : Error → S → Type ℓ} where
  -- The rest of the block may use that `r` is the result `a`.
  pub Post-lift-bind :
      (r : Result A) (f : A → Exec S B) (s : S)
      → ((a : A) → r ≡ ok a → Post (f a) s Q E)
      → ((e : Error) → r ≡ err e → E e s)
      → Post (lift r >>= f) s Q E
  unfolding ◌>>=◌
  Post-lift-bind (ok a) f s q e = record { at = (q a refl).at }
  Post-lift-bind (err x) f s q e = record { at = e x refl }

  pub Post-gets-bind :
      (g : S → A) (f : A → Exec S B) (s : S) → Post (f (g s)) s Q E → Post (gets g >>= f) s Q E
  unfolding ◌>>=◌
  Post-gets-bind g f s h = record { at = h.at }

module _ {ℓ} {S T A : Type ℓ} (part : S → T) (put_back : S → T → S) {P : A → T → Type ℓ}
    {F : Error → T → Type ℓ} where
  zoom_outcome :
      (Q : A → S → Type ℓ) (E : Error → S → Type ℓ) (s : S) (r : Result A × T)
      → Outcome r P F
      → ((a : A) (t : T) → P a t → Q a (put_back s t))
      → ((e : Error) (t : T) → F e t → E e (put_back s t))
      → Outcome (zoom_result part put_back s r) Q E
  zoom_outcome Q E s (ok a, t) h q e = q a t h
  zoom_outcome Q E s (err x, t) h q e = e x t h

  pub Post-zoom :
      {Q : A → S → Type ℓ} {E : Error → S → Type ℓ} (m : Exec T A) (s : S)
      → Post m (part s) P F
      → ((a : A) (t : T) → P a t → Q a (put_back s t))
      → ((e : Error) (t : T) → F e t → E e (put_back s t))
      → Post (zoom part put_back m) s Q E
  unfolding zoom
  Post-zoom {Q} {E} m s h q e = record { at = zoom_outcome Q E s (m (part s)) h.at q e }

module _ {ℓ} {S A : Type ℓ} (Q P : A → S → Type ℓ) (E F : Error → S → Type ℓ) where
  both_outcome :
      (r : Result A × S)
      → Outcome r Q E
      → Outcome r P F
      → Outcome r (λ a s. Q a s × P a s) (λ e s. E e s × F e s)
  both_outcome (ok a, s) x y = (x, y)
  both_outcome (err e, s) x y = (x, y)

  pub Post-both :
      (m : Exec S A) (s : S)
      → Post m s Q E
      → Post m s P F
      → Post m s (λ a s. Q a s × P a s) (λ e s. E e s × F e s)
  Post-both m s x y = record { at = both_outcome (m s) x.at y.at }

module _ {S A : Type 0} (Q : A → S → Type 0) (E : Error → S → Type 0) (H : Type 0) where
  outcome_if :
      (r : Result A × S) → (H → Outcome r Q E) → Outcome r (λ a s. H → Q a s) (λ e s. H → E e s)
  outcome_if (ok a, s) f = f
  outcome_if (err e, s) f = f

  -- What an action ensures under a hypothesis on the state that it starts in.
  pub Post-if_then :
      (m : Exec S A) (s : S) → (H → Post m s Q E) → Post m s (λ a t. H → Q a t) (λ e t. H → E e t)
  Post-if_then m s f = record { at = outcome_if (m s) (λ h. (f h).at) }

pub Post-modify :
    {S : Type 0} {Q : Unit {0} → S → Type 0} {E : Error → S → Type 0} (f : S → S) (s : S)
    → Q tt (f s)
    → Post (modify f) s Q E
unfolding modify
Post-modify f s h = record { at = h }

any_outcome {ℓ} : {S A : Type ℓ} (r : Result A × S) → Outcome r (λ _ _. Unit {ℓ}) (λ _ _. Unit {ℓ})
any_outcome (ok a, s) = tt
any_outcome (err e, s) = tt

pub Post-any {ℓ} :
    {S A : Type ℓ} (m : Exec S A) (s : S) → Post m s (λ _ _. Unit {ℓ}) (λ _ _. Unit {ℓ})
Post-any m s = record { at = any_outcome (m s) }

unless_outcome :
    {S A : Type 0} (Q : A → S → Type 0) (E : Error → S → Type 0) (R : Type 0) (r : Result A × S)
    → Outcome r Q E
    → (R → Outcome r (λ _ _. Unit {0}) (λ _ _. ⊥))
    → Outcome r Q (λ _ _. R → ⊥)
unless_outcome Q E R (ok a, s) h f = h
unless_outcome Q E R (err x, s) h f = f

-- An action that cannot fail where `R` holds fails only where it does not.
pub Post-unless :
    {S A : Type 0} {Q : A → S → Type 0} {E : Error → S → Type 0} (R : Type 0) (m : Exec S A) (s : S)
    → Post m s Q E
    → (R → Post m s (λ _ _. Unit) (λ _ _. ⊥))
    → Post m s Q (λ _ _. R → ⊥)
Post-unless {Q} {E} R m s h f = record { at = unless_outcome Q E R (m s) h.at (λ r. (f r).at) }
