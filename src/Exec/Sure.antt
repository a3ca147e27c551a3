-- ===== src/Exec/Sure.antt =====
-- An action that cannot fail, in whatever state it starts, with a rule for each way to build one.
use index_provider.Prelude.{◌≡◌, refl, sym, ◌∙◌}
use mathlib.Core.Path.{subst}
use index_provider.Exec.{
  Error, Result, ok, ok-injective, Exec, pure, lift, gets, relabel, modify, zoom, ◌>>=◌,
}
use index_provider.Exec.Post.{
  Post, Post-pure, Post-lift, Post-gets, Post-bind, Post-weaken, Post-relabel, Post-modify,
  Post-zoom, Post-both,
}

abbrev pub Returns : {S A : Type 0} → Exec S A → S → Type 0
Returns m s = Post m s (λ _ _. Unit {0}) (λ _ _. ⊥)

pub record Sure {S A : Type 0} (m : Exec S A) : Type 0 where
  pub at : (s : S) → Returns m s

-- What an action ensures that returns.
pub Post-Returns :
    {S A : Type 0} {Q : A → S → Type 0} {E : Error → S → Type 0} (m : Exec S A) (s : S)
    → Post m s Q E
    → Returns m s
    → Post m s Q (λ _ _. ⊥)
Post-Returns {Q} {E} m s p r =
    Post-weaken m s (Post-both Q (λ _ _. Unit {0}) E (λ _ _. ⊥) m s p r) (λ _ _ x. x.0)
      (λ _ _ x. x.1)

-- An action that returns a known value, and what comes after it.
pub Post-bind_known :
    {S A B : Type 0} {P : S → Type 0} {Q : B → S → Type 0} (v : A) (m : Exec S A) (f : A → Exec S B)
    (s : S)
    → Post m s (λ a t. (a ≡ v) × P t) (λ _ _. ⊥)
    → ((t : S) → P t → Post (f v) t Q (λ _ _. ⊥))
    → Post (m >>= f) s Q (λ _ _. ⊥)
Post-bind_known {Q} v m f s h k =
    Post-bind m f s h (λ a t q. subst (λ x. Post (f x) t Q (λ _ _. ⊥)) (sym q.0) (k t q.1))
      (λ _ _ x. x)

pub lift_known :
    {S A : Type 0} (r : Result A) (v : A) (s : S)
    → r ≡ ok v
    → Post (lift r) s (λ a t. (a ≡ v) × (t ≡ s)) (λ _ _. ⊥)
lift_known r v s h =
    Post-lift r s (λ a q. (ok-injective _ _ (sym q ∙ h), refl)) (λ x q. absurd (cc))

pub gets_known :
    {S A : Type 0} (f : S → A) (s : S) → Post (gets f) s (λ a t. (a ≡ f s) × (t ≡ s)) (λ _ _. ⊥)
gets_known f s = Post-gets f s (refl, refl)

module _ {S A : Type 0} where
  pub Sure-pure : (a : A) → Sure {S = S} (pure a)
  Sure-pure a = record { at = λ s. Post-pure a s tt }

  pub Sure-lift : (r : Result A) → ((a : A) × (r ≡ ok a)) → Sure {S = S} (lift r)
  Sure-lift r (a, p) = record { at = λ s. Post-lift r s (λ _ _. tt) (λ x q. cc (p, q)) }

  pub Sure-gets : (f : S → A) → Sure (gets f)
  Sure-gets f = record { at = λ s. Post-gets f s tt }

  pub Sure-relabel : (f : Error → Error) (m : Exec S A) → Sure m → Sure (relabel f m)
  Sure-relabel f m h = record {
    at = λ s. Post-relabel (λ _ _. ⊥) f m s (h.at s) (λ _ _ x. x) (λ _ _ x. x);
  }

pub Sure-modify : {S : Type 0} (f : S → S) → Sure (modify f)
Sure-modify f = record { at = λ s. Post-modify f s tt }

pub Sure-bind :
    {S A B : Type 0} (m : Exec S A) (f : A → Exec S B)
    → Sure m
    → ((a : A) → Sure (f a))
    → Sure (m >>= f)
Sure-bind m f h k = record { at = λ s. Post-bind m f s (h.at s) (λ a t _. (k a).at t) (λ _ _ x. x) }

pub Sure-zoom :
    {S T A : Type 0} (part : S → T) (put_back : S → T → S) (m : Exec T A)
    → ((t : T) → Returns m t)
    → Sure (zoom part put_back m)
Sure-zoom part put_back m h = record {
  at = λ s. Post-zoom part put_back m s (h (part s)) (λ _ _ x. x) (λ _ _ x. x);
}
