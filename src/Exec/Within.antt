-- ===== src/Exec/Within.antt =====
-- An action that only moves the state along a preorder, whether it returns or fails, with a rule for
-- each way to build an action.
use index_provider.Prelude.{Bool, true, false, if◌then◌else◌}
use index_provider.Exec.{
  Error, Result, Exec, pure, raise, lift, gets, relabel, recover, modify, ◌>>=◌,
}
use index_provider.Exec.Post.{
  Post, Post-pure, Post-raise, Post-lift, Post-gets, Post-bind, Post-weaken, Post-relabel,
  Post-recover, Post-modify,
}

pub record Within {S A : Type 0} (R : S → S → Type 0) (m : Exec S A) : Type 0 where
  pub at : (s : S) → Post m s (λ _ t. R s t) (λ _ t. R s t)

module _ {S : Type 0} (R : S → S → Type 0) (refl' : (s : S) → R s s)
    (trans : (a b c : S) → R a b → R b c → R a c) where
  module _ {A : Type 0} where
    pub Within-pure : (a : A) → Within R (pure a)
    Within-pure a = record { at = λ s. Post-pure a s (refl' s) }

    pub Within-raise : (x : Error) → Within R (raise {A = A} x)
    Within-raise x = record { at = λ s. Post-raise x s (refl' s) }

    pub Within-lift : (r : Result A) → Within R (lift r)
    Within-lift r = record { at = λ s. Post-lift r s (λ _ _. refl' s) (λ _ _. refl' s) }

    pub Within-gets : (f : S → A) → Within R (gets f)
    Within-gets f = record { at = λ s. Post-gets f s (refl' s) }

    pub Within-relabel : (f : Error → Error) (m : Exec S A) → Within R m → Within R (relabel f m)
    Within-relabel f m q = record {
      at = λ s. Post-relabel (λ _ t. R s t) f m s (q.at s) (λ _ _ h. h) (λ _ _ h. h);
    }

    pub Within-if :
        (b : Bool) (m n : Exec S A) → Within R m → Within R n → Within R (if b then m else n)
    Within-if true m n hm hn = hm
    Within-if false m n hm hn = hn

  after :
      {B : Type 0} (n : Exec S B) (s t : S)
      → R s t
      → Within R n
      → Post n t (λ _ u. R s u) (λ _ u. R s u)
  after n s t p q = Post-weaken n t (q.at t) (λ _ u r. trans s t u p r) (λ _ u r. trans s t u p r)

  module _ {A B : Type 0} where
    pub Within-bind :
        (m : Exec S A) (f : A → Exec S B)
        → Within R m
        → ((a : A) → Within R (f a))
        → Within R (m >>= f)
    Within-bind m f hm hf = record {
      at = λ s. Post-bind m f s (hm.at s) (λ a t p. after (f a) s t p (hf a)) (λ _ _ p. p);
    }

    pub Within-recover :
        (m : Exec S A) (f : A → Exec S B) (g : Error → Exec S B)
        → Within R m
        → ((a : A) → Within R (f a))
        → ((x : Error) → Within R (g x))
        → Within R (recover m f g)
    Within-recover m f g hm hf hg = record {
      at = λ s.
          Post-recover m f g s (hm.at s) (λ a t p. after (f a) s t p (hf a))
            (λ x t p. after (g x) s t p (hg x));
    }

  pub Within-modify : (f : S → S) → ((s : S) → R s (f s)) → Within R (modify f)
  Within-modify f h = record { at = λ s. Post-modify f s (h s) }
