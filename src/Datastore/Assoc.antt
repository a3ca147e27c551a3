-- ===== src/Datastore/Assoc.antt =====
-- A datastore that never fails, kept as a function: the promises of the interface can be met.
use index_provider.Prelude.{◌≡◌, ◌≢◌, refl, Bool, true, false, Option, none, some}
use index_provider.Exec.{ok}
use index_provider.Datastore.{Datastore, update}

module _ {V : Type 0} where
  abbrev pub is_some : Option V → Bool
  is_some none = false
  is_some (some v) = true

  pub is_some_lem :
      {A : Type 0} {a : A} (o : Option V)
      → (is_some o ≡ true → o ≢ none) × (is_some o ≡ false → o ≡ none) × (a ≡ a)
  is_some_lem none = (λ p. absurd (cc), λ _. refl, refl)
  is_some_lem (some v) = (λ _ p. cc, λ p. absurd (cc), refl)

module _ {K V : Type 0} (dec : Discrete K) where
  abbrev pub memory : Datastore K V dec
  memory = record {
    State = K → Option V;
    view = λ s. s;
    get = λ k s. (ok (s k), s);
    put = λ k v s. (ok tt, update dec s k (some v));
    delete = λ k s. (ok tt, update dec s k none);
    has = λ k s. (ok (is_some (s k)), s);
    sync = λ s. (ok tt, s);
    get_lem = λ k s. record { at = (refl, refl) };
    put_lem = λ k v s. record { at = refl };
    delete_lem = λ k s. record { at = refl };
    has_lem = λ k s. record { at = is_some_lem (s k) };
    sync_lem = λ s. record { at = refl };
    Reliable = Unit;
    get_reliable = λ k s _. record { at = tt };
    put_reliable = λ k v s _. record { at = tt };
    delete_reliable = λ k s _. record { at = tt };
    has_reliable = λ k s _. record { at = tt };
    sync_reliable = λ s _. record { at = tt };
  }
