-- ===== src/Datastore.antt =====
-- The datastore that the code is given (`datastore.Datastore` of ipfs/go-datastore), a parameter of
-- the development: its operations, each of which may fail, and what is relied on of them. `view` is
-- what a state of the store holds. A read changes nothing, and
-- reports `ErrNotFound` only of a key that is not there; a write or a delete that reports success
-- has been done, and one that fails has been done whole or not at all.
pub mod Assoc
pub mod Queries
pub mod Listed
use index_provider.Prelude.{◌≡◌, ◌≢◌, ◌⊎◌, Bool, true, false, Option, none, some, ite}
use index_provider.Exec.{not_found, Exec}
use index_provider.Exec.Post.{Post}

module _ {ℓ} {K V : Type ℓ} (dec : Discrete K) where
  abbrev pub update : (K → Option V) → K → Option V → K → Option V
  update m k o j = ite (dec k j) o (m j)

pub record Datastore (K V : Type 0) (dec : Discrete K) : Type 1 where
  pub State : Type 0
  pub view : State → K → Option V
  -- `none` is `datastore.ErrNotFound`
  pub get : K → Exec State (Option V)
  pub put : K → V → Exec State (Unit {0})
  pub delete : K → Exec State (Unit {0})
  pub has : K → Exec State Bool
  pub sync : Exec State (Unit {0})
  pub get_lem :
      (k : K) (s : State)
      → Post
          (get k)
          s
          (λ o t. (o ≡ view s k) × (view t ≡ view s))
          (λ e t. (e ≢ not_found) × (view t ≡ view s))
  pub put_lem :
      (k : K) (v : V) (s : State)
      → Post
          (put k v)
          s
          (λ _ t. view t ≡ update dec (view s) k (some v))
          (λ e t. (view t ≡ view s) ⊎ (view t ≡ update dec (view s) k (some v)))
  pub delete_lem :
      (k : K) (s : State)
      → Post
          (delete k)
          s
          (λ _ t. view t ≡ update dec (view s) k none)
          (λ e t. (view t ≡ view s) ⊎ (view t ≡ update dec (view s) k none))
  pub has_lem :
      (k : K) (s : State)
      → Post
          (has k)
          s
          (λ b t. (b ≡ true → view s k ≢ none) × (b ≡ false → view s k ≡ none) × (view t ≡ view s))
          (λ e t. view t ≡ view s)
  pub sync_lem : (s : State) → Post sync s (λ _ t. view t ≡ view s) (λ e t. view t ≡ view s)
  -- No operation fails.
  pub Reliable : Type 0
  pub get_reliable : (k : K) (s : State) → Reliable → Post (get k) s (λ _ _. Unit) (λ _ _. ⊥)
  pub put_reliable :
      (k : K) (v : V) (s : State) → Reliable → Post (put k v) s (λ _ _. Unit) (λ _ _. ⊥)
  pub delete_reliable : (k : K) (s : State) → Reliable → Post (delete k) s (λ _ _. Unit) (λ _ _. ⊥)
  pub has_reliable : (k : K) (s : State) → Reliable → Post (has k) s (λ _ _. Unit) (λ _ _. ⊥)
  pub sync_reliable : (s : State) → Reliable → Post sync s (λ _ _. Unit) (λ _ _. ⊥)
