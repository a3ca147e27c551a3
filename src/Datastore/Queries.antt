-- ===== src/Datastore/Queries.antt =====
-- `Query` of ipfs/go-datastore: the entries whose keys pass a test, one by one. An entry that could not
-- be read comes as an error. Nothing is changed; every entry is one of the store, and unless some
-- entry is an error, every entry of the store that passes is there.
use index_provider.Prelude.{
  ℕ, take, drop, ◌≡◌, ◌≢◌, ◌⊎◌, Bool, true, Option, none, some, List, [], ◌∷◌, All,
}
use index_provider.Exec.{Result, ok, err, Exec}
use index_provider.Exec.Post.{Post}
use index_provider.Datastore.{Datastore}

module _ {K V : Type 0} where
  abbrev pub IsEntry : (K → Bool) → (K → Option V) → Result (K × V) → Type 0
  IsEntry p m (ok (k, v)) = (p k ≡ true) × (m k ≡ some v)
  IsEntry p m (err e) = Unit {0}

  -- The key is listed, unless reading failed somewhere.
  abbrev pub Lists : K → List (Result (K × V)) → Type 0
  Lists k [] = ⊥
  Lists k (ok (j, v) ∷ rs) = (j ≡ k) ⊎ Lists k rs
  Lists k (err e ∷ rs) = Unit {0}

pub record Queries {K V : Type 0} {dec : Discrete K} (D : Datastore K V dec) : Type 0 where
  pub query : (K → Bool) → Exec D.State (List (Result (K × V)))
  pub query_lem :
      (p : K → Bool) (s : D.State)
      → Post
          (query p)
          s
          (λ rs t.
            (D.view t ≡ D.view s)
            × All (IsEntry p (D.view s)) rs
            × ((k : K) → p k ≡ true → D.view s k ≢ none → Lists k rs))
          (λ _ t. D.view t ≡ D.view s)

module _ {K V : Type 0} where
  -- The results are the entries, from the first to the last or to one that could not be read.
  abbrev pub Agrees : List (Result (K × V)) → List (K × V) → Type 0
  Agrees [] [] = Unit {0}
  Agrees [] (x ∷ xs) = ⊥
  Agrees (err e ∷ rs) xs = Unit {0}
  Agrees (ok y ∷ rs) [] = ⊥
  Agrees (ok y ∷ rs) (x ∷ xs) = (y ≡ x) × Agrees rs xs

-- `Query` in the order of the keys, with an offset and a limit. `ordered` are the entries in that order.
pub record Pages {K V : Type 0} {dec : Discrete K} (D : Datastore K V dec) : Type 0 where
  pub ordered : (K → Bool) → D.State → List (K × V)
  pub query_page : (K → Bool) → ℕ → ℕ → Exec D.State (List (Result (K × V)))
  pub query_page_lem :
      (p : K → Bool) (offset limit : ℕ) (s : D.State)
      → Post
          (query_page p offset limit)
          s
          (λ rs t.
            Agrees rs (take limit (drop offset (ordered p s)))
            × (ordered p t ≡ ordered p s)
            × (D.view t ≡ D.view s))
          (λ _ t. D.view t ≡ D.view s)
