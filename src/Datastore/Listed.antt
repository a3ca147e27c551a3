-- ===== src/Datastore/Listed.antt =====
-- A datastore in memory that never fails, kept as a list of entries, so that it can be queried.
use mathlib.Core.Path.{subst}
use index_provider.Prelude.{
  ℕ, take, drop, map, if◌then◌else◌, ◌≡◌, ◌≢◌, refl, sym, ◌∙◌, inl, inr, Bool, true, false,
  Bool-cases, if_neg, Option, none, some, List, [], ◌∷◌, All, lookup, insert, erase, lookup-insert,
  lookup-erase,
}
use index_provider.Exec.{Result, ok, Exec}
use index_provider.Exec.Post.{Post}
use index_provider.Datastore.{Datastore}
use index_provider.Datastore.Assoc.{is_some, is_some_lem}
use index_provider.Datastore.Queries.{Queries, IsEntry, Lists, Pages, Agrees}

module _ {K V : Type 0} (dec : Discrete K) where
  abbrev pub holds : List (K × V) → K → Option V
  holds s k = lookup dec k s

  abbrev pub listed : Datastore K V dec
  listed = record {
    State = List (K × V);
    view = holds;
    get = λ k s. (ok (holds s k), s);
    put = λ k v s. (ok tt, insert dec k v s);
    delete = λ k s. (ok tt, erase dec k s);
    has = λ k s. (ok (is_some (holds s k)), s);
    sync = λ s. (ok tt, s);
    get_lem = λ k s. record { at = (refl, refl) };
    put_lem = λ k v s. record { at = λ i j. lookup-insert dec k j v s i };
    delete_lem = λ k s. record { at = λ i j. lookup-erase dec k j s i };
    has_lem = λ k s. record { at = is_some_lem (holds s k) };
    sync_lem = λ s. record { at = refl };
    Reliable = Unit;
    get_reliable = λ k s _. record { at = tt };
    put_reliable = λ k v s _. record { at = tt };
    delete_reliable = λ k s _. record { at = tt };
    has_reliable = λ k s _. record { at = tt };
    sync_reliable = λ s _. record { at = tt };
  }

  -- The entry of a key that is listed, and the others.
  abbrev entry : K → Option V → List (Result (K × V)) → List (Result (K × V))
  entry k none rest = rest
  entry k (some v) rest = ok (k, v) ∷ rest

  unfoldable pub entries : (K → Bool) → (K → Option V) → List (K × V) → List (Result (K × V))
  entries p m [] = []
  entries p m ((k, v) ∷ s) = elim (p k) [
    | true ↦ entry k (m k) (entries p m s)
    | false ↦ entries p m s
  ]

  entry_right :
      (p : K → Bool) (m : K → Option V) (k : K) (o : Option V) (rest : List (Result (K × V)))
      → p k ≡ true
      → m k ≡ o
      → All (IsEntry p m) rest
      → All (IsEntry p m) (entry k o rest)
  entry_right p m k none rest e q h = h
  entry_right p m k (some w) rest e q h = ((e, q), h)

  entries_right :
      (p : K → Bool) (m : K → Option V) (s : List (K × V)) → All (IsEntry p m) (entries p m s)
  unfolding entries
  entries_right p m [] = tt
  entries_right p m ((k, v) ∷ s) = elim (Bool-cases (p k)) [
    | inl e ↦ rw (e, entries) (entry_right p m k (m k) (entries p m s) e refl (entries_right p m s))
    | inr e ↦ rw (e, entries) (entries_right p m s)
  ]

  entry_there :
      (k : K) (o : Option V) (rest : List (Result (K × V))) → o ≢ none → Lists k (entry k o rest)
  entry_there k none rest n = absurd (n refl)
  entry_there k (some w) rest n = inl refl

  entry_later :
      (k j : K) (o : Option V) (rest : List (Result (K × V)))
      → Lists k rest
      → Lists k (entry j o rest)
  entry_later k j none rest h = h
  entry_later k j (some w) rest h = inr h

  entries_all :
      (p : K → Bool) (m : K → Option V) (k : K) (s : List (K × V))
      → p k ≡ true
      → m k ≢ none
      → lookup dec k s ≢ none
      → Lists k (entries p m s)
  unfolding entries lookup
  entries_all p m k [] h n l = absurd (l refl)
  entries_all p m k ((j, v) ∷ s) h n l = elim (dec j k) [
    | yes q ↦
        subst (λ x. Lists k (entries p m ((x, v) ∷ s))) (sym q)
          (rw (h, entries) (entry_there k (m k) (entries p m s) n))
    | no q ↦
        let rest =
          entries_all p m k s h n (λ e. l (if_neg (dec j k) q (some v) (lookup dec k s) ∙ e)) in
        elim (Bool-cases (p j)) [
          | inl e ↦ rw (e, entries) (entry_later k j (m j) (entries p m s) rest)
          | inr e ↦ rw (e, entries) rest
        ]
  ]

  unfoldable pub query_listed : (K → Bool) → Exec (List (K × V)) (List (Result (K × V)))
  unfolding entries
  query_listed p s = (ok (entries p (holds s) s), s)

  pub query_listed_lem :
      (p : K → Bool) (s : List (K × V))
      → Post
          (query_listed p)
          s
          (λ rs t.
            (holds t ≡ holds s)
            × All (IsEntry p (holds s)) rs
            × ((k : K) → p k ≡ true → holds s k ≢ none → Lists k rs))
          (λ _ t. holds t ≡ holds s)
  unfolding query_listed
  query_listed_lem p s = record {
    at = (refl, entries_right p (holds s) s, λ k h n. entries_all p (holds s) k s h n n);
  }

  abbrev pub listed_queries : Queries listed
  listed_queries = record { query = query_listed; query_lem = query_listed_lem }

  unfoldable pub pick : (K → Bool) → List (K × V) → List (K × V)
  pick p [] = []
  pick p ((k, v) ∷ s) = let rest = pick p s in if p k then (k, v) ∷ rest else rest

  all_read : (xs : List (K × V)) → Agrees (map (λ x. ok x) xs) xs
  all_read [] = tt
  all_read (x ∷ xs) = (refl, all_read xs)

  pub page_lem :
      (p : K → Bool) (offset limit : ℕ) (s : List (K × V))
      → Agrees
          (map (λ x. ok x) (take limit (drop offset (pick p s))))
          (take limit (drop offset (pick p s)))
  page_lem p offset limit s = all_read (take limit (drop offset (pick p s)))

  abbrev pub listed_pages : Pages listed
  listed_pages = record {
    ordered = pick;
    query_page =
        λ p offset limit s. (ok (map (λ x. ok x) (take limit (drop offset (pick p s)))), s);
    query_page_lem = λ p offset limit s. record { at = (page_lem p offset limit s, refl, refl) };
  }
