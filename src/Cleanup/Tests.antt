-- ===== src/Cleanup/Tests.antt =====
-- A listed datastore with batches, and the theorem on deleting a prefix at it.
use index_provider.Prelude.{
  ◌≡◌, refl, sym, ◌∙◌, inl, inr, Bool, true, false, none, List, [], ◌∷◌, ◌==◌, ◌&&◌, lookup, erase,
  lookup-erase, if_pos, if_neg, ite, ℕ_discrete,
}
use index_provider.Exec.{ok}
use index_provider.Exec.Post.{Post}
use index_provider.Datastore.Listed.{listed, listed_queries, query_listed, entries}
use index_provider.Schema.{Bytes}
use index_provider.Engine.Keys.{bytes_discrete}
use index_provider.Cleanup.{Setup, In, Batches, delete_prefix}
use index_provider.Cleanup.Whole.{Cleaned, delete_prefix-Cleaned}

abbrev Entries : Type 0
Entries = List (Bytes × Bytes)

abbrev erase_all : List Bytes → Entries → Entries
erase_all [] s = s
erase_all (k ∷ ks) s = erase_all ks (erase bytes_discrete k s)

lookup-stays :
    (j : Bytes) (ks : List Bytes) (s : Entries)
    → lookup bytes_discrete j s ≡ none
    → lookup bytes_discrete j (erase_all ks s) ≡ none
lookup-stays j [] s h = h
lookup-stays j (k ∷ ks) s h =
    lookup-stays j ks (erase bytes_discrete k s)
      (lookup-erase bytes_discrete k j s ∙ either (bytes_discrete k j))
  where
    either : (d : Dec (k ≡ j)) → ite d none (lookup bytes_discrete j s) ≡ none
    either (yes _) = refl
    either (no _) = h

lookup-gone :
    (j : Bytes) (ks : List Bytes) (s : Entries)
    → In j ks
    → lookup bytes_discrete j (erase_all ks s) ≡ none
lookup-gone j [] s h = absurd h
lookup-gone j (k ∷ ks) s (inl h) = lookup-stays j ks (erase bytes_discrete k s) (
    lookup-erase bytes_discrete k j s
    ∙ if_pos (bytes_discrete k j) h none (lookup bytes_discrete j s))
lookup-gone j (k ∷ ks) s (inr h) = lookup-gone j ks (erase bytes_discrete k s) h

lookup-kept :
    (j : Bytes) (ks : List Bytes) (s : Entries)
    → ¬ In j ks
    → lookup bytes_discrete j (erase_all ks s) ≡ lookup bytes_discrete j s
lookup-kept j [] s h = refl
lookup-kept j (k ∷ ks) s h =
    lookup-kept j ks (erase bytes_discrete k s) (λ x. h (inr x))
    ∙ lookup-erase bytes_discrete k j s
    ∙ if_neg (bytes_discrete k j) (λ x. h (inl x)) none (lookup bytes_discrete j s)

abbrev batches : Batches {V = Bytes} (listed bytes_discrete)
batches = record {
  Batch = List Bytes;
  pending = λ b. b;
  new_batch = λ s. (ok [], s);
  new_batch_lem = λ s. record { at = (refl, refl) };
  delete_in = λ k b. ok (k ∷ b);
  delete_in_lem = λ k b b' h. sym (cc (h));
  commit = λ b s. (ok b, erase_all b s);
  commit_lem = λ b s. record {
    at =
        (record { gone = λ k h. lookup-gone k b s h; kept = λ k h. lookup-kept k b s h }, inr refl);
  };
}

abbrev starts : Bytes → Bytes → Bool
starts [] k = true
starts (x ∷ p) [] = false
starts (x ∷ p) (y ∷ k) = (x == y) && starts p k

abbrev none_left : Bytes → Bool
none_left [] = true
none_left (x ∷ k) = false

abbrev setup : Setup
setup = record {
  Key = Bytes;
  Value = Bytes;
  key_discrete = bytes_discrete;
  store = listed bytes_discrete;
  queries = listed_queries bytes_discrete;
  batches = batches;
  is_empty = none_left;
  under = starts;
}

-- Two records under the prefix 1, and another one.
abbrev full : Entries
full = (1 ∷ 2 ∷ [], []) ∷ (3 ∷ [], []) ∷ (1 ∷ 4 ∷ [], []) ∷ []

delete_ones : delete_prefix setup (1 ∷ []) full ≡ (ok 2, (3 ∷ [], []) ∷ [])
unfolding delete_prefix query_listed entries lookup erase bytes_discrete ℕ_discrete
delete_ones = refl

delete_prefix-Cleaned_example :
    Post
      (delete_prefix setup (1 ∷ []))
      full
      (λ _ t.
        Cleaned setup (1 ∷ []) full t
        × ((k : Bytes)
            → starts (1 ∷ []) k ≡ false
            → lookup bytes_discrete k t ≡ lookup bytes_discrete k full))
      (λ _ t.
        (k : Bytes)
        → starts (1 ∷ []) k ≡ false
        → lookup bytes_discrete k t ≡ lookup bytes_discrete k full)
delete_prefix-Cleaned_example = delete_prefix-Cleaned setup (1 ∷ []) full
