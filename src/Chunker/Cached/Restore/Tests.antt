-- ===== src/Chunker/Cached/Restore/Tests.antt =====
-- A cache of one DAG over a listed datastore, and the theorems on restoring at it.
use index_provider.Prelude.{
  ℕ, suc, ◌+◌, ◌≤◌, ◌<◌, ◌≡◌, ◌≢◌, refl, sym, ◌∙◌, false, none, some, List, [], ◌∷◌, map, ite,
  if_pos, if_neg, ℕ_discrete, arith, lookup, length,
}
use mathlib.Core.Path.{subst}
use index_provider.Exec.{eof, ok, err, Result}
use index_provider.Exec.Post.{Post}
use index_provider.Datastore.Listed.{listed, listed_queries, query_listed, entries}
use index_provider.Schema.{Bytes}
use index_provider.Words.{word_mod}
use index_provider.Chunker.Cached.{
  Setup, Cached, Dag, block, overlap, root, key_discrete, encode_links,
}
use index_provider.Chunker.Cached.Sample.{one_dag}
use index_provider.Chunker.Cached.Overlap.{view, Counted, Faulty}
use index_provider.Chunker.Cached.Accounting.{total, Counts}
use index_provider.Chunker.Cached.Balance.{Balanced, nothing}
use index_provider.Chunker.Cached.Restore.{
  CidReader, restore_cache, parse_links, clear, is_root, new_cached_entries_chunker, len, cap,
}
use index_provider.Chunker.Cached.Restore.Links.{parse_links-encode_links}
use index_provider.Chunker.Cached.Restore.Cleared.{IsEmpty, clear-IsEmpty}
use index_provider.Chunker.Cached.Restore.Restored.{root_entries}
use index_provider.Chunker.Cached.Restore.Restart.{
  restore_cache-Balanced, new_cached_entries_chunker-Balanced,
}

abbrev setup : Setup
setup = record {
  Link = ℕ;
  link_discrete = ℕ_discrete;
  link_bytes = λ l. l ∷ [];
  store = listed (key_discrete ℕ_discrete);
  lru = one_dag;
  Iterator = List ℕ;
  dag = λ ls. (map (λ l. (l, l ∷ [])) ls, ok none);
}

abbrev read_first : Bytes → Result (ℕ × Bytes)
read_first [] = err eof
read_first (x ∷ b) = ok (x, b)

abbrev reader : CidReader setup
reader = record { read_cid = read_first; read_cid-append = λ l rest. refl; read_cid-end = refl }

-- The chunker stopped with one DAG of one block.
abbrev stopped : Cached setup
stopped = record { ds = (block 5, 5 ∷ []) ∷ (root 5, 5 ∷ []) ∷ []; cache = none }

abbrev dags : List (Dag ℕ)
dags = (5, 5 ∷ []) ∷ []

program : Unit {0}
unfolding restore_cache clear ℕ_discrete key_discrete query_listed entries lookup encode_links
program = tt

one_link : (j : ℕ) → total setup j dags < word_mod
one_link j = elim (ℕ_discrete 5 j) as (λ d. ite d 1 0 + 0 < word_mod) [
  | yes p ↦ omega arith
  | no p ↦ omega arith
]

ne_block : (j : ℕ) → ¬ (5 ≡ j) → view setup stopped (block j) ≡ none
unfolding lookup
ne_block j ne =
    if_neg (key_discrete ℕ_discrete (block 5) (block j)) (λ e. ne (cc (e))) _ _
    ∙ if_neg (key_discrete ℕ_discrete (root 5) (block j)) (λ e. cc (e)) _ _

ne_overlap : (j : ℕ) → view setup stopped (overlap j) ≡ none
unfolding lookup
ne_overlap j =
    if_neg (key_discrete ℕ_discrete (block 5) (overlap j)) (λ e. cc (e)) _ _
    ∙ if_neg (key_discrete ℕ_discrete (root 5) (overlap j)) (λ e. cc (e)) _ _

here_block : view setup stopped (block 5) ≢ none
unfolding lookup
here_block p =
    cc (sym (if_pos (key_discrete ℕ_discrete (block 5) (block 5)) refl (some (5 ∷ [])) _) ∙ p)

stopped-Counts : Counts setup (view setup stopped) (λ j. total setup j dags)
stopped-Counts j = elim (ℕ_discrete 5 j) [
  | yes p ↦
      subst (λ i. Counted setup (view setup stopped) i (total setup i dags)) p
        (subst (λ n. Counted setup (view setup stopped) 5 n) {x = 1} {y = total setup 5 dags}
          (omega (arith, if_pos {C = ℕ} (ℕ_discrete 5 5) refl 1 0)) (here_block, ne_overlap 5))
  | no p ↦
      subst (λ n. Counted setup (view setup stopped) j n) {x = 0} {y = total setup j dags}
        (omega (arith, if_neg {C = ℕ} (ℕ_discrete 5 j) p 1 0)) (ne_block j p, ne_overlap j)
]

some_room : 0 < 1
some_room = omega arith

listed_roots :
    Post
      (query_listed
        (key_discrete ℕ_discrete)
        (is_root setup reader (listed_queries (key_discrete ℕ_discrete))))
      stopped.ds
      (λ rs _.
        rs ≡ root_entries setup reader (listed_queries (key_discrete ℕ_discrete)) some_room dags)
      (λ _ _. ⊥)
unfolding program
listed_roots = record { at = refl }

restore_cache-Balanced_example :
    Post
      (restore_cache setup reader (listed_queries (key_discrete ℕ_discrete)))
      stopped
      (λ _ t.
        Balanced setup (nothing setup) t
        × (len setup reader (listed_queries (key_discrete ℕ_discrete)) t
            ≤ cap setup reader (listed_queries (key_discrete ℕ_discrete))))
      (Faulty setup)
restore_cache-Balanced_example =
    restore_cache-Balanced setup reader (listed_queries (key_discrete ℕ_discrete)) some_room dags
      stopped (tt, (λ p. cc (p)), tt) refl one_link stopped-Counts listed_roots (λ p. cc (p))

new_cached_entries_chunker-Balanced_example :
    Post
      (new_cached_entries_chunker setup reader
        (listed_queries (key_discrete ℕ_discrete))
        (ok tt)
        false)
      stopped
      (λ _ t. Balanced setup (nothing setup) t)
      (λ _ _. Unit {0})
new_cached_entries_chunker-Balanced_example =
    new_cached_entries_chunker-Balanced setup reader (listed_queries (key_discrete ℕ_discrete))
      some_room dags stopped (tt, (λ p. cc (p)), tt) refl one_link stopped-Counts listed_roots
      (ok tt) false

clear-IsEmpty_example :
    Post
      (clear setup reader (listed_queries (key_discrete ℕ_discrete)))
      stopped
      (λ _ t.
        IsEmpty setup reader (listed_queries (key_discrete ℕ_discrete)) t
        × (one_dag.contents t.cache ≡ []))
      (λ _ _. Unit {0})
clear-IsEmpty_example =
    clear-IsEmpty setup reader (listed_queries (key_discrete ℕ_discrete)) stopped

parse_links-encode_links_example :
    parse_links setup reader
      (listed_queries (key_discrete ℕ_discrete))
      (suc (length (encode_links setup (5 ∷ 7 ∷ []))))
      (encode_links setup (5 ∷ 7 ∷ []))
    ≡ ok (5 ∷ 7 ∷ [])
parse_links-encode_links_example =
    parse_links-encode_links setup reader (listed_queries (key_discrete ℕ_discrete)) (5 ∷ 7 ∷ [])
