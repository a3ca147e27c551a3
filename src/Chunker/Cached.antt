-- ===== src/Chunker/Cached.antt =====
-- engine/chunker/cached_chunker.go: `CachedEntriesChunker` over a datastore, an LRU cache
-- (golang/groupcache) and an inner chunker, which are parameters.
pub mod Overlap
pub mod Counts
pub mod Release
pub mod Accounting
pub mod Balance
pub mod Chunks
pub mod Again
pub mod Restore
pub mod Sample
mod Tests
use index_provider.Prelude.{
  ℕ, ◌+◌, ◌-◌, ◌*◌, ◌%◌, ◌≤◌, ◌<◌, ◌≡◌, ◌≢◌, Bool, true, false, Option, none, some, List, [], ◌∷◌,
  ◌++◌, map, ltb, ◌==◌, if◌then◌else◌, length,
}
use index_provider.Exec.{
  Error, not_found, Result, ok, err, Exec, pure, raise, lift, gets, ◌>>=◌, ◌>>◌, recover, zoom,
  modify,
}
use index_provider.Datastore.{Datastore}
use index_provider.Schema.{Bytes}
use index_provider.Words.{word_mod, put_uint64, uint64}

-- `dsKey`, and its children under "overlap" and "root".
pub data Key (Link : Type 0) : Type 0 where
  block : Link → Key Link
  overlap : Link → Key Link
  root : Link → Key Link

unfoldable pub key_discrete : {Link : Type 0} → Discrete Link → Discrete (Key Link)
key_discrete dec = hlevel dec

-- A cached DAG: its root, and the links that were stored to make it.
abbrev pub Dag : Type 0 → Type 0
Dag Link = Link × List Link

-- `lru.Cache`: `add` and `clear` return the entries that they evict, in the order in which the cache
-- calls `OnEvicted`. `contents` are the entries, the most recently used first. A new entry is put in
-- front and the oldest goes if there are more than `max_entries`, unless that is 0; an entry whose
-- key is there gets the new value.
pub record Lru (Link : Type 0) : Type 1 where
  pub State : Type 0
  pub contents : State → List (Dag Link)
  pub max_entries : ℕ
  pub add : Link → List Link → State → State × List (Dag Link)
  pub clear : State → State × List (Dag Link)
  pub add_new :
      (l : Link) (ls : List Link) (s : State)
      → ((d : Link × List Link) (before after : List (Dag Link))
          → contents s ≡ before ++ d ∷ after
          → d.0 ≢ l)
      → contents (add l ls s).0 ++ (add l ls s).1 ≡ (l, ls) ∷ contents s
  pub add_again :
      (l : Link) (ls old : List Link) (before after : List (Dag Link)) (s : State)
      → contents s ≡ before ++ (l, old) ∷ after
      → (contents (add l ls s).0 ≡ (l, ls) ∷ before ++ after) × ((add l ls s).1 ≡ [])
  pub add_bounded :
      (l : Link) (ls : List Link) (s : State)
      → length (contents s) ≤ max_entries
      → 0 < max_entries
      → length (contents (add l ls s).0) ≤ max_entries
  pub clear_lem : (s : State) → (contents (clear s).0 ≡ []) × ((clear s).1 ≡ contents s)

pub record Setup : Type 1 where
  pub Link : Type 0
  pub link_discrete : Discrete Link
  pub link_bytes : Link → Bytes
  pub store : Datastore (Key Link) Bytes (key_discrete link_discrete)
  pub lru : Lru Link
  pub Iterator : Type 0
  -- The inner `EntriesChunker`: the blocks that it stores through the link system, in order, and what
  -- it returns if every one of these stores succeeds.
  pub dag : Iterator → List (Link × Bytes) × Result (Option Link)

module _ (G : Setup) where
  open G use {Link, link_bytes, store as D, lru, Iterator, dag}

  pub record Cached : Type 0 where
    pub ds : D.State
    pub cache : lru.State

  abbrev pub with_ds : Cached → D.State → Cached
  with_ds e d = record e { ds = d }

  unfoldable pub on_ds : {A : Type 0} → Exec D.State A → Exec Cached A
  unfolding zoom
  on_ds = zoom (λ e. e.ds) with_ds

  -- The count under the overlap key, or `none` if there is none. It is written here only, as eight
  -- bytes; what Go would keep of a longer value after the first eight is dropped.
  unfoldable pub parse_count : Option Bytes → Result (Option ℕ)
  parse_count none = ok none
  parse_count (some b) = elim (uint64 b) [ ok n ↦ ok (some n) | err e ↦ err e ]

  unfoldable pub read_overlap : Link → Exec Cached (Option ℕ)
  unfolding ◌>>=◌ on_ds parse_count
  read_overlap l = do o ← on_ds (D.get (overlap l)); lift (parse_count o)

  unfoldable pub next_count : Option ℕ → ℕ
  next_count none = 1
  next_count (some n) = (n + 1) % word_mod

  unfoldable pub increment_overlap : Link → Exec Cached (Unit {0})
  unfolding ◌>>=◌ on_ds read_overlap next_count
  increment_overlap l = do o ← read_overlap l; on_ds (D.put (overlap l) (put_uint64 (next_count o)))

  unfoldable pub store_decremented : Link → ℕ → Exec Cached (Unit {0})
  unfolding on_ds
  store_decremented l count =
      if ltb count 1
      then on_ds (D.delete (overlap l))
      else on_ds (D.put (overlap l) (put_uint64 count))

  unfoldable pub decrement_from : Link → Option ℕ → Exec Cached (Unit {0})
  unfolding store_decremented
  decrement_from l none = pure tt
  decrement_from l (some n) = store_decremented l ((n + word_mod - 1) % word_mod)

  unfoldable pub decrement_overlap : Link → Exec Cached (Unit {0})
  unfolding ◌>>=◌ read_overlap decrement_from
  decrement_overlap l = do o ← read_overlap l; decrement_from l o

  unfoldable pub count_or_zero : Option ℕ → ℕ
  count_or_zero none = 0
  count_or_zero (some n) = n

  unfoldable pub count_overlap : Link → Exec Cached ℕ
  unfolding ◌>>=◌ read_overlap count_or_zero
  count_overlap l = do o ← read_overlap l; pure (count_or_zero o)

  -- The committer of `storageWriteOpener`.
  unfoldable pub commit : Link → Bytes → Exec Cached (Unit {0})
  unfolding ◌>>=◌ on_ds increment_overlap
  commit l b = do
    exists ← on_ds (D.has (block l))
    if exists then increment_overlap l else on_ds (D.put (block l) b)

  -- The body of the loop in `onEvicted`.
  unfoldable pub release : Link → Exec Cached (Unit {0})
  unfolding ◌>>=◌ on_ds count_overlap decrement_overlap
  release l = do
    count ← count_overlap l
    if count == 0 then on_ds (D.delete (block l)) else decrement_overlap l

  unfoldable pub release_all : List Link → Exec Cached (Unit {0})
  unfolding ◌>>=◌ release
  release_all [] = pure tt
  release_all (l ∷ ls) = do release l; release_all ls

  unfoldable pub on_evicted : Dag Link → Exec Cached (Unit {0})
  unfolding ◌>>=◌ on_ds release_all
  on_evicted (r, ls) = do release_all ls; on_ds (D.delete (root r))

  -- The calls of `OnEvicted` that one operation of the cache makes. An error is kept in
  -- `onEvictedErr`, over an earlier one, and does not stop the calls that follow.
  unfoldable pub evict_all : List (Dag Link) → Option Error → Exec Cached (Unit {0})
  unfolding recover on_evicted
  evict_all [] none = pure tt
  evict_all [] (some e) = raise e
  evict_all (d ∷ ds) last =
      recover (on_evicted d) (λ _. evict_all ds last) (λ e. evict_all ds (some e))

  -- `performOnCache`
  unfoldable pub perform_on_cache :
      (lru.State → lru.State × List (Dag Link)) → Exec Cached (Unit {0})
  unfolding evict_all
  perform_on_cache action e =
      let r = action e.cache in evict_all r.1 none (record e { cache = r.0 })

  -- The stores that the inner chunker makes.
  unfoldable pub commit_all : List (Link × Bytes) → Exec Cached (Unit {0})
  unfolding ◌>>=◌ commit
  commit_all [] = pure tt
  commit_all ((l, b) ∷ bs) = do commit l b; commit_all bs

  abbrev pub links_of : List (Link × Bytes) → List Link
  links_of = map (λ p. p.0)

  unfoldable pub encode_links : List Link → Bytes
  encode_links [] = []
  encode_links (l ∷ ls) = link_bytes l ++ encode_links ls

  unfoldable pub remember : Option Link → List Link → Exec Cached (Option Link)
  unfolding ◌>>=◌ perform_on_cache on_ds encode_links
  remember none ls = pure none
  remember (some r) ls = do
    perform_on_cache (lru.add r ls)
    on_ds (D.put (root r) (encode_links ls))
    on_ds D.sync
    pure (some r)

  unfoldable pub chunk : Iterator → Exec Cached (Option Link)
  unfolding ◌>>=◌ commit_all remember
  chunk it = do commit_all (dag it).0; r ← lift (dag it).1; remember r (links_of (dag it).0)

  unfoldable pub get_raw_cached_chunk : Link → Exec Cached (Option Bytes)
  unfolding on_ds
  get_raw_cached_chunk l = on_ds (D.get (block l))
