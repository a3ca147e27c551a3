-- ===== src/Chunker/Cached/Restore.antt =====
-- engine/chunker/cached_chunker.go: clearing the cache, restoring it from the datastore, and
-- `NewCachedEntriesChunker`, from a state whose cache is empty. Contexts are left out.
pub mod Cleared
pub mod Links
pub mod Adding
pub mod Restored
pub mod Restart
mod Tests
use index_provider.Prelude.{
  ℕ, zero, suc, ◌+◌, ◌<◌, ◌≡◌, Bool, true, false, Option, none, some, List, [], ◌∷◌, ◌++◌, length,
  String,
}
use index_provider.Exec.{
  Error, eof, text, wrap, Result, ok, err, Exec, pure, raise, lift, recover, ◌>>=◌, ◌>>◌,
}
use index_provider.Datastore.Queries.{Queries}
use index_provider.Schema.{Bytes}
use index_provider.Chunker.Cached.{
  Setup, Cached, Key, block, overlap, root, on_ds, perform_on_cache,
}

-- `cid.CidFromReader`: it reads one identifier, and reports `io.EOF` where nothing is left.
pub record CidReader (G : Setup) : Type 0 where
  pub read_cid : Bytes → Result (G.Link × Bytes)
  pub read_cid-append :
      (l : G.Link) (rest : Bytes) → read_cid (G.link_bytes l ++ rest) ≡ ok (l, rest)
  pub read_cid-end : read_cid [] ≡ err eof

-- `errors.Is(err, io.EOF)`
unfoldable pub is_eof : Error → Bool
is_eof eof = true
is_eof (wrap s e) = is_eof e
is_eof _ = false

module _ (G : Setup) (R : CidReader G) (queries : Queries G.store) where
  open G use {Link, store as D, lru}

  unfoldable pub stop_at_end : Error → Result (List Link)
  unfolding is_eof
  stop_at_end e = elim (is_eof e) [ true ↦ ok [] | false ↦ err e ]

  unfoldable pub in_front : Link → Result (List Link) → Result (List Link)
  in_front l (ok ls) = ok (l ∷ ls)
  in_front l (err e) = err e

  unfoldable pub next : Result (Link × Bytes) → (Bytes → Result (List Link)) → Result (List Link)
  unfolding stop_at_end in_front
  next (ok r) more = in_front r.0 (more r.1)
  next (err e) more = stop_at_end e

  -- The loop over the value of a root key. The number bounds its rounds; the length of the value is
  -- enough for them.
  unfoldable pub parse_links : ℕ → Bytes → Result (List Link)
  unfolding next
  parse_links zero b = err (text "too many links")
  parse_links (suc n) b = next (R.read_cid b) (parse_links n)

  -- `linkFromDsCachePrefixedKey`
  unfoldable pub link_from_key : Key Link → Result Link
  link_from_key (root l) = ok l
  link_from_key (block l) = err (text "key is not a prefixed cache key")
  link_from_key (overlap l) = err (text "key is not a prefixed cache key")

  unfoldable pub restore_entry : Key Link → Bytes → Exec (Cached G) (Unit {0})
  unfolding ◌>>=◌ parse_links link_from_key perform_on_cache
  restore_entry k [] = raise (text "no value found for root key; old cache format")
  restore_entry k (x ∷ b) = do
    links ← lift (parse_links (suc (length (x ∷ b))) (x ∷ b))
    l ← lift (link_from_key k)
    perform_on_cache G (lru.add l links)

  abbrev pub Results : Type 0
  Results = List (Result (Key Link × Bytes))

  unfoldable pub restore_all : Results → Exec (Cached G) (Unit {0})
  unfolding ◌>>=◌ restore_entry
  restore_all [] = pure tt
  restore_all (err e ∷ rs) = raise (wrap "cannot read cache key" e)
  restore_all (ok (k, b) ∷ rs) = do restore_entry k b; restore_all rs

  unfoldable pub delete_listed : String → Results → Exec (Cached G) (Unit {0})
  unfolding ◌>>=◌ on_ds
  delete_listed what [] = pure tt
  delete_listed what (err e ∷ rs) = raise (wrap what e)
  delete_listed what (ok (k, b) ∷ rs) = do on_ds G (D.delete k); delete_listed what rs

  abbrev pub is_root : Key Link → Bool
  is_root (root l) = true
  is_root (block l) = false
  is_root (overlap l) = false

  unfoldable pub delete_all : String → Exec (Cached G) (Unit {0})
  unfolding ◌>>=◌ on_ds delete_listed
  delete_all what = do rs ← on_ds G (queries.query (λ _. true)); delete_listed what rs

  -- Without a root key everything is deleted.
  unfoldable pub prune : Results → Exec (Cached G) (Unit {0})
  unfolding delete_all
  prune [] = delete_all "cannot read cache key"
  prune (r ∷ rs) = pure tt

  unfoldable pub restore_cache : Exec (Cached G) (Unit {0})
  unfolding ◌>>=◌ on_ds restore_all prune
  restore_cache = do rs ← on_ds G (queries.query is_root); restore_all rs; prune rs

  -- `Clear`
  unfoldable pub clear : Exec (Cached G) (Unit {0})
  unfolding ◌>>=◌ perform_on_cache delete_all
  clear = do perform_on_cache G lru.clear; delete_all "cannot list cache key to clear"

  unfoldable pub restore_or_clear : Bool → Exec (Cached G) (Unit {0})
  unfolding recover restore_cache clear
  restore_or_clear true = clear
  restore_or_clear false = recover restore_cache pure (λ _. clear)

  -- The inner chunker is made first, by a function that is given.
  unfoldable pub new_cached_entries_chunker : Result (Unit {0}) → Bool → Exec (Cached G) (Unit {0})
  unfolding ◌>>=◌ restore_or_clear
  new_cached_entries_chunker new_chunker purge = do lift new_chunker; restore_or_clear purge

  unfoldable pub close : Exec (Cached G) (Unit {0})
  unfolding on_ds
  close = on_ds G D.sync

  unfoldable pub cap : ℕ
  cap = lru.max_entries

  unfoldable pub len : Cached G → ℕ
  len e = length (lru.contents e.cache)
