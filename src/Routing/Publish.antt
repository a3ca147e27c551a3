-- ===== src/Routing/Publish.antt =====
-- delegatedrouting/listener.go: `notifyPutAndPersist`, `notifyRemoveAndPersist`, `RetryWithBackoff`, and
-- `MultihashLister`, by which the engine asks for the CIDs of a chunk.
use index_provider.Prelude.{ℕ, zero, suc, Option, none, some, List, [], ◌∷◌, map}
use index_provider.Exec.{
  Error, already_advertised, text, Exec, pure, raise, gets, modify, recover, ◌>>=◌, ◌>>◌,
}
use index_provider.Schema.{Bytes, PeerId}
use index_provider.Engine.{AddrInfo}
use index_provider.Routing.Queue.{assign_cids_chunk}
use index_provider.Routing.State.{Setup, Listener, on_engine, on_both, with_queue}
use index_provider.Routing.Chunks.{chunk_in_memory, add_chunk, remove_chunk}
use index_provider.Routing.Store
use index_provider.Routing.Store.{record_chunk_by_context_id, delete_chunk}

-- `RetryWithBackoff` with a number of attempts that is one more; the pauses are left out.
unfoldable pub retry_with_backoff : {S : Type 0} → Exec S (Unit {0}) → ℕ → Exec S (Unit {0})
unfolding recover
retry_with_backoff f zero = f
retry_with_backoff f (suc more) = recover f pure (λ _. retry_with_backoff f more)

-- `if e == provider.ErrAlreadyAdvertised { e = nil }`
unfoldable pub unless_advertised : {S : Type 0} → Error → Exec S (Unit {0})
unless_advertised already_advertised = pure tt
unless_advertised e = raise e

unfoldable pub or_advertised : {S : Type 0} → Exec S (Unit {0}) → Exec S (Unit {0})
unfolding recover unless_advertised
or_advertised m = recover m pure unless_advertised

abbrev pub retries : ℕ
retries = 2

module _ (G : Setup) where
  open G use {Cid, cid_discrete, engine as N}

  unfoldable pub provider_info : Option AddrInfo → Listener G → AddrInfo
  provider_info none s = s.last_seen_provider_info
  provider_info (some p) s = p

  -- `provider()` and `addrs()`
  unfoldable pub provider : Listener G → AddrInfo
  unfolding provider_info
  provider s = provider_info G.configured_provider_info s

  -- The `CidFetcher` of `New`: a chunk in memory leaves the index, others are read.
  unfoldable pub fetch_found : Bytes → Option ℕ → Exec (Listener G) (List Cid)
  unfolding ◌>>=◌ modify recover remove_chunk Store.get_chunk_by_context_id
  fetch_found id (some r) = do modify (remove_chunk G r); gets (λ s. (s.chunks r).cids)
  fetch_found id none =
      recover (Store.get_chunk_by_context_id G id) (λ ch. pure ch.cids)
        (λ _. raise (text "multihasLister couldn't find a chunk for contextID"))

  unfoldable pub cid_fetcher : Bytes → Exec (Listener G) (List Cid)
  unfolding ◌>>=◌ fetch_found chunk_in_memory
  cid_fetcher id = do o ← gets (chunk_in_memory G (G.context_id_to_str id)); fetch_found id o

  unfoldable pub multihash_lister : PeerId → Bytes → Exec (Listener G) (List Bytes)
  unfolding ◌>>=◌ cid_fetcher
  multihash_lister p id = do cids ← cid_fetcher id; pure (G.sort (map G.cid_hash cids))

  unfoldable pub remove_at_engine : ℕ → Listener G → Exec (Listener G) (Unit {0})
  unfolding on_engine or_advertised provider
  remove_at_engine r s =
      or_advertised (on_engine G (N.notify_remove (provider s).id (s.chunks r).context_id))

  unfoldable pub engine_remove : ℕ → Exec (Listener G) (Unit {0})
  unfolding ◌>>=◌ remove_at_engine
  engine_remove r = do s ← gets (λ s. s); remove_at_engine r s

  unfoldable pub notify_remove_and_persist : ℕ → Exec (Listener G) (Unit {0})
  unfolding ◌>>=◌ modify retry_with_backoff engine_remove remove_chunk delete_chunk
  notify_remove_and_persist r = do
    retry_with_backoff (engine_remove r) retries
    modify (remove_chunk G r)
    delete_chunk G r

  unfoldable pub put_at_engine : ℕ → Listener G → Exec (Listener G) (Unit {0})
  unfolding on_both or_advertised provider multihash_lister
  put_at_engine r s =
      or_advertised (
        on_both G (N.notify_put (Listener G) multihash_lister (provider s) (s.chunks r).context_id))

  unfoldable pub engine_put : ℕ → Exec (Listener G) (Unit {0})
  unfolding ◌>>=◌ put_at_engine
  engine_put r = do s ← gets (λ s. s); put_at_engine r s

  unfoldable pub assign_all : ℕ → List Cid → Listener G → Listener G
  unfolding assign_cids_chunk
  assign_all r [] s = s
  assign_all r (c ∷ cs) s =
      assign_all r cs (with_queue G s (assign_cids_chunk cid_discrete c r s.cid_queue))

  -- Update the chunk in the CID queue.
  unfoldable pub assign_chunk : ℕ → Listener G → Listener G
  unfolding assign_all
  assign_chunk r s = assign_all r (s.chunks r).cids s

  unfoldable pub give_up : ℕ → Error → Exec (Listener G) (Unit {0})
  unfolding ◌>>=◌ modify remove_chunk
  give_up r e = do modify (remove_chunk G r); raise e

  unfoldable pub put_or_give_up : ℕ → Exec (Listener G) (Unit {0})
  unfolding modify recover retry_with_backoff engine_put assign_chunk give_up
  put_or_give_up r =
      recover (retry_with_backoff (engine_put r) retries) (λ _. modify (assign_chunk r)) (give_up r)

  unfoldable pub notify_put_and_persist : ℕ → Exec (Listener G) (Unit {0})
  unfolding ◌>>=◌ modify add_chunk record_chunk_by_context_id put_or_give_up
  notify_put_and_persist r = do
    modify (add_chunk G r)
    record_chunk_by_context_id G r
    put_or_give_up r
