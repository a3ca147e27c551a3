-- ===== src/Routing/Linked.antt =====
-- The queue of the listener stays linked.
use index_provider.Prelude.{ℕ, List}
use index_provider.Exec.Post.{Post, Post-weaken}
use index_provider.Schema.{Bytes, PeerId}
use index_provider.Routing.Queue.Links.{IsLinked}
use index_provider.Routing.Queue.Kept.{assign_cids_chunk-IsLinked, remove_cid_node-IsLinked}
use index_provider.Routing.Queue.Recorded.{record_cid_node-recorded}
use index_provider.Routing.State.{Setup, Listener}
use index_provider.Routing.Requests.{provide_bitswap, flush_func}
use index_provider.Routing.Provided.{Provides, provide_bitswap-Within, flush_func-Within}
use index_provider.Routing.Published.{Keeps, Keeps-Provides}

module _ (G : Setup) where
  open G use {Cid, cid_discrete}

  abbrev pub R : Listener G → Listener G → Type 0
  R = Keeps G (IsLinked cid_discrete) (λ c r q. assign_cids_chunk-IsLinked cid_discrete c r q)

  pub linked_steps : Provides G R
  linked_steps =
      Keeps-Provides G (IsLinked cid_discrete)
        (λ c r q. assign_cids_chunk-IsLinked cid_discrete c r q)
        (λ c q. remove_cid_node-IsLinked cid_discrete c q)
        (λ n q h. (record_cid_node-recorded cid_discrete n q h).0)

  abbrev pub Linked : Listener G → Type 0
  Linked s = IsLinked cid_discrete s.cid_queue

  -- If the map and the list of the queue are linked, then they are after `ProvideBitswap` and after a
  -- run of the flush worker, whether these succeed or fail, and whatever the engine and the datastore
  -- do.
  pub provide_bitswap-IsLinked :
      (pid : PeerId) (addrs : List Bytes) (cids : List Cid) (frequency : ℕ) (s : Listener G)
      → Linked s
      → Post (provide_bitswap G pid addrs cids) s (λ _ t. Linked t) (λ _ t. Linked t)
        × Post (flush_func G frequency) s (λ _ t. Linked t) (λ _ t. Linked t)
  provide_bitswap-IsLinked pid addrs cids frequency s h = (
    Post-weaken _ s ((provide_bitswap-Within G R linked_steps (λ p a t k. k) pid addrs cids).at s)
        (λ _ t k. k h) (λ _ t k. k h),
    Post-weaken _ s ((flush_func-Within G R linked_steps frequency).at s) (λ _ t k. k h)
        (λ _ t k. k h),
  )
