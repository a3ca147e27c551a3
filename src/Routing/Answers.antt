-- ===== src/Routing/Answers.antt =====
-- What `ProvideBitswap` answers, and to whom.
pub mod NoError
use index_provider.Prelude.{
  ℕ, ◌-◌, ◌≡◌, ltb, leb, length, inl, inr, Bool, true, false, Bool-cases, ◌||◌, Option, none, some,
  List, member, add, remove,
}
use index_provider.Exec.{Error, text, Exec, pure, recover}
use index_provider.Exec.Post.{Post, Post-any, Post-pure, Post-gets, Post-recover, Post-if}
use index_provider.Schema.{Bytes, PeerId}
use index_provider.Routing.Queue.{CidNode}
use index_provider.Routing.State.{Setup, next_nonce, tick}
use index_provider.Routing.Chunks.{generate_context_id}
use index_provider.Routing.Listener.{
  Expired, drop_node, provide_new, add_if_none, provide_known, provide_at, provide_cid, provide_one,
  provide_all, expire_node, find_expired, sort_out, replace_chunk, split_cids, split_chunk,
  leave_chunk, expire_chunk, expire_chunks, drop_all, finish_expired, expire_from,
  remove_expired_cids,
}
use index_provider.Routing.Requests.{is_allowed, take_snapshot}
use index_provider.Routing.Steps.{L}

module _ (G : Setup) where
  open G use {Cid, cid_discrete, snapshot_size}

  abbrev Seen : L G → L G → Type 0
  Seen s t = t.last_seen_provider_info ≡ s.last_seen_provider_info

  abbrev pub may : PeerId → L G → Bool
  may pid s = is_allowed pid G.configured_provider_info s.last_seen_provider_info.id

  abbrev pub Answered : PeerId → List Bytes → L G → ℕ → L G → Type 0
  Answered pid addrs s ttl t =
      (may pid s ≡ true)
      × (ttl ≡ G.cid_ttl)
      × (t.last_seen_provider_info ≡ record { id = pid; addrs = addrs })

  abbrev pub Refused : PeerId → L G → Error → L G → Type 0
  Refused pid s e t = (may pid s ≡ false) × (e ≡ text "provider isn't allowed") × (t ≡ tick G s)
