-- ===== src/Routing/Fresh.antt =====
-- `removeExpiredCids` takes no CID out of the queue that has not expired.
pub mod Replaced
use mathlib.Core.Path.{subst}
use mathlib.Core.Option
use mathlib.Core.List.{reverse, reverse-cons}
use index_provider.Prelude.{
  ℕ, ◌-◌, ◌≡◌, refl, sym, ap, ◌∙◌, inl, inr, true, false, false≢true, Bool-cases, Option, none,
  some, List, [], ◌∷◌, All, All-append, if_pos, if_neg, ite, leb, arith, insert, member, add,
  remove, member-add_ne, member-remove_ne, member-remove_self,
}
use index_provider.Exec.{Exec, pure, modify, ◌>>=◌}
use index_provider.Exec.Post.{
  Post, Post-pure, Post-bind, Post-weaken, Post-modify, Post-gets, Post-gets-bind, Post-recover,
  Post-if,
}
use index_provider.Schema.{Bytes}
use index_provider.Engine.Keys.{bytes_discrete}
use index_provider.Routing.Queue.{CidNode, CidQueue, with_chunk, assign_cids_chunk, remove_cid_node}
use index_provider.Routing.Queue.Links.{
  nodes, find, IsLinked, IsOnce, find-without, find-changed, assign_cids_chunk-changed,
  remove_cid_node-without,
}
use index_provider.Routing.Queue.Kept.{assign_cids_chunk-IsLinked, remove_cid_node-IsLinked}
use index_provider.Routing.State.{Setup, time_now}
use index_provider.Routing.Publish.{notify_remove_and_persist}
use index_provider.Routing.Listener.{
  Expired, drop_node, expire_node, find_expired, sort_out, replace_chunk, split_cids, split_chunk,
  leave_chunk, expire_chunk, expire_chunks, drop_all, remove_all, finish_expired, expire_from,
  remove_expired_cids, backwards, nothing_found,
}
use index_provider.Routing.Steps.{L, Steps, W, notify_remove_and_persist-Within}
use index_provider.Routing.Removal.{replace_chunk-Within}
use index_provider.Routing.Published.{Keeps, Keeps-Steps}
use index_provider.Routing.Fresh.Replaced.{HasTime, Timed, Spared, Safe, drop_other, finish-Safe}

module _ (G : Setup) (c : G.Cid) (time : ℕ) where
  open G use {Cid, cid_discrete, cid_ttl}

  -- The nodes of the CID have the time.
  abbrev Dated : List (CidNode Cid) → Type 0
  Dated ns = All (λ n. n.c ≡ c → n.timestamp ≡ time) ns

  module _ (now : ℕ) (fresh : leb (now - time) cid_ttl ≡ true) where
    node-Safe :
        (n : CidNode Cid) (o : Option ℕ) (x : Expired G)
        → ¬ (n.c ≡ c)
        → Spared G c time x.1
        → Safe G c time (λ y. Spared G c time y.1) (expire_node G n o x)
    unfolding expire_node
    node-Safe n (some r) x ne sp s h =
        Post-gets
          (λ s. (
            insert bytes_discrete (G.context_id_to_str (s.chunks r).context_id) r x.0,
            add cid_discrete n.c x.1,
            true,
          ))
          s (member-add_ne cid_discrete n.c c x.1 ne ∙ sp, h)
    node-Safe n none x ne sp s h =
        Post-bind (modify (drop_node G n.c)) (λ _. pure (x.0, x.1, true)) s
          (Post-modify (drop_node G n.c) s (drop_other G c time n.c s ne h))
          (λ _ t k. Post-pure (x.0, x.1, true) t (sp, k)) (λ _ _ k. k)

    find-Safe :
        (ns : List (CidNode Cid)) (x : Expired G)
        → Dated ns
        → Spared G c time x.1
        → Safe G c time (λ y. Spared G c time y.1) (find_expired G now ns x)
    unfolding find_expired
    find-Safe [] x d sp s h = Post-pure x s (sp, h)
    find-Safe (n ∷ ns) x d sp s h =
        Post-if (leb (now - n.timestamp) cid_ttl) _ _ s (λ _. Post-pure x s (sp, h))
          (λ old.
            Post-bind (expire_node G n n.chunk x) (find_expired G now ns) s
              (node-Safe n n.chunk x
                (λ p. false≢true (sym old ∙ ap (λ t. leb (now - t) cid_ttl) (d.0 p) ∙ fresh)) sp s
                h)
              (λ y t k. find-Safe ns y d.1 k.0 t k.1) (λ _ _ k. k))

  All-reverse : (ns : List (CidNode Cid)) → Dated ns → Dated (reverse ns)
  All-reverse [] d = tt
  All-reverse (n ∷ ns) d =
      rw (reverse-cons n ns) (All-append _ (reverse ns) (n ∷ []) (All-reverse ns d.1) (d.0, tt))

  none-Dated : (ns : List (CidNode Cid)) → find cid_discrete c ns ≡ none → Dated ns
  unfolding find
  none-Dated [] f = tt
  none-Dated (n ∷ ns) f = (
    λ p. absurd (cc (sym (if_pos (cid_discrete n.c c) p (some n) (find cid_discrete c ns)) ∙ f)),
    none-Dated ns (ground arith),
  )

  -- In a queue without duplicates, the node that is found is the only one of its CID.
  Dated-nodes :
      (ns : List (CidNode Cid)) (n : CidNode Cid)
      → find cid_discrete c ns ≡ some n
      → n.timestamp ≡ time
      → IsOnce cid_discrete ns
      → Dated ns
  unfolding find
  Dated-nodes [] n f t once = tt
  Dated-nodes (m ∷ ns) n f t once = elim (cid_discrete m.c c) [
    | yes p ↦ (
      λ _. ground (arith, f, t),
      none-Dated ns (ap (λ x. find cid_discrete x ns) (sym p) ∙ once.0),
    )
    | no p ↦
        (λ q. absurd (p q), Dated-nodes ns n (sym (if_neg (cid_discrete m.c c) p _ _) ∙ f) t once.1)
  ]

  Dated-back : (s : L G) → Timed G c time s → Dated (backwards G s)
  Dated-back s h =
      All-reverse (nodes s.cid_queue)
        (Dated-nodes (nodes s.cid_queue) h.node h.found h.timed h.linked.once)

  from-Safe :
      (now : ℕ)
      → leb (now - time) cid_ttl ≡ true
      → (s : L G) → Timed G c time s
      → Post (expire_from G now) s (λ _ t. Timed G c time t) (λ _ t. Timed G c time t)
  unfolding expire_from
  from-Safe now fresh s h =
      Post-gets-bind (backwards G)
        (λ ns. find_expired G now ns (nothing_found G) >>= λ x. finish_expired G x) s
        (Post-bind (find_expired G now (backwards G s) (nothing_found G)) (finish_expired G) s
          (find-Safe now fresh (backwards G s) (nothing_found G) (Dated-back s h) refl s h)
          (λ x t k. finish-Safe G c time x k.0 t k.1) (λ _ _ k. k))

  -- If a CID is in the queue, with a time that is not older than the TTL when `removeExpiredCids`
  -- starts, then the CID is in the queue with that time when it ends, whatever the engine and the
  -- datastore do, and also if its chunk was removed and replaced.
  pub remove_expired-HasTime :
      (s : L G)
      → HasTime G c time s.cid_queue
      → leb (G.clock s.ticks - time) cid_ttl ≡ true
      → Post
          (remove_expired_cids G)
          s
          (λ _ t. HasTime G c time t.cid_queue)
          (λ _ t. HasTime G c time t.cid_queue)
  unfolding remove_expired_cids
  remove_expired-HasTime s h fresh =
      Post-bind {P = λ n t. (n ≡ G.clock s.ticks) × Timed G c time t} {F = λ _ t. Timed G c time t}
        (time_now G) (expire_from G) s (unfold time_now in record { at = (refl, h) })
        (λ n t k. from-Safe n (ap (λ m. leb (m - time) cid_ttl) k.0 ∙ fresh) t k.1) (λ _ _ k. k)
