-- ===== src/Routing/Removal.antt =====
-- `removeExpiredCids` as a walk of steps: CIDs leave the queue, chunks are assigned, and new ones are
-- allocated.
use index_provider.Prelude.{
  ℕ, Option, none, some, List, [], ◌∷◌, Bool-cases, inl, inr, member, add, remove,
}
use index_provider.Exec.{Error, Exec, modify, gets, pure, ◌>>=◌, recover}
use index_provider.Exec.Within.{Within, Within-if}
use index_provider.Schema.{Bytes}
use index_provider.Routing.Queue.{CidNode}
use index_provider.Routing.State.{Setup, CidsChunk, alloc_chunk}
use index_provider.Routing.Publish.{notify_remove_and_persist}
use index_provider.Routing.Listener.{
  Expired, drop_node, expire_node, find_expired, sort_out, replace_chunk, split_cids, split_chunk,
  leave_chunk, expire_chunk, expire_chunks, drop_all, finish_expired, expire_from,
  remove_expired_cids,
}
use index_provider.Routing.Steps.{
  L, Steps, W-pure, W-gets, W-modify, W-bind, W-recover, W-time_now, notify_put_and_persist-Within,
  notify_remove_and_persist-Within, generate_context_id-Within,
}

module _ (G : Setup) where
  open G use {Cid, cid_discrete}

  -- The steps of the replacement of a chunk.
  pub record Allocs (R : L G → L G → Type 0) : Type 0 where
    pub steps : Steps G R
    pub alloc : (ch : CidsChunk Cid) (s : L G) → R s (alloc_chunk G ch s)

  module _ (R : L G → L G → Type 0) (al : Allocs R) where
    abbrev at : Steps G R
    at = al.steps

    A-alloc : (ch : CidsChunk Cid) → Within R (modify (alloc_chunk G ch))
    A-alloc ch = W-modify G R at (alloc_chunk G ch) (al.alloc ch)

    pub replace_chunk-Within : (cids : List Cid) → Within R (replace_chunk G cids)
    unfolding replace_chunk
    replace_chunk-Within [] = W-pure G R at tt
    replace_chunk-Within (c ∷ cs) = search (
      W-pure G R at,
      W-gets G R at,
      W-bind G R at,
      W-recover G R at,
      A-alloc,
      notify_put_and_persist-Within G R at,
      generate_context_id-Within G R at,
    )

  pub record Removals (R : L G → L G → Type 0) : Type 0 where
    pub steps : Steps G R
    pub drop : (c : Cid) (s : L G) → R s (drop_node G c s)
    pub alloc : (ch : CidsChunk Cid) (s : L G) → R s (alloc_chunk G ch s)

  module _ (R : L G → L G → Type 0) (rm : Removals R) where
    abbrev st : Steps G R
    st = rm.steps

    D-pure : {A : Type 0} (a : A) → Within R (pure a)
    D-pure = W-pure G R st

    D-gets : {A : Type 0} (f : L G → A) → Within R (gets f)
    D-gets = W-gets G R st

    D-bind :
        {A B : Type 0} (m : Exec (L G) A) (f : A → Exec (L G) B)
        → Within R m
        → ((a : A) → Within R (f a))
        → Within R (m >>= f)
    D-bind = W-bind G R st

    D-recover :
        {A B : Type 0} (m : Exec (L G) A) (f : A → Exec (L G) B) (g : Error → Exec (L G) B)
        → Within R m
        → ((a : A) → Within R (f a))
        → ((x : Error) → Within R (g x))
        → Within R (recover m f g)
    D-recover = W-recover G R st

    D-drop : (c : Cid) → Within R (modify (drop_node G c))
    D-drop c = W-modify G R st (drop_node G c) (rm.drop c)

    D-remove : (r : ℕ) → Within R (notify_remove_and_persist G r)
    D-remove = notify_remove_and_persist-Within G R st

    ruleset rules = (D-pure, D-gets, D-bind, D-recover, D-drop, D-remove)

    D-node : (n : CidNode Cid) (o : Option ℕ) (x : Expired G) → Within R (expire_node G n o x)
    unfolding expire_node
    D-node n (some r) x = search rules
    D-node n none x = search rules

    pub find_expired-Within :
        (now : ℕ) (ns : List (CidNode Cid)) (x : Expired G) → Within R (find_expired G now ns x)
    unfolding find_expired
    find_expired-Within now [] x = D-pure x
    find_expired-Within now (n ∷ ns) x = Within-if R st.same st.trans _ _ _ (D-pure x) (
        D-bind (expire_node G n n.chunk x) (find_expired G now ns) (D-node n n.chunk x)
          (λ y. find_expired-Within now ns y))

    pub sort_out-Within : (cids kept expired : List Cid) → Within R (sort_out G cids kept expired)
    unfolding sort_out
    sort_out-Within [] kept expired = D-pure _
    sort_out-Within (c ∷ cs) kept expired = elim (Bool-cases (member cid_discrete c expired)) [
      | inl e ↦
          rw (e, sort_out)
            (D-bind _ (λ _. sort_out G cs kept (remove cid_discrete c expired)) (D-drop c)
              (λ _. sort_out-Within cs kept (remove cid_discrete c expired)))
      | inr e ↦ rw (e, sort_out) (sort_out-Within cs (add cid_discrete c kept) expired)
    ]

    D-replace : (cids : List Cid) → Within R (replace_chunk G cids)
    D-replace = replace_chunk-Within R (record { steps = st; alloc = rm.alloc })

    split_cids-Within : (expired cids : List Cid) → Within R (split_cids G expired cids)
    unfolding split_cids
    split_cids-Within expired cids = search (rules, sort_out-Within, D-replace)

    pub split_chunk-Within : (r : ℕ) (expired : List Cid) → Within R (split_chunk G r expired)
    unfolding split_chunk
    split_chunk-Within r expired = search (rules, split_cids-Within)

    D-leave : (r : ℕ) (expired : List Cid) → Within R (leave_chunk G r expired)
    unfolding leave_chunk
    D-leave r expired = search rules

    pub expire_chunk-Within : (r : ℕ) (expired : List Cid) → Within R (expire_chunk G r expired)
    unfolding expire_chunk
    expire_chunk-Within r expired = search (rules, split_chunk-Within, D-leave)

    pub expire_chunks-Within :
        (chunks : List (Bytes × ℕ)) (expired : List Cid) → Within R (expire_chunks G chunks expired)
    unfolding expire_chunks
    expire_chunks-Within [] expired = D-pure expired
    expire_chunks-Within ((id, r) ∷ chunks) expired =
        D-bind _ (expire_chunks G chunks) (expire_chunk-Within r expired)
          (λ rest. expire_chunks-Within chunks rest)

    pub drop_all-Within : (cids : List Cid) → Within R (drop_all G cids)
    unfolding drop_all
    drop_all-Within [] = D-pure tt
    drop_all-Within (c ∷ cs) = D-bind _ (λ _. drop_all G cs) (D-drop c) (λ _. drop_all-Within cs)

    pub finish_expired-Within : (x : Expired G) → Within R (finish_expired G x)
    unfolding finish_expired
    finish_expired-Within x = search (rules, expire_chunks-Within, drop_all-Within)

    D-from : (now : ℕ) → Within R (expire_from G now)
    unfolding expire_from
    D-from now = search (rules, find_expired-Within, finish_expired-Within)

    pub remove_expired_cids-Within : Within R (remove_expired_cids G)
    unfolding remove_expired_cids
    remove_expired_cids-Within = D-bind _ (expire_from G) (W-time_now G R st) D-from
