-- ===== src/Routing/Answers/NoError.antt =====
-- No failure of the engine, of the datastore or of an encoding is an error of `ProvideBitswap`.
use index_provider.Prelude.{
  ℕ, ◌-◌, ◌≡◌, refl, ltb, leb, length, inl, inr, Bool, true, false, Bool-cases, ◌||◌, Option, none,
  some, List, [], ◌∷◌, member, add, remove,
}
use index_provider.Exec.{Error, Exec, pure, gets, modify, recover, ◌>>=◌}
use index_provider.Exec.Post.{
  Post, Post-any, Post-pure, Post-gets, Post-bind, Post-modify, Post-recover, Post-if,
}
use index_provider.Schema.{Bytes}
use index_provider.Routing.Queue.{CidNode}
use index_provider.Routing.State.{Setup, time_now, next_nonce}
use index_provider.Routing.Chunks.{generate_context_id}
use index_provider.Routing.Listener.{
  Expired, drop_node, provide_new, add_if_none, provide_known, provide_at, provide_cid, provide_one,
  provide_all, expire_node, find_expired, sort_out, replace_chunk, split_cids, split_chunk,
  leave_chunk, expire_chunk, expire_chunks, drop_all, finish_expired, expire_from,
  remove_expired_cids,
}
use index_provider.Routing.Requests.{take_snapshot, provide_seen}
use index_provider.Routing.Steps.{L}

module _ (G : Setup) where
  open G use {Cid, cid_discrete, snapshot_size}

  -- The action never fails.
  record NoError {A : Type 0} (m : Exec (L G) A) : Type 0 where
    at : (s : L G) → Post m s (λ _ _. Unit {0}) (λ _ _. ⊥)

  N-pure : {A : Type 0} (a : A) → NoError (pure a)
  N-pure a = record { at = λ s. Post-pure a s tt }

  N-gets : {A : Type 0} (f : L G → A) → NoError (gets f)
  N-gets f = record { at = λ s. Post-gets f s tt }

  N-modify : (f : L G → L G) → NoError (modify f)
  N-modify f = record { at = λ s. Post-modify f s tt }

  N-bind :
      {A B : Type 0} (m : Exec (L G) A) (f : A → Exec (L G) B)
      → NoError m
      → ((a : A) → NoError (f a))
      → NoError (m >>= f)
  N-bind m f h k = record { at = λ s. Post-bind m f s (h.at s) (λ a t _. (k a).at t) (λ _ _ e. e) }

  N-recover :
      {A B : Type 0} (m : Exec (L G) A) (f : A → Exec (L G) B) (g : Error → Exec (L G) B)
      → ((a : A) → NoError (f a))
      → ((e : Error) → NoError (g e))
      → NoError (recover m f g)
  N-recover m f g k l = record {
    at = λ s. Post-recover m f g s (Post-any m s) (λ a t _. (k a).at t) (λ e t _. (l e).at t);
  }

  ruleset rules = (N-pure, N-gets, N-modify, N-bind, N-recover)

  N-new : (c : Cid) (t : ℕ) → NoError (provide_new G c t)
  unfolding provide_new
  N-new c t = search rules

  N-if_none : (c : Cid) (o : Option ℕ) → NoError (add_if_none G c o)
  unfolding add_if_none
  N-if_none c none = search rules
  N-if_none c (some r) = search rules

  N-known : (c : Cid) (n : CidNode Cid) (t : ℕ) → NoError (provide_known G c n t)
  unfolding provide_known
  N-known c n t = search (rules, N-if_none)

  N-at : (c : Cid) (t : ℕ) (o : Option (CidNode Cid)) → NoError (provide_at G c t o)
  unfolding provide_at
  N-at c t none = N-new c t
  N-at c t (some n) = N-known c n t

  N-cid : (c : Cid) (t : ℕ) → NoError (provide_cid G c t)
  unfolding provide_cid
  N-cid c t = search (rules, N-at)

  N-one : (b : Bool) (c : Cid) (t : ℕ) → NoError (provide_one G b c t)
  unfolding provide_one
  N-one true c t = search (rules, N-cid)
  N-one false c t = N-cid c t

  N-all : (b : Bool) (cs : List Cid) (t : ℕ) → NoError (provide_all G b cs t)
  unfolding provide_all
  N-all b [] t = N-pure tt
  N-all b (c ∷ cs) t = N-bind _ (λ _. provide_all G b cs t) (N-one b c t) (λ _. N-all b cs t)

  N-node : (n : CidNode Cid) (o : Option ℕ) (x : Expired G) → NoError (expire_node G n o x)
  unfolding expire_node
  N-node n (some r) x = search rules
  N-node n none x = search rules

  N-find : (now : ℕ) (ns : List (CidNode Cid)) (x : Expired G) → NoError (find_expired G now ns x)
  unfolding find_expired
  N-find now [] x = N-pure x
  N-find now (n ∷ ns) x = record {
    at = λ s.
        Post-if (leb (now - n.timestamp) G.cid_ttl) _ _ s (λ _. Post-pure x s tt)
          (λ _.
            (N-bind (expire_node G n n.chunk x) (find_expired G now ns) (N-node n n.chunk x)
                (λ y. N-find now ns y)).at
              s);
  }

  N-sort : (cs kept old : List Cid) → NoError (sort_out G cs kept old)
  unfolding sort_out
  N-sort [] kept old = N-pure (kept, old)
  N-sort (c ∷ cs) kept old = elim (Bool-cases (member cid_discrete c old)) [
    | inl e ↦
        rw (e, sort_out)
          (N-bind _ (λ _. sort_out G cs kept (remove cid_discrete c old)) (N-modify (drop_node G c))
            (λ _. N-sort cs kept _))
    | inr e ↦ rw (e, sort_out) (N-sort cs (add cid_discrete c kept) old)
  ]

  N-next : NoError (next_nonce G)
  unfolding next_nonce
  N-next = record { at = λ s. record { at = tt } }

  N-nonce : (cs : List Cid) → NoError (generate_context_id G cs)
  unfolding generate_context_id
  N-nonce cs = search (rules, N-next)

  N-replace : (cs : List Cid) → NoError (replace_chunk G cs)
  unfolding replace_chunk
  N-replace [] = N-pure tt
  N-replace (c ∷ cs) = search (rules, N-nonce)

  N-split_cids : (old cs : List Cid) → NoError (split_cids G old cs)
  unfolding split_cids
  N-split_cids old cs = search (rules, N-sort, N-replace)

  N-split : (r : ℕ) (old : List Cid) → NoError (split_chunk G r old)
  unfolding split_chunk
  N-split r old = search (rules, N-split_cids)

  N-leave : (r : ℕ) (old : List Cid) → NoError (leave_chunk G r old)
  unfolding leave_chunk
  N-leave r old = search rules

  N-chunk : (r : ℕ) (old : List Cid) → NoError (expire_chunk G r old)
  unfolding expire_chunk
  N-chunk r old = search (rules, N-split, N-leave)

  N-chunks : (chunks : List (Bytes × ℕ)) (old : List Cid) → NoError (expire_chunks G chunks old)
  unfolding expire_chunks
  N-chunks [] old = N-pure old
  N-chunks ((id, r) ∷ chunks) old =
      N-bind _ (expire_chunks G chunks) (N-chunk r old) (λ rest. N-chunks chunks rest)

  N-drop : (cs : List Cid) → NoError (drop_all G cs)
  unfolding drop_all
  N-drop [] = N-pure tt
  N-drop (c ∷ cs) = N-bind _ (λ _. drop_all G cs) (N-modify (drop_node G c)) (λ _. N-drop cs)

  N-finish : (x : Expired G) → NoError (finish_expired G x)
  unfolding finish_expired
  N-finish x = search (rules, N-chunks, N-drop)

  N-time : NoError (time_now G)
  unfolding time_now
  N-time = record { at = λ s. record { at = tt } }

  N-from : (now : ℕ) → NoError (expire_from G now)
  unfolding expire_from
  N-from now = search (rules, N-find, N-finish)

  N-expired : NoError (remove_expired_cids G)
  unfolding remove_expired_cids
  N-expired = N-bind (time_now G) (expire_from G) N-time N-from

  N-snapshot : (b : Bool) → NoError (take_snapshot G b)
  unfolding take_snapshot
  N-snapshot true = search rules
  N-snapshot false = N-pure tt

  -- The TTL, whatever fails on the way.
  pub seen_ttl :
      (start : ℕ) (cids : List Cid) (s : L G)
      → Post (provide_seen G start cids) s (λ v _. v ≡ G.cid_ttl) (λ _ _. ⊥)
  unfolding provide_seen
  seen_ttl start cids s =
      Post-bind (provide_all G (ltb (length cids) snapshot_size) cids start) _ s
        ((N-all _ cids start).at s)
        (λ _ t _.
          Post-bind (remove_expired_cids G)
            (λ removed.
              take_snapshot G (removed || leb snapshot_size (length cids)) >>= λ _. pure G.cid_ttl)
            t (N-expired.at t)
            (λ removed u _.
              Post-bind (take_snapshot G (removed || leb snapshot_size (length cids)))
                (λ _. pure G.cid_ttl) u
                ((N-snapshot (removed || leb snapshot_size (length cids))).at u)
                (λ _ v _. Post-pure G.cid_ttl v refl) (λ _ _ e. e))
            (λ _ _ e. e))
        (λ _ _ e. e)
