-- ===== src/Routing/Fresh/Replaced.antt =====
-- What `removeExpiredCids` does once it has found the expired CIDs keeps a CID that is not among them.
use mathlib.Core.Path.{subst}
use mathlib.Core.Option
use index_provider.Prelude.{
  ℕ, ◌≡◌, refl, sym, ap, ◌∙◌, inl, inr, true, false, false≢true, Bool-cases, some, List, [], ◌∷◌,
  if_pos, if_neg, ite, arith, member, add, remove, member-remove_ne, member-remove_self,
}
use index_provider.Exec.{Exec, pure, modify, ◌>>=◌}
use index_provider.Exec.Post.{
  Post, Post-pure, Post-bind, Post-weaken, Post-modify, Post-gets, Post-gets-bind, Post-recover,
}
use index_provider.Schema.{Bytes}
use index_provider.Routing.Queue.{CidNode, CidQueue, with_chunk, assign_cids_chunk, remove_cid_node}
use index_provider.Routing.Queue.Links.{
  nodes, find, IsLinked, find-without, find-changed, assign_cids_chunk-changed,
  remove_cid_node-without,
}
use index_provider.Routing.Queue.Kept.{assign_cids_chunk-IsLinked, remove_cid_node-IsLinked}
use index_provider.Routing.State.{Setup}
use index_provider.Routing.Publish.{notify_remove_and_persist}
use index_provider.Routing.Listener.{
  Expired, drop_node, sort_out, replace_chunk, split_cids, split_chunk, leave_chunk, expire_chunk,
  expire_chunks, drop_all, remove_all, finish_expired,
}
use index_provider.Routing.Steps.{L, Steps, W, notify_remove_and_persist-Within}
use index_provider.Routing.Removal.{replace_chunk-Within}
use index_provider.Routing.Published.{Keeps, Keeps-Steps}

module _ (G : Setup) (c : G.Cid) (time : ℕ) where
  open G use {Cid, cid_discrete, cid_ttl}

  -- The queue is linked, and the CID is in it with the given time.
  pub record HasTime (q : CidQueue Cid) : Type 0 where
    pub linked : IsLinked cid_discrete q
    pub node : CidNode Cid
    pub found : find cid_discrete c (nodes q) ≡ some node
    pub timed : node.timestamp ≡ time

  HasTime-assign :
      (j : Cid) (r : ℕ) (q : CidQueue Cid)
      → HasTime q
      → HasTime (assign_cids_chunk cid_discrete j r q)
  HasTime-assign j r q h = elim (cid_discrete j c) [
    | yes y ↦ record {
      linked = assign_cids_chunk-IsLinked cid_discrete j r q h.linked;
      node = with_chunk r h.node;
      found = now ∙ if_pos (cid_discrete j c) y _ _ ∙ ap (Option.map (with_chunk r)) h.found;
      timed = h.timed;
    }
    | no y ↦ record {
      linked = assign_cids_chunk-IsLinked cid_discrete j r q h.linked;
      node = h.node;
      found = now ∙ if_neg (cid_discrete j c) y _ _ ∙ h.found;
      timed = h.timed;
    }
  ]
    where
      now :
          find cid_discrete c (nodes (assign_cids_chunk cid_discrete j r q))
          ≡ ite
              (cid_discrete j c)
              (Option.map (with_chunk r) (find cid_discrete c (nodes q)))
              (find cid_discrete c (nodes q))
      now =
          ap (find cid_discrete c) (assign_cids_chunk-changed cid_discrete j r q h.linked)
          ∙ find-changed cid_discrete j c (with_chunk r) (nodes q) (λ m. refl)

  HasTime-remove :
      (j : Cid) (q : CidQueue Cid)
      → ¬ (j ≡ c)
      → HasTime q
      → HasTime (remove_cid_node cid_discrete j q)
  HasTime-remove j q ne h = record {
    linked = remove_cid_node-IsLinked cid_discrete j q h.linked;
    node = h.node;
    found =
        ap (find cid_discrete c) (remove_cid_node-without cid_discrete j q h.linked)
        ∙ find-without cid_discrete j c (nodes q)
        ∙ if_neg (cid_discrete j c) ne _ _
        ∙ h.found;
    timed = h.timed;
  }

  abbrev R : L G → L G → Type 0
  R = Keeps G HasTime HasTime-assign

  abbrev st : Steps G R
  st = Keeps-Steps G HasTime HasTime-assign

  abbrev pub Timed : L G → Type 0
  Timed s = HasTime s.cid_queue

  -- The CID is not among those that are to be removed.
  abbrev pub Spared : List Cid → Type 0
  Spared cids = member cid_discrete c cids ≡ false

  abbrev pub Safe : {A : Type 0} → (A → Type 0) → Exec (L G) A → Type 0
  Safe Q m = (s : L G) → Timed s → Post m s (λ a t. Q a × Timed t) (λ _ t. Timed t)

  Safe-within :
      {A : Type 0} (m : Exec (L G) A)
      → W G R st m
      → (s : L G) → Timed s
      → Post m s (λ _ t. Timed t) (λ _ t. Timed t)
  Safe-within m w s h = Post-weaken m s (w.at s) (λ _ t k. k h) (λ _ t k. k h)

  pub drop_other : (j : Cid) (s : L G) → ¬ (j ≡ c) → Timed s → Timed (drop_node G j s)
  drop_other j s ne h = HasTime-remove j s.cid_queue ne h

  member_ne :
      (j : Cid) (cids : List Cid) → member cid_discrete j cids ≡ true → Spared cids → ¬ (j ≡ c)
  member_ne j cids m sp =
      λ p. false≢true (sym sp ∙ ap (λ x. member cid_discrete x cids) (sym p) ∙ m)

  Spared-remove : (j : Cid) (cids : List Cid) → Spared cids → Spared (remove cid_discrete j cids)
  Spared-remove j cids h = elim (cid_discrete j c) [
    | yes p ↦
        subst (λ x. member cid_discrete x (remove cid_discrete j cids) ≡ false) p
          (member-remove_self cid_discrete j cids)
    | no p ↦ member-remove_ne cid_discrete j c cids p ∙ h
  ]

  Spared-remove_all : (js cids : List Cid) → Spared cids → Spared (remove_all G js cids)
  unfolding remove_all
  Spared-remove_all [] cids h = h
  Spared-remove_all (j ∷ js) cids h = Spared-remove_all js _ (Spared-remove j cids h)

  sort_out-Safe :
      (js kept expired : List Cid)
      → Spared expired
      → Safe (λ p. Spared p.1) (sort_out G js kept expired)
  unfolding sort_out
  sort_out-Safe [] kept expired sp s h = Post-pure (kept, expired) s (sp, h)
  sort_out-Safe (j ∷ js) kept expired sp s h = elim (Bool-cases (member cid_discrete j expired)) [
    | inl e ↦
        rw (e, sort_out)
          (Post-bind (modify (drop_node G j))
            (λ _. sort_out G js kept (remove cid_discrete j expired)) s
            (Post-modify (drop_node G j) s (drop_other j s (member_ne j expired e sp) h))
            (λ _ t k.
              sort_out-Safe js kept (remove cid_discrete j expired) (Spared-remove j expired sp) t
                k)
            (λ _ t k. k))
    | inr e ↦ rw (e, sort_out) (sort_out-Safe js (add cid_discrete j kept) expired sp s h)
  ]

  replace-Safe :
      (cids : List Cid) (s : L G)
      → Timed s
      → Post (replace_chunk G cids) s (λ _ t. Timed t) (λ _ t. Timed t)
  replace-Safe cids =
      Safe-within _ (replace_chunk-Within G R (record { steps = st; alloc = λ ch s h. h }) cids)

  split_cids-Safe :
      (expired cids : List Cid) → Spared expired → Safe Spared (split_cids G expired cids)
  unfolding split_cids
  split_cids-Safe expired cids sp s h =
      Post-bind (sort_out G cids [] expired) (λ p. replace_chunk G p.0 >>= λ _. pure p.1) s
        (sort_out-Safe cids [] expired sp s h)
        (λ p t k.
          Post-bind (replace_chunk G p.0) (λ _. pure p.1) t (replace-Safe p.0 t k.1)
            (λ _ u m. Post-pure p.1 u (k.0, m)) (λ _ _ m. m))
        (λ _ _ k. k)

  split-Safe : (r : ℕ) (expired : List Cid) → Spared expired → Safe Spared (split_chunk G r expired)
  unfolding split_chunk
  split-Safe r expired sp s h =
      Post-gets-bind (λ x. (x.chunks r).cids) (split_cids G expired) s
        (split_cids-Safe expired (s.chunks r).cids sp s h)

  leave-Safe : (r : ℕ) (expired : List Cid) → Spared expired → Safe Spared (leave_chunk G r expired)
  unfolding leave_chunk
  leave-Safe r expired sp s h =
      Post-gets (λ x. remove_all G (x.chunks r).cids expired) s
        (Spared-remove_all (s.chunks r).cids expired sp, h)

  expire_chunk-Safe :
      (r : ℕ) (expired : List Cid) → Spared expired → Safe Spared (expire_chunk G r expired)
  unfolding expire_chunk
  expire_chunk-Safe r expired sp s h =
      Post-recover (notify_remove_and_persist G r) _ _ s
        (Safe-within _ (notify_remove_and_persist-Within G R st r) s h)
        (λ _ t k. split-Safe r expired sp t k) (λ _ t k. leave-Safe r expired sp t k)

  expire_chunks-Safe :
      (chunks : List (Bytes × ℕ)) (expired : List Cid)
      → Spared expired
      → Safe Spared (expire_chunks G chunks expired)
  unfolding expire_chunks
  expire_chunks-Safe [] expired sp s h = Post-pure expired s (sp, h)
  expire_chunks-Safe ((id, r) ∷ chunks) expired sp s h =
      Post-bind (expire_chunk G r expired) (expire_chunks G chunks) s
        (expire_chunk-Safe r expired sp s h) (λ rest t k. expire_chunks-Safe chunks rest k.0 t k.1)
        (λ _ _ k. k)

  Spared-tail : (j : Cid) (cids : List Cid) → Spared (j ∷ cids) → (¬ (j ≡ c)) × Spared cids
  unfolding member
  Spared-tail j cids sp = ground arith

  drop_all-Safe :
      (cids : List Cid)
      → Spared cids
      → (s : L G) → Timed s
      → Post (drop_all G cids) s (λ _ t. Timed t) (λ _ t. Timed t)
  unfolding drop_all
  drop_all-Safe [] sp s h = Post-pure tt s h
  drop_all-Safe (j ∷ cids) sp s h =
      let (ne, rest) = Spared-tail j cids sp in
      Post-bind (modify (drop_node G j)) (λ _. drop_all G cids) s
        (Post-modify (drop_node G j) s (drop_other j s ne h)) (λ _ t k. drop_all-Safe cids rest t k)
        (λ _ _ k. k)

  pub finish-Safe :
      (x : Expired G)
      → Spared x.1
      → (s : L G) → Timed s
      → Post (finish_expired G x) s (λ _ t. Timed t) (λ _ t. Timed t)
  unfolding finish_expired
  finish-Safe x sp s h =
      Post-bind (expire_chunks G x.0 x.1) _ s (expire_chunks-Safe x.0 x.1 sp s h)
        (λ rest t k.
          Post-bind (drop_all G rest) (λ _. pure x.2) t (drop_all-Safe rest k.0 t k.1)
            (λ _ u m. Post-pure x.2 u m) (λ _ _ m. m))
        (λ _ _ k. k)
