-- ===== src/Routing/Published.antt =====
-- A CID that has been given a chunk is not announced again while it stays in the queue, also when its
-- chunk was removed and could not be replaced.
use mathlib.Core.Path.{subst}
use mathlib.Core.Option
use index_provider.Prelude.{
  ℕ, ◌≡◌, ◌≢◌, refl, sym, ap, ◌∙◌, Option, none, some, List, [], ◌∷◌, if_pos, if_neg,
}
use index_provider.Exec.{ok, pure, gets, modify, ◌>>=◌}
use index_provider.Exec.Post.{Post, Post-weaken}
use index_provider.Routing.Queue.{
  CidNode, CidQueue, with_chunk, with_time, record_cid_node, assign_cids_chunk, remove_cid_node,
  get_node_by_cid,
}
use index_provider.Routing.Queue.Links.{
  nodes, find, IsLinked, find-without, find-changed, assign_cids_chunk-changed,
  remove_cid_node-without, get_node_by_cid-find,
}
use index_provider.Routing.Queue.Kept.{assign_cids_chunk-IsLinked, remove_cid_node-IsLinked}
use index_provider.Routing.State.{Setup, with_queue}
use index_provider.Routing.Publish.{assign_all, assign_chunk}
use index_provider.Routing.Listener.{
  remove_expired_cids, provide_cid, provide_at, provide_known, add_if_none, record_node,
}
use index_provider.Routing.Steps.{L, Steps}
use index_provider.Routing.Flushed.{Flushes, append-Within}
use index_provider.Routing.Provided.{Provides}
use index_provider.Routing.Removal.{Removals, remove_expired_cids-Within}

module _ (G : Setup) where
  open G use {Cid, cid_discrete}

  -- A predicate of the queue that assigning and removing keep.
  module _ (P : CidQueue Cid → Type 0)
      (assign : (c : Cid) (r : ℕ) (q : CidQueue Cid)
        → P q
        → P (assign_cids_chunk cid_discrete c r q)) where
    abbrev pub Keeps : L G → L G → Type 0
    Keeps s t = P s.cid_queue → P t.cid_queue

    Keeps-assign_all : (r : ℕ) (cs : List Cid) (s : L G) → Keeps s (assign_all G r cs s)
    unfolding assign_all
    Keeps-assign_all r [] s p = p
    Keeps-assign_all r (c ∷ cs) s p =
        Keeps-assign_all r cs (with_queue G s (assign_cids_chunk cid_discrete c r s.cid_queue))
          (assign c r s.cid_queue p)

    pub Keeps-Steps : Steps G Keeps
    Keeps-Steps = record {
      same = λ s p. p;
      trans = λ a b c f g p. g (f p);
      quiet = λ s t k p. subst P (sym k.queue) p;
      assign = λ r s. unfold assign_chunk in Keeps-assign_all r (s.chunks r).cids s;
    }

    pub Keeps-Removals :
        ((c : Cid) (q : CidQueue Cid) → P q → P (remove_cid_node cid_discrete c q))
        → Removals G Keeps
    Keeps-Removals drop = record {
      steps = Keeps-Steps;
      drop = λ c s p. drop c s.cid_queue p;
      alloc = λ ch s p. p;
    }

    Keeps-Flushes :
        ((c : Cid) (q : CidQueue Cid) → P q → P (remove_cid_node cid_discrete c q))
        → Flushes G Keeps
    Keeps-Flushes drop = record {
      removals = Keeps-Removals drop;
      start = λ t s p. p;
      name = λ id s p. p;
    }

    pub Keeps-Provides :
        ((c : Cid) (q : CidQueue Cid) → P q → P (remove_cid_node cid_discrete c q))
        → ((n : CidNode Cid) (q : CidQueue Cid) → P q → P (record_cid_node cid_discrete n q))
        → Provides G Keeps
    Keeps-Provides drop note = record {
      flushes = Keeps-Flushes drop;
      note = λ n s p. note n s.cid_queue p;
      append = append-Within G Keeps (Keeps-Flushes drop) (λ c s p. p);
    }

  -- The queue is linked, and the CID is not in it without a chunk.
  pub record HasChunk (c : Cid) (q : CidQueue Cid) : Type 0 where
    pub linked : IsLinked cid_discrete q
    pub chunk : (n : CidNode Cid) → find cid_discrete c (nodes q) ≡ some n → n.chunk ≢ none

  changed_chunk :
      (r : ℕ) (o : Option (CidNode Cid)) (n : CidNode Cid)
      → Option.map (with_chunk r) o ≡ some n
      → n.chunk ≢ none
  changed_chunk r none n p = absurd (cc)
  changed_chunk r (some m) n p = λ z. cc

  HasChunk-assign :
      (c j : Cid) (r : ℕ) (q : CidQueue Cid)
      → HasChunk c q
      → HasChunk c (assign_cids_chunk cid_discrete j r q)
  HasChunk-assign c j r q h = record {
    linked = assign_cids_chunk-IsLinked cid_discrete j r q h.linked;
    chunk = λ n p.
        let found =
          sym (find-changed cid_discrete j c (with_chunk r) (nodes q) (λ m. refl))
          ∙ ap (find cid_discrete c) (sym (assign_cids_chunk-changed cid_discrete j r q h.linked))
          ∙ p in
        elim (cid_discrete j c) [
          | yes y ↦
              changed_chunk r (find cid_discrete c (nodes q)) n
                (sym (if_pos (cid_discrete j c) y _ _) ∙ found)
          | no y ↦ h.chunk n (sym (if_neg (cid_discrete j c) y _ _) ∙ found)
        ];
  }

  HasChunk-remove :
      (c j : Cid) (q : CidQueue Cid) → HasChunk c q → HasChunk c (remove_cid_node cid_discrete j q)
  HasChunk-remove c j q h = record {
    linked = remove_cid_node-IsLinked cid_discrete j q h.linked;
    chunk = λ n p.
        let found =
          sym (find-without cid_discrete j c (nodes q))
          ∙ ap (find cid_discrete c) (sym (remove_cid_node-without cid_discrete j q h.linked))
          ∙ p in
        elim (cid_discrete j c) [
          | yes y ↦
              absurd (
                cc (sym (if_pos (cid_discrete j c) y none (find cid_discrete c (nodes q))) ∙ found))
          | no y ↦ h.chunk n (sym (if_neg (cid_discrete j c) y _ _) ∙ found)
        ];
  }

  -- Whatever the engine and the datastore do, removing expired CIDs leaves no CID without a chunk that
  -- had one.
  remove_expired-HasChunk :
      (c : Cid) (s : L G)
      → HasChunk c s.cid_queue
      → Post
          (remove_expired_cids G)
          s
          (λ _ t. HasChunk c t.cid_queue)
          (λ _ t. HasChunk c t.cid_queue)
  remove_expired-HasChunk c s h =
      Post-weaken _ s
        ((remove_expired_cids-Within G (Keeps (HasChunk c) (λ j r q. HasChunk-assign c j r q)) (
            Keeps-Removals (HasChunk c) (λ j r q. HasChunk-assign c j r q)
              (λ j q. HasChunk-remove c j q))).at
          s)
        (λ _ t k. k h) (λ _ t k. k h)

  -- What `ProvideBitswap` does with a CID of the queue that has a chunk: its time is set.
  provide_published :
      (c : Cid) (start : ℕ) (n : CidNode Cid) (t : L G)
      → get_node_by_cid cid_discrete c t.cid_queue ≡ some n
      → n.chunk ≢ none
      → provide_cid G c start t ≡ (ok tt, record_node G (with_time start n) t)
  unfolding provide_cid provide_at provide_known ◌>>=◌ modify gets
  provide_published c start n t is has = rw (is) (settled n.chunk has)
    where
      settled :
          (o : Option ℕ)
          → o ≢ none
          → add_if_none G c o (record_node G (with_time start n) t)
            ≡ (ok tt, record_node G (with_time start n) t)
      settled none h = absurd (h refl)
      settled (some r) h = unfold add_if_none in unfold pure in refl

  abbrev pub Settled : Cid → ℕ → L G → Type 0
  Settled c start t =
      (n : CidNode Cid)
      → get_node_by_cid cid_discrete c t.cid_queue ≡ some n
      → provide_cid G c start t ≡ (ok tt, record_node G (with_time start n) t)

  Settled-if : (c : Cid) (start : ℕ) (t : L G) → HasChunk c t.cid_queue → Settled c start t
  Settled-if c start t h n p =
      provide_published c start n t p
        (h.chunk n (sym (get_node_by_cid-find cid_discrete c t.cid_queue h.linked) ∙ p))

  -- If the queue is linked and the CID has a chunk, then after `removeExpiredCids`, also if the chunk
  -- was removed at the engine and its replacement was refused, a CID that is still in the queue only
  -- gets a new time when it is provided again: no chunk, current or other, gets it.
  pub remove_expired-Settled :
      (c : Cid) (start : ℕ) (s : L G)
      → HasChunk c s.cid_queue
      → Post (remove_expired_cids G) s (λ _ t. Settled c start t) (λ _ t. Settled c start t)
  remove_expired-Settled c start s h =
      Post-weaken _ s (remove_expired-HasChunk c s h) (λ _ t k. Settled-if c start t k)
        (λ _ t k. Settled-if c start t k)
