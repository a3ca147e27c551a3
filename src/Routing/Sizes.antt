-- ===== src/Routing/Sizes.antt =====
-- The current chunk never has more CIDs than the chunk size.
use mathlib.Core.Path.{subst}
use index_provider.Prelude.{
  ℕ, suc, ◌<◌, ◌==◌, ◌≡◌, sym, leb, length, inl, inr, false, List, [], ◌∷◌, arith, if◌then◌else◌,
  add, member, Bool-cases,
}
use index_provider.Exec.{Exec, pure, modify}
use index_provider.Exec.Within.{Within}
use index_provider.Exec.Post.{
  Post, Post-pure, Post-bind, Post-weaken, Post-modify, Post-gets-bind, Post-if, Post-if_then,
}
use index_provider.Schema.{Bytes, PeerId}
use index_provider.Routing.Queue.{assign_cids_chunk}
use index_provider.Routing.State.{Setup, CidsChunk, current, with_queue, alloc_chunk, time_now}
use index_provider.Routing.Chunks.{
  empty_chunk, start_chunk, set_new_current_chunk, name_current, publish_current,
  flush_current_chunk, put_cid, make_room, add_unless,
}
use index_provider.Routing.Publish.{assign_all, assign_chunk, notify_put_and_persist}
use index_provider.Routing.Requests.{provide_bitswap, flush_func}
use index_provider.Routing.Steps.{L, Quiet}
use index_provider.Routing.Flushed.{Flushes, publish_current-Within}
use index_provider.Routing.Provided.{Provides, provide_bitswap-Within, flush_func-Within}

module _ (G : Setup) where
  open G use {Cid, cid_discrete, chunk_size}

  -- There is a current chunk, of fewer CIDs than the number.
  abbrev pub Below : ℕ → L G → Type 0
  Below n s = (s.current_chunk < s.next_chunk) × (length (current G s).cids < n)

  -- At most as many CIDs as the chunk size.
  abbrev pub Small : L G → Type 0
  Small s = Below (suc chunk_size) s

  abbrev Keeps : L G → L G → Type 0
  Keeps s t = Small s → Small t

  at_self : {A : Type 0} (n : ℕ) (a b : A) → (if n == n then a else b) ≡ a
  at_self n a b = ground arith

  at_other : {A : Type 0} (m n : ℕ) (a b : A) → m < n → (if n == m then a else b) ≡ b
  at_other m n a b h = ground (arith, h)

  Small-assign_all : (r : ℕ) (cs : List Cid) (s : L G) → Keeps s (assign_all G r cs s)
  unfolding assign_all
  Small-assign_all r [] s h = h
  Small-assign_all r (c ∷ cs) s h =
      Small-assign_all r cs (with_queue G s (assign_cids_chunk cid_discrete c r s.cid_queue)) h

  Small-alloc : (ch : CidsChunk Cid) (s : L G) → Keeps s (alloc_chunk G ch s)
  Small-alloc ch s h = (
    omega (arith, h.0),
    subst (λ x. length x.cids < suc chunk_size)
        (sym (at_other s.current_chunk s.next_chunk ch (current G s) h.0)) h.1,
  )

  Small-start : (t : ℕ) (s : L G) (n : ℕ) → 0 < n → Below n (start_chunk G t s)
  Small-start t s n h = (
    omega arith,
    subst (λ x. length x.cids < n)
        (sym (at_self s.next_chunk (empty_chunk G) (s.chunks s.next_chunk))) h,
  )

  Small-name : (id : Bytes) (s : L G) → Keeps s (name_current G id s)
  Small-name id s h = (
    h.0,
    subst (λ x. length x.cids < suc chunk_size)
        (sym (at_self s.current_chunk (record (current G s) { context_id = id }) (current G s)))
        h.1,
  )

  length-add :
      (c : Cid) (cs : List Cid) (n : ℕ) → length cs < n → length (add cid_discrete c cs) < suc n
  unfolding add
  length-add c cs n h = elim (Bool-cases (member cid_discrete c cs)) [
    | inl e ↦ rw (e, add) (omega (arith, h))
    | inr e ↦ rw (e, add) (omega (arith, h))
  ]

  Small-put : (c : Cid) (s : L G) → Below chunk_size s → Small (put_cid G c s)
  Small-put c s h = (
    h.0,
    subst (λ x. length x.cids < suc chunk_size)
        (sym (
          at_self s.current_chunk
            (record (current G s) { cids = add cid_discrete c (current G s).cids }) (current G s)))
        (length-add c (current G s).cids chunk_size h.1),
  )

  Quiet-Small : (s t : L G) → Quiet G s t → Keeps s t
  Quiet-Small s t k h = (rw (k.current, k.next) h.0, rw (k.chunks, k.current) h.1)

  small_flushes : Flushes G Keeps
  small_flushes = record {
    removals = record {
      steps = record {
        same = λ s h. h;
        trans = λ a b c p q h. q (p h);
        quiet = λ s t k h. Quiet-Small s t k h;
        assign = λ r s. unfold assign_chunk in Small-assign_all r (s.chunks r).cids s;
      };
      drop = λ c s h. h;
      alloc = Small-alloc;
    };
    start = λ t s h. Small-start t s (suc chunk_size) (omega arith);
    name = Small-name;
  }

  abbrev Stays : {A : Type 0} → Exec (L G) A → L G → Type 0
  Stays m s = Post m s (λ _ t. Small t) (λ _ t. Small t)

  stays : {A : Type 0} (m : Exec (L G) A) (s : L G) → Within Keeps m → Small s → Stays m s
  stays m s w h = Post-weaken m s (w.at s) (λ _ t k. k h) (λ _ t k. k h)

  new_lem :
      (s : L G)
      → 0 < chunk_size
      → Post (set_new_current_chunk G) s (λ _ t. Below chunk_size t) (λ _ t. Small t)
  unfolding set_new_current_chunk
  new_lem s pos =
      Post-bind {P = λ n t. Unit {0}} {F = λ _ _. ⊥} (time_now G) (λ n. modify (start_chunk G n)) s
        (unfold time_now in record { at = tt })
        (λ n t _. Post-modify (start_chunk G n) t (Small-start n t chunk_size pos))
        (λ _ _ e. absurd e)

  -- After a flush that succeeds the current chunk is empty.
  flush_lem :
      (s : L G)
      → 0 < chunk_size
      → Small s
      → Post
          (flush_current_chunk G (notify_put_and_persist G))
          s
          (λ _ t. Below chunk_size t)
          (λ _ t. Small t)
  unfolding flush_current_chunk
  flush_lem s pos h =
      Post-bind (publish_current G (notify_put_and_persist G)) (λ _. set_new_current_chunk G) s
        (stays (publish_current G (notify_put_and_persist G)) s
          (publish_current-Within G Keeps small_flushes) h)
        (λ _ t k. new_lem t pos) (λ _ _ k. k)

  room_lem :
      (s : L G)
      → 0 < chunk_size
      → Small s
      → Post (make_room G (notify_put_and_persist G)) s (λ _ t. Below chunk_size t) (λ _ t. Small t)
  unfolding make_room
  room_lem s pos h =
      Post-gets-bind (λ s. length (current G s).cids)
        (λ n.
          if leb chunk_size n then flush_current_chunk G (notify_put_and_persist G) else pure tt)
        s
        (Post-if (leb chunk_size (length (current G s).cids)) _ _ s (λ _. flush_lem s pos h)
          (λ e. Post-pure tt s (h.0, ground (arith, e))))

  append_lem :
      (c : Cid) (s : L G)
      → 0 < chunk_size
      → Small s
      → Stays (add_unless G c (notify_put_and_persist G) false) s
  unfolding add_unless
  append_lem c s pos h =
      Post-bind (make_room G (notify_put_and_persist G)) (λ _. modify (put_cid G c)) s
        (room_lem s pos h) (λ _ t k. Post-modify (put_cid G c) t (Small-put c t k)) (λ _ _ k. k)

  small_append :
      0 < chunk_size → (c : Cid) → Within Keeps (add_unless G c (notify_put_and_persist G) false)
  small_append pos c = record {
    at = λ s.
        Post-if_then (λ _ t. Small t) (λ _ t. Small t) (Small s)
          (add_unless G c (notify_put_and_persist G) false) s (λ h. append_lem c s pos h);
  }

  small_provides : 0 < chunk_size → Provides G Keeps
  small_provides pos = record {
    flushes = small_flushes;
    note = λ n s h. h;
    append = small_append pos;
  }

  -- With a positive chunk size, if the current chunk has at most as many CIDs as the chunk size, then
  -- it has after `ProvideBitswap` and after a run of the flush worker, whether these succeed or fail,
  -- and also if a chunk could not be published.
  pub provide_bitswap-Small :
      (pid : PeerId) (addrs : List Bytes) (cids : List Cid) (frequency : ℕ) (s : L G)
      → 0 < chunk_size
      → Small s
      → Post (provide_bitswap G pid addrs cids) s (λ _ t. Small t) (λ _ t. Small t)
        × Post (flush_func G frequency) s (λ _ t. Small t) (λ _ t. Small t)
  provide_bitswap-Small pid addrs cids frequency s pos h = (
    stays (provide_bitswap G pid addrs cids) s
        (provide_bitswap-Within G Keeps (small_provides pos) (λ p a t k. k) pid addrs cids) h,
    stays (flush_func G frequency) s (flush_func-Within G Keeps (small_provides pos) frequency) h,
  )
