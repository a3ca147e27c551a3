-- ===== src/Routing/Flushed.antt =====
-- The flush of the current chunk as a walk of steps.
use index_provider.Prelude.{ℕ, leb, false, List}
use index_provider.Exec.{Exec, modify, gets, pure, ◌>>=◌}
use index_provider.Exec.Within.{Within, Within-if}
use index_provider.Schema.{Bytes}
use index_provider.Routing.State.{Setup, time_now}
use index_provider.Routing.Chunks.{
  start_chunk, set_new_current_chunk, name_current, publish_current, flush_current_chunk, put_cid,
  make_room, add_unless, generate_context_id,
}
use index_provider.Routing.Publish.{notify_put_and_persist}
use index_provider.Routing.Steps.{
  L, Steps, W-pure, W-gets, W-modify, W-bind, W-time_now, notify_put_and_persist-Within,
  generate_context_id-Within,
}
use index_provider.Routing.Removal.{Removals}

module _ (G : Setup) where
  open G use {Cid, cid_discrete, store as D}

  pub record Flushes (R : L G → L G → Type 0) : Type 0 where
    pub removals : Removals G R
    pub start : (t : ℕ) (s : L G) → R s (start_chunk G t s)
    pub name : (id : Bytes) (s : L G) → R s (name_current G id s)

  module _ (R : L G → L G → Type 0) (fl : Flushes R) where
    abbrev st : Steps G R
    st = fl.removals.steps

    F-pure : {A : Type 0} (a : A) → Within R (pure a)
    F-pure = W-pure G R st

    F-gets : {A : Type 0} (f : L G → A) → Within R (gets f)
    F-gets = W-gets G R st

    F-bind :
        {A B : Type 0} (m : Exec (L G) A) (f : A → Exec (L G) B)
        → Within R m
        → ((a : A) → Within R (f a))
        → Within R (m >>= f)
    F-bind = W-bind G R st

    F-start : (t : ℕ) → Within R (modify (start_chunk G t))
    F-start t = W-modify G R st (start_chunk G t) (fl.start t)

    pub name_current-Within : (id : Bytes) → Within R (modify (name_current G id))
    name_current-Within id = W-modify G R st (name_current G id) (fl.name id)

    F-time : Within R (time_now G)
    F-time = W-time_now G R st

    F-notify : (r : ℕ) → Within R (notify_put_and_persist G r)
    F-notify = notify_put_and_persist-Within G R st

    F-context : (cids : List Cid) → Within R (generate_context_id G cids)
    F-context = generate_context_id-Within G R st

    ruleset rules =
        (F-pure, F-gets, F-bind, F-start, name_current-Within, F-time, F-notify, F-context)

    F-new_chunk : Within R (set_new_current_chunk G)
    unfolding set_new_current_chunk
    F-new_chunk = search rules

    pub publish_current-Within : Within R (publish_current G (notify_put_and_persist G))
    unfolding publish_current
    publish_current-Within = search rules depth 9

    pub flush_current_chunk-Within : Within R (flush_current_chunk G (notify_put_and_persist G))
    unfolding flush_current_chunk
    flush_current_chunk-Within = search (rules, publish_current-Within, F-new_chunk)

    F-room : Within R (make_room G (notify_put_and_persist G))
    unfolding make_room
    F-room = F-bind _ _ (F-gets _) (λ n.
        Within-if R st.same st.trans (leb G.chunk_size n) _ _ flush_current_chunk-Within
          (F-pure tt))

    -- If putting a CID into the current chunk is a step.
    pub append-Within :
        ((c : Cid) (s : L G) → R s (put_cid G c s))
        → (c : Cid) → Within R (add_unless G c (notify_put_and_persist G) false)
    unfolding add_unless
    append-Within put c =
        F-bind _ (λ _. modify (put_cid G c)) F-room (λ _. W-modify G R st (put_cid G c) (put c))
