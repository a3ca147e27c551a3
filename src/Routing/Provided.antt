-- ===== src/Routing/Provided.antt =====
-- `ProvideBitswap`, and the flush of the current chunk, as walks of steps.
use index_provider.Prelude.{
  ℕ, suc, Bool, true, false, if◌then◌else◌, Option, none, some, List, [], ◌∷◌,
}
use index_provider.Exec.{
  Error, wrap, text, Result, ok, err, Exec, lift, relabel, modify, gets, pure, ◌>>=◌, recover,
}
use index_provider.Exec.Within.{Within, Within-if}
use index_provider.Schema.{Bytes, PeerId}
use index_provider.Routing.Queue.{CidNode}
use index_provider.Routing.State.{Setup, Key, time_now, on_ds}
use index_provider.Routing.Chunks.{
  flush_current_chunk, add_unless, add_cid_to_current_chunk, generate_context_id,
}
use index_provider.Routing.Store.{record_cid_timestamp}
use index_provider.Routing.Snapshot.{
  get_snapshot_chunk_keys, put_slices, delete_old, delete_timestamps, record_timestamps_snapshot,
}
use index_provider.Routing.Publish.{notify_put_and_persist}
use index_provider.Routing.Listener.{
  drop_node, record_node, add_to_chunk, provide_new, add_if_none, provide_known, provide_at,
  provide_cid, provide_one, provide_all, remove_expired_cids,
}
use index_provider.Routing.Requests.{
  take_snapshot, see, provide_seen, provide_from, provide_bitswap, flush_old, flush_func,
}
use index_provider.Routing.Steps.{
  L, Steps, W-pure, W-gets, W-modify, W-bind, W-recover, W-time_now, notify_put_and_persist-Within,
  generate_context_id-Within, W-on_ds, W-relabel, W-lift, W-raise,
}
use index_provider.Routing.Removal.{remove_expired_cids-Within}
use index_provider.Routing.Flushed.{Flushes, flush_current_chunk-Within}

module _ (G : Setup) where
  open G use {Cid, cid_discrete, store as D}

  pub record Provides (R : L G → L G → Type 0) : Type 0 where
    pub flushes : Flushes G R
    pub note : (n : CidNode Cid) (s : L G) → R s (record_node G n s)
    pub append : (c : Cid) → Within R (add_unless G c (notify_put_and_persist G) false)

  module _ (R : L G → L G → Type 0) (pr : Provides R) where
    abbrev st : Steps G R
    st = pr.flushes.removals.steps

    P-pure : {A : Type 0} (a : A) → Within R (pure a)
    P-pure = W-pure G R st

    P-gets : {A : Type 0} (f : L G → A) → Within R (gets f)
    P-gets = W-gets G R st

    P-bind :
        {A B : Type 0} (m : Exec (L G) A) (f : A → Exec (L G) B)
        → Within R m
        → ((a : A) → Within R (f a))
        → Within R (m >>= f)
    P-bind = W-bind G R st

    P-recover :
        {A B : Type 0} (m : Exec (L G) A) (f : A → Exec (L G) B) (g : Error → Exec (L G) B)
        → Within R m
        → ((a : A) → Within R (f a))
        → ((x : Error) → Within R (g x))
        → Within R (recover m f g)
    P-recover = W-recover G R st

    P-if :
        {A : Type 0} (b : Bool) (m n : Exec (L G) A)
        → Within R m
        → Within R n
        → Within R (if b then m else n)
    P-if b m n = Within-if R st.same st.trans b m n

    P-drop : (c : Cid) → Within R (modify (drop_node G c))
    P-drop c = W-modify G R st (drop_node G c) (pr.flushes.removals.drop c)

    P-note : (n : CidNode Cid) → Within R (modify (record_node G n))
    P-note n = W-modify G R st (record_node G n) (pr.note n)

    P-time : Within R (time_now G)
    P-time = W-time_now G R st

    P-notify : (r : ℕ) → Within R (notify_put_and_persist G r)
    P-notify = notify_put_and_persist-Within G R st

    P-context : (cids : List Cid) → Within R (generate_context_id G cids)
    P-context = generate_context_id-Within G R st

    ruleset rules = (P-pure, P-gets, P-bind, P-recover, P-drop, P-note, P-time, P-notify, P-context)

    P-on_ds : {A : Type 0} (m : Exec D.State A) → Within R (on_ds G m)
    P-on_ds = W-on_ds G R st

    P-relabel :
        {A : Type 0} (f : Error → Error) (m : Exec (L G) A) → Within R m → Within R (relabel f m)
    P-relabel = W-relabel G R st

    P-lift : {A : Type 0} (r : Result A) → Within R (lift r)
    P-lift = W-lift G R st

    ruleset ds_rules = (P-on_ds, P-relabel, P-lift)

    P-flush : Within R (flush_current_chunk G (notify_put_and_persist G))
    P-flush = flush_current_chunk-Within G R pr.flushes

    P-unless : (c : Cid) (b : Bool) → Within R (add_unless G c (notify_put_and_persist G) b)
    unfolding add_unless
    P-unless c true = P-pure tt
    P-unless c false = pr.append c

    P-cid_chunk : (c : Cid) → Within R (add_cid_to_current_chunk G c (notify_put_and_persist G))
    unfolding add_cid_to_current_chunk
    P-cid_chunk c = search (rules, P-unless)

    P-add : (c : Cid) → Within R (add_to_chunk G c)
    unfolding add_to_chunk
    P-add = P-cid_chunk

    P-new : (c : Cid) (t : ℕ) → Within R (provide_new G c t)
    unfolding provide_new
    P-new c t = search (rules, P-add)

    P-if_none : (c : Cid) (o : Option ℕ) → Within R (add_if_none G c o)
    unfolding add_if_none
    P-if_none c none = search (rules, P-add)
    P-if_none c (some r) = search rules

    P-known : (c : Cid) (n : CidNode Cid) (t : ℕ) → Within R (provide_known G c n t)
    unfolding provide_known
    P-known c n t = search (rules, P-if_none)

    P-at : (c : Cid) (t : ℕ) (o : Option (CidNode Cid)) → Within R (provide_at G c t o)
    unfolding provide_at
    P-at c t none = P-new c t
    P-at c t (some n) = P-known c n t

    P-cid : (c : Cid) (t : ℕ) → Within R (provide_cid G c t)
    unfolding provide_cid
    P-cid c t = search (rules, P-at)

    P-persist : (c : Cid) (t : ℕ) → Within R (record_cid_timestamp G c t)
    unfolding record_cid_timestamp
    P-persist c t = search (rules, ds_rules)

    P-one : (b : Bool) (c : Cid) (t : ℕ) → Within R (provide_one G b c t)
    unfolding provide_one
    P-one true c t = search (rules, P-cid, P-persist)
    P-one false c t = P-cid c t

    pub provide_all-Within : (b : Bool) (cs : List Cid) (t : ℕ) → Within R (provide_all G b cs t)
    unfolding provide_all
    provide_all-Within b [] t = P-pure tt
    provide_all-Within b (c ∷ cs) t =
        P-bind _ (λ _. provide_all G b cs t) (P-one b c t) (λ _. provide_all-Within b cs t)

    pub get_snapshot_chunk_keys-Within : Within R (get_snapshot_chunk_keys G)
    unfolding get_snapshot_chunk_keys
    get_snapshot_chunk_keys-Within = search (rules, ds_rules)

    P-slices :
        (n : ℕ) (sls : List (List (CidNode Cid))) (old : List (Key Cid))
        → Within R (put_slices G n sls old)
    unfolding put_slices
    P-slices n [] old = P-pure old
    P-slices n (sl ∷ sls) old = search (rules, ds_rules, P-slices (suc n) sls)

    P-delete_old : (ks : List (Key Cid)) → Within R (delete_old G ks)
    unfolding delete_old
    P-delete_old [] = P-pure tt
    P-delete_old (k ∷ ks) =
        P-bind _ (λ _. delete_old G ks)
          (P-relabel (wrap "error cleaning up snapshot chunks from the datastore")
            (on_ds G (D.delete k)) (P-on_ds (D.delete k)))
          (λ _. P-delete_old ks)

    P-delete_timestamps : (rs : List (Result (Key Cid × Bytes))) → Within R (delete_timestamps G rs)
    unfolding delete_timestamps
    P-delete_timestamps [] = P-pure tt
    P-delete_timestamps (err e ∷ rs) = P-delete_timestamps rs
    P-delete_timestamps (ok (k, v) ∷ rs) =
        P-recover _ (λ _. delete_timestamps G rs) (λ _. delete_timestamps G rs) (P-on_ds _)
          (λ _. P-delete_timestamps rs) (λ _. P-delete_timestamps rs)

    pub record_timestamps_snapshot-Within :
        (ns : List (CidNode Cid)) → Within R (record_timestamps_snapshot G ns)
    unfolding record_timestamps_snapshot
    record_timestamps_snapshot-Within ns =
        search
          (
            rules, ds_rules, get_snapshot_chunk_keys-Within, P-slices, P-delete_old,
            P-delete_timestamps,
          )
          depth 10

    P-snapshot : (b : Bool) → Within R (take_snapshot G b)
    unfolding take_snapshot
    P-snapshot true = search (rules, record_timestamps_snapshot-Within)
    P-snapshot false = P-pure tt

    P-remove : Within R (remove_expired_cids G)
    P-remove = remove_expired_cids-Within G R pr.flushes.removals

    pub provide_seen-Within : (start : ℕ) (cids : List Cid) → Within R (provide_seen G start cids)
    unfolding provide_seen
    provide_seen-Within start cids = search (rules, provide_all-Within, P-remove, P-snapshot)

    module _ (P-see : (pid : PeerId) (addrs : List Bytes) (s : L G) → R s (see G pid addrs s)) where
      P-from :
          (start : ℕ) (pid : PeerId) (addrs : List Bytes) (cids : List Cid) (b : Bool)
          → Within R (provide_from G start pid addrs cids b)
      unfolding provide_from
      P-from start pid addrs cids true =
          P-bind (modify (see G pid addrs)) (λ _. provide_seen G start cids)
            (W-modify G R st (see G pid addrs) (P-see pid addrs))
            (λ _. provide_seen-Within start cids)
      P-from start pid addrs cids false = W-raise G R st (text "provider isn't allowed")

      pub provide_bitswap-Within :
          (pid : PeerId) (addrs : List Bytes) (cids : List Cid)
          → Within R (provide_bitswap G pid addrs cids)
      unfolding provide_bitswap
      provide_bitswap-Within pid addrs cids = search (rules, P-from)

    P-old : (frequency : ℕ) (b : Bool) → Within R (flush_old G frequency b)
    unfolding flush_old
    P-old frequency true = search (rules, P-flush)
    P-old frequency false = P-pure tt

    pub flush_func-Within : (frequency : ℕ) → Within R (flush_func G frequency)
    unfolding flush_func
    flush_func-Within frequency = search (rules, P-old)
