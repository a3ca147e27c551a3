-- ===== src/Routing/Started.antt =====
-- The queue that `New` fills from the datastore is linked.
use index_provider.Prelude.{
  ℕ, zero, suc, ◌+◌, ◌==◌, Bool, true, false, Option, none, some, List, [], ◌∷◌, ◌++◌,
}
use index_provider.Exec.{
  Error, wrap, panic, Result, ok, err, Exec, pure, lift, gets, modify, relabel, recover, ◌>>=◌,
}
use index_provider.Exec.Within.{Within, Within-if}
use index_provider.Exec.Post.{Post, Post-weaken}
use index_provider.Schema.{Bytes}
use index_provider.Routing.Queue.{CidNode, get_node_by_cid}
use index_provider.Routing.Queue.Kept.{assign_cids_chunk-IsLinked}
use index_provider.Routing.Queue.Recorded.{record_cid_node-recorded}
use index_provider.Routing.State.{Setup, Listener, CidsChunk, Key, on_ds, alloc_chunk, tick}
use index_provider.Routing.Snapshot.{
  read_snapshot_from_ds, read_slices, parse_slice, get_snapshot_chunk_keys,
}
use index_provider.Routing.Listener.{record_node}
use index_provider.Routing.Restore.{
  is_chunk, import_at, import_cids, import_chunk, import_unless, import_page, unless_empty,
  read_pages, initialise_chunks, import_nodes, initialise_cids, write_merged, restore,
}
use index_provider.Routing.Steps.{
  Steps, W-pure, W-raise, W-lift, W-gets, W-modify, W-bind, W-recover, W-relabel, W-on_ds,
}
use index_provider.Routing.Provided.{
  get_snapshot_chunk_keys-Within, record_timestamps_snapshot-Within,
}
use index_provider.Routing.Linked.{Linked, R, linked_steps}

module _ (G : Setup) where
  open G use {Cid, cid_discrete, store as D, pages as P}

  abbrev T : Listener G → Listener G → Type 0
  T = R G

  abbrev st : Steps G T
  st = (linked_steps G).flushes.removals.steps

  S-pure : {A : Type 0} (a : A) → Within T (pure a)
  S-pure = W-pure G T st

  S-gets : {A : Type 0} (f : Listener G → A) → Within T (gets f)
  S-gets = W-gets G T st

  S-lift : {A : Type 0} (r : Result A) → Within T (lift r)
  S-lift = W-lift G T st

  S-on_ds : {A : Type 0} (m : Exec D.State A) → Within T (on_ds G m)
  S-on_ds = W-on_ds G T st

  S-relabel :
      {A : Type 0} (f : Error → Error) (m : Exec (Listener G) A)
      → Within T m
      → Within T (relabel f m)
  S-relabel = W-relabel G T st

  S-bind :
      {A B : Type 0} (m : Exec (Listener G) A) (f : A → Exec (Listener G) B)
      → Within T m
      → ((a : A) → Within T (f a))
      → Within T (m >>= f)
  S-bind = W-bind G T st

  S-recover :
      {A B : Type 0} (m : Exec (Listener G) A) (f : A → Exec (Listener G) B)
      (g : Error → Exec (Listener G) B)
      → Within T m
      → ((a : A) → Within T (f a))
      → ((x : Error) → Within T (g x))
      → Within T (recover m f g)
  S-recover = W-recover G T st

  at-Linked :
      (r now : ℕ) (c : Cid) (o : Option (CidNode Cid)) (s : Listener G)
      → T s (import_at G r now c o s)
  unfolding import_at
  at-Linked r now c (some n) s h = assign_cids_chunk-IsLinked cid_discrete c r s.cid_queue h
  at-Linked r now c none s h = (record_cid_node-recorded cid_discrete _ s.cid_queue h).0

  cids-Linked : (r now : ℕ) (cs : List Cid) (s : Listener G) → T s (import_cids G r now cs s)
  unfolding import_cids
  cids-Linked r now [] s h = h
  cids-Linked r now (c ∷ cs) s h =
      cids-Linked r now cs _ (at-Linked r now c (get_node_by_cid cid_discrete c s.cid_queue) s h)

  unless-Linked : (b : Bool) (ch : CidsChunk Cid) (s : Listener G) → T s (import_unless G b ch s)
  unfolding import_unless import_chunk
  unless-Linked true ch s h = h
  unless-Linked false ch s h =
      cids-Linked s.next_chunk (G.clock s.ticks) ch.cids (alloc_chunk G ch (tick G s)) h

  nodes-Linked : (ns : List (CidNode Cid)) (s : Listener G) → T s (import_nodes G ns s)
  unfolding import_nodes
  nodes-Linked [] s h = h
  nodes-Linked (n ∷ ns) s h =
      nodes-Linked ns (record_node G n s) (record_cid_node-recorded cid_discrete n s.cid_queue h).0

  S-unless : (ch : CidsChunk Cid) → Within T (modify (import_unless G ch.removed ch))
  S-unless ch = W-modify G T st (import_unless G ch.removed ch) (unless-Linked ch.removed ch)

  S-nodes : (ns : List (CidNode Cid)) → Within T (modify (import_nodes G ns))
  S-nodes ns = W-modify G T st (import_nodes G ns) (nodes-Linked ns)

  S-keys : Within T (get_snapshot_chunk_keys G)
  S-keys = get_snapshot_chunk_keys-Within G T (linked_steps G)

  ruleset rules =
      (S-pure, S-gets, S-lift, S-on_ds, S-relabel, S-bind, S-recover, S-unless, S-nodes, S-keys)

  S-page : (rs : List (Result (Key Cid × Bytes))) → Within T (import_page G rs)
  unfolding import_page
  S-page [] = S-pure tt
  S-page (err e ∷ rs) = W-raise G T st (wrap "error fetching datastore record" e)
  S-page (ok (k, v) ∷ rs) =
      S-bind _ (λ ch. modify (import_unless G ch.removed ch) >>= λ _. import_page G rs)
        (S-relabel (wrap "error deserialising record from the datastore") (lift (G.decode_chunk v))
          (S-lift (G.decode_chunk v)))
        (λ ch. S-bind _ (λ _. import_page G rs) (S-unless ch) (λ _. S-page rs))

  S-rest :
      (rs : List (Result (Key Cid × Bytes))) (m : Exec (Listener G) Bool)
      → Within T m
      → Within T (unless_empty G rs m)
  unfolding unless_empty
  S-rest [] m h = S-pure true
  S-rest (r ∷ rs) m h = h

  S-pages : (n offset : ℕ) → Within T (read_pages G n offset)
  unfolding read_pages
  S-pages zero offset = S-pure false
  S-pages (suc n) offset =
      let rest = read_pages G n (offset + G.page_size) in
      S-bind _ (λ rs. import_page G rs >>= λ _. unless_empty G rs rest)
        (S-relabel (wrap "error reading from the datastore")
          (on_ds G (P.query_page is_chunk offset G.page_size))
          (S-on_ds (P.query_page is_chunk offset G.page_size)))
        (λ rs.
          S-bind (import_page G rs) (λ _. unless_empty G rs rest) (S-page rs)
            (λ _. S-rest rs rest (S-pages n (offset + G.page_size))))

  S-chunks : (bound : ℕ) → Within T (initialise_chunks G bound)
  unfolding initialise_chunks
  S-chunks bound =
      Within-if T st.same st.trans (G.page_size == 0) _ _ (W-raise G T st panic) (S-pages bound 0)

  S-slices : (ks : List (Key Cid)) → Within T (read_slices G ks)
  unfolding read_slices
  S-slices [] = S-pure []
  S-slices (k ∷ ks) =
      S-bind _
        (λ o. relabel (wrap "error parsing timestamps snapshot") (lift (parse_slice G o)) >>= λ ns.
          read_slices G ks >>= λ rest. pure (ns ++ rest))
        (S-relabel (wrap "error reading timestamps snapshot from the datastore") (on_ds G (D.get k))
          (S-on_ds (D.get k)))
        (λ o.
          S-bind _ (λ ns. read_slices G ks >>= λ rest. pure (ns ++ rest))
            (S-relabel (wrap "error parsing timestamps snapshot") (lift (parse_slice G o))
              (S-lift (parse_slice G o)))
            (λ ns.
              S-bind (read_slices G ks) (λ rest. pure (ns ++ rest)) (S-slices ks)
                (λ rest. S-pure (ns ++ rest))))

  S-snapshot : Within T (read_snapshot_from_ds G)
  unfolding read_snapshot_from_ds
  S-snapshot = search (rules, S-slices)

  S-cids : Within T (initialise_cids G)
  unfolding initialise_cids
  S-cids = search (rules, S-snapshot)

  S-merged : (b : Bool) → Within T (write_merged G b)
  unfolding write_merged
  S-merged true = S-pure tt
  S-merged false = search (rules, record_timestamps_snapshot-Within G T (linked_steps G))

  S-restore : (bound : ℕ) → Within T (restore G bound)
  unfolding restore
  S-restore bound = search (rules, S-cids, S-chunks, S-merged)

  -- If the map and the list of the queue are linked, as in a new queue, then they are when `New` has
  -- read the snapshot, the entries of single CIDs and the chunks, whether that succeeds or fails.
  pub restore-IsLinked :
      (bound : ℕ) (s : Listener G)
      → Linked G s
      → Post (restore G bound) s (λ _ t. Linked G t) (λ _ t. Linked G t)
  restore-IsLinked bound s h =
      Post-weaken (restore G bound) s ((S-restore bound).at s) (λ _ t k. k h) (λ _ t k. k h)
