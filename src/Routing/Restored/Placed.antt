-- ===== src/Routing/Restored/Placed.antt =====
-- Where the CIDs of imported chunks are afterwards, described without the importer.
use mathlib.Core.Option
use index_provider.Prelude.{
  ℕ, suc, ◌+◌, ◌==◌, ◌≡◌, refl, sym, ap, ◌∙◌, Bool, true, false, Option, none, some, List, [], ◌∷◌,
  length, ite, if◌then◌else◌, member, arith,
}
use mathlib.Core.Path.{subst}
use index_provider.Exec.{ok}
use index_provider.Routing.Queue.{
  CidNode, CidQueue, with_chunk, get_node_by_cid, assign_cids_chunk, record_cid_node,
}
use index_provider.Routing.Queue.Links.{
  nodes, find, recorded, IsLinked, get_node_by_cid-find, assign_cids_chunk-changed, find-changed,
}
use index_provider.Routing.Queue.Kept.{assign_cids_chunk-IsLinked}
use index_provider.Routing.Queue.Recorded.{record_cid_node-recorded}
use index_provider.Routing.State.{Setup, Listener, CidsChunk, with_queue, alloc_chunk, tick}
use index_provider.Routing.Restore.{import_at, import_cids, import_chunk, import_unless}
use index_provider.Routing.Restored.Entries.{Imported, Entry}

module _ (G : Setup) where
  open G use {Cid, cid_discrete}

  abbrev L : Type 0
  L = Listener G

  -- The chunks of the entries in their order, without those that are marked as removed.
  abbrev pub Decoded : List (Entry G) → List (CidsChunk Cid) → Type 0
  Decoded [] chs = chs ≡ []
  Decoded ((k, v) ∷ es) chs =
      (ch : CidsChunk Cid) × (rest : List (CidsChunk Cid)) × (G.decode_chunk v ≡ ok ch)
      × Decoded es rest
      × (chs ≡ (if ch.removed then rest else ch ∷ rest))

  -- The node of a CID that is put into the chunk with a number: one that is known keeps its time.
  abbrev pub in_chunk : ℕ → ℕ → Cid → Option (CidNode Cid) → CidNode Cid
  in_chunk r now c none = record { timestamp = now; c = c; chunk = some r }
  in_chunk r now c (some n) = record n { chunk = some r }

  abbrev pub joined : ℕ → ℕ → Cid → List Cid → Option (CidNode Cid) → Option (CidNode Cid)
  joined r now c cs o = if member cid_discrete c cs then some (in_chunk r now c o) else o

  -- The node of a CID after the chunks, which get the numbers from the first one on and a time each, so
  -- that it is in the last of them that has the CID.
  abbrev pub placed :
      Cid → List (CidsChunk Cid) → ℕ → ℕ → Option (CidNode Cid) → Option (CidNode Cid)
  placed c [] r k o = o
  placed c (ch ∷ chs) r k o = placed c chs (suc r) (suc k) (joined r (G.clock k) c ch.cids o)

  -- The heap with the chunks from the first number on.
  abbrev pub stored : List (CidsChunk Cid) → ℕ → (ℕ → CidsChunk Cid) → ℕ → CidsChunk Cid
  stored [] r h = h
  stored (ch ∷ chs) r h = stored chs (suc r) (λ i. if r == i then ch else h i)

  -- The first state with what the importer may change taken from the second.
  abbrev pub changed_to : L → L → L
  changed_to s t = record s {
    ds = t.ds;
    chunks = t.chunks;
    next_chunk = t.next_chunk;
    cid_queue = t.cid_queue;
    ticks = t.ticks;
  }

  -- The chunks are in the heap, every CID is where the last chunk that has it is, and nothing else is
  -- changed but the datastore's own state.
  pub record Imports (es : List (Entry G)) (s t : L) : Type 0 where
    pub chs : List (CidsChunk Cid)
    pub decoded : Decoded es chs
    pub allocated : t.next_chunk ≡ s.next_chunk + length chs
    pub ticked : t.ticks ≡ s.ticks + length chs
    pub others : t ≡ changed_to s t
    pub heap : t.chunks ≡ stored chs s.next_chunk s.chunks
    pub linked : IsLinked cid_discrete t.cid_queue
    pub queue :
        (c : Cid)
        → find cid_discrete c (nodes t.cid_queue)
          ≡ placed c chs s.next_chunk s.ticks (find cid_discrete c (nodes s.cid_queue))

  abbrev look : Cid → CidQueue Cid → Option (CidNode Cid)
  look c q = find cid_discrete c (nodes q)

  -- A queue in which one CID has been put into a chunk.
  abbrev Puts : ℕ → ℕ → Cid → CidQueue Cid → CidQueue Cid → Type 0
  Puts r now c q q' =
      IsLinked cid_discrete q'
      × ((j : Cid)
          → look j q' ≡ ite (cid_discrete c j) (some (in_chunk r now j (look j q))) (look j q))

  Puts-known :
      (r now : ℕ) (c : Cid) (n : CidNode Cid) (q : CidQueue Cid)
      → IsLinked cid_discrete q
      → look c q ≡ some n
      → Puts r now c q (assign_cids_chunk cid_discrete c r q)
  Puts-known r now c n q k is = (
    assign_cids_chunk-IsLinked cid_discrete c r q k,
    λ j.
        ap (find cid_discrete j) (assign_cids_chunk-changed cid_discrete c r q k)
        ∙ find-changed cid_discrete c j (with_chunk r) (nodes q) (λ n. refl)
        ∙ at j (cid_discrete c j),
  )
    where
      at :
          (j : Cid) (d : Dec (c ≡ j))
          → ite d (Option.map (with_chunk r) (look j q)) (look j q)
            ≡ ite d (some (in_chunk r now j (look j q))) (look j q)
      at j (yes p) =
          let here : look j q ≡ some n = subst (λ d. look d q ≡ some n) p is in rw (here) refl
      at j (no p) = refl

  Puts-new :
      (r now : ℕ) (c : Cid) (q : CidQueue Cid)
      → IsLinked cid_discrete q
      → look c q ≡ none
      → Puts r now c q
          (record_cid_node cid_discrete (record { timestamp = now; c = c; chunk = some r }) q)
  unfolding recorded find
  Puts-new r now c q k is =
      let done = record_cid_node-recorded cid_discrete (in_chunk r now c none) q k in
      (
        done.0,
        λ j.
            ap (find cid_discrete j)
              (done.1 ∙ ap (λ o. recorded cid_discrete (in_chunk r now c none) o (nodes q)) is)
            ∙ at j (cid_discrete c j),
      )
    where
      at :
          (j : Cid) (d : Dec (c ≡ j))
          → ite d (some (in_chunk r now c none)) (look j q)
            ≡ ite d (some (in_chunk r now j (look j q))) (look j q)
      at j (yes p) =
          let here : look j q ≡ none = subst (λ d. look d q ≡ none) p is in
          rw (here) (ap (λ d. some (in_chunk r now d none)) p)
      at j (no p) = refl

  import_at-Puts :
      (r now : ℕ) (c : Cid) (o : Option (CidNode Cid)) (s : L)
      → IsLinked cid_discrete s.cid_queue
      → look c s.cid_queue ≡ o
      → (q : CidQueue Cid) × (import_at G r now c o s ≡ with_queue G s q)
        × Puts r now c s.cid_queue q
  unfolding import_at
  import_at-Puts r now c (some n) s k is =
      (assign_cids_chunk cid_discrete c r s.cid_queue, refl, Puts-known r now c n s.cid_queue k is)
  import_at-Puts r now c none s k is = (
    record_cid_node cid_discrete (in_chunk r now c none) s.cid_queue,
    refl,
    Puts-new r now c s.cid_queue k is,
  )

  -- A queue in which the CIDs of a list have been put into a chunk.
  abbrev PutsAll : ℕ → ℕ → List Cid → CidQueue Cid → CidQueue Cid → Type 0
  PutsAll r now cs q q' =
      IsLinked cid_discrete q' × ((j : Cid) → look j q' ≡ joined r now j cs (look j q))

  twice :
      (r now : ℕ) (c j : Cid) (cs : List Cid) (o : Option (CidNode Cid))
      → joined r now j cs (ite (cid_discrete c j) (some (in_chunk r now j o)) o)
        ≡ joined r now j (c ∷ cs) o
  unfolding member
  twice r now c j cs o = cases (cid_discrete c j)
    where
      same :
          (b : Bool) (o : Option (CidNode Cid))
          → (if b
              then some (in_chunk r now j (some (in_chunk r now j o)))
              else some (in_chunk r now j o))
            ≡ some (in_chunk r now j o)
      same true none = refl
      same true (some n) = refl
      same false o = refl

      cases :
          (d : Dec (c ≡ j))
          → joined r now j cs (ite d (some (in_chunk r now j o)) o)
            ≡ (if ite d true (member cid_discrete j cs) then some (in_chunk r now j o) else o)
      cases (yes p) = same (member cid_discrete j cs) o
      cases (no p) = refl

  import_cids-PutsAll :
      (r now : ℕ) (cs : List Cid) (s : L)
      → IsLinked cid_discrete s.cid_queue
      → (q : CidQueue Cid) × (import_cids G r now cs s ≡ with_queue G s q)
        × PutsAll r now cs s.cid_queue q
  unfolding import_cids member
  import_cids-PutsAll r now [] s k = (s.cid_queue, refl, (k, λ j. refl))
  import_cids-PutsAll r now (c ∷ cs) s k =
      let first =
        import_at-Puts r now c (get_node_by_cid cid_discrete c s.cid_queue) s k
          (sym (get_node_by_cid-find cid_discrete c s.cid_queue k)) in
      let rest = import_cids-PutsAll r now cs (with_queue G s first.0) first.2.0 in
      (
        rest.0,
        ap (import_cids G r now cs) first.1 ∙ rest.1,
        (
          rest.2.0,
          λ j.
              rest.2.1 j
              ∙ ap (joined r now j cs) (first.2.1 j)
              ∙ twice r now c j cs (look j s.cid_queue),
        ),
      )

  -- The state after one chunk has been imported.
  record ImportsOne (ch : CidsChunk Cid) (s t : L) : Type 0 where
    allocated : t.next_chunk ≡ suc s.next_chunk
    ticked : t.ticks ≡ suc s.ticks
    others : t ≡ changed_to s t
    heap : t.chunks ≡ (λ i. if s.next_chunk == i then ch else s.chunks i)
    linked : IsLinked cid_discrete t.cid_queue
    queue :
        (c : Cid)
        → look c t.cid_queue ≡ joined s.next_chunk (G.clock s.ticks) c ch.cids (look c s.cid_queue)

  import_chunk_lem :
      (ch : CidsChunk Cid) (s : L)
      → IsLinked cid_discrete s.cid_queue
      → ImportsOne ch s (import_chunk G ch s)
  unfolding import_chunk
  import_chunk_lem ch s k =
      let all =
        import_cids-PutsAll s.next_chunk (G.clock s.ticks) ch.cids (alloc_chunk G ch (tick G s))
          k in
      record {
        allocated = ap (λ x. x.next_chunk) all.1;
        ticked = ap (λ x. x.ticks) all.1;
        others = subst (λ x. x ≡ changed_to s x) (sym all.1) refl;
        heap = ap (λ x. x.chunks) all.1;
        linked = subst (λ x. IsLinked cid_discrete x.cid_queue) (sym all.1) all.2.0;
        queue = λ c. ap (λ x. look c x.cid_queue) all.1 ∙ all.2.1 c;
      }

  -- Importing the entries puts every CID where the last of their chunks that has it is.
  pub Imported-Imports :
      (es : List (Entry G)) (s t : L)
      → IsLinked cid_discrete s.cid_queue
      → Imported G es s t
      → Imports es s t
  unfolding import_unless
  Imported-Imports [] s t k h = record {
    chs = [];
    decoded = refl;
    allocated = ap (λ x. x.next_chunk) h ∙ omega arith;
    ticked = ap (λ x. x.ticks) h ∙ omega arith;
    others = h ∙ (λ i. record s {
      ds = t.ds;
      chunks = sym (ap (λ x. x.chunks) h) i;
      next_chunk = sym (ap (λ x. x.next_chunk) h) i;
      cid_queue = sym (ap (λ x. x.cid_queue) h) i;
      ticks = sym (ap (λ x. x.ticks) h) i;
    });
    heap = ap (λ x. x.chunks) h;
    linked = subst (λ x. IsLinked cid_discrete x.cid_queue) (sym h) k;
    queue = λ c. ap (λ x. look c x.cid_queue) h;
  }
  Imported-Imports ((j, v) ∷ es) s t k (ch, is, h) =
      go (λ u. Imported-Imports es u t) ch.removed refl h
    where
      go :
          ((u : L) → IsLinked cid_discrete u.cid_queue → Imported G es u t → Imports es u t)
          → (b : Bool) → ch.removed ≡ b
          → Imported G es (import_unless G b ch s) t
          → Imports ((j, v) ∷ es) s t
      go more true r h =
          let rest = more s k h in
          record {
            chs = rest.chs;
            decoded = (ch, rest.chs, is, rest.decoded, rw (r) refl);
            allocated = rest.allocated;
            ticked = rest.ticked;
            others = rest.others;
            heap = rest.heap;
            linked = rest.linked;
            queue = rest.queue;
          }
      go more false r h =
          let one = import_chunk_lem ch s k in
          let rest = more (import_chunk G ch s) one.linked h in
          record {
            chs = ch ∷ rest.chs;
            decoded = (ch, rest.chs, is, rest.decoded, rw (r) refl);
            allocated = omega (arith, rest.allocated, one.allocated);
            ticked = omega (arith, rest.ticked, one.ticked);
            others = rest.others ∙ ap (λ x. changed_to x t) one.others;
            heap = rest.heap ∙ (λ i. stored rest.chs (one.allocated i) (one.heap i));
            linked = rest.linked;
            queue = λ c.
                rest.queue c
                ∙ (λ i. placed c rest.chs (one.allocated i) (one.ticked i) (one.queue c i));
          }
