-- ===== src/Routing/Queue/Links.antt =====
-- The map of a queue points to the elements of its list, so that the queue is a list of nodes, the
-- most recently announced first, in which no CID stands twice.
use index_provider.Prelude.{
  ℕ, ◌<◌, ◌≡◌, ◌≢◌, refl, sym, ap, ◌∙◌, Option, none, some, List, [], ◌∷◌, map, All, lookup, ite,
  if_pos, if_neg, arith,
}
use mathlib.Core.Option
use index_provider.Routing.Queue.{
  CidNode, Element, CidQueue, value_at, unlink, change, with_time, with_chunk, remove_at,
  remove_cid_node, assign_at, assign_cids_chunk, node_at, get_node_by_cid,
}

module _ {Cid : Type 0} where
  abbrev pub nodes_of : List (Element Cid) → List (CidNode Cid)
  nodes_of = map (λ e. e.value)

  -- The queue as the listener means it.
  abbrev pub nodes : CidQueue Cid → List (CidNode Cid)
  nodes q = nodes_of q.nodes_ll

module _ {Cid : Type 0} (dec : Discrete Cid) where
  unfoldable pub find : Cid → List (CidNode Cid) → Option (CidNode Cid)
  find c [] = none
  find c (n ∷ l) = ite (dec n.c c) (some n) (find c l)

  unfoldable pub without : Cid → List (CidNode Cid) → List (CidNode Cid)
  without c [] = []
  without c (n ∷ l) = let rest = without c l in ite (dec n.c c) rest (n ∷ rest)

  unfoldable pub changed :
      Cid → (CidNode Cid → CidNode Cid) → List (CidNode Cid) → List (CidNode Cid)
  changed c f [] = []
  changed c f (n ∷ l) = ite (dec n.c c) (f n) n ∷ changed c f l

  -- A known CID gets the new time and goes to the front with the chunk that it has.
  unfoldable pub recorded :
      CidNode Cid → Option (CidNode Cid) → List (CidNode Cid) → List (CidNode Cid)
  unfolding without
  recorded n none l = n ∷ l
  recorded n (some m) l = with_time n.timestamp m ∷ without n.c l

  -- The element with the number is that of the CID.
  abbrev pub Same : Cid → ℕ → List (Element Cid) → Type 0
  Same c i es = All (λ e. (e.id ≡ i → e.value.c ≡ c) × (e.value.c ≡ c → e.id ≡ i)) es

  pub value_at-find :
      (c : Cid) (i : ℕ) (es : List (Element Cid))
      → Same c i es
      → value_at i es ≡ find c (nodes_of es)
  unfolding value_at find
  value_at-find c i [] h = refl
  value_at-find c i (e ∷ es) h = ground (arith, h.0.0, h.0.1, value_at-find c i es h.1)

  pub unlink-without :
      (c : Cid) (i : ℕ) (es : List (Element Cid))
      → Same c i es
      → nodes_of (unlink i es) ≡ without c (nodes_of es)
  unfolding unlink without
  unlink-without c i [] h = refl
  unlink-without c i (e ∷ es) h = ground (arith, h.0.0, h.0.1, unlink-without c i es h.1)

  change-changed :
      (c : Cid) (i : ℕ) (f : CidNode Cid → CidNode Cid) (es : List (Element Cid))
      → Same c i es
      → nodes_of (change i f es) ≡ changed c f (nodes_of es)
  unfolding change changed
  change-changed c i f [] h = refl
  change-changed c i f (e ∷ es) h = ground (arith, h.0.0, h.0.1, change-changed c i f es h.1)

  abbrev pub IsOnce : List (CidNode Cid) → Type 0
  IsOnce [] = Unit {0}
  IsOnce (n ∷ l) = (find n.c l ≡ none) × IsOnce l

  pub find-without :
      (c j : Cid) (l : List (CidNode Cid)) → find j (without c l) ≡ ite (dec c j) none (find j l)
  unfolding find without
  find-without c j [] = ground arith
  find-without c j (n ∷ l) = ground (arith, find-without c j l)

  pub find-changed :
      (c j : Cid) (f : CidNode Cid → CidNode Cid) (l : List (CidNode Cid))
      → ((n : CidNode Cid) → (f n).c ≡ n.c)
      → find j (changed c f l) ≡ ite (dec c j) (Option.map f (find j l)) (find j l)
  unfolding find changed
  find-changed c j f [] h = ground arith
  find-changed c j f (n ∷ l) h = ground (arith, find-changed c j f l h, h n)

  pub find_named :
      (c : Cid) (n : CidNode Cid) (l : List (CidNode Cid)) → find c l ≡ some n → n.c ≡ c
  unfolding find
  find_named c n [] h = absurd (cc)
  find_named c n (m ∷ l) h = ground (arith, find_named c n l)

  pub without-IsOnce : (c : Cid) (l : List (CidNode Cid)) → IsOnce l → IsOnce (without c l)
  unfolding without
  without-IsOnce c [] h = tt
  without-IsOnce c (n ∷ l) h = elim (dec n.c c) [
    | yes p ↦ rw (if_pos (dec n.c c) p) (without-IsOnce c l h.1)
    | no p ↦
        rw (if_neg (dec n.c c) p)
          (find-without c n.c l ∙ ground (arith, h.0), without-IsOnce c l h.1)
  ]

  pub changed-IsOnce :
      (c : Cid) (f : CidNode Cid → CidNode Cid) (l : List (CidNode Cid))
      → ((n : CidNode Cid) → (f n).c ≡ n.c)
      → IsOnce l
      → IsOnce (changed c f l)
  unfolding changed
  changed-IsOnce c f [] k h = tt
  changed-IsOnce c f (n ∷ l) k h = (
    ap (λ j. find j (changed c f l)) (kept c f n k)
        ∙ find-changed c n.c f l k
        ∙ ground (arith, h.0),
    changed-IsOnce c f l k h.1,
  )
    where
      kept :
          (c : Cid) (f : CidNode Cid → CidNode Cid) (n : CidNode Cid)
          → ((n : CidNode Cid) → (f n).c ≡ n.c)
          → (ite (dec n.c c) (f n) n).c ≡ n.c
      kept c f n k = ground (arith, k n)

  module _ (q : CidQueue Cid) where
    abbrev pub pointer : Cid → Option ℕ
    pointer c = lookup dec c q.list_node_by_cid

    abbrev pub Indexed : List (Element Cid) → Type 0
    Indexed es = All (λ e. pointer e.value.c ≡ some e.id) es

    abbrev pub Named : Cid → ℕ → List (Element Cid) → Type 0
    Named c i es = All (λ e. e.id ≡ i → e.value.c ≡ c) es

    -- Every element is that of its CID in the map, every pointer of the map is to an element of that
    -- CID, and no CID has two elements.
    pub record IsLinked : Type 0 where
      pub indexed : Indexed q.nodes_ll
      pub named :
          (c : Cid) (i : ℕ)
          → pointer c ≡ some i
          → Named c i q.nodes_ll × (i < q.next_id) × (find c (nodes q) ≢ none)
      pub once : IsOnce (nodes q)

    same_in :
        (c : Cid) (i : ℕ) (es : List (Element Cid))
        → Indexed es
        → Named c i es
        → pointer c ≡ some i
        → Same c i es
    same_in c i [] h n p = tt
    same_in c i (e ∷ es) h n p = ((n.0, λ r. ground (arith, h.0, r, p)), same_in c i es h.1 n.1 p)

    pub same : (c : Cid) (i : ℕ) → IsLinked → pointer c ≡ some i → Same c i q.nodes_ll
    same c i k p = same_in c i q.nodes_ll k.indexed (k.named c i p).0 p

    absent_in :
        (c : Cid) (es : List (Element Cid))
        → Indexed es
        → pointer c ≡ none
        → find c (nodes_of es) ≡ none
    unfolding find
    absent_in c [] h p = refl
    absent_in c (e ∷ es) h p = ground (arith, h.0, absent_in c es h.1 p)

    pub absent : (c : Cid) → IsLinked → pointer c ≡ none → find c (nodes q) ≡ none
    absent c k p = absent_in c q.nodes_ll k.indexed p

  get_lem :
      (c : Cid) (q : CidQueue Cid) (o : Option ℕ)
      → IsLinked q
      → pointer q c ≡ o
      → node_at dec q o ≡ find c (nodes q)
  unfolding node_at
  get_lem c q none k p = sym (absent q c k p)
  get_lem c q (some i) k p = value_at-find c i q.nodes_ll (same q c i k p)

  -- `getNodeByCid` finds the node of the CID in the list.
  pub get_node_by_cid-find :
      (c : Cid) (q : CidQueue Cid) → IsLinked q → get_node_by_cid dec c q ≡ find c (nodes q)
  unfolding get_node_by_cid
  get_node_by_cid-find c q k = get_lem c q (pointer q c) k refl

  without_absent : (c : Cid) (l : List (CidNode Cid)) → find c l ≡ none → without c l ≡ l
  unfolding find without
  without_absent c [] h = refl
  without_absent c (n ∷ l) h = ground (arith, without_absent c l)

  changed_absent :
      (c : Cid) (f : CidNode Cid → CidNode Cid) (l : List (CidNode Cid))
      → find c l ≡ none
      → changed c f l ≡ l
  unfolding find changed
  changed_absent c f [] h = refl
  changed_absent c f (n ∷ l) h = ground (arith, changed_absent c f l)

  pub removed_nodes :
      (c : Cid) (q : CidQueue Cid) (o : Option ℕ)
      → IsLinked q
      → pointer q c ≡ o
      → nodes (remove_at dec q c o) ≡ without c (nodes q)
  unfolding remove_at
  removed_nodes c q none k p = sym (without_absent c (nodes q) (absent q c k p))
  removed_nodes c q (some i) k p = unlink-without c i q.nodes_ll (same q c i k p)

  -- `removeCidNode` takes the node of the CID out.
  pub remove_cid_node-without :
      (c : Cid) (q : CidQueue Cid)
      → IsLinked q
      → nodes (remove_cid_node dec c q) ≡ without c (nodes q)
  unfolding remove_cid_node
  remove_cid_node-without c q k = removed_nodes c q (pointer q c) k refl

  pub assigned_nodes :
      (c : Cid) (r : ℕ) (q : CidQueue Cid) (o : Option ℕ)
      → IsLinked q
      → pointer q c ≡ o
      → nodes (assign_at dec q r o) ≡ changed c (with_chunk r) (nodes q)
  unfolding assign_at
  assigned_nodes c r q none k p = sym (changed_absent c (with_chunk r) (nodes q) (absent q c k p))
  assigned_nodes c r q (some i) k p = change-changed c i (with_chunk r) q.nodes_ll (same q c i k p)

  -- `assignCidsChunk` sets the chunk of the CID's node.
  pub assign_cids_chunk-changed :
      (c : Cid) (r : ℕ) (q : CidQueue Cid)
      → IsLinked q
      → nodes (assign_cids_chunk dec c r q) ≡ changed c (with_chunk r) (nodes q)
  unfolding assign_cids_chunk
  assign_cids_chunk-changed c r q k = assigned_nodes c r q (pointer q c) k refl

  pub value_at-change :
      (i : ℕ) (f : CidNode Cid → CidNode Cid) (es : List (Element Cid))
      → value_at i (change i f es) ≡ Option.map f (value_at i es)
  unfolding value_at change
  value_at-change i f [] = refl
  value_at-change i f (e ∷ es) = ground (arith, value_at-change i f es)

  pub unlink-change :
      (i : ℕ) (f : CidNode Cid → CidNode Cid) (es : List (Element Cid))
      → unlink i (change i f es) ≡ unlink i es
  unfolding unlink change
  unlink-change i f [] = refl
  unlink-change i f (e ∷ es) = ground (arith, unlink-change i f es)
