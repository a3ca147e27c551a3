-- ===== src/Routing/Queue/Kept.antt =====
-- Every operation of the queue keeps its map and its list linked.
use mathlib.Core.Option
use index_provider.Prelude.{
  ℕ, ◌<◌, ◌≡◌, ◌≢◌, refl, sym, ap, ◌∙◌, Option, none, some, List, [], ◌∷◌, lookup, erase,
  lookup-erase, if_pos, if_neg, arith,
}
use index_provider.Routing.Queue.{
  CidNode, Element, CidQueue, new_cid_queue, unlink, change, with_chunk, remove_at, remove_cid_node,
  assign_at, assign_cids_chunk,
}
use index_provider.Routing.Queue.Links.{
  nodes, find, changed, Same, Indexed, Named, pointer, IsLinked, same, find-without, find-changed,
  without-IsOnce, changed-IsOnce, assigned_nodes, unlink-without,
}

module _ {Cid : Type 0} (dec : Discrete Cid) where
  pub new_cid_queue-IsLinked : IsLinked dec new_cid_queue
  unfolding new_cid_queue lookup
  new_cid_queue-IsLinked = record { indexed = tt; named = λ c i p. absurd (cc); once = tt }

  pub Named-unlink :
      (c : Cid) (i j : ℕ) (q : CidQueue Cid) (es : List (Element Cid))
      → Named dec q c j es
      → Named dec q c j (unlink i es)
  unfolding unlink
  Named-unlink c i j q [] h = tt
  Named-unlink c i j q (e ∷ es) h = ground (arith, Named-unlink c i j q es h.1)

  module _ (q : CidQueue Cid) (c : Cid) (i : ℕ) where
    abbrev pub removed : CidQueue Cid
    removed = record q {
      list_node_by_cid = erase dec c q.list_node_by_cid;
      nodes_ll = unlink i q.nodes_ll;
    }

    pub removed-Indexed :
        (es : List (Element Cid))
        → Indexed dec q es
        → Same dec c i es
        → Indexed dec removed (unlink i es)
    unfolding unlink
    removed-Indexed [] h s = tt
    removed-Indexed (e ∷ es) h s = ground (
      arith,
      removed-Indexed es h.1 s.1,
      lookup-erase dec c e.value.c q.list_node_by_cid,
      s.0.0,
      s.0.1,
      h.0,
    )

    pointer-removed :
        (j : Cid) (m : ℕ) → pointer dec removed j ≡ some m → (c ≢ j) × (pointer dec q j ≡ some m)
    pointer-removed j m e = elim (dec c j) [
      | yes p ↦ absurd (ground (arith, lookup-erase dec c j q.list_node_by_cid))
      | no p ↦ (p, ground (arith, lookup-erase dec c j q.list_node_by_cid))
    ]

    removed-Named :
        IsLinked dec q
        → pointer dec q c ≡ some i
        → (j : Cid) (m : ℕ) → pointer dec removed j ≡ some m
        → Named dec q j m (unlink i q.nodes_ll)
          × (m < q.next_id)
          × (find dec j (nodes removed) ≢ none)
    removed-Named k p j m e =
        let (ne, was) = pointer-removed j m e in
        let (n, below, there) = k.named j m was in
        (
          Named-unlink j i m q q.nodes_ll n,
          below,
          rw
              (
                unlink-without dec c i q.nodes_ll (same dec q c i k p),
                find-without dec c j (nodes q),
                if_neg (dec c j) ne,
              )
              there,
        )

    removed-IsLinked : IsLinked dec q → pointer dec q c ≡ some i → IsLinked dec removed
    removed-IsLinked k p = record {
      indexed = removed-Indexed q.nodes_ll k.indexed (same dec q c i k p);
      named = removed-Named k p;
      once =
          rw (unlink-without dec c i q.nodes_ll (same dec q c i k p))
            (without-IsOnce dec c (nodes q) k.once);
    }

    abbrev changed_by : (CidNode Cid → CidNode Cid) → CidQueue Cid
    changed_by f = record q { nodes_ll = change i f q.nodes_ll }

  remove_kept :
      (c : Cid) (q : CidQueue Cid) (o : Option ℕ)
      → IsLinked dec q
      → pointer dec q c ≡ o
      → IsLinked dec (remove_at dec q c o)
  unfolding remove_at
  remove_kept c q none k p = k
  remove_kept c q (some i) k p = removed-IsLinked q c i k p

  pub remove_cid_node-IsLinked :
      (c : Cid) (q : CidQueue Cid) → IsLinked dec q → IsLinked dec (remove_cid_node dec c q)
  unfolding remove_cid_node
  remove_cid_node-IsLinked c q k = remove_kept c q (pointer dec q c) k refl

  -- A change that keeps the CIDs of the nodes.
  Indexed-change :
      (f : CidNode Cid → CidNode Cid) (i : ℕ) (q : CidQueue Cid) (es : List (Element Cid))
      → ((n : CidNode Cid) → (f n).c ≡ n.c)
      → Indexed dec q es
      → Indexed dec q (change i f es)
  unfolding change
  Indexed-change f i q [] h k = tt
  Indexed-change f i q (e ∷ es) h k = ground (arith, Indexed-change f i q es h k.1, h e.value)

  Named-change :
      (f : CidNode Cid → CidNode Cid) (i : ℕ) (q : CidQueue Cid) (c : Cid) (j : ℕ)
      (es : List (Element Cid))
      → ((n : CidNode Cid) → (f n).c ≡ n.c)
      → Named dec q c j es
      → Named dec q c j (change i f es)
  unfolding change
  Named-change f i q c j [] h k = tt
  Named-change f i q c j (e ∷ es) h k = ground (arith, Named-change f i q c j es h k.1, h e.value)

  map-none :
      (f : CidNode Cid → CidNode Cid) (o : Option (CidNode Cid)) → Option.map f o ≡ none → o ≡ none
  map-none f none h = refl
  map-none f (some n) h = absurd (cc)

  find-changed-none :
      (c j : Cid) (f : CidNode Cid → CidNode Cid) (l : List (CidNode Cid))
      → ((n : CidNode Cid) → (f n).c ≡ n.c)
      → find dec j (changed dec c f l) ≡ none
      → find dec j l ≡ none
  find-changed-none c j f l h gone = elim (dec c j) [
    | yes p ↦
        map-none f (find dec j l)
          (sym (if_pos (dec c j) p _ _) ∙ sym (find-changed dec c j f l h) ∙ gone)
    | no p ↦ sym (if_neg (dec c j) p _ _) ∙ sym (find-changed dec c j f l h) ∙ gone
  ]

  assign_kept :
      (c : Cid) (r : ℕ) (q : CidQueue Cid) (o : Option ℕ)
      → IsLinked dec q
      → pointer dec q c ≡ o
      → IsLinked dec (assign_at dec q r o)
  unfolding assign_at
  assign_kept c r q none k p = k
  assign_kept c r q (some i) k p = record {
    indexed = Indexed-change (with_chunk r) i q q.nodes_ll (λ n. refl) k.indexed;
    named = λ j m e.
        let (n, below, there) = k.named j m e in
        (
          Named-change (with_chunk r) i q j m q.nodes_ll (λ n. refl) n,
          below,
          λ gone. there (still j gone),
        );
    once =
        rw (assigned_nodes dec c r q (some i) k p)
          (changed-IsOnce dec c (with_chunk r) (nodes q) (λ n. refl) k.once);
  }
    where
      still :
          (j : Cid)
          → find dec j (nodes (assign_at dec q r (some i))) ≡ none
          → find dec j (nodes q) ≡ none
      still j gone =
          find-changed-none c j (with_chunk r) (nodes q) (λ n. refl)
            (ap (find dec j) (sym (assigned_nodes dec c r q (some i) k p)) ∙ gone)

  pub assign_cids_chunk-IsLinked :
      (c : Cid) (r : ℕ) (q : CidQueue Cid)
      → IsLinked dec q
      → IsLinked dec (assign_cids_chunk dec c r q)
  unfolding assign_cids_chunk
  assign_cids_chunk-IsLinked c r q k = assign_kept c r q (pointer dec q c) k refl
