-- ===== src/Routing/Queue/Recorded.antt =====
-- `recordCidNode`: a CID goes to the front, new or with the chunk that it had.
use mathlib.Core.Path.{subst}
use mathlib.Core.Option.{some-injective}
use index_provider.Prelude.{
  ℕ, suc, ◌<◌, ◌≡◌, ◌≢◌, refl, sym, ap, ◌∙◌, Option, none, some, List, [], ◌∷◌, insert,
  lookup-insert, if_pos, if_neg, arith,
}
use index_provider.Routing.Queue.{
  CidNode, Element, CidQueue, value_at, unlink, move_to_front, with_time, record_at,
  record_cid_node,
}
use index_provider.Routing.Queue.Links.{
  nodes, find, without, recorded, Indexed, Named, pointer, IsLinked, same, absent, find-without,
  find_named, without-IsOnce, value_at-change, unlink-change, value_at-find, unlink-without,
}
use index_provider.Routing.Queue.Kept.{Named-unlink}

module _ {Cid : Type 0} (dec : Discrete Cid) where
  -- The list of a queue that is linked after a CID of the map has been recorded.
  moved :
      (n m : CidNode Cid) (q : CidQueue Cid) (i : ℕ)
      → IsLinked dec q
      → pointer dec q n.c ≡ some i
      → find dec n.c (nodes q) ≡ some m
      → record_at dec q n (some i) ≡ record q {
        nodes_ll = record { id = i; value = with_time n.timestamp m } ∷ unlink i q.nodes_ll;
      }
  unfolding record_at move_to_front
  moved n m q i k p f =
      rw
        (
          value_at-change dec i (with_time n.timestamp) q.nodes_ll,
          value_at-find dec n.c i q.nodes_ll (same dec q n.c i k p),
          f,
          move_to_front,
          unlink-change dec i (with_time n.timestamp) q.nodes_ll,
        )
        refl

  known :
      (c : Cid) (q : CidQueue Cid) (i : ℕ)
      → IsLinked dec q
      → pointer dec q c ≡ some i
      → (m : CidNode Cid) × (find dec c (nodes q) ≡ some m)
  known c q i k p = is_some (find dec c (nodes q)) ((k.named c i p).2)
    where
      is_some : (o : Option (CidNode Cid)) → o ≢ none → (m : CidNode Cid) × (o ≡ some m)
      is_some none h = absurd (h refl)
      is_some (some m) h = (m, refl)

  value-Named :
      (c : Cid) (i : ℕ) (m : CidNode Cid) (q : CidQueue Cid) (es : List (Element Cid))
      → value_at i es ≡ some m
      → Named dec q c i es
      → m.c ≡ c
  unfolding value_at
  value-Named c i m q [] h k = absurd (cc)
  value-Named c i m q (e ∷ es) h k = ground (arith, k.0, value-Named c i m q es)

  module _ (n m : CidNode Cid) (q : CidQueue Cid) (i : ℕ) where
    abbrev fronted : CidQueue Cid
    fronted = record q {
      nodes_ll = record { id = i; value = with_time n.timestamp m } ∷ unlink i q.nodes_ll;
    }

    module _ (k : IsLinked dec q) (p : pointer dec q n.c ≡ some i)
        (f : find dec n.c (nodes q) ≡ some m) where
      fronted-nodes : nodes fronted ≡ with_time n.timestamp m ∷ without dec n.c (nodes q)
      fronted-nodes =
          ap (λ l. with_time n.timestamp m ∷ l)
            (unlink-without dec n.c i q.nodes_ll (same dec q n.c i k p))

      named : m.c ≡ n.c
      named = find_named dec n.c m (nodes q) f

      Indexed-rest : (es : List (Element Cid)) → Indexed dec q es → Indexed dec q (unlink i es)
      unfolding unlink
      Indexed-rest [] h = tt
      Indexed-rest (e ∷ es) h = ground (arith, Indexed-rest es h.1)

      find-fronted :
          (j : Cid)
          → find dec j (with_time n.timestamp m ∷ without dec n.c (nodes q)) ≡ none
          → find dec j (nodes q) ≡ none
      unfolding find
      find-fronted j gone = ground (arith, named, find-without dec n.c j (nodes q))

      fronted-IsLinked : IsLinked dec fronted
      unfolding find
      fronted-IsLinked = record {
        indexed = (ap (pointer dec q) named ∙ p, Indexed-rest q.nodes_ll k.indexed);
        named = λ j x e.
            let (all, below, there) = k.named j x e in
            (
              ((λ r. named ∙ key_of j x e r), Named-unlink dec j i x q q.nodes_ll all),
              below,
              (λ gone. there (find-fronted j (ap (find dec j) (sym fronted-nodes) ∙ gone))),
            );
        once = rw (unlink-without dec n.c i q.nodes_ll (same dec q n.c i k p)) (
          ap (λ c. find dec c (without dec n.c (nodes q))) named
              ∙ find-without dec n.c n.c (nodes q)
              ∙ if_pos (dec n.c n.c) refl _ _,
          without-IsOnce dec n.c (nodes q) k.once,
        );
      }
        where
          key_of : (j : Cid) (x : ℕ) → pointer dec q j ≡ some x → i ≡ x → n.c ≡ j
          key_of j x e r =
              sym named
              ∙ value-Named j x m q q.nodes_ll
                  (ap (λ y. value_at y q.nodes_ll) (sym r)
                    ∙ value_at-find dec n.c i q.nodes_ll (same dec q n.c i k p)
                    ∙ f)
                  (k.named j x e).0

  -- A CID that is new: its element gets the next number.
  module _ (n : CidNode Cid) (q : CidQueue Cid) where
    abbrev pushed : CidQueue Cid
    pushed = record {
      list_node_by_cid = insert dec n.c q.next_id q.list_node_by_cid;
      nodes_ll = record { id = q.next_id; value = n } ∷ q.nodes_ll;
      next_id = suc q.next_id;
    }

    module _ (k : IsLinked dec q) (p : pointer dec q n.c ≡ none) where
      pushed-Indexed : (es : List (Element Cid)) → Indexed dec q es → Indexed dec pushed es
      pushed-Indexed [] h = tt
      pushed-Indexed (e ∷ es) h = (
        ground (arith, h.0, p, lookup-insert dec n.c e.value.c q.next_id q.list_node_by_cid),
        pushed-Indexed es h.1,
      )

      -- No element of the list has the next number.
      unused :
          (c : Cid) (es : List (Element Cid)) → Indexed dec q es → Named dec pushed c q.next_id es
      unused c [] h = tt
      unused c (e ∷ es) h =
          ((λ r. absurd (omega (arith, r, (k.named e.value.c e.id h.0).1))), unused c es h.1)

      pushed-Named :
          (j : Cid) (x : ℕ)
          → pointer dec pushed j ≡ some x
          → Named dec pushed j x pushed.nodes_ll
            × (x < pushed.next_id)
            × (find dec j (nodes pushed) ≢ none)
      unfolding find
      pushed-Named j x e = elim (dec n.c j) [
        | yes y ↦
            let num : q.next_id ≡ x = some-injective _ _ (
              sym (if_pos (dec n.c j) y _ _)
              ∙ sym (lookup-insert dec n.c j q.next_id q.list_node_by_cid)
              ∙ e) in
            (
              (
                (λ _. y),
                subst (λ u. Named dec pushed j u q.nodes_ll) num (unused j q.nodes_ll k.indexed),
              ),
              omega (arith, num),
              λ gone. absurd (
                  cc (
                    sym (
                      if_pos {C = Option (CidNode Cid)} (dec n.c j) y (some n)
                        (find dec j (nodes q)))
                    ∙ gone)),
            )
        | no y ↦
            let was : pointer dec q j ≡ some x =
              sym (if_neg (dec n.c j) y _ _)
              ∙ sym (lookup-insert dec n.c j q.next_id q.list_node_by_cid)
              ∙ e in
            let (all, below, there) = k.named j x was in
            (
              ((λ r. absurd (omega (arith, r, below))), all),
              omega (arith, below),
              λ gone. there (sym (if_neg (dec n.c j) y _ _) ∙ gone),
            )
      ]

      pushed-IsLinked : IsLinked dec pushed
      pushed-IsLinked = record {
        indexed = (
          lookup-insert dec n.c n.c q.next_id q.list_node_by_cid ∙ if_pos (dec n.c n.c) refl _ _,
          pushed-Indexed q.nodes_ll k.indexed,
        );
        named = pushed-Named;
        once = (absent dec q n.c k p, k.once);
      }

  record_kept :
      (n : CidNode Cid) (q : CidQueue Cid) (o : Option ℕ)
      → IsLinked dec q
      → pointer dec q n.c ≡ o
      → IsLinked dec (record_at dec q n o)
        × (nodes (record_at dec q n o) ≡ recorded dec n (find dec n.c (nodes q)) (nodes q))
  unfolding recorded
  record_kept n q none k p =
      rw (absent dec q n.c k p)
        (unfold record_at in pushed-IsLinked n q k p, unfold record_at in refl)
  record_kept n q (some i) k p =
      let (m, f) = known n.c q i k p in
      rw (moved n m q i k p f, f) (fronted-IsLinked n m q i k p f, fronted-nodes n m q i k p f)

  pub record_cid_node-recorded :
      (n : CidNode Cid) (q : CidQueue Cid)
      → IsLinked dec q
      → IsLinked dec (record_cid_node dec n q)
        × (nodes (record_cid_node dec n q) ≡ recorded dec n (find dec n.c (nodes q)) (nodes q))
  unfolding record_cid_node
  record_cid_node-recorded n q k = record_kept n q (pointer dec q n.c) k refl
