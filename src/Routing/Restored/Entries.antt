-- ===== src/Routing/Restored/Entries.antt =====
-- What importing the entries of a page of chunks does, and why it fails.
use mathlib.Core.Path.{subst}
use index_provider.Prelude.{
  ℕ, ◌≡◌, refl, sym, ap, ◌∙◌, Bool, true, false, Option, none, some, List, [], ◌∷◌, ◌++◌,
}
use index_provider.Exec.{Error, wrap, Result, ok, err, modify, lift, relabel, ◌>>=◌}
use index_provider.Exec.Post.{
  Post, Post-pure, Post-raise, Post-bind, Post-weaken, Post-modify, Post-lift, Post-relabel,
}
use index_provider.Datastore.Queries.{Agrees}
use index_provider.Schema.{Bytes}
use index_provider.Routing.Queue.{CidNode, get_node_by_cid}
use index_provider.Routing.State.{Setup, Listener, CidsChunk, Key, with_ds, alloc_chunk, tick}
use index_provider.Routing.Restore.{
  import_at, import_cids, import_chunk, import_unless, import_page,
}

module _ (G : Setup) where
  open G use {Cid, cid_discrete, store as D, pages as P}

  abbrev L : Type 0
  L = Listener G

  -- Why reading the chunks fails: a query, an entry, or a chunk that is not one.
  pub data Failure : Error → Type 0 where
    unread : (e : Error) → Failure (wrap "error reading from the datastore" e)
    unfetched : (e : Error) → Failure (wrap "error fetching datastore record" e)
    undecoded :
        (v : Bytes) (e : Error)
        → G.decode_chunk v ≡ err e
        → Failure (wrap "error deserialising record from the datastore" e)

  abbrev pub Failed : Error → L → Type 0
  Failed e t = Failure e

  abbrev pub Entry : Type 0
  Entry = Key Cid × Bytes

  -- The chunks of the entries are imported, one after the other, and nothing else is changed but the
  -- datastore's own state.
  abbrev pub Imported : List Entry → L → L → Type 0
  Imported [] s t = t ≡ with_ds G s t.ds
  Imported ((k, v) ∷ es) s t =
      (ch : CidsChunk Cid) × (G.decode_chunk v ≡ ok ch)
      × Imported es (import_unless G ch.removed ch s) t

  at-with_ds :
      (r now : ℕ) (c : Cid) (o : Option (CidNode Cid)) (s : L) (d : D.State)
      → import_at G r now c o (with_ds G s d) ≡ with_ds G (import_at G r now c o s) d
  unfolding import_at
  at-with_ds r now c none s d = refl
  at-with_ds r now c (some n) s d = refl

  cids-with_ds :
      (r now : ℕ) (cs : List Cid) (s : L) (d : D.State)
      → import_cids G r now cs (with_ds G s d) ≡ with_ds G (import_cids G r now cs s) d
  unfolding import_cids
  cids-with_ds r now [] s d = refl
  cids-with_ds r now (c ∷ cs) s d =
      ap (import_cids G r now cs)
        (at-with_ds r now c (get_node_by_cid cid_discrete c s.cid_queue) s d)
      ∙ cids-with_ds r now cs _ d

  unless-with_ds :
      (b : Bool) (ch : CidsChunk Cid) (s : L) (d : D.State)
      → import_unless G b ch (with_ds G s d) ≡ with_ds G (import_unless G b ch s) d
  unfolding import_unless import_chunk
  unless-with_ds true ch s d = refl
  unless-with_ds false ch s d =
      cids-with_ds s.next_chunk (G.clock s.ticks) ch.cids (alloc_chunk G ch (tick G s)) d

  ds-kept : (b : Bool) (ch : CidsChunk Cid) (s : L) → (import_unless G b ch s).ds ≡ s.ds
  ds-kept b ch s = ap (λ x. x.ds) (unless-with_ds b ch s s.ds)

  pub Imported-ds :
      (es : List Entry) (s t : L) (d : D.State) → Imported es (with_ds G s d) t → Imported es s t
  Imported-ds [] s t d h = h
  Imported-ds ((k, v) ∷ es) s t d (ch, p, h) = (
    ch,
    p,
    Imported-ds es (import_unless G ch.removed ch s) t d
        (subst (λ x. Imported es x t) (unless-with_ds ch.removed ch s d) h),
  )

  pub Imported-append :
      (xs ys : List Entry) (s u t : L) → Imported xs s u → Imported ys u t → Imported (xs ++ ys) s t
  Imported-append [] ys s u t h k = Imported-ds ys s t u.ds (subst (λ x. Imported ys x t) h k)
  Imported-append ((j, v) ∷ xs) ys s u t (ch, p, h) k = (ch, p, Imported-append xs ys _ u t h k)

  -- What is read, or why reading stopped.
  pub import_page-Imported :
      (rs : List (Result Entry)) (es : List Entry) (s : L)
      → Agrees rs es
      → Post
          (import_page G rs)
          s
          (λ _ t. Imported es s t × (t.ds ≡ s.ds) × (es ≡ [] → rs ≡ []))
          Failed
  unfolding import_page
  import_page-Imported [] [] s a = Post-pure tt s (refl, refl, λ _. refl)
  import_page-Imported [] (e ∷ es) s a = absurd a
  import_page-Imported (err e ∷ rs) es s a =
      Post-raise (wrap "error fetching datastore record" e) s (unfetched e)
  import_page-Imported (ok y ∷ rs) [] s a = absurd a
  import_page-Imported (ok (j, w) ∷ rs) ((k, v) ∷ es) s a =
      Post-bind
        (relabel (wrap "error deserialising record from the datastore") (lift (G.decode_chunk w)))
        (λ ch. modify (import_unless G ch.removed ch) >>= λ _. import_page G rs) s
        (Post-relabel {P = λ ch t. (G.decode_chunk w ≡ ok ch) × (t ≡ s)}
          {F = λ e t. G.decode_chunk w ≡ err e} Failed
          (wrap "error deserialising record from the datastore") (lift (G.decode_chunk w)) s
          (Post-lift (G.decode_chunk w) s (λ ch q. (q, refl)) (λ _ q. q)) (λ _ _ q. q)
          (λ e _ q. undecoded w e q))
        (λ ch t q. rw (q.1) (
          Post-bind (modify (import_unless G ch.removed ch)) (λ _. import_page G rs) s
            (Post-modify {Q = λ _ t. t ≡ import_unless G ch.removed ch s} {E = λ _ _. ⊥}
              (import_unless G ch.removed ch) s refl)
            (λ _ u r. rw (r) (
              Post-weaken (import_page G rs) (import_unless G ch.removed ch s)
                (import_page-Imported rs es (import_unless G ch.removed ch s) a.1)
                (λ _ z m. (
                  (ch, sym (ap (λ y. G.decode_chunk y.1) a.0) ∙ q.0, m.0),
                  m.1 ∙ ds-kept ch.removed ch s,
                  λ z. absurd (cc),
                ))
                (λ _ _ f. f)))
            (λ _ _ e. absurd e)))
        (λ _ _ f. f)
