-- ===== src/Routing/Restored.antt =====
-- The loop that reads the chunks page by page reads every one of them.
pub mod Entries
pub mod Placed
use mathlib.Core.Path.{subst}
use index_provider.Prelude.{
  ℕ, zero, suc, ◌+◌, ◌<◌, ◌==◌, ◌≡◌, ◌≢◌, refl, sym, ap, ◌∙◌, Bool, true, false, Option, none, some,
  List, [], ◌∷◌, ◌++◌, length, take, drop, arith,
}
use index_provider.Exec.{Error, wrap, Result, ok, err, modify, lift, relabel, ◌>>=◌}
use index_provider.Exec.Post.{
  Post, Post-pure, Post-raise, Post-bind, Post-weaken, Post-modify, Post-lift, Post-relabel,
  Post-zoom, Post-if,
}
use index_provider.Datastore.Queries.{Agrees}
use index_provider.Schema.{Bytes}
use index_provider.Routing.Queue.{CidNode, get_node_by_cid}
use index_provider.Routing.State.{
  Setup, Listener, CidsChunk, Key, on_ds, with_ds, alloc_chunk, tick,
}
use index_provider.Routing.Restore.{
  is_chunk, import_at, import_cids, import_chunk, import_unless, import_page, unless_empty,
  read_pages, initialise_chunks,
}
use index_provider.Routing.Slices.{take-drop, length-drop}
use Entries.{
  unread, Imported, Imported-ds, Imported-append, import_page-Imported, Failed, Failure, Entry,
}
use Placed.{Imports, Imported-Imports}
use index_provider.Routing.Queue.Links.{IsLinked}

module _ (G : Setup) where
  open G use {Cid, cid_discrete, store as D, pages as P}

  abbrev L : Type 0
  L = Listener G

  drop_none : {A : Type 0} (n : ℕ) → drop {A = A} n [] ≡ []
  drop_none zero = refl
  drop_none (suc n) = refl

  drop-drop : {A : Type 0} (m n : ℕ) (xs : List A) → drop (m + n) xs ≡ drop n (drop m xs)
  drop-drop zero n xs = let e : zero + n ≡ n = omega arith in ap (λ k. drop k xs) e
  drop-drop (suc m) n [] =
      let e : suc m + n ≡ suc (m + n) = omega arith in ap (λ k. drop k []) e ∙ sym (drop_none n)
  drop-drop (suc m) n (x ∷ xs) =
      let e : suc m + n ≡ suc (m + n) = omega arith in
      ap (λ k. drop k (x ∷ xs)) e ∙ drop-drop m n xs

  abbrev entries : L → List (Entry G)
  entries s = P.ordered is_chunk s.ds

  -- A page, and what it leaves.
  abbrev Page : ℕ → L → List (Result (Entry G)) → L → Type 0
  Page offset s rs t =
      Agrees rs (take G.page_size (drop offset (entries s)))
      × (entries t ≡ entries s)
      × (t ≡ with_ds G s t.ds)

  page_lem :
      (offset : ℕ) (s : L)
      → Post
          (relabel
            (wrap "error reading from the datastore")
            (on_ds G (P.query_page is_chunk offset G.page_size)))
          s
          (Page offset s)
          (Failed G)
  unfolding on_ds
  page_lem offset s =
      Post-relabel {P = Page offset s} {F = λ _ _. Unit {0}} (Failed G)
        (wrap "error reading from the datastore")
        (on_ds G (P.query_page is_chunk offset G.page_size)) s
        (Post-zoom (λ x. x.ds) (with_ds G) (P.query_page is_chunk offset G.page_size) s
          (P.query_page_lem is_chunk offset G.page_size s.ds) (λ rs d h. (h.0, h.1, refl))
          (λ _ _ _. tt))
        (λ _ _ q. q) (λ e _ _. unread e)

  take_none_left : (n : ℕ) → take {A = Entry G} n [] ≡ []
  take_none_left zero = refl
  take_none_left (suc n) = refl

  from_start :
      (es : List (Entry G)) (s t u : L)
      → t ≡ with_ds G s t.ds
      → Imported G es t u
      → Imported G es s u
  from_start es s t u p i = Imported-ds G es s u t.ds (subst (λ x. Imported G es x u) p i)

  take_none : (n : ℕ) (xs : List (Entry G)) → 0 < n → Agrees [] (take n xs) → xs ≡ []
  take_none zero xs h a = absurd (omega (arith, h))
  take_none (suc n) [] h a = refl
  take_none (suc n) (x ∷ xs) h a = absurd a

  -- A page that is not empty leaves fewer entries.
  shorter : (n : ℕ) (xs : List (Entry G)) → 0 < n → take n xs ≢ [] → length (drop n xs) < length xs
  shorter zero xs h a = absurd (omega (arith, h))
  shorter (suc n) [] h a = absurd (a refl)
  shorter (suc n) (x ∷ xs) h a = length-drop n xs

  module _ (positive : 0 < G.page_size) where
    -- The loop ends with every entry from the offset on imported.
    abbrev Done : ℕ → L → Bool → L → Type 0
    Done offset s b t = (b ≡ true) × Imported G (drop offset (entries s)) s t

    after :
        (n offset : ℕ) (s t u : L) (rs : List (Result (Entry G)))
        → length (drop offset (entries s)) < suc n
        → Page offset s rs t
        → Imported G (take G.page_size (drop offset (entries s))) t u
        → u.ds ≡ t.ds
        → (take G.page_size (drop offset (entries s)) ≡ [] → rs ≡ [])
        → ((o : ℕ) (v : L)
            → length (drop o (entries v)) < n
            → Post (read_pages G n o) v (Done o v) (Failed G))
        → Post
            (unless_empty G rs (read_pages G n (offset + G.page_size)))
            u
            (Done offset s)
            (Failed G)
    unfolding unless_empty
    after n offset s t u [] h k i d e more =
        let nothing : drop offset (entries s) ≡ [] =
          take_none G.page_size (drop offset (entries s)) positive k.0 in
        Post-pure true u (
          refl,
          subst (λ ys. Imported G ys s u)
              (ap (take G.page_size) nothing ∙ take_none_left G.page_size ∙ sym nothing)
              (from_start (take G.page_size (drop offset (entries s))) s t u k.2 i),
        )
    after n offset s t u (r ∷ rs) h k i d e more =
        let left = drop offset (entries s) in
        let next : drop (offset + G.page_size) (entries u) ≡ drop G.page_size left =
          ap (λ es. drop (offset + G.page_size) es) (ap (P.ordered is_chunk) d ∙ k.1)
          ∙ drop-drop offset G.page_size (entries s) in
        let fewer = shorter G.page_size left positive (λ z. absurd (cc (e z))) in
        Post-weaken (read_pages G n (offset + G.page_size)) u
          (more (offset + G.page_size) u
            (subst (λ ys. length ys < n) (sym next) (omega (arith, fewer, h))))
          (λ b v m. (
            m.0,
            subst (λ ys. Imported G ys s v) (take-drop G.page_size left)
                (Imported-append G (take G.page_size left) (drop G.page_size left) s u v
                  (from_start (take G.page_size left) s t u k.2 i)
                  (subst (λ ys. Imported G ys u v) next m.1)),
          ))
          (λ _ _ f. f)

    read_pages-Done :
        (n offset : ℕ) (s : L)
        → length (drop offset (entries s)) < n
        → Post (read_pages G n offset) s (Done offset s) (Failed G)
    unfolding read_pages
    read_pages-Done zero offset s h = absurd (omega (arith, h))
    read_pages-Done (suc n) offset s h =
        Post-bind _
          (λ rs.
            import_page G rs >>= λ _. unless_empty G rs (read_pages G n (offset + G.page_size)))
          s (page_lem offset s)
          (λ rs t k.
            Post-bind (import_page G rs)
              (λ _. unless_empty G rs (read_pages G n (offset + G.page_size))) t
              (import_page-Imported G rs (take G.page_size (drop offset (entries s))) t k.0)
              (λ _ u q. after n offset s t u rs h k q.0 q.1 q.2 (λ o v g. read_pages-Done n o v g))
              (λ _ _ f. f))
          (λ _ _ f. f)

  -- With a positive page size, a bound above the number of the entries of chunks, and a queue whose map
  -- and list are linked, the loop that reads the chunks from the datastore ends, and then the chunks that
  -- are not marked as removed are in the heap in the order of the keys, every CID is in the last of them
  -- that has it, with its old time if it was known and the time of its first import otherwise, and the
  -- nodes of other CIDs are as they were, and nothing else has changed but the state of the datastore's
  -- own; or it fails, because of a query or an entry that could not be read, or of one that does not
  -- decode.
  pub initialise_chunks-Imports :
      (bound : ℕ) (s : L)
      → 0 < G.page_size
      → length (P.ordered is_chunk s.ds) < bound
      → IsLinked cid_discrete s.cid_queue
      → Post
          (initialise_chunks G bound)
          s
          (λ b t. (b ≡ true) × Imports G (P.ordered is_chunk s.ds) s t)
          (λ e _. Failure G e)
  unfolding initialise_chunks
  initialise_chunks-Imports bound s positive enough linked =
      Post-if (G.page_size == 0) _ _ s (λ z. absurd (ground (arith, positive, z)))
        (λ _.
          Post-weaken (read_pages G bound 0) s (read_pages-Done positive bound 0 s enough)
            (λ b t q. (q.0, Imported-Imports G (P.ordered is_chunk s.ds) s t linked q.1))
            (λ _ _ f. f))
