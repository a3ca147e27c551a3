-- ===== src/Iterators/Reading.antt =====
-- Chunking, then reading the chain.
use mathlib.Core.Path.{subst}
use mathlib.Core.List.{append-nil, reverse, reverse-append}
use index_provider.Prelude.{
  ℕ, ◌<◌, ◌≤◌, ◌≡◌, length, All, All-append, arith, refl, sym, ap, ◌∙◌, Option, none, some, List,
  [], ◌∷◌, ◌++◌, inl, inr, flatten,
}
use index_provider.Exec.{eof, Result, ok}
use index_provider.Exec.Post.{Outcome}
use index_provider.Schema.{Bytes}
use index_provider.Entries.{Codec, Stream}
use index_provider.Chunker.Chain.{Log, chunk}
use index_provider.Chunker.Chain.Chunks.{
  Chunked, done, rest_chunk, full_chunk, Blamed, chunk-Chunked,
}
use index_provider.Iterators.{entry_chunk_multihash_iterator, load, follow}
use index_provider.Iterators.RoundTrip.{
  Yields, Iter, Stored, node, inside, same_next, end_next, nothing-Ends, entered, read_back,
  chain-Ends, root_chunk,
}

module _ (K : Codec) (read : K.Link → Result Bytes) where
  open K use {Link}

  flatten-reverse :
      {size : ℕ} {prev root : Option Link} {items : List Bytes} {blocks : Log K}
      (c : Chunked K size prev items blocks root)
      → flatten (reverse (read_back K read c)) ≡ items
  unfolding flatten read_back
  flatten-reverse (done _) = refl
  flatten-reverse (rest_chunk _ mhs _ _ _ _ _) = append-nil mhs
  flatten-reverse (full_chunk _ mhs items _ _ _ _ _ _ c) =
      rw (reverse-append (read_back K read c) (mhs ∷ [])) (ap (λ r. mhs ++ r) (flatten-reverse c))

  -- The first of the chunks has some multihash and at most as many as the size, and each of the others
  -- has as many as the size.
  abbrev pub Sized : ℕ → List (List Bytes) → Type 0
  Sized size [] = Unit
  Sized size (mhs ∷ chunks) =
      (0 < length mhs) × (length mhs ≤ size) × All (λ c. length c ≡ size) chunks

  Sized-append :
      (size : ℕ) (chunks : List (List Bytes)) (mhs : List Bytes)
      → 0 < size
      → length mhs ≡ size
      → Sized size chunks
      → Sized size (chunks ++ mhs ∷ [])
  Sized-append size [] mhs positive full h =
      (omega (arith, positive, full), omega (arith, full), tt)
  Sized-append size (c ∷ chunks) mhs positive full (some_mh, small, rest) =
      (some_mh, small, All-append (λ c. length c ≡ size) chunks (mhs ∷ []) rest (full, tt))

  read_back-Sized :
      {size : ℕ} {prev root : Option Link} {items : List Bytes} {blocks : Log K}
      → 0 < size
      → (c : Chunked K size prev items blocks root) → Sized size (read_back K read c)
  unfolding read_back
  read_back-Sized positive (done _) = tt
  read_back-Sized positive (rest_chunk _ mhs _ _ _ some_mh small) =
      (some_mh, omega (arith, small), tt)
  read_back-Sized {size} positive (full_chunk _ mhs _ _ _ _ _ _ full c) =
      Sized-append size (read_back K read c) mhs positive full (read_back-Sized positive c)

  -- The iterator that is made for a link returns the given multihashes, in chunks of the size of which
  -- only the one that is read first may be smaller, each in its order and the chunks in the opposite
  -- order, and then `io.EOF`.
  abbrev pub ReadsBack : ℕ → Link → List Bytes → Type 0
  ReadsBack size l items =
      (it : Iter K read) × (chunks : List (List Bytes)) × (entry_chunk_multihash_iterator K read l
        ≡ ok it)
      × Sized size chunks
      × (flatten (reverse chunks) ≡ items)
      × Yields K read it (flatten chunks) eof

  opened :
      (mhs : List Bytes) (prev : Option Link) (b : Bytes) (l : Link)
      → K.encode (node K read mhs prev) ≡ ok (l, b)
      → read l ≡ ok b
      → entry_chunk_multihash_iterator K read l ≡ ok (inside K read mhs prev 0)
  unfolding entry_chunk_multihash_iterator load
  opened mhs prev b l is found =
      let (n, d, u) = K.decode-encode (node K read mhs prev) l b is in
      rw (entry_chunk_multihash_iterator, load, found, d, u) refl

  Chunked-ReadsBack :
      {size : ℕ} {items : List Bytes} {blocks : Log K} (l : Link)
      → Chunked K size none items blocks (some l)
      → 0 < size
      → Stored K read blocks
      → ReadsBack size l items
  unfolding follow
  Chunked-ReadsBack {size} l c positive found = elim (root_chunk K read c l positive found refl) [
    | inl p ↦ absurd (cc)
    | inr (mhs, prev, b, is, at, some_mh) ↦ (
      inside K read mhs prev 0,
      read_back K read c,
      opened mhs prev b l is at,
      read_back-Sized positive c,
      flatten-reverse c,
      same_next K read (inside K read mhs prev 0) (inside K read [] (some l) 0) _ eof
          (sym (
            end_next K read [] (some l)
            ∙ entered K read mhs prev l b (inside K read [] (some l) 0) is at some_mh))
          (rw (← append-nil (flatten (read_back K read c)))
            (chain-Ends K read c [] positive found (nothing-Ends K read) [])),
    )
  ]

  at_result :
      (size : ℕ) (mhi : Stream) (l : Link) (log : Log K)
      → 0 < size
      → chunk K size mhi [] ≡ (ok (some l), log)
      → Chunked K size none mhi.items log (some l)
  at_result size mhi l log positive p =
      subst
        (λ r.
          Outcome r (λ root log. Chunked K size none mhi.items log root)
            (λ e after. Blamed K size mhi.ending e after))
        p (chunk-Chunked K size mhi positive).at

  -- If a chunker of positive chunk size returns a link, and the blocks that it stored are read back,
  -- then `EntryChunkMultihashIterator` can be made for that link, and it returns the multihashes that
  -- were chunked, in chunks of the chunk size, of which only the one that is read first may be smaller,
  -- each chunk in its order and the chunks in the opposite order, and ends with `io.EOF`.
  pub chunk-ReadsBack :
      (size : ℕ) (mhi : Stream) (l : Link) (log : Log K)
      → 0 < size
      → chunk K size mhi [] ≡ (ok (some l), log)
      → Stored K read log
      → ReadsBack size l mhi.items
  chunk-ReadsBack size mhi l log positive p found =
      Chunked-ReadsBack l (at_result size mhi l log positive p) positive found
