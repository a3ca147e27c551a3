-- ===== src/Iterators/RoundTrip.antt =====
-- The iterator over a chain of entry chunks, run on a chain that the chain chunker has stored.
use mathlib.Core.Path.{subst}
use mathlib.Core.List.{append_assoc, append-nil}
use mathlib.Core.Option.{some-injective}
use index_provider.Prelude.{
  ℕ, suc, ◌<◌, ◌≤◌, ◌≡◌, refl, sym, ◌∙◌, Option, none, some, List, [], ◌∷◌, ◌++◌, length,
  length-append, arith, ltb, All, ◌⊎◌, inl, inr, flatten, flatten-append, get_elem?-append,
  if◌then◌else◌,
}
use index_provider.Exec.{Error, eof, Result, ok, err}
use index_provider.Schema.{Bytes}
use index_provider.Entries.{EntryChunk, Codec}
use index_provider.Chunker.Chain.{Log}
use index_provider.Chunker.Chain.Chunks.{Chunked, done, rest_chunk, full_chunk}
use index_provider.Iterators.{
  LinksysEntryChunkMhIter, entry_at, enter, follow, next_in, chunk_next, load,
}

if_below : {A : Type 0} (i n : ℕ) (a b : A) → i < n → (if ltb i n then a else b) ≡ a
if_below i n a b h = ground arith

unless_below : {A : Type 0} (i n : ℕ) (a b : A) → n ≤ i → (if ltb i n then a else b) ≡ b
unless_below i n a b h = ground arith

module _ (K : Codec) (read : K.Link → Result Bytes) where
  open K use {Link, decode, unwrap}

  abbrev pub Iter : Type 0
  Iter = LinksysEntryChunkMhIter K read

  -- The calls of `Next` from an iterator on: the multihashes that they return, and the error that ends
  -- them.
  pub data Yields : Iter → List Bytes → Error → Type 0 where
    stop : (it after : Iter) (e : Error) → chunk_next K read it ≡ (err e, after) → Yields it [] e
    more :
        (it after : Iter) (mh : Bytes) (mhs : List Bytes) (e : Error)
        → chunk_next K read it ≡ (ok mh, after)
        → Yields after mhs e
        → Yields it (mh ∷ mhs) e

  pub same_next :
      (it jt : Iter) (mhs : List Bytes) (e : Error)
      → chunk_next K read it ≡ chunk_next K read jt
      → Yields jt mhs e
      → Yields it mhs e
  same_next it jt [] e p (stop _ after _ q) = stop it after e (p ∙ q)
  same_next it jt (mh ∷ mhs) e p (more _ after _ _ _ q y) = more it after mh mhs e (p ∙ q) y

  abbrev pub node : List Bytes → Option Link → EntryChunk Link
  node mhs prev = record { entries = mhs; next = prev }

  abbrev pub inside : List Bytes → Option Link → ℕ → Iter
  inside mhs prev i = record { ec = some (node mhs prev); offset = i }

  -- The calls at the end of a chunk that goes on at a link.
  abbrev pub Ends : Option Link → List Bytes → Type 0
  Ends prev ys = (mhs : List Bytes) → Yields (inside mhs prev (length mhs)) ys eof

  pub end_next :
      (mhs : List Bytes) (prev : Option Link)
      → chunk_next K read (inside mhs prev (length mhs))
        ≡ follow K read (inside mhs prev (length mhs)) prev
  unfolding chunk_next next_in
  end_next mhs prev = unless_below (length mhs) (length mhs) _ _ (omega arith)

  pub nothing-Ends : Ends none []
  unfolding follow
  nothing-Ends mhs =
      stop (inside mhs none (length mhs)) (inside mhs none (length mhs)) eof (end_next mhs none)

  inside_next :
      (front : List Bytes) (mh : Bytes) (back : List Bytes) (prev : Option Link)
      → chunk_next K read (inside (front ++ mh ∷ back) prev (length front))
        ≡ (ok mh, inside (front ++ mh ∷ back) prev (suc (length front)))
  unfolding chunk_next next_in entry_at
  inside_next front mh back prev =
      if_below (length front) (length (front ++ mh ∷ back)) _ _
        (omega (arith, length-append front (mh ∷ back)))
      ∙ rw (get_elem?-append front mh back, entry_at) refl

  moved :
      (xs ys : List Bytes)
      → xs ≡ ys
      → (i j : ℕ) → i ≡ j
      → (prev : Option Link) (zs : List Bytes) → Yields (inside xs prev i) zs eof
      → Yields (inside ys prev j) zs eof
  moved xs ys p i j q prev zs y = rw (← p, ← q) y

  -- The rest of a chunk, and then what follows it.
  read_from :
      (front back : List Bytes) (prev : Option Link) (ys : List Bytes)
      → Ends prev ys
      → Yields (inside (front ++ back) prev (length front)) (back ++ ys) eof
  read_from front [] prev ys h =
      subst (λ mhs. Yields (inside mhs prev (length front)) ys eof) (sym (append-nil front))
        (h front)
  read_from front (mh ∷ back) prev ys h =
      more (inside (front ++ mh ∷ back) prev (length front))
        (inside (front ++ mh ∷ back) prev (suc (length front))) mh (back ++ ys) eof
        (inside_next front mh back prev)
        (moved (front ++ mh ∷ [] ++ back) (front ++ mh ∷ back) (append_assoc front (mh ∷ []) back)
          (length (front ++ mh ∷ [])) (suc (length front))
          (omega (arith, length-append front (mh ∷ []))) prev (back ++ ys)
          (read_from (front ++ mh ∷ []) back prev ys h))

  -- The chunks of a chain in the order in which they are read, the last one stored first.
  unfoldable pub read_back :
      {size : ℕ} {prev root : Option Link} {items : List Bytes} {blocks : Log K}
      → Chunked K size prev items blocks root
      → List (List Bytes)
  read_back (done _) = []
  read_back (rest_chunk _ mhs _ _ _ _ _) = mhs ∷ []
  read_back (full_chunk _ mhs _ _ _ _ _ _ _ c) = read_back c ++ mhs ∷ []

  -- The link of a stored chunk leads to the chunk.
  pub entered :
      (mhs : List Bytes) (prev : Option Link) (l : Link) (b : Bytes) (it : Iter)
      → K.encode (node mhs prev) ≡ ok (l, b)
      → read l ≡ ok b
      → 0 < length mhs
      → enter K read it l ≡ chunk_next K read (inside mhs prev 0)
  unfolding enter load chunk_next next_in
  entered mhs prev l b it is found some_mh =
      let (n, d, u) = K.decode-encode (node mhs prev) l b is in
      rw (enter, load, found, d, u) (sym (if_below 0 (length mhs) _ _ some_mh))

  chunk-Ends :
      (mhs : List Bytes) (prev : Option Link) (l : Link) (b : Bytes) (ys : List Bytes)
      → K.encode (node mhs prev) ≡ ok (l, b)
      → read l ≡ ok b
      → 0 < length mhs
      → Ends prev ys
      → Ends (some l) (mhs ++ ys)
  unfolding follow
  chunk-Ends mhs prev l b ys is found some_mh h ms =
      same_next (inside ms (some l) (length ms)) (inside mhs prev 0) (mhs ++ ys) eof
        (end_next ms (some l)
          ∙ entered mhs prev l b (inside ms (some l) (length ms)) is found some_mh)
        (read_from [] mhs prev ys h)

  abbrev pub Stored : Log K → Type 0
  Stored = All (λ p. read p.0 ≡ ok p.1)

  pub chain-Ends :
      {size : ℕ} {prev root : Option Link} {items : List Bytes} {blocks : Log K}
      (c : Chunked K size prev items blocks root) (ys : List Bytes)
      → 0 < size
      → Stored blocks
      → Ends prev ys
      → Ends root (flatten (read_back c) ++ ys)
  unfolding read_back flatten
  chain-Ends (done _) ys positive found h = h
  chain-Ends (rest_chunk prev mhs l b is some_mh small) ys positive found h =
      rw (append-nil mhs) (chunk-Ends mhs prev l b ys is found.0 some_mh h)
  chain-Ends (full_chunk prev mhs items l b blocks root is full c) ys positive found h =
      rw
        (
          flatten-append (read_back c) (mhs ∷ []),
          append-nil mhs,
          append_assoc (flatten (read_back c)) mhs ys,
        )
        (chain-Ends c (mhs ++ ys) positive found.1
          (chunk-Ends mhs prev l b ys is found.0 (omega (arith, full)) h))

  abbrev pub IsChunkAt : Link → Type 0
  IsChunkAt l =
      (mhs : List Bytes) × (prev : Option Link) × (b : Bytes) × (K.encode (node mhs prev)
        ≡ ok (l, b))
      × (read l ≡ ok b)
      × (0 < length mhs)

  pub root_chunk :
      {size : ℕ} {prev root : Option Link} {items : List Bytes} {blocks : Log K}
      → Chunked K size prev items blocks root
      → (l : Link) → 0 < size
      → Stored blocks
      → root ≡ some l
      → (prev ≡ some l) ⊎ IsChunkAt l
  root_chunk (done _) l positive found p = inl p
  root_chunk (rest_chunk prev mhs k b is some_mh small) l positive found p =
      inr (subst IsChunkAt (some-injective _ _ p) (mhs, prev, b, is, found.0, some_mh))
  root_chunk (full_chunk prev mhs items k b blocks root is full c) l positive found p =
      elim (root_chunk c l positive found.1 p) [
        | inl q ↦ inr (
            subst IsChunkAt (some-injective _ _ q) (mhs, prev, b, is, found.0, omega (arith, full)))
        | inr q ↦ inr q
      ]
