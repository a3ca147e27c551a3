-- ===== src/Chunker/Chain/Chunks.antt =====
-- What a chain of chunks holds: every multihash, in order, in chunks of the right size.
use index_provider.Prelude.{
  ℕ, ◌<◌, ◌≡◌, refl, sym, ◌∙◌, ◌⊎◌, inl, inr, false, Option, none, some, List, [], ◌∷◌, ◌++◌,
  length, length-append, arith, ltb,
}
use mathlib.Core.Path.{subst}
use mathlib.Core.List.{append_assoc, append-nil}
use index_provider.Exec.{Error, ok, err, pure, lift, modify, ◌>>=◌}
use index_provider.Exec.Post.{
  Post, Post-pure, Post-raise, Post-bind, Post-weaken, Post-if, Post-lift-bind, Post-gets-bind,
}
use index_provider.Schema.{Bytes}
use index_provider.Entries.{EntryChunk, Codec, Stream, is_eof}
use index_provider.Chunker.Chain.{Log, store_chunk, flush, drain, chunk}

module _ (K : Codec) (size : ℕ) where
  open K use {Link, encode}

  abbrev node : List Bytes → Option Link → EntryChunk Link
  node mhs prev = record { entries = mhs; next = prev }

  -- The blocks that hold the given multihashes in a chain that goes on from a link, and the root:
  -- every chunk is full but the last one stored, which is not empty.
  pub data Chunked : Option Link → List Bytes → Log K → Option Link → Type 0 where
    done : (prev : Option Link) → Chunked prev [] [] prev
    rest_chunk :
        (prev : Option Link) (mhs : List Bytes) (l : Link) (b : Bytes)
        → encode (node mhs prev) ≡ ok (l, b)
        → 0 < length mhs
        → length mhs < size
        → Chunked prev mhs ((l, b) ∷ []) (some l)
    full_chunk :
        (prev : Option Link) (mhs items : List Bytes) (l : Link) (b : Bytes) (blocks : Log K)
        (root : Option Link)
        → encode (node mhs prev) ≡ ok (l, b)
        → length mhs ≡ size
        → Chunked (some l) items blocks root
        → Chunked prev (mhs ++ items) ((l, b) ∷ blocks) root

  -- Whose error it is: the iterator's, or that of encoding a chunk, or of storing a block.
  abbrev pub Blamed : Error → Error → Log K → Type 0
  Blamed ending e log =
      ((is_eof ending ≡ false) × (e ≡ ending))
      ⊎ ((c : EntryChunk Link) × (encode c ≡ err e))
      ⊎ ((l : Link) × (b : Bytes) × (stored : Log K) × (K.commit l b stored ≡ err e))

  abbrev Stores : Option Link → List Bytes → Log K → Option Link → Log K → Type 0
  Stores prev items log root after =
      (blocks : Log K) × (after ≡ log ++ blocks) × Chunked prev items blocks root

  store_chunk_lem :
      (ending : Error) (mhs : List Bytes) (prev : Option Link) (log : Log K)
      → Post
          (store_chunk K mhs prev)
          log
          (λ l after.
            (b : Bytes) × (encode (node mhs prev) ≡ ok (l, b)) × (after ≡ log ++ (l, b) ∷ []))
          (Blamed ending)
  unfolding store_chunk
  store_chunk_lem ending mhs prev log =
      Post-lift-bind (encode (node mhs prev)) _ log
        (λ (l, b) p.
          Post-gets-bind (λ s. s)
            (λ s. lift (K.commit l b s) >>= λ _. modify (λ s. s ++ (l, b) ∷ []) >>= λ _. pure l) log
            (Post-lift-bind (K.commit l b log) (λ _. modify (λ s. s ++ (l, b) ∷ []) >>= λ _. pure l)
              log (λ _ _. record { at = (b, p, refl) }) (λ e q. inr (inr (l, b, log, q)))))
        (λ e p. inr (inl (node mhs prev, p)))

  flush_lem :
      (ending : Error) (mhs : List Bytes) (prev : Option Link) (log : Log K)
      → length mhs < size
      → Post (flush K mhs prev) log (λ root after. Stores prev mhs log root after) (Blamed ending)
  unfolding flush
  flush_lem ending [] prev log small = Post-pure prev log ([], sym (append-nil log), done prev)
  flush_lem ending (mh ∷ mhs) prev log small =
      Post-bind (store_chunk K (mh ∷ mhs) prev) _ log (store_chunk_lem ending (mh ∷ mhs) prev log)
        (λ l t p.
          Post-pure (some l) t
            ((l, p.0) ∷ [], p.2, rest_chunk prev (mh ∷ mhs) l p.0 p.1 (omega arith) small))
        (λ e t r. r)

  -- A chunk that is full goes in front of the blocks that the rest of the loop stores.
  with_chunk :
      (prev : Option Link) (mhs items : List Bytes) (l : Link) (b : Bytes) (log after : Log K)
      (root : Option Link)
      → encode (node mhs prev) ≡ ok (l, b)
      → length mhs ≡ size
      → Stores (some l) items (log ++ (l, b) ∷ []) root after
      → Stores prev (mhs ++ items) log root after
  with_chunk prev mhs items l b log after root is full (blocks, p, c) = (
    (l, b) ∷ blocks,
    p ∙ append_assoc log ((l, b) ∷ []) blocks,
    full_chunk prev mhs items l b blocks root is full c,
  )

  drain_lem :
      (ending : Error) (items mhs : List Bytes) (prev : Option Link) (log : Log K)
      → length mhs < size
      → Post
          (drain K size ending items mhs prev)
          log
          (λ root after. Stores prev (mhs ++ items) log root after)
          (Blamed ending)
  unfolding drain
  drain_lem ending [] mhs prev log small =
      Post-if (is_eof ending) _ _ log
        (λ p.
          subst
            (λ xs.
              Post (flush K mhs prev) log (λ root after. Stores prev xs log root after)
                (Blamed ending))
            (sym (append-nil mhs)) (flush_lem ending mhs prev log small))
        (λ p. Post-raise ending log (inl (p, refl)))
  drain_lem ending (mh ∷ items) mhs prev log small =
      subst
        (λ xs.
          Post (drain K size ending (mh ∷ items) mhs prev) log
            (λ root after. Stores prev xs log root after) (Blamed ending))
        (append_assoc mhs (mh ∷ []) items)
        (Post-if (ltb (length (mhs ++ mh ∷ [])) size) _ _ log
          (λ p. drain_lem ending items (mhs ++ mh ∷ []) prev log (ground arith))
          (λ p.
            Post-bind (store_chunk K (mhs ++ mh ∷ []) prev) _ log
              (store_chunk_lem ending (mhs ++ mh ∷ []) prev log)
              (λ l t q.
                Post-weaken (drain K size ending items [] (some l)) t
                  (drain_lem ending items [] (some l) t (omega (arith, small)))
                  (λ root after r.
                    with_chunk prev (mhs ++ mh ∷ []) items l q.0 log after root q.1
                      (ground (arith, length-append mhs (mh ∷ [])))
                      (subst (λ u. Stores (some l) items u root after) q.2 r))
                  (λ e u r. r))
              (λ e t r. r)))

  -- A chunker of positive chunk size that runs on an iterator either returns the root of a chain that
  -- holds the iterator's multihashes, every one and in order, in full chunks but for the last, and
  -- has stored the blocks of that chain and nothing else; or it fails with the iterator's error, which
  -- is not the end of the stream, or with that of encoding a chunk or of storing a block.
  pub chunk-Chunked :
      (mhi : Stream)
      → 0 < size
      → Post (chunk K size mhi) [] (λ root log. Chunked none mhi.items log root) (Blamed mhi.ending)
  unfolding chunk
  chunk-Chunked mhi positive =
      Post-weaken (drain K size mhi.ending mhi.items [] none) []
        (drain_lem mhi.ending mhi.items [] none [] positive)
        (λ root log r. subst (λ blocks. Chunked none mhi.items blocks root) (sym r.1) r.2)
        (λ e t r. r)
