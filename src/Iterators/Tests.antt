-- ===== src/Iterators/Tests.antt =====
-- A codec for chunks of one short multihash, a chain of two chunks, and the theorems at them.
use index_provider.Prelude.{
  ℕ, ℕ_discrete, ◌≡◌, refl, sym, ap, Option, none, some, List, [], ◌∷◌, arith,
}
use index_provider.Exec.{eof, external, Result, ok, err, ok-injective}
use index_provider.Exec.Post.{Post}
use index_provider.Schema.{Bytes}
use index_provider.Entries.{EntryChunk, Codec, Stream, is_eof}
use index_provider.Chunker.Chain.{chunk}
use index_provider.Chunker.Chain.Chunks.{Chunked, Blamed, chunk-Chunked}
use index_provider.Iterators.{IteratorStep}
use index_provider.Iterators.Reading.{ReadsBack, chunk-ReadsBack}

abbrev node : List Bytes → Option ℕ → EntryChunk ℕ
node mhs prev = record { entries = mhs; next = prev }

abbrev encode_parts : List Bytes → Option ℕ → Result (ℕ × Bytes)
encode_parts [] prev = err external
encode_parts ([] ∷ mhs) prev = err external
encode_parts ((x ∷ y ∷ bs) ∷ mhs) prev = err external
encode_parts ((x ∷ []) ∷ mh ∷ mhs) prev = err external
encode_parts ((x ∷ []) ∷ []) none = ok (x, x ∷ [])
encode_parts ((x ∷ []) ∷ []) (some l) = ok (x, x ∷ l ∷ [])

abbrev decode : Bytes → Result (EntryChunk ℕ)
decode [] = err external
decode (x ∷ []) = ok (node ((x ∷ []) ∷ []) none)
decode (x ∷ l ∷ []) = ok (node ((x ∷ []) ∷ []) (some l))
decode (x ∷ l ∷ y ∷ bs) = err external

decode_parts :
    (mhs : List Bytes) (prev : Option ℕ) (l : ℕ) (b : Bytes)
    → encode_parts mhs prev ≡ ok (l, b)
    → decode b ≡ ok (node mhs prev)
decode_parts [] prev l b p = absurd (cc)
decode_parts ([] ∷ mhs) prev l b p = absurd (cc)
decode_parts ((x ∷ y ∷ bs) ∷ mhs) prev l b p = absurd (cc)
decode_parts ((x ∷ []) ∷ mh ∷ mhs) prev l b p = absurd (cc)
decode_parts ((x ∷ []) ∷ []) none l b p =
    ap decode (sym (ap (λ r. r.1) (ok-injective (x, x ∷ []) (l, b) p)))
decode_parts ((x ∷ []) ∷ []) (some k) l b p =
    ap decode (sym (ap (λ r. r.1) (ok-injective (x, x ∷ k ∷ []) (l, b) p)))

abbrev codec : Codec
codec = record {
  Link = ℕ;
  encode = λ c. encode_parts c.entries c.next;
  commit = λ l b log. ok tt;
  Node = EntryChunk ℕ;
  decode = decode;
  unwrap = λ c. ok c;
  decode-encode = λ c l b p. (c, decode_parts c.entries c.next l b p, refl);
}

-- Two multihashes, then the end.
abbrev stream : Stream
stream = record { items = (5 ∷ []) ∷ (6 ∷ []) ∷ []; ending = eof }

abbrev stored : List (ℕ × Bytes)
stored = (5, 5 ∷ []) ∷ (6, 6 ∷ 5 ∷ []) ∷ []

abbrev read : ℕ → Result Bytes
read l = elim (ℕ_discrete l 5) [ yes _ ↦ ok (5 ∷ []) | no _ ↦ ok (6 ∷ 5 ∷ []) ]

chunk_two : chunk codec 1 stream [] ≡ (ok (some 6), stored)
unfolding chunk is_eof
chunk_two = refl

chunk-Chunked_example :
    Post
      (chunk codec 1 stream)
      []
      (λ root log. Chunked codec 1 none stream.items log root)
      (Blamed codec 1 eof)
chunk-Chunked_example = chunk-Chunked codec 1 stream (omega arith)

read_two : (read 5 ≡ ok (5 ∷ [])) × (read 6 ≡ ok (6 ∷ 5 ∷ []))
unfolding ℕ_discrete
read_two = (refl, refl)

chunk-ReadsBack_example : ReadsBack codec read 1 6 ((5 ∷ []) ∷ (6 ∷ []) ∷ [])
chunk-ReadsBack_example =
    chunk-ReadsBack codec read 1 stream 6 stored (omega arith) chunk_two
      (read_two.0, (read_two.1, tt))

-- Two multihashes at one offset.
abbrev steps : List IteratorStep
steps = record { mh = 5 ∷ []; offset = 7 } ∷ record { mh = 6 ∷ []; offset = 7 } ∷ []
