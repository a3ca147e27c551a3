-- ===== src/Iterators.antt =====
-- multihash_iterator.go: the iterators over a slice, over the index of a CAR and over a chain of
-- entry chunks. `Next` is an action on the iterator; the error `eof` ends it.
pub mod Car
pub mod RoundTrip
pub mod Reading
mod Tests
use index_provider.Prelude.{
  ℕ, suc, ◌≡◌, Bool, Option, none, some, List, [], ◌∷◌, ltb, ◌==◌, if◌then◌else◌, length, get_elem?,
  map,
}
use index_provider.Exec.{Error, eof, text, panic, Result, ok, err, Exec}
use index_provider.Schema.{Bytes}
use index_provider.Entries.{EntryChunk, Codec}

pub record SliceMhIterator : Type 0 where
  pub mhs : List Bytes
  pub pos : ℕ

advance : SliceMhIterator → Option Bytes → Result Bytes × SliceMhIterator
advance it none = (err panic, it)
advance it (some mh) = (ok mh, record it { pos = suc it.pos })

unfoldable pub slice_next : Exec SliceMhIterator Bytes
unfolding advance
slice_next it =
    if ltb it.pos (length it.mhs) then advance it (get_elem? it.mhs it.pos) else (err eof, it)

unfoldable pub slice_multihash_iterator : List Bytes → SliceMhIterator
slice_multihash_iterator mhs = record { mhs = mhs; pos = 0 }

pub record IteratorStep : Type 0 where
  pub mh : Bytes
  pub offset : ℕ

-- The loop that compares each offset with `lastOffset`, which it never sets.
unfoldable pub check_offsets : ℕ → List IteratorStep → Result (List Bytes)
check_offsets last [] = ok []
check_offsets last (s ∷ steps) =
    let rest = check_offsets last steps in
    if s.offset == last
    then err (text "car multihash iterator has duplicate offset")
    else elim rest [ err e ↦ err e | ok mhs ↦ ok (s.mh ∷ mhs) ]

-- The multihashes and offsets that `ForEach` of the index gives, or its error, and the sorting of the
-- steps by their offsets (`slices.SortFunc`).
unfoldable pub car_multihash_iterator :
    (List IteratorStep → List IteratorStep) → Result (List IteratorStep) → Result SliceMhIterator
unfolding check_offsets slice_multihash_iterator
car_multihash_iterator sort (err e) = err e
car_multihash_iterator sort (ok steps) = elim (check_offsets 0 (sort steps)) [
  | err e ↦ err e
  | ok mhs ↦ ok (slice_multihash_iterator mhs)
]

-- The link system reads blocks by `read`.
module _ (K : Codec) (read : K.Link → Result Bytes) where
  open K use {Link, decode, unwrap}

  pub record LinksysEntryChunkMhIter : Type 0 where
    pub ec : Option (EntryChunk Link)
    pub offset : ℕ

  unfoldable pub entry_at : EntryChunk Link → ℕ → Result Bytes × LinksysEntryChunkMhIter
  entry_at c i = elim (get_elem? c.entries i) [
    | none ↦ (err panic, record { ec = some c; offset = i })
    | some mh ↦ (ok mh, record { ec = some c; offset = suc i })
  ]

  -- `ls.Load`
  unfoldable pub load : Link → Result K.Node
  load l = elim (read l) [ err e ↦ err e | ok b ↦ decode b ]

  -- Go on with the chunk of a link; if it is no entry chunk, the iterator has no chunk after that.
  unfoldable pub enter : LinksysEntryChunkMhIter → Link → Result Bytes × LinksysEntryChunkMhIter
  unfolding load entry_at
  enter it l = elim (load l) [
    | err e ↦ (err e, it)
    | ok n ↦ elim (unwrap n) [ err e ↦ (err e, record it { ec = none }) | ok c ↦ entry_at c 0 ]
  ]

  unfoldable pub follow :
      LinksysEntryChunkMhIter → Option Link → Result Bytes × LinksysEntryChunkMhIter
  unfolding enter
  follow it none = (err eof, it)
  follow it (some l) = enter it l

  unfoldable pub next_in :
      LinksysEntryChunkMhIter → Option (EntryChunk Link) → Result Bytes × LinksysEntryChunkMhIter
  unfolding entry_at follow
  next_in it none = (err eof, it)
  next_in it (some c) =
      if ltb it.offset (length c.entries) then entry_at c it.offset else follow it c.next

  unfoldable pub chunk_next : Exec LinksysEntryChunkMhIter Bytes
  unfolding next_in
  chunk_next it = next_in it it.ec

  unfoldable pub entry_chunk_multihash_iterator : Link → Result LinksysEntryChunkMhIter
  unfolding load
  entry_chunk_multihash_iterator l = elim (load l) [
    | err e ↦ err e
    | ok n ↦ elim (unwrap n) [ err e ↦ err e | ok c ↦ ok (record { ec = some c; offset = 0 }) ]
  ]
