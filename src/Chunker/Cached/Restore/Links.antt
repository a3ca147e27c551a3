-- ===== src/Chunker/Cached/Restore/Links.antt =====
-- The value of a root key, read back.
use mathlib.Core.Path.{subst}
use index_provider.Prelude.{
  ℕ, zero, suc, ◌<◌, ◌≤◌, ◌≡◌, ◌≢◌, refl, sym, ap, ◌∙◌, List, [], ◌∷◌, ◌++◌, length, length-append,
  arith,
}
use index_provider.Exec.{ok}
use index_provider.Datastore.Queries.{Queries}
use index_provider.Schema.{Bytes}
use index_provider.Chunker.Cached.{Setup, encode_links}
use index_provider.Chunker.Cached.Restore.{CidReader, stop_at_end, in_front, next, parse_links}

module _ (G : Setup) (R : CidReader G) (queries : Queries G.store) where
  open G use {Link, link_bytes}

  link_bytes-nonempty : (l : Link) → link_bytes l ≢ []
  link_bytes-nonempty l p = absurd (
      cc (
        sym (subst (λ b. R.read_cid (b ++ []) ≡ ok (l, [])) p (R.read_cid-append l []))
        ∙ R.read_cid-end))

  length-positive : (b : Bytes) → b ≢ [] → 0 < length b
  length-positive [] h = absurd (h refl)
  length-positive (x ∷ b) h = omega arith

  length-encode_links : (ls : List Link) → length ls ≤ length (encode_links G ls)
  unfolding encode_links
  length-encode_links [] = omega arith
  length-encode_links (l ∷ ls) = omega (
    arith,
    length-append (link_bytes l) (encode_links G ls),
    length-positive (link_bytes l) (link_bytes-nonempty l),
    length-encode_links ls,
  )

  parse-encode :
      (ls : List Link) (n : ℕ)
      → length ls < n
      → parse_links G R queries n (encode_links G ls) ≡ ok ls
  unfolding parse_links encode_links next in_front stop_at_end
  parse-encode ls zero h = absurd (omega (arith, h))
  parse-encode [] (suc n) h =
      ap (λ r. next G R queries r (parse_links G R queries n)) R.read_cid-end
  parse-encode (l ∷ ls) (suc n) h =
      ap (λ r. next G R queries r (parse_links G R queries n))
        (R.read_cid-append l (encode_links G ls))
      ∙ ap (in_front G R queries l) (parse-encode ls n (omega (arith, h)))

  -- The links that `Chunk` writes under a root key are what restoring reads there, in as many rounds as
  -- the value has bytes, and one.
  pub parse_links-encode_links :
      (ls : List Link)
      → parse_links G R queries (suc (length (encode_links G ls))) (encode_links G ls) ≡ ok ls
  parse_links-encode_links ls =
      parse-encode ls (suc (length (encode_links G ls))) (omega (arith, length-encode_links ls))

  pub encode_links-nonempty : (l : Link) (ls : List Link) → encode_links G (l ∷ ls) ≢ []
  unfolding encode_links
  encode_links-nonempty l ls p = front (link_bytes l) (link_bytes-nonempty l) p
    where
      front : (b : Bytes) → b ≢ [] → b ++ encode_links G ls ≢ []
      front [] h q = h refl
      front (x ∷ b) h q = absurd (cc)
