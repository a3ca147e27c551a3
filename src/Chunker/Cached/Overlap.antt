-- ===== src/Chunker/Cached/Overlap.antt =====
-- The blocks and the overlap counts of the cache as a count of references for each link.
use index_provider.Prelude.{
  ℕ, zero, suc, ◌<◌, ◌≡◌, ◌≢◌, refl, ap, ◌∙◌, true, false, Option, none, some, if_pos, if_neg,
  arith,
}
use index_provider.Exec.{Error, Result, ok}
use index_provider.Exec.Post.{Post, Post-lift, Post-bind, Post-zoom, Post-unless}
use index_provider.Datastore.{update}
use index_provider.Schema.{Bytes}
use index_provider.Words.{word_mod, put_uint64, uint64-put_uint64}
use index_provider.Chunker.Cached.{
  Setup, Cached, Key, block, overlap, root, key_discrete, on_ds, with_ds, read_overlap, parse_count,
}

module _ (G : Setup) where
  open G use {Link, link_discrete, store as D}

  abbrev pub view : Cached G → Key Link → Option Bytes
  view e = D.view e.ds

  abbrev pub updated : (Key Link → Option Bytes) → Key Link → Option Bytes → Key Link → Option Bytes
  updated = update (key_discrete link_discrete)

  -- The link is stored for `n` references: no block for none, a block for one, and a block with the
  -- count of the others under the overlap key for more.
  abbrev pub Counted : (Key Link → Option Bytes) → Link → ℕ → Type 0
  Counted v l zero = (v (block l) ≡ none) × (v (overlap l) ≡ none)
  Counted v l (suc zero) = (v (block l) ≢ none) × (v (overlap l) ≡ none)
  Counted v l (suc (suc n)) = (v (block l) ≢ none) × (v (overlap l) ≡ some (put_uint64 (suc n)))

  -- Nothing but the entries of one link may have changed.
  pub record Touches (l : Link) (e t : Cached G) : Type 0 where
    pub blocks : (j : Link) → ¬ (l ≡ j) → view t (block j) ≡ view e (block j)
    pub overlaps : (j : Link) → ¬ (l ≡ j) → view t (overlap j) ≡ view e (overlap j)
    pub roots : (j : Link) → view t (root j) ≡ view e (root j)
    pub cache : t.cache ≡ e.cache

  -- The action fails only where the datastore does.
  abbrev pub Faulty : Error → Cached G → Type 0
  Faulty _ _ = D.Reliable → ⊥

  pub record Held (e t : Cached G) : Type 0 where
    pub held : view t ≡ view e
    pub cache : t.cache ≡ e.cache

  pub get_lem :
      (k : Key Link) (e : Cached G)
      → Post (on_ds G (D.get k)) e (λ o t. (o ≡ view e k) × Held e t) Faulty
  unfolding on_ds
  get_lem k e =
      Post-zoom (λ x. x.ds) (with_ds G) (D.get k) e
        (Post-unless D.Reliable (D.get k) e.ds (D.get_lem k e.ds) (D.get_reliable k e.ds))
        (λ o d p. (p.0, record { held = p.1; cache = refl })) (λ _ _ r. r)

  pub has_lem :
      (k : Key Link) (e : Cached G)
      → Post
          (on_ds G (D.has k))
          e
          (λ b t. (b ≡ true → view e k ≢ none) × (b ≡ false → view e k ≡ none) × Held e t)
          Faulty
  unfolding on_ds
  has_lem k e =
      Post-zoom (λ x. x.ds) (with_ds G) (D.has k) e
        (Post-unless D.Reliable (D.has k) e.ds (D.has_lem k e.ds) (D.has_reliable k e.ds))
        (λ b d p. (p.0, p.1, record { held = p.2; cache = refl })) (λ _ _ r. r)

  pub put_lem :
      (k : Key Link) (b : Bytes) (e : Cached G)
      → Post
          (on_ds G (D.put k b))
          e
          (λ _ t. (view t ≡ updated (view e) k (some b)) × (t.cache ≡ e.cache))
          Faulty
  unfolding on_ds
  put_lem k b e =
      Post-zoom (λ x. x.ds) (with_ds G) (D.put k b) e
        (Post-unless D.Reliable (D.put k b) e.ds (D.put_lem k b e.ds) (D.put_reliable k b e.ds))
        (λ _ _ p. (p, refl)) (λ _ _ r. r)

  pub delete_lem :
      (k : Key Link) (e : Cached G)
      → Post
          (on_ds G (D.delete k))
          e
          (λ _ t. (view t ≡ updated (view e) k none) × (t.cache ≡ e.cache))
          Faulty
  unfolding on_ds
  delete_lem k e =
      Post-zoom (λ x. x.ds) (with_ds G) (D.delete k) e
        (Post-unless D.Reliable (D.delete k) e.ds (D.delete_lem k e.ds) (D.delete_reliable k e.ds))
        (λ _ _ p. (p, refl)) (λ _ _ r. r)

  pub at_key :
      (v w : Key Link → Option Bytes) (k : Key Link) (o : Option Bytes)
      → w ≡ updated v k o
      → w k ≡ o
  at_key v w k o p = ap (λ u. u k) p ∙ if_pos (key_discrete link_discrete k k) refl _ _

  pub off_key :
      (v w : Key Link → Option Bytes) (k j : Key Link) (o : Option Bytes)
      → w ≡ updated v k o
      → ¬ (k ≡ j)
      → w j ≡ v j
  off_key v w k j o p ne = ap (λ u. u j) p ∙ if_neg (key_discrete link_discrete k j) ne _ _

  abbrev pub overlap_of : ℕ → Option ℕ
  overlap_of zero = none
  overlap_of (suc zero) = none
  overlap_of (suc (suc n)) = some (suc n)

  parse_count_lem :
      (v : Key Link → Option Bytes) (l : Link) (n : ℕ)
      → n < word_mod
      → Counted v l n
      → parse_count G (v (overlap l)) ≡ ok (overlap_of n)
  unfolding parse_count
  parse_count_lem v l zero h c = rw (c.1)
  parse_count_lem v l (suc zero) h c = rw (c.1)
  parse_count_lem v l (suc (suc n)) h c =
      rw (c.1, uint64-put_uint64 (suc n) (omega arith), parse_count)

  pub read_overlap_lem :
      (l : Link) (n : ℕ) (e : Cached G)
      → n < word_mod
      → Counted (view e) l n
      → Post (read_overlap G l) e (λ o t. (o ≡ overlap_of n) × Held e t) Faulty
  unfolding read_overlap
  read_overlap_lem l n e h c =
      Post-bind _ _ e (get_lem (overlap l) e)
        (λ o t p.
          let parses = ap (parse_count G) p.0 ∙ parse_count_lem (view e) l n h c in
          Post-lift (parse_count G o) t (λ a q. (same a q parses, p.1)) (λ x q. absurd (cc)))
        (λ _ _ r. r)
    where
      same :
          {o : Result (Option ℕ)} (a : Option ℕ)
          → o ≡ ok a
          → o ≡ ok (overlap_of n)
          → a ≡ overlap_of n
      same a p q = cc
