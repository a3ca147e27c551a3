-- ===== src/Mirror/Copying/Extended.antt =====
-- Mirroring an advertisement puts its copy in front of the mirror's chain.
use mathlib.Core.Path.{subst}
use mathlib.Core.Option.{some-injective}
use index_provider.Prelude.{
  ℕ, suc, ◌≡◌, ◌≢◌, refl, sym, ap, ◌∙◌, inl, Bool, true, false, Option, none, some, List, ◌∷◌,
}
use index_provider.Exec.{ok, ok-injective, Exec, lift, ◌>>=◌}
use index_provider.Exec.Post.{
  Post, Post-pure, Post-bind, Post-weaken, Post-zoom, Post-lift, Post-lift-bind,
}
use index_provider.Schema.{Bytes, Advertisement}
use index_provider.Mirror.{Setup, Mirror, on_ds, with_ds, view}
use index_provider.Mirror.Keys.{block, latest_mirrored}
use index_provider.Mirror.Reading.{
  parse_reference, get_latest_mirrored_ad_cid, load_ad, read_block, open_unless,
  storage_read_opener, read,
}
use index_provider.Mirror.Copying.{mirror_entries, mirror_with, mirror_loaded, mirror}
use index_provider.Mirror.Copying.Steps.{unchanged, Kept, Kept-trans, mirror_entries-Within}
use index_provider.Mirror.Copying.Chain.{Holds, IsChain-Grown}
use index_provider.Mirror.Copying.Published.{IsMirror, Copied, Recovers, mirror_with_lem}

module _ (G : Setup) (depth : ℕ) where
  open G use {libraries as L, store as D, config}
  open G.libraries use {Cid}

  abbrev M : Type 0
  M = Mirror G

  abbrev Ad : Type 0
  Ad = Advertisement Cid

  module _ (orig : Ad) (l : Option Cid) (ads : List Ad) (s : M) where
    pub moved : (t : M) → IsMirror G depth l ads s → Kept G s t → IsMirror G depth l ads t
    moved t h k = IsChain-Grown G (view G s) (view G t) l ads k.grown h

    parsed :
        (o : Option Bytes) (t : M)
        → o ≡ view G s latest_mirrored
        → IsMirror G depth l ads s
        → Kept G s t
        → Post (parse_reference G o) t (λ p u. (p ≡ l) × Kept G s u) (λ _ u. Kept G s u)
    unfolding parse_reference
    parsed none t p h k = Post-pure none t (latest l p h.0, k)
      where
        latest :
            (l : Option Cid) → none ≡ view G s latest_mirrored → Holds G (view G s) l → none ≡ l
        latest none p h = refl
        latest (some d) p h = absurd (cc (p ∙ h))
    parsed (some b) t p h k =
        Post-lift-bind (L.cid_from_bytes b) _ t
          (λ d is. Post-pure (some d) t (latest l d is p h.0, k)) (λ _ _. k)
      where
        latest :
            (l : Option Cid) (d : Cid)
            → L.cid_from_bytes b ≡ ok d
            → some b ≡ view G s latest_mirrored
            → Holds G (view G s) l
            → some d ≡ l
        latest none d is p h = absurd (cc (p ∙ h))
        latest (some d') d is p h = ap some (
            ok-injective _ _ (
              sym is
              ∙ ap L.cid_from_bytes (some-injective b (L.cid_bytes d') (p ∙ h))
              ∙ L.cid_from_bytes-cid_bytes d'))

    pub get_lem :
        (t : M)
        → Kept G s t
        → Post
            (on_ds G (D.get latest_mirrored))
            t
            (λ o u. (o ≡ view G s latest_mirrored) × Kept G s u)
            (λ _ u. Kept G s u)
    unfolding on_ds
    get_lem t k =
        Post-zoom (λ x. x.ds) (with_ds G) (D.get latest_mirrored) t (D.get_lem latest_mirrored t.ds)
          (λ o d p. (p.0 ∙ k.grown.mirrored, Kept-trans G s t _ k (unchanged G t d p.1)))
          (λ _ d p. Kept-trans G s t _ k (unchanged G t d p.1))

    pub previous_lem :
        IsMirror G depth l ads s
        → (t : M) → Kept G s t
        → Post (get_latest_mirrored_ad_cid G) t (λ p u. (p ≡ l) × Kept G s u) (λ _ u. Kept G s u)
    unfolding get_latest_mirrored_ad_cid
    previous_lem h t k =
        Post-bind (on_ds G (D.get latest_mirrored)) (parse_reference G) t (get_lem t k)
          (λ o u p. parsed o u p.0 h p.1) (λ _ _ q. q)

    pub entries_of :
        (b : Bool) (t : M)
        → orig.is_rm ≡ b
        → Kept G s t
        → Post
            (mirror_entries G depth orig.entries b)
            t
            (λ c u. (orig.is_rm ≡ true → c ≡ orig.entries) × Kept G s u)
            (λ _ u. Kept G s u)
    unfolding mirror_entries
    entries_of true t p k = Post-pure orig.entries t (λ _. refl, k)
    entries_of false t p k =
        Post-weaken (mirror_entries G depth orig.entries false) t
          ((mirror_entries-Within G depth orig.entries false).at t)
          (λ c u q. (λ r. absurd (cc (sym p ∙ r)), Kept-trans G s t u k q))
          (λ _ u q. Kept-trans G s t u k q)

    pub mirror_loaded_lem :
        IsMirror G depth l ads s
        → (t : M) → Kept G s t
        → Post
            (mirror_loaded G depth orig)
            t
            (λ _ u. Copied G depth orig l ads s u)
            (λ _ u. Recovers G depth orig l ads s u)
    unfolding mirror_loaded
    mirror_loaded_lem h t k =
        Post-lift-bind (L.validate orig) _ t
          (λ _ _.
            Post-lift-bind (G.verify orig) _ t
              (λ _ _.
                Post-bind (get_latest_mirrored_ad_cid G) _ t (previous_lem h t k)
                  (λ prev u p.
                    subst
                      (λ x.
                        Post
                          (mirror_entries G depth orig.entries orig.is_rm
                            >>= mirror_with G depth orig x)
                          u (λ _ v. Copied G depth orig l ads s v)
                          (λ _ v. Recovers G depth orig l ads s v))
                      (sym p.0)
                      (Post-bind (mirror_entries G depth orig.entries orig.is_rm)
                        (mirror_with G depth orig l) u (entries_of orig.is_rm u refl p.1)
                        (λ c v q.
                          mirror_with_lem G depth orig l ads s c q.0 v (moved v h q.1)
                            q.1.announced)
                        (λ _ v q. inl (moved v h q))))
                  (λ _ v q. inl (moved v h q)))
              (λ _ _. inl (moved t h k)))
          (λ _ _. inl (moved t h k))

    module _ (c : Cid) (x : ℕ) (bs : Bytes) (at : view G s (block c) ≡ some (x ∷ bs))
        (ne : c ≢ L.no_entries) where
      abbrev pub Reads : Bytes → M → Type 0
      Reads b t = (b ≡ x ∷ bs) × Kept G s t

      pub get_block :
          Post
            (on_ds G (D.get (block c)))
            s
            (λ o u. (o ≡ some (x ∷ bs)) × Kept G s u)
            (λ _ u. Kept G s u)
      unfolding on_ds
      get_block =
          Post-zoom (λ m. m.ds) (with_ds G) (D.get (block c)) s (D.get_lem (block c) s.ds)
            (λ o d p. (p.0 ∙ at, unchanged G s d p.1)) (λ _ d p. unchanged G s d p.1)

      open_lem :
          (ls : Cid → Exec M Bytes) (d : Dec (c ≡ L.no_entries))
          → Post (open_unless G ls c d) s Reads (λ _ u. Kept G s u)
      unfolding open_unless read_block
      open_lem ls (yes p) = absurd (ne p)
      open_lem ls (no _) =
          Post-bind (on_ds G (D.get (block c))) (read_block G ls c) s get_block
            (λ o t p. rw (p.0) (Post-pure (x ∷ bs) t (refl, p.1))) (λ _ _ q. q)

      pub read_lem : (n : ℕ) → Post (read G (suc n) c) s Reads (λ _ u. Kept G s u)
      unfolding read storage_read_opener
      read_lem n = open_lem (read G n) (L.cid_discrete c L.no_entries)

      pub load_ad_lem :
          L.encode orig ≡ ok (c, x ∷ bs)
          → (n : ℕ) → depth ≡ suc n
          → Post (load_ad G (read G depth) c) s (λ a t. (a ≡ orig) × Kept G s t) (λ _ t. Kept G s t)
      unfolding load_ad
      load_ad_lem is n enough =
          Post-bind (read G depth c) (λ b. lift (L.decode b)) s
            (subst (λ d. Post (read G d c) s Reads (λ _ u. Kept G s u)) (sym enough) (read_lem n))
            (λ b t p. rw (p.0) (
              Post-lift (L.decode (x ∷ bs)) t
                (λ a q. (ok-injective _ _ (sym q ∙ L.decode-encode orig c (x ∷ bs) is), p.1))
                (λ _ _. p.1)))
            (λ _ _ q. q)

  -- If a mirror's chain is `ads` from the reference `l` on, and the block of an advertisement other
  -- than that of "no entries" is in its datastore, then mirroring the advertisement, with at least
  -- one read, puts a copy in front of the chain, sets the root of the publisher to it and announces
  -- it. If mirroring fails, the chain is the former one or has a copy in front.
  pub mirror-Copied :
      (orig : Ad) (l : Option Cid) (ads : List Ad) (s : M) (c : Cid) (x : ℕ) (bs : Bytes) (n : ℕ)
      → depth ≡ suc n
      → IsMirror G depth l ads s
      → L.encode orig ≡ ok (c, x ∷ bs)
      → view G s (block c) ≡ some (x ∷ bs)
      → c ≢ L.no_entries
      → Post
          (mirror G depth c)
          s
          (λ _ t. Copied G depth orig l ads s t)
          (λ _ t. Recovers G depth orig l ads s t)
  unfolding mirror load_ad
  mirror-Copied orig l ads s c x bs n enough h is at ne =
      Post-bind (load_ad G (read G depth) c) (mirror_loaded G depth) s
        (load_ad_lem orig l ads s c x bs at ne is n enough)
        (λ a t p. rw (p.0) (mirror_loaded_lem orig l ads s h t p.1))
        (λ _ t k. inl (moved orig l ads s t h k))
