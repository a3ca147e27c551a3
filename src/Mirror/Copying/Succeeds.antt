-- ===== src/Mirror/Copying/Succeeds.antt =====
-- mirror/mirror.go: when mirroring an advertisement succeeds, in a mirror that does not chunk entries anew.
pub mod Working
use mathlib.Core.Path.{subst}
use mathlib.Core.Option.{some-injective}
use index_provider.Prelude.{
  ℕ, suc, ◌≡◌, ◌≢◌, refl, sym, ap, ◌∙◌, Bool, true, false, ◌||◌, Option, none, some, List, ◌∷◌,
}
use index_provider.Exec.{Exec, Result, ok, pure, lift, modify, ◌>>=◌, ◌>>◌}
use index_provider.Exec.Post.{Post, Post-pure, Post-bind, Post-weaken, Post-lift-bind}
use index_provider.Exec.Sure.{
  Returns, lift_known, Sure, Post-Returns, Sure-pure, Sure-lift, Sure-modify, Sure-bind, Sure-zoom,
}
use index_provider.Schema.{Bytes, PeerId, Advertisement}
use index_provider.Mirror.{Setup, Mirror, on_ds, with_ds, view}
use index_provider.Mirror.Keys.{Key, block, latest_mirrored}
use index_provider.Mirror.Reading.{
  parse_reference, get_latest_mirrored_ad_cid, set_latest_mirrored_ad_cid, load_ad, read_block,
  open_unless, storage_read_opener, read,
}
use index_provider.Mirror.Copying.{
  relinked, ad_changed, sign_if, store_ad, publish, remap_entries, sync_and_remap,
  unless_no_entries, mirror_entries, mirror_with, mirror_loaded, mirror,
}
use index_provider.Mirror.Copying.Steps.{Kept}
use index_provider.Mirror.Copying.Chain.{Holds}
use index_provider.Mirror.Copying.Published.{IsMirror, Copied}
use index_provider.Mirror.Copying.Extended.{
  get_lem, previous_lem, get_block, Reads, read_lem, load_ad_lem, mirror-Copied,
}
use Working.{Works, S-get, S-with, entries_known}

module _ (G : Setup) (depth : ℕ) where
  open G use {libraries as L, store as D, config}
  open G.libraries use {Cid}

  abbrev M : Type 0
  M = Mirror G

  abbrev Ad : Type 0
  Ad = Advertisement Cid

  module _ {orig : Ad} {l : Option Cid} (W : Works G depth orig l) where
    module _ (ads : List Ad) (s : M) (h : IsMirror G depth l ads s) where
      parse-Returns :
          (o : Option Bytes) (k : Option Cid) (t : M)
          → o ≡ view G s latest_mirrored
          → Holds G (view G s) k
          → Returns (parse_reference G o) t
      unfolding parse_reference
      parse-Returns none k t p q = Post-pure none t tt
      parse-Returns (some b) none t p q = absurd (cc (p, q))
      parse-Returns (some b) (some c) t p q =
          Post-bind _ _ t
            (lift_known (L.cid_from_bytes b) c t (
              ap L.cid_from_bytes (some-injective b (L.cid_bytes c) (p ∙ q))
              ∙ L.cid_from_bytes-cid_bytes c))
            (λ d u _. Post-pure (some d) u tt) (λ _ _ x. x)

      previous-Returns : (t : M) → Kept G s t → Returns (get_latest_mirrored_ad_cid G) t
      unfolding get_latest_mirrored_ad_cid
      previous-Returns t k =
          Post-bind (on_ds G (D.get latest_mirrored)) (parse_reference G) t
            (Post-Returns _ t (get_lem G depth orig l ads s t k)
              ((S-get G depth W latest_mirrored).at t))
            (λ o u p. parse-Returns o l u p.0 h.0) (λ _ _ x. x)

      previous_known :
          (t : M) → Kept G s t → Post (get_latest_mirrored_ad_cid G) t (λ p _. p ≡ l) (λ _ _. ⊥)
      previous_known t k =
          Post-weaken _ t
            (Post-Returns _ t (previous_lem G depth orig l ads s h t k) (previous-Returns t k))
            (λ _ _ q. q.0) (λ _ _ x. x)

      mirror_loaded-Returns : (t : M) → Kept G s t → Returns (mirror_loaded G depth orig) t
      unfolding mirror_loaded
      mirror_loaded-Returns t k =
          Post-lift-bind (L.validate orig) _ t
            (λ _ _.
              Post-lift-bind (G.verify orig) _ t
                (λ _ _.
                  Post-bind (get_latest_mirrored_ad_cid G) _ t (previous_known t k)
                    (λ prev u p.
                      Post-bind (mirror_entries G depth orig.entries orig.is_rm) _ u
                        (entries_known G depth W orig.is_rm u)
                        (λ entries v q.
                          subst (λ x. Returns (mirror_with G depth orig x entries) v) (sym p)
                            (subst (λ x. Returns (mirror_with G depth orig l x) v) (sym q)
                              ((S-with G depth W).at v)))
                        (λ _ _ x. x))
                    (λ _ _ x. x))
                (λ x q. absurd (cc (q, W.verified.1))))
            (λ x q. absurd (cc (q, W.valid)))

      module _ (c : Cid) (x : ℕ) (bs : Bytes) (at : view G s (block c) ≡ some (x ∷ bs))
          (ne : c ≢ L.no_entries) where
        open-Returns :
            (ls : Cid → Exec M Bytes) (d : Dec (c ≡ L.no_entries))
            → Returns (open_unless G ls c d) s
        unfolding open_unless read_block
        open-Returns ls (yes p) = absurd (ne p)
        open-Returns ls (no _) =
            Post-bind (on_ds G (D.get (block c))) (read_block G ls c) s
              (Post-Returns _ s (get_block G depth orig l ads s c x bs at ne)
                ((S-get G depth W (block c)).at s))
              (λ o t p. rw (p.0) (Post-pure (x ∷ bs) t tt)) (λ _ _ x. x)

        read-Returns : (n : ℕ) → Returns (read G (suc n) c) s
        unfolding read storage_read_opener
        read-Returns n = open-Returns (read G n) (L.cid_discrete c L.no_entries)

        load-Returns :
            L.encode orig ≡ ok (c, x ∷ bs)
            → (n : ℕ) → depth ≡ suc n
            → Returns (load_ad G (read G depth) c) s
        unfolding load_ad
        load-Returns is n enough =
            Post-bind (read G depth c) (λ b. lift (L.decode b)) s
              (Post-Returns (read G depth c) s
                (subst
                  (λ d.
                    Post (read G d c) s (Reads G depth orig l ads s c x bs at ne)
                      (λ _ u. Kept G s u))
                  (sym enough) (read_lem G depth orig l ads s c x bs at ne n))
                (subst (λ d. Returns (read G d c) s) (sym enough) (read-Returns n)))
              (λ b t p.
                Post-weaken _ t
                  (lift_known (L.decode b) orig t
                    (ap L.decode p.0 ∙ L.decode-encode orig c (x ∷ bs) is))
                  (λ _ _ _. tt) (λ _ _ x. x))
              (λ _ _ x. x)

        mirror-Returns :
            L.encode orig ≡ ok (c, x ∷ bs) → (n : ℕ) → depth ≡ suc n → Returns (mirror G depth c) s
        unfolding mirror
        mirror-Returns is n enough =
            Post-bind (load_ad G (read G depth) c) (mirror_loaded G depth) s
              (Post-Returns _ s (load_ad_lem G depth orig l ads s c x bs at ne is n enough)
                (load-Returns is n enough))
              (λ a t p.
                subst (λ y. Returns (mirror_loaded G depth y) t) (sym p.0)
                  (mirror_loaded-Returns t p.1))
              (λ _ _ x. x)

  -- Where nothing that it depends on fails, the source has an address, and entries are not chunked anew,
  -- mirroring an advertisement
  -- whose block is in the datastore, other than that of "no entries", succeeds, with at least one read: it
  -- puts a copy in front of the chain, sets the root of the publisher to it and announces it.
  pub mirror-succeeds :
      (orig : Ad) (l : Option Cid) (ads : List Ad) (s : M) (c : Cid) (x : ℕ) (bs : Bytes) (n : ℕ)
      → depth ≡ suc n
      → IsMirror G depth l ads s
      → L.encode orig ≡ ok (c, x ∷ bs)
      → view G s (block c) ≡ some (x ∷ bs)
      → c ≢ L.no_entries
      → Works G depth orig l
      → Post (mirror G depth c) s (λ _ t. Copied G depth orig l ads s t) (λ _ _. ⊥)
  mirror-succeeds orig l ads s c x bs n enough h is at ne W =
      Post-Returns (mirror G depth c) s
        (mirror-Copied G depth orig l ads s c x bs n enough h is at ne)
        (mirror-Returns W ads s h c x bs at ne is n enough)
