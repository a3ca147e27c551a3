-- ===== src/Mirror/Copying/Evicted.antt =====
-- Entries that were chunked anew, once the cache of the chunker has evicted them.
use mathlib.Core.Path.{subst}
use index_provider.Prelude.{
  ℕ, zero, suc, ◌≡◌, ◌≢◌, refl, sym, ap, ◌∙◌, Bool, true, false, Option, none, some,
}
use index_provider.Exec.{panic, not_found, ok, Exec, pure, ◌>>=◌}
use index_provider.Exec.Post.{Outcome, Post, Post-pure, Post-raise, Post-bind, Post-zoom}
use index_provider.Datastore.{update}
use index_provider.Schema.{Bytes}
use index_provider.Mirror.{Setup, Mirror, on_ds, on_chunker, with_ds, with_chunker, view}
use index_provider.Mirror.Keys.{Key, key_discrete, block, mirrored_entries_link}
use index_provider.Mirror.Reading.{
  set_mirrored_entries_link, parse_link, get_original_entries_link_from_mirror, load_entries, fill,
  read_cached, read_remapped, read_block, open_unless, storage_read_opener, read,
}
use index_provider.Mirror.Copying.{rechunk}
use index_provider.Mirror.Copying.Quiet.{
  Quiet, Quiet-trans, same_held, same_store, chunker-Quiet, read-Quiet, load_entries-Quiet,
}
use index_provider.Mirror.Copying.Steps.{update_ne}

module _ (G : Setup) where
  open G use {libraries as L, store as D, config}
  open G.libraries use {Cid}

  abbrev M : Type 0
  M = Mirror G

  module _ (c : Cid) (s : M) where
    -- Neither a block nor a mapping.
    abbrev Lost : Type 0
    Lost = (view G s (block c) ≡ none) × (view G s (mirrored_entries_link c) ≡ none)

    abbrev pub Evicted : Type 0
    Evicted = (u : G.Chunks) → u ≡ s.chunker → G.raw c u ≡ (ok none, u)

    abbrev Fails : {A : Type 0} → Exec M A → M → Type 0
    Fails m t = Post m t (λ _ _. ⊥) (λ _ _. Unit {0})

    link_lem : (o : Option Bytes) (t : M) → o ≡ none → Fails (parse_link G o) t
    unfolding parse_link
    link_lem none t p = Post-raise not_found t tt
    link_lem (some b) t p = absurd (cc (p))

    get_lem :
        (k : Key Cid) (t : M)
        → view G t k ≡ none
        → Post (on_ds G (D.get k)) t (λ o u. (o ≡ none) × Quiet G t u) (λ _ _. Unit {0})
    unfolding on_ds
    get_lem k t p =
        Post-zoom (λ x. x.ds) (with_ds G) (D.get k) t (D.get_lem k t.ds)
          (λ o d q. (q.0 ∙ p, same_held G t d q.1)) (λ _ _ _. tt)

    original_lem :
        (t : M)
        → view G t (mirrored_entries_link c) ≡ none
        → Fails (get_original_entries_link_from_mirror G c) t
    unfolding get_original_entries_link_from_mirror
    original_lem t p =
        Post-bind (on_ds G (D.get (mirrored_entries_link c))) (parse_link G) t
          (get_lem (mirrored_entries_link c) t p) (λ o u q. link_lem o u q.0) (λ _ _ _. tt)

    raw_lem :
        (t : M)
        → Evicted
        → t.chunker ≡ s.chunker
        → Post (on_chunker G (G.raw c)) t (λ o u. (o ≡ none) × Quiet G t u) (λ _ _. Unit {0})
    unfolding on_chunker
    raw_lem t e p =
        Post-zoom (λ x. x.chunker) (with_chunker G) {P = λ o _. o ≡ none} {F = λ _ _. ⊥} (G.raw c) t
          (record { at = rw (e t.chunker p) refl }) (λ o v q. (q, same_store G t v)) (λ _ _ _. tt)

    module _ (ls : Cid → Exec M Bytes) where
      fill_lem :
          (o : Option Bytes) (t : M)
          → o ≡ none
          → view G t (mirrored_entries_link c) ≡ none
          → Fails (fill G ls c o) t
      unfolding fill
      fill_lem none t p q =
          Post-bind (get_original_entries_link_from_mirror G c) _ t (original_lem t q)
            (λ _ _ f. absurd f) (λ _ _ _. tt)
      fill_lem (some b) t p q = absurd (cc (p))

      remapped_lem :
          (b : Bool) (t : M)
          → Evicted
          → t.chunker ≡ s.chunker
          → view G t (mirrored_entries_link c) ≡ none
          → Fails (read_remapped G ls c b) t
      unfolding read_remapped
      remapped_lem false t e p q = Post-raise not_found t tt
      remapped_lem true t e p q =
          Post-bind (on_chunker G (G.raw c)) (λ o. fill G ls c o >>= λ _. read_cached G ls c) t
            (raw_lem t e p)
            (λ o u r.
              Post-bind (fill G ls c o) (λ _. read_cached G ls c) u
                (fill_lem o u r.0 (ap (λ v. v (mirrored_entries_link c)) r.1.held ∙ q))
                (λ _ _ f. absurd f) (λ _ _ _. tt))
            (λ _ _ _. tt)

      get_block :
          Lost
          → Post
              (on_ds G (D.get (block c)))
              s
              (λ o u.
                (o ≡ none) × (view G u (mirrored_entries_link c) ≡ none) × (u.chunker ≡ s.chunker))
              (λ _ _. Unit {0})
      unfolding on_ds
      get_block h =
          Post-zoom (λ x. x.ds) (with_ds G) (D.get (block c)) s (D.get_lem (block c) s.ds)
            (λ o d q. (q.0 ∙ h.0, ap (λ v. v (mirrored_entries_link c)) q.1 ∙ h.1, refl))
            (λ _ _ _. tt)

      open_lem : Lost → Evicted → (d : Dec (c ≡ L.no_entries)) → Fails (open_unless G ls c d) s
      unfolding open_unless read_block
      open_lem h e (yes _) = Post-raise _ s tt
      open_lem h e (no _) =
          Post-bind (on_ds G (D.get (block c))) (read_block G ls c) s (get_block h)
            (λ o t p.
              subst (λ x. Fails (read_block G ls c x) t) (sym p.0)
                (remapped_lem config.remap_entries_enabled t e p.2 p.1))
            (λ _ _ _. tt)

    read-Fails : Lost → Evicted → (n : ℕ) → Fails (read G n c) s
    unfolding read storage_read_opener
    read-Fails h e zero = Post-raise _ s tt
    read-Fails h e (suc n) = open_lem (read G n) h e (L.cid_discrete c L.no_entries)

  module _ (depth : ℕ) (orig : Cid) (s : M) where
    -- The datastore has a mapping more, under the link of the original entries.
    abbrev Mapped : M → Type 0
    Mapped t =
        (b : Bytes) × (view G t
          ≡ update (key_discrete L.cid_discrete) (view G s) (mirrored_entries_link orig) (some b))

    store_lem :
        (o : Option Cid) (t : M)
        → Quiet G s t
        → Post (set_mirrored_entries_link G o orig) t (λ _ u. Mapped u) (λ _ _. Unit {0})
    unfolding set_mirrored_entries_link on_ds
    store_lem none t q = Post-raise panic t tt
    store_lem (some c) t q =
        Post-zoom (λ x. x.ds) (with_ds G) (D.put (mirrored_entries_link orig) (L.cid_bytes c)) t
          (D.put_lem (mirrored_entries_link orig) (L.cid_bytes c) t.ds)
          (λ _ d p. (
            L.cid_bytes c,
            p
                ∙ ap
                    (λ v.
                      update (key_discrete L.cid_discrete) v (mirrored_entries_link orig)
                        (some (L.cid_bytes c)))
                    q.held,
          ))
          (λ _ _ _. tt)

    rechunk_lem : Post (rechunk G depth orig) s (λ _ t. Mapped t) (λ _ _. Unit {0})
    unfolding rechunk
    rechunk_lem =
        Post-bind (load_entries G (read G depth) orig) _ s
          ((load_entries-Quiet G (read G depth) (read-Quiet G depth) orig).at s)
          (λ it t q.
            Post-bind (on_chunker G (G.chunk it)) _ t ((chunker-Quiet G (G.chunk it)).at t)
              (λ o u r.
                Post-bind (set_mirrored_entries_link G o orig)
                  (λ _. pure (elim o [ none ↦ orig | some c ↦ c ])) u
                  (store_lem o u (Quiet-trans G s t u q r)) (λ _ v p. Post-pure _ v p)
                  (λ _ _ _. tt))
              (λ _ _ _. tt))
          (λ _ _ _. tt)

    still_lost : (c : Cid) (t : M) → c ≢ orig → Lost c s → Mapped t → Lost c t
    still_lost c t ne h (b, p) = (
      ap (λ v. v (block c)) p
          ∙ update_ne G (view G s) (mirrored_entries_link orig) (block c) (some b) (λ e. cc)
          ∙ h.0,
      ap (λ v. v (mirrored_entries_link c)) p
          ∙ update_ne G (view G s) (mirrored_entries_link orig) (mirrored_entries_link c) (some b)
              (λ e. ne (cc (e)))
          ∙ h.1,
    )

    -- If entries were chunked anew, their link is another than that of the original entries and had no
    -- block and no mapping before, and the cache of the chunker, by then in the state `u`, does not
    -- have the link any more, then opening the link fails, however deep the reads may go. The mapping
    -- was stored under the link of the original entries, and is looked up under the other one.
    pub rechunk-evicted :
        (c : Cid) (t : M) (u : G.Chunks) (n : ℕ)
        → rechunk G depth orig s ≡ (ok c, t)
        → c ≢ orig
        → view G s (block c) ≡ none
        → view G s (mirrored_entries_link c) ≡ none
        → G.raw c u ≡ (ok none, u)
        → Post (read G n c) (with_chunker G t u) (λ _ _. ⊥) (λ _ _. Unit {0})
    rechunk-evicted c t u n run ne nb nm gone =
        read-Fails c (with_chunker G t u)
          (still_lost c t ne (nb, nm)
            (subst (λ r. Outcome r (λ _ t. Mapped t) (λ _ _. Unit {0})) run rechunk_lem.at))
          (λ v p. subst (λ v. G.raw c v ≡ (ok none, v)) (sym p) gone) n
