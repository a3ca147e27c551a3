-- ===== src/Engine/LinkSystem/Serving.antt =====
-- An advertisement that was published is served by the link system.
use index_provider.Prelude.{◌≡◌, ◌≢◌, refl, sym, ◌∙◌, true, Option, some, List, [], ◌∷◌}
use mathlib.Core.Path.{subst}
use index_provider.Exec.{ok, ok-injective, pure}
use index_provider.Exec.Post.{
  Post, Post-pure, Post-bind, Post-weaken, Post-zoom, Post-both, Post-lift-bind, Post-recover,
}
use index_provider.Schema.{Bytes, Advertisement}
use index_provider.Engine.{Setup, Engine, on_ds, with_ds, publish_local}
use index_provider.Engine.Keys.{Key, block}
use index_provider.Engine.Frame.{view}
use index_provider.Engine.Reads.{Unchanged, same}
use index_provider.Engine.Chain.{IsChain}
use index_provider.Engine.Append.{publish_local_lem}
use index_provider.Engine.LinkSystem.{
  Readers, if_advertisement, read_block, open_unless, storage_read_opener, Hook, report, hooked,
  read_opener,
}

module _ (G : Setup) (K : Readers G) where
  open G use {libraries as L, store as D}
  open G.libraries use {Cid}

  -- Reading from a store that does not fail.
  pub get_reliable :
      (k : Key Cid) (e : Engine G)
      → D.Reliable
      → Post (on_ds G (D.get k)) e (λ o t. (o ≡ view G e k) × Unchanged G e t) (λ _ _. ⊥)
  unfolding on_ds
  get_reliable k e r =
      Post-zoom (λ x. x.ds) (with_ds G) (D.get k) e
        (Post-both _ _ _ _ (D.get k) e.ds (D.get_lem k e.ds) (D.get_reliable k e.ds r))
        (λ o d p. (p.0.0, same G e d p.0.1)) (λ x d p. p.1)

  module _ (a : Advertisement Cid) (c : Cid) where
    -- The block is that of the advertisement.
    abbrev Serves : Engine G → Bytes → Engine G → Type 0
    Serves e b t = (L.decode b ≡ ok a) × Unchanged G e t

    block_read :
        (b : Bytes) (e t : Engine G)
        → L.encode a ≡ ok (c, b)
        → Unchanged G e t
        → Post (read_block G K c (some b)) t (Serves e) (λ _ _. ⊥)
    unfolding read_block if_advertisement
    block_read [] e t is u = absurd (K.has_signature-empty true (K.has_signature-encode a c [] is))
    block_read (x ∷ b) e t is u =
        Post-lift-bind (K.has_signature (x ∷ b)) (if_advertisement G K c (x ∷ b)) t
          (λ ad h.
            rw (← ok-injective _ _ (sym (K.has_signature-encode a c (x ∷ b) is) ∙ h))
              (Post-pure (x ∷ b) t (L.decode-encode a c (x ∷ b) is, u)))
          (λ x h. absurd (cc (sym (K.has_signature-encode a c _ is) ∙ h)))

    opened :
        (b : Bytes) (e : Engine G)
        → D.Reliable
        → c ≢ L.no_entries
        → L.encode a ≡ ok (c, b)
        → view G e (block c) ≡ some b
        → (d : Dec (c ≡ L.no_entries)) → Post (open_unless G K c d) e (Serves e) (λ _ _. ⊥)
    unfolding open_unless
    opened b e r ne is at (yes p) = absurd (ne p)
    opened b e r ne is at (no p) =
        Post-bind (on_ds G (D.get (block c))) (read_block G K c) e (get_reliable (block c) e r)
          (λ o t h.
            subst (λ x. Post (read_block G K c x) t (Serves e) (λ _ _. ⊥)) (sym (h.0 ∙ at))
              (block_read b e t is h.1))
          (λ _ _ f. f)

    -- The reader is of the advertisement's block.
    abbrev Opens : Engine G → Option Bytes → Engine G → Type 0
    Opens e o t = (b : Bytes) × (o ≡ some b) × (L.decode b ≡ ok a) × Unchanged G e t

    hook_opened :
        (h : Option (Hook G K)) (e : Engine G)
        → Post (storage_read_opener G K c) e (Serves e) (λ _ _. ⊥)
        → Post (hooked G K h c) e (Opens e) (λ _ _. ⊥)
    unfolding hooked
    hook_opened h e p =
        Post-recover (storage_read_opener G K c) (λ b. pure (some b)) (report G K h c) e p
          (λ b t q. Post-pure (some b) t (b, refl, q.0, q.1)) (λ _ _ f. absurd f)

    -- If the block of an advertisement is in a store that does not fail, the link system serves it.
    pub read_opener-block :
        (b : Bytes) (e : Engine G)
        → D.Reliable
        → c ≢ L.no_entries
        → L.encode a ≡ ok (c, b)
        → view G e (block c) ≡ some b
        → Post (read_opener G K c) e (Opens e) (λ _ _. ⊥)
    unfolding read_opener storage_read_opener
    read_opener-block b e r ne is at =
        hook_opened K.error_hook e (opened b e r ne is at (L.cid_discrete c L.no_entries))

  -- If `PublishLocal` puts an advertisement in front of a chain, and its link is not that of "no
  -- entries", then with a store that does not fail the link system's read opener succeeds at the link
  -- that is returned, with bytes that decode to the advertisement, and changes nothing.
  pub publish_local-read_opener :
      (l : Option Cid) (ads : List (Advertisement Cid)) (a : Advertisement Cid) (e : Engine G)
      → D.Reliable
      → ((c : Cid) (b : Bytes) → L.encode a ≡ ok (c, b) → c ≢ L.no_entries)
      → a.previous_id ≡ l
      → IsChain G (view G e) l ads
      → Post
          (publish_local G a)
          e
          (λ c t.
            Post
              (read_opener G K c)
              t
              (λ o u. (b : Bytes) × (o ≡ some b) × (L.decode b ≡ ok a) × Unchanged G t u)
              (λ _ _. ⊥))
          (λ _ _. Unit {0})
  publish_local-read_opener l ads a e r ne prev h =
      Post-weaken (publish_local G a) e (publish_local_lem G l ads a e prev h)
        (λ c t p. let (b, at, is) = p.0.1.0 in read_opener-block a c b t r (ne c b is) is at)
        (λ _ _ _. tt)
