-- ===== src/Engine/Refusals.antt =====
-- When `NotifyPut` and `NotifyRemove` refuse: with what error, and that nothing is written.
use index_provider.Prelude.{
  ◌≡◌, refl, sym, ap, ◌∙◌, true, false, Option, none, some, ◌⊎◌, inl, inr, List, if◌then◌else◌,
}
use mathlib.Core.Path.{subst}
use index_provider.Exec.{
  Error, not_found, context_id_not_found, already_advertised, text, ok, ok-injective, raise, pure,
}
use index_provider.Exec.Post.{Post, Post-raise, Post-lift, Post-bind}
use index_provider.Schema.{Bytes, PeerId}
use index_provider.Engine.{Setup, Engine, key_to_cid_key, key_to_metadata_key, get_key_metadata_map}
use index_provider.Engine.Frame.{view}
use index_provider.Engine.Reads.{
  Unchanged, Unchanged-refl, Unchanged-trans, known_cid_lem, ds_get_lem, or_absent_lem,
}
use index_provider.Engine.Publish.{
  put_entries, entries_for, known_entries, or_empty_metadata, remove_entries, publish_adv_for_index,
}

module _ (G : Setup) where
  open G use {libraries as L, config}
  open G.libraries use {Cid, Metadata}

  abbrev pub lookup_failed : Error
  lookup_failed = text "cound not not get entries cid by provider + context id"

  -- Removing a context ID that was never put, or has been removed, writes nothing and fails with
  -- `ErrContextIDNotFound`, unless the datastore cannot be read.
  pub remove-unknown :
      (p : PeerId) (addrs : List Bytes) (ctx : Bytes) (md : Metadata) (e : Engine G)
      → view G e (key_to_cid_key G p ctx) ≡ none
      → Post
          (publish_adv_for_index G p addrs ctx md true)
          e
          (λ _ _. ⊥)
          (λ x e'. ((x ≡ context_id_not_found) ⊎ (x ≡ lookup_failed)) × Unchanged G e e')
  unfolding publish_adv_for_index remove_entries
  remove-unknown p addrs ctx md e h =
      Post-bind _ _ e (known_cid_lem G p ctx none e h)
        (λ known t q.
          Post-bind _ _ t
            (subst
              (λ o.
                Post (remove_entries G p ctx o) t (λ _ _. ⊥)
                  (λ x u. (x ≡ context_id_not_found) × Unchanged G t u))
              (sym q.0) (Post-raise context_id_not_found t (refl, Unchanged-refl G t)))
            (λ _ _ r. absurd r) (λ x u r. (inl r.0, Unchanged-trans G q.1 r.1)))
        (λ x t q. (inr q.0, q.1))

  get_key_metadata_map_lem :
      (p : PeerId) (ctx : Bytes) (b : Bytes) (prev : Metadata) (e : Engine G)
      → view G e (key_to_metadata_key G p ctx) ≡ some b
      → L.unmarshal_metadata b ≡ ok prev
      → Post
          (get_key_metadata_map G p ctx)
          e
          (λ m e'. (m ≡ prev) × Unchanged G e e')
          (λ x e'. (x ≡ not_found → ⊥) × Unchanged G e e')
  unfolding get_key_metadata_map
  get_key_metadata_map_lem p ctx b prev e h r =
      Post-bind _ _ e (ds_get_lem G (key_to_metadata_key G p ctx) e)
        (λ b' t q.
          let same : L.unmarshal_metadata b' ≡ ok prev =
            ap (λ (o : Option Bytes). elim o [ none ↦ ok prev | some c ↦ L.unmarshal_metadata c ])
              (sym q.0 ∙ h)
            ∙ r in
          Post-lift (L.unmarshal_metadata b') t (λ m s. (ok-injective _ _ (sym s ∙ same), q.1))
            (λ x s. (λ n. absurd (cc), q.1)))
        (λ x t q. (λ n. absurd (cc (q.0 n)), q.1))

  abbrev pub metadata_failed : Error
  metadata_failed = text "could not get metadata for provider + context id"

  known_entries-equal :
      (p : PeerId) (ctx : Bytes) (md prev : Metadata) (b : Bytes) (c : Cid) (e : Engine G)
      → view G e (key_to_metadata_key G p ctx) ≡ some b
      → L.unmarshal_metadata b ≡ ok prev
      → L.metadata_equal md prev ≡ true
      → Post
          (known_entries G p ctx md c)
          e
          (λ _ _. ⊥)
          (λ x e'. ((x ≡ already_advertised) ⊎ (x ≡ metadata_failed)) × Unchanged G e e')
  unfolding known_entries or_empty_metadata
  known_entries-equal p ctx md prev b c e h r same =
      Post-bind _ _ e
        (or_absent_lem G {P = λ m. m ≡ prev} {N = ⊥}
          (λ _. text "could not get metadata for provider + context id") _ e
          (get_key_metadata_map_lem p ctx b prev e h r))
        (λ o t q. refuse o t q.0 q.1 q.2) (λ x t q. (inr q.0.1, q.1))
    where
      refuse :
          (o : Option Metadata) (t : Engine G)
          → ((a : Metadata) → o ≡ some a → a ≡ prev)
          → (o ≡ none → ⊥)
          → Unchanged G e t
          → Post
              (if L.metadata_equal md (or_empty_metadata G o)
                then raise already_advertised
                else pure c)
              t
              (λ _ _. ⊥)
              (λ x e'. ((x ≡ already_advertised) ⊎ (x ≡ metadata_failed)) × Unchanged G e e')
      refuse none t p n u = absurd (n refl)
      refuse (some a) t p n u = rw (p a refl, same) (Post-raise already_advertised t (inl refl, u))

  abbrev pub Refused : Engine G → Error → Engine G → Type 0
  Refused e x e' =
      ((x ≡ already_advertised) ⊎ (x ≡ lookup_failed) ⊎ (x ≡ metadata_failed)) × Unchanged G e e'

  put_entries-equal :
      (p : PeerId) (ctx : Bytes) (md prev : Metadata) (b : Bytes) (c : Cid) (e : Engine G)
      → view G e (key_to_metadata_key G p ctx) ≡ some b
      → L.unmarshal_metadata b ≡ ok prev
      → L.metadata_equal md prev ≡ true
      → Post (put_entries G p ctx md (some c)) e (λ _ _. ⊥) (Refused e)
  unfolding put_entries entries_for
  put_entries-equal p ctx md prev b c e h r same =
      Post-bind _ _ e (known_entries-equal p ctx md prev b c e h r same) (λ _ _ q. absurd q)
        (λ x t q. elim q.0 [ inl a ↦ (inl a, q.1) | inr m ↦ (inr (inr m), q.1) ])

  -- Putting a context ID again with metadata equal to what it was put with writes nothing and fails
  -- with `ErrAlreadyAdvertised`, unless the datastore cannot be read.
  pub put-again :
      (p : PeerId) (addrs : List Bytes) (ctx : Bytes) (md prev : Metadata) (b : Bytes) (c : Cid)
      (e : Engine G)
      → view G e (key_to_cid_key G p ctx) ≡ some (L.cid_bytes c)
      → view G e (key_to_metadata_key G p ctx) ≡ some b
      → L.unmarshal_metadata b ≡ ok prev
      → L.metadata_equal md prev ≡ true
      → Post (publish_adv_for_index G p addrs ctx md false) e (λ _ _. ⊥) (Refused e)
  unfolding publish_adv_for_index
  put-again p addrs ctx md prev b c e hc hm r same =
      Post-bind _ _ e (known_cid_lem G p ctx (some c) e hc)
        (λ known t q.
          Post-bind _ _ t
            (subst (λ o. Post (put_entries G p ctx md o) t (λ _ _. ⊥) (Refused t)) (sym q.0)
              (put_entries-equal p ctx md prev b c t
                (ap (λ v. v (key_to_metadata_key G p ctx)) q.1.held ∙ hm) r same))
            (λ _ _ r. absurd r) (λ x u r. (r.0, Unchanged-trans G q.1 r.1)))
        (λ x t q. (inr (inl q.0), q.1))
