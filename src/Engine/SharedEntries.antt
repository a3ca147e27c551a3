-- ===== src/Engine/SharedEntries.antt =====
-- The map from the identifier of entries to a provider and a context ID holds one pair. Two context
-- IDs with the same multihashes have the same entries, and share it.
use index_provider.Prelude.{◌≡◌, ◌≢◌, refl, ◌∙◌, ap, true, Option, none, some, List}
use index_provider.Exec.Post.{Post, Post-bind, Post-weaken}
use index_provider.Schema.{Bytes, PeerId}
use index_provider.Engine.{
  Setup, Engine, key_to_cid_key, key_to_metadata_key, get_cid_key_map, choose_pair, current_pair,
}
use index_provider.Engine.Keys.{cid_to_key, cid_to_provider_and_key}
use index_provider.Engine.Frame.{view}
use index_provider.Engine.Reads.{Unchanged, Unchanged-trans, ds_get_lem, or_absent_lem}
use index_provider.Engine.Publish.{publish_adv_for_index}
use index_provider.Engine.Removal.{remove-Forgets}

module _ (G : Setup) where
  open G use {libraries as L}
  open G.libraries use {Cid, Metadata}

  current_pair-missing :
      (c : Cid) (e : Engine G)
      → view G e (cid_to_provider_and_key c) ≡ none
      → Post (current_pair G c) e (λ _ _. ⊥) (λ _ t. Unchanged G e t)
  unfolding current_pair
  current_pair-missing c e h =
      Post-bind _ _ e (ds_get_lem G (cid_to_provider_and_key c) e) (λ b t q. absurd (cc (q.0)))
        (λ _ _ q. q.1)

  -- With neither mapping there the lookup always fails, and changes nothing.
  pub get_cid_key_map-missing :
      (c : Cid) (e : Engine G)
      → view G e (cid_to_key c) ≡ none
      → view G e (cid_to_provider_and_key c) ≡ none
      → Post (get_cid_key_map G c) e (λ _ _. ⊥) (λ _ t. Unchanged G e t)
  unfolding get_cid_key_map choose_pair
  get_cid_key_map-missing c e legacy current =
      Post-bind _ _ e
        (or_absent_lem G {P = λ b. view G e (cid_to_key c) ≡ some b} {N = Unit {0}} (λ x. x) _ e
          (Post-weaken _ e (ds_get_lem G (cid_to_key c) e) (λ _ _ q. q) (λ _ _ q. (λ _. tt, q.1))))
        (λ o t q. choose o t q.0 q.2) (λ _ _ q. q.1)
    where
      choose :
          (o : Option Bytes) (t : Engine G)
          → ((b : Bytes) → o ≡ some b → view G e (cid_to_key c) ≡ some b)
          → Unchanged G e t
          → Post (choose_pair G c o) t (λ _ _. ⊥) (λ _ u. Unchanged G e u)
      choose none t p u =
          Post-weaken _ t
            (current_pair-missing c t (ap (λ v. v (cid_to_provider_and_key c)) u.held ∙ current))
            (λ _ _ q. q) (λ _ _ q. Unchanged-trans G u q)
      choose (some b) t p u = absurd (cc (p b refl))

  -- Removing one of two context IDs that have the same entries takes the mapping that serves the
  -- other: the other is still published with these entries, but the provider and context ID that
  -- they would be generated again from can no longer be looked up.
  pub remove-orphans :
      (p : PeerId) (addrs : List Bytes) (ctx : Bytes) (md : Metadata) (p' : PeerId) (ctx' : Bytes)
      (c : Cid) (e : Engine G)
      → view G e (key_to_cid_key G p ctx) ≡ some (L.cid_bytes c)
      → view G e (key_to_cid_key G p' ctx') ≡ some (L.cid_bytes c)
      → key_to_cid_key G p' ctx' ≢ key_to_cid_key G p ctx
      → Post
          (publish_adv_for_index G p addrs ctx md true)
          e
          (λ _ t.
            (view G t (key_to_cid_key G p' ctx') ≡ some (L.cid_bytes c))
            × Post (get_cid_key_map G c) t (λ _ _. ⊥) (λ _ u. Unchanged G t u))
          (λ _ _. Unit)
  unfolding key_to_cid_key key_to_metadata_key
  remove-orphans p addrs ctx md p' ctx' c e h h' ne =
      Post-weaken _ e (remove-Forgets G p addrs ctx md c e h)
        (λ _ t f. (
          f.others (key_to_cid_key G p' ctx') tt ne (λ q. absurd (cc)) (λ q. absurd (cc))
                (λ q. absurd (cc))
              ∙ h',
          get_cid_key_map-missing c t f.no_legacy f.no_pair,
        ))
        (λ _ _ _. tt)
