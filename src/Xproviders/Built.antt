-- ===== src/Xproviders/Built.antt =====
-- What `BuildAndSign` builds, and when.
use index_provider.Prelude.{
  ◌≡◌, ◌≢◌, ◌⊎◌, All, All-append, refl, sym, ap, ◌∙◌, inl, inr, Bool, true, false, some, List, [],
  ◌∷◌, ◌++◌, map, lookup,
}
use mathlib.Core.Path.{subst}
use index_provider.Exec.{Result, ok, and_then}
use index_provider.Schema.{Bytes, Advertisement, ExtendedProvider, Provider}
use index_provider.Engine.Keys.{bytes_discrete}
use index_provider.Xproviders.{
  Signing, Info, Builder, provider_of, main_of, check_context, with_main, list_providers, key_of,
  key_for, unsigned, sign_built, build_checked, build_and_sign,
}
use index_provider.Xproviders.Keys.{
  AllValid, Listed, all_entries, collect_lem, find-Listed, find-absent, Listed-cases,
}

module _ (S : Signing) (b : Builder S) where
  open S use {libraries as L, PrivKey}
  open S.libraries use {Cid}

  -- The extended providers in their order, and the main provider behind them if it is not one of them;
  -- nothing if there are none.
  pub data Complete : List (Info PrivKey) → List Provider → Type 0 where
    no_others : Complete [] []
    already :
        (i : Info PrivKey) (infos : List (Info PrivKey))
        → Listed S b.provider_id (i ∷ infos)
        → Complete (i ∷ infos) (map (provider_of S) (i ∷ infos))
    appended :
        (i : Info PrivKey) (infos : List (Info PrivKey))
        → ¬ Listed S b.provider_id (i ∷ infos)
        → Complete (i ∷ infos) (map (provider_of S) (i ∷ infos) ++ (main_of S b ∷ []))

  -- An override is for a context ID that is not empty.
  abbrev pub Allowed : Type 0
  Allowed = b.override ≡ true → b.context_id ≢ []

  -- Every extended provider has a key.
  abbrev HasKeys : (Bytes → Result PrivKey) → Type 0
  HasKeys keys = (id : Bytes) → Listed S id b.providers → (k : PrivKey) × (keys id ≡ ok k)

  -- A provider on the list of an advertisement is the advertisement's own one, or has a key.
  abbrev pub AllKeys : Bytes → (Bytes → Result PrivKey) → List Provider → Type 0
  AllKeys main keys = All (λ p. (p.id ≡ main) ⊎ ((k : PrivKey) × (keys p.id ≡ ok k)))

  abbrev pub HasMain : Bytes → List Provider → Type 0
  HasMain main [] = ⊥
  HasMain main (p ∷ ps) = (p.id ≡ main) ⊎ HasMain main ps

  abbrev pub ListsMain : Bytes → List Provider → Type 0
  ListsMain main [] = Unit {0}
  ListsMain main (p ∷ ps) = HasMain main (p ∷ ps)

  -- What `SignWithExtendedProviders` demands: no removal, a list of extended providers, with keys for
  -- all but the advertisement's own provider, and, if it is not empty, that provider on it.
  pub record Signable (a : Advertisement Cid) (keys : Bytes → Result PrivKey) : Type 0 where
    pub kept : a.is_rm ≡ false
    pub extended : ExtendedProvider
    pub is_extended : a.extended_provider ≡ some extended
    pub all_keys : AllKeys a.provider keys extended.providers
    pub lists_main : ListsMain a.provider extended.providers

  pub record Built (a : Advertisement Cid) : Type 0 where
    pub allowed : Allowed
    pub valid : AllValid S b.providers
    pub listed : List Provider
    pub complete : Complete b.providers listed
    pub signature : Bytes
    pub is : a ≡ record (unsigned S b listed) { signature = some signature }

  with_main-Complete :
      (i : Info PrivKey) (infos : List (Info PrivKey))
      → Complete (i ∷ infos) (
          with_main S b
            (lookup bytes_discrete b.provider_id (all_entries S (i ∷ infos) []))
            (map (provider_of S) (i ∷ infos)))
  unfolding with_main lookup
  with_main-Complete i infos = elim (Listed-cases S b.provider_id (i ∷ infos)) [
    | inl h ↦
        let found = find-Listed S b.provider_id (i ∷ infos) [] (inl h) in
        subst (λ o. Complete (i ∷ infos) (with_main S b o (map (provider_of S) (i ∷ infos))))
          (sym found.1) (already i infos h)
    | inr h ↦
        subst (λ o. Complete (i ∷ infos) (with_main S b o (map (provider_of S) (i ∷ infos))))
          (sym (find-absent S b.provider_id (i ∷ infos) [] h refl)) (appended i infos h)
  ]

  -- What the loop leaves, for valid extended providers.
  list_providers_lem :
      (infos : List (Info PrivKey))
      → AllValid S infos
      → (ps : List Provider) × (list_providers S b infos ≡ ok (ps, all_entries S infos []))
        × Complete infos ps
  unfolding list_providers
  list_providers_lem [] v = ([], refl, no_others)
  list_providers_lem (i ∷ infos) v = (
    with_main S b (lookup bytes_discrete b.provider_id (all_entries S (i ∷ infos) []))
        (map (provider_of S) (i ∷ infos)),
    ap
        (λ r.
          and_then r (λ r. ok (with_main S b (lookup bytes_discrete b.provider_id r.1) r.0, r.1)))
        (collect_lem S (i ∷ infos) [] [] v),
    with_main-Complete i infos,
  )

  Allowed-check : (ctx : Bytes) (o : Bool) → (o ≡ true → ctx ≢ []) → check_context S ctx o ≡ ok tt
  unfolding check_context
  Allowed-check [] true h = absurd (h refl refl)
  Allowed-check [] false h = refl
  Allowed-check (x ∷ ctx) o h = refl

  keys-Listed :
      (keys : Bytes → Result PrivKey) (main : Bytes) (infos : List (Info PrivKey))
      → ((id : Bytes) → Listed S id infos → (k : PrivKey) × (keys id ≡ ok k))
      → AllKeys main keys (map (provider_of S) infos)
  keys-Listed keys main [] h = tt
  keys-Listed keys main (i ∷ infos) h =
      (inr (h i.id (inl refl)), keys-Listed keys main infos (λ id l. h id (inr l)))

  main-Listed :
      (main : Bytes) (infos : List (Info PrivKey))
      → Listed S main infos
      → HasMain main (map (provider_of S) infos)
  main-Listed main [] h = absurd h
  main-Listed main (i ∷ infos) (inl p) = inl p
  main-Listed main (i ∷ infos) (inr h) = inr (main-Listed main infos h)

  main_last : (p : Provider) (ps : List Provider) → HasMain p.id (ps ++ (p ∷ []))
  main_last p [] = inl refl
  main_last p (q ∷ ps) = inr (main_last p ps)

  Complete-Signable :
      (keys : Bytes → Result PrivKey) (infos : List (Info PrivKey)) (ps : List Provider)
      → Complete infos ps
      → ((id : Bytes) → Listed S id infos → (k : PrivKey) × (keys id ≡ ok k))
      → AllKeys b.provider_id keys ps × ListsMain b.provider_id ps
  Complete-Signable keys _ _ no_others h = (tt, tt)
  Complete-Signable keys _ _ (already i infos l) h =
      (keys-Listed keys b.provider_id (i ∷ infos) h, main-Listed b.provider_id (i ∷ infos) l)
  Complete-Signable keys _ _ (appended i infos n) h = (
    All-append (λ p. (p.id ≡ b.provider_id) ⊎ ((k : PrivKey) × (keys p.id ≡ ok k)))
        (map (provider_of S) (i ∷ infos)) (main_of S b ∷ [])
        (keys-Listed keys b.provider_id (i ∷ infos) h) (inl refl, tt),
    inr (main_last (main_of S b) (map (provider_of S) infos)),
  )

  key_for-Listed : HasKeys (key_for S (all_entries S b.providers []))
  unfolding key_for key_of
  key_for-Listed id h =
      let found = find-Listed S id b.providers [] (inl h) in (found.0.priv, ap (key_of S) found.1)

  -- BuildAndSign succeeds if an override is for a context ID that is not empty, every extended provider
  -- has an address and a peer's ID, and signing with the builder's key succeeds at every advertisement
  -- that is no removal, names extended providers, each its own provider or one that it is given a key
  -- for, and has its own provider among them if there are any.
  pub build_and_sign-succeeds :
      Allowed
      → AllValid S b.providers
      → ((a : Advertisement Cid) (keys : Bytes → Result PrivKey)
          → Signable a keys
          → (s : Bytes) × (S.sign_with_extended_providers a b.priv_key keys ≡ ok s))
      → (a : Advertisement Cid) × (build_and_sign S b ≡ ok a)
  unfolding build_and_sign build_checked sign_built
  build_and_sign-succeeds allowed valid signs =
      let shape = list_providers_lem b.providers valid in
      let fits =
        Complete-Signable (key_for S (all_entries S b.providers [])) b.providers shape.0 shape.2
          key_for-Listed in
      let signature =
        signs (unsigned S b shape.0) (key_for S (all_entries S b.providers [])) (record {
          kept = refl;
          extended = record { providers = shape.0; override = b.override };
          is_extended = refl;
          all_keys = fits.0;
          lists_main = fits.1;
        }) in
      (
        record (unsigned S b shape.0) { signature = some signature.0 },
        ap (λ r. and_then r (λ _. build_checked S b))
              (Allowed-check b.context_id b.override allowed)
            ∙ ap (λ r. and_then r (sign_built S b)) shape.1
            ∙ ap (λ r. and_then r (λ s. ok (record (unsigned S b shape.0) { signature = some s })))
                signature.1,
      )
