-- ===== src/Xproviders/Keys.antt =====
-- The loop over the extended providers.
use index_provider.Prelude.{
  ◌≡◌, ◌≢◌, refl, sym, ap, ◌∙◌, ◌⊎◌, inl, inr, Option, none, some, List, [], ◌∷◌, ◌++◌, map, lookup,
  if_pos, if_neg,
}
use index_provider.Exec.{Result, ok, err, and_then, and_then-ok}
use index_provider.Schema.{Bytes, PeerId, Provider}
use index_provider.Engine.Keys.{bytes_discrete}
use index_provider.Xproviders.{Signing, Info, EpMap, provider_of, check_id, check_info, collect}

module _ (S : Signing) where
  open S use {PrivKey}

  abbrev Infos : Type 0
  Infos = List (Info PrivKey)

  -- The extended provider has an address, and its ID is that of a peer.
  pub record Valid (i : Info PrivKey) : Type 0 where
    pub some_address : i.addrs ≢ []
    pub peer : (p : PeerId) × (S.peer_decode i.id ≡ ok p)

  abbrev pub AllValid : Infos → Type 0
  AllValid [] = Unit {0}
  AllValid (i ∷ infos) = Valid i × AllValid infos

  -- The ID is that of one of them.
  abbrev pub Listed : Bytes → Infos → Type 0
  Listed id [] = ⊥
  Listed id (i ∷ infos) = (i.id ≡ id) ⊎ Listed id infos

  abbrev find : Bytes → EpMap S → Option (Info PrivKey)
  find = lookup bytes_discrete

  check-Valid :
      (id : Bytes) (addrs : List Bytes)
      → check_info S id addrs ≡ ok tt
      → (addrs ≢ []) × ((p : PeerId) × (S.peer_decode id ≡ ok p))
  unfolding check_info
  check-Valid id [] h = absurd (cc (h))
  check-Valid id (a ∷ addrs) h = (λ p. cc (p), decoded (S.peer_decode id) h)
    where
      decoded : (r : Result PeerId) → check_id S r ≡ ok tt → (p : PeerId) × (r ≡ ok p)
      decoded (ok p) q = (p, refl)
      decoded (err e) q = absurd (cc (q))

  Valid-check : (i : Info PrivKey) → Valid i → check_info S i.id i.addrs ≡ ok tt
  unfolding check_info check_id
  Valid-check i v = of i.addrs v.some_address
    where
      of : (addrs : List Bytes) → addrs ≢ [] → check_info S i.id addrs ≡ ok tt
      of [] ne = absurd (ne refl)
      of (a ∷ addrs) ne = ap (check_id S) v.peer.1

  abbrev pub all_entries : Infos → EpMap S → EpMap S
  all_entries [] m = m
  all_entries (i ∷ infos) m = all_entries infos ((i.id, i) ∷ m)

  append_nil : {A : Type 0} (xs : List A) → xs ++ [] ≡ xs
  append_nil [] = refl
  append_nil (x ∷ xs) = ap (λ l. x ∷ l) (append_nil xs)

  append_assoc :
      {A : Type 0} (xs : List A) (y : A) (zs : List A) → (xs ++ (y ∷ [])) ++ zs ≡ xs ++ (y ∷ zs)
  append_assoc [] y zs = refl
  append_assoc (x ∷ xs) y zs = ap (λ l. x ∷ l) (append_assoc xs y zs)

  -- The loop over valid extended providers lists them in their order, and enters every one of them.
  pub collect_lem :
      (infos : Infos) (ps : List Provider) (m : EpMap S)
      → AllValid infos
      → collect S infos ps m ≡ ok (ps ++ map (provider_of S) infos, all_entries infos m)
  unfolding collect
  collect_lem [] ps m v = ap (λ l. ok (l, m)) (sym (append_nil ps))
  collect_lem (i ∷ infos) ps m v =
      ap (λ r. and_then r (λ _. collect S infos (ps ++ (provider_of S i ∷ [])) ((i.id, i) ∷ m)))
        (Valid-check i v.0)
      ∙ collect_lem infos (ps ++ (provider_of S i ∷ [])) ((i.id, i) ∷ m) v.1
      ∙ ap (λ l. ok (l, all_entries infos ((i.id, i) ∷ m)))
          (append_assoc ps (provider_of S i) (map (provider_of S) infos))

  -- It succeeds only if all are valid.
  pub collect-AllValid :
      (infos : Infos) (ps : List Provider) (m : EpMap S) (r : List Provider × EpMap S)
      → collect S infos ps m ≡ ok r
      → AllValid infos
  unfolding collect
  collect-AllValid [] ps m r h = tt
  collect-AllValid (i ∷ infos) ps m r h =
      let checked =
        and_then-ok (check_info S i.id i.addrs)
          (λ _. collect S infos (ps ++ (provider_of S i ∷ [])) ((i.id, i) ∷ m)) r h in
      let right = check-Valid i.id i.addrs (unit_ok checked.0 checked.1) in
      (
        record { some_address = right.0; peer = right.1 },
        collect-AllValid infos (ps ++ (provider_of S i ∷ [])) ((i.id, i) ∷ m) r checked.2,
      )
    where
      unit_ok :
          (u : Unit {0}) → check_info S i.id i.addrs ≡ ok u → check_info S i.id i.addrs ≡ ok tt
      unit_ok u q = q

  abbrev pub Found : Bytes → EpMap S → Type 0
  Found id m = (j : Info PrivKey) × (find id m ≡ some j)

  Found-front :
      (id : Bytes) (i : Info PrivKey) (m : EpMap S)
      → (i.id ≡ id) ⊎ Found id m
      → Found id ((i.id, i) ∷ m)
  unfolding lookup
  Found-front id i m h = elim (bytes_discrete i.id id) [
    | yes p ↦ (i, if_pos (bytes_discrete i.id id) p (some i) (find id m))
    | no p ↦ elim h [
      | inl q ↦ absurd (p q)
      | inr q ↦ (q.0, if_neg (bytes_discrete i.id id) p (some i) (find id m) ∙ q.1)
    ]
  ]

  pub find-Listed :
      (id : Bytes) (infos : Infos) (m : EpMap S)
      → Listed id infos ⊎ Found id m
      → (j : Info PrivKey) × (find id (all_entries infos m) ≡ some j)
  find-Listed id [] m (inl h) = absurd h
  find-Listed id [] m (inr h) = h
  find-Listed id (i ∷ infos) m (inl (inl h)) =
      find-Listed id infos ((i.id, i) ∷ m) (inr (Found-front id i m (inl h)))
  find-Listed id (i ∷ infos) m (inl (inr h)) = find-Listed id infos ((i.id, i) ∷ m) (inl h)
  find-Listed id (i ∷ infos) m (inr h) =
      find-Listed id infos ((i.id, i) ∷ m) (inr (Found-front id i m (inr h)))

  pub find-absent :
      (id : Bytes) (infos : Infos) (m : EpMap S)
      → ¬ Listed id infos
      → find id m ≡ none
      → find id (all_entries infos m) ≡ none
  unfolding lookup
  find-absent id [] m n h = h
  find-absent id (i ∷ infos) m n h =
      find-absent id infos ((i.id, i) ∷ m) (λ q. n (inr q))
        (if_neg (bytes_discrete i.id id) (λ q. n (inl q)) (some i) (find id m) ∙ h)

  pub Listed-cases : (id : Bytes) (infos : Infos) → Listed id infos ⊎ ¬ Listed id infos
  Listed-cases id [] = inr (λ q. q)
  Listed-cases id (i ∷ infos) = elim (bytes_discrete i.id id) [
    | yes p ↦ inl (inl p)
    | no p ↦ elim (Listed-cases id infos) [
      | inl q ↦ inl (inr q)
      | inr q ↦ inr (λ h. elim h [ inl x ↦ p x | inr x ↦ q x ])
    ]
  ]
