-- ===== src/Cleanup/Deleted.antt =====
-- What `deletePrefix` deletes, and what it leaves.
use mathlib.Core.Path.{subst}
use index_provider.Prelude.{
  ◌≡◌, refl, sym, ap, ◌∙◌, ◌⊎◌, inl, inr, Bool, true, false, Option, none, List, [], ◌∷◌, leb, All,
}
use index_provider.Exec.{wrap, Result, ok, err, Exec, pure}
use index_provider.Exec.Post.{
  Post, Post-pure, Post-raise, Post-bind, Post-weaken, Post-relabel, Post-lift-bind,
}
use index_provider.Datastore.Queries.{IsEntry, Lists}
use index_provider.Cleanup.{
  Setup, In, Erases, Progress, update_batch_size, commit_batch, flush_full, delete_key,
  delete_entry, delete_entries,
}

module _ (G : Setup) (prefix : G.Key) (v : G.Key → Option G.Value) where
  open G use {Key, Value, key_discrete, store as D, queries, batches as B, is_empty, under}

  -- Every key that is not under the prefix is as it was in `v`.
  abbrev pub Outside : D.State → Type 0
  Outside s = (k : Key) → under prefix k ≡ false → D.view s k ≡ v k

  abbrev pub Inside : List Key → Type 0
  Inside ks = (k : Key) → In k ks → under prefix k ≡ true

  -- The batch is to delete keys under the prefix only.
  abbrev pub Safe : B.Batch → D.State → Type 0
  Safe b s = Outside s × Inside (B.pending b)

  -- The key is deleted, or the batch is to delete it.
  abbrev pub Handled : Key → B.Batch → D.State → Type 0
  Handled k b s = In k (B.pending b) ⊎ (D.view s k ≡ none)

  In-cases : (k : Key) (ks : List Key) → In k ks ⊎ ¬ In k ks
  In-cases k [] = inr (λ h. h)
  In-cases k (j ∷ ks) = elim (key_discrete j k) [
    | yes p ↦ inl (inl p)
    | no p ↦ elim (In-cases k ks) [
      | inl q ↦ inl (inr q)
      | inr q ↦ inr (λ h. elim h [ inl x ↦ p x | inr x ↦ q x ])
    ]
  ]

  not-In : (k : Key) (ks : List Key) → Inside ks → under prefix k ≡ false → ¬ In k ks
  not-In k ks i f h = cc (sym (i k h) ∙ f)

  erased :
      (k : Key) (b : B.Batch) (s t : D.State)
      → Erases (B.pending b) (D.view s) (D.view t)
      → Handled k b s
      → D.view t k ≡ none
  erased k b s t e (inl h) = e.gone k h
  erased k b s t e (inr h) = elim (In-cases k (B.pending b)) [
    | inl q ↦ e.gone k q
    | inr q ↦ e.kept k q ∙ h
  ]

  -- A commit deletes what was to be deleted.
  pub commit_batch-Outside :
      (b : B.Batch) (s : D.State)
      → Safe b s
      → Post
          (commit_batch G b)
          s
          (λ b' t. ((k : Key) → Handled k b s → D.view t k ≡ none) × Safe b' t)
          (λ _ t. Outside t)
  unfolding commit_batch
  commit_batch-Outside b s safe =
      Post-relabel (λ _ t. Outside t) (wrap "cannot commit datastore") (B.commit b) s
        (B.commit_lem b s)
        (λ b' t p. (
          (λ k h. erased k b s t p.0 h),
          ((λ k f. p.0.kept k (not-In k (B.pending b) safe.1 f) ∙ safe.0 k f), left b' p.1),
        ))
        (λ _ t p k f. p k (not-In k (B.pending b) safe.1 f) ∙ safe.0 k f)
    where
      left :
          (b' : B.Batch)
          → (B.pending b' ≡ []) ⊎ (B.pending b' ≡ B.pending b)
          → Inside (B.pending b')
      left b' (inl q) = subst Inside (sym q) (λ k h. absurd h)
      left b' (inr q) = subst Inside (sym q) safe.1

  abbrev Goes :
      Exec D.State (Progress G) → Progress G → D.State → List (Result (Key × Value)) → Type 0
  Goes m p s rs =
      Post m s
        (λ q t.
          ((k : Key) → is_empty k ≡ false → Handled k p.batch s ⊎ Lists k rs → Handled k q.batch t)
          × Safe q.batch t)
        (λ _ t. Outside t)

  nothing_listed : (k : Key) (b : B.Batch) (s : D.State) → Handled k b s ⊎ ⊥ → Handled k b s
  nothing_listed k b s (inl h) = h
  nothing_listed k b s (inr h) = absurd h

  flush_full-Goes :
      (full : Bool) (p : Progress G) (s : D.State)
      → Safe p.batch s
      → Goes (flush_full G full p) p s []
  unfolding flush_full
  flush_full-Goes false p s safe = Post-pure p s (λ k e h. nothing_listed k p.batch s h, safe)
  flush_full-Goes true p s safe =
      Post-bind (commit_batch G p.batch) (λ b. pure (record p { batch = b; write_count = 0 })) s
        (commit_batch-Outside p.batch s safe)
        (λ b t q.
          Post-pure (record p { batch = b; write_count = 0 }) t
            (λ k e h. inr (q.0 k (nothing_listed k p.batch s h)), q.1))
        (λ _ _ q. q)

  delete_key-Goes :
      (empty : Bool) (k : Key) (x : Value) (p : Progress G) (s : D.State)
      → is_empty k ≡ empty
      → under prefix k ≡ true
      → Safe p.batch s
      → Goes (delete_key G empty k p) p s (ok (k, x) ∷ [])
  unfolding delete_key
  delete_key-Goes true k x p s is u safe = Post-pure p s (λ j e h. same j e h, safe)
    where
      same :
          (j : Key) → is_empty j ≡ false → Handled j p.batch s ⊎ ((k ≡ j) ⊎ ⊥) → Handled j p.batch s
      same j e (inl h) = h
      same j e (inr (inl h)) = absurd (cc (sym is ∙ ap is_empty h ∙ e))
      same j e (inr (inr h)) = absurd h
  delete_key-Goes false k x p s is u safe =
      Post-lift-bind (B.delete_in k p.batch) _ s
        (λ b q.
          let now = B.delete_in_lem k p.batch b q in
          Post-pure _ s
            (λ j e h. added j b now h, (safe.0, subst Inside (sym now) (λ j h. inside j h))))
        (λ _ _. safe.0)
    where
      added :
          (j : Key) (b : B.Batch)
          → B.pending b ≡ k ∷ B.pending p.batch
          → Handled j p.batch s ⊎ ((k ≡ j) ⊎ ⊥)
          → Handled j b s
      added j b now (inl (inl h)) = inl (subst (In j) (sym now) (inr h))
      added j b now (inl (inr h)) = inr h
      added j b now (inr (inl h)) = inl (subst (In j) (sym now) (inl h))
      added j b now (inr (inr h)) = absurd h

      inside : (j : Key) → In j (k ∷ B.pending p.batch) → under prefix j ≡ true
      inside j (inl h) = subst (λ i. under prefix i ≡ true) h u
      inside j (inr h) = safe.1 j h

  delete_entry-Goes :
      (r : Result (Key × Value)) (p : Progress G) (s : D.State)
      → IsEntry (under prefix) v r
      → Safe p.batch s
      → Goes (delete_entry G r p) p s (r ∷ [])
  unfolding delete_entry
  delete_entry-Goes (err x) p s is safe = Post-raise _ s safe.0
  delete_entry-Goes (ok (k, x)) p s is safe =
      Post-relabel (λ _ t. Outside t) (wrap "cannot delete key from datastore")
        (delete_key G (is_empty k) k p) s (delete_key-Goes (is_empty k) k x p s refl is.0 safe)
        (λ _ _ q. q) (λ _ _ q. q)

  split :
      (k : Key) (r : Result (Key × Value)) (rs : List (Result (Key × Value)))
      → Lists k (r ∷ rs)
      → Lists k (r ∷ []) ⊎ Lists k rs
  split k (ok (j, x)) rs (inl h) = inl (inl h)
  split k (ok (j, x)) rs (inr h) = inr h
  split k (err e) rs h = inl tt

  pub delete_entries-Goes :
      (rs : List (Result (Key × Value))) (p : Progress G) (s : D.State)
      → All (IsEntry (under prefix) v) rs
      → Safe p.batch s
      → Goes (delete_entries G rs p) p s rs
  unfolding delete_entries
  delete_entries-Goes [] p s is safe = Post-pure p s (λ k e h. nothing_listed k p.batch s h, safe)
  delete_entries-Goes (r ∷ rs) p s is safe =
      Post-bind (flush_full G (leb update_batch_size p.write_count) p) _ s
        (flush_full-Goes (leb update_batch_size p.write_count) p s safe)
        (λ q t h.
          Post-bind (delete_entry G r q) (delete_entries G rs) t (delete_entry-Goes r q t is.0 h.1)
            (λ q' u h'.
              Post-weaken (delete_entries G rs q') u (delete_entries-Goes rs q' u is.1 h'.1)
                (λ q'' w h''. (λ k e x. h''.0 k e (next q t q' u h.0 h'.0 k e x), h''.1))
                (λ _ _ x. x))
            (λ _ _ x. x))
        (λ _ _ x. x)
    where
      next :
          (q : Progress G) (t : D.State) (q' : Progress G) (u : D.State)
          → ((k : Key) → is_empty k ≡ false → Handled k p.batch s ⊎ ⊥ → Handled k q.batch t)
          → ((k : Key)
              → is_empty k ≡ false
              → Handled k q.batch t ⊎ Lists k (r ∷ [])
              → Handled k q'.batch u)
          → (k : Key) → is_empty k ≡ false
          → Handled k p.batch s ⊎ Lists k (r ∷ rs)
          → Handled k q'.batch u ⊎ Lists k rs
      next q t q' u f g k e (inl h) = inl (g k e (inl (f k e (inl h))))
      next q t q' u f g k e (inr h) = elim (split k r rs h) [
        | inl x ↦ inl (g k e (inr x))
        | inr x ↦ inr x
      ]
