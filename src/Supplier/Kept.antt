-- ===== src/Supplier/Kept.antt =====
-- What the supplier knows after a CAR was put and after it was removed.
use mathlib.Core.Path.{subst}
use index_provider.Prelude.{
  ◌≡◌, ◌≢◌, refl, sym, ap, ◌∙◌, ◌⊎◌, inl, inr, Bool, true, false, Option, none, some, if_pos,
}
use index_provider.Exec.{Error, Exec}
use index_provider.Exec.Post.{
  Post, Post-pure, Post-raise, Post-bind, Post-weaken, Post-zoom, Post-any, Post-both, Post-unless,
}
use index_provider.Datastore.{update}
use index_provider.Schema.{Bytes}
use index_provider.Engine.Keys.{bytes_discrete}
use index_provider.Supplier.{
  Setup, CarSupplier, no_iterator, on_ds, with_ds, on_eng, with_eng, put_car, remove_known,
  remove_car, path_or_missing, get_path,
}

module _ (G : Setup) where
  open G use {Cid, Metadata, engine as I, cars as C, store as D, clean}

  abbrev pub paths : CarSupplier G → Bytes → Option Bytes
  paths s = D.view s.ds

  abbrev pub Failed : Error → CarSupplier G → Type 0
  Failed _ _ = Unit {0}

  eng_lem :
      {A : Type 0} (m : Exec I.State A) (s : CarSupplier G)
      → Post (on_eng G m) s (λ _ t. t.ds ≡ s.ds) (λ _ t. t.ds ≡ s.ds)
  unfolding on_eng
  eng_lem m s =
      Post-zoom (λ x. x.eng) (with_eng G) m s (Post-any m s.eng) (λ _ _ _. refl) (λ _ _ _. refl)

  update_self :
      (v : Bytes → Option Bytes) (k : Bytes) (o : Option Bytes) → update bytes_discrete v k o k ≡ o
  update_self v k o = if_pos (bytes_discrete k k) refl o (v k)

  -- Looking the context ID up gives this path, and fails only if the datastore does; it changes nothing.
  abbrev pub Supplied : Bytes → Bytes → CarSupplier G → Type 0
  Supplied ctx path t =
      Post (get_path G ctx) t (λ p u. (p ≡ path) × (paths u ≡ paths t) × (u.eng ≡ t.eng))
        (λ _ u. ¬ D.Reliable × (paths u ≡ paths t) × (u.eng ≡ t.eng))

  fails_if_unreliable :
      (ctx : Bytes) (d : D.State)
      → Post
          (D.get ctx)
          d
          (λ o t. (o ≡ D.view d ctx) × (D.view t ≡ D.view d))
          (λ _ t. ¬ D.Reliable × (D.view t ≡ D.view d))
  fails_if_unreliable ctx d =
      Post-weaken (D.get ctx) d
        (Post-both _ _ _ _ (D.get ctx) d
          (Post-unless D.Reliable (D.get ctx) d (D.get_lem ctx d) (D.get_reliable ctx d))
          (D.get_lem ctx d))
        (λ _ _ p. p.0) (λ _ _ p. (p.0, p.1.1))

  get_lem :
      (ctx : Bytes) (s : CarSupplier G)
      → Post
          (on_ds G (D.get ctx))
          s
          (λ o t. (o ≡ paths s ctx) × (paths t ≡ paths s) × (t.eng ≡ s.eng))
          (λ _ t. ¬ D.Reliable × (paths t ≡ paths s) × (t.eng ≡ s.eng))
  unfolding on_ds
  get_lem ctx s =
      Post-zoom (λ x. x.ds) (with_ds G) (D.get ctx) s (fails_if_unreliable ctx s.ds)
        (λ o d p. (p.0, p.1, refl)) (λ _ d p. (p.0, p.1, refl))

  known : (ctx path : Bytes) (t : CarSupplier G) → paths t ctx ≡ some path → Supplied ctx path t
  unfolding get_path path_or_missing
  known ctx path t h =
      Post-bind (on_ds G (D.get ctx)) (path_or_missing G) t (get_lem ctx t)
        (λ o u p.
          subst
            (λ x.
              Post (path_or_missing G x) u
                (λ q v. (q ≡ path) × (paths v ≡ paths t) × (v.eng ≡ t.eng))
                (λ _ v. ¬ D.Reliable × (paths v ≡ paths t) × (v.eng ≡ t.eng)))
            (sym (p.0 ∙ h)) (Post-pure path u (refl, p.1, p.2)))
        (λ _ _ p. p)

  -- After Put the path of the CAR, cleaned, is what the supplier finds for its context ID unless the
  -- datastore fails to read it, also if the
  -- engine refused the advertisement; only where the datastore failed to store the path may it not be.
  pub put_car-get_path :
      (ctx path : Bytes) (md : Metadata) (s : CarSupplier G)
      → Post
          (put_car G ctx path md)
          s
          (λ _ t. Supplied ctx (clean path) t)
          (λ _ t. Supplied ctx (clean path) t ⊎ (paths t ≡ paths s))
  unfolding put_car on_ds
  put_car-get_path ctx path md s =
      Post-bind (on_ds G (D.put ctx (clean path))) (λ _. on_eng G (I.notify_put ctx md)) s stored
        (λ _ t p.
          Post-weaken (on_eng G (I.notify_put ctx md)) t (eng_lem (I.notify_put ctx md) t)
            (λ _ u q. known ctx (clean path) u (ap (λ d. D.view d ctx) q ∙ p))
            (λ _ u q. inl (known ctx (clean path) u (ap (λ d. D.view d ctx) q ∙ p))))
        (λ _ t p. elim p [ inl q ↦ inr q | inr q ↦ inl (known ctx (clean path) t q) ])
    where
      stored :
          Post
            (on_ds G (D.put ctx (clean path)))
            s
            (λ _ t. paths t ctx ≡ some (clean path))
            (λ _ t. (paths t ≡ paths s) ⊎ (paths t ctx ≡ some (clean path)))
      stored =
          Post-zoom (λ x. x.ds) (with_ds G) (D.put ctx (clean path)) s
            (D.put_lem ctx (clean path) s.ds)
            (λ _ d p. ap (λ v. v ctx) p ∙ update_self (D.view s.ds) ctx (some (clean path)))
            (λ _ d p. elim p [
              | inl q ↦ inl q
              | inr q ↦ inr (ap (λ v. v ctx) q ∙ update_self (D.view s.ds) ctx (some (clean path)))
            ])

  -- A further Remove fails and does not reach the engine.
  abbrev pub NotAgain : Bytes → CarSupplier G → Type 0
  NotAgain ctx t =
      Post (remove_car G ctx) t (λ _ _. ⊥) (λ _ u. (paths u ≡ paths t) × (u.eng ≡ t.eng))

  has_lem :
      (ctx : Bytes) (t : CarSupplier G)
      → paths t ctx ≡ none
      → Post
          (on_ds G (D.has ctx))
          t
          (λ b u. (b ≡ false) × (paths u ≡ paths t) × (u.eng ≡ t.eng))
          (λ _ u. (paths u ≡ paths t) × (u.eng ≡ t.eng))
  unfolding on_ds
  has_lem ctx t h =
      Post-zoom (λ x. x.ds) (with_ds G) (D.has ctx) t (D.has_lem ctx t.ds)
        (λ b d p. (absent b p.0, p.2, refl)) (λ _ d p. (p, refl))
    where
      absent : (b : Bool) → (b ≡ true → D.view t.ds ctx ≢ none) → b ≡ false
      absent false there = refl
      absent true there = absurd (there refl h)

  gone : (ctx : Bytes) (t : CarSupplier G) → paths t ctx ≡ none → NotAgain ctx t
  unfolding remove_car remove_known
  gone ctx t h =
      Post-bind (on_ds G (D.has ctx)) (remove_known G ctx) t (has_lem ctx t h)
        (λ b u p. rw (p.0) (Post-raise no_iterator u (p.1, p.2))) (λ _ _ p. p)

  abbrev pub Same : CarSupplier G → CarSupplier G → Type 0
  Same s t = (paths t ≡ paths s) × (t.eng ≡ s.eng)

  asked :
      (ctx : Bytes) (s : CarSupplier G)
      → Post (on_ds G (D.has ctx)) s (λ _ t. Same s t) (λ _ t. Same s t)
  unfolding on_ds
  asked ctx s =
      Post-zoom (λ x. x.ds) (with_ds G) (D.has ctx) s (D.has_lem ctx s.ds) (λ _ d p. (p.2, refl))
        (λ _ d p. (p, refl))

  erased :
      (ctx : Bytes) (t : CarSupplier G)
      → Post
          (on_ds G (D.delete ctx))
          t
          (λ _ u. paths u ctx ≡ none)
          (λ _ u. Same t u ⊎ (paths u ctx ≡ none))
  unfolding on_ds
  erased ctx t =
      Post-zoom (λ x. x.ds) (with_ds G) (D.delete ctx) t (D.delete_lem ctx t.ds)
        (λ _ d r. deleted d r)
        (λ _ d r. elim r [ inl x ↦ inl (x, refl) | inr x ↦ inr (deleted d x) ])
    where
      deleted :
          (d : D.State) → D.view d ≡ update bytes_discrete (paths t) ctx none → D.view d ctx ≡ none
      deleted d p = ap (λ v. v ctx) p ∙ update_self (paths t) ctx none

  removed :
      (ctx : Bytes) (b : Bool) (s t : CarSupplier G)
      → Same s t
      → Post (remove_known G ctx b) t (λ _ u. NotAgain ctx u) (λ _ u. NotAgain ctx u ⊎ Same s u)
  unfolding remove_known
  removed ctx false s t h = Post-raise no_iterator t (inr h)
  removed ctx true s t h =
      Post-bind (on_ds G (D.delete ctx)) (λ _. on_eng G (I.notify_remove ctx)) t (erased ctx t)
        (λ _ u r.
          Post-weaken (on_eng G (I.notify_remove ctx)) u (eng_lem (I.notify_remove ctx) u)
            (λ _ v x. gone ctx v (ap (λ d. D.view d ctx) x ∙ r))
            (λ _ v x. inl (gone ctx v (ap (λ d. D.view d ctx) x ∙ r))))
        (λ _ u r. elim r [ inl x ↦ inr (x.0 ∙ h.0, x.1 ∙ h.1) | inr x ↦ inl (gone ctx u x) ])

  -- After Remove, whether it succeeded or failed, a further Remove of the context ID fails without
  -- reaching the engine, unless it was before the path was deleted that it failed: then the paths and the
  -- engine are as they were. So a removal that the engine could not publish cannot be tried again.
  pub remove_car-NotAgain :
      (ctx : Bytes) (s : CarSupplier G)
      → Post
          (remove_car G ctx)
          s
          (λ _ t. NotAgain ctx t)
          (λ _ t. NotAgain ctx t ⊎ ((paths t ≡ paths s) × (t.eng ≡ s.eng)))
  unfolding remove_car
  remove_car-NotAgain ctx s =
      Post-bind (on_ds G (D.has ctx)) (remove_known G ctx) s (asked ctx s)
        (λ b t p. removed ctx b s t p) (λ _ _ p. inr p)
