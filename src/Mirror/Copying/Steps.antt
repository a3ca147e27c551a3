-- ===== src/Mirror/Copying/Steps.antt =====
-- What is done before an advertisement is stored keeps every block, the references, the root and the
-- announcements.
use mathlib.Core.Path.{subst}
use index_provider.Prelude.{
  ℕ, ◌≡◌, refl, sym, ◌∙◌, inl, inr, Bool, true, false, Option, none, some, if_neg,
}
use index_provider.Exec.{Error, panic, Result, Exec, pure, raise, lift, ◌>>=◌}
use index_provider.Exec.Post.{Post-zoom, Post-weaken}
use index_provider.Exec.Within.{Within, Within-pure, Within-raise, Within-lift, Within-bind}
use index_provider.Datastore.{update}
use index_provider.Schema.{Bytes}
use index_provider.Mirror.{Setup, Mirror, Kind, kind_discrete, on_ds, on_chunker, with_ds, view}
use index_provider.Mirror.Keys.{
  Key, key_discrete, block, latest_mirrored, latest_original, mirrored_entries_link, Grown,
  Grown-refl, Grown-trans,
}
use index_provider.Mirror.Reading.{
  set_mirrored_entries_link, load_entries, get_entries_prototype, read,
}
use index_provider.Mirror.Copying.Quiet.{
  Quiet, chunker-Quiet, read-Quiet, load_entries-Quiet, get_entries_prototype-Quiet,
}
use index_provider.Mirror.Copying.{
  rechunk, unless_matching, remap, remap_entries, sync_and_remap, unless_no_entries, mirror_entries,
}

module _ (G : Setup) where
  open G use {libraries as L, store as D, Iterator, config}
  open G.libraries use {Cid}

  abbrev M : Type 0
  M = Mirror G

  pub record Kept (s t : M) : Type 0 where
    pub grown : Grown (view G s) (view G t)
    pub root : t.root ≡ s.root
    pub announced : t.announced ≡ s.announced

  pub Kept-refl : (s : M) → Kept s s
  Kept-refl s = record { grown = Grown-refl (view G s); root = refl; announced = refl }

  pub Kept-trans : (a b c : M) → Kept a b → Kept b c → Kept a c
  Kept-trans a b c p q = record {
    grown = Grown-trans (view G a) (view G b) (view G c) p.grown q.grown;
    root = q.root ∙ p.root;
    announced = q.announced ∙ p.announced;
  }

  abbrev W : {A : Type 0} → Exec M A → Type 0
  W = Within Kept

  K-pure : {A : Type 0} (a : A) → W (pure a)
  K-pure = Within-pure Kept Kept-refl Kept-trans

  K-raise : {A : Type 0} (x : Error) → W (raise {A = A} x)
  K-raise = Within-raise Kept Kept-refl Kept-trans

  K-lift : {A : Type 0} (r : Result A) → W (lift r)
  K-lift = Within-lift Kept Kept-refl Kept-trans

  K-bind :
      {A B : Type 0} (m : Exec M A) (f : A → Exec M B) → W m → ((a : A) → W (f a)) → W (m >>= f)
  K-bind = Within-bind Kept Kept-refl Kept-trans

  pub grown : (s : M) (d : D.State) → Grown (view G s) (D.view d) → Kept s (with_ds G s d)
  grown s d g = record { grown = g; root = refl; announced = refl }

  pub unchanged : (s : M) (d : D.State) → D.view d ≡ view G s → Kept s (with_ds G s d)
  unchanged s d p = grown s d (subst (λ v. Grown (view G s) v) (sym p) (Grown-refl (view G s)))

  pub update_ne :
      (v : Key Cid → Option Bytes) (k j : Key Cid) (o : Option Bytes)
      → ¬ (k ≡ j)
      → update (key_discrete L.cid_discrete) v k o j ≡ v j
  update_ne v k j o h = if_neg (key_discrete L.cid_discrete k j) h _ _

  mapping :
      (v : Key Cid → Option Bytes) (c : Cid) (b : Bytes)
      → Grown v (update (key_discrete L.cid_discrete) v (mirrored_entries_link c) (some b))
  mapping v c b = record {
    blocks = λ d x h. update_ne v (mirrored_entries_link c) (block d) (some b) (λ e. cc) ∙ h;
    mirrored = update_ne v (mirrored_entries_link c) latest_mirrored (some b) (λ e. cc);
    original = update_ne v (mirrored_entries_link c) latest_original (some b) (λ e. cc);
  }

  mapped :
      (s : M) (c : Cid) (b : Bytes) (d : D.State)
      → D.view d
        ≡ update (key_discrete L.cid_discrete) (view G s) (mirrored_entries_link c) (some b)
      → Kept s (with_ds G s d)
  mapped s c b d p = grown s d (subst (λ v. Grown (view G s) v) (sym p) (mapping (view G s) c b))

  K-map : (o : Option Cid) (c : Cid) → W (set_mirrored_entries_link G o c)
  unfolding set_mirrored_entries_link on_ds
  K-map none c = K-raise panic
  K-map (some m) c = record {
    at = λ s.
        Post-zoom (λ x. x.ds) (with_ds G) (D.put (mirrored_entries_link c) (L.cid_bytes m)) s
          (D.put_lem (mirrored_entries_link c) (L.cid_bytes m) s.ds)
          (λ _ d p. mapped s c (L.cid_bytes m) d p)
          (λ _ d p. elim p [ inl q ↦ unchanged s d q | inr q ↦ mapped s c (L.cid_bytes m) d q ]);
  }

  K-sync : (c : Cid) → W (on_ds G (G.sync_entries c))
  unfolding on_ds
  K-sync c = record {
    at = λ s.
        Post-zoom (λ x. x.ds) (with_ds G) (G.sync_entries c) s (G.sync_entries-Grown c s.ds)
          (λ _ d p. grown s d p) (λ _ d p. grown s d p);
  }

  ruleset rules = (K-pure, K-raise, K-lift, K-bind, K-map, K-sync)

  pub Kept-Quiet : (s t : M) → Quiet G s t → Kept s t
  Kept-Quiet s t q = record {
    grown = subst (λ v. Grown (view G s) v) (sym q.held) (Grown-refl (view G s));
    root = q.root;
    announced = q.announced;
  }

  pub Within-Quiet : {A : Type 0} (m : Exec M A) → Within (Quiet G) m → W m
  Within-Quiet m q = record {
    at = λ s. Post-weaken m s (q.at s) (λ _ t. Kept-Quiet s t) (λ _ t. Kept-Quiet s t);
  }

  module _ (depth : ℕ) where
    K-entries : (c : Cid) → W (load_entries G (read G depth) c)
    K-entries c = Within-Quiet _ (load_entries-Quiet G (read G depth) (read-Quiet G depth) c)

    K-prototype : (c : Cid) → W (get_entries_prototype G (read G depth) c)
    K-prototype c =
        Within-Quiet _ (get_entries_prototype-Quiet G (read G depth) (read-Quiet G depth) c)

    K-chunker : {A : Type 0} (m : Exec G.Chunks A) → W (on_chunker G m)
    K-chunker m = Within-Quiet (on_chunker G m) (chunker-Quiet G m)

    K-rechunk : (c : Cid) → W (rechunk G depth c)
    unfolding rechunk
    K-rechunk c = search (rules, K-entries, K-chunker)

    K-matching : (c : Cid) (k : Kind) → W (unless_matching G depth c k)
    unfolding unless_matching
    K-matching c k =
        elim (kind_discrete k config.entries_remap_prototype)
          as (λ x. W (elim x [ yes _ ↦ pure c | no _ ↦ rechunk G depth c ])) [
            | yes _ ↦ K-pure c
            | no _ ↦ K-rechunk c
          ]

    K-remap : (c : Cid) (b : Bool) → W (remap G depth c b)
    unfolding remap
    K-remap c true = search (rules, K-prototype, K-matching)
    K-remap c false = K-rechunk c

    K-remap_entries : (c : Cid) (b : Bool) → W (remap_entries G depth c b)
    unfolding remap_entries
    K-remap_entries c true = K-remap c config.skip_remap_on_entries_type_match
    K-remap_entries c false = K-pure c

    K-sync_and : (c : Cid) (b : Bool) → W (sync_and_remap G depth c b)
    unfolding sync_and_remap
    K-sync_and c true = K-raise _
    K-sync_and c false = search (rules, K-remap_entries)

    K-unless : (c : Cid) (d : Dec (c ≡ L.no_entries)) → W (unless_no_entries G depth c d)
    unfolding unless_no_entries
    K-unless c (yes _) = K-pure c
    K-unless c (no _) = K-sync_and c config.no_source

    pub mirror_entries-Within : (c : Cid) (b : Bool) → W (mirror_entries G depth c b)
    unfolding mirror_entries
    mirror_entries-Within c true = K-pure c
    mirror_entries-Within c false = K-unless c (L.cid_discrete c L.no_entries)
