-- ===== src/Mirror/Copying/Quiet.antt =====
-- Reading through the link system changes neither the datastore nor what was published; only the cache
-- of the chunker may move.
use index_provider.Prelude.{
  ℕ, zero, suc, ◌≡◌, refl, ◌∙◌, Bool, true, false, Option, none, some, [], ◌∷◌,
}
use index_provider.Exec.{Error, text, not_found, Result, Exec, pure, raise, lift, ◌>>=◌}
use index_provider.Exec.Post.{Post-zoom, Post-any}
use index_provider.Exec.Within.{Within, Within-pure, Within-raise, Within-lift, Within-bind}
use index_provider.Schema.{Bytes}
use index_provider.Mirror.{
  Setup, Mirror, Kind, entry_chunk, hamt, unknown, on_ds, on_chunker, with_ds, with_chunker, view,
}
use index_provider.Mirror.Keys.{Key}
use index_provider.Mirror.Reading.{
  parse_reference, get_latest_original_ad_cid, parse_link, get_original_entries_link_from_mirror,
  iterate, load_entries, known_kind, get_entries_prototype, same_link, fill, served, read_cached,
  read_remapped, read_block, open_unless, storage_read_opener, read,
}

module _ (G : Setup) where
  open G use {libraries as L, store as D, Iterator, config}
  open G.libraries use {Cid}

  abbrev M : Type 0
  M = Mirror G

  pub record Quiet (s t : M) : Type 0 where
    pub held : view G t ≡ view G s
    pub root : t.root ≡ s.root
    pub announced : t.announced ≡ s.announced

  pub Quiet-refl : (s : M) → Quiet s s
  Quiet-refl s = record { held = refl; root = refl; announced = refl }

  pub Quiet-trans : (a b c : M) → Quiet a b → Quiet b c → Quiet a c
  Quiet-trans a b c p q = record {
    held = q.held ∙ p.held;
    root = q.root ∙ p.root;
    announced = q.announced ∙ p.announced;
  }

  abbrev W : {A : Type 0} → Exec M A → Type 0
  W = Within Quiet

  K-pure : {A : Type 0} (a : A) → W (pure a)
  K-pure = Within-pure Quiet Quiet-refl Quiet-trans

  K-raise : {A : Type 0} (x : Error) → W (raise {A = A} x)
  K-raise = Within-raise Quiet Quiet-refl Quiet-trans

  K-lift : {A : Type 0} (r : Result A) → W (lift r)
  K-lift = Within-lift Quiet Quiet-refl Quiet-trans

  K-bind :
      {A B : Type 0} (m : Exec M A) (f : A → Exec M B) → W m → ((a : A) → W (f a)) → W (m >>= f)
  K-bind = Within-bind Quiet Quiet-refl Quiet-trans

  pub same_held : (s : M) (d : D.State) → D.view d ≡ view G s → Quiet s (with_ds G s d)
  same_held s d p = record { held = p; root = refl; announced = refl }

  K-get : (k : Key Cid) → W (on_ds G (D.get k))
  unfolding on_ds
  K-get k = record {
    at = λ s.
        Post-zoom (λ x. x.ds) (with_ds G) (D.get k) s (D.get_lem k s.ds)
          (λ _ d p. same_held s d p.1) (λ _ d p. same_held s d p.1);
  }

  pub same_store : (s : M) (c : G.Chunks) → Quiet s (with_chunker G s c)
  same_store s c = record { held = refl; root = refl; announced = refl }

  pub chunker-Quiet : {A : Type 0} (m : Exec G.Chunks A) → W (on_chunker G m)
  unfolding on_chunker
  chunker-Quiet m = record {
    at = λ s.
        Post-zoom (λ x. x.chunker) (with_chunker G) m s (Post-any m s.chunker)
          (λ _ c _. same_store s c) (λ _ c _. same_store s c);
  }

  ruleset rules = (K-pure, K-raise, K-lift, K-bind, K-get, chunker-Quiet)

  K-parse : (o : Option Bytes) → W (parse_reference G o)
  unfolding parse_reference
  K-parse none = K-pure none
  K-parse (some b) = search rules

  pub get_latest_original_ad_cid-Quiet : W (get_latest_original_ad_cid G)
  unfolding get_latest_original_ad_cid
  get_latest_original_ad_cid-Quiet = search (rules, K-parse)

  K-link : (o : Option Bytes) → W (parse_link G o)
  unfolding parse_link
  K-link none = K-raise not_found
  K-link (some b) = K-lift (L.cid_from_bytes b)

  K-original : (c : Cid) → W (get_original_entries_link_from_mirror G c)
  unfolding get_original_entries_link_from_mirror
  K-original c = search (rules, K-link)

  module _ (ls : Cid → Exec M Bytes) (K-ls : (c : Cid) → W (ls c)) where
    K-iterate : (c : Cid) (k : Kind) → W (iterate G ls c k)
    unfolding iterate
    K-iterate c unknown = K-raise (text "unknown entries type")
    K-iterate c entry_chunk = search (rules, K-ls)
    K-iterate c hamt = search (rules, K-ls)

    pub load_entries-Quiet : (c : Cid) → W (load_entries G ls c)
    unfolding load_entries
    load_entries-Quiet c = search (rules, K-ls, K-iterate)

    K-kind : (k : Kind) → W (known_kind G ls k)
    unfolding known_kind
    K-kind unknown = K-raise (text "unknown entries type")
    K-kind entry_chunk = K-pure entry_chunk
    K-kind hamt = K-pure hamt

    pub get_entries_prototype-Quiet : (c : Cid) → W (get_entries_prototype G ls c)
    unfolding get_entries_prototype
    get_entries_prototype-Quiet c = search (rules, K-ls, K-kind)

    K-same : (c : Cid) (o : Option Cid) → W (same_link G ls c o)
    unfolding same_link
    K-same c none = K-raise _
    K-same c (some d) =
        elim (L.cid_discrete d c)
          as (λ x. W (elim x [
            | yes _ ↦ pure tt
            | no _ ↦ raise (text "chunked link does not match the mapping to original entry")
          ])) [ yes _ ↦ K-pure tt | no _ ↦ K-raise _ ]

    K-fill : (c : Cid) (o : Option Bytes) → W (fill G ls c o)
    unfolding fill
    K-fill c none = search (rules, K-original, load_entries-Quiet, K-same)
    K-fill c (some b) = K-pure tt

    K-served : (o : Option Bytes) → W (served G ls o)
    unfolding served
    K-served none = K-raise not_found
    K-served (some []) = K-raise not_found
    K-served (some (b ∷ bs)) = K-pure (b ∷ bs)

    K-cached : (c : Cid) → W (read_cached G ls c)
    unfolding read_cached
    K-cached c = search (rules, K-served)

    K-remapped : (c : Cid) (b : Bool) → W (read_remapped G ls c b)
    unfolding read_remapped
    K-remapped c true = search (rules, K-fill, K-cached)
    K-remapped c false = K-raise not_found

    K-block : (c : Cid) (o : Option Bytes) → W (read_block G ls c o)
    unfolding read_block
    K-block c none = K-remapped c config.remap_entries_enabled
    K-block c (some []) = K-remapped c config.remap_entries_enabled
    K-block c (some (b ∷ bs)) = K-pure (b ∷ bs)

    K-open : (c : Cid) (d : Dec (c ≡ L.no_entries)) → W (open_unless G ls c d)
    unfolding open_unless
    K-open c (yes _) = K-raise _
    K-open c (no _) = search (rules, K-block)

    K-opener : (c : Cid) → W (storage_read_opener G ls c)
    unfolding storage_read_opener
    K-opener c = K-open c (L.cid_discrete c L.no_entries)

  pub read-Quiet : (n : ℕ) (c : Cid) → W (read G n c)
  unfolding read
  read-Quiet zero c = K-raise (text "too deep")
  read-Quiet (suc n) c = K-opener (read G n) (read-Quiet n) c
