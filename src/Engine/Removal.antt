-- ===== src/Engine/Removal.antt =====
-- What a removal takes out of the four maps, and what it takes from another context ID that has the
-- same entries.
use index_provider.Prelude.{
  ◌≡◌, ◌≢◌, refl, sym, ap, ◌∙◌, true, Option, none, some, List, if_pos, if_neg,
}
use mathlib.Core.Path.{subst}
use index_provider.Exec.{Error, Exec, relabel}
use index_provider.Exec.Post.{Post, Post-pure, Post-bind, Post-relabel, Post-weaken, Post-zoom}
use index_provider.Schema.{Bytes, PeerId}
use index_provider.Engine.{Setup, Engine, on_ds, with_ds, key_to_cid_key, key_to_metadata_key}
use index_provider.Engine.Keys.{Key, cid_to_key, cid_to_provider_and_key, key_discrete}
use index_provider.Engine.Frame.{IsMapKey, view, updated}
use index_provider.Engine.Reads.{known_cid_lem}
use index_provider.Engine.Publish.{remove_entries, publish_adv_for_index}
use index_provider.Engine.MapsKept.{publish_entries-MapsKept}

module _ (G : Setup) where
  open G use {libraries as L, store as D}
  open G.libraries use {Cid, Metadata}

  abbrev View : Type 0
  View = Key Cid → Option Bytes

  abbrev pub Anything : Error → Engine G → Type 0
  Anything _ _ = Unit

  delete_lem :
      (k : Key Cid) (e : Engine G)
      → Post (on_ds G (D.delete k)) e (λ _ t. view G t ≡ updated G (view G e) k none) Anything
  unfolding on_ds
  delete_lem k e =
      Post-zoom (λ x. x.ds) (with_ds G) (D.delete k) e (D.delete_lem k e.ds) (λ _ _ p. p)
        (λ _ _ _. tt)

  -- The maps without the entries of a context ID.
  abbrev dropped : View → PeerId → Bytes → Cid → View
  dropped v p ctx c =
      updated G
        (updated G
          (updated G (updated G v (key_to_cid_key G p ctx) none) (cid_to_provider_and_key c) none)
          (cid_to_key c) none)
        (key_to_metadata_key G p ctx) none

  remove_entries-dropped :
      (p : PeerId) (ctx : Bytes) (c : Cid) (e : Engine G)
      → Post
          (remove_entries G p ctx (some c))
          e
          (λ _ t. view G t ≡ dropped (view G e) p ctx c)
          Anything
  unfolding remove_entries
  remove_entries-dropped p ctx c e =
      Post-bind _ _ e (quietly _ (delete_lem (key_to_cid_key G p ctx) e))
        (λ _ t f.
          Post-bind _ _ t
            (quietly _ (
              Post-bind _ _ t (delete_lem (cid_to_provider_and_key c) t)
                (λ _ u g.
                  Post-weaken _ u (delete_lem (cid_to_key c) u)
                    (λ _ _ h.
                      h
                      ∙ ap (λ v. updated G v (cid_to_key c) none)
                          (g ∙ ap (λ v. updated G v (cid_to_provider_and_key c) none) f))
                    (λ _ _ _. tt))
                (λ _ _ _. tt)))
            (λ _ u g.
              Post-bind _ _ u (quietly _ (delete_lem (key_to_metadata_key G p ctx) u))
                (λ _ v h.
                  Post-pure L.no_entries v
                    (h ∙ ap (λ w. updated G w (key_to_metadata_key G p ctx) none) g))
                (λ _ _ _. tt))
            (λ _ _ _. tt))
        (λ _ _ _. tt)
    where
      quietly :
          {A : Type 0} (f : Error → Error) {m : Exec (Engine G) A} {s : Engine G}
          {Q : A → Engine G → Type 0}
          → Post m s Q Anything
          → Post (relabel f m) s Q Anything
      quietly f {m} {s} h = Post-relabel Anything f m s h (λ _ _ q. q) (λ _ _ q. q)

  -- The maps after a removal: none of the four entries, and every other entry as it was.
  pub record Forgets (p : PeerId) (ctx : Bytes) (c : Cid) (v w : View) : Type 0 where
    pub no_cid : w (key_to_cid_key G p ctx) ≡ none
    pub no_metadata : w (key_to_metadata_key G p ctx) ≡ none
    pub no_pair : w (cid_to_provider_and_key c) ≡ none
    pub no_legacy : w (cid_to_key c) ≡ none
    pub others :
        (k : Key Cid)
        → IsMapKey k
        → k ≢ key_to_cid_key G p ctx
        → k ≢ key_to_metadata_key G p ctx
        → k ≢ cid_to_provider_and_key c
        → k ≢ cid_to_key c
        → w k ≡ v k

  at : (v : View) (j k : Key Cid) (o : Option Bytes) → j ≡ k → updated G v j o k ≡ o
  at v j k o p = if_pos (key_discrete L.cid_discrete j k) p _ _

  off : (v : View) (j k : Key Cid) (o : Option Bytes) → ¬ (j ≡ k) → updated G v j o k ≡ v k
  off v j k o p = if_neg (key_discrete L.cid_discrete j k) p _ _

  Forgets-dropped :
      (p : PeerId) (ctx : Bytes) (c : Cid) (v w : View)
      → ((k : Key Cid) → IsMapKey k → w k ≡ dropped v p ctx c k)
      → Forgets p ctx c v w
  unfolding key_to_cid_key key_to_metadata_key
  Forgets-dropped p ctx c v w h =
      let kc = key_to_cid_key G p ctx in
      let km = key_to_metadata_key G p ctx in
      let kp : Key Cid = cid_to_provider_and_key c in
      let kl : Key Cid = cid_to_key c in
      let v1 = updated G v kc none in
      let v2 = updated G v1 kp none in
      let v3 = updated G v2 kl none in
      record {
        no_cid =
            h kc tt
            ∙ off v3 km kc none (λ q. absurd (cc))
            ∙ off v2 kl kc none (λ q. absurd (cc))
            ∙ off v1 kp kc none (λ q. absurd (cc))
            ∙ at v kc kc none refl;
        no_metadata = h km tt ∙ at v3 km km none refl;
        no_pair =
            h kp tt
            ∙ off v3 km kp none (λ q. absurd (cc))
            ∙ off v2 kl kp none (λ q. absurd (cc))
            ∙ at v1 kp kp none refl;
        no_legacy = h kl tt ∙ off v3 km kl none (λ q. absurd (cc)) ∙ at v2 kl kl none refl;
        others = λ k m a b d f.
            h k m
            ∙ off v3 km k none (λ q. b (sym q))
            ∙ off v2 kl k none (λ q. f (sym q))
            ∙ off v1 kp k none (λ q. d (sym q))
            ∙ off v kc k none (λ q. a (sym q));
      }

  -- A removal that succeeds leaves no entry of the context ID, nor of its entries' identifier, in
  -- any of the four maps, and leaves the maps alone at every other key.
  pub remove-Forgets :
      (p : PeerId) (addrs : List Bytes) (ctx : Bytes) (md : Metadata) (c : Cid) (e : Engine G)
      → view G e (key_to_cid_key G p ctx) ≡ some (L.cid_bytes c)
      → Post
          (publish_adv_for_index G p addrs ctx md true)
          e
          (λ _ t. Forgets p ctx c (view G e) (view G t))
          Anything
  unfolding publish_adv_for_index
  remove-Forgets p addrs ctx md c e h =
      Post-bind _ _ e (known_cid_lem G p ctx (some c) e h)
        (λ known t q.
          Post-bind _ _ t
            (subst
              (λ o.
                Post (remove_entries G p ctx o) t (λ _ u. view G u ≡ dropped (view G t) p ctx c)
                  Anything)
              (sym q.0) (remove_entries-dropped p ctx c t))
            (λ lnk u r.
              Post-weaken _ u
                ((publish_entries-MapsKept G p addrs ctx L.empty_metadata true lnk).at u)
                (λ _ w s.
                  Forgets-dropped p ctx c (view G e) (view G w)
                    (λ k m. s.kept k m ∙ ap (λ v. v k) r ∙ ap (λ v. dropped v p ctx c k) q.1.held))
                (λ _ _ _. tt))
            (λ _ _ _. tt))
        (λ _ _ _. tt)
