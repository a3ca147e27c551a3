-- ===== src/Engine/Tests.antt =====
-- A concrete engine over a datastore in memory, and the theorems of the engine at it.
use index_provider.Prelude.{
  ite, ℕ, ◌≡◌, ◌≢◌, refl, sym, ap, ◌∙◌, Bool, true, false, Option, none, some, [], ◌∷◌, ℕ_discrete,
  ◌⊎◌,
}
use mathlib.Core.Bool.{decide}
use index_provider.Exec.{external, context_id_not_found, Result, ok, err}
use index_provider.Exec.Post.{Post}
use index_provider.Datastore.Assoc.{memory}
use index_provider.Schema.{Bytes}
use index_provider.Engine.{
  publish_local, Setup, Engine, key_to_cid_key, key_to_metadata_key, get_cid_key_map,
}
use index_provider.Engine.Sample.{first_ad, sample, adv_discrete, block_of-bytes}
use index_provider.Engine.LinkSystem.{Readers, read_opener}
use index_provider.Engine.LinkSystem.Serving.{publish_local-read_opener}
use index_provider.Engine.Keys.{
  Key, latest_adv, block, key_to_cid, key_to_metadata, key_discrete, bytes_discrete, context_key,
}
use index_provider.Engine.Frame.{view}
use index_provider.Engine.Growth.{Grown, Describes, Recovered, publish_adv_for_index-IsChain}
use index_provider.Engine.Reads.{Unchanged}
use index_provider.Engine.Refusals.{lookup_failed, Refused, remove-unknown, put-again}
use index_provider.Engine.Removal.{Forgets, Anything, remove-Forgets}
use index_provider.Engine.SharedEntries.{remove-orphans}
use index_provider.Engine.Publish.{publish_adv_for_index, publish_latest}
use index_provider.Engine.Latest.{Offered, publish_latest-Offered}
use index_provider.Engine.Succeeds.{Accepted, publish_adv_for_index-succeeds}
use index_provider.Engine.Succeeds.Entries.{Listable}

abbrev setup : Setup
setup = record {
  libraries = sample;
  store = memory (key_discrete ℕ_discrete);
  Iterator = Bytes;
  Chunks = Unit {0};
  chunk = λ it s. (ok (some 3), s);
  config = record { provider = record { id = 1 ∷ []; addrs = [] }; no_publisher = false };
}

abbrev engine : (Key ℕ → Option Bytes) → Engine setup
engine v = record {
  ds = v;
  entries_chunker = tt;
  publisher = some none;
  announced = [];
  mh_lister = some (λ p ctx. ok ctx);
}

abbrev fresh : Engine setup
fresh = engine (λ k. none)

program : Unit {0}
unfolding publish_adv_for_index ℕ_discrete bytes_discrete key_discrete context_key adv_discrete
program = tt

-- The first put publishes the first advertisement, and announces it.
put_first : (publish_adv_for_index setup (1 ∷ []) [] (5 ∷ []) (6 ∷ []) false fresh).0 ≡ ok 7
unfolding program
put_first = refl

publish_adv_for_index-IsChain_example :
    Post
      (publish_adv_for_index setup (1 ∷ []) [] (5 ∷ []) (6 ∷ []) false)
      fresh
      (Grown setup none [] (Describes setup none [] (1 ∷ []) [] (5 ∷ []) false) fresh)
      (λ _ e'. Recovered setup none [] (Describes setup none [] (1 ∷ []) [] (5 ∷ []) false) e')
publish_adv_for_index-IsChain_example =
    publish_adv_for_index-IsChain setup none [] (1 ∷ []) [] (5 ∷ []) (6 ∷ []) false fresh (refl, tt)

put_entries-Accepted : Accepted setup (1 ∷ []) [] (5 ∷ []) (6 ∷ []) false none 3
unfolding program
put_entries-Accepted = record {
  bytes = 6 ∷ [];
  signature = 9 ∷ [];
  stored = (7, 1 ∷ []);
  has_bytes = refl;
  signs = refl;
  valid = refl;
  encodes = refl;
}

put_entries-Listable :
    Listable setup (1 ∷ []) (5 ∷ []) (Accepted setup (1 ∷ []) [] (5 ∷ []) (6 ∷ []) false none) fresh
unfolding program
put_entries-Listable = record {
  lister = λ p ctx. ok ctx;
  iterator = 5 ∷ [];
  peer = 1 ∷ [];
  pair = 1 ∷ 5 ∷ [];
  registered = refl;
  lists = refl;
  chunks = record { at = put_entries-Accepted };
  has_peer = refl;
  has_pair = refl;
}

publish_adv_for_index-succeeds_example :
    Post
      (publish_adv_for_index setup (1 ∷ []) [] (5 ∷ []) (6 ∷ []) false)
      fresh
      (Grown setup none [] (Describes setup none [] (1 ∷ []) [] (5 ∷ []) false) fresh)
      (λ _ _. ⊥)
publish_adv_for_index-succeeds_example =
    publish_adv_for_index-succeeds setup none [] (1 ∷ []) [] (5 ∷ []) (6 ∷ []) false fresh tt
      (refl, tt) (refl, (6 ∷ [], refl), put_entries-Listable)

remove-unknown_example :
    Post
      (publish_adv_for_index setup (1 ∷ []) [] (5 ∷ []) [] true)
      fresh
      (λ _ _. ⊥)
      (λ x e'. ((x ≡ context_id_not_found) ⊎ (x ≡ lookup_failed setup)) × Unchanged setup fresh e')
remove-unknown_example = remove-unknown setup (1 ∷ []) [] (5 ∷ []) [] fresh refl

-- Context ID 5 of the default provider and context ID 8 of provider 2 have the entries 3.
abbrev shared_view : Key ℕ → Option Bytes
shared_view (key_to_cid b) = some (3 ∷ [])
shared_view (key_to_metadata b) = some (6 ∷ [])
shared_view _ = none

abbrev shared : Engine setup
shared = engine shared_view

shared_cid : (p ctx : Bytes) → view setup shared (key_to_cid_key setup p ctx) ≡ some (3 ∷ [])
unfolding key_to_cid_key
shared_cid p ctx = refl

shared_metadata :
    (p ctx : Bytes) → view setup shared (key_to_metadata_key setup p ctx) ≡ some (6 ∷ [])
unfolding key_to_metadata_key
shared_metadata p ctx = refl

put-again_example :
    Post
      (publish_adv_for_index setup (1 ∷ []) [] (5 ∷ []) (6 ∷ []) false)
      shared
      (λ _ _. ⊥)
      (Refused setup shared)
unfolding program decide
put-again_example =
    put-again setup (1 ∷ []) [] (5 ∷ []) (6 ∷ []) (6 ∷ []) (6 ∷ []) 3 shared
      (shared_cid (1 ∷ []) (5 ∷ [])) (shared_metadata (1 ∷ []) (5 ∷ [])) refl refl

remove-Forgets_example :
    Post
      (publish_adv_for_index setup (1 ∷ []) [] (5 ∷ []) [] true)
      shared
      (λ _ t. Forgets setup (1 ∷ []) (5 ∷ []) 3 (view setup shared) (view setup t))
      (Anything setup)
remove-Forgets_example =
    remove-Forgets setup (1 ∷ []) [] (5 ∷ []) [] 3 shared (shared_cid (1 ∷ []) (5 ∷ []))

keys_apart : key_to_cid_key setup (2 ∷ []) (8 ∷ []) ≢ key_to_cid_key setup (1 ∷ []) (5 ∷ [])
unfolding program key_to_cid_key
keys_apart p = cc

remove-orphans_example :
    Post
      (publish_adv_for_index setup (1 ∷ []) [] (5 ∷ []) [] true)
      shared
      (λ _ t.
        (view setup t (key_to_cid_key setup (2 ∷ []) (8 ∷ [])) ≡ some (3 ∷ []))
        × Post (get_cid_key_map setup 3) t (λ _ _. ⊥) (λ _ u. Unchanged setup t u))
      (λ _ _. Unit)
remove-orphans_example =
    remove-orphans setup (1 ∷ []) [] (5 ∷ []) [] (2 ∷ []) (8 ∷ []) 3 shared
      (shared_cid (1 ∷ []) (5 ∷ [])) (shared_cid (2 ∷ []) (8 ∷ [])) keys_apart

-- An engine that is started again after it published the advertisement 7.
abbrev published_view : Key ℕ → Option Bytes
published_view latest_adv = some (7 ∷ [])
published_view (block c) = ite (ℕ_discrete c 7) (some (1 ∷ [])) none
published_view _ = none

abbrev restarted : Engine setup
restarted = engine published_view

publish_latest-Offered_example :
    Post
      (publish_latest setup)
      restarted
      (λ c t. (c ≡ some 7) × Offered setup (some 7) restarted t)
      (λ _ t. Unchanged setup restarted t)
publish_latest-Offered_example = publish_latest-Offered setup 7 none restarted refl refl

-- Every block of one byte is taken for an advertisement.
abbrev signature_of : Bytes → Result Bool
signature_of [] = err external
signature_of (x ∷ b) = ok true

has_signature_of : (b : Bytes) → b ≡ 1 ∷ [] → signature_of b ≡ ok true
has_signature_of b h = ap (λ x. signature_of x) h

abbrev readers : Readers setup
readers = record {
  raw = λ c s. (ok none, s);
  has_signature = signature_of;
  has_signature-encode = λ a c b h. has_signature_of b (block_of-bytes a c b h).0;
  has_signature-empty = λ b h. cc (h);
  peer_from_bytes = λ b. ok b;
  error_hook = none;
}

publish_local-read_opener_example :
    Post
      (publish_local setup first_ad)
      fresh
      (λ c t.
        Post
          (read_opener setup readers c)
          t
          (λ o u.
            (b : Bytes) × (o ≡ some b) × (sample.decode b ≡ ok first_ad) × Unchanged setup t u)
          (λ _ _. ⊥))
      (λ _ _. Unit {0})
publish_local-read_opener_example =
    publish_local-read_opener setup readers none [] first_ad fresh tt
      (λ c b h p. cc (sym (block_of-bytes first_ad c b h).2 ∙ p)) refl (refl, tt)

-- With a hook that removes the latest advertisement from the datastore and returns nil.
abbrev hooked_readers : Readers setup
hooked_readers = record readers { error_hook = some (λ c x e. (ok none, fresh)) }
