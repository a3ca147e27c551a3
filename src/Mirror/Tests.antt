-- ===== src/Mirror/Tests.antt =====
-- A concrete mirror over a datastore in memory, and the theorems of the mirror at it.
use index_provider.Prelude.{ℕ, ◌↔◌, ◌≡◌, refl, false, Option, none, some, [], ◌∷◌, ℕ_discrete, ite}
use index_provider.Exec.{ok}
use index_provider.Exec.Post.{Post}
use index_provider.Datastore.Assoc.{memory}
use index_provider.Schema.{Bytes}
use index_provider.Engine.Keys.{bytes_discrete}
use index_provider.Engine.Sample.{first_ad, sample, adv_discrete}
use index_provider.Mirror.{Setup, Mirror, entry_chunk, with_chunker}
use index_provider.Mirror.Keys.{Key, key_discrete, block, Grown-refl}
use index_provider.Mirror.Reading.{read}
use index_provider.Mirror.Copying.{relinked, ad_changed, mirror, rechunk, round}
use index_provider.Mirror.Copying.Rounds.{Continues, round-Continues}
use index_provider.Exec.{panic}
use index_provider.Mirror.Copying.Published.{Copied, Recovers}
use index_provider.Mirror.Copying.Extended.{mirror-Copied}
use index_provider.Mirror.Copying.Succeeds.{mirror-succeeds}
use index_provider.Mirror.Copying.Succeeds.Working.{Works}
use index_provider.Mirror.Copying.Published.Copies.{ad_changed-relinked}
use index_provider.Mirror.Copying.Evicted.{rechunk-evicted}

-- The source has the blocks already sent; the chunker makes the link 4 of any entries, and its cache
-- keeps nothing.
abbrev setup : Setup
setup = record {
  libraries = sample;
  store = memory (key_discrete ℕ_discrete);
  verify = λ a. ok (1 ∷ []);
  kind_of = λ b. ok entry_chunk;
  Iterator = Bytes;
  iterator = λ k c b. ok b;
  Chunks = Unit {0};
  chunk = λ it u. (ok (some 4), u);
  raw = λ c u. (ok none, u);
  sync_entries = λ c s. (ok tt, s);
  sync_entries-Grown = λ c s. record { at = Grown-refl s };
  sync_ad_chain = λ stop depth s. (ok (7 ∷ []), s);
  sync_ad_chain-Grown = λ stop depth s. record { at = Grown-refl s };
  send = λ c. ok tt;
  config = record {
    no_source = false;
    always_re_sign_ads = false;
    remap_entries_enabled = false;
    skip_remap_on_entries_type_match = false;
    entries_remap_prototype = entry_chunk;
    init_ad_recur_limit = 0;
  };
}

-- The blocks of the advertisement, and of its entries.
abbrev synced_view : Key ℕ → Option Bytes
synced_view (block c) =
    ite (ℕ_discrete c 7) (some (1 ∷ [])) (ite (ℕ_discrete c 3) (some (9 ∷ [])) none)
synced_view _ = none

abbrev synced : Mirror setup
synced = record { ds = synced_view; chunker = tt; root = none; announced = [] }

program : Unit {0}
unfolding mirror rechunk read ℕ_discrete bytes_discrete key_discrete adv_discrete
program = tt

mirror_first : (mirror setup 1 7 synced).0 ≡ ok tt
unfolding program
mirror_first = refl

mirror-Copied_example :
    Post
      (mirror setup 1 7)
      synced
      (λ _ t. Copied setup 1 first_ad none [] synced t)
      (λ _ t. Recovers setup 1 first_ad none [] synced t)
unfolding program
mirror-Copied_example =
    mirror-Copied setup 1 first_ad none [] synced 7 1 [] 0 refl (refl, tt) refl refl (λ p. cc)

first_copy-Works : Works setup 1 first_ad none
unfolding program
first_copy-Works = record {
  reliable = tt;
  has_source = refl;
  keeps_entries = refl;
  syncs = λ d. record { at = tt };
  valid = refl;
  verified = (1 ∷ [], refl);
  signature = 9 ∷ [];
  signs = refl;
  copy_valid = refl;
  copy_encodes = ((7, 1 ∷ []), refl);
  sends = λ c. (tt, refl);
}

mirror-succeeds_example :
    Post (mirror setup 1 7) synced (λ _ t. Copied setup 1 first_ad none [] synced t) (λ _ _. ⊥)
unfolding program
mirror-succeeds_example =
    mirror-succeeds setup 1 first_ad none [] synced 7 1 [] 0 refl (refl, tt) refl refl (λ p. cc)
      first_copy-Works

ad_changed-relinked_example :
    (ad_changed setup 1 first_ad (relinked setup 1 first_ad (some 2) 3) ≡ false)
    ↔ (relinked setup 1 first_ad (some 2) 3 ≡ first_ad)
ad_changed-relinked_example = ad_changed-relinked setup 1 first_ad (some 2) 3

rechunk-evicted_example :
    Post
      (read setup 3 4)
      (with_chunker setup (rechunk setup 1 3 synced).1 tt)
      (λ _ _. ⊥)
      (λ _ _. Unit {0})
unfolding program
rechunk-evicted_example =
    rechunk-evicted setup 1 3 synced 4 (rechunk setup 1 3 synced).1 tt 3 refl (λ p. cc) refl refl
      refl

round-Continues_example :
    Post
      (round setup 1)
      synced
      (λ _ t. Continues setup 1 [] t)
      (λ e t. (e ≡ panic) × Continues setup 1 [] t)
round-Continues_example = round-Continues setup 1 [] none synced (refl, tt)
