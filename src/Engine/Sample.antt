-- ===== src/Engine/Sample.antt =====
-- Concrete functions in place of the third-party ones, for tests: identifiers are numbers, and one
-- advertisement can be encoded.
use index_provider.Prelude.{
  ℕ, ◌≡◌, ◌≢◌, refl, sym, ap, ◌∙◌, false, none, some, List, [], ◌∷◌, ite, if_pos, if_neg,
  ℕ_discrete,
}
use mathlib.Core.Bool.{decide}
use index_provider.Exec.{external, not_found, Result, ok, err, ok-injective}
use index_provider.Schema.{Bytes, Advertisement, ProviderAndContext, Libraries}
use index_provider.Engine.Keys.{bytes_discrete}

pub ok-ne-err : (b : Bytes) → ok b ≢ err not_found
ok-ne-err b p = cc

unfoldable pub adv_discrete : Discrete (Advertisement ℕ)
adv_discrete = hlevel ℕ_discrete

-- The advertisement of context ID 5 of provider 1, the first of its chain.
abbrev pub first_ad : Advertisement ℕ
first_ad = record {
  previous_id = none;
  provider = 1 ∷ [];
  addresses = [];
  entries = 3;
  context_id = 5 ∷ [];
  metadata = 6 ∷ [];
  is_rm = false;
  extended_provider = none;
  signature = some (9 ∷ []);
}

abbrev from_bytes : Bytes → Result ℕ
from_bytes [] = err external
from_bytes (c ∷ []) = ok c
from_bytes (c ∷ d ∷ b) = err external

pub from_bytes_error : (b : Bytes) → from_bytes b ≢ err not_found
from_bytes_error [] = λ p. cc
from_bytes_error (c ∷ []) = λ p. cc
from_bytes_error (c ∷ d ∷ b) = λ p. cc

abbrev from_pair : ProviderAndContext → Result Bytes
from_pair pc = elim pc.provider [
  | [] ↦ err external
  | x ∷ rest ↦ elim rest [ [] ↦ ok (x ∷ pc.context_id) | _ ∷ _ ↦ err external ]
]

abbrev to_pair : Bytes → Result ProviderAndContext
to_pair [] = err external
to_pair (x ∷ ctx) = ok (record { provider = x ∷ []; context_id = ctx })

pub to_from_pair :
    (p : List ℕ) (ctx b : Bytes)
    → from_pair (record { provider = p; context_id = ctx }) ≡ ok b
    → to_pair b ≡ ok (record { provider = p; context_id = ctx })
to_from_pair [] ctx b h = absurd (cc)
to_from_pair (x ∷ []) ctx b h = ap (λ c. to_pair c) (sym (ok-injective _ _ h))
to_from_pair (x ∷ y ∷ p) ctx b h = absurd (cc)

abbrev pub block_of : Advertisement ℕ → Result (ℕ × Bytes)
block_of a = ite (adv_discrete a first_ad) (ok (7, 1 ∷ [])) (err external)

pub block_of-bytes :
    (a : Advertisement ℕ) (c : ℕ) (b : Bytes)
    → block_of a ≡ ok (c, b)
    → (b ≡ 1 ∷ []) × (a ≡ first_ad) × (c ≡ 7)
block_of-bytes a c b h = elim (adv_discrete a first_ad) [
  | yes p ↦
      let q = sym (
        ok-injective _ _
          (sym (if_pos (adv_discrete a first_ad) p (ok (7, 1 ∷ [])) (err external)) ∙ h)) in
      (ap (λ r. r.1) q, p, ap (λ r. r.0) q)
  | no p ↦ absurd (
      cc (
        if_neg {C = Result (ℕ × Bytes)} (adv_discrete a first_ad) p (ok (7, 1 ∷ []))
          (err external)))
]

abbrev pub sample : Libraries
sample = record {
  Cid = ℕ;
  cid_discrete = ℕ_discrete;
  cid_bytes = λ c. c ∷ [];
  cid_from_bytes = from_bytes;
  cid_from_bytes-cid_bytes = λ c. refl;
  cid_from_bytes_error = from_bytes_error;
  no_entries = 0;
  Metadata = Bytes;
  empty_metadata = [];
  metadata_equal = λ a b. decide (bytes_discrete a b);
  marshal_metadata = λ m. ok m;
  unmarshal_metadata = λ b. ok b;
  unmarshal_metadata_error = ok-ne-err;
  peer_text = λ p. p;
  peer_bytes = λ p. ok p;
  marshal_pair = from_pair;
  unmarshal_pair = to_pair;
  unmarshal-marshal_pair = λ p b h. to_from_pair p.provider p.context_id b h;
  validate = λ a. ok tt;
  sign = λ a. ok (9 ∷ []);
  encode = block_of;
  decode = λ b. ok first_ad;
  decode-encode = λ a c b h. ap (λ x. ok x) (sym (block_of-bytes a c b h).1);
  encode_hash = λ a a' c b b' h h'. (block_of-bytes a c b h).0 ∙ sym (block_of-bytes a' c b' h').0;
}
