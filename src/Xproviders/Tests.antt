-- ===== src/Xproviders/Tests.antt =====
-- A builder with one extended provider, and the theorems on building at it.
use index_provider.Prelude.{◌≡◌, refl, true, false, none, some, [], ◌∷◌}
use index_provider.Exec.{ok}
use index_provider.Schema.{Bytes, Advertisement}
use index_provider.Engine.Sample.{sample}
use index_provider.Xproviders.{Signing, Builder, build_and_sign}
use index_provider.Xproviders.Built.{Built, build_and_sign-succeeds}

abbrev signing : Signing
signing = record {
  libraries = sample;
  PrivKey = Bytes;
  Multiaddr = Bytes;
  addr_text = λ a. a;
  peer_decode = λ id. ok id;
  sign_with_extended_providers = λ a key keys. ok key;
}

-- The provider 1 with the extended provider 2.
abbrev builder : Builder signing
builder = record {
  provider_id = 1 ∷ [];
  priv_key = 8 ∷ [];
  addrs = (7 ∷ []) ∷ [];
  providers = record { id = 2 ∷ []; metadata = []; addrs = (6 ∷ []) ∷ []; priv = 9 ∷ [] } ∷ [];
  context_id = 5 ∷ [];
  metadata = [];
  override = true;
  last_ad_id = none;
  entries = none;
}

abbrev built : Advertisement sample.Cid
built = record {
  previous_id = none;
  provider = 1 ∷ [];
  addresses = (7 ∷ []) ∷ [];
  entries = 0;
  context_id = 5 ∷ [];
  metadata = [];
  is_rm = false;
  extended_provider = some (record {
    providers =
        record { id = 2 ∷ []; addresses = (6 ∷ []) ∷ []; metadata = [] }
        ∷ record { id = 1 ∷ []; addresses = (7 ∷ []) ∷ []; metadata = [] }
        ∷ [];
    override = true;
  });
  signature = some (8 ∷ []);
}

build_and_sign-succeeds_example :
    (a : Advertisement sample.Cid) × (build_and_sign signing builder ≡ ok a)
build_and_sign-succeeds_example =
    build_and_sign-succeeds signing builder (λ _ p. cc (p))
      (record { some_address = λ p. cc (p); peer = (2 ∷ [], refl) }, tt)
      (λ a keys h. (8 ∷ [], refl))
