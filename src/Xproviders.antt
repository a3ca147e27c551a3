-- ===== src/Xproviders.antt =====
-- engine/xproviders/xproviders.go: building an advertisement with extended providers.
pub mod Built
pub mod Keys
mod Tests
use index_provider.Prelude.{
  ◌≡◌, Bool, true, false, Option, none, some, List, [], ◌∷◌, ◌++◌, map, lookup,
}
use index_provider.Exec.{Error, text, Result, ok, err, and_then}
use index_provider.Schema.{Bytes, PeerId, Advertisement, ExtendedProvider, Provider, Libraries}
use index_provider.Engine.Keys.{bytes_discrete}

pub record Info (PrivKey : Type 0) : Type 0 where
  pub id : Bytes
  pub metadata : Bytes
  pub addrs : List Bytes
  pub priv : PrivKey

pub record AdBuilder (Cid PrivKey : Type 0) : Type 0 where
  pub provider_id : Bytes
  pub priv_key : PrivKey
  pub addrs : List Bytes
  pub providers : List (Info PrivKey)
  pub context_id : Bytes
  pub metadata : Bytes
  pub override : Bool
  pub last_ad_id : Option Cid
  pub entries : Option Cid

-- `peer.Decode`, the texts of peer IDs and of addresses, and `SignWithExtendedProviders`, whose
-- signatures, of the advertisement and of its extended providers, stand for one value. It is given the
-- main provider's key, and looks the other providers' keys up by their IDs.
pub record Signing : Type 1 where
  pub libraries : Libraries
  pub PrivKey : Type 0
  pub Multiaddr : Type 0
  pub addr_text : Multiaddr → Bytes
  pub peer_decode : Bytes → Result PeerId
  pub sign_with_extended_providers :
      Advertisement libraries.Cid → PrivKey → (Bytes → Result PrivKey) → Result Bytes

module _ (S : Signing) where
  open S use {libraries as L, PrivKey, Multiaddr}
  open S.libraries use {Cid}

  abbrev pub Builder : Type 0
  Builder = AdBuilder Cid PrivKey

  unfoldable pub multiaddrs_to_strings : List Multiaddr → List Bytes
  multiaddrs_to_strings [] = []
  multiaddrs_to_strings (a ∷ as') = S.addr_text a ∷ multiaddrs_to_strings as'

  unfoldable pub new_ad_builder : PeerId → PrivKey → List Multiaddr → Builder
  unfolding multiaddrs_to_strings
  new_ad_builder p key addrs = record {
    provider_id = L.peer_text p;
    priv_key = key;
    addrs = multiaddrs_to_strings addrs;
    providers = [];
    context_id = [];
    metadata = [];
    override = false;
    last_ad_id = none;
    entries = none;
  }

  unfoldable pub new_info : PeerId → PrivKey → Bytes → List Multiaddr → Info PrivKey
  unfolding multiaddrs_to_strings
  new_info p key md addrs = record {
    id = L.peer_text p;
    metadata = md;
    addrs = multiaddrs_to_strings addrs;
    priv = key;
  }

  unfoldable pub with_context_id : Bytes → Builder → Builder
  with_context_id ctx b = record b { context_id = ctx }

  unfoldable pub with_metadata : Bytes → Builder → Builder
  with_metadata md b = record b { metadata = md }

  unfoldable pub with_override : Bool → Builder → Builder
  with_override o b = record b { override = o }

  unfoldable pub with_extended_providers : List (Info PrivKey) → Builder → Builder
  with_extended_providers eps b = record b { providers = b.providers ++ eps }

  unfoldable pub with_last_ad_id : Option Cid → Builder → Builder
  with_last_ad_id c b = record b { last_ad_id = c }

  unfoldable pub with_entries : Option Cid → Builder → Builder
  with_entries c b = record b { entries = c }

  -- `epMap`: the newest entry of an ID counts.
  abbrev pub EpMap : Type 0
  EpMap = List (Bytes × Info PrivKey)

  abbrev pub provider_of : Info PrivKey → Provider
  provider_of i = record { id = i.id; addresses = i.addrs; metadata = i.metadata }

  unfoldable pub check_context : Bytes → Bool → Result (Unit {0})
  check_context [] true = err (text "override is true for empty context")
  check_context [] false = ok tt
  check_context (x ∷ ctx) o = ok tt

  unfoldable pub check_id : Result PeerId → Result (Unit {0})
  check_id (ok p) = ok tt
  check_id (err e) = err (text "invalid extended provider peer id")

  unfoldable pub check_info : Bytes → List Bytes → Result (Unit {0})
  unfolding check_id
  check_info id [] = err (text "addresses of an extended provider can not be empty")
  check_info id (a ∷ addrs) = check_id (S.peer_decode id)

  unfoldable pub collect :
      List (Info PrivKey) → List Provider → EpMap → Result (List Provider × EpMap)
  unfolding check_info
  collect [] ps m = ok (ps, m)
  collect (i ∷ infos) ps m =
      and_then (check_info i.id i.addrs)
        (λ _. collect infos (ps ++ (provider_of i ∷ [])) ((i.id, i) ∷ m))

  abbrev pub main_of : Builder → Provider
  main_of b = record { id = b.provider_id; addresses = b.addrs; metadata = b.metadata }

  -- The main provider has to be on the list too.
  unfoldable pub with_main : Builder → Option (Info PrivKey) → List Provider → List Provider
  with_main b none ps = ps ++ (main_of b ∷ [])
  with_main b (some i) ps = ps

  unfoldable pub list_providers : Builder → List (Info PrivKey) → Result (List Provider × EpMap)
  unfolding collect with_main lookup bytes_discrete
  list_providers b [] = ok ([], [])
  list_providers b (i ∷ infos) =
      and_then (collect (i ∷ infos) [] [])
        (λ r. ok (with_main b (lookup bytes_discrete b.provider_id r.1) r.0, r.1))

  unfoldable pub key_of : Option (Info PrivKey) → Result PrivKey
  key_of none = err (text "unknown provider")
  key_of (some i) = ok i.priv

  unfoldable pub key_for : EpMap → Bytes → Result PrivKey
  unfolding key_of lookup bytes_discrete
  key_for m id = key_of (lookup bytes_discrete id m)

  abbrev pub or_no_entries : Option Cid → Cid
  or_no_entries none = L.no_entries
  or_no_entries (some c) = c

  abbrev pub unsigned : Builder → List Provider → Advertisement Cid
  unsigned b ps = record {
    previous_id = b.last_ad_id;
    provider = b.provider_id;
    addresses = b.addrs;
    entries = or_no_entries b.entries;
    context_id = b.context_id;
    metadata = b.metadata;
    is_rm = false;
    extended_provider = some (record { providers = ps; override = b.override });
    signature = none;
  }

  unfoldable pub sign_built : Builder → List Provider × EpMap → Result (Advertisement Cid)
  unfolding key_for
  sign_built b (ps, m) =
      and_then (S.sign_with_extended_providers (unsigned b ps) b.priv_key (key_for m))
        (λ s. ok (record (unsigned b ps) { signature = some s }))

  unfoldable pub build_checked : Builder → Result (Advertisement Cid)
  unfolding list_providers sign_built
  build_checked b = and_then (list_providers b b.providers) (sign_built b)

  unfoldable pub build_and_sign : Builder → Result (Advertisement Cid)
  unfolding check_context build_checked
  build_and_sign b = and_then (check_context b.context_id b.override) (λ _. build_checked b)
