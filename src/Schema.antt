-- ===== src/Schema.antt =====
-- What the code takes from go-libipni, go-cid, go-ipld-prime and go-libp2p: the advertisement
-- (`schema.Advertisement`), identifiers of content and of peers, metadata, and the functions on
-- them. They are third-party code, so they are the fields of a record that the modules take as a
-- parameter, with what their documentation promises.
use index_provider.Prelude.{ℕ, ◌≡◌, ◌≢◌, Bool, Option, List}
use index_provider.Exec.{Result, ok, err, not_found}

abbrev pub Bytes : Type 0
Bytes = List ℕ

-- `peer.ID` is a Go string, and "" is no peer.
abbrev pub PeerId : Type 0
PeerId = Bytes

pub record Provider : Type 0 where
  pub id : Bytes
  pub addresses : List Bytes
  pub metadata : Bytes

pub record ExtendedProvider : Type 0 where
  pub providers : List Provider
  pub override : Bool

pub record Advertisement (Cid : Type 0) : Type 0 where
  pub previous_id : Option Cid
  pub provider : Bytes
  pub addresses : List Bytes
  pub entries : Cid
  pub context_id : Bytes
  pub metadata : Bytes
  pub is_rm : Bool
  pub extended_provider : Option ExtendedProvider
  pub signature : Option Bytes

pub record ProviderAndContext : Type 0 where
  pub provider : Bytes
  pub context_id : Bytes

pub record Libraries : Type 1 where
  -- `cid.Cid`; `cid.Undef` is the `none` of `Option Cid`
  pub Cid : Type 0
  pub cid_discrete : Discrete Cid
  pub cid_bytes : Cid → Bytes
  pub cid_from_bytes : Bytes → Result Cid
  pub cid_from_bytes-cid_bytes : (c : Cid) → cid_from_bytes (cid_bytes c) ≡ ok c
  pub cid_from_bytes_error : (b : Bytes) → cid_from_bytes b ≢ err not_found
  -- `schema.NoEntries`
  pub no_entries : Cid
  -- `metadata.Metadata`
  pub Metadata : Type 0
  pub empty_metadata : Metadata
  pub metadata_equal : Metadata → Metadata → Bool
  pub marshal_metadata : Metadata → Result Bytes
  pub unmarshal_metadata : Bytes → Result Metadata
  pub unmarshal_metadata_error : (b : Bytes) → unmarshal_metadata b ≢ err not_found
  -- `peer.ID`: its text, and its bytes
  pub peer_text : PeerId → Bytes
  pub peer_bytes : PeerId → Result Bytes
  -- `json.Marshal` and `json.Unmarshal` at `providerAndContext`
  pub marshal_pair : ProviderAndContext → Result Bytes
  pub unmarshal_pair : Bytes → Result ProviderAndContext
  pub unmarshal-marshal_pair :
      (p : ProviderAndContext) (b : Bytes) → marshal_pair p ≡ ok b → unmarshal_pair b ≡ ok p
  -- `Advertisement.Validate`, `Sign` with the engine's key, and `ToNode` followed by the link
  -- system's encoder and hasher: a block and the identifier computed from it
  pub validate : Advertisement Cid → Result (Unit {0})
  pub sign : Advertisement Cid → Result Bytes
  pub encode : Advertisement Cid → Result (Cid × Bytes)
  pub decode : Bytes → Result (Advertisement Cid)
  pub decode-encode :
      (a : Advertisement Cid) (c : Cid) (b : Bytes) → encode a ≡ ok (c, b) → decode b ≡ ok a
  -- the identifier is a collision-free hash of the block
  pub encode_hash :
      (a a' : Advertisement Cid) (c : Cid) (b b' : Bytes)
      → encode a ≡ ok (c, b)
      → encode a' ≡ ok (c, b')
      → b ≡ b'
