-- ===== src/Mirror.antt =====
-- mirror/mirror.go and mirror/store.go: a mirror of the advertisement chain of another provider, which may
-- chunk the entries anew.
pub mod Keys
pub mod Reading
pub mod Copying
mod Tests
use index_provider.Prelude.{ℕ, Bool, true, false, Option, none, some, List, [], ◌∷◌, not}
use index_provider.Exec.{Error, Result, Exec, zoom}
use index_provider.Exec.Post.{Post}
use index_provider.Datastore.{Datastore}
use index_provider.Schema.{Bytes, PeerId, Advertisement, Libraries}
use Keys.{Key, key_discrete, Grown}

-- What `loadEntries` and `getEntriesPrototype` tell apart.
pub data Kind : Type 0 where
  entry_chunk hamt unknown : Kind

pub kind_discrete : Discrete Kind
kind_discrete = hlevel

pub record Config : Type 0 where
  -- `len(m.source.Addrs) == 0`
  pub no_source : Bool
  pub always_re_sign_ads : Bool
  pub remap_entries_enabled : Bool
  pub skip_remap_on_entries_type_match : Bool
  pub entries_remap_prototype : Kind
  pub init_ad_recur_limit : ℕ

pub record Setup : Type 1 where
  pub libraries : Libraries
  pub store : Datastore (Key libraries.Cid) Bytes (key_discrete libraries.cid_discrete)
  -- `Advertisement.VerifySignature`
  pub verify : Advertisement libraries.Cid → Result PeerId
  -- The kind of a block, and the iterator over the entries from a block on.
  pub kind_of : Bytes → Result Kind
  pub Iterator : Type 0
  pub iterator : Kind → libraries.Cid → Bytes → Result Iterator
  -- `CachedEntriesChunker`: `Chunk`, where `none` is a nil link, and `GetRawCachedChunk`, where `none` is
  -- a nil slice
  pub Chunks : Type 0
  pub chunk : Iterator → Exec Chunks (Option libraries.Cid)
  pub raw : libraries.Cid → Exec Chunks (Option Bytes)
  -- `dagsync.Subscriber`, which stores the blocks that it gets through the link system. `sync_ad_chain` is
  -- given the head to start at (`WithHeadAdCid`) and
  -- the depth limit, and returns the links that the block hook saw, in that order.
  pub sync_entries : libraries.Cid → Exec store.State (Unit {0})
  pub sync_entries-Grown :
      (c : libraries.Cid) (s : store.State)
      → Post
          (sync_entries c)
          s
          (λ _ t. Grown (store.view s) (store.view t))
          (λ _ t. Grown (store.view s) (store.view t))
  pub sync_ad_chain : Option libraries.Cid → ℕ → Exec store.State (List libraries.Cid)
  pub sync_ad_chain-Grown :
      (head : Option libraries.Cid) (depth : ℕ) (s : store.State)
      → Post
          (sync_ad_chain head depth)
          s
          (λ _ t. Grown (store.view s) (store.view t))
          (λ _ t. Grown (store.view s) (store.view t))
  -- `announce.Send`
  pub send : libraries.Cid → Result (Unit {0})
  pub config : Config

module _ (G : Setup) where
  open G use {libraries as L, store as D, Chunks}
  open G.libraries use {Cid}

  pub record Mirror : Type 0 where
    pub ds : D.State
    pub chunker : Chunks
    -- the root of the publisher, and what was announced, the newest first
    pub root : Option Cid
    pub announced : List Cid

  abbrev pub with_ds : Mirror → D.State → Mirror
  with_ds m d = record m { ds = d }

  unfoldable pub on_ds : {A : Type 0} → Exec D.State A → Exec Mirror A
  unfolding zoom
  on_ds = zoom (λ m. m.ds) with_ds

  abbrev pub with_chunker : Mirror → Chunks → Mirror
  with_chunker m c = record m { chunker = c }

  unfoldable pub on_chunker : {A : Type 0} → Exec Chunks A → Exec Mirror A
  unfolding zoom
  on_chunker = zoom (λ m. m.chunker) with_chunker

  abbrev pub view : Mirror → Key Cid → Option Bytes
  view m = D.view m.ds
