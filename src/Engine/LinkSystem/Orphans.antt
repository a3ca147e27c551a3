-- ===== src/Engine/LinkSystem/Orphans.antt =====
-- Entries that were taken from the cache cannot be served when their mapping is gone, also if they
-- are still advertised.
use index_provider.Prelude.{◌≡◌, Option, none}
use index_provider.Exec.{Error, Result, ok, Exec}
use index_provider.Exec.Post.{Post}
use index_provider.Schema.{Bytes}
use index_provider.Engine.{Setup, Engine}
use index_provider.Engine.Keys.{block, cid_to_key, cid_to_provider_and_key}
use index_provider.Engine.Frame.{view}
use index_provider.Engine.Reads.{Unchanged}
use index_provider.Engine.LinkSystem.{Readers, Hook, report}

module _ (G : Setup) (K : Readers G) where
  open G use {libraries as L, store as D, Iterator}
  open G.libraries use {Cid}

  module _ (c : Cid) (e : Engine G) where
    -- Neither a block, nor a mapping of the entries.
    pub record Gone : Type 0 where
      pub no_block : view G e (block c) ≡ none
      pub no_legacy : view G e (cid_to_key c) ≡ none
      pub no_pair : view G e (cid_to_provider_and_key c) ≡ none

    abbrev Fails : {A : Type 0} → Exec (Engine G) A → Engine G → Type 0
    Fails m t = Post m t (λ _ _. ⊥) (λ _ u. Unchanged G e u)

    -- The chunker's cache does not have the link, and looking there changes nothing.
    abbrev pub NotCached : Type 0
    NotCached = (u : G.Chunks) → u ≡ e.entries_chunker → K.raw c u ≡ (ok none, u)

    -- The outcome is what becomes of an error, from a state in which nothing has changed.
    abbrev pub Reports : Option (Hook G K) → Result (Option Bytes) × Engine G → Type 0
    Reports h r = (x : Error) × (u : Engine G) × Unchanged G e u × (r ≡ report G K h c x u)
