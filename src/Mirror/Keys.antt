-- ===== src/Mirror/Keys.antt =====
-- The keys that a mirror uses in its datastore.
use index_provider.Prelude.{◌≡◌, refl, ◌∙◌, Option, some}
use index_provider.Schema.{Bytes}

-- A block under its link's bytes, the two references, and the entries "mirrored-entries-link".
pub data Key (Cid : Type 0) : Type 0 where
  block : Cid → Key Cid
  latest_mirrored latest_original : Key Cid
  mirrored_entries_link : Cid → Key Cid

unfoldable pub key_discrete : {Cid : Type 0} → Discrete Cid → Discrete (Key Cid)
key_discrete dec = hlevel dec

-- No block is lost or changed, and the references stay.
pub record Grown {Cid : Type 0} (v w : Key Cid → Option Bytes) : Type 0 where
  pub blocks : (c : Cid) (b : Bytes) → v (block c) ≡ some b → w (block c) ≡ some b
  pub mirrored : w latest_mirrored ≡ v latest_mirrored
  pub original : w latest_original ≡ v latest_original

pub Grown-refl : {Cid : Type 0} (v : Key Cid → Option Bytes) → Grown v v
Grown-refl v = record { blocks = λ c b h. h; mirrored = refl; original = refl }

pub Grown-trans :
    {Cid : Type 0} (u v w : Key Cid → Option Bytes) → Grown u v → Grown v w → Grown u w
Grown-trans u v w p q = record {
  blocks = λ c b h. q.blocks c b (p.blocks c b h);
  mirrored = q.mirrored ∙ p.mirrored;
  original = q.original ∙ p.original;
}
