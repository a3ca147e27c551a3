-- ===== src/Engine/Frame.antt =====
-- What the steps of `publishAdvForIndex` before the publication leave alone: every block, the
-- reference to the latest advertisement, the publisher and the announcements.
use index_provider.Prelude.{◌≡◌, ◌≢◌, refl, ◌∙◌, Bool, Option, if◌then◌else◌}
use index_provider.Exec.{Error, Result, Exec, pure, raise, lift, gets, relabel, recover, ◌>>=◌}
use index_provider.Exec.Within.{
  Within, Within-pure, Within-raise, Within-lift, Within-gets, Within-relabel, Within-if,
  Within-bind, Within-recover,
}
use index_provider.Datastore.{update}
use index_provider.Schema.{Bytes}
use index_provider.Engine.{Setup, Engine}
use index_provider.Engine.Keys.{
  Key, key_to_cid, cid_to_key, cid_to_provider_and_key, key_to_metadata, latest_adv, block,
  key_discrete,
}

-- The keys of the four maps.
abbrev pub IsMapKey : {Cid : Type 0} → Key Cid → Type 0
IsMapKey latest_adv = ⊥
IsMapKey (block c) = ⊥
IsMapKey (key_to_cid b) = Unit
IsMapKey (cid_to_key c) = Unit
IsMapKey (cid_to_provider_and_key c) = Unit
IsMapKey (key_to_metadata b) = Unit

pub IsMapKey-ne-block : {Cid : Type 0} (k : Key Cid) (c : Cid) → IsMapKey k → k ≢ block c
IsMapKey-ne-block (key_to_cid b) c h = λ e. cc
IsMapKey-ne-block (cid_to_key b) c h = λ e. cc
IsMapKey-ne-block (cid_to_provider_and_key b) c h = λ e. cc
IsMapKey-ne-block (key_to_metadata b) c h = λ e. cc
IsMapKey-ne-block latest_adv c h = absurd h
IsMapKey-ne-block (block d) c h = absurd h

pub IsMapKey-ne-latest : {Cid : Type 0} (k : Key Cid) → IsMapKey k → k ≢ latest_adv
IsMapKey-ne-latest (key_to_cid b) h = λ e. cc
IsMapKey-ne-latest (cid_to_key b) h = λ e. cc
IsMapKey-ne-latest (cid_to_provider_and_key b) h = λ e. cc
IsMapKey-ne-latest (key_to_metadata b) h = λ e. cc
IsMapKey-ne-latest latest_adv h = absurd h
IsMapKey-ne-latest (block d) h = absurd h

module _ (G : Setup) where
  open G use {libraries as L, store as D}
  open G.libraries use {Cid}

  abbrev E : Type 0
  E = Engine G

  abbrev pub view : E → Key Cid → Option Bytes
  view e = D.view e.ds

  abbrev pub updated : (Key Cid → Option Bytes) → Key Cid → Option Bytes → Key Cid → Option Bytes
  updated = update (key_discrete L.cid_discrete)

  pub record Frame (e e' : E) : Type 0 where
    pub blocks : (c : Cid) → view e' (block c) ≡ view e (block c)
    pub latest : view e' latest_adv ≡ view e latest_adv
    pub publisher : e'.publisher ≡ e.publisher
    pub announced : e'.announced ≡ e.announced
    pub lister : e'.mh_lister ≡ e.mh_lister

  pub Frame-refl : (e : E) → Frame e e
  Frame-refl e = record {
    blocks = λ c. refl;
    latest = refl;
    publisher = refl;
    announced = refl;
    lister = refl;
  }

  pub Frame-trans : {a b c : E} → Frame a b → Frame b c → Frame a c
  Frame-trans p q = record {
    blocks = λ c. q.blocks c ∙ p.blocks c;
    latest = q.latest ∙ p.latest;
    publisher = q.publisher ∙ p.publisher;
    announced = q.announced ∙ p.announced;
    lister = q.lister ∙ p.lister;
  }

  -- The action leaves them alone, whether it returns or fails.
  abbrev pub IsQuiet : {A : Type 0} → Exec E A → Type 0
  IsQuiet = Within Frame

  trans : (a b c : E) → Frame a b → Frame b c → Frame a c
  trans a b c = Frame-trans

  module _ {A : Type 0} where
    pub IsQuiet-pure : (a : A) → IsQuiet (pure a)
    IsQuiet-pure = Within-pure Frame Frame-refl trans

    pub IsQuiet-raise : (x : Error) → IsQuiet (raise {A = A} x)
    IsQuiet-raise = Within-raise Frame Frame-refl trans

    pub IsQuiet-lift : (r : Result A) → IsQuiet (lift r)
    IsQuiet-lift = Within-lift Frame Frame-refl trans

    pub IsQuiet-gets : (f : E → A) → IsQuiet (gets f)
    IsQuiet-gets = Within-gets Frame Frame-refl trans

    pub IsQuiet-relabel : (f : Error → Error) (m : Exec E A) → IsQuiet m → IsQuiet (relabel f m)
    IsQuiet-relabel = Within-relabel Frame Frame-refl trans

    pub IsQuiet-if :
        (b : Bool) (m n : Exec E A) → IsQuiet m → IsQuiet n → IsQuiet (if b then m else n)
    IsQuiet-if = Within-if Frame Frame-refl trans

  module _ {A B : Type 0} where
    pub IsQuiet-bind :
        (m : Exec E A) (f : A → Exec E B)
        → IsQuiet m
        → ((a : A) → IsQuiet (f a))
        → IsQuiet (m >>= f)
    IsQuiet-bind = Within-bind Frame Frame-refl trans

    pub IsQuiet-recover :
        (m : Exec E A) (f : A → Exec E B) (g : Error → Exec E B)
        → IsQuiet m
        → ((a : A) → IsQuiet (f a))
        → ((x : Error) → IsQuiet (g x))
        → IsQuiet (recover m f g)
    IsQuiet-recover = Within-recover Frame Frame-refl trans
