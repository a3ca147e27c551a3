-- ===== src/Supplier.antt =====
-- supplier/car_supplier.go: the CAR files that a provider advertises, over an engine that is given.
pub mod Kept
pub mod OverEngine
mod Tests
use index_provider.Prelude.{◌≡◌, Bool, true, false, Option, none, some, List, [], ◌∷◌, ℕ}
use index_provider.Exec.{
  Error, text, Result, ok, err, and_then, Exec, pure, raise, lift, zoom, ◌>>=◌, ◌>>◌,
}
use index_provider.Datastore.{Datastore}
use index_provider.Datastore.Queries.{Queries}
use index_provider.Schema.{Bytes, PeerId}
use index_provider.Engine.Keys.{bytes_discrete}
use index_provider.Iterators.{IteratorStep, SliceMhIterator, car_multihash_iterator}

-- What the supplier calls of `provider.Interface`. `notify_put` is without a provider, `notify_remove`
-- with the empty one, which both mean the default one.
pub record Interface (Cid Metadata : Type 0) : Type 1 where
  pub State : Type 0
  pub notify_put : Bytes → Metadata → Exec State Cid
  pub notify_remove : Bytes → Exec State Cid

-- go-car: opening a file, the reader of its index, or `none` if it has no index, and indexes. `steps` are
-- what `ForEach` gives.
pub record Cars : Type 1 where
  pub Reader : Type 0
  pub Index : Type 0
  pub Iterable : Type 0
  pub open_reader : Bytes → Result Reader
  pub index_reader : Reader → Result (Option Bytes)
  pub read_index : Bytes → Result Index
  -- `CarMultihashIndexSorted`
  pub is_sorted : Index → Bool
  pub as_iterable : Index → Option Iterable
  pub Data : Type 0
  pub data_reader : Reader → Result Data
  -- `LoadIndex` into a new sorted index
  pub load_index : Data → Result Iterable
  pub steps : Iterable → Result (List IteratorStep)
  pub sort : List IteratorStep → List IteratorStep

pub record Setup : Type 1 where
  pub Cid : Type 0
  pub Metadata : Type 0
  pub engine : Interface Cid Metadata
  pub cars : Cars
  -- The paths under `toCarIdKey` of a context ID
  pub store : Datastore Bytes Bytes bytes_discrete
  pub queries : Queries store
  -- `filepath.Clean`
  pub clean : Bytes → Bytes

-- `ErrNotFound` of the supplier
abbrev pub no_iterator : Error
no_iterator = text "no CID iterator found for given key"

module _ (G : Setup) where
  open G use {Cid, Metadata, engine as I, cars as C, store as D, queries, clean}

  pub record CarSupplier : Type 0 where
    pub ds : D.State
    pub eng : I.State

  abbrev pub with_ds : CarSupplier → D.State → CarSupplier
  with_ds s d = record s { ds = d }

  unfoldable pub on_ds : {A : Type 0} → Exec D.State A → Exec CarSupplier A
  unfolding zoom
  on_ds = zoom (λ s. s.ds) with_ds

  abbrev pub with_eng : CarSupplier → I.State → CarSupplier
  with_eng s e = record s { eng = e }

  unfoldable pub on_eng : {A : Type 0} → Exec I.State A → Exec CarSupplier A
  unfolding zoom
  on_eng = zoom (λ s. s.eng) with_eng

  unfoldable pub put_car : Bytes → Bytes → Metadata → Exec CarSupplier Cid
  unfolding ◌>>=◌ on_ds on_eng
  put_car ctx path md = do on_ds (D.put ctx (clean path)); on_eng (I.notify_put ctx md)

  unfoldable pub remove_known : Bytes → Bool → Exec CarSupplier Cid
  unfolding ◌>>=◌ on_ds on_eng
  remove_known ctx false = raise no_iterator
  remove_known ctx true = do on_ds (D.delete ctx); on_eng (I.notify_remove ctx)

  unfoldable pub remove_car : Bytes → Exec CarSupplier Cid
  unfolding ◌>>=◌ on_ds remove_known
  remove_car ctx = do has ← on_ds (D.has ctx); remove_known ctx has

  unfoldable pub paths_of : List (Result (Bytes × Bytes)) → Result (List Bytes)
  paths_of [] = ok []
  paths_of (err e ∷ rs) = err e
  paths_of (ok (k, p) ∷ rs) = and_then (paths_of rs) (λ ps. ok (p ∷ ps))

  unfoldable pub list_cars : Exec CarSupplier (List Bytes)
  unfolding ◌>>=◌ on_ds paths_of
  list_cars = do rs ← on_ds (queries.query (λ _. true)); lift (paths_of rs)

  unfoldable pub path_or_missing : Option Bytes → Exec CarSupplier Bytes
  path_or_missing none = raise no_iterator
  path_or_missing (some p) = pure p

  unfoldable pub get_path : Bytes → Exec CarSupplier Bytes
  unfolding ◌>>=◌ on_ds path_or_missing
  get_path ctx = do o ← on_ds (D.get ctx); path_or_missing o

  unfoldable pub generate_iterable_index : C.Reader → Result C.Iterable
  generate_iterable_index r = and_then (C.data_reader r) C.load_index

  unfoldable pub iterable_or_load : C.Reader → Option C.Iterable → Result C.Iterable
  unfolding generate_iterable_index
  iterable_or_load r none = generate_iterable_index r
  iterable_or_load r (some i) = ok i

  unfoldable pub if_sorted : C.Reader → C.Index → Bool → Result C.Iterable
  unfolding iterable_or_load
  if_sorted r idx false = generate_iterable_index r
  if_sorted r idx true = iterable_or_load r (C.as_iterable idx)

  -- An index that is missing, or of another kind, is generated.
  unfoldable pub index_or_load : C.Reader → Option Bytes → Result C.Iterable
  unfolding if_sorted
  index_or_load r none = generate_iterable_index r
  index_or_load r (some b) = and_then (C.read_index b) (λ idx. if_sorted r idx (C.is_sorted idx))

  unfoldable pub open_index : Bytes → Result C.Iterable
  unfolding index_or_load
  open_index path =
      and_then (C.open_reader path) (λ r. and_then (C.index_reader r) (index_or_load r))

  unfoldable pub lookup_iterable_index : Bytes → Exec CarSupplier C.Iterable
  unfolding ◌>>=◌ get_path open_index
  lookup_iterable_index ctx = do path ← get_path ctx; lift (open_index path)

  unfoldable pub list_multihashes : PeerId → Bytes → Exec CarSupplier SliceMhIterator
  unfolding ◌>>=◌ lookup_iterable_index car_multihash_iterator
  list_multihashes p ctx = do
    idx ← lookup_iterable_index ctx
    lift (car_multihash_iterator C.sort (C.steps idx))
