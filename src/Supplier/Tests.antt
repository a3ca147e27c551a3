-- ===== src/Supplier/Tests.antt =====
-- A supplier over a datastore in memory and an engine without a lister, and the theorems of the supplier
-- at it.
use index_provider.Prelude.{
  ℕ, ◌≡◌, ◌⊎◌, refl, true, false, none, some, [], ◌∷◌, ℕ_discrete, lookup, erase,
}
use index_provider.Exec.{ok}
use index_provider.Exec.Post.{Post}
use index_provider.Datastore.Assoc.{memory}
use index_provider.Datastore.Listed.{listed, listed_queries}
use index_provider.Schema.{Bytes}
use index_provider.Engine.{Engine}
use index_provider.Engine.Keys.{bytes_discrete, key_discrete, context_key}
use index_provider.Engine.Sample.{sample}
use index_provider.Engine.Publish.{publish_adv_for_index}
use index_provider.Supplier.{Setup, Cars, CarSupplier, put_car, remove_car}
use index_provider.Supplier.OverEngine.{engine_interface}
use index_provider.Supplier.Kept.{paths, Supplied, NotAgain, put_car-get_path, remove_car-NotAgain}

abbrev engine_setup : index_provider.Engine.Setup
engine_setup = record {
  libraries = sample;
  store = memory (key_discrete ℕ_discrete);
  Iterator = Bytes;
  Chunks = Unit {0};
  chunk = λ it s. (ok (some 3), s);
  config = record { provider = record { id = 1 ∷ []; addrs = [] }; no_publisher = false };
}

abbrev cars : Cars
cars = record {
  Reader = Bytes;
  Index = Bytes;
  Iterable = Bytes;
  open_reader = λ p. ok p;
  index_reader = λ r. ok none;
  read_index = λ b. ok b;
  is_sorted = λ i. true;
  as_iterable = λ i. some i;
  Data = Bytes;
  data_reader = λ r. ok r;
  load_index = λ d. ok d;
  steps = λ i. ok [];
  sort = λ l. l;
}

abbrev setup : Setup
setup = record {
  Cid = ℕ;
  Metadata = Bytes;
  engine = engine_interface engine_setup;
  cars = cars;
  store = listed bytes_discrete;
  queries = listed_queries bytes_discrete;
  clean = λ p. p;
}

abbrev idle : Engine engine_setup
idle = record {
  ds = λ k. none;
  entries_chunker = tt;
  publisher = some none;
  announced = [];
  mh_lister = none;
}

abbrev supplier : CarSupplier setup
supplier = record { ds = (5 ∷ [], 9 ∷ []) ∷ []; eng = idle }

program : Unit {0}
unfolding put_car remove_car publish_adv_for_index ℕ_discrete bytes_discrete key_discrete lookup
    context_key erase
program = tt

-- The engine does not know the context ID, and refuses to remove it.
remove_first : (remove_car setup (5 ∷ []) supplier).1.ds ≡ []
unfolding program
remove_first = refl

put_car-get_path_example :
    Post
      (put_car setup (5 ∷ []) (4 ∷ []) (6 ∷ []))
      supplier
      (λ _ t. Supplied setup (5 ∷ []) (4 ∷ []) t)
      (λ _ t. Supplied setup (5 ∷ []) (4 ∷ []) t ⊎ (paths setup t ≡ paths setup supplier))
put_car-get_path_example = put_car-get_path setup (5 ∷ []) (4 ∷ []) (6 ∷ []) supplier

remove_car-NotAgain_example :
    Post
      (remove_car setup (5 ∷ []))
      supplier
      (λ _ t. NotAgain setup (5 ∷ []) t)
      (λ _ t.
        NotAgain setup (5 ∷ []) t
        ⊎ ((paths setup t ≡ paths setup supplier) × (t.eng ≡ supplier.eng)))
remove_car-NotAgain_example = remove_car-NotAgain setup (5 ∷ []) supplier
