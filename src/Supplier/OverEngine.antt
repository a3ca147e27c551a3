-- ===== src/Supplier/OverEngine.antt =====
-- The engine of this repository as the interface that the supplier calls.
use index_provider.Prelude.{none, []}
use index_provider.Engine.{Engine}
use index_provider.Engine.Publish.{notify_put, notify_remove}
use index_provider.Supplier.{Interface}

abbrev pub engine_interface :
    (E : index_provider.Engine.Setup) → Interface E.libraries.Cid E.libraries.Metadata
engine_interface E = record {
  State = Engine E;
  notify_put = notify_put E none;
  notify_remove = notify_remove E [];
}
