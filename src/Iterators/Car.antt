-- ===== src/Iterators/Car.antt =====
-- What `CarMultihashIterator` refuses.
use index_provider.Prelude.{List, map}
use index_provider.Schema.{Bytes}
use index_provider.Iterators.{IteratorStep}

abbrev mhs_of : List IteratorStep → List Bytes
mhs_of = map (λ s. s.mh)
