-- ===== src/Routing/Sample.antt =====
-- A listener over a datastore in memory and an engine that can be made to refuse.
use index_provider.Prelude.{
  arith, ℕ, ◌≡◌, refl, sym, ap, ◌∙◌, ◌==◌, if◌then◌else◌, Bool, true, false, none, List, [], ◌∷◌,
  ◌++◌, length, take, drop, ℕ_discrete, map,
}
use index_provider.Exec.{external, Result, ok, err, ok-injective, Exec}
use index_provider.Exec.Post.{Outcome}
use index_provider.Exec.Within.{Within}
use index_provider.Datastore.Listed.{listed, listed_queries, listed_pages}
use index_provider.Schema.{Bytes, PeerId}
use index_provider.Engine.{AddrInfo}
use index_provider.Routing.Queue.{
  CidNode, CidQueue, new_cid_queue, record_cid_node, assign_cids_chunk,
}
use index_provider.Routing.Queue.Links.{IsLinked}
use index_provider.Routing.Queue.Kept.{new_cid_queue-IsLinked, assign_cids_chunk-IsLinked}
use index_provider.Routing.Queue.Recorded.{record_cid_node-recorded}
use index_provider.Routing.State.{Setup, Listener, CidsChunk, Notifier, key_discrete}

-- The engine asks for the multihashes unless it refuses.
abbrev asked : {S : Type 0} → Result (List Bytes) × S → Result (Unit {0}) × (Bool × S)
asked (ok hs, t) = (ok tt, (false, t))
asked (err e, t) = (err e, (false, t))

abbrev notify :
    (S : Type 0)
    → (PeerId → Bytes → Exec S (List Bytes))
    → AddrInfo
    → Bytes
    → Exec (Bool × S) (Unit {0})
notify S lister p ctx (true, s) = (err external, (true, s))
notify S lister p ctx (false, s) = asked (lister p.id ctx s)

asked_lem :
    {S : Type 0} (R : S → S → Type 0) (s : S) (r : Result (List Bytes) × S)
    → Outcome r (λ _ t. R s t) (λ _ t. R s t)
    → Outcome (asked r) (λ _ t. R s t.1) (λ _ t. R s t.1)
asked_lem R s (ok hs, t) h = h
asked_lem R s (err e, t) h = h

pub notify_lem :
    (S : Type 0) (R : S → S → Type 0) (lister : PeerId → Bytes → Exec S (List Bytes)) (p : AddrInfo)
    (ctx : Bytes) (b : Bool) (s : S)
    → R s s
    → Within R (lister p.id ctx)
    → Outcome (notify S lister p ctx (b, s)) (λ _ t. R s t.1) (λ _ t. R s t.1)
notify_lem S R lister p ctx true s r w = r
notify_lem S R lister p ctx false s r w = asked_lem R s (lister p.id ctx s) (w.at s).at

abbrev notifier : Notifier
notifier = record {
  State = Bool;
  notify_put = notify;
  notify_remove = λ p ctx b. (ok tt, b);
  notify_put-Within = λ S R lister p ctx same trans h. record {
    at = λ x. record { at = notify_lem S R lister p ctx x.0 x.1 (same x.1) (h p.id ctx) };
  };
}

-- The flag, the length of the context ID, the context ID, and the CIDs.
abbrev flag : Bool → ℕ
flag true = 1
flag false = 0

abbrev pub encoded : CidsChunk ℕ → Bytes
encoded ch = flag ch.removed ∷ length ch.context_id ∷ ch.context_id ++ ch.cids

abbrev decoded : Bytes → Result (CidsChunk ℕ)
decoded [] = err external
decoded (f ∷ []) = err external
decoded (f ∷ n ∷ b) = ok (record { context_id = take n b; cids = drop n b; removed = f == 1 })

take-length : (a b : List ℕ) → take (length a) (a ++ b) ≡ a
take-length [] b = refl
take-length (x ∷ a) b = ap (◌∷◌ x) (take-length a b)

drop-length : (a b : List ℕ) → drop (length a) (a ++ b) ≡ b
drop-length [] b = refl
drop-length (x ∷ a) b = drop-length a b

decoded-encoded :
    (ctx cids : List ℕ) (f : Bool)
    → decoded (encoded (record { context_id = ctx; cids = cids; removed = f }))
      ≡ ok (record { context_id = ctx; cids = cids; removed = f })
decoded-encoded ctx cids true = rw (take-length ctx cids, drop-length ctx cids) refl
decoded-encoded ctx cids false = rw (take-length ctx cids, drop-length ctx cids) refl

pub decode_lem : (ch : CidsChunk ℕ) (b : Bytes) → ok (encoded ch) ≡ ok b → decoded b ≡ ok ch
decode_lem ch b h =
    ap decoded (sym (ok-injective _ _ h)) ∙ decoded-encoded ch.context_id ch.cids ch.removed

-- Times are kept for a minute, chunks have two CIDs, and it is 150 seconds after the start.
abbrev pub setup : Setup
setup = record {
  Cid = ℕ;
  cid_discrete = ℕ_discrete;
  cid_text = λ c. c ∷ [];
  cid_hash = λ c. c ∷ [];
  sort = λ l. l;
  sha256 = λ b. b;
  context_id_to_str = λ b. b;
  encode_chunk = λ ch. ok (encoded ch);
  decode_chunk = decoded;
  decode_chunk-encode_chunk = decode_lem;
  store = listed (key_discrete ℕ_discrete);
  queries = listed_queries (key_discrete ℕ_discrete);
  pages = listed_pages (key_discrete ℕ_discrete);
  page_size = 1;
  encode_nodes = λ ns. ok (map (λ n. n.c) ns);
  decode_nodes = λ b. ok (map (λ c. record { timestamp = 0; c = c; chunk = none }) b);
  snapshot_chunk_max_size = 2;
  snapshot_chunk_max_size_positive = omega arith;
  engine = notifier;
  clock = λ n. 150;
  nonce_gen = λ n. n ∷ [];
  cid_ttl = 60;
  chunk_size = 2;
  snapshot_size = 10;
  configured_provider_info = none;
}

abbrev node : ℕ → ℕ → CidNode ℕ
node t c = record { timestamp = t; c = c; chunk = none }

-- CID 5 has expired, CID 4 has not, and they are in the same chunk.
abbrev pub recorded_two : CidQueue ℕ
recorded_two =
    record_cid_node ℕ_discrete (node 100 4) (record_cid_node ℕ_discrete (node 0 5) new_cid_queue)

abbrev pub queue : CidQueue ℕ
queue = assign_cids_chunk ℕ_discrete 5 0 (assign_cids_chunk ℕ_discrete 4 0 recorded_two)

pub queue-IsLinked : IsLinked ℕ_discrete queue
queue-IsLinked =
    assign_cids_chunk-IsLinked ℕ_discrete 5 0 (assign_cids_chunk ℕ_discrete 4 0 recorded_two) (
      assign_cids_chunk-IsLinked ℕ_discrete 4 0 recorded_two
        (record_cid_node-recorded ℕ_discrete (node 100 4)
          (record_cid_node ℕ_discrete (node 0 5) new_cid_queue)
          (record_cid_node-recorded ℕ_discrete (node 0 5) new_cid_queue
            (new_cid_queue-IsLinked ℕ_discrete)).0).0)

-- A listener whose engine refuses to publish.
abbrev pub refusing : Listener setup
refusing = record {
  ds = [];
  engine = true;
  chunks = λ i.
      if i == 0
      then record { context_id = 9 ∷ []; cids = 4 ∷ 5 ∷ []; removed = false }
      else record { context_id = []; cids = []; removed = false };
  next_chunk = 2;
  chunk_by_context_id = [];
  current_chunk = 1;
  current_chunk_time = 0;
  cid_queue = queue;
  last_seen_provider_info = record { id = 1 ∷ []; addrs = [] };
  nonces = 0;
  ticks = 0;
}
