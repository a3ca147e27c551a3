-- ===== src/Routing/Steps.antt =====
-- What the methods of the listener do to the queue and the chunks, one step at a time: a preorder that
-- admits every step holds between the states before and after a method, whatever fails in it.
use index_provider.Prelude.{ℕ, zero, suc, ◌≡◌, refl, Option, none, some, List}
use index_provider.Exec.{
  Error, already_advertised, Exec, Result, pure, raise, lift, gets, modify, recover, relabel, ◌>>=◌,
}
use index_provider.Exec.Post.{Post-any, Post-zoom}
use index_provider.Exec.Within.{
  Within, Within-pure, Within-raise, Within-lift, Within-gets, Within-bind, Within-recover,
  Within-relabel, Within-modify,
}
use index_provider.Schema.{Bytes, PeerId}
use index_provider.Routing.State.{
  Setup, Listener, on_ds, on_engine, on_both, with_ds, with_engine, back_from_engine, time_now,
  next_nonce,
}
use index_provider.Routing.Chunks.{add_chunk, remove_chunk, generate_context_id}
use index_provider.Routing.Store
use index_provider.Routing.Store.{record_chunk_by_context_id, delete_chunk, deserialise}
use index_provider.Routing.Publish.{
  retry_with_backoff, or_advertised, unless_advertised, fetch_found, cid_fetcher, multihash_lister,
  engine_put, engine_remove, put_at_engine, remove_at_engine, provider, put_or_give_up,
  notify_put_and_persist, notify_remove_and_persist, assign_chunk, give_up,
}

module _ (G : Setup) where
  open G use {Cid, store as D, engine as N}

  abbrev pub L : Type 0
  L = Listener G

  -- Nothing but the queue, the chunks, and which of them is the current one matters.
  pub record Quiet (s t : L) : Type 0 where
    pub queue : t.cid_queue ≡ s.cid_queue
    pub chunks : t.chunks ≡ s.chunks
    pub current : t.current_chunk ≡ s.current_chunk
    pub next : t.next_chunk ≡ s.next_chunk
    pub seen : t.last_seen_provider_info ≡ s.last_seen_provider_info

  pub record Steps (R : L → L → Type 0) : Type 0 where
    pub same : (s : L) → R s s
    pub trans : (a b c : L) → R a b → R b c → R a c
    pub quiet : (s t : L) → Quiet s t → R s t
    pub assign : (r : ℕ) (s : L) → R s (assign_chunk G r s)

  pub still :
      (s t : L)
      → t.cid_queue ≡ s.cid_queue
      → t.chunks ≡ s.chunks
      → t.current_chunk ≡ s.current_chunk
      → t.next_chunk ≡ s.next_chunk
      → t.last_seen_provider_info ≡ s.last_seen_provider_info
      → Quiet s t
  still s t a b c d e = record { queue = a; chunks = b; current = c; next = d; seen = e }

  module _ (R : L → L → Type 0) (st : Steps R) where
    abbrev pub W : {A : Type 0} → Exec L A → Type 0
    W = Within R

    pub W-pure : {A : Type 0} (a : A) → W (pure a)
    W-pure = Within-pure R st.same st.trans

    pub W-raise : {A : Type 0} (x : Error) → W (raise {A = A} x)
    W-raise = Within-raise R st.same st.trans

    pub W-lift : {A : Type 0} (r : Result A) → W (lift r)
    W-lift = Within-lift R st.same st.trans

    pub W-gets : {A : Type 0} (f : L → A) → W (gets f)
    W-gets = Within-gets R st.same st.trans

    pub W-modify : (f : L → L) → ((s : L) → R s (f s)) → W (modify f)
    W-modify = Within-modify R st.same st.trans

    pub W-bind :
        {A B : Type 0} (m : Exec L A) (f : A → Exec L B) → W m → ((a : A) → W (f a)) → W (m >>= f)
    W-bind = Within-bind R st.same st.trans

    pub W-recover :
        {A B : Type 0} (m : Exec L A) (f : A → Exec L B) (g : Error → Exec L B)
        → W m
        → ((a : A) → W (f a))
        → ((x : Error) → W (g x))
        → W (recover m f g)
    W-recover = Within-recover R st.same st.trans

    pub W-relabel : {A : Type 0} (f : Error → Error) (m : Exec L A) → W m → W (relabel f m)
    W-relabel = Within-relabel R st.same st.trans

    pub W-on_ds : {A : Type 0} (m : Exec D.State A) → W (on_ds G m)
    unfolding on_ds
    W-on_ds m = record {
      at = λ s.
          Post-zoom (λ x. x.ds) (with_ds G) m s (Post-any m s.ds)
            (λ _ d _. st.quiet s (with_ds G s d) (still s _ refl refl refl refl refl))
            (λ _ d _. st.quiet s (with_ds G s d) (still s _ refl refl refl refl refl));
    }

    W-on_engine : {A : Type 0} (m : Exec N.State A) → W (on_engine G m)
    unfolding on_engine
    W-on_engine m = record {
      at = λ s.
          Post-zoom (λ x. x.engine) (with_engine G) m s (Post-any m s.engine)
            (λ _ e _. st.quiet s (with_engine G s e) (still s _ refl refl refl refl refl))
            (λ _ e _. st.quiet s (with_engine G s e) (still s _ refl refl refl refl refl));
    }

    back : (s t : L) (e : N.State) → R s t → R s (back_from_engine G s (e, t))
    back s t e p = st.trans s t _ p (st.quiet t _ (still t _ refl refl refl refl refl))

    W-on_both :
        {A : Type 0} (m : Exec (N.State × L) A) → Within (λ a b. R a.1 b.1) m → W (on_both G m)
    unfolding on_both
    W-on_both m h = record {
      at = λ s.
          Post-zoom (λ x. (x.engine, x)) (back_from_engine G) m s (h.at (s.engine, s))
            (λ _ p q. back s p.1 p.0 q) (λ _ p q. back s p.1 p.0 q);
    }

    pub W-time_now : W (time_now G)
    unfolding time_now
    W-time_now = record {
      at = λ s. record { at = st.quiet s _ (still s _ refl refl refl refl refl) };
    }

    W-next_nonce : W (next_nonce G)
    unfolding next_nonce
    W-next_nonce = record {
      at = λ s. record { at = st.quiet s _ (still s _ refl refl refl refl refl) };
    }

    W-add_chunk : (r : ℕ) → W (modify (add_chunk G r))
    unfolding add_chunk
    W-add_chunk r =
        W-modify (add_chunk G r) (λ s. st.quiet s _ (still s _ refl refl refl refl refl))

    W-remove_chunk : (r : ℕ) → W (modify (remove_chunk G r))
    unfolding remove_chunk
    W-remove_chunk r =
        W-modify (remove_chunk G r) (λ s. st.quiet s _ (still s _ refl refl refl refl refl))

    ruleset rules = (
      W-pure, W-raise, W-lift, W-gets, W-bind, W-recover, W-relabel, W-on_ds, W-on_engine,
      W-time_now, W-next_nonce, W-add_chunk, W-remove_chunk,
    )

    W-retry : (f : Exec L (Unit {0})) (n : ℕ) → W f → W (retry_with_backoff f n)
    unfolding retry_with_backoff
    W-retry f zero h = h
    W-retry f (suc n) h = W-recover f pure _ h W-pure (λ _. W-retry f n h)

    W-unless_advertised : (e : Error) → W (unless_advertised e)
    unfolding unless_advertised
    W-unless_advertised already_advertised = W-pure tt
    W-unless_advertised e = W-raise e

    W-or_advertised : (m : Exec L (Unit {0})) → W m → W (or_advertised m)
    unfolding or_advertised
    W-or_advertised m h = W-recover m pure unless_advertised h W-pure W-unless_advertised

    W-deserialise : (o : Option Bytes) → W (deserialise G o)
    unfolding deserialise
    W-deserialise none = W-raise _
    W-deserialise (some b) = W-lift _

    W-fetch : (id : Bytes) (o : Option ℕ) → W (fetch_found G id o)
    unfolding fetch_found Store.get_chunk_by_context_id
    W-fetch id (some r) = search rules
    W-fetch id none = search (rules, W-deserialise)

    W-cid_fetcher : (id : Bytes) → W (cid_fetcher G id)
    unfolding cid_fetcher
    W-cid_fetcher id = search (rules, W-fetch)

    W-lister : (p : PeerId) (id : Bytes) → W (multihash_lister G p id)
    unfolding multihash_lister
    W-lister p id = search (rules, W-cid_fetcher)

    W-put : (r : ℕ) (s : L) → W (put_at_engine G r s)
    unfolding put_at_engine
    W-put r s = W-or_advertised _ (
        W-on_both _ (
          N.notify_put-Within L R (multihash_lister G) (provider G s) (s.chunks r).context_id
            st.same st.trans W-lister))

    W-engine_put : (r : ℕ) → W (engine_put G r)
    unfolding engine_put
    W-engine_put r = search (rules, W-put)

    W-remove : (r : ℕ) (s : L) → W (remove_at_engine G r s)
    unfolding remove_at_engine
    W-remove r s = W-or_advertised _ (W-on_engine _)

    W-engine_remove : (r : ℕ) → W (engine_remove G r)
    unfolding engine_remove
    W-engine_remove r = search (rules, W-remove)

    W-record_chunk : (r : ℕ) → W (record_chunk_by_context_id G r)
    unfolding record_chunk_by_context_id
    W-record_chunk r = search rules

    W-delete_chunk : (r : ℕ) → W (delete_chunk G r)
    unfolding delete_chunk
    W-delete_chunk r = search rules

    W-give_up : (r : ℕ) (e : Error) → W (give_up G r e)
    unfolding give_up
    W-give_up r e = search rules

    W-assign : (r : ℕ) → W (modify (assign_chunk G r))
    W-assign r = W-modify (assign_chunk G r) (st.assign r)

    W-put_or_give_up : (r : ℕ) → W (put_or_give_up G r)
    unfolding put_or_give_up
    W-put_or_give_up r = search (rules, W-retry, W-engine_put, W-assign, W-give_up)

    pub notify_put_and_persist-Within : (r : ℕ) → W (notify_put_and_persist G r)
    unfolding notify_put_and_persist
    notify_put_and_persist-Within r = search (rules, W-record_chunk, W-put_or_give_up)

    pub notify_remove_and_persist-Within : (r : ℕ) → W (notify_remove_and_persist G r)
    unfolding notify_remove_and_persist
    notify_remove_and_persist-Within r = search (rules, W-retry, W-engine_remove, W-delete_chunk)

    pub generate_context_id-Within : (cids : List Cid) → W (generate_context_id G cids)
    unfolding generate_context_id
    generate_context_id-Within cids = search rules
