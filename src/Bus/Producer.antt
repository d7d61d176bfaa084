-- ===== src/Bus/Producer.antt =====
-- src/ods_ingest/bus/producer.py: one use of `TopicProducer` as a context manager. The Kafka client and
-- the Avro serializer are the interface `Kafka`. A topic has several partitions, and no order among them.
use mathlib.Core.List.{Perm}
use mathlib.Core.Path.{subst}
use bank_ods_unified_api.Prelude.{
  ℕ, suc, ◌≡◌, refl, Bool, not, ◌&&◌, Option, none, some, List, [], ◌∷◌, ◌++◌, length, arith, ◌==◌,
  if◌then◌else◌, inl, inr, Option-cases, sym, ◌∙◌, ◌≢◌, append-nil, append_assoc,
}
use bank_ods_unified_api.Prelude.Text.{Text}

-- What the client knows when `flush` returns: the messages that the brokers have, the errors that
-- it reported, and the number of messages that are still queued.
pub record Report (M : Type 0) : Type 0 where
  pub landed : List M
  pub failures : List Text
  pub remaining : ℕ

pub record Kafka (M : Type 0) : Type 0 where
  -- The serializer accepts the record.
  pub serializes : M → Bool
  -- The local queue is full at the first, at the second attempt to queue one more message.
  pub full : List M → Bool
  pub still_full : List M → Bool
  pub flush : List M → Report M
  -- With no failure and nothing left in the queue every message was delivered, each once, in some
  -- order.
  pub delivered :
      (queued : List M)
      → (flush queued).failures ≡ []
      → (flush queued).remaining ≡ 0
      → Perm (flush queued).landed queued

-- Why the context raised.
pub data ProducerError : Type 0 where
  not_serializable queue_full : ProducerError
  still_queued : ℕ → ProducerError
  delivery_failed : ℕ → Text → ProducerError

-- What a `with TopicProducer(...)` block comes to: what reached the topic, and its error.
pub record Session (M E : Type 0) : Type 0 where
  pub landed : List M
  pub delivered : ℕ
  pub error : Option E

abbrev pub wrapped : {E : Type 0} → (ProducerError → E) → Option ProducerError → Option E
wrapped wrap none = none
wrapped wrap (some e) = some (wrap e)

-- The first of two errors in a row.
abbrev pub first_error : {E : Type 0} → Option E → Option E → Option E
first_error none later = later
first_error (some e) later = some e

some_not_none : {e : ProducerError} → some e ≢ none
some_not_none h = cc

module _ {M : Type 0} (kafka : Kafka M) where
  -- `produce`: serialize, then queue, once more on a full queue. The error, if it raises.
  unfoldable pub produce : List M → M → Option ProducerError
  produce queued m =
      if not (kafka.serializes m)
      then some not_serializable
      else if kafka.full queued && kafka.still_full queued
      then some queue_full
      else none

  -- The calls of `produce` in the body of the block, up to the first that raises: what is queued
  -- at the end, and the error.
  unfoldable pub produce_all : List M → List M → List M × Option ProducerError
  produce_all queued [] = (queued, none)
  produce_all queued (m ∷ ms) = elim (produce queued m) [
    | none ↦ produce_all (queued ++ m ∷ []) ms
    | some e ↦ (queued, some e)
  ]

  -- `flush`: the first failure and the number of them, if there is one.
  unfoldable pub flush_error : Report M → Option ProducerError
  flush_error r =
      if r.remaining == 0
      then elim r.failures [
        | [] ↦ none
        | first ∷ rest ↦ some (delivery_failed (suc (length rest)) first)
      ]
      else some (still_queued r.remaining)

  module _ {E : Type 0} (wrap : ProducerError → E) where
    -- `__exit__`: a clean body flushes and raises what the flush raises; an error in the body
    -- flushes too, and stays the error.
    unfoldable pub exit : List M → Option E → Session M E
    exit queued none =
        let r = kafka.flush queued in
        record {
          landed = r.landed;
          delivered = length r.landed;
          error = wrapped wrap (flush_error r);
        }
    exit queued (some e) =
        let r = kafka.flush queued in
        record { landed = r.landed; delivered = length r.landed; error = some e }

    -- A block that produces the messages and then, if none of them raised, ends with an error of
    -- its own or none.
    unfoldable pub session : List M → Option E → Session M E
    session ms after =
        exit (produce_all [] ms).0 (first_error (wrapped wrap (produce_all [] ms).1) after)

  produce_all-none :
      (queued ms : List M)
      → (produce_all queued ms).1 ≡ none
      → (produce_all queued ms).0 ≡ queued ++ ms
  unfolding produce_all
  produce_all-none queued [] h = sym (append-nil queued)
  produce_all-none queued (m ∷ ms) h = elim (Option-cases (produce queued m)) [
    | inl e ↦
        rw (e, produce_all)
          (produce_all-none (queued ++ m ∷ []) ms (rw (e, produce_all) at h)
            ∙ append_assoc queued (m ∷ []) ms)
    | inr (x, e) ↦ absurd (some_not_none (rw (e, produce_all) at h))
  ]

  flush_error-none : (r : Report M) → flush_error r ≡ none → (r.failures ≡ []) × (r.remaining ≡ 0)
  unfolding flush_error
  flush_error-none r h = ground arith

  module _ {E : Type 0} (wrap : ProducerError → E) where
    wrapped-none : (o : Option ProducerError) → wrapped wrap o ≡ none → o ≡ none
    wrapped-none none h = refl
    wrapped-none (some e) h = cc

    first_error-none : (a b : Option E) → first_error a b ≡ none → (a ≡ none) × (b ≡ none)
    first_error-none none b h = (refl, h)
    first_error-none (some e) b h = cc

    exit-none :
        (queued : List M) (error : Option E)
        → (exit wrap queued error).error ≡ none
        → (error ≡ none) × Perm (exit wrap queued error).landed queued
    unfolding exit
    exit-none queued none h =
        let (failures, remaining) =
          flush_error-none (kafka.flush queued)
            (wrapped-none (flush_error (kafka.flush queued)) h) in
        (refl, kafka.delivered queued failures remaining)
    exit-none queued (some e) h = cc

    -- If the block does not raise, its body did not, and what has landed on the topic is exactly the
    -- messages that it produced, each once; nothing is said of their order.
    pub session-landed :
        (ms : List M) (after : Option E)
        → (session wrap ms after).error ≡ none
        → (after ≡ none) × Perm (session wrap ms after).landed ms
    unfolding session
    session-landed ms after h =
        let (clean, landed) = exit-none (produce_all [] ms).0 _ h in
        let (produced, ended) = first_error-none (wrapped wrap (produce_all [] ms).1) after clean in
        let all = produce_all-none [] ms (wrapped-none (produce_all [] ms).1 produced) in
        (ended, subst (Perm (session wrap ms after).landed) all landed)
