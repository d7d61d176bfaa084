-- ===== src/Bus/Consumer.antt =====
-- src/ods_ingest/bus/consumer.py: the loop that every consumer runs. The deserializer, the handler and
-- the broker are parameters; what the broker returns to each `consume` is an argument of the loop.
pub mod Safety
pub mod Isolation
pub mod Loop
use bank_ods_unified_api.Prelude.{
  ℕ, suc, ◌+◌, String, Bool, true, false, ◌||◌, not, Option, none, some, List, [], ◌∷◌, ◌++◌,
  length, ltb, leb, if◌then◌else◌,
}
use bank_ods_unified_api.Prelude.Text.{Text, codes}
use bank_ods_unified_api.Prelude.Dict.{Dict}
use bank_ods_unified_api.Prelude.Strip.{is_empty}
use bank_ods_unified_api.Prelude.Int.{ℤ, pos, negsuc}
use bank_ods_unified_api.Envelope.{Bytes, Codec, KafkaHeaders, decode_headers}
use bank_ods_unified_api.State.{Documents, StateDoc}
use bank_ods_unified_api.Bus.Dlq.{FailedRecord, DeadLetter, letter, note, dlq_topic_for}

pub data MessageError : Type 0 where
  partition_eof : MessageError
  client_error : Text → MessageError

-- The client gives a key as text or as bytes.
pub data Key : Type 0 where
  text_key : Text → Key
  bytes_key : Bytes → Key

pub record Message : Type 0 where
  pub error : Option MessageError
  pub topic : Option Text
  pub partition : Option ℕ
  pub offset : Option ℕ
  pub key : Option Key
  pub value : Option Bytes
  pub headers : Option KafkaHeaders

pub record ConsumedRecord (V : Type 0) : Type 0 where
  pub topic : Text
  pub partition : ℤ
  pub offset : ℤ
  pub key : Option Text
  pub value : V
  pub headers : Dict Text

-- What a call comes to: a result, or an exception with its text.
pub data Outcome (A : Type 0) : Type 0 where
  ok : A → Outcome A
  raised : Text → Outcome A

-- What happens, as far as others can see it. `committed` names the messages that the committed
-- position is behind.
pub data Effect (V : Type 0) : Type 0 where
  handled : List (ConsumedRecord V) → Effect V
  queued : DeadLetter → Effect V
  committed : List Message → Effect V

-- The consumer and what it changes, with the effects so far, the last one first.
pub record Run (V S D : Type 0) : Type 0 where
  pub store : S
  pub ledger : D
  pub consumed : List Message
  pub effects : List (Effect V)
  pub records_handled : ℕ
  pub records_dead_lettered : ℕ

-- How `_poll_batch` ends: with a batch, or with a `KafkaException`.
pub data Polled (V : Type 0) : Type 0 where
  batch : List (ConsumedRecord V) → Polled V
  kafka_exception : Text → Polled V

-- How `run_until_idle` ends: it returns, it raises, or there is no reading of the clock any more.
pub data Ending : Type 0 where
  returned : ℕ → Ending
  failed : Text → Ending
  polling : Ending

-- One turn of the loop: the clock at its start, what the broker returns, and the clock at its end.
pub record Turn : Type 0 where
  pub start : ℕ
  pub messages : List Message
  pub end : ℕ

-- `x or ""`
abbrev pub or_empty : Option Text → Text
or_empty none = []
or_empty (some t) = t

-- `n if n is not None else -1`
abbrev pub or_minus_one : Option ℕ → ℤ
or_minus_one none = negsuc 0
or_minus_one (some n) = pos n

abbrev pub as_int : Option ℕ → Option ℤ
as_int none = none
as_int (some n) = some (pos n)

abbrev pub raw_key : Option Key → Option Bytes
raw_key (some (bytes_key b)) = some b
raw_key _ = none

abbrev pub onto_batch : {V : Type 0} → ConsumedRecord V → Polled V → Polled V
onto_batch r (batch rs) = batch (r ∷ rs)
onto_batch r (kafka_exception e) = kafka_exception e

-- `max_batches is not None and batches >= max_batches`
abbrev pub reached : Option ℕ → ℕ → Bool
reached none batches = false
reached (some most) batches = leb most batches

-- What a consumer is made with.
pub record Setup (V S : Type 0) : Type 1 where
  pub docs : Documents StateDoc
  pub codec : Codec
  -- `bytes.decode(errors="replace")`
  pub decode_replacing : Bytes → Text
  -- A tombstone is `none`.
  pub deserialize : Text → Option Bytes → Outcome (Option V)
  -- What the handler leaves, also when it raises, and the exception.
  pub handler : List (ConsumedRecord V) → S → S × Option Text
  pub stage : String
  -- The clock, as `isoformat` prints it.
  pub now : Text

module _ {V S : Type 0} (setup : Setup V S) where
  open setup use {docs, codec, decode_replacing, deserialize, handler, stage, now}

  abbrev pub RunOf : Type 0
  RunOf = Run V S docs.Store

  abbrev pub key_text : Option Key → Option Text
  key_text none = none
  key_text (some (text_key t)) = some t
  key_text (some (bytes_key b)) = some (decode_replacing b)

  abbrev pub topic_of : Message → Text
  topic_of m = or_empty m.topic

  abbrev pub deserialized : Message → Outcome (Option V)
  deserialized m = deserialize (topic_of m) m.value

  -- The record of a message that decodes.
  unfoldable pub record_of : Message → V → ConsumedRecord V
  record_of m value = record {
    topic = topic_of m;
    partition = or_minus_one m.partition;
    offset = or_minus_one m.offset;
    key = key_text m.key;
    value = value;
    headers = decode_headers codec m.headers;
  }

  unfoldable pub decode_failure : Message → Text → FailedRecord
  decode_failure m error = record {
    dlq_topic = dlq_topic_for (topic_of m);
    source_topic = topic_of m;
    error = codes "deserialize failed: " ++ error;
    stage = stage;
    raw_value = m.value;
    raw_key = raw_key m.key;
    partition = as_int m.partition;
    offset = as_int m.offset;
  }

  unfoldable pub handle_failure : ConsumedRecord V → Text → FailedRecord
  handle_failure r error = record {
    dlq_topic = dlq_topic_for r.topic;
    source_topic = r.topic;
    error = codes "handler failed: " ++ error;
    stage = stage;
    raw_value = none;
    raw_key = none;
    partition = some r.partition;
    offset = some r.offset;
  }

  -- `self._dlq.publish(...)` and `self.records_dead_lettered += 1`
  unfoldable pub publish : FailedRecord → RunOf → RunOf
  publish f run = record run {
    ledger = note docs now f run.ledger;
    effects = queued (letter codec now f) ∷ run.effects;
    records_dead_lettered = suc run.records_dead_lettered;
  }

  -- The body of the loop of `_poll_batch`, for the error and the decoded value of a message, with
  -- `_decode`; `rest` is what remains of the loop.
  unfoldable pub on_message :
      Message
      → Option MessageError
      → Outcome (Option V)
      → (RunOf → RunOf × Polled V)
      → RunOf
      → RunOf × Polled V
  on_message m (some partition_eof) value rest run = rest run
  on_message m (some (client_error e)) value rest run = (run, kafka_exception e)
  on_message m none (raised e) rest run = rest (publish (decode_failure m e) run)
  on_message m none (ok none) rest run = rest run
  on_message m none (ok (some value)) rest run =
      let (after, polled) = rest run in (after, onto_batch (record_of m value) polled)

  -- `_poll_batch` on the messages that `consume` returned.
  unfoldable pub collect : List Message → RunOf → RunOf × Polled V
  collect [] run = (run, batch [])
  collect (m ∷ ms) run = on_message m m.error (deserialized m) (collect ms) run

  -- A call of the handler that returned.
  abbrev pub landed : List (ConsumedRecord V) → S → RunOf → RunOf
  landed rs store run = record run { store = store; effects = handled rs ∷ run.effects }

  -- One call of the handler on one record of a failed batch.
  abbrev pub after_one : ConsumedRecord V → S × Option Text → RunOf → RunOf
  after_one r (store, none) run = landed (r ∷ []) store run
  after_one r (store, some e) run = publish (handle_failure r e) (record run { store = store })

  -- The records of a failed batch, one at a time.
  unfoldable pub retry : List (ConsumedRecord V) → RunOf → RunOf
  retry [] run = run
  retry (r ∷ rs) run = retry rs (after_one r (handler (r ∷ []) run.store) run)

  abbrev pub after_batch : List (ConsumedRecord V) → S × Option Text → RunOf → RunOf
  after_batch rs (store, none) run = landed rs store run
  after_batch rs (store, some e) run = retry rs (record run { store = store })

  unfoldable pub attempt : List (ConsumedRecord V) → RunOf → RunOf
  attempt rs run = after_batch rs (handler rs run.store) run

  -- The last lines of `_handle_batch`: the counter and the commit.
  abbrev pub commit : ℕ → RunOf → RunOf
  commit n run = record run {
    effects = committed run.consumed ∷ run.effects;
    records_handled = run.records_handled + n;
  }

  unfoldable pub handle_batch : List (ConsumedRecord V) → RunOf → RunOf
  handle_batch [] run = run
  handle_batch (r ∷ rs) run = commit (suc (length rs)) (attempt (r ∷ rs) run)

  abbrev pub finish : RunOf × Polled V → RunOf × Option Text
  finish (run, batch rs) = (handle_batch rs run, none)
  finish (run, kafka_exception e) = (run, some e)

  -- One turn of either loop, for the messages that the broker returns, and what it raises.
  unfoldable pub turn : List Message → RunOf → RunOf × Option Text
  turn ms run = finish (collect ms (record run { consumed = run.consumed ++ ms }))

  -- The rest of one turn of `run_until_idle`: `again` is the loop for a deadline and a number of
  -- batches.
  unfoldable pub on_turn :
      ℕ
      → Option ℕ
      → ℕ
      → ℕ
      → Turn
      → RunOf × Option Text
      → (ℕ → ℕ → RunOf → RunOf × Ending)
      → RunOf × Ending
  on_turn idle max_batches deadline batches t (after, some e) again = (after, failed e)
  on_turn idle max_batches deadline batches t (after, none) again =
      if is_empty t.messages
      then again deadline batches after
      else if reached max_batches (suc batches)
      then (after, returned after.records_handled)
      else again (t.end + idle) (suc batches) after

  -- `run_until_idle` from its loop on, with the deadline and the number of batches so far.
  unfoldable pub run_until_idle : ℕ → Option ℕ → List Turn → ℕ → ℕ → RunOf → RunOf × Ending
  run_until_idle idle max_batches [] deadline batches run = (run, polling)
  run_until_idle idle max_batches (t ∷ ts) deadline batches run = elim (ltb t.start deadline) [
    | false ↦ (run, returned run.records_handled)
    | true ↦
        on_turn idle max_batches deadline batches t (turn t.messages run)
          (run_until_idle idle max_batches ts)
  ]
