-- ===== src/Bus/Tests.antt =====
-- Instances of the theorems on the consumer and the producer.
use mathlib.Core.List.{Perm}
use mathlib.Core.List.Perm
use bank_ods_unified_api.Prelude.{
  ℕ, ◌+◌, ◌≡◌, refl, Bool, true, false, Option, none, some, List, [], ◌∷◌, ◌++◌, length, arith,
  ◌==◌, if◌then◌else◌,
}
use bank_ods_unified_api.Prelude.Text.{Text, codes}
use bank_ods_unified_api.Envelope.{Codec, Bytes}
use bank_ods_unified_api.State.{StateDoc}
use bank_ods_unified_api.State.Memory.{memory}
use bank_ods_unified_api.Topics.{by_name}
use bank_ods_unified_api.Bus.Dlq.{dlq_topic_for, by_name-dlq_topic_for}
use bank_ods_unified_api.Bus.Producer.{
  Kafka, ProducerError, session, exit, produce_all, produce, flush_error, session-landed,
}
use bank_ods_unified_api.Bus.Consumer.{
  Setup, Message, ConsumedRecord, Outcome, ok, raised, RunOf, Turn, returned, run_until_idle,
  committed, handle_batch, record_of, on_turn, turn, collect, on_message, attempt, retry, publish,
}
use bank_ods_unified_api.Bus.Consumer.Loop.{Sound, Ended, run_until_idle-Ended}
use bank_ods_unified_api.Bus.Consumer.Isolation.{
  Refuses, written, history, refused, handle_batch-Refuses, run_until_idle-quiet,
}

abbrev codec : Codec
codec = record { encode = λ s. s; decode = λ b. some b; decode-encode = λ s. refl }

-- A value is the bytes of the message; the text "bad" does not decode.
abbrev deserialize_test : Text → Option Bytes → Outcome (Option ℕ)
deserialize_test topic none = ok none
deserialize_test topic (some []) = raised (codes "no bytes")
deserialize_test topic (some (c ∷ cs)) = ok (some c)

abbrev is_poison : ConsumedRecord ℕ → Bool
is_poison r = r.value == 13

abbrev any_poison : List (ConsumedRecord ℕ) → Bool
any_poison [] = false
any_poison (r ∷ rs) = if is_poison r then true else any_poison rs

abbrev values : List (ConsumedRecord ℕ) → List ℕ
values [] = []
values (r ∷ rs) = r.value ∷ values rs

abbrev handler_test : List (ConsumedRecord ℕ) → List ℕ → List ℕ × Option Text
handler_test rs s = if any_poison rs then (s, some (codes "13")) else (s ++ values rs, none)

abbrev setup : Setup ℕ (List ℕ)
setup = record {
  docs = memory StateDoc;
  codec = codec;
  decode_replacing = λ b. b;
  deserialize = deserialize_test;
  handler = handler_test;
  stage = "sink";
  now = codes "now";
}

abbrev message : Option Bytes → Message
message value = record {
  error = none;
  topic = some (codes "ods.raw.cash.movements");
  partition = some 0;
  offset = none;
  key = none;
  value = value;
  headers = none;
}

abbrev start : RunOf setup
start = record {
  store = [];
  ledger = [];
  consumed = [];
  effects = [];
  records_handled = 0;
  records_dead_lettered = 0;
}

abbrev start-Sound : Sound setup start
start-Sound = record { safe = tt; settled = tt }

abbrev turns : List Turn
turns =
    record {
      start = 1;
      messages = message (some (7 ∷ [])) ∷ message (some (13 ∷ [])) ∷ message (some []) ∷ [];
      end = 2;
    }
    ∷ record { start = 3; messages = []; end = 4 }
    ∷ record { start = 9; messages = []; end = 9 }
    ∷ []

run_until_idle-Ended_example : Ended setup (run_until_idle setup 5 none turns 5 0 start)
run_until_idle-Ended_example = run_until_idle-Ended setup 5 none turns 5 0 start start-Sound

abbrev quiet_turn : ℕ → Turn
quiet_turn n = record { start = n; messages = []; end = n }

run_until_idle-quiet_example :
    let quiet = quiet_turn 1 ∷ quiet_turn 3 ∷ [] in
    (run_until_idle setup 5 none (quiet ++ turns) 5 0 start
      ≡ run_until_idle setup 5 none turns 5 0 start)
    × (run_until_idle setup 5 none (quiet ++ quiet_turn 9 ∷ []) 5 0 start ≡ (start, returned 0))
run_until_idle-quiet_example =
    run_until_idle-quiet setup 5 none (quiet_turn 1 ∷ quiet_turn 3 ∷ []) turns (quiet_turn 9) [] 5 0
      start ((refl, omega arith), ((refl, omega arith), tt)) (omega arith)

abbrev good : ConsumedRecord ℕ
good = record_of setup (message none) 7

abbrev bad : ConsumedRecord ℕ
bad = record_of setup (message none) 13

abbrev write_test : ConsumedRecord ℕ → List ℕ → List ℕ
write_test r s = s ++ r.value ∷ []

abbrev why_test : ConsumedRecord ℕ → Text
why_test r = codes "13"

refuses_test : Refuses setup is_poison write_test why_test
refuses_test r s = ground arith

handle_batch-Refuses_example :
    let after = handle_batch setup (good ∷ bad ∷ []) start in
    (after.store ≡ written setup is_poison write_test why_test (good ∷ bad ∷ []) [])
    × (after.effects
        ≡ committed [] ∷ history setup is_poison write_test why_test (good ∷ bad ∷ []) [])
    × (after.records_dead_lettered
        ≡ 0 + refused setup is_poison write_test why_test (good ∷ bad ∷ []))
    × (after.records_handled ≡ 0 + length (good ∷ bad ∷ []))
unfolding record_of
handle_batch-Refuses_example =
    handle_batch-Refuses setup is_poison write_test why_test refuses_test good (bad ∷ []) start
      (codes "13") refl

store_test : (run_until_idle setup 5 none turns 5 0 start).0.store ≡ 7 ∷ []
unfolding run_until_idle on_turn turn collect on_message handle_batch attempt record_of retry
    publish
store_test = refl

by_name-dlq_topic_for_example : by_name (dlq_topic_for (codes "ods.raw.cash.movements")) ≡ none
by_name-dlq_topic_for_example = by_name-dlq_topic_for (codes "ods.raw.cash.movements")

abbrev perfect : Kafka ℕ
perfect = record {
  serializes = λ m. true;
  full = λ q. true;
  still_full = λ q. false;
  flush = λ q. record { landed = q; failures = []; remaining = 0 };
  delivered = λ q f r. Perm.refl q;
}

abbrev no_error : Option ProducerError
no_error = none

session-landed_example :
    (no_error ≡ none) × Perm (session perfect (λ e. e) (1 ∷ 2 ∷ []) none).landed (1 ∷ 2 ∷ [])
unfolding session exit produce_all produce flush_error
session-landed_example = session-landed perfect (λ e. e) (1 ∷ 2 ∷ []) none refl
