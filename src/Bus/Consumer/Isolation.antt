-- ===== src/Bus/Consumer/Isolation.antt =====
-- src/ods_ingest/bus/consumer.py: the retry of a batch record by record, and turns that bring nothing.
use bank_ods_unified_api.Prelude.{
  ℕ, suc, ◌+◌, ◌≤◌, ◌<◌, append-nil, ◌≡◌, refl, ap, ◌∙◌, Bool, true, false, Option, none, some,
  List, [], ◌∷◌, ◌++◌, length, ltb, if◌then◌else◌, Bool-cases, inl, inr, arith, All,
}
use bank_ods_unified_api.Prelude.Text.{Text}
use bank_ods_unified_api.Prelude.Strip.{is_empty}
use bank_ods_unified_api.Bus.Dlq.{letter}
use bank_ods_unified_api.Bus.Consumer.{
  Setup, Message, ConsumedRecord, Effect, handled, queued, committed, returned, Turn, RunOf,
  handle_failure, publish, landed, retry, attempt, handle_batch, collect, turn, on_turn,
  run_until_idle,
}

module _ {V S : Type 0} (setup : Setup V S) (poison : ConsumedRecord V → Bool)
    (write : ConsumedRecord V → S → S) (why : ConsumedRecord V → Text) where
  -- The handler refuses a poisoned record and writes any other.
  abbrev pub Refuses : Type 0
  Refuses =
      (r : ConsumedRecord V) (s : S)
      → setup.handler (r ∷ []) s ≡ (if poison r then (s, some (why r)) else (write r s, none))

  -- The store with the good records, in order.
  unfoldable pub written : List (ConsumedRecord V) → S → S
  written [] s = s
  written (r ∷ rs) s = written rs (if poison r then s else write r s)

  unfoldable pub refused : List (ConsumedRecord V) → ℕ
  refused [] = 0
  refused (r ∷ rs) = let rest = refused rs in if poison r then suc rest else rest

  -- What each record of the batch comes to.
  unfoldable pub history : List (ConsumedRecord V) → List (Effect V) → List (Effect V)
  history [] es = es
  history (r ∷ rs) es = history rs (
      (if poison r
        then queued (letter setup.codec setup.now (handle_failure setup r (why r)))
        else handled (r ∷ []))
      ∷ es)

  -- The parts of a run that the theorem is about.
  record Isolated (rs : List (ConsumedRecord V)) (run after : RunOf setup) : Type 0 where
    store : after.store ≡ written rs run.store
    effects : after.effects ≡ history rs run.effects
    dead : after.records_dead_lettered ≡ run.records_dead_lettered + refused rs
    counted : after.records_handled ≡ run.records_handled
    consumed : after.consumed ≡ run.consumed

  retry-Isolated :
      Refuses
      → (rs : List (ConsumedRecord V)) (run : RunOf setup) → Isolated rs run (retry setup rs run)
  unfolding retry written refused history publish
  retry-Isolated h [] run = record {
    store = refl;
    effects = refl;
    dead = omega arith;
    counted = refl;
    consumed = refl;
  }
  retry-Isolated h (r ∷ rs) run = elim (Bool-cases (poison r)) [
    | inl e ↦
        let i = retry-Isolated h rs (publish setup (handle_failure setup r (why r)) run) in
        rw (h r run.store, e)
          record {
            store = rw (e) i.store;
            effects = rw (e) i.effects;
            dead = rw (e) (omega (arith, i.dead));
            counted = i.counted;
            consumed = i.consumed;
          }
    | inr e ↦
        let i = retry-Isolated h rs (landed setup (r ∷ []) (write r run.store) run) in
        rw (h r run.store, e)
          record {
            store = rw (e) i.store;
            effects = rw (e) i.effects;
            dead = rw (e) i.dead;
            counted = i.counted;
            consumed = i.consumed;
          }
  ]

  -- If the handler refuses exactly the poisoned records and, for a batch that it refuses, leaves
  -- the store alone, then the batch costs its poisoned records only: the others are written in
  -- order, each poisoned one is dead-lettered and counted, and the commit comes last.
  pub handle_batch-Refuses :
      Refuses
      → (r : ConsumedRecord V) (rs : List (ConsumedRecord V)) (run : RunOf setup) (e : Text)
      → setup.handler (r ∷ rs) run.store ≡ (run.store, some e)
      → let after = handle_batch setup (r ∷ rs) run in
        (after.store ≡ written (r ∷ rs) run.store)
        × (after.effects ≡ committed run.consumed ∷ history (r ∷ rs) run.effects)
        × (after.records_dead_lettered ≡ run.records_dead_lettered + refused (r ∷ rs))
        × (after.records_handled ≡ run.records_handled + length (r ∷ rs))
  unfolding handle_batch attempt
  handle_batch-Refuses h r rs run e failed =
      let i = retry-Isolated h (r ∷ rs) run in
      rw (failed) (
        i.store,
        ap (λ c. committed c ∷ (retry setup (r ∷ rs) run).effects) i.consumed
            ∙ ap (λ es. committed run.consumed ∷ es) i.effects,
        i.dead,
        ap (λ n. n + length (r ∷ rs)) i.counted,
      )

module _ {V S : Type 0} (setup : Setup V S) where
  turn-quiet : (ms : List Message) (run : RunOf setup) → ms ≡ [] → turn setup ms run ≡ (run, none)
  unfolding turn collect handle_batch
  turn-quiet [] run h = ap (λ c. (record run { consumed = c }, none)) (append-nil run.consumed)
  turn-quiet (m ∷ ms) run h = cc

  -- Nothing arrives before the deadline.
  abbrev pub IsQuiet : ℕ → List Turn → Type 0
  IsQuiet deadline = All (λ t. (t.messages ≡ []) × (t.start < deadline))

  -- The loop goes on, with the same deadline.
  run_until_idle-goes_on :
      (idle : ℕ) (max_batches : Option ℕ) (quiet rest : List Turn) (deadline batches : ℕ)
      (run : RunOf setup)
      → IsQuiet deadline quiet
      → run_until_idle setup idle max_batches (quiet ++ rest) deadline batches run
        ≡ run_until_idle setup idle max_batches rest deadline batches run
  unfolding run_until_idle on_turn
  run_until_idle-goes_on idle most [] rest deadline batches run h = refl
  run_until_idle-goes_on idle most (t ∷ quiet) rest deadline batches run ((q, s), h) =
      let e : ltb t.start deadline ≡ true = ground arith in
      let empty : is_empty t.messages ≡ true = ap is_empty q in
      rw (e, run_until_idle, turn-quiet t.messages run q, empty)
        (run_until_idle-goes_on idle most quiet rest deadline batches run h)

  -- After any number of turns that start before the deadline and bring nothing, the loop is where it
  -- was, with the same deadline: whatever the turns after them are, it does with them what it would
  -- have done without the quiet ones. If the next turn starts at the deadline or after it, the loop
  -- returns the number of handled records, and has changed nothing.
  pub run_until_idle-quiet :
      (idle : ℕ) (max_batches : Option ℕ) (quiet rest : List Turn) (last : Turn) (later : List Turn)
      (deadline batches : ℕ) (run : RunOf setup)
      → IsQuiet deadline quiet
      → deadline ≤ last.start
      → (run_until_idle setup idle max_batches (quiet ++ rest) deadline batches run
          ≡ run_until_idle setup idle max_batches rest deadline batches run)
        × (run_until_idle setup idle max_batches (quiet ++ last ∷ later) deadline batches run
            ≡ (run, returned run.records_handled))
  unfolding run_until_idle
  run_until_idle-quiet idle most quiet rest last later deadline batches run h late =
      let e : ltb last.start deadline ≡ false = ground arith in
      (
        run_until_idle-goes_on idle most quiet rest deadline batches run h,
        run_until_idle-goes_on idle most quiet (last ∷ later) deadline batches run h
            ∙ rw (e, run_until_idle) refl,
      )
