-- ===== src/Bus/Consumer/Loop.antt =====
-- Every turn of the loops keeps the commits safe, and so does a whole run.
use mathlib.Core.Path.{subst}
use bank_ods_unified_api.Prelude.{
  ◌≡◌, ℕ, suc, ltb, Bool-cases, if-cases, ◌+◌, ◌∙◌, sym, refl, Option, none, some, List, [], ◌∷◌,
  ◌++◌, inl, inr, All,
}
use bank_ods_unified_api.Prelude.Text.{Text}
use bank_ods_unified_api.Bus.Consumer.Safety.{
  Safe, Settled, recorded, Settled-Grows, Grows, AllLanded, Covered, Collects, attempt-Step,
  collect-Collects,
}
use bank_ods_unified_api.Bus.Consumer.{
  Ending, returned, failed, polling, Turn, run_until_idle, on_turn, reached, Setup, Message,
  ConsumedRecord, Effect, Polled, batch, kafka_exception, RunOf, attempt, handle_batch, finish,
  turn,
}
use bank_ods_unified_api.Prelude.Strip.{is_empty}

module _ {V S : Type 0} (setup : Setup V S) where
  -- A run all of whose messages are settled, and whose commits were safe.
  pub record Sound (run : RunOf setup) : Type 0 where
    pub safe : Safe setup run.effects
    pub settled : All (Settled setup run.effects) run.consumed

  All-append :
      {A : Type 0} (P : A → Type 0) (xs ys : List A) → All P xs → All P ys → All P (xs ++ ys)
  All-append P [] ys h k = k
  All-append P (x ∷ xs) ys (p, h) k = (p, All-append P xs ys h k)

  All-Settled-Grows :
      (es fs : List (Effect V)) (ms : List Message)
      → Grows setup es fs
      → All (Settled setup es) ms
      → All (Settled setup fs) ms
  All-Settled-Grows es fs [] g h = tt
  All-Settled-Grows es fs (m ∷ ms) g (s, h) =
      (Settled-Grows setup es fs m g s, All-Settled-Grows es fs ms g h)

  All-Settled :
      (es fs : List (Effect V)) (rs : List (ConsumedRecord V)) (ms : List Message)
      → Grows setup es fs
      → AllLanded setup rs fs
      → All (Covered setup es rs) ms
      → All (Settled setup fs) ms
  All-Settled es fs rs [] g l h = tt
  All-Settled es fs rs (m ∷ ms) g l (inl s, h) =
      (Settled-Grows setup es fs m g s, All-Settled es fs rs ms g l h)
  All-Settled es fs rs (m ∷ ms) g l (inr (v, e, i), h) =
      (recorded v e (l _ i), All-Settled es fs rs ms g l h)

  handle_batch-Sound :
      (rs : List (ConsumedRecord V)) (before ms : List Message) (run : RunOf setup)
      → Safe setup run.effects
      → run.consumed ≡ before ++ ms
      → All (Settled setup run.effects) before
      → All (Covered setup run.effects rs) ms
      → Sound (handle_batch setup rs run)
  unfolding handle_batch
  handle_batch-Sound [] before ms run safe c old new = record {
    safe = safe;
    settled =
        subst (λ z. All (Settled setup run.effects) z) (sym c)
          (All-append _ before ms old
            (All-Settled run.effects run.effects [] ms (λ x i. i) (λ r i. absurd i) new));
  }
  handle_batch-Sound (r ∷ rs) before ms run safe c old new =
      let after = attempt setup (r ∷ rs) run in
      let (step, all_landed) = attempt-Step setup (r ∷ rs) run in
      let settled : All (Settled setup after.effects) after.consumed =
        subst (λ z. All (Settled setup after.effects) z) (sym (step.kept ∙ c))
          (All-append _ before ms
            (All-Settled-Grows run.effects after.effects before step.grows old)
            (All-Settled run.effects after.effects (r ∷ rs) ms step.grows all_landed new)) in
      record {
        safe = (settled, step.safe safe);
        settled = All-Settled-Grows after.effects _ after.consumed (λ x i. inr i) settled;
      }

  -- A turn keeps a run sound; one that raises at least keeps the commits safe.
  abbrev After : RunOf setup × Option Text → Type 0
  After (run, none) = Sound run
  After (run, some e) = Safe setup run.effects

  finish-After :
      (ms : List Message) (run : RunOf setup) (result : RunOf setup × Polled V)
      → Sound run
      → Collects setup ms (record run { consumed = run.consumed ++ ms }) result
      → After (finish setup result)
  finish-After ms run (after, batch rs) h (step, covered) =
      handle_batch-Sound rs run.consumed ms after (step.safe h.safe) step.kept
        (All-Settled-Grows run.effects after.effects run.consumed step.grows h.settled) covered
  finish-After ms run (after, kafka_exception e) h (step, covered) = step.safe h.safe

  pub turn-After : (ms : List Message) (run : RunOf setup) → Sound run → After (turn setup ms run)
  unfolding turn
  turn-After ms run h =
      finish-After ms run _ h
        (collect-Collects setup ms (record run { consumed = run.consumed ++ ms }))

  After-Safe : (o : RunOf setup × Option Text) → After o → Safe setup o.0.effects
  After-Safe (run, none) h = h.safe
  After-Safe (run, some e) h = h

  -- What `run_until_idle` comes to, for each way to end.
  abbrev pub Ended : RunOf setup × Ending → Type 0
  Ended (run, returned n) = Sound run × (n ≡ run.records_handled)
  Ended (run, failed e) = Safe setup run.effects
  Ended (run, polling) = Sound run

  on_turn-Ended :
      (idle : ℕ) (max_batches : Option ℕ) (deadline batches : ℕ) (t : Turn)
      (o : RunOf setup × Option Text) (again : ℕ → ℕ → RunOf setup → RunOf setup × Ending)
      → After o
      → ((d b : ℕ) (run : RunOf setup) → Sound run → Ended (again d b run))
      → Ended (on_turn setup idle max_batches deadline batches t o again)
  unfolding on_turn
  on_turn-Ended idle most deadline batches t (run, some e) again h k = h
  on_turn-Ended idle most deadline batches t (run, none) again h k =
      if-cases Ended (is_empty t.messages) (again deadline batches run) _
        (λ quiet. k deadline batches run h)
        (λ busy.
          if-cases Ended (reached most (suc batches)) (run, returned run.records_handled)
            (again (t.end + idle) (suc batches) run) (λ enough. (h, refl))
            (λ more. k (t.end + idle) (suc batches) run h))

  -- From a sound start, a run of the loop, however it ends, has committed a position only when every message behind
  -- it was settled; if it ends without an exception, everything that it consumed is settled, and
  -- it returns the counter.
  pub run_until_idle-Ended :
      (idle : ℕ) (max_batches : Option ℕ) (turns : List Turn) (deadline batches : ℕ)
      (run : RunOf setup)
      → Sound run
      → Ended (run_until_idle setup idle max_batches turns deadline batches run)
  unfolding run_until_idle
  run_until_idle-Ended idle most [] deadline batches run h = h
  run_until_idle-Ended idle most (t ∷ ts) deadline batches run h =
      elim (Bool-cases (ltb t.start deadline)) [
        | inl e ↦
            rw (e, run_until_idle)
              (on_turn-Ended idle most deadline batches t (turn setup t.messages run)
                (run_until_idle setup idle most ts) (turn-After t.messages run h)
                (run_until_idle-Ended idle most ts))
        | inr e ↦ rw (e, run_until_idle) (h, refl)
      ]
