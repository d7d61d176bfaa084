-- ===== src/Bus/Consumer/Safety.antt =====
-- What is committed has been dealt with, also when the process stops at an arbitrary moment.
use mathlib.Core.Path.{subst}
use bank_ods_unified_api.Prelude.{
  In, ◌≡◌, ◌∙◌, refl, Option, none, some, List, [], ◌∷◌, ◌⊎◌, inl, inr, All,
}
use bank_ods_unified_api.Prelude.Text.{Text}
use bank_ods_unified_api.Bus.Dlq.{letter}
use bank_ods_unified_api.Bus.Consumer.{
  Setup, Message, ConsumedRecord, Effect, handled, queued, committed, Outcome, ok, raised, Polled,
  batch, kafka_exception, partition_eof, client_error, RunOf, deserialized, record_of,
  decode_failure, handle_failure, publish, collect, on_message, MessageError, retry, after_one,
  after_batch, attempt, onto_batch,
}

module _ {V S : Type 0} (setup : Setup V S) where
  -- The handler has returned for the record, or the producer has its dead letter.
  pub data Landed (es : List (Effect V)) (r : ConsumedRecord V) : Type 0 where
    in_batch : (rs : List (ConsumedRecord V)) → In r rs → In (handled rs) es → Landed es r
    dead :
        (e : Text)
        → In (queued (letter setup.codec setup.now (handle_failure setup r e))) es
        → Landed es r

  -- Nothing is left to do for the message.
  pub data Settled (es : List (Effect V)) (m : Message) : Type 0 where
    end_of_partition : m.error ≡ some partition_eof → Settled es m
    tombstone : deserialized setup m ≡ ok none → Settled es m
    undecodable :
        (e : Text)
        → deserialized setup m ≡ raised e
        → In (queued (letter setup.codec setup.now (decode_failure setup m e))) es
        → Settled es m
    recorded :
        (value : V)
        → deserialized setup m ≡ ok (some value)
        → Landed es (record_of setup m value)
        → Settled es m

  -- Before each commit every message behind its position was settled.
  abbrev pub Safe : List (Effect V) → Type 0
  Safe [] = Unit
  Safe (committed ms ∷ es) = All (Settled es) ms × Safe es
  Safe (handled rs ∷ es) = Safe es
  Safe (queued l ∷ es) = Safe es

  abbrev pub Grows : List (Effect V) → List (Effect V) → Type 0
  Grows es fs = (x : Effect V) → In x es → In x fs

  pub Landed-Grows :
      (es fs : List (Effect V)) (r : ConsumedRecord V) → Grows es fs → Landed es r → Landed fs r
  Landed-Grows es fs r g (in_batch rs i h) = in_batch rs i (g _ h)
  Landed-Grows es fs r g (dead e h) = dead e (g _ h)

  pub Settled-Grows :
      (es fs : List (Effect V)) (m : Message) → Grows es fs → Settled es m → Settled fs m
  Settled-Grows es fs m g (end_of_partition h) = end_of_partition h
  Settled-Grows es fs m g (tombstone h) = tombstone h
  Settled-Grows es fs m g (undecodable e h i) = undecodable e h (g _ i)
  Settled-Grows es fs m g (recorded v h l) = recorded v h (Landed-Grows es fs _ g l)

  -- A step that commits nothing.
  pub record Step (run after : RunOf setup) : Type 0 where
    pub safe : Safe run.effects → Safe after.effects
    pub grows : Grows run.effects after.effects
    pub kept : after.consumed ≡ run.consumed

  Step-refl : (run : RunOf setup) → Step run run
  Step-refl run = record { safe = λ s. s; grows = λ x i. i; kept = refl }

  Step-trans : (a b c : RunOf setup) → Step a b → Step b c → Step a c
  Step-trans a b c f g = record {
    safe = λ s. g.safe (f.safe s);
    grows = λ x i. g.grows x (f.grows x i);
    kept = g.kept ∙ f.kept;
  }

  after_one-Step :
      (r : ConsumedRecord V) (o : S × Option Text) (run : RunOf setup)
      → Step run (after_one setup r o run) × Landed (after_one setup r o run).effects r
  unfolding publish
  after_one-Step r (store, none) run = (
    record { safe = λ s. s; grows = λ x i. inr i; kept = refl },
    in_batch (r ∷ []) (inl refl) (inl refl),
  )
  after_one-Step r (store, some e) run =
      (record { safe = λ s. s; grows = λ x i. inr i; kept = refl }, dead e (inl refl))

  abbrev pub AllLanded : List (ConsumedRecord V) → List (Effect V) → Type 0
  AllLanded rs es = (r : ConsumedRecord V) → In r rs → Landed es r

  retry-Step :
      (rs : List (ConsumedRecord V)) (run : RunOf setup)
      → Step run (retry setup rs run) × AllLanded rs (retry setup rs run).effects
  unfolding retry
  retry-Step [] run = (Step-refl run, λ r i. absurd i)
  retry-Step (r ∷ rs) run =
      let (one, here) = after_one-Step r (setup.handler (r ∷ []) run.store) run in
      let (more, there) =
        retry-Step rs (after_one setup r (setup.handler (r ∷ []) run.store) run) in
      (
        Step-trans run _ _ one more,
        λ q i. elim i [
          | inl e ↦
              subst (Landed (retry setup (r ∷ rs) run).effects) e
                (Landed-Grows _ _ r more.grows here)
          | inr j ↦ there q j
        ],
      )

  after_batch-Step :
      (rs : List (ConsumedRecord V)) (o : S × Option Text) (run : RunOf setup)
      → Step run (after_batch setup rs o run) × AllLanded rs (after_batch setup rs o run).effects
  after_batch-Step rs (store, none) run =
      (record { safe = λ s. s; grows = λ x i. inr i; kept = refl }, λ r i. in_batch rs i (inl refl))
  after_batch-Step rs (store, some e) run =
      let (more, there) = retry-Step rs (record run { store = store }) in
      (record { safe = more.safe; grows = more.grows; kept = more.kept }, there)

  pub attempt-Step :
      (rs : List (ConsumedRecord V)) (run : RunOf setup)
      → Step run (attempt setup rs run) × AllLanded rs (attempt setup rs run).effects
  unfolding attempt
  attempt-Step rs run = after_batch-Step rs (setup.handler rs run.store) run

  -- A message that is settled, or whose record is in the batch.
  abbrev pub Covered : List (Effect V) → List (ConsumedRecord V) → Message → Type 0
  Covered es rs m =
      Settled es m
      ⊎ ((value : V) × (deserialized setup m ≡ ok (some value)) × In (record_of setup m value) rs)

  abbrev pub CoveredBy : List (Effect V) → Polled V → List Message → Type 0
  CoveredBy es (batch rs) ms = All (Covered es rs) ms
  CoveredBy es (kafka_exception e) ms = Unit

  Covered-cons :
      (es : List (Effect V)) (r : ConsumedRecord V) (rs : List (ConsumedRecord V))
      (ms : List Message)
      → All (Covered es rs) ms
      → All (Covered es (r ∷ rs)) ms
  Covered-cons es r rs [] h = tt
  Covered-cons es r rs (m ∷ ms) (inl s, h) = (inl s, Covered-cons es r rs ms h)
  Covered-cons es r rs (m ∷ ms) (inr (v, e, i), h) = (inr (v, e, inr i), Covered-cons es r rs ms h)

  CoveredBy-Settled :
      (es : List (Effect V)) (polled : Polled V) (m : Message) (ms : List Message)
      → Settled es m
      → CoveredBy es polled ms
      → CoveredBy es polled (m ∷ ms)
  CoveredBy-Settled es (batch rs) m ms s h = (inl s, h)
  CoveredBy-Settled es (kafka_exception e) m ms s h = tt

  CoveredBy-record :
      (es : List (Effect V)) (polled : Polled V) (m : Message) (ms : List Message) (value : V)
      → deserialized setup m ≡ ok (some value)
      → CoveredBy es polled ms
      → CoveredBy es (onto_batch (record_of setup m value) polled) (m ∷ ms)
  CoveredBy-record es (batch rs) m ms value e h =
      (inr (value, e, inl refl), Covered-cons es _ rs ms h)
  CoveredBy-record es (kafka_exception x) m ms value e h = tt

  -- What `collect` comes to.
  abbrev pub Collects : List Message → RunOf setup → RunOf setup × Polled V → Type 0
  Collects ms run (after, polled) = Step run after × CoveredBy after.effects polled ms

  on_message-Collects :
      (m : Message) (ms : List Message) (error : Option MessageError) (value : Outcome (Option V))
      (rest : RunOf setup → RunOf setup × Polled V)
      → m.error ≡ error
      → deserialized setup m ≡ value
      → ((run : RunOf setup) → Collects ms run (rest run))
      → (run : RunOf setup) → Collects (m ∷ ms) run (on_message setup m error value rest run)
  unfolding on_message publish
  on_message-Collects m ms (some partition_eof) value rest e d h run =
      let (step, covered) = h run in (step, CoveredBy-Settled _ _ m ms (end_of_partition e) covered)
  on_message-Collects m ms (some (client_error x)) value rest e d h run = (Step-refl run, tt)
  on_message-Collects m ms none (raised x) rest e d h run =
      let after = publish setup (decode_failure setup m x) run in
      let (step, covered) = h after in
      let s = Settled-Grows after.effects _ m step.grows (undecodable x d (inl refl)) in
      (
        record { safe = λ s. step.safe s; grows = λ y i. step.grows y (inr i); kept = step.kept },
        CoveredBy-Settled _ _ m ms s covered,
      )
  on_message-Collects m ms none (ok none) rest e d h run =
      let (step, covered) = h run in (step, CoveredBy-Settled _ _ m ms (tombstone d) covered)
  on_message-Collects m ms none (ok (some v)) rest e d h run =
      let (step, covered) = h run in (step, CoveredBy-record _ _ m ms v d covered)

  pub collect-Collects :
      (ms : List Message) (run : RunOf setup) → Collects ms run (collect setup ms run)
  unfolding collect
  collect-Collects [] run = (Step-refl run, tt)
  collect-Collects (m ∷ ms) run =
      on_message-Collects m ms m.error (deserialized setup m) (collect setup ms) refl refl
        (collect-Collects ms) run
