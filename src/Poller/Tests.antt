-- ===== src/Poller/Tests.antt =====
-- Instances of the theorems on the poller.
use mathlib.Core.List.Perm
use bank_ods_unified_api.Prelude.{
  ℕ, ◌<◌, ◌≡◌, refl, true, false, none, some, [], ◌∷◌, ◌==◌, if◌then◌else◌,
}
use bank_ods_unified_api.Prelude.Text.{Text, codes}
use bank_ods_unified_api.Bus.Producer.{Kafka}
use bank_ods_unified_api.State.{StateDoc}
use bank_ods_unified_api.State.Memory.{memory}
use bank_ods_unified_api.Poller.{Response, Sweep, sweep, fetch_page, forget, poll_once}
use bank_ods_unified_api.Poller.Termination.{sweep-ends}
use bank_ods_unified_api.Poller.Watermark.{Polled, poll_once-NotBehind}

abbrev kafka : Kafka Text
kafka = record {
  serializes = λ m. true;
  full = λ q. false;
  still_full = λ q. false;
  flush = λ q. record { landed = q; failures = []; remaining = 0 };
  delivered = λ q f r. Perm.refl q;
}

-- The first attempt for the first page is refused; the second page is the last.
abbrev get : ℕ → ℕ → Response Text
get page attempt =
    if page == 1
    then record {
      status = if attempt == 1 then 429 else 200;
      rows = codes "2026-01-30" ∷ [];
      has_more = true;
    }
    else record { status = 200; rows = codes "2026-01-31" ∷ []; has_more = false }

abbrev swept : Sweep Text
swept = record { rows = codes "2026-01-30" ∷ codes "2026-01-31" ∷ []; error = none }

two_pages : sweep (λ r. some r) get 3 1 ≡ some swept
unfolding sweep fetch_page
two_pages = refl

poll_once-NotBehind_example :
    let docs = memory StateDoc in
    let (outcome, landed) =
      poll_once (λ r. some r) get (λ r. r) kafka docs [] (some true) true swept [] in
    Polled
      (λ r. some r)
      get
      (λ r. r)
      kafka
      docs
      []
      swept
      landed
      (forget (λ r. some r) get (λ r. r) kafka docs [] true [])
      outcome
poll_once-NotBehind_example =
    poll_once-NotBehind (λ r. some r) get (λ r. r) kafka (memory StateDoc) [] (some true) true swept
      []

sweep-ends_example :
    (s : Sweep Text) × ((fuel : ℕ) → 1 < fuel → sweep (λ r. some r) get fuel 1 ≡ some s)
unfolding fetch_page
sweep-ends_example = sweep-ends (λ r. some r) get 1 1 2 refl tt
