-- ===== src/Services/Ops/Release/Healthy.antt =====
-- src/bank_ods/services/ops.py: what a PASS of the release checks means.
use bank_ods_unified_api.Prelude.{
  ℕ, ◌≡◌, ◌≢◌, ◌↔◌, refl, Bool, true, false, Option, none, some, List, [], ◌∷◌, length, arith, ◌==◌,
  ==_iff, zero, suc, ◌⊎◌, if◌then◌else◌, String, All,
}
use bank_ods_unified_api.Prelude.Text.{Text}
use bank_ods_unified_api.Prelude.Strip.{is_empty}
use bank_ods_unified_api.Prelude.Int.{ℤ, pos, ◌≤ℤ◌}
use bank_ods_unified_api.Services.Ops.Custody.{CustodyReport, empty_feed, no_records, reconciled}
use bank_ods_unified_api.Services.Ops.Status.{Feed}
use bank_ods_unified_api.Services.Ops.Release.{
  CheckStatus, pass, warn, fail, Check, pass_if, empty_collections, populated_check, fresh_status,
  custody_checks, is_stale, is_never, count_feeds, feeds_check, dlq_check, Inputs, has_status,
  is_fail, is_warn, overall_of, checks_of, run_release_checks,
}

abbrev Populated : Option (List (String × ℕ)) → Type 0
Populated none = ⊥
Populated (some rows) = All (λ r. r.1 ≢ 0) rows

abbrev Recent : Option ℤ → Type 0
Recent none = ⊥
Recent (some days) = days ≤ℤ pos 3

abbrev Reconciles : (Text → Option ℤ) → Option CustodyReport → Type 0
Reconciles age_days none = ⊥
Reconciles age_days (some empty_feed) = ⊥
Reconciles age_days (some (no_records date)) = ⊥
Reconciles age_days (some (reconciled r)) = Recent (age_days r.cycle_date) × (r.unmatched ≡ 0)

abbrev Flowing : Option (List Feed) → Type 0
Flowing none = ⊥
Flowing (some feeds) =
    (count_feeds is_stale feeds ≡ 0)
    × ((count_feeds is_never feeds ≡ 0) ⊎ (count_feeds is_never feeds ≢ length feeds))

abbrev Clean : Option ℕ → Type 0
Clean none = ⊥
Clean (some total) = total ≡ 0

-- What the queries say of a healthy system.
abbrev pub IsHealthy : (Text → Option ℤ) → Inputs → Type 0
IsHealthy age_days i =
    (i.reachable ≡ true)
    × Populated i.collections
    × Reconciles age_days i.custody
    × Flowing i.feeds
    × Clean i.dead_letters

pass_if_iff :
    (b : Bool) (other : CheckStatus) → other ≢ pass → (pass_if b other ≡ pass) ↔ (b ≡ true)
pass_if_iff true other h = (λ e. refl, λ e. refl)
pass_if_iff false other h = (λ e. absurd (h e), λ e. cc)

fail_not_pass : fail ≢ pass
fail_not_pass h = cc

warn_not_pass : warn ≢ pass
warn_not_pass h = cc

empty_collections_iff :
    (rows : List (String × ℕ))
    → (is_empty (empty_collections rows) ≡ true) ↔ All (λ r. r.1 ≢ 0) rows
unfolding empty_collections
empty_collections_iff [] = (λ e. tt, λ e. refl)
empty_collections_iff ((name, zero) ∷ rows) = (λ e. cc, λ h. absurd (h.0 refl))
empty_collections_iff ((name, suc n) ∷ rows) =
    let (a, b) = empty_collections_iff rows in
    let full : (suc n == 0) ≡ false = ground arith in
    (λ e. (λ z. omega arith, a (rw full at e)), λ h. rw full (b h.1))

populated_check_iff :
    (rows : Option (List (String × ℕ))) → (populated_check rows ≡ pass) ↔ Populated rows
populated_check_iff none = (λ e. cc, λ h. absurd h)
populated_check_iff (some rows) =
    let (a, b) = pass_if_iff (is_empty (empty_collections rows)) fail fail_not_pass in
    let (c, d) = empty_collections_iff rows in (λ e. c (a e), λ h. b (d h))

fresh_status_iff : (days : Option ℤ) → (fresh_status days ≡ pass) ↔ Recent days
fresh_status_iff none = (λ e. cc, λ h. absurd h)
fresh_status_iff (some days) = ground arith

custody_checks_iff :
    (age_days : Text → Option ℤ) (report : Option CustodyReport)
    → (((custody_checks age_days report).0 ≡ pass) × ((custody_checks age_days report).1 ≡ pass))
      ↔ Reconciles age_days report
custody_checks_iff age_days none = (λ e. cc, λ h. absurd h)
custody_checks_iff age_days (some empty_feed) = (λ e. cc, λ h. absurd h)
custody_checks_iff age_days (some (no_records date)) = (λ e. cc, λ h. absurd h)
custody_checks_iff age_days (some (reconciled r)) =
    let (a, b) = fresh_status_iff (age_days r.cycle_date) in
    let (c, d) = pass_if_iff (r.unmatched == 0) warn warn_not_pass in
    let (e, f) = ==_iff r.unmatched 0 in (λ h. (a h.0, e (c h.1)), λ h. (b h.0, d (f h.1)))

feeds_check_iff : (feeds : Option (List Feed)) → (feeds_check feeds ≡ pass) ↔ Flowing feeds
feeds_check_iff none = (λ e. cc, λ h. absurd h)
feeds_check_iff (some feeds) = ground arith

dlq_check_iff : (total : Option ℕ) → (dlq_check total ≡ pass) ↔ Clean total
dlq_check_iff none = (λ e. cc, λ h. absurd h)
dlq_check_iff (some total) = ground arith

-- The overall status is PASS if every check is.
Passes : List Check → Type 0
Passes checks = All (λ c. c.status ≡ pass) checks

overall_cases :
    (a b : Bool)
    → ((if a then fail else if b then warn else pass) ≡ pass)
    → (a ≡ false) × (b ≡ false)
overall_cases a b h = ground arith

has_status-Passes :
    (checks : List Check)
    → has_status is_fail checks ≡ false
    → has_status is_warn checks ≡ false
    → Passes checks
unfolding Passes
has_status-Passes [] f w = tt
has_status-Passes (c ∷ cs) f w = (ground arith, has_status-Passes cs (ground arith) (ground arith))

Passes-has_status :
    (checks : List Check)
    → Passes checks
    → (has_status is_fail checks ≡ false) × (has_status is_warn checks ≡ false)
unfolding Passes
Passes-has_status [] h = (refl, refl)
Passes-has_status (c ∷ cs) (h, hs) = let (f, w) = Passes-has_status cs hs in (rw h f, rw h w)

overall_of_iff : (checks : List Check) → (overall_of checks ≡ pass) ↔ Passes checks
unfolding overall_of
overall_of_iff checks = (
  λ e. let (f, w) = overall_cases _ _ e in has_status-Passes checks f w,
  λ h. let (f, w) = Passes-has_status checks h in rw (f, w) refl,
)

-- The release checks report PASS exactly if the database is reachable, no registered collection is
-- empty, the latest custody cycle is at most three days old and every record of it is matched, no
-- feed is stale and not every feed is without a landing, and nothing is dead-lettered; an error of a
-- query is never a PASS.
pub run_release_checks-IsHealthy_iff :
    (age_days : Text → Option ℤ) (i : Inputs)
    → ((run_release_checks age_days i).0 ≡ pass) ↔ IsHealthy age_days i
unfolding run_release_checks checks_of Passes
run_release_checks-IsHealthy_iff age_days i =
    let (over, under) = overall_of_iff (checks_of age_days i) in
    let (d, d') = pass_if_iff i.reachable fail fail_not_pass in
    let (p, p') = populated_check_iff i.collections in
    let (r, r') = custody_checks_iff age_days i.custody in
    let (f, f') = feeds_check_iff i.feeds in
    let (q, q') = dlq_check_iff i.dead_letters in
    (
      λ e. let (a, (b, (c, (c', (g, (h, u)))))) = over e in (d a, p b, r (c, c'), f g, q h),
      λ h. under (d' h.0, (p' h.1, ((r' h.2).0, ((r' h.2).1, (f' h.3, (q' h.4, tt)))))),
    )
