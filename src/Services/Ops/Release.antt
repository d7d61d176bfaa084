-- ===== src/Services/Ops/Release.antt =====
-- src/bank_ods/services/ops.py: `run_release_checks`, on what the queries that it calls return. `none` is
-- an error of the query; `age_days` is the age of a cycle by the clock, if its date can be read.
pub mod Healthy
use bank_ods_unified_api.Prelude.{
  ℕ, ◌+◌, Bool, true, false, not, ◌&&◌, ◌||◌, Option, none, some, List, [], ◌∷◌, length, ◌==◌,
  if◌then◌else◌, String,
}
use bank_ods_unified_api.Prelude.Text.{Text}
use bank_ods_unified_api.Prelude.Strip.{is_empty}
use bank_ods_unified_api.Prelude.Int.{ℤ, pos, ltb_ℤ}
use bank_ods_unified_api.Services.Ops.Custody.{
  CustodyReport, empty_feed, no_records, reconciled, Reconciliation,
}
use bank_ods_unified_api.Services.Ops.Status.{Feed, FeedStatus, never_landed, stale, current}

pub data CheckStatus : Type 0 where
  pass warn fail : CheckStatus

pub record Check : Type 0 where
  pub name : String
  pub status : CheckStatus

abbrev pub pass_if : Bool → CheckStatus → CheckStatus
pass_if b other = if b then pass else other

abbrev pub database_check : Bool → CheckStatus
database_check ok = pass_if ok fail

-- The names of the collections with a count of zero.
unfoldable pub empty_collections : List (String × ℕ) → List String
empty_collections [] = []
empty_collections ((name, count) ∷ rows) =
    let rest = empty_collections rows in if count == 0 then name ∷ rest else rest

abbrev pub populated_check : Option (List (String × ℕ)) → CheckStatus
populated_check none = fail
populated_check (some rows) = pass_if (is_empty (empty_collections rows)) fail

abbrev pub fresh_status : Option ℤ → CheckStatus
fresh_status none = fail
fresh_status (some days) = if ltb_ℤ (pos 3) days then warn else pass

-- The checks of the freshness and of the reconciliation, from one report.
abbrev pub custody_checks : (Text → Option ℤ) → Option CustodyReport → CheckStatus × CheckStatus
custody_checks age_days none = (fail, fail)
custody_checks age_days (some empty_feed) = (fail, fail)
custody_checks age_days (some (no_records date)) = (fail, fail)
custody_checks age_days (some (reconciled r)) =
    (fresh_status (age_days r.cycle_date), pass_if (r.unmatched == 0) warn)

abbrev pub is_stale : FeedStatus → Bool
is_stale never_landed = false
is_stale stale = true
is_stale current = false

abbrev pub is_never : FeedStatus → Bool
is_never never_landed = true
is_never stale = false
is_never current = false

-- The number of feeds with a status.
unfoldable pub count_feeds : (FeedStatus → Bool) → List Feed → ℕ
count_feeds test [] = 0
count_feeds test (f ∷ fs) =
    let rest = count_feeds test fs in if test f.status then 1 + rest else rest

abbrev pub feeds_check : Option (List Feed) → CheckStatus
feeds_check none = fail
feeds_check (some feeds) =
    if not (count_feeds is_stale feeds == 0)
    then warn
    else if not (count_feeds is_never feeds == 0) && count_feeds is_never feeds == length feeds
    then fail
    else pass

abbrev pub dlq_check : Option ℕ → CheckStatus
dlq_check none = fail
dlq_check (some total) = pass_if (total == 0) warn

-- What the queries return.
pub record Inputs : Type 0 where
  pub reachable : Bool
  pub collections : Option (List (String × ℕ))
  pub custody : Option CustodyReport
  pub feeds : Option (List Feed)
  pub dead_letters : Option ℕ

abbrev pub has_status : (CheckStatus → Bool) → List Check → Bool
has_status test [] = false
has_status test (c ∷ cs) = test c.status || has_status test cs

abbrev pub is_fail : CheckStatus → Bool
is_fail pass = false
is_fail warn = false
is_fail fail = true

abbrev pub is_warn : CheckStatus → Bool
is_warn pass = false
is_warn warn = true
is_warn fail = false

unfoldable pub overall_of : List Check → CheckStatus
overall_of checks =
    if has_status is_fail checks then fail else if has_status is_warn checks then warn else pass

unfoldable pub checks_of : (Text → Option ℤ) → Inputs → List Check
checks_of age_days i =
    let (freshness, reconciliation) = custody_checks age_days i.custody in
    record { name = "database_reachable"; status = database_check i.reachable }
    ∷ record { name = "collections_populated"; status = populated_check i.collections }
    ∷ record { name = "custody_feed_freshness"; status = freshness }
    ∷ record { name = "custody_reconciliation"; status = reconciliation }
    ∷ record { name = "feed_freshness"; status = feeds_check i.feeds }
    ∷ record { name = "dlq_empty"; status = dlq_check i.dead_letters }
    ∷ []

unfoldable pub run_release_checks : (Text → Option ℤ) → Inputs → CheckStatus × List Check
run_release_checks age_days i = (overall_of (checks_of age_days i), checks_of age_days i)
