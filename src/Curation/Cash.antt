-- ===== src/Curation/Cash.antt =====
-- src/ods_ingest/curation/cash_movements.py: a day's balance of one account and currency, from the
-- movements that have landed. An amount is Python's decimal as far as its texts have a form that the
-- feed uses, a sign, digits and a point; a sum of decimals is exact below 28 digits. The parser of the amounts
-- is the argument `decimal`. Amounts are mantissas at one common scale.
pub mod Balance
pub mod Order
mod Tests
use bank_ods_unified_api.Prelude.{
  ℕ, ◌+◌, String, Bool, true, false, not, ◌||◌, ◌&&◌, Option, none, some, List, [], ◌∷◌, ◌++◌,
  if◌then◌else◌, Ordering,
}
use bank_ods_unified_api.Prelude.Text.{Text, codes, eq_text, lt_text, compare_text}
use bank_ods_unified_api.Prelude.Strip.{strip, is_empty}
use bank_ods_unified_api.Prelude.Index.{or_blank, non_empty}
use bank_ods_unified_api.Prelude.Int.{ℤ, pos, negsuc, neg, ◌+ℤ◌, ◌-ℤ◌, ltb_ℤ}
use bank_ods_unified_api.Curation.Custody.{without_dashes}
use bank_ods_unified_api.Curation.Decode.{Decoded, ok, fails, DecodeError}
use bank_ods_unified_api.Curation.Decode.Dates.{Date, ccyymmdd_to_datetime, before}
use bank_ods_unified_api.Curation.Stats.{
  CurationStats, skip, see, curate, unknown_account, malformed_value, Semantic, bulk_upsert,
}
use bank_ods_unified_api.Services.Identifiers.{account_id_from_custody}

unfoldable pub balance_id : Text → Text → Text → Text
balance_id account_id currency file_date =
    codes "BAL-" ++ without_dashes account_id ++ codes "-" ++ currency ++ codes "-" ++ file_date

-- The fields of a landed movement, and of one that is consumed; a null counts as absent.
pub record Movement : Type 0 where
  pub acct_nbr : Option Text
  pub currency : Option Text
  pub file_date : Option Text
  pub amount : Option Text

-- What `_opening_balance` reads of a document of `cash_balances`.
pub record BalanceDoc : Type 0 where
  pub account_id : Text
  pub currency : Text
  pub as_of : Date
  pub snapshot_type : Text
  pub closing : Option ℤ

-- An account, a currency and a file's date.
pub record Key : Type 0 where
  pub account_id : Text
  pub currency : Text
  pub file_date : Text

pub record CashBalance : Type 0 where
  pub balance_id : Text
  pub account_id : Text
  pub currency : Text
  pub as_of_date : Date
  pub opening_balance : ℤ
  pub credits : ℤ
  pub debits : ℤ
  pub closing_balance : ℤ
  pub pending_credits : ℤ
  pub pending_debits : ℤ
  pub projected_balance : ℤ
  pub snapshot_type : String
  pub updated_at : Text

pub record BalanceUpsert : Type 0 where
  pub key : Text × Text × Date
  pub doc : CashBalance
  pub created_at : Text

-- The filter of the opening balance.
unfoldable pub is_prior : Text → Text → Date → BalanceDoc → Bool
is_prior account_id currency as_of b =
    eq_text b.account_id account_id
    && eq_text b.currency currency
    && before b.as_of as_of
    && eq_text b.snapshot_type (codes "EOD")

abbrev pub later_of : BalanceDoc → Option BalanceDoc → Option BalanceDoc
later_of b none = some b
later_of b (some c) = if before b.as_of c.as_of then some c else some b

-- `find_one(filter, sort=[("asOfDate", -1)])`
unfoldable pub latest_prior : Text → Text → Date → List BalanceDoc → Option BalanceDoc
latest_prior account_id currency as_of [] = none
latest_prior account_id currency as_of (b ∷ bs) =
    let rest = latest_prior account_id currency as_of bs in
    if is_prior account_id currency as_of b then later_of b rest else rest

abbrev pub or_nothing : Option ℤ → ℤ
or_nothing none = pos 0
or_nothing (some n) = n

abbrev pub closing_of : Option BalanceDoc → ℤ
closing_of none = pos 0
closing_of (some b) = or_nothing b.closing

unfoldable pub opening_balance : List BalanceDoc → Text → Text → Date → ℤ
opening_balance balances account_id currency as_of =
    closing_of (latest_prior account_id currency as_of balances)

-- `account_id_from_custody(...) != account_id`, negated.
abbrev pub is_account : Text → Option Text → Bool
is_account account_id none = false
is_account account_id (some other) = eq_text other account_id

abbrev pub has_text : Text → Option Text → Bool
has_text t none = false
has_text t (some other) = eq_text other t

-- The movement is of this currency and date, and then of this account.
unfoldable pub is_of : Key → Movement → Bool
is_of k m =
    has_text k.file_date m.file_date
    && has_text k.currency m.currency
    && is_account k.account_id (account_id_from_custody (or_blank m.acct_nbr))

-- The two sums, and whether a movement of the account was seen.
pub record Sums : Type 0 where
  pub credits : ℤ
  pub debits : ℤ
  pub seen : Bool

abbrev pub no_sums : Sums
no_sums = record { credits = pos 0; debits = pos 0; seen = false }

module _ (decimal : Text → Option ℤ) where
  -- `plain_decimal`: an absent amount, an amount, or the DecodeError.
  unfoldable pub plain_decimal : Option Text → Decoded (Option ℤ)
  plain_decimal raw =
      let s = strip (or_blank raw) in
      if is_empty s then ok none else elim (decimal s) [
        | none ↦ fails (DecodeError.non_numeric (or_blank raw))
        | some n ↦ ok (some n)
      ]

  abbrev pub add_amount : Decoded (Option ℤ) → Sums → Sums
  add_amount (fails e) s = record s { seen = true }
  add_amount (ok none) s = record s { seen = true }
  add_amount (ok (some n)) s =
      if ltb_ℤ n (pos 0)
      then record { credits = s.credits; debits = s.debits +ℤ neg n; seen = true }
      else record { credits = s.credits +ℤ n; debits = s.debits; seen = true }

  -- The loop over the cursor.
  unfoldable pub sum_movements : Key → List Movement → Sums → Sums
  sum_movements k [] s = s
  sum_movements k (m ∷ ms) s =
      sum_movements k ms (if is_of k m then add_amount (plain_decimal m.amount) s else s)

  unfoldable pub balance_of : Key → Date → ℤ → Sums → Text → CashBalance
  balance_of k as_of opening s now =
      let closing = opening +ℤ s.credits -ℤ s.debits in
      record {
        balance_id = balance_id k.account_id k.currency k.file_date;
        account_id = k.account_id;
        currency = k.currency;
        as_of_date = as_of;
        opening_balance = opening;
        credits = s.credits;
        debits = s.debits;
        closing_balance = closing;
        pending_credits = pos 0;
        pending_debits = pos 0;
        projected_balance = closing;
        snapshot_type = "INTRADAY";
        updated_at = now;
      }

  abbrev pub rebuilt : Key → Date → List BalanceDoc → Sums → Text → Option BalanceUpsert
  rebuilt k as_of balances s now =
      if s.seen
      then some record {
        key = (k.account_id, k.currency, as_of);
        doc = balance_of k as_of (opening_balance balances k.account_id k.currency as_of) s now;
        created_at = now;
      }
      else none

  abbrev pub recompute_on :
      Decoded Date → Key → List Movement → List BalanceDoc → Text → Decoded (Option BalanceUpsert)
  recompute_on (fails e) k landed balances now = fails e
  recompute_on (ok as_of) k landed balances now =
      ok (rebuilt k as_of balances (sum_movements k landed no_sums) now)

  unfoldable pub recompute :
      Key → List Movement → List BalanceDoc → Text → Decoded (Option BalanceUpsert)
  recompute k = recompute_on (ccyymmdd_to_datetime (some k.file_date)) k

-- `(account_id, currency, file_date)` in the order of tuples.
unfoldable pub compare_keys : Key → Key → Ordering
compare_keys a b = elim (compare_text a.account_id b.account_id) [
  | Ordering.eq ↦ elim (compare_text a.currency b.currency) [
    | Ordering.eq ↦ compare_text a.file_date b.file_date
    | Ordering.lt ↦ Ordering.lt
    | Ordering.gt ↦ Ordering.gt
  ]
  | Ordering.lt ↦ Ordering.lt
  | Ordering.gt ↦ Ordering.gt
]

-- `touched.add(key)`, where the set is kept as `sorted` will give it.
unfoldable pub touch : Key → List Key → List Key
touch k [] = k ∷ []
touch k (j ∷ ks) =
    let rest = touch k ks in
    elim (compare_keys k j) [
      | Ordering.lt ↦ k ∷ j ∷ ks
      | Ordering.eq ↦ j ∷ ks
      | Ordering.gt ↦ j ∷ rest
    ]

-- What a consumed movement touches, or why it is skipped.
abbrev pub touch_fields :
    Option Text → Option Text → Option Text → List Key × CurationStats → List Key × CurationStats
touch_fields none currency file_date (ks, stats) = (ks, skip unknown_account stats)
touch_fields (some a) none file_date (ks, stats) = (ks, skip malformed_value stats)
touch_fields (some a) (some c) none (ks, stats) = (ks, skip malformed_value stats)
touch_fields (some a) (some c) (some d) (ks, stats) =
    (touch record { account_id = a; currency = c; file_date = d } ks, stats)

-- The first loop of `curate_batch`.
unfoldable pub touch_all : List Movement → List Key × CurationStats → List Key × CurationStats
touch_all [] state = state
touch_all (m ∷ ms) (ks, stats) = touch_all ms (
    touch_fields (account_id_from_custody (or_blank m.acct_nbr)) (non_empty m.currency)
      (non_empty m.file_date) (ks, see stats))

abbrev pub count_balance :
    Decoded (Option BalanceUpsert)
    → List BalanceUpsert × CurationStats
    → List BalanceUpsert × CurationStats
count_balance (fails e) (ops, stats) = (ops, skip malformed_value stats)
count_balance (ok none) (ops, stats) = (ops, stats)
count_balance (ok (some op)) (ops, stats) = (ops ++ op ∷ [], curate stats)

module _ (decimal : Text → Option ℤ) (landed : List Movement) (balances : List BalanceDoc)
    (now : Text) where
  -- The second loop of `curate_batch`.
  unfoldable pub recompute_all :
      List Key → List BalanceUpsert × CurationStats → List BalanceUpsert × CurationStats
  recompute_all [] state = state
  recompute_all (k ∷ ks) state =
      recompute_all ks (count_balance (recompute decimal k landed balances now) state)

  unfoldable pub curate_batch :
      (sem : Semantic BalanceUpsert)
      → List Movement
      → CurationStats
      → sem.Db
      → (ℕ × sem.Db) × CurationStats
  curate_batch sem records stats db =
      let (touched, seen) = touch_all records ([], stats) in
      let (operations, after) = recompute_all touched ([], seen) in
      (bulk_upsert sem operations db, after)
