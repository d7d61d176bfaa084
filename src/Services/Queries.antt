-- ===== src/Services/Queries.antt =====
-- src/bank_ods/services/accounts.py, balances.py, positions.py, securities.py, settlements.py,
-- transactions.py and raw.py: what each service asks of generic.py. A parameter that is optional
-- filters only if it is not empty.
use bank_ods_unified_api.Prelude.{ℕ, String, Option, none, some, [], ◌∷◌, ◌++◌}
use bank_ods_unified_api.Prelude.Text.{Text, codes}
use bank_ods_unified_api.Prelude.Dict.{Dict}
use bank_ods_unified_api.Prelude.Index.{non_empty}
use bank_ods_unified_api.Topics.{Model}
use bank_ods_unified_api.Services.Cursor.{SortSpec, ascending, descending}
use bank_ods_unified_api.Services.Dates.{
  Instant, Window, Windowed, window, invalid_date, overflow, day_range, date_window,
}

pub data FilterValue : Type 0 where
  equal_to : Text → FilterValue
  within : Window → FilterValue

abbrev pub Query : Type 0
Query = Dict FilterValue

-- The page that is asked for: `limit` and `cursor`.
pub record Paging : Type 0 where
  pub limit : ℕ
  pub cursor : Option Text

-- The call of generic.py, the INVALID_DATE envelope, or the OverflowError, which no service catches.
pub data Request : Type 0 where
  one : String → Query → Request
  many : String → Query → SortSpec → Paging → Request
  bad_date : Request
  raised_overflow : Request

-- `if value: query[field] = value`
abbrev pub filter_of : String → Option Text → Query
filter_of field none = []
filter_of field (some value) = (field, equal_to value) ∷ []

abbrev pub optional : String → Option Text → Query
optional field value = filter_of field (non_empty value)

-- The `try` block around a date filter.
abbrev pub with_window : Windowed → (Window → Request) → Request
with_window (window w) ask = ask w
with_window invalid_date ask = bad_date
with_window overflow ask = raised_overflow

unfoldable pub get_account : Text → Request
get_account account_id = one "accounts" (("accountId", equal_to account_id) ∷ [])

unfoldable pub list_accounts :
    Option Text → Option Text → Option Text → Option Text → Paging → Request
list_accounts client_id status lei domicile page =
    many "accounts"
      (optional "client.clientId" client_id
        ++ optional "status" status
        ++ optional "client.lei" lei
        ++ optional "client.countryOfDomicile" domicile)
      (("accountId", ascending) ∷ []) page

unfoldable pub get_security : Text → Request
get_security security_id = one "securities" (("securityId", equal_to security_id) ∷ [])

unfoldable pub get_security_by_sedol : Text → Request
get_security_by_sedol sedol = one "securities" (("listings.sedol", equal_to sedol) ∷ [])

unfoldable pub list_securities :
    Option Text → Option Text → Option Text → Option Text → Paging → Request
list_securities asset_class ticker status sedol page =
    many "securities"
      (optional "assetClass" asset_class
        ++ optional "ticker" ticker
        ++ optional "status" status
        ++ optional "listings.sedol" sedol)
      (("securityId", ascending) ∷ []) page

unfoldable pub get_transaction : Text → Request
get_transaction id = one "transactions" (("transactionId", equal_to id) ∷ [])

unfoldable pub get_settlement : Text → Request
get_settlement id = one "settlements" (("settlementId", equal_to id) ∷ [])

unfoldable pub get_settlement_status : Text → Request
get_settlement_status id = one "settlements" (("transactionId", equal_to id) ∷ [])

unfoldable pub get_raw_record : Model → Text → Request
get_raw_record model id = one model.collection ((model.id_field, equal_to id) ∷ [])

-- `sort` is the model's DEFAULT_SORT.
unfoldable pub list_raw_records : Model → SortSpec → Paging → Request
list_raw_records model sort page = many model.collection [] sort page

module _ (from_iso : Text → Option Instant) where
  unfoldable pub get_cash_balance : Text → Text → Text → Request
  get_cash_balance account_id currency date = with_window (day_range from_iso date) λ w.
      one "cash_balances" (
        ("accountId", equal_to account_id)
        ∷ ("currency", equal_to currency)
        ∷ ("asOfDate", within w)
        ∷ [])

  unfoldable pub get_cash_balances : Text → Text → Paging → Request
  get_cash_balances account_id date page = with_window (day_range from_iso date) λ w.
      many "cash_balances" (("accountId", equal_to account_id) ∷ ("asOfDate", within w) ∷ [])
        (("currency", ascending) ∷ []) page

  unfoldable pub get_position : Text → Text → Text → Request
  get_position account_id security_id date = with_window (day_range from_iso date) λ w.
      one "positions" (
        ("accountId", equal_to account_id)
        ∷ ("securityId", equal_to security_id)
        ∷ ("asOfDate", within w)
        ∷ [])

  unfoldable pub get_positions : Text → Text → Paging → Request
  get_positions account_id date page = with_window (day_range from_iso date) λ w.
      many "positions" (("accountId", equal_to account_id) ∷ ("asOfDate", within w) ∷ [])
        (("securityId", ascending) ∷ []) page

  unfoldable pub get_position_history : Text → Text → Text → Text → Paging → Request
  get_position_history account_id security_id from_date to_date page =
      with_window (date_window from_iso from_date to_date) λ w.
        many "positions"
          (("accountId", equal_to account_id)
            ∷ ("securityId", equal_to security_id)
            ∷ ("asOfDate", within w)
            ∷ [])
          (("asOfDate", ascending) ∷ []) page

  unfoldable pub get_transactions :
      Text → Text → Text → Option Text → Option Text → Paging → Request
  get_transactions account_id from_date to_date status transaction_type page =
      with_window (date_window from_iso from_date to_date) λ w.
        many "transactions"
          (("accountId", equal_to account_id)
            ∷ ("tradeDate", within w)
            ∷ (optional "status" status ++ optional "transactionType" transaction_type))
          (("tradeDate", descending) ∷ []) page

  unfoldable pub get_settlements : Text → Text → Option Text → Paging → Request
  get_settlements account_id date status page = with_window (day_range from_iso date) λ w.
      many "settlements"
        (("accountId", equal_to account_id)
          ∷ ("settlementDate", within w)
          ∷ optional "status" status)
        (("settlementId", ascending) ∷ []) page

  unfoldable pub get_settlement_fails : Text → Text → Option Text → Paging → Request
  get_settlement_fails from_date to_date account_id page =
      with_window (date_window from_iso from_date to_date) λ w.
        many "settlements"
          (("status", equal_to (codes "FAILED"))
            ∷ ("settlementDate", within w)
            ∷ optional "accountId" account_id)
          (("settlementDate", descending) ∷ []) page
