-- ===== src/Services/Ops/Crm.antt =====
-- src/bank_ods/services/ops.py: `reconcile_crm_accounts`. The events of the raw tier and the accounts are
-- those of the collections in their order, and events with the same LSN keep it.
pub mod Curator
use bank_ods_unified_api.Prelude.{
  ℕ, suc, String, Bool, true, false, not, ◌&&◌, Option, none, some, List, [], ◌∷◌, length, take,
  if◌then◌else◌, str_eq,
}
use bank_ods_unified_api.Prelude.Text.{Text, codes, eq_text, lt_text}
use bank_ods_unified_api.Prelude.Dict.{lookup}
use bank_ods_unified_api.Prelude.Index.{Index, get, get_if, put, non_empty}
use bank_ods_unified_api.Curation.Crm.Master.{Account, account_status, decode_code, lower}
use bank_ods_unified_api.Curation.Crm.Accounts.{Accounts}
use bank_ods_unified_api.Sink.Extractors.{State, ChangeEvent, field}

unfoldable pub insert_by_lsn : ChangeEvent → List ChangeEvent → List ChangeEvent
insert_by_lsn e [] = e ∷ []
insert_by_lsn e (f ∷ es) =
    let rest = insert_by_lsn e es in if lt_text f.lsn e.lsn then f ∷ rest else e ∷ f ∷ es

-- `find({}).sort("LSN", ASCENDING)`
unfoldable pub sort_by_lsn : List ChangeEvent → List ChangeEvent
sort_by_lsn [] = []
sort_by_lsn (e ∷ es) = insert_by_lsn e (sort_by_lsn es)

-- `latest[event["PK"]] = event`
unfoldable pub latest_of : List ChangeEvent → Index ChangeEvent → Index ChangeEvent
latest_of [] latest = latest
latest_of (e ∷ es) latest = latest_of es (put e.pk e latest)

abbrev pub client_name_in : Option State → Option Text
client_name_in none = none
client_name_in (some after) = non_empty (field "client_name" after)

abbrev pub note_name : Text → Option Text → Index Text → Index Text
note_name pk none names = names
note_name pk (some name) names = put pk name names

unfoldable pub client_names_of : List ChangeEvent → Index Text → Index Text
client_names_of [] names = names
client_names_of (e ∷ es) names = client_names_of es (note_name e.pk (client_name_in e.after) names)

pub data CrmIssue : Type 0 where
  missing : Text → Text → CrmIssue
  status_mismatch : Text → String → String → CrmIssue
  stale_client_embed : Text → Text → Text → Text → CrmIssue

-- What the body of the loop comes to: `matched`, an issue, or the AttributeError of `None.lower()`.
pub data Verdict : Type 0 where
  agrees no_lower : Verdict
  differs : CrmIssue → Verdict

-- `{...}.get(after.get("status", "").lower(), "ACTIVE")`, where a key may hold a null.
abbrev pub status_in : Option (Option Text) → Option String
status_in none = some (decode_code account_status (lower []) "ACTIVE")
status_in (some none) = none
status_in (some (some status)) = some (decode_code account_status (lower status) "ACTIVE")

abbrev pub status_after : Option State → Option String
status_after none = some "CLOSED"
status_after (some after) = status_in (lookup "status" after)

unfoldable pub expected_status : ChangeEvent → Option String
expected_status e = if eq_text e.op (codes "d") then some "CLOSED" else status_after e.after

abbrev pub check_name : Text → Account → Option Text → Verdict
check_name account_nbr curated none = agrees
check_name account_nbr curated (some name) =
    if not (eq_text curated.client.client_name name)
    then differs
        (stale_client_embed account_nbr curated.client.client_id curated.client.client_name name)
    else agrees

abbrev pub check_status : Index Text → Text → Account → Option String → Verdict
check_status names account_nbr curated none = no_lower
check_status names account_nbr curated (some expected) =
    if not (str_eq curated.status expected)
    then differs (status_mismatch account_nbr curated.status expected)
    else check_name account_nbr curated
        (non_empty (get_if (non_empty (some curated.client.client_id)) names))

unfoldable pub check_account : Index Text → Text → ChangeEvent → Option Account → Verdict
check_account names account_nbr e none = differs (missing account_nbr e.op)
check_account names account_nbr e (some curated) =
    check_status names account_nbr curated (expected_status e)

-- `matched` and `issues`.
abbrev pub CrmTally : Type 0
CrmTally = ℕ × List CrmIssue

abbrev pub count_verdict : Verdict → Option CrmTally → Option CrmTally
count_verdict no_lower rest = none
count_verdict agrees none = none
count_verdict agrees (some (matched, issues)) = some (suc matched, issues)
count_verdict (differs issue) none = none
count_verdict (differs issue) (some (matched, issues)) = some (matched, issue ∷ issues)

-- The loop over the accounts of the change log; `none` where it raises.
unfoldable pub check_accounts : Index Text → Accounts → Index ChangeEvent → Option CrmTally
check_accounts names accounts [] = some (0, [])
check_accounts names accounts ((account_nbr, e) ∷ latest) =
    count_verdict (check_account names account_nbr e (get account_nbr accounts))
      (check_accounts names accounts latest)

pub record CrmReconciliation : Type 0 where
  pub accounts_in_change_log : ℕ
  pub matched : ℕ
  pub unmatched : ℕ
  pub issues : List CrmIssue

pub data CrmReport : Type 0 where
  empty_change_log attribute_error : CrmReport
  compared : CrmReconciliation → CrmReport

abbrev pub crm_report : Index ChangeEvent → Option CrmTally → CrmReport
crm_report latest none = attribute_error
crm_report latest (some (matched, issues)) = compared record {
  accounts_in_change_log = length latest;
  matched = matched;
  unmatched = length issues;
  issues = take 20 issues;
}

unfoldable pub reconcile_crm_accounts : List ChangeEvent → List ChangeEvent → Accounts → CrmReport
reconcile_crm_accounts [] client_events accounts = empty_change_log
reconcile_crm_accounts (e ∷ es) client_events accounts =
    let latest = latest_of (sort_by_lsn (e ∷ es)) [] in
    let names = client_names_of (sort_by_lsn client_events) [] in
    crm_report latest (check_accounts names accounts latest)
