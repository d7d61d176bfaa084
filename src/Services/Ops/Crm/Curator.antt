-- ===== src/Services/Ops/Crm/Curator.antt =====
-- src/bank_ods/services/ops.py and src/ods_ingest/curation/crm_accounts.py: the status that the
-- reconciliation expects beside the one that the curator gives.
use bank_ods_unified_api.Prelude.{
  ℕ, suc, ◌+◌, ◌≡◌, refl, String, false, Option, none, some, [], ◌∷◌, length, arith,
}
use bank_ods_unified_api.Prelude.Text.{Text, codes, eq_text}
use bank_ods_unified_api.Prelude.Dict.{lookup}
use bank_ods_unified_api.Prelude.Index.{Index, get, or_blank}
use bank_ods_unified_api.Curation.Crm.Master.{ClientMaster, account_status, decode_code, lower}
use bank_ods_unified_api.Curation.Crm.Events.{Clock, account_of}
use bank_ods_unified_api.Curation.Crm.Accounts.{Accounts}
use bank_ods_unified_api.Sink.Extractors.{State, ChangeEvent, value_of}
use bank_ods_unified_api.Services.Ops.Crm.{
  status_in, expected_status, CrmTally, Verdict, agrees, no_lower, differs, count_verdict,
  check_account, check_accounts,
}

status_in-coded :
    (status : Option (Option Text)) (s : String)
    → status_in status ≡ some s
    → decode_code account_status (lower (or_blank (value_of status))) "ACTIVE" ≡ s
status_in-coded none s h = cc
status_in-coded (some none) s h = cc
status_in-coded (some (some status)) s h = cc

-- The status that the reconciliation expects of an account whose last event is not a delete is the
-- status of the account that the curator makes of the event.
pub status-account_of :
    (clock : Clock) (now : Text) (row : State) (client : ClientMaster) (e : ChangeEvent)
    (s : String)
    → eq_text e.op (codes "d") ≡ false
    → e.after ≡ some row
    → expected_status e ≡ some s
    → (account_of clock now e.pk row client).status ≡ s
unfolding expected_status account_of
status-account_of clock now row client e s h a x =
    status_in-coded (lookup "status" row) s (rw (h, a) at x)

-- Where nothing was raised, each of the accounts is matched or has one issue.
abbrev pub IsAccounted : ℕ → Option CrmTally → Type 0
IsAccounted n none = Unit
IsAccounted n (some (matched, issues)) = matched + length issues ≡ n

count_verdict-IsAccounted :
    (v : Verdict) (rest : Option CrmTally) (n : ℕ)
    → IsAccounted n rest
    → IsAccounted (suc n) (count_verdict v rest)
count_verdict-IsAccounted no_lower rest n h = tt
count_verdict-IsAccounted agrees none n h = tt
count_verdict-IsAccounted agrees (some (m, is)) n h = omega arith
count_verdict-IsAccounted (differs i) none n h = tt
count_verdict-IsAccounted (differs i) (some (m, is)) n h = omega arith

-- Every account of the change log is matched or has one issue, unless the query raises.
pub check_accounts-IsAccounted :
    (names : Index Text) (accounts : Accounts) (latest : Index ChangeEvent)
    → IsAccounted (length latest) (check_accounts names accounts latest)
unfolding check_accounts
check_accounts-IsAccounted names accounts [] = refl
check_accounts-IsAccounted names accounts ((k, e) ∷ latest) =
    count_verdict-IsAccounted (check_account names k e (get k accounts))
      (check_accounts names accounts latest) (length latest)
      (check_accounts-IsAccounted names accounts latest)
