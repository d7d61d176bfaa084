-- ===== src/Curation/Cash/Tests.antt =====
-- Movements of one day, and instances of the theorems on the balance.
use bank_ods_unified_api.Prelude.{Option, none, some, List, [], ◌∷◌, ◌==◌, if◌then◌else◌}
use bank_ods_unified_api.Prelude.Text.{Text, codes}
use bank_ods_unified_api.Prelude.Int.{ℤ, pos, negsuc}
use bank_ods_unified_api.Curation.Cash.{Movement, Key, recompute}
use bank_ods_unified_api.Curation.Cash.Balance.{IsBalanced, recompute-IsBalanced}

-- Amounts of one letter, for the test: a credit of 500 or a debit of 200.
abbrev amounts : Text → Option ℤ
amounts [] = none
amounts (c ∷ s) = if c == b'+' then some (pos 500) else some (negsuc 199)

abbrev movement : Text → Movement
movement amount = record {
  acct_nbr = some (codes "000000000007");
  currency = some (codes "USD");
  file_date = some (codes "20260130");
  amount = some amount;
}

abbrev key : Key
key = record {
  account_id = codes "ACC-000007";
  currency = codes "USD";
  file_date = codes "20260130";
}

abbrev landed : List Movement
landed = movement (codes "+") ∷ movement (codes "-") ∷ []

recompute-IsBalanced_example :
    IsBalanced amounts key landed (recompute amounts key landed [] (codes "now"))
recompute-IsBalanced_example = recompute-IsBalanced amounts key landed [] (codes "now")
