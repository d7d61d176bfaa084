-- ===== src/Services/Identifiers.antt =====
-- src/bank_ods/services/_common.py: the identifiers of the custody feed.
use bank_ods_unified_api.Prelude.{
  ℕ, suc, ◌-◌, ◌≡◌, ap, Option, none, some, ◌∷◌, ◌++◌, take, drop, ◌||◌, if◌then◌else◌,
}
use bank_ods_unified_api.Prelude.Text.{Text, codes, eq_text}
use bank_ods_unified_api.Prelude.Strip.{starts_with}
use bank_ods_unified_api.Prelude.Int.{ℤ, pos, negsuc}
use bank_ods_unified_api.Prelude.Numeral.{parse_int, show_padded, parse_int-show_padded}
use bank_ods_unified_api.Topics.{remove_prefix}

abbrev pub account_prefix : Text
account_prefix = codes "ACC-"

-- `f"{n:0wd}"`, where a sign takes one of the places.
abbrev pub format_int : ℕ → ℤ → Text
format_int w (pos n) = show_padded w n
format_int w (negsuc n) = b'-' ∷ show_padded (w - 1) (suc n)

abbrev pub formatted : ℕ → Option ℤ → Option Text
formatted w none = none
formatted w (some n) = some (format_int w n)

-- `none` is the ValueError.
unfoldable pub custody_acct_nbr : Text → Option Text
custody_acct_nbr account_id = formatted 12 (parse_int (remove_prefix account_prefix account_id))

abbrev pub with_account_prefix : Option Text → Option Text
with_account_prefix none = none
with_account_prefix (some digits) = some (account_prefix ++ digits)

unfoldable pub account_id_from_custody : Text → Option Text
account_id_from_custody acct_nbr = with_account_prefix (formatted 6 (parse_int acct_nbr))

-- `isin and isin[:2] in ("US", "CA")`
unfoldable pub cusip_from_isin : Option Text → Option Text
cusip_from_isin none = none
cusip_from_isin (some isin) =
    if eq_text (take 2 isin) (codes "US") || eq_text (take 2 isin) (codes "CA")
    then some (take 9 (drop 2 isin))
    else none

-- The account of any number goes to its custody key and back.
pub account_id_from_custody-custody_acct_nbr :
    (n : ℕ)
    → (custody_acct_nbr (account_prefix ++ show_padded 6 n) ≡ some (show_padded 12 n))
      × (account_id_from_custody (show_padded 12 n) ≡ some (account_prefix ++ show_padded 6 n))
unfolding custody_acct_nbr account_id_from_custody remove_prefix starts_with
account_id_from_custody-custody_acct_nbr n = (
  ap (formatted 12) (parse_int-show_padded 6 n),
  ap (λ z. with_account_prefix (formatted 6 z)) (parse_int-show_padded 12 n),
)
