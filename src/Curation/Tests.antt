-- ===== src/Curation/Tests.antt =====
-- Instances of the theorems on curation.
use bank_ods_unified_api.Prelude.{◌≡◌, arith, refl, some, true, false}
use bank_ods_unified_api.Prelude.Text.{codes}
use bank_ods_unified_api.Prelude.Strip.{strip}
use bank_ods_unified_api.Prelude.Int.{pos, negsuc}
use bank_ods_unified_api.Prelude.Numeral.{all_digits, digits_from, show_padded}
use bank_ods_unified_api.Curation.Decode.Dates.{is_leap, days_in_month}
use bank_ods_unified_api.Curation.Decode.Julian.{julian, no_such_day, julian_to_datetime, day_from}
use bank_ods_unified_api.Curation.Decode.{
  ok, zoned_to_decimal, decimal_to_zoned, split_last, index_of, in_context,
}
use bank_ods_unified_api.Curation.Decode.Zoned.{zoned_to_decimal-decimal_to_zoned}

zoned_to_decimal-decimal_to_zoned_example :
    (zoned_to_decimal (decimal_to_zoned (negsuc 123449) 9 2 true) 2 true
      ≡ ok record { mantissa = negsuc 123449; scale = 2 })
    × (zoned_to_decimal (decimal_to_zoned (pos 8505000) 9 2 false) 2 false
        ≡ ok record { mantissa = pos 8505000; scale = 2 })
zoned_to_decimal-decimal_to_zoned_example =
    zoned_to_decimal-decimal_to_zoned (negsuc 123449) 8505000 9 2 (omega arith) (omega arith)

negative_amount :
    zoned_to_decimal (codes "0000012345}") 2 true
    ≡ ok record { mantissa = negsuc 123449; scale = 2 }
unfolding zoned_to_decimal strip all_digits digits_from split_last index_of in_context
negative_amount = refl

-- 1.5 and 2.5 units of the last of 28 digits: half-way goes to the even digit.
rounded_test : in_context 10000000000000000000000000015 ≡ 10000000000000000000000000020
unfolding in_context show_padded
rounded_test = refl

rounded_even_test : in_context 10000000000000000000000000025 ≡ 10000000000000000000000000020
unfolding in_context show_padded
rounded_even_test = refl

leap_day_test :
    julian_to_datetime (some (codes "2024366"))
    ≡ julian record { year = 2024; month = 12; day = 31 }
unfolding julian_to_datetime day_from days_in_month is_leap strip all_digits digits_from
leap_day_test = refl

no_such_day_test : julian_to_datetime (some (codes "2023366")) ≡ no_such_day
unfolding julian_to_datetime day_from days_in_month is_leap strip all_digits digits_from
no_such_day_test = refl
