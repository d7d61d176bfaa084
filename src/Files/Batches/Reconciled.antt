-- ===== src/Files/Batches/Reconciled.antt =====
-- A batch without a control error reconciles with its trailer.
use mathlib.Core.Path.{ap₂}
use bank_ods_unified_api.Prelude.{
  ◌+◌, ◌≡◌, refl, ap, ◌∙◌, Bool, true, false, not, Option, none, some, List, [], ◌∷◌, length, arith,
  if◌then◌else◌,
}
use bank_ods_unified_api.Prelude.Text.{Text, eq_text, eq_text_iff}
use bank_ods_unified_api.Prelude.Dict.{Dict}
use bank_ods_unified_api.Prelude.Strip.{is_empty}
use bank_ods_unified_api.Prelude.Int.{ℤ, pos, negsuc}
use bank_ods_unified_api.Prelude.Numeral.{parse_int}
use bank_ods_unified_api.Curation.Decode.{Decoded, ok, fails, Decimal, zoned_to_decimal}
use bank_ods_unified_api.Files.Batches.{
  Contents, at_field, sum_control_totals, eq_ℤ, totals_error, count_error, trailer_error,
  or_no_header, cycle_of, control_error_of, parse_custody_file,
}

-- What a batch and its trailer agree on.
pub record Reconciles (cycle_date : Text) (trailer : Dict Text) (c : Contents) : Type 0 where
  pub cycle : at_field "TRL_BUS_DATE" trailer ≡ cycle_date
  pub no_rejects : c.rejects ≡ []
  pub count : parse_int (at_field "TRL_REC_COUNT" trailer) ≡ some (pos (length c.details))
  pub qty : Decimal
  pub value : Decimal
  pub totals : sum_control_totals c.details ≡ ok (qty.mantissa, value.mantissa)
  pub declared_qty : zoned_to_decimal (at_field "TRL_TOT_SHR_QTY" trailer) 4 false ≡ ok qty
  pub declared_value : zoned_to_decimal (at_field "TRL_TOT_MKT_VALUE" trailer) 2 false ≡ ok value

eq_ℤ-eq : (a b : ℤ) → eq_ℤ a b ≡ true → a ≡ b
eq_ℤ-eq (pos m) (pos n) h = ground arith
eq_ℤ-eq (negsuc m) (negsuc n) h = ground arith
eq_ℤ-eq (pos m) (negsuc n) h = cc
eq_ℤ-eq (negsuc m) (pos n) h = cc

-- A guard that raised no error was passed.
guard-none :
    {E : Type 0} (test : Bool) (e : E) (rest : Option E)
    → (if not test then some e else rest) ≡ none
    → (test ≡ true) × (rest ≡ none)
guard-none true e rest h = (refl, h)
guard-none false e rest h = cc

headed-none :
    {E : Type 0} (test : Bool) (e : E) (rest : Option E)
    → (if test then some e else rest) ≡ none
    → (test ≡ false) × (rest ≡ none)
headed-none true e rest h = cc
headed-none false e rest h = (refl, h)

totals_error-none :
    (totals : Decoded (ℤ × ℤ)) (q v : Decoded Decimal)
    → totals_error totals q v ≡ none
    → (qty : Decimal) × ((value : Decimal) × (totals ≡ ok (qty.mantissa, value.mantissa))
        × (q ≡ ok qty)
        × (v ≡ ok value))
unfolding totals_error
totals_error-none (fails e) q v h = cc
totals_error-none (ok t) (fails e) v h = cc
totals_error-none (ok t) (ok q) (fails e) h = cc
totals_error-none (ok (qty, value)) (ok q) (ok v) h =
    let (same_qty, rest) = guard-none (eq_ℤ qty q.mantissa) _ _ h in
    let (same_value, end) = guard-none (eq_ℤ value v.mantissa) _ _ rest in
    (
      q,
      (
        v,
        ap (λ t. ok t)
            (ap₂ (λ a b. (a, b)) (eq_ℤ-eq qty q.mantissa same_qty)
              (eq_ℤ-eq value v.mantissa same_value)),
        refl,
        refl,
      ),
    )

nil_of_empty : {A : Type 0} (xs : List A) → is_empty xs ≡ true → xs ≡ []
nil_of_empty [] h = refl
nil_of_empty (x ∷ xs) h = cc

-- The checks from the number of records on.
count_error-none :
    (declared : Option ℤ) (cycle_date : Text) (trailer : Dict Text) (c : Contents)
    → parse_int (at_field "TRL_REC_COUNT" trailer) ≡ declared
    → at_field "TRL_BUS_DATE" trailer ≡ cycle_date
    → count_error declared trailer c ≡ none
    → Reconciles cycle_date trailer c
unfolding count_error
count_error-none none cycle_date trailer c p day h = cc
count_error-none (some declared) cycle_date trailer c p day h =
    let (counted, rest) =
      guard-none (eq_ℤ declared (pos (length c.details + length c.rejects))) _ _ h in
    let (empty, rest') = guard-none (is_empty c.rejects) _ _ rest in
    let none_rejected = nil_of_empty c.rejects empty in
    let (qty, (value, totals, q, v)) =
      totals_error-none (sum_control_totals c.details)
        (zoned_to_decimal (at_field "TRL_TOT_SHR_QTY" trailer) 4 false)
        (zoned_to_decimal (at_field "TRL_TOT_MKT_VALUE" trailer) 2 false) rest' in
    let n : length c.details + length c.rejects ≡ length c.details =
      ap (λ rs. length c.details + length rs) none_rejected ∙ omega arith in
    record {
      cycle = day;
      no_rejects = none_rejected;
      count =
          p
          ∙ ap some
              (eq_ℤ-eq declared (pos (length c.details + length c.rejects)) counted ∙ ap pos n);
      qty = qty;
      value = value;
      totals = totals;
      declared_qty = q;
      declared_value = v;
    }

trailer_error-none :
    (cycle_date : Text) (trailer : Option (Dict Text)) (c : Contents)
    → trailer_error cycle_date trailer c ≡ none
    → (t : Dict Text) × (trailer ≡ some t) × Reconciles cycle_date t c
unfolding trailer_error
trailer_error-none cycle_date none c h = cc
trailer_error-none cycle_date (some t) c h =
    let (day, rest) = guard-none (eq_text (at_field "TRL_BUS_DATE" t) cycle_date) _ _ h in
    (
      t,
      refl,
      count_error-none (parse_int (at_field "TRL_REC_COUNT" t)) cycle_date t c refl
          ((eq_text_iff (at_field "TRL_BUS_DATE" t) cycle_date).0 day) rest,
    )

-- A file that is read without a control error has a header and a trailer for the same cycle and no
-- rejected line, the trailer declares the number of its details, and the sums of the two control
-- fields are exactly the declared ones.
pub parse_custody_file-Reconciles :
    (batch_id name : Text) (lines : List Text)
    → let batch = parse_custody_file batch_id name lines in
      batch.control_error ≡ none
      → (is_empty (or_no_header batch.contents.header) ≡ false)
        × ((t : Dict Text) × (batch.contents.trailer ≡ some t)
            × Reconciles batch.cycle_date t batch.contents)
unfolding parse_custody_file control_error_of
parse_custody_file-Reconciles batch_id name lines h =
    let batch = parse_custody_file batch_id name lines in
    let c = batch.contents in
    let (there, rest) =
      headed-none (is_empty (or_no_header c.header)) _ (trailer_error (cycle_of c) c.trailer c) h in
    (there, trailer_error-none (cycle_of c) c.trailer c rest)
