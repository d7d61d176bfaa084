-- ===== src/Curation/Cash/Order.antt =====
-- src/ods_ingest/curation/cash_movements.py: a rebuilt balance does not depend on the order in which
-- the movements landed.
use mathlib.Core.List.{Permᴰ}
use bank_ods_unified_api.Prelude.{
  ◌≡◌, refl, sym, ap, ◌∙◌, Bool, true, false, Option, none, some, List, if◌then◌else◌,
}
use bank_ods_unified_api.Prelude.Text.{Text}
use bank_ods_unified_api.Prelude.Int.{ℤ, pos, neg, ◌+ℤ◌, ltb_ℤ, int_laws}
use bank_ods_unified_api.Curation.Decode.{Decoded, ok, fails}
use bank_ods_unified_api.Curation.Decode.Dates.{Date}
use bank_ods_unified_api.Curation.Cash.{
  Movement, BalanceDoc, Key, Sums, no_sums, is_of, plain_decimal, add_amount, sum_movements,
  rebuilt, recompute_on, recompute,
}

-- The sums with two amounts added.
abbrev plus : ℤ → ℤ → Sums → Sums
plus credit debit s = record {
  credits = s.credits +ℤ credit;
  debits = s.debits +ℤ debit;
  seen = true;
}

plus_swap : (c d c' d' : ℤ) (s : Sums) → plus c d (plus c' d' s) ≡ plus c' d' (plus c d s)
plus_swap c d c' d' s =
    let credits : s.credits +ℤ c' +ℤ c ≡ s.credits +ℤ c +ℤ c' = omega int_laws in
    let debits : s.debits +ℤ d' +ℤ d ≡ s.debits +ℤ d +ℤ d' = omega int_laws in rw (credits, debits)

plus_zero_debit :
    (c : ℤ) (s : Sums)
    → record { credits = s.credits +ℤ c; debits = s.debits; seen = true } ≡ plus c (pos 0) s
plus_zero_debit c s = let debits : s.debits +ℤ pos 0 ≡ s.debits = omega int_laws in rw debits

plus_zero_credit :
    (d : ℤ) (s : Sums)
    → record { credits = s.credits; debits = s.debits +ℤ d; seen = true } ≡ plus (pos 0) d s
plus_zero_credit d s = let credits : s.credits +ℤ pos 0 ≡ s.credits = omega int_laws in rw credits

plus_zero :
    (s : Sums)
    → record { credits = s.credits; debits = s.debits; seen = true } ≡ plus (pos 0) (pos 0) s
plus_zero s =
    let credits : s.credits +ℤ pos 0 ≡ s.credits = omega int_laws in
    let debits : s.debits +ℤ pos 0 ≡ s.debits = omega int_laws in rw (credits, debits)

-- What an amount adds to the credits and to the debits.
abbrev credit : Decoded (Option ℤ) → ℤ
credit (fails e) = pos 0
credit (ok none) = pos 0
credit (ok (some n)) = if ltb_ℤ n (pos 0) then pos 0 else n

abbrev debit : Decoded (Option ℤ) → ℤ
debit (fails e) = pos 0
debit (ok none) = pos 0
debit (ok (some n)) = if ltb_ℤ n (pos 0) then neg n else pos 0

choose :
    (b : Bool) (n : ℤ) (s : Sums)
    → (if b
        then record { credits = s.credits; debits = s.debits +ℤ neg n; seen = true }
        else record { credits = s.credits +ℤ n; debits = s.debits; seen = true })
      ≡ plus (if b then pos 0 else n) (if b then neg n else pos 0) s
choose true n s = plus_zero_credit (neg n) s
choose false n s = plus_zero_debit n s

module _ (decimal : Text → Option ℤ) where
  add_amount-plus :
      (d : Decoded (Option ℤ)) (s : Sums) → add_amount decimal d s ≡ plus (credit d) (debit d) s
  add_amount-plus (fails e) s = plus_zero s
  add_amount-plus (ok none) s = plus_zero s
  add_amount-plus (ok (some n)) s = choose (ltb_ℤ n (pos 0)) n s

  add_amount_swap :
      (d e : Decoded (Option ℤ)) (s : Sums)
      → add_amount decimal d (add_amount decimal e s)
        ≡ add_amount decimal e (add_amount decimal d s)
  add_amount_swap d e s =
      add_amount-plus d (add_amount decimal e s)
      ∙ ap (plus (credit d) (debit d)) (add_amount-plus e s)
      ∙ plus_swap (credit d) (debit d) (credit e) (debit e) s
      ∙ sym (ap (plus (credit e) (debit e)) (add_amount-plus d s))
      ∙ sym (add_amount-plus e (add_amount decimal d s))

  abbrev step : Bool → Decoded (Option ℤ) → Sums → Sums
  step b d s = if b then add_amount decimal d s else s

  step_swap :
      (b c : Bool) (d e : Decoded (Option ℤ)) (s : Sums)
      → step b d (step c e s) ≡ step c e (step b d s)
  step_swap true true d e s = add_amount_swap d e s
  step_swap true false d e s = refl
  step_swap false true d e s = refl
  step_swap false false d e s = refl

  sum_movements-Perm :
      (k : Key) {ms ns : List Movement} (s : Sums)
      → Permᴰ ms ns
      → sum_movements decimal k ms s ≡ sum_movements decimal k ns s
  unfolding sum_movements
  sum_movements-Perm k s Permᴰ.nil = refl
  sum_movements-Perm k s (Permᴰ.cons {b = n} e p) = rw e (sum_movements-Perm k _ p)
  sum_movements-Perm k s (Permᴰ.swap {a' = m} {b' = n} {l = ms} e f) =
      rw (e, f)
        (ap (sum_movements decimal k ms) (
          step_swap (is_of k m) (is_of k n) (plain_decimal decimal m.amount)
            (plain_decimal decimal n.amount) s))
  sum_movements-Perm k s (Permᴰ.trans p q) = sum_movements-Perm k s p ∙ sum_movements-Perm k s q

  recompute_on-Perm :
      (d : Decoded Date) (k : Key) {landed other : List Movement} (balances : List BalanceDoc)
      (now : Text)
      → Permᴰ landed other
      → recompute_on decimal d k landed balances now ≡ recompute_on decimal d k other balances now
  recompute_on-Perm (fails e) k balances now p = refl
  recompute_on-Perm (ok as_of) k balances now p =
      ap (λ s. ok (rebuilt decimal k as_of balances s now)) (sum_movements-Perm k no_sums p)

  -- The balance that is rebuilt is the same in whatever order the movements are read.
  pub recompute-Perm :
      (k : Key) {landed other : List Movement} (balances : List BalanceDoc) (now : Text)
      → Permᴰ landed other
      → recompute decimal k landed balances now ≡ recompute decimal k other balances now
  unfolding recompute
  recompute-Perm k balances now p = recompute_on-Perm _ k balances now p
