-- ===== src/Curation/Cash/Balance.antt =====
-- src/ods_ingest/curation/cash_movements.py: what a rebuilt balance says of the movements that have
-- landed.
use bank_ods_unified_api.Prelude.{
  ◌+◌, ◌≤◌, ◌<◌, ◌≡◌, refl, Bool, true, false, Option, none, some, List, [], ◌∷◌, arith,
  if◌then◌else◌, if-cases,
}
use bank_ods_unified_api.Prelude.Text.{Text}
use bank_ods_unified_api.Prelude.Int.{
  ℤ, pos, neg, ◌+ℤ◌, ◌-ℤ◌, ltb_ℤ, ◌≤ℤ◌, int_laws, +ℤ_parts, pos_part, neg_part, eq_of_parts,
}
use bank_ods_unified_api.Curation.Decode.{Decoded, ok, fails}
use bank_ods_unified_api.Curation.Decode.Dates.{Date}
use bank_ods_unified_api.Curation.Cash.{
  Movement, BalanceDoc, BalanceUpsert, Key, Sums, no_sums, is_of, plain_decimal, add_amount,
  sum_movements, balance_of, recompute_on, recompute,
}

-- The amount that a movement adds, where it can be read.
abbrev pub amount_of : Decoded (Option ℤ) → ℤ
amount_of (fails e) = pos 0
amount_of (ok none) = pos 0
amount_of (ok (some n)) = n

-- Equal integers, as the tactics read them.
abbrev Same : ℤ → ℤ → Type 0
Same a b = pos_part a + neg_part b ≡ pos_part b + neg_part a

-- Credits and debits are not negative.
abbrev IsSigned : Sums → Type 0
IsSigned s = (pos 0 ≤ℤ s.credits) × (pos 0 ≤ℤ s.debits)

-- From `s` to `t` the sums have moved by this amount.
abbrev Moves : Sums → ℤ → Sums → Type 0
Moves s n t = IsSigned t × Same (t.credits -ℤ t.debits) (s.credits -ℤ s.debits +ℤ n)

module _ (decimal : Text → Option ℤ) where
  -- The sum of the amounts of the account, currency and day, with their signs.
  unfoldable pub total : Key → List Movement → ℤ
  total k [] = pos 0
  total k (m ∷ ms) =
      (if is_of k m then amount_of (plain_decimal decimal m.amount) else pos 0) +ℤ total k ms

  add_amount-Moves :
      (d : Decoded (Option ℤ)) (s : Sums)
      → IsSigned s
      → Moves s (amount_of d) (add_amount decimal d s)
  add_amount-Moves (fails e) s h = (h, omega int_laws)
  add_amount-Moves (ok none) s h = (h, omega int_laws)
  add_amount-Moves (ok (some n)) s h =
      if-cases (Moves s n) (ltb_ℤ n (pos 0)) _ _
        (λ e.
          let below : pos_part n < neg_part n = ground arith in
          ((h.0, ground (arith, below, +ℤ_parts s.debits (neg n))), grind (int_laws, below)))
        (λ e.
          let above : neg_part n ≤ pos_part n = ground arith in
          ((omega int_laws, h.1), omega int_laws))

  step-Moves :
      (b : Bool) (d : Decoded (Option ℤ)) (s : Sums)
      → IsSigned s
      → Moves s (if b then amount_of d else pos 0) (if b then add_amount decimal d s else s)
  step-Moves true d s h = add_amount-Moves d s h
  step-Moves false d s h = (h, omega int_laws)

  sum_movements-Moves :
      (k : Key) (ms : List Movement) (s : Sums)
      → IsSigned s
      → Moves s (total k ms) (sum_movements decimal k ms s)
  unfolding sum_movements total
  sum_movements-Moves k [] s h = (h, omega int_laws)
  sum_movements-Moves k (m ∷ ms) s h =
      let (signed, moved) = step-Moves (is_of k m) (plain_decimal decimal m.amount) s h in
      let (signed', moved') = sum_movements-Moves k ms _ signed in (signed', omega int_laws)

  -- What holds of the balance, where one is rebuilt.
  abbrev pub IsBalanced : Key → List Movement → Decoded (Option BalanceUpsert) → Type 0
  IsBalanced k landed (fails e) = Unit
  IsBalanced k landed (ok none) = Unit
  IsBalanced k landed (ok (some b)) =
      (b.doc.closing_balance ≡ b.doc.opening_balance +ℤ total k landed)
      × (b.doc.closing_balance ≡ b.doc.opening_balance +ℤ b.doc.credits -ℤ b.doc.debits)
      × (b.doc.projected_balance ≡ b.doc.closing_balance)
      × (pos 0 ≤ℤ b.doc.credits)
      × (pos 0 ≤ℤ b.doc.debits)
      × (b.doc.pending_credits ≡ pos 0)
      × (b.doc.pending_debits ≡ pos 0)

  recompute_on-IsBalanced :
      (d : Decoded Date) (k : Key) (landed : List Movement) (balances : List BalanceDoc)
      (now : Text)
      → IsBalanced k landed (recompute_on decimal d k landed balances now)
  unfolding balance_of
  recompute_on-IsBalanced (fails e) k landed balances now = tt
  recompute_on-IsBalanced (ok as_of) k landed balances now =
      let (signed, sum) = sum_movements-Moves k landed no_sums (omega int_laws, omega int_laws) in
      if-cases (λ r. IsBalanced k landed (ok r)) (sum_movements decimal k landed no_sums).seen _ _
        (λ e. (eq_of_parts _ _ (omega int_laws), refl, refl, signed.0, signed.1, refl, refl))
        (λ e. tt)

  -- A balance that is rebuilt closes at the opening balance plus the sum of every landed amount of
  -- its account, currency and day that can be read, which is the opening balance plus the credits
  -- minus the debits; credits and debits are not negative, and nothing is pending.
  pub recompute-IsBalanced :
      (k : Key) (landed : List Movement) (balances : List BalanceDoc) (now : Text)
      → IsBalanced k landed (recompute decimal k landed balances now)
  unfolding recompute
  recompute-IsBalanced k landed balances now = recompute_on-IsBalanced _ k landed balances now
