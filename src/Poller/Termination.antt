-- ===== src/Poller/Termination.antt =====
-- src/ods_ingest/adapters/rest_poll/poller.py: the retries of a page and the loop over the pages end, and
-- their fuel is enough.
use bank_ods_unified_api.Prelude.{
  ℕ, zero, suc, ◌+◌, ◌<◌, ◌≡◌, refl, ap, ◌∙◌, true, false, Option, some, [], ◌∷◌, ◌==◌, arith,
}
use bank_ods_unified_api.Prelude.Text.{Text}
use bank_ods_unified_api.Poller.{
  Response, Fetched, fetched, failed, Sweep, max_attempts, fetch_page, on_page, sweep,
}

module _ {R : Type 0} (updated_at : R → Option Text) (get : ℕ → ℕ → Response R) where
  -- What a page comes to is not asked for with another page.
  abbrev pub IsLast : Fetched R → Type 0
  IsLast (failed e) = Unit
  IsLast (fetched [] more) = Unit
  IsLast (fetched (r ∷ rs) true) = ⊥
  IsLast (fetched (r ∷ rs) false) = Unit

  on_page-IsLast :
      (f : Fetched R)
      → IsLast f
      → (s : Sweep R) × ((next : Option (Sweep R)) → on_page updated_at get f next ≡ some s)
  on_page-IsLast (failed e) h = (_, λ next. refl)
  on_page-IsLast (fetched [] more) h = (_, λ next. refl)
  on_page-IsLast (fetched (r ∷ rs) true) h = absurd h
  on_page-IsLast (fetched (r ∷ rs) false) h = (_, λ next. refl)

  on_page-some :
      (f : Fetched R) (next : Sweep R)
      → (s : Sweep R) × (on_page updated_at get f (some next) ≡ some s)
  on_page-some (failed e) next = (_, refl)
  on_page-some (fetched [] more) next = (_, refl)
  on_page-some (fetched (r ∷ rs) true) next = (_, refl)
  on_page-some (fetched (r ∷ rs) false) next = (_, refl)

  -- If the page that is n pages behind the first one is the last, then the loop over the pages has
  -- one result for every fuel above n: the sweep ends, and more fuel does not change it.
  pub sweep-ends :
      (n page last : ℕ)
      → page + n ≡ last
      → IsLast (fetch_page updated_at get max_attempts last 1)
      → (s : Sweep R) × ((fuel : ℕ) → n < fuel → sweep updated_at get fuel page ≡ some s)
  unfolding sweep
  sweep-ends zero page last e h =
      let at_page : last ≡ page = omega arith in
      let (s, k) =
        on_page-IsLast (fetch_page updated_at get max_attempts page 1) (rw (← at_page) h) in
      (s, answer s k)
    where
      answer :
          (s : Sweep R)
          → ((next : Option (Sweep R))
              → on_page updated_at get (fetch_page updated_at get max_attempts page 1) next
                ≡ some s)
          → (fuel : ℕ) → 0 < fuel
          → sweep updated_at get fuel page ≡ some s
      answer s k zero h = absurd (omega arith)
      answer s k (suc fuel) h = k (sweep updated_at get fuel (page + 1))
  sweep-ends (suc n) page last e h =
      let (t, k) = sweep-ends n (page + 1) last (omega arith) h in
      let (s, c) = on_page-some (fetch_page updated_at get max_attempts page 1) t in
      (s, answer t s k c)
    where
      answer :
          (t s : Sweep R)
          → ((fuel : ℕ) → n < fuel → sweep updated_at get fuel (page + 1) ≡ some t)
          → on_page updated_at get (fetch_page updated_at get max_attempts page 1) (some t) ≡ some s
          → (fuel : ℕ) → suc n < fuel
          → sweep updated_at get fuel page ≡ some s
      answer t s k c zero h = absurd (omega arith)
      answer t s k c (suc fuel) h =
          ap (on_page updated_at get (fetch_page updated_at get max_attempts page 1))
            (k fuel (omega arith))
          ∙ c

  -- Five attempts are all that a page gets: more fuel does not change what it comes to.
  pub fetch_page-enough :
      (left fuel page attempt : ℕ)
      → left + attempt ≡ max_attempts
      → left < fuel
      → fetch_page updated_at get fuel page attempt
        ≡ fetch_page updated_at get (suc left) page attempt
  unfolding fetch_page
  fetch_page-enough left zero page attempt e h = absurd (omega arith)
  fetch_page-enough zero (suc fuel) page attempt e h =
      let spent : (attempt == max_attempts) ≡ true = ground arith in rw spent
  fetch_page-enough (suc left) (suc fuel) page attempt e h =
      let again = fetch_page-enough left fuel page (attempt + 1) (omega arith) (omega arith) in
      rw again
