-- ===== src/Poller.antt =====
-- src/ods_ingest/adapters/rest_poll/poller.py: one sweep of the vendor's API. The HTTP client is the
-- argument `get`, by page and attempt; what a row becomes on the wire is the argument `message`.
pub mod Watermark
pub mod Termination
mod Tests
use bank_ods_unified_api.Prelude.{
  ℕ, zero, suc, ◌+◌, String, Bool, true, false, not, ◌&&◌, ◌||◌, Option, none, some, List, [], ◌∷◌,
  ◌++◌, length, ltb, leb, ◌==◌, if◌then◌else◌, map,
}
use bank_ods_unified_api.Prelude.Text.{Text, codes, lt_text, eq_text}
use bank_ods_unified_api.Prelude.Strip.{is_empty}
use bank_ods_unified_api.Bus.Producer.{Kafka, ProducerError, Session, session}
use bank_ods_unified_api.State.{Documents, StateDoc, get_watermark, set_watermark, reset_watermark}

abbrev pub source : Text
source = codes "vendorsec"

abbrev pub max_attempts : ℕ
max_attempts = 5

-- The body of a response with status 200: the rows and `has_more`.
pub record Response (R : Type 0) : Type 0 where
  pub status : ℕ
  pub rows : List R
  pub has_more : Bool

-- What ends a sweep early.
pub data PollError : Type 0 where
  http_error : ℕ → PollError
  gave_up : ℕ → ℕ → PollError
  not_delivered : ProducerError → PollError
  store_failed : PollError

pub data Fetched (R : Type 0) : Type 0 where
  fetched : List R → Bool → Fetched R
  failed : PollError → Fetched R

-- 429 and 5xx are retried, and so is a success other than 200, which `raise_for_status` lets pass.
abbrev pub is_retried : ℕ → Bool
is_retried status = status == 429 || leb 500 status || (leb 200 status && ltb status 300)

-- What the pages of a sweep come to: the rows, and the error.
pub record Sweep (R : Type 0) : Type 0 where
  pub rows : List R
  pub error : Option PollError

abbrev pub ended : {R : Type 0} → Option PollError → Sweep R
ended error = record { rows = []; error = error }

abbrev pub onto_sweep : {R : Type 0} → List R → Option (Sweep R) → Option (Sweep R)
onto_sweep rows none = none
onto_sweep rows (some s) = some record { rows = rows ++ s.rows; error = s.error }

module _ {R : Type 0} (updated_at : R → Option Text) (get : ℕ → ℕ → Response R) where
  -- `_fetch_page` with so many attempts left.
  unfoldable pub fetch_page : ℕ → ℕ → ℕ → Fetched R
  fetch_page zero page attempt = failed (gave_up page 0)
  fetch_page (suc left) page attempt =
      let r = get page attempt in
      let again = fetch_page left page (attempt + 1) in
      if r.status == 200
      then fetched r.rows r.has_more
      else if not (is_retried r.status)
      then failed (http_error r.status)
      else if attempt == max_attempts
      then failed (gave_up page r.status)
      else again

  -- One turn of the loop over the pages; `next` is what the next page comes to.
  abbrev pub on_page : Fetched R → Option (Sweep R) → Option (Sweep R)
  on_page (failed e) next = some (ended (some e))
  on_page (fetched [] more) next = some (ended none)
  on_page (fetched (r ∷ rs) true) next = onto_sweep (r ∷ rs) next
  on_page (fetched (r ∷ rs) false) next = some record { rows = r ∷ rs; error = none }

  -- The loop, for at most so many pages; `none` where there are more.
  unfoldable pub sweep : ℕ → ℕ → Option (Sweep R)
  sweep zero page = none
  sweep (suc fuel) page = on_page (fetch_page max_attempts page 1) (sweep fuel (page + 1))

  -- `if row_watermark and (highest is None or row_watermark > highest)`
  abbrev pub raise_to : Option Text → Option Text → Option Text
  raise_to none highest = highest
  raise_to (some t) none = if is_empty t then none else some t
  raise_to (some t) (some h) = if not (is_empty t) && lt_text h t then some t else some h

  unfoldable pub highest_of : List R → Option Text → Option Text
  highest_of [] highest = highest
  highest_of (r ∷ rs) highest = highest_of rs (raise_to (updated_at r) highest)

  -- `highest != watermark`
  abbrev pub same_as : Text → Option Text → Bool
  same_as highest none = false
  same_as highest (some watermark) = eq_text highest watermark

  module _ {M : Type 0} (message : R → M) (kafka : Kafka M) (docs : Documents StateDoc)
      (now : Text) where
    -- An update of the operational state that fails if there is a fault, made or not.
    abbrev pub updated : Option Bool → docs.Store → docs.Store → Option PollError × docs.Store
    updated none before after = (none, after)
    updated (some true) before after = (some store_failed, after)
    updated (some false) before after = (some store_failed, before)

    -- The end of `poll_once`, after the producer's block.
    abbrev pub store_watermark :
        Option Bool → ℕ → Option Text → Option Text → docs.Store → Option PollError × docs.Store
    store_watermark fault records none watermark s = (none, s)
    store_watermark fault records (some highest) watermark s =
        if is_empty highest || same_as highest watermark
        then (none, s)
        else updated fault s (set_watermark docs now source highest records s)

    abbrev pub conclude_poll :
        Option Bool
        → List R
        → Option Text
        → Session M PollError
        → docs.Store
        → Option PollError × docs.Store
    conclude_poll fault rows watermark done s = elim done.error [
      | some e ↦ (some e, s)
      | none ↦ store_watermark fault (length rows) (highest_of rows watermark) watermark s
    ]

    unfoldable pub forget : Bool → docs.Store → docs.Store
    forget full_resync s = if full_resync then reset_watermark docs source s else s

    -- `poll_once` for the rows that the pages come to: what it raises, the state that it leaves,
    -- and what reached the topic. The fault is that of the update at the end; a read of the
    -- operational state that raises is a sweep that raises without a row.
    unfoldable pub poll_once :
        Option Bool → Bool → Sweep R → docs.Store → (Option PollError × docs.Store) × List M
    poll_once fault full_resync swept s =
        let start = forget full_resync s in
        let done = session kafka not_delivered (map message swept.rows) swept.error in
        (conclude_poll fault swept.rows (get_watermark docs source start) done start, done.landed)
