-- ===== src/Curation/Crm/Events.antt =====
-- src/ods_ingest/curation/crm_accounts.py: change events become operations on `accounts`. The clock
-- and the library's readers of dates are the interface `Clock`.
use bank_ods_unified_api.Prelude.{
  Bool, false, Option, none, some, List, [], ◌∷◌, ◌++◌, ◌==◌, if◌then◌else◌,
}
use bank_ods_unified_api.Prelude.Text.{Text, codes, eq_text, lt_text}
use bank_ods_unified_api.Prelude.Strip.{strip, is_empty}
use bank_ods_unified_api.Prelude.Index.{non_empty, or_blank, or_text}
use bank_ods_unified_api.Prelude.Int.{ℤ}
use bank_ods_unified_api.Prelude.Numeral.{parse_int}
use bank_ods_unified_api.Curation.Stats.{CurationStats, skip, see, curate}
use bank_ods_unified_api.Curation.Crm.Master.{
  ClientMaster, Account, client_master_from, placeholder_client, coded, account_type,
  account_status,
}
use bank_ods_unified_api.Sink.Extractors.{
  State, ChangePayload, ChangeEvent, Extracted, extracted, refused, field, debezium, table_of,
}

abbrev pub later_event : ChangeEvent → Option ChangeEvent → Option ChangeEvent
later_event e none = some e
later_event e (some f) = if lt_text e.lsn f.lsn then some f else some e

-- `{"PK": client_id, "AFTER": {"$ne": None}}`
abbrev pub has_state : Text → ChangeEvent → Option State → Bool
has_state client_id e none = false
has_state client_id e (some row) = eq_text e.pk client_id

-- `find_one(..., sort=[("LSN", -1)])`, on the events of the raw tier.
unfoldable pub latest_event : Text → List ChangeEvent → Option ChangeEvent
latest_event client_id [] = none
latest_event client_id (e ∷ es) =
    let rest = latest_event client_id es in
    if has_state client_id e e.after then later_event e rest else rest

abbrev pub after_of : Option ChangeEvent → Option State
after_of none = none
after_of (some e) = e.after

unfoldable pub latest_client_state : Text → List ChangeEvent → Option State
latest_client_state client_id events = after_of (latest_event client_id events)

-- The writes: of all accounts of a client, and of one account.
pub data AccountOp : Type 0 where
  close_client : Text → Text → Text → AccountOp
  set_client : Text → ClientMaster → Text → AccountOp
  close_account : Text → Text → Text → AccountOp
  upsert_account : Account → AccountOp

pub record Clock : Type 0 where
  -- `datetime.fromisoformat`, with UTC where the text has no zone.
  pub from_iso : Text → Option Text
  -- `datetime.fromtimestamp(ms / 1000, tz=timezone.utc)`
  pub from_millis : ℤ → Text

-- `text.replace(" ", "T")`
unfoldable pub with_t : Text → Text
with_t [] = []
with_t (c ∷ s) = (if c == b' ' then b'T' else c) ∷ with_t s

abbrev pub or_clock : Option Text → Text → Text
or_clock none now = now
or_clock (some t) now = t

-- `account_ops`, `client_ops` and the counts.
pub record Batch : Type 0 where
  pub account_ops : List AccountOp
  pub client_ops : List AccountOp
  pub stats : CurationStats

abbrev pub add_account_ops : Batch → List AccountOp × CurationStats → Batch
add_account_ops b (ops, stats) = record b { account_ops = b.account_ops ++ ops; stats = stats }

abbrev pub add_client_ops : Batch → List AccountOp × CurationStats → Batch
add_client_ops b (ops, stats) = record b { client_ops = b.client_ops ++ ops; stats = stats }

abbrev pub start : CurationStats → Batch
start stats = record { account_ops = []; client_ops = []; stats = stats }

module _ (clock : Clock) (now : Text) where
  unfoldable pub parse_date : Option Text → Option Text
  parse_date none = none
  parse_date (some value) = if is_empty value then none else clock.from_iso (with_t (strip value))

  abbrev pub time_of : Option ℤ → Text
  time_of none = now
  time_of (some ms) = clock.from_millis ms

  unfoldable pub event_time : ChangeEvent → Text
  event_time e = time_of (parse_int e.ts_ms)

  abbrev pub is_delete : ChangeEvent → Bool
  is_delete e = eq_text e.op (codes "d")

  -- `not after`
  abbrev pub present : Option State → Option State
  present none = none
  present (some row) = if is_empty row then none else some row

  abbrev pub Curated : Type 0
  Curated = List AccountOp × CurationStats

  abbrev pub client_change : Text → Option State → CurationStats → Curated
  client_change client_id none stats = ([], skip "NO_AFTER_IMAGE" stats)
  client_change client_id (some row) stats =
      (set_client client_id (client_master_from row) now ∷ [], curate stats)

  unfoldable pub curate_client_event : ChangeEvent → CurationStats → Curated
  curate_client_event e stats =
      if is_empty e.pk
      then ([], skip "MISSING_PK" stats)
      else if is_delete e
      then (close_client e.pk (event_time e) now ∷ [], curate stats)
      else client_change e.pk (present e.after) stats

  -- The best-known client.
  abbrev pub snapshot_of : Option State → Text → ClientMaster
  snapshot_of none client_id = placeholder_client client_id
  snapshot_of (some row) client_id =
      if is_empty row then placeholder_client client_id else client_master_from row

  unfoldable pub account_of : Text → State → ClientMaster → Account
  account_of account_nbr row client = record {
    account_id = account_nbr;
    account_name = or_text (field "account_name" row) account_nbr;
    account_type = coded account_type "account_type" row "CUSTODY";
    client = client;
    base_currency = or_text (field "base_ccy" row) (codes "USD");
    status = coded account_status "status" row "ACTIVE";
    open_date = or_clock (parse_date (field "open_date" row)) now;
    close_date = parse_date (field "close_date" row);
    custodian_branch = or_blank (field "branch" row);
    created_at = now;
    updated_at = now;
  }

  abbrev pub account_with : List ChangeEvent → Text → State → Option Text → CurationStats → Curated
  account_with events account_nbr row none stats = ([], skip "MISSING_CLIENT" stats)
  account_with events account_nbr row (some client_id) stats = (
    upsert_account (
          account_of account_nbr row (snapshot_of (latest_client_state client_id events) client_id))
        ∷ [],
    curate stats,
  )

  abbrev pub account_change : List ChangeEvent → Text → Option State → CurationStats → Curated
  account_change events account_nbr none stats = ([], skip "NO_AFTER_IMAGE" stats)
  account_change events account_nbr (some row) stats =
      account_with events account_nbr row (non_empty (field "client_id" row)) stats

  -- `events` is what `raw_crm_client_events` holds at that moment.
  unfoldable pub curate_account_event : List ChangeEvent → ChangeEvent → CurationStats → Curated
  curate_account_event events e stats =
      if is_empty e.pk
      then ([], skip "MISSING_PK" stats)
      else if is_delete e
      then (close_account e.pk (event_time e) now ∷ [], curate stats)
      else account_change events e.pk (present e.after) stats

  unfoldable pub curate_event : List ChangeEvent → Text → Extracted ChangeEvent → Batch → Batch
  curate_event events table (refused e) b = record b { stats = skip "MALFORMED_EVENT" b.stats }
  curate_event events table (extracted e) b =
      if eq_text table (codes "accounts")
      then add_account_ops b (curate_account_event events e b.stats)
      else if eq_text table (codes "clients")
      then add_client_ops b (curate_client_event e b.stats)
      else record b { stats = skip "UNKNOWN_TABLE" b.stats }

  -- The loop of `curate_batch` over the topics and values of the records. The topics are those of
  -- the two tables, so that `debezium` raises no KeyError.
  unfoldable pub curate_events : List ChangeEvent → List (Text × ChangePayload) → Batch → Batch
  curate_events events [] b = b
  curate_events events ((topic, value) ∷ records) b = curate_events events records (
      curate_event events (table_of topic) (debezium value (table_of topic))
        (record b { stats = see b.stats }))
