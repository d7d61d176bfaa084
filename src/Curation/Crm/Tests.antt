-- ===== src/Curation/Crm/Tests.antt =====
-- ChangePayload events of a client and of an account, and instances of the theorems on them.
use bank_ods_unified_api.Prelude.{◌≡◌, refl, none, some, List, [], ◌∷◌}
use bank_ods_unified_api.Prelude.Text.{Text, codes, compare_text}
use bank_ods_unified_api.Prelude.Strip.{strip, split}
use bank_ods_unified_api.Prelude.Dict.{lookup}
use bank_ods_unified_api.Prelude.Index.{get, put, elem}
use bank_ods_unified_api.Curation.Stats.{new_stats}
use bank_ods_unified_api.Curation.Crm.Master.{
  client_master_from, placeholder_client, decode_code, lower, residencies_of, stripped_parts,
}
use bank_ods_unified_api.Curation.Crm.Events.{
  Clock, start, curate_account_event, curate_client_event, curate_events, account_of,
  latest_client_state, latest_event, parse_date,
}
use bank_ods_unified_api.Curation.Crm.Accounts.{
  apply_ops, apply_op, update_clients, write_accounts, Accounts,
}
use bank_ods_unified_api.Curation.Crm.Commute.{content}
use bank_ods_unified_api.Curation.Crm.Convergence.{curate_events-converge}
use bank_ods_unified_api.Curation.Crm.Typed.{AreTyped}
use bank_ods_unified_api.Curation.Crm.TypedBatch.{write_accounts-AreTyped}
use bank_ods_unified_api.Curation.Vendor.{upper}
use bank_ods_unified_api.Sink.Extractors.{text, ChangePayload, ChangeEvent, State}

abbrev clock : Clock
clock = record { from_iso = λ t. some t; from_millis = λ n. codes "then" }

abbrev client_row : State
client_row =
    ("client_id", some (codes "C1"))
    ∷ ("client_name", some (codes "Acme"))
    ∷ ("kyc_status", some (codes "Approved"))
    ∷ []

abbrev event : Text → Text → Text → State → ChangeEvent
event id lsn pk row = record {
  event_id = id;
  op = codes "c";
  pk = pk;
  lsn = lsn;
  ts_ms = codes "0";
  source_table = codes "clients";
  before = none;
  after = some row;
}

abbrev client_event : ChangeEvent
client_event = event (codes "9-clients-C1") (codes "9") (codes "C1") client_row

abbrev account_event : ChangeEvent
account_event =
    event (codes "8-accounts-A1") (codes "8") (codes "A1")
      (("account_nbr", some (codes "A1")) ∷ ("client_id", some (codes "C1")) ∷ [])

curate_events-converge_example :
    let account_ops =
      (curate_account_event clock (codes "t1") (client_event ∷ []) account_event new_stats).0 in
    let client_ops = (curate_client_event clock (codes "t2") client_event new_stats).0 in
    content (codes "A1") (apply_ops client_ops (apply_ops account_ops []))
    ≡ content (codes "A1") (apply_ops account_ops (apply_ops client_ops []))
unfolding lookup latest_client_state latest_event compare_text
curate_events-converge_example =
    curate_events-converge clock (codes "t1") (codes "t2") (client_event ∷ []) account_event
      client_event client_row new_stats new_stats [] (codes "A1") (refl, tt) refl refl refl

abbrev name_of : Accounts → List Text
name_of [] = []
name_of ((k, a) ∷ as') = a.client.client_name ∷ name_of as'

-- If the client event is curated before it has landed in the raw tier, and the account event after
-- it but before the landing too, the account keeps the placeholder.
not_landed :
    name_of (
      apply_ops
        (curate_account_event clock (codes "t1") [] account_event new_stats).0
        (apply_ops (curate_client_event clock (codes "t2") client_event new_stats).0 []))
    ≡ codes "C1" ∷ []
unfolding apply_ops apply_op curate_account_event curate_client_event latest_client_state
    latest_event account_of placeholder_client client_master_from update_clients put get
    compare_text lookup parse_date decode_code lower upper residencies_of stripped_parts split strip
    elem
not_landed = refl

-- The positions of the log are ordered as texts: 9 comes after 10.
text_order :
    latest_client_state
      (codes "C1")
      (event (codes "10-clients-C1") (codes "10") (codes "C1") [] ∷ client_event ∷ [])
    ≡ some client_row
unfolding latest_client_state latest_event compare_text
text_order = refl

abbrev change : ChangePayload
change = record {
  op = some (text (codes "c"));
  before = none;
  after = some (
      ("account_nbr", text (codes "A1"))
      ∷ ("client_id", text (codes "C1"))
      ∷ ("status", text (codes "frozen"))
      ∷ []);
  source = none;
  ts_ms = none;
}

write_accounts-AreTyped_example :
    let b =
      curate_events clock
        (codes "t1")
        []
        ((codes "ods.raw.crm.accounts", change) ∷ [])
        (start new_stats) in
    AreTyped (write_accounts b.account_ops b.client_ops [])
write_accounts-AreTyped_example =
    write_accounts-AreTyped clock (codes "t1") [] ((codes "ods.raw.crm.accounts", change) ∷ [])
      new_stats [] tt
