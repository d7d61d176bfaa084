-- ===== src/Models/Tests.antt =====
-- src/bank_ods/models: the names of operations, and the tables of the sink beside the registry.
use bank_ods_unified_api.Prelude.{◌≡◌, refl, true, false, length}
use bank_ods_unified_api.Prelude.Text.{codes}
use bank_ods_unified_api.Models.Raw.{raw_custody_position_model, raw_crm_client_event_model}
use bank_ods_unified_api.Models.Registry.{
  snake, underscored, get_field_name, list_field_name, active_entities,
}
use bank_ods_unified_api.Curation.Crm.Master.{lower}

get_field_name_test : get_field_name raw_custody_position_model ≡ codes "get_raw_custody_position"
unfolding get_field_name snake underscored lower
get_field_name_test = refl

list_field_name_test :
    list_field_name raw_crm_client_event_model ≡ codes "list_raw_crm_client_events"
unfolding list_field_name
list_field_name_test = refl

active_entities_test : length (active_entities false true) ≡ 5
unfolding active_entities
active_entities_test = refl
