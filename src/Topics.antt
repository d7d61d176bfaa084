-- ===== src/Topics.antt =====
-- src/ods_ingest/topics.py: the table of the feeds, and what is looked up in it. Of a raw-tier model
-- (src/bank_ods/models/raw_*.py) the table needs the names that the sink uses.
use bank_ods_unified_api.Prelude.{
  ℕ, String, Option, none, some, List, [], ◌∷◌, ◌++◌, length, drop, if◌then◌else◌,
}
use bank_ods_unified_api.Prelude.Text.{Text, codes, eq_text}
use bank_ods_unified_api.Prelude.Strip.{starts_with}

-- `COLLECTION`, `ID_FIELD` and `ORDERING_FIELD` of a model, the last empty by default.
pub record Model : Type 0 where
  pub collection : String
  pub id_field : String
  pub ordering_field : String

pub data Extractor : Type 0 where
  canonical debezium manifest : Extractor

pub record TopicSpec : Type 0 where
  pub name : Text
  pub partitions : ℕ
  pub extractor : Extractor
  pub model : Option Model
  pub schema_name : Option String
  pub key_field : Option String
  pub source_system : String

abbrev pub dlq_prefix : Text
dlq_prefix = codes "ods.dlq."

abbrev pub raw_prefix : Text
raw_prefix = codes "ods.raw."

-- `s.removeprefix(p)`
unfoldable pub remove_prefix : Text → Text → Text
remove_prefix p s = if starts_with p s then drop (length p) s else s

-- The property `dlq`.
unfoldable pub dlq : TopicSpec → Text
dlq spec = dlq_prefix ++ remove_prefix raw_prefix spec.name

-- The property `collection`.
abbrev pub collection_of : TopicSpec → String
collection_of spec = elim spec.model [ none ↦ "" | some m ↦ m.collection ]

abbrev pub event_model : String → Model
event_model collection = record {
  collection = collection;
  id_field = "EVENT_ID";
  ordering_field = "";
}

abbrev pub custody_positions : TopicSpec
custody_positions = record {
  name = codes "ods.raw.custody.positions";
  partitions = 6;
  extractor = canonical;
  model =
      some
        record { collection = "raw_custody_positions"; id_field = "REC_ID"; ordering_field = "" };
  schema_name = some "raw_custody_position";
  key_field = some "POS_ACCT_NBR";
  source_system = "MAINFRAME_CUSTODY";
}

abbrev pub custody_batches : TopicSpec
custody_batches = record {
  name = codes "ods.raw.custody.batches";
  partitions = 1;
  extractor = manifest;
  model = none;
  schema_name = some "custody_batch_manifest";
  key_field = some "batchId";
  source_system = "MAINFRAME_CUSTODY";
}

abbrev pub cash_movements : TopicSpec
cash_movements = record {
  name = codes "ods.raw.cash.movements";
  partitions = 3;
  extractor = canonical;
  model =
      some
        record { collection = "raw_cash_movements"; id_field = "MOVEMENT_ID"; ordering_field = "" };
  schema_name = some "raw_cash_movement";
  key_field = some "MOV_ACCT_NBR";
  source_system = "MAINFRAME_CASH";
}

abbrev pub vendor_securities : TopicSpec
vendor_securities = record {
  name = codes "ods.raw.vendorsec.securities";
  partitions = 3;
  extractor = canonical;
  model = some record {
    collection = "raw_vendor_securities";
    id_field = "Vendor_Ref";
    ordering_field = "SRC_UPDATED_AT";
  };
  schema_name = some "raw_vendor_security";
  key_field = some "Vendor_Ref";
  source_system = "VENDORSEC_SAAS";
}

abbrev pub crm_clients : TopicSpec
crm_clients = record {
  name = codes "ods.raw.crm.clients";
  partitions = 3;
  extractor = debezium;
  model = some (event_model "raw_crm_client_events");
  schema_name = none;
  key_field = none;
  source_system = "CRM_PG";
}

abbrev pub crm_accounts : TopicSpec
crm_accounts = record {
  name = codes "ods.raw.crm.accounts";
  partitions = 3;
  extractor = debezium;
  model = some (event_model "raw_crm_account_events");
  schema_name = none;
  key_field = none;
  source_system = "CRM_PG";
}

abbrev pub topics : List TopicSpec
topics =
    custody_positions ∷ custody_batches ∷ cash_movements ∷ vendor_securities ∷ crm_clients
    ∷ crm_accounts ∷ []

unfoldable pub find_topic : List TopicSpec → Text → Option TopicSpec
find_topic [] name = none
find_topic (t ∷ ts) name = if eq_text t.name name then some t else find_topic ts name

-- `BY_NAME.get(name)`; the names are different, so that the first is the only one.
unfoldable pub by_name : Text → Option TopicSpec
by_name name = find_topic topics name
