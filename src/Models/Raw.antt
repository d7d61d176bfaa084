-- ===== src/Models/Raw.antt =====
-- src/bank_ods/models: raw_custody_position.py, raw_vendor_security.py, raw_cash_movement.py,
-- raw_crm_client_event.py and raw_crm_account_event.py.
use bank_ods_unified_api.Prelude.{true, false, none, [], ◌∷◌}
use bank_ods_unified_api.Services.Cursor.{ascending}
use bank_ods_unified_api.Models.Base.{
  Entity, str_type, optional_of, document_of, fields_of, single, several, plain, unique,
}

abbrev pub raw_custody_position_model : Entity
raw_custody_position_model = record {
  class_name = "RawCustodyPosition";
  collection = "raw_custody_positions";
  indexes =
      unique (single "REC_ID")
      ∷ plain (several (("POS_BUS_DATE", ascending) ∷ ("POS_ACCT_NBR", ascending) ∷ []))
      ∷ plain (single "POS_CUSIP_NBR")
      ∷ [];
  id_field = "REC_ID";
  default_sort = ("REC_ID", ascending) ∷ [];
  unfiltered_list = true;
  ordering_field = "";
  fields = fields_of (
      ("REC_ID", str_type)
      ∷ ("POS_REC_TYPE", str_type)
      ∷ ("POS_BUS_DATE", str_type)
      ∷ ("POS_BANK_NBR", str_type)
      ∷ ("POS_BRANCH_CD", str_type)
      ∷ ("POS_ACCT_NBR", str_type)
      ∷ ("POS_ACCT_TYPE_CD", str_type)
      ∷ ("POS_CUSIP_NBR", str_type)
      ∷ ("POS_ISIN_NBR", str_type)
      ∷ ("POS_SEC_DESC", str_type)
      ∷ ("POS_ASSET_CLS_CD", str_type)
      ∷ ("POS_REG_TYPE_CD", str_type)
      ∷ ("POS_LOC_CD", str_type)
      ∷ ("POS_SHR_QTY", str_type)
      ∷ ("POS_SHR_QTY_PEND", str_type)
      ∷ ("POS_MKT_PRICE", str_type)
      ∷ ("POS_MKT_VALUE", str_type)
      ∷ ("POS_ACCR_INT", str_type)
      ∷ ("POS_PRICE_DT", str_type)
      ∷ ("POS_LAST_ACTVY_DT", str_type)
      ∷ ("POS_PLEDGE_IND", str_type)
      ∷ ("POS_CCY_CD", str_type)
      ∷ ("POS_SRC_SYS_ID", str_type)
      ∷ []);
}

abbrev pub raw_vendor_security_model : Entity
raw_vendor_security_model = record {
  class_name = "RawVendorSecurity";
  collection = "raw_vendor_securities";
  indexes =
      unique (single "Vendor_Ref")
      ∷ record { keys = single "Cusip"; is_unique = false; is_sparse = true; where_exists = none }
      ∷ plain (single "SRC_UPDATED_AT")
      ∷ [];
  id_field = "Vendor_Ref";
  default_sort = ("Vendor_Ref", ascending) ∷ [];
  unfiltered_list = true;
  ordering_field = "SRC_UPDATED_AT";
  fields = fields_of (
      ("Vendor_Ref", str_type)
      ∷ ("SRC_UPDATED_AT", optional_of str_type)
      ∷ ("Cusip", optional_of str_type)
      ∷ ("ISIN_CODE", optional_of str_type)
      ∷ ("sedol", optional_of str_type)
      ∷ ("TICKER", optional_of str_type)
      ∷ ("SecurityDesc", str_type)
      ∷ ("Issuer_Name", optional_of str_type)
      ∷ ("ASSET_CLS", str_type)
      ∷ ("CPN_RATE", optional_of str_type)
      ∷ ("MATURITY_DT", optional_of str_type)
      ∷ ("CCY", optional_of str_type)
      ∷ ("CNTRY_DOM", optional_of str_type)
      ∷ ("CALLABLE_FLG", optional_of str_type)
      ∷ ("ISSUE_STATUS", optional_of str_type)
      ∷ ("EXCH_CD", optional_of str_type)
      ∷ ("LAST_UPD_TS", optional_of str_type)
      ∷ []);
}

abbrev pub raw_cash_movement_model : Entity
raw_cash_movement_model = record {
  class_name = "RawCashMovement";
  collection = "raw_cash_movements";
  indexes =
      unique (single "MOVEMENT_ID")
      ∷ plain (several (("MOV_FILE_DATE", ascending) ∷ ("MOV_ACCT_NBR", ascending) ∷ []))
      ∷ plain (single "MOV_ACCT_NBR")
      ∷ [];
  id_field = "MOVEMENT_ID";
  default_sort = ("MOVEMENT_ID", ascending) ∷ [];
  unfiltered_list = true;
  ordering_field = "";
  fields = fields_of (
      ("MOVEMENT_ID", str_type)
      ∷ ("MOV_FILE_DATE", str_type)
      ∷ ("MOV_FILE_TIME", str_type)
      ∷ ("MOV_ACCT_NBR", str_type)
      ∷ ("MOV_CCY_CD", str_type)
      ∷ ("MOV_AMT", str_type)
      ∷ ("MOV_TYPE_CD", str_type)
      ∷ ("MOV_VALUE_TS", str_type)
      ∷ ("MOV_NARRATIVE", str_type)
      ∷ ("MOV_SRC_SYS_ID", str_type)
      ∷ []);
}

abbrev pub crm_client_state_model : Entity
crm_client_state_model = record {
  class_name = "CrmClientState";
  collection = "";
  indexes = [];
  id_field = "";
  default_sort = [];
  unfiltered_list = false;
  ordering_field = "";
  fields = fields_of (
      ("client_id", str_type)
      ∷ ("client_name", optional_of str_type)
      ∷ ("lei", optional_of str_type)
      ∷ ("country_domicile", optional_of str_type)
      ∷ ("country_incorp", optional_of str_type)
      ∷ ("tax_residencies", optional_of str_type)
      ∷ ("classification", optional_of str_type)
      ∷ ("kyc_status", optional_of str_type)
      ∷ ("risk_rating", optional_of str_type)
      ∷ ("legal_entity_type", optional_of str_type)
      ∷ ("parent_client_id", optional_of str_type)
      ∷ ("updated_at", optional_of str_type)
      ∷ []);
}

abbrev pub raw_crm_client_event_model : Entity
raw_crm_client_event_model = record {
  class_name = "RawCrmClientEvent";
  collection = "raw_crm_client_events";
  indexes =
      unique (single "EVENT_ID")
      ∷ plain (several (("PK", ascending) ∷ ("LSN", ascending) ∷ []))
      ∷ plain (single "OP")
      ∷ [];
  id_field = "EVENT_ID";
  default_sort = ("EVENT_ID", ascending) ∷ [];
  unfiltered_list = true;
  ordering_field = "";
  fields = fields_of (
      ("EVENT_ID", str_type)
      ∷ ("OP", str_type)
      ∷ ("PK", str_type)
      ∷ ("LSN", str_type)
      ∷ ("TS_MS", str_type)
      ∷ ("SOURCE_TABLE", str_type)
      ∷ ("BEFORE", optional_of (document_of crm_client_state_model))
      ∷ ("AFTER", optional_of (document_of crm_client_state_model))
      ∷ []);
}

abbrev pub crm_account_state_model : Entity
crm_account_state_model = record {
  class_name = "CrmAccountState";
  collection = "";
  indexes = [];
  id_field = "";
  default_sort = [];
  unfiltered_list = false;
  ordering_field = "";
  fields = fields_of (
      ("account_nbr", str_type)
      ∷ ("client_id", optional_of str_type)
      ∷ ("account_name", optional_of str_type)
      ∷ ("account_type", optional_of str_type)
      ∷ ("base_ccy", optional_of str_type)
      ∷ ("status", optional_of str_type)
      ∷ ("open_date", optional_of str_type)
      ∷ ("close_date", optional_of str_type)
      ∷ ("branch", optional_of str_type)
      ∷ ("updated_at", optional_of str_type)
      ∷ []);
}

abbrev pub raw_crm_account_event_model : Entity
raw_crm_account_event_model = record {
  class_name = "RawCrmAccountEvent";
  collection = "raw_crm_account_events";
  indexes =
      unique (single "EVENT_ID")
      ∷ plain (several (("PK", ascending) ∷ ("LSN", ascending) ∷ []))
      ∷ plain (single "OP")
      ∷ [];
  id_field = "EVENT_ID";
  default_sort = ("EVENT_ID", ascending) ∷ [];
  unfiltered_list = true;
  ordering_field = "";
  fields = fields_of (
      ("EVENT_ID", str_type)
      ∷ ("OP", str_type)
      ∷ ("PK", str_type)
      ∷ ("LSN", str_type)
      ∷ ("TS_MS", str_type)
      ∷ ("SOURCE_TABLE", str_type)
      ∷ ("BEFORE", optional_of (document_of crm_account_state_model))
      ∷ ("AFTER", optional_of (document_of crm_account_state_model))
      ∷ []);
}
