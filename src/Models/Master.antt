-- ===== src/Models/Master.antt =====
-- src/bank_ods/models: account.py and security.py.
use bank_ods_unified_api.Prelude.{true, false, none, some, [], ◌∷◌}
use bank_ods_unified_api.Services.Cursor.{ascending}
use bank_ods_unified_api.Models.Base.{
  Entity, str_type, bool_type, decimal_type, date_time_type, literal, optional_of, list_of,
  document_of, fields_of, single, plain, unique,
}

abbrev pub client_master_model : Entity
client_master_model = record {
  class_name = "ClientMaster";
  collection = "";
  indexes = [];
  id_field = "";
  default_sort = [];
  unfiltered_list = false;
  ordering_field = "";
  fields = fields_of (
      ("clientId", str_type)
      ∷ ("clientName", str_type)
      ∷ ("lei", str_type)
      ∷ ("countryOfDomicile", str_type)
      ∷ ("countryOfIncorporation", str_type)
      ∷ ("taxResidencies", list_of str_type)
      ∷ ("classification", literal ("RETAIL" ∷ "PROFESSIONAL" ∷ "ELIGIBLE_COUNTERPARTY" ∷ []))
      ∷ ("kycStatus", literal ("APPROVED" ∷ "PENDING_REVIEW" ∷ "EXPIRED" ∷ []))
      ∷ ("riskRating", literal ("LOW" ∷ "MEDIUM" ∷ "HIGH" ∷ []))
      ∷ (
        "legalEntityType",
        literal
            ("CORPORATION" ∷ "PARTNERSHIP" ∷ "FUND" ∷ "TRUST" ∷ "GOVERNMENT" ∷ "INDIVIDUAL" ∷ []),
      )
      ∷ ("parentClientId", optional_of str_type)
      ∷ []);
}

abbrev pub account_model : Entity
account_model = record {
  class_name = "Account";
  collection = "accounts";
  indexes =
      unique (single "accountId")
      ∷ plain (single "client.clientId")
      ∷ plain (single "client.lei")
      ∷ plain (single "status")
      ∷ [];
  id_field = "accountId";
  default_sort = ("accountId", ascending) ∷ [];
  unfiltered_list = true;
  ordering_field = "";
  fields = fields_of (
      ("accountId", str_type)
      ∷ ("accountName", str_type)
      ∷ ("accountType", literal ("CUSTODY" ∷ "PROPRIETARY" ∷ "OMNIBUS" ∷ []))
      ∷ ("client", document_of client_master_model)
      ∷ ("baseCurrency", str_type)
      ∷ ("status", literal ("ACTIVE" ∷ "SUSPENDED" ∷ "CLOSED" ∷ []))
      ∷ ("openDate", date_time_type)
      ∷ ("closeDate", optional_of date_time_type)
      ∷ ("custodianBranch", str_type)
      ∷ ("createdAt", date_time_type)
      ∷ ("updatedAt", date_time_type)
      ∷ []);
}

abbrev pub listing_model : Entity
listing_model = record {
  class_name = "Listing";
  collection = "";
  indexes = [];
  id_field = "";
  default_sort = [];
  unfiltered_list = false;
  ordering_field = "";
  fields = fields_of (
      ("sedol", str_type)
      ∷ ("micCode", str_type)
      ∷ ("operatingMic", str_type)
      ∷ ("exchangeName", optional_of str_type)
      ∷ ("tradedCurrency", str_type)
      ∷ ("countryOfListing", str_type)
      ∷ ("settlementLocation", str_type)
      ∷ ("localCode", optional_of str_type)
      ∷ ("primaryListing", bool_type)
      ∷ ("status", literal ("ACTIVE" ∷ "SUSPENDED" ∷ "DELISTED" ∷ []))
      ∷ []);
}

abbrev pub security_model : Entity
security_model = record {
  class_name = "Security";
  collection = "securities";
  indexes =
      unique (single "securityId")
      ∷ record { keys = single "isin"; is_unique = true; is_sparse = true; where_exists = none }
      ∷ plain (single "ticker")
      ∷ plain (single "assetClass")
      ∷ record {
        keys = single "listings.sedol";
        is_unique = true;
        is_sparse = false;
        where_exists = some "listings.sedol";
      }
      ∷ [];
  id_field = "securityId";
  default_sort = ("securityId", ascending) ∷ [];
  unfiltered_list = true;
  ordering_field = "";
  fields = fields_of (
      ("securityId", str_type)
      ∷ ("vendorUpdatedAt", optional_of str_type)
      ∷ ("isin", optional_of str_type)
      ∷ ("cusip", optional_of str_type)
      ∷ ("ticker", optional_of str_type)
      ∷ ("figi", optional_of str_type)
      ∷ ("description", str_type)
      ∷ ("assetClass", literal ("EQUITY" ∷ "GOVT_BOND" ∷ "CORP_BOND" ∷ "FUND" ∷ "CASH" ∷ []))
      ∷ ("subType", str_type)
      ∷ ("currency", str_type)
      ∷ ("exchange", optional_of str_type)
      ∷ ("issuer", str_type)
      ∷ ("country", str_type)
      ∷ ("maturityDate", optional_of date_time_type)
      ∷ ("couponRate", optional_of decimal_type)
      ∷ ("status", literal ("ACTIVE" ∷ "MATURED" ∷ "DELISTED" ∷ []))
      ∷ ("listings", list_of (document_of listing_model))
      ∷ ("createdAt", date_time_type)
      ∷ ("updatedAt", date_time_type)
      ∷ []);
}
