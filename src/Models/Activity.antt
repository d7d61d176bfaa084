-- ===== src/Models/Activity.antt =====
-- src/bank_ods/models: transaction.py, settlement.py, position.py and cash_balance.py.
use bank_ods_unified_api.Prelude.{false, [], ◌∷◌}
use bank_ods_unified_api.Services.Cursor.{ascending, descending}
use bank_ods_unified_api.Models.Base.{
  Entity, str_type, decimal_type, date_time_type, literal, optional_of, list_of, document_of,
  fields_of, single, several, plain, unique,
}

abbrev pub transaction_model : Entity
transaction_model = record {
  class_name = "Transaction";
  collection = "transactions";
  indexes =
      unique (single "transactionId")
      ∷ plain
          (several (("accountId", ascending) ∷ ("tradeDate", descending) ∷ ("_id", ascending) ∷ []))
      ∷ plain (single "status")
      ∷ plain (single "settlementDate")
      ∷ plain (single "securityId")
      ∷ [];
  id_field = "transactionId";
  default_sort = [];
  unfiltered_list = false;
  ordering_field = "";
  fields = fields_of (
      ("transactionId", str_type)
      ∷ (
        "transactionType",
        literal (
            "BUY" ∷ "SELL" ∷ "DEPOSIT" ∷ "WITHDRAWAL" ∷ "TRANSFER_IN" ∷ "TRANSFER_OUT" ∷ "DIVIDEND"
            ∷ "FX" ∷ []),
      )
      ∷ ("tradeDate", date_time_type)
      ∷ ("settlementDate", date_time_type)
      ∷ ("accountId", str_type)
      ∷ ("securityId", optional_of str_type)
      ∷ ("quantity", optional_of decimal_type)
      ∷ ("price", optional_of decimal_type)
      ∷ ("currency", str_type)
      ∷ ("grossAmount", decimal_type)
      ∷ ("fees", decimal_type)
      ∷ ("netAmount", decimal_type)
      ∷ ("fxRate", decimal_type)
      ∷ ("counterpartyId", str_type)
      ∷ ("status", literal ("PENDING" ∷ "MATCHED" ∷ "SETTLED" ∷ "FAILED" ∷ "CANCELLED" ∷ []))
      ∷ ("settlementRef", optional_of str_type)
      ∷ ("sourceSystem", str_type)
      ∷ ("internalRef", str_type)
      ∷ ("createdAt", date_time_type)
      ∷ ("updatedAt", date_time_type)
      ∷ []);
}

abbrev pub status_history_entry_model : Entity
status_history_entry_model = record {
  class_name = "StatusHistoryEntry";
  collection = "";
  indexes = [];
  id_field = "";
  default_sort = [];
  unfiltered_list = false;
  ordering_field = "";
  fields = fields_of (("status", str_type) ∷ ("timestamp", date_time_type) ∷ []);
}

abbrev pub settlement_model : Entity
settlement_model = record {
  class_name = "Settlement";
  collection = "settlements";
  indexes =
      unique (single "settlementId")
      ∷ plain (single "transactionId")
      ∷ plain (several (("accountId", ascending) ∷ ("settlementDate", descending) ∷ []))
      ∷ plain (
          several
            (("status", ascending) ∷ ("settlementDate", descending) ∷ ("_id", ascending) ∷ []))
      ∷ [];
  id_field = "settlementId";
  default_sort = [];
  unfiltered_list = false;
  ordering_field = "";
  fields = fields_of (
      ("settlementId", str_type)
      ∷ ("transactionId", str_type)
      ∷ ("accountId", str_type)
      ∷ ("securityId", optional_of str_type)
      ∷ ("settlementDate", date_time_type)
      ∷ ("deliveryType", literal ("DVP" ∷ "FOP" ∷ "RVP" ∷ "RFP" ∷ []))
      ∷ ("quantity", optional_of decimal_type)
      ∷ ("currency", str_type)
      ∷ ("settlementAmount", decimal_type)
      ∷ ("counterpartyId", str_type)
      ∷ ("counterpartyAccount", str_type)
      ∷ ("custodianAccount", str_type)
      ∷ (
        "status",
        literal (
            "PENDING" ∷ "INSTRUCTED" ∷ "MATCHED" ∷ "SETTLED" ∷ "FAILED" ∷ "CANCELLED" ∷ "RECYCLED"
            ∷ []),
      )
      ∷ ("statusHistory", list_of (document_of status_history_entry_model))
      ∷ ("failReason", optional_of str_type)
      ∷ ("csdRef", optional_of str_type)
      ∷ ("swiftRef", optional_of str_type)
      ∷ ("createdAt", date_time_type)
      ∷ ("updatedAt", date_time_type)
      ∷ []);
}

abbrev pub position_model : Entity
position_model = record {
  class_name = "Position";
  collection = "positions";
  indexes =
      unique (
        several
          (("accountId", ascending) ∷ ("securityId", ascending) ∷ ("asOfDate", descending) ∷ []))
      ∷ plain (single "asOfDate")
      ∷ plain (single "accountId")
      ∷ [];
  id_field = "";
  default_sort = [];
  unfiltered_list = false;
  ordering_field = "";
  fields = fields_of (
      ("positionId", str_type)
      ∷ ("accountId", str_type)
      ∷ ("securityId", str_type)
      ∷ ("asOfDate", date_time_type)
      ∷ ("quantity", decimal_type)
      ∷ ("currency", str_type)
      ∷ ("costBasis", decimal_type)
      ∷ ("marketPrice", decimal_type)
      ∷ ("marketValue", decimal_type)
      ∷ ("unrealizedPnL", decimal_type)
      ∷ ("positionType", literal ("LONG" ∷ "SHORT" ∷ []))
      ∷ ("snapshotType", literal ("EOD" ∷ "INTRADAY" ∷ "SETTLEMENT" ∷ []))
      ∷ ("createdAt", date_time_type)
      ∷ ("updatedAt", date_time_type)
      ∷ []);
}

abbrev pub cash_balance_model : Entity
cash_balance_model = record {
  class_name = "CashBalance";
  collection = "cash_balances";
  indexes =
      unique (
        several
          (("accountId", ascending) ∷ ("currency", ascending) ∷ ("asOfDate", descending) ∷ []))
      ∷ plain (single "asOfDate")
      ∷ [];
  id_field = "";
  default_sort = [];
  unfiltered_list = false;
  ordering_field = "";
  fields = fields_of (
      ("balanceId", str_type)
      ∷ ("accountId", str_type)
      ∷ ("currency", str_type)
      ∷ ("asOfDate", date_time_type)
      ∷ ("openingBalance", decimal_type)
      ∷ ("credits", decimal_type)
      ∷ ("debits", decimal_type)
      ∷ ("closingBalance", decimal_type)
      ∷ ("pendingCredits", decimal_type)
      ∷ ("pendingDebits", decimal_type)
      ∷ ("projectedBalance", decimal_type)
      ∷ ("snapshotType", literal ("EOD" ∷ "INTRADAY" ∷ []))
      ∷ ("createdAt", date_time_type)
      ∷ ("updatedAt", date_time_type)
      ∷ []);
}
