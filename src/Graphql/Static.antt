-- ===== src/Graphql/Static.antt =====
-- src/bank_ods/graphql/sdl.py: the parts of the schema that are not derived from the models.
use bank_ods_unified_api.Prelude.{String, List, [], ◌∷◌}

-- The lines of `_SEMANTIC_QUERY_FIELDS`.
abbrev pub semantic_query_lines : List String
semantic_query_lines =
    "" ∷ "  # Accounts" ∷ "  get_account(accountId: String!): Account"
    ∷ "  list_accounts(clientId: String, status: String, lei: String, domicile: String, limit: Int, cursor: String): AccountList!"
    ∷ "" ∷ "  # Securities" ∷ "  get_security(securityId: String!): Security"
    ∷ "  get_security_by_sedol(sedol: String!): Security"
    ∷ "  list_securities(assetClass: String, ticker: String, status: String, sedol: String, limit: Int, cursor: String): SecurityList!"
    ∷ "" ∷ "  # Transactions" ∷ "  get_transaction(transactionId: String!): Transaction"
    ∷ "  get_transactions(accountId: String!, fromDate: String!, toDate: String!, status: String, transactionType: String, limit: Int, cursor: String): TransactionList!"
    ∷ "  get_transaction_summary(accountId: String!, fromDate: String!, toDate: String!): TransactionSummaryList!"
    ∷ "" ∷ "  # Positions"
    ∷ "  get_position(accountId: String!, securityId: String!, asOfDate: String!): Position"
    ∷ "  get_positions(accountId: String!, asOfDate: String!, limit: Int, cursor: String): PositionList!"
    ∷ "  get_position_history(accountId: String!, securityId: String!, fromDate: String!, toDate: String!, limit: Int, cursor: String): PositionList!"
    ∷ "" ∷ "  # Settlements" ∷ "  get_settlement(settlementId: String!): Settlement"
    ∷ "  get_settlement_status(transactionId: String!): Settlement"
    ∷ "  get_settlements(accountId: String!, settlementDate: String!, status: String, limit: Int, cursor: String): SettlementList!"
    ∷ "  get_settlement_fails(fromDate: String!, toDate: String!, accountId: String, limit: Int, cursor: String): SettlementList!"
    ∷ "" ∷ "  # Balances"
    ∷ "  get_cash_balance(accountId: String!, currency: String!, asOfDate: String!): CashBalance"
    ∷ "  get_cash_balances(accountId: String!, asOfDate: String!, limit: Int, cursor: String): CashBalanceList!"
    ∷ "  get_projected_balance(accountId: String!, currency: String!, asOfDate: String!): ProjectedBalance"
    ∷ "" ∷ []

-- The lines of `_EXTRA_TYPES`.
abbrev pub extra_type_lines : List String
extra_type_lines =
    "" ∷ "type TransactionSummaryItem {" ∷ "  transactionType: String!" ∷ "  status: String!"
    ∷ "  count: Int!" ∷ "  totalNetAmount: Decimal!" ∷ "}" ∷ "" ∷ "type TransactionSummaryList {"
    ∷ "  data: [TransactionSummaryItem!]!" ∷ "}" ∷ "" ∷ "type ProjectedBalance {"
    ∷ "  accountId: String!" ∷ "  currency: String!" ∷ "  asOfDate: String!"
    ∷ "  closingBalance: Decimal" ∷ "  pendingCredits: Decimal" ∷ "  pendingDebits: Decimal"
    ∷ "  projectedBalance: Decimal" ∷ "}" ∷ "" ∷ []
