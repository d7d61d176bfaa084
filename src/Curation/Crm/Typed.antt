-- ===== src/Curation/Crm/Typed.antt =====
-- src/ods_ingest/curation/crm_accounts.py and src/bank_ods/models/account.py: what is written to
-- `accounts` has the values that the model declares.
use bank_ods_unified_api.Prelude.{
  refl, String, Option, none, some, List, [], ◌∷◌, All, In, inl, inr, if-cases,
}
use bank_ods_unified_api.Prelude.Text.{Text, codes, eq_text}
use bank_ods_unified_api.Prelude.Strip.{is_empty}
use bank_ods_unified_api.Prelude.Index.{non_empty}
use bank_ods_unified_api.Curation.Stats.{CurationStats}
use bank_ods_unified_api.Curation.Crm.Master.{
  Codes, classification, kyc_status, risk_rating, legal_entity_type, account_type, account_status,
  decode_code, ClientMaster, Account, client_master_from, placeholder_client,
}
use bank_ods_unified_api.Curation.Crm.Events.{
  AccountOp, close_client, set_client, close_account, upsert_account, Clock, is_delete, present,
  snapshot_of, latest_client_state, curate_client_event, curate_account_event, client_change,
  account_change, account_with, account_of,
}
use bank_ods_unified_api.Curation.Crm.Accounts.{Accounts}
use bank_ods_unified_api.Sink.Extractors.{State, ChangeEvent, field}

-- The literals of the model's fields.
abbrev pub classifications : List String
classifications = "RETAIL" ∷ "PROFESSIONAL" ∷ "ELIGIBLE_COUNTERPARTY" ∷ []

abbrev pub kyc_statuses : List String
kyc_statuses = "APPROVED" ∷ "PENDING_REVIEW" ∷ "EXPIRED" ∷ []

abbrev pub risk_ratings : List String
risk_ratings = "LOW" ∷ "MEDIUM" ∷ "HIGH" ∷ []

abbrev pub legal_entity_types : List String
legal_entity_types =
    "CORPORATION" ∷ "PARTNERSHIP" ∷ "FUND" ∷ "TRUST" ∷ "GOVERNMENT" ∷ "INDIVIDUAL" ∷ []

abbrev pub account_types : List String
account_types = "CUSTODY" ∷ "PROPRIETARY" ∷ "OMNIBUS" ∷ []

abbrev pub account_statuses : List String
account_statuses = "ACTIVE" ∷ "SUSPENDED" ∷ "CLOSED" ∷ []

abbrev pub IsTypedClient : ClientMaster → Type 0
IsTypedClient c =
    In c.classification classifications
    × In c.kyc_status kyc_statuses
    × In c.risk_rating risk_ratings
    × In c.legal_entity_type legal_entity_types

abbrev pub IsTypedAccount : Account → Type 0
IsTypedAccount a =
    In a.account_type account_types × In a.status account_statuses × IsTypedClient a.client

abbrev pub AreTyped : Accounts → Type 0
AreTyped accounts = All (λ e. IsTypedAccount e.1) accounts

decode_code-In :
    (allowed : List String) (table : Codes) (code : Text) (default : String)
    → All (λ e. In e.1 allowed) table
    → In default allowed
    → In (decode_code table code default) allowed
unfolding decode_code
decode_code-In allowed [] code default h d = d
decode_code-In allowed ((k, v) ∷ table) code default (h, hs) d =
    if-cases (λ r. In r allowed) (eq_text (codes k) code) _ _ (λ _. h)
      (λ _. decode_code-In allowed table code default hs d)

client_master_from-IsTyped : (row : State) → IsTypedClient (client_master_from row)
unfolding client_master_from
client_master_from-IsTyped row = (
  decode_code-In classifications classification _ "RETAIL"
      (inl refl, (inr (inl refl), (inr (inr (inl refl)), tt))) (inl refl),
  decode_code-In kyc_statuses kyc_status _ "PENDING_REVIEW"
      (inl refl, (inr (inl refl), (inr (inr (inl refl)), tt))) (inr (inl refl)),
  decode_code-In risk_ratings risk_rating _ "MEDIUM"
      (inl refl, (inr (inl refl), (inr (inr (inl refl)), tt))) (inr (inl refl)),
  decode_code-In legal_entity_types legal_entity_type _ "CORPORATION"
      (
        inl refl,
        (
          inr (inl refl),
          (
            inr (inr (inl refl)),
            (
              inr (inr (inr (inl refl))),
              (inr (inr (inr (inr (inl refl)))), (inr (inr (inr (inr (inr (inl refl))))), tt)),
            ),
          ),
        ),
      )
      (inl refl),
)

placeholder_client-IsTyped : (client_id : Text) → IsTypedClient (placeholder_client client_id)
unfolding placeholder_client
placeholder_client-IsTyped client_id = (inl refl, inr (inl refl), inr (inl refl), inl refl)

-- What an operation writes.
abbrev pub IsTypedOp : AccountOp → Type 0
IsTypedOp (close_client k time now) = Unit
IsTypedOp (set_client k client now) = IsTypedClient client
IsTypedOp (close_account id time now) = Unit
IsTypedOp (upsert_account doc) = IsTypedAccount doc

module _ (clock : Clock) (now : Text) (events : List ChangeEvent) where
  snapshot_of-IsTyped :
      (row : Option State) (client_id : Text) → IsTypedClient (snapshot_of clock now row client_id)
  snapshot_of-IsTyped none client_id = placeholder_client-IsTyped client_id
  snapshot_of-IsTyped (some row) client_id =
      if-cases IsTypedClient (is_empty row) _ _ (λ _. placeholder_client-IsTyped client_id)
        (λ _. client_master_from-IsTyped row)

  account_of-IsTyped :
      (nbr : Text) (row : State) (client : ClientMaster)
      → IsTypedClient client
      → IsTypedAccount (account_of clock now nbr row client)
  unfolding account_of
  account_of-IsTyped nbr row client h = (
    decode_code-In account_types account_type _ "CUSTODY"
        (inl refl, (inr (inl refl), (inr (inr (inl refl)), tt))) (inl refl),
    decode_code-In account_statuses account_status _ "ACTIVE"
        (inl refl, (inr (inl refl), (inr (inr (inl refl)), tt))) (inl refl),
    h,
  )

  account_with-IsTyped :
      (nbr : Text) (row : State) (cid : Option Text) (stats : CurationStats)
      → All IsTypedOp (account_with clock now events nbr row cid stats).0
  account_with-IsTyped nbr row none stats = tt
  account_with-IsTyped nbr row (some cid) stats =
      (account_of-IsTyped nbr row _ (snapshot_of-IsTyped (latest_client_state cid events) cid), tt)

  account_change-IsTyped :
      (nbr : Text) (after : Option State) (stats : CurationStats)
      → All IsTypedOp (account_change clock now events nbr after stats).0
  account_change-IsTyped nbr none stats = tt
  account_change-IsTyped nbr (some row) stats =
      account_with-IsTyped nbr row (non_empty (field "client_id" row)) stats

  client_change-IsTyped :
      (k : Text) (after : Option State) (stats : CurationStats)
      → All IsTypedOp (client_change clock now k after stats).0
  client_change-IsTyped k none stats = tt
  client_change-IsTyped k (some row) stats = (client_master_from-IsTyped row, tt)

  abbrev Typed : List AccountOp × CurationStats → Type 0
  Typed r = All IsTypedOp r.0

  pub curate_account_event-IsTyped :
      (e : ChangeEvent) (stats : CurationStats)
      → Typed (curate_account_event clock now events e stats)
  unfolding curate_account_event
  curate_account_event-IsTyped e stats =
      if-cases Typed (is_empty e.pk) _ _ (λ _. tt)
        λ _.
          if-cases Typed (is_delete clock now e) _ _ (λ _. (tt, tt))
            λ _. account_change-IsTyped e.pk (present clock now e.after) stats

  pub curate_client_event-IsTyped :
      (e : ChangeEvent) (stats : CurationStats) → Typed (curate_client_event clock now e stats)
  unfolding curate_client_event
  curate_client_event-IsTyped e stats =
      if-cases Typed (is_empty e.pk) _ _ (λ _. tt)
        λ _.
          if-cases Typed (is_delete clock now e) _ _ (λ _. (tt, tt))
            λ _. client_change-IsTyped e.pk (present clock now e.after) stats
