-- ===== src/Curation/Crm/Master.antt =====
-- src/ods_ingest/curation/crm_accounts.py: the code lists of the CRM, and the snapshot of a client. The
-- letters that `lower` and `upper` change are the ASCII ones. A row's key is in its image, since the
-- event is keyed by it.
use bank_ods_unified_api.Prelude.{
  ◌+◌, String, not, ◌&&◌, Option, none, List, [], ◌∷◌, leb, if◌then◌else◌,
}
use bank_ods_unified_api.Prelude.Text.{Text, codes, eq_text}
use bank_ods_unified_api.Prelude.Strip.{strip, split, is_empty}
use bank_ods_unified_api.Prelude.Index.{elem, or_blank, or_text}
use bank_ods_unified_api.Curation.Vendor.{upper}
use bank_ods_unified_api.Sink.Extractors.{State, field}

-- `s.lower()`
unfoldable pub lower : Text → Text
lower [] = []
lower (c ∷ s) = (if leb b'A' c && leb c b'Z' then c + 32 else c) ∷ lower s

abbrev pub Codes : Type 0
Codes = List (String × String)

-- The source's code lists.
abbrev pub classification : Codes
classification =
    ("retail", "RETAIL")
    ∷ ("professional", "PROFESSIONAL")
    ∷ ("eligible_counterparty", "ELIGIBLE_COUNTERPARTY")
    ∷ []

abbrev pub kyc_status : Codes
kyc_status =
    ("approved", "APPROVED") ∷ ("pending_review", "PENDING_REVIEW") ∷ ("expired", "EXPIRED") ∷ []

abbrev pub risk_rating : Codes
risk_rating = ("low", "LOW") ∷ ("medium", "MEDIUM") ∷ ("high", "HIGH") ∷ []

abbrev pub legal_entity_type : Codes
legal_entity_type =
    ("corporation", "CORPORATION")
    ∷ ("partnership", "PARTNERSHIP")
    ∷ ("fund", "FUND")
    ∷ ("trust", "TRUST")
    ∷ ("government", "GOVERNMENT")
    ∷ ("individual", "INDIVIDUAL")
    ∷ []

abbrev pub account_type : Codes
account_type = ("custody", "CUSTODY") ∷ ("proprietary", "PROPRIETARY") ∷ ("omnibus", "OMNIBUS") ∷ []

abbrev pub account_status : Codes
account_status = ("active", "ACTIVE") ∷ ("suspended", "SUSPENDED") ∷ ("closed", "CLOSED") ∷ []

-- `TABLE.get(code, default)`
unfoldable pub decode_code : Codes → Text → String → String
decode_code [] code default = default
decode_code ((k, v) ∷ table) code default =
    if eq_text (codes k) code then v else decode_code table code default

-- `TABLE.get((row.get(name) or "").lower(), default)`
abbrev pub coded : Codes → String → State → String → String
coded table name row default = decode_code table (lower (or_blank (field name row))) default

pub record ClientMaster : Type 0 where
  pub client_id : Text
  pub client_name : Text
  pub lei : Text
  pub country_of_domicile : Text
  pub country_of_incorporation : Text
  pub tax_residencies : List Text
  pub classification : String
  pub kyc_status : String
  pub risk_rating : String
  pub legal_entity_type : String
  pub parent_client_id : Option Text

pub record Account : Type 0 where
  pub account_id : Text
  pub account_name : Text
  pub account_type : String
  pub client : ClientMaster
  pub base_currency : Text
  pub status : String
  pub open_date : Text
  pub close_date : Option Text
  pub custodian_branch : Text
  pub created_at : Text
  pub updated_at : Text

-- `[r.strip() for r in ... if r.strip()]`
unfoldable pub stripped_parts : List Text → List Text
stripped_parts [] = []
stripped_parts (r ∷ rs) =
    let rest = stripped_parts rs in if is_empty (strip r) then rest else strip r ∷ rest

unfoldable pub residencies_of : Text → Option Text → List Text
residencies_of domicile raw =
    let residencies = stripped_parts (split b',' (or_blank raw)) in
    if not (is_empty domicile) && not (elem domicile residencies)
    then domicile ∷ residencies
    else residencies

-- `residencies or [domicile]`
abbrev pub or_domicile : List Text → Text → List Text
or_domicile [] domicile = domicile ∷ []
or_domicile (r ∷ rs) domicile = r ∷ rs

unfoldable pub client_master_from : State → ClientMaster
client_master_from row =
    let id = or_blank (field "client_id" row) in
    let domicile = upper (or_blank (field "country_domicile" row)) in
    record {
      client_id = id;
      client_name = or_text (field "client_name" row) id;
      lei = or_blank (field "lei" row);
      country_of_domicile = domicile;
      country_of_incorporation = upper (or_text (field "country_incorp" row) domicile);
      tax_residencies =
          or_domicile (residencies_of domicile (field "tax_residencies" row)) domicile;
      classification = coded classification "classification" row "RETAIL";
      kyc_status = coded kyc_status "kyc_status" row "PENDING_REVIEW";
      risk_rating = coded risk_rating "risk_rating" row "MEDIUM";
      legal_entity_type = coded legal_entity_type "legal_entity_type" row "CORPORATION";
      parent_client_id = field "parent_client_id" row;
    }

unfoldable pub placeholder_client : Text → ClientMaster
placeholder_client client_id = record {
  client_id = client_id;
  client_name = client_id;
  lei = [];
  country_of_domicile = [];
  country_of_incorporation = [];
  tax_residencies = [];
  classification = "RETAIL";
  kyc_status = "PENDING_REVIEW";
  risk_rating = "MEDIUM";
  legal_entity_type = "CORPORATION";
  parent_client_id = none;
}
