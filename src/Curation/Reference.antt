-- ===== src/Curation/Reference.antt =====
-- src/ods_ingest/curation/resolve.py: the lookup tables of a curation run, and the resolution of a
-- custody record's account and security. A null of a feed's field counts as absent.
use bank_ods_unified_api.Prelude.{Option, none, some, List, [], ◌∷◌, if◌then◌else◌}
use bank_ods_unified_api.Prelude.Text.{Text}
use bank_ods_unified_api.Prelude.Index.{Index, elem, get_if, put, set_default, non_empty, or_blank}
use bank_ods_unified_api.Services.Identifiers.{account_id_from_custody, cusip_from_isin}

-- What is read of a document of `securities`.
pub record SecurityDoc : Type 0 where
  pub security_id : Text
  pub cusip : Option Text
  pub isin : Option Text
  pub sedols : List (Option Text)

pub record ReferenceIndex : Type 0 where
  pub account_ids : List Text
  pub sec_by_cusip : Index Text
  pub sec_by_isin : Index Text

abbrev pub put_if : Option Text → Text → Index Text → Index Text
put_if none sid m = m
put_if (some k) sid m = put k sid m

abbrev pub default_if : Option Text → Text → Index Text → Index Text
default_if none sid m = m
default_if (some k) sid m = set_default k sid m

-- The body of the loop over the securities.
abbrev pub add_security : SecurityDoc → ReferenceIndex → ReferenceIndex
add_security doc index =
    let by_cusip = put_if (non_empty doc.cusip) doc.security_id index.sec_by_cusip in
    record index {
      sec_by_cusip =
          default_if (non_empty (cusip_from_isin (non_empty doc.isin))) doc.security_id by_cusip;
      sec_by_isin = put_if (non_empty doc.isin) doc.security_id index.sec_by_isin;
    }

abbrev pub empty_index : ReferenceIndex
empty_index = record { account_ids = []; sec_by_cusip = []; sec_by_isin = [] }

unfoldable pub add_securities : List SecurityDoc → ReferenceIndex → ReferenceIndex
add_securities [] index = index
add_securities (doc ∷ docs) index = add_securities docs (add_security doc index)

-- `ReferenceIndex.load`, from the account identifiers and the securities of the database.
unfoldable pub load : List Text → List SecurityDoc → ReferenceIndex
load accounts securities = add_securities securities (record empty_index { account_ids = accounts })

-- An identifier that is one of those known.
abbrev pub known : List Text → Option Text → Option Text
known ids none = none
known ids (some id) = if elem id ids then some id else none

unfoldable pub account : ReferenceIndex → Option Text → Option Text
account index custody_nbr = known index.account_ids (account_id_from_custody (or_blank custody_nbr))

-- What was found under the CUSIP, or else what is under the ISIN.
abbrev pub found_or : Option Text → Option Text → Option Text
found_or none by_isin = by_isin
found_or (some sid) by_isin = some sid

unfoldable pub security : ReferenceIndex → Option Text → Option Text → Option Text
security index cusip isin =
    found_or (non_empty (get_if (non_empty cusip) index.sec_by_cusip))
      (get_if (non_empty isin) index.sec_by_isin)
