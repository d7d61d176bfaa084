-- ===== src/Curation/Vendor.antt =====
-- src/ods_ingest/curation/vendor_securities.py: the vendor's rows enrich securities that are known. A
-- row's value is a text or absent. `str.upper` is Python's on the ASCII letters: no other character
-- has a sentinel or a status code for its upper case, but the long s and the dotless i, which
-- the feed does not have. The clock is the argument `now`.
pub mod Guard
mod Tests
use bank_ods_unified_api.Prelude.{
  ℕ, ◌+◌, ◌-◌, String, Bool, true, false, ◌||◌, ◌&&◌, Option, none, some, List, [], ◌∷◌, ◌++◌,
  length, map, replicate, leb, ◌==◌, if◌then◌else◌,
}
use bank_ods_unified_api.Prelude.Text.{Text, codes, eq_text, lt_text}
use bank_ods_unified_api.Prelude.Strip.{strip, is_empty}
use bank_ods_unified_api.Prelude.Index.{
  Index, elem, get, get_if, put, set_default, non_empty, or_blank,
}
use bank_ods_unified_api.Curation.Reference.{SecurityDoc, put_if, default_if}
use bank_ods_unified_api.Curation.Stats.{CurationStats, skip, see, curate}
use bank_ods_unified_api.Services.Identifiers.{cusip_from_isin}

-- `s.upper()`
unfoldable pub upper : Text → Text
upper [] = []
upper (c ∷ s) = (if leb b'a' c && leb c b'z' then c - 32 else c) ∷ upper s

abbrev pub null_sentinels : List Text
null_sentinels = map codes ("" ∷ "N/A" ∷ "#N/A" ∷ "NA" ∷ "NULL" ∷ "NONE" ∷ "-" ∷ [])

abbrev pub status_active : List Text
status_active = map codes ("A" ∷ "ACT" ∷ "ACTIVE" ∷ [])

abbrev pub status_matured : List Text
status_matured = map codes ("M" ∷ "MAT" ∷ "MATURED" ∷ "MAT'D" ∷ [])

abbrev pub status_delisted : List Text
status_delisted = map codes ("D" ∷ "DEL" ∷ "DELISTED" ∷ "INACTIVE" ∷ "I" ∷ [])

unfoldable pub clean : Option Text → Option Text
clean none = none
clean (some value) =
    let text = strip value in if elem (upper text) null_sentinels then none else some text

pub data Status : Type 0 where
  active matured delisted : Status

unfoldable pub map_status : Option Text → Option Status
map_status raw =
    let text = upper (or_blank (clean raw)) in
    if elem text status_active
    then some active
    else if elem text status_matured
    then some matured
    else if elem text status_delisted
    then some delisted
    else none

pub record SecurityIndex : Type 0 where
  pub by_cusip : Index Text
  pub by_isin : Index Text
  pub by_sedol : Index Text

abbrev pub no_index : SecurityIndex
no_index = record { by_cusip = []; by_isin = []; by_sedol = [] }

unfoldable pub put_sedols : List (Option Text) → Text → Index Text → Index Text
put_sedols [] sid m = m
put_sedols (sedol ∷ sedols) sid m = put_sedols sedols sid (put_if (non_empty sedol) sid m)

abbrev pub index_security : SecurityDoc → SecurityIndex → SecurityIndex
index_security doc index =
    let by_cusip = put_if (non_empty doc.cusip) doc.security_id index.by_cusip in
    record {
      by_cusip =
          default_if (non_empty (cusip_from_isin (non_empty doc.isin))) doc.security_id by_cusip;
      by_isin = put_if (non_empty doc.isin) doc.security_id index.by_isin;
      by_sedol = put_sedols doc.sedols doc.security_id index.by_sedol;
    }

-- `SecurityIndex.load`
unfoldable pub load_securities : List SecurityDoc → SecurityIndex → SecurityIndex
load_securities [] index = index
load_securities (doc ∷ docs) index = load_securities docs (index_security doc index)

-- `s.zfill(9)`; a sign stays in front of the zeros.
unfoldable pub zfill : ℕ → Text → Text
zfill w [] = replicate w b'0'
zfill w (c ∷ s) =
    if c == b'-' || c == b'+'
    then c ∷ (replicate (w - length (c ∷ s)) b'0' ++ s)
    else replicate (w - length (c ∷ s)) b'0' ++ c ∷ s

-- What is found first.
abbrev pub or_found : Option Text → Option Text → Option Text
or_found none other = other
or_found (some sid) other = some sid

abbrev pub padded : Option Text → Option Text
padded none = none
padded (some cusip) = some (zfill 9 cusip)

pub record VendorRow : Type 0 where
  pub vendor_ref : Option Text
  pub isin_code : Option Text
  pub cusip : Option Text
  pub sedol : Option Text
  pub issuer_name : Option Text
  pub issue_status : Option Text
  pub src_updated_at : Option Text

unfoldable pub resolve : SecurityIndex → VendorRow → Option Text
resolve index row = or_found (get_if (clean row.isin_code) index.by_isin) (
    or_found (get_if (clean row.cusip) index.by_cusip) (
      or_found (get_if (padded (clean row.cusip)) index.by_cusip)
        (get_if (clean row.sedol) index.by_sedol)))

-- The fields that an update sets; one that is `none` is left as it is.
pub record Updates : Type 0 where
  pub updated_at : Text
  pub issuer : Option Text
  pub status : Option Status
  pub vendor_updated_at : Option Text

-- `UpdateOne` on a security: only if it is not stamped, or if it is not or its stamp is older.
pub data SecurityUpdate : Type 0 where
  if_unstamped : Text → Updates → SecurityUpdate
  if_older : Text → Text → Updates → SecurityUpdate

abbrev pub updates_of : VendorRow → Text → Updates
updates_of row now = record {
  updated_at = now;
  issuer = clean row.issuer_name;
  status = map_status row.issue_status;
  vendor_updated_at = none;
}

-- The guard on the row's own timestamp.
abbrev pub guarded_update : Text → Option Text → Updates → SecurityUpdate
guarded_update sid none updates = if_unstamped sid updates
guarded_update sid (some incoming) updates =
    if_older sid incoming (record updates { vendor_updated_at = some incoming })

abbrev pub curate_resolved :
    VendorRow → Option Text → CurationStats → Text → Option SecurityUpdate × CurationStats
curate_resolved row none stats now = (none, skip "UNMATCHED_VENDOR_RECORD" stats)
curate_resolved row (some sid) stats now =
    (some (guarded_update sid (non_empty row.src_updated_at) (updates_of row now)), curate stats)

unfoldable pub curate_record :
    VendorRow → SecurityIndex → CurationStats → Text → Option SecurityUpdate × CurationStats
curate_record row index stats now = curate_resolved row (resolve index row) stats now

abbrev pub onto_updates :
    Option SecurityUpdate
    → List SecurityUpdate × CurationStats
    → List SecurityUpdate × CurationStats
onto_updates none rest = rest
onto_updates (some op) (ops, stats) = (op ∷ ops, stats)

-- The loop of `curate_batch`; each row comes with the reading of the clock for it.
unfoldable pub curate_rows :
    List (VendorRow × Text) → SecurityIndex → CurationStats → List SecurityUpdate × CurationStats
curate_rows [] index stats = ([], stats)
curate_rows ((row, now) ∷ rows) index stats =
    let (op, after) = curate_record row index (see stats) now in
    onto_updates op (curate_rows rows index after)

-- What is kept of a curated security.
pub record Security : Type 0 where
  pub issuer : Option Text
  pub status : Option Status
  pub vendor_updated_at : Option Text

abbrev pub replaced : {A : Type 0} → Option A → Option A → Option A
replaced none old = old
replaced (some new) old = some new

-- `$set`
abbrev pub set_fields : Updates → Security → Security
set_fields u s = record {
  issuer = replaced u.issuer s.issuer;
  status = replaced u.status s.status;
  vendor_updated_at = replaced u.vendor_updated_at s.vendor_updated_at;
}

-- The filters `{"$exists": False}` and `{"$lt": incoming}`.
abbrev pub is_unstamped : Option Text → Bool
is_unstamped none = true
is_unstamped (some t) = false

abbrev pub is_older : Text → Option Text → Bool
is_older incoming none = true
is_older incoming (some t) = lt_text t incoming

abbrev pub target : SecurityUpdate → Text
target (if_unstamped sid u) = sid
target (if_older sid incoming u) = sid

-- What an update does to the security that it is for.
abbrev pub apply_to : SecurityUpdate → Security → Security
apply_to (if_unstamped sid u) s = if is_unstamped s.vendor_updated_at then set_fields u s else s
apply_to (if_older sid incoming u) s =
    if is_older incoming s.vendor_updated_at then set_fields u s else s

-- What a run of updates does to the security of this identifier.
unfoldable pub apply_all : Text → List SecurityUpdate → Security → Security
apply_all sid [] s = s
apply_all sid (op ∷ ops) s =
    apply_all sid ops (if eq_text (target op) sid then apply_to op s else s)
