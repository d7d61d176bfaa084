-- ===== src/Services/Ops/Custody/Curator.antt =====
-- src/bank_ods/services/ops.py and src/ods_ingest/curation/resolve.py: the query that explains the
-- custody feed, beside the curator that it explains.
use bank_ods_unified_api.Prelude.{
  ◌≡◌, refl, ap, ◌∙◌, Option, none, some, List, [], ◌∷◌, arith, Bool-cases, inl, inr,
}
use bank_ods_unified_api.Prelude.Text.{Text}
use bank_ods_unified_api.Prelude.Dict.{Dict, lookup}
use bank_ods_unified_api.Prelude.Index.{Index, elem, get_if, put, non_empty, or_else, or_blank}
use bank_ods_unified_api.Curation.Stats.{CurationStats, skip}
use bank_ods_unified_api.Curation.Stats as Stats
use bank_ods_unified_api.Curation.Reference.{
  SecurityDoc, ReferenceIndex, empty_index, add_security, add_securities, load, account, security,
  known, found_or, default_if, put_if,
}
use bank_ods_unified_api.Curation.Custody.{
  Curated, curate_record, decode_values, with_values, with_account,
}
use bank_ods_unified_api.Services.Identifiers.{cusip_from_isin}
use bank_ods_unified_api.Services.Ops.Custody.{
  Tables, tables_of, Reason, unknown_account, unknown_security, no_curated_position, reason_of,
  account_of, security_of, note_isin, note_cusip, note_embedded,
}

-- What the curator does with a record that the query reports for this reason, or finds matched.
abbrev pub as_reported : Dict Text → Option Reason → Text → Text → CurationStats → Text → Curated
as_reported rec none a s stats now = with_values rec a s (decode_values rec) stats now
as_reported rec (some unknown_account) a s stats now = (none, skip Stats.unknown_account stats)
as_reported rec (some unknown_security) a s stats now = (none, skip Stats.unknown_security stats)
as_reported rec (some no_curated_position) a s stats now =
    with_values rec a s (decode_values rec) stats now

abbrev tables_in : ReferenceIndex → Tables
tables_in index = (index.sec_by_cusip, index.sec_by_isin)

note_embedded-default_if :
    (e : Option Text) (sid : Text) (m n : Index Text)
    → (default_if e sid m, n) ≡ note_embedded e sid (m, n)
note_embedded-default_if none sid m n = refl
note_embedded-default_if (some e) sid m n = refl

note_isin-put_if :
    (c i : Option Text) (sid : Text) (m n : Index Text)
    → (default_if (non_empty (cusip_from_isin i)) sid (put_if c sid m), put_if i sid n)
      ≡ note_isin i sid (note_cusip c sid (m, n))
unfolding cusip_from_isin
note_isin-put_if none none sid m n = refl
note_isin-put_if (some c) none sid m n = refl
note_isin-put_if none (some i) sid m n = note_embedded-default_if _ sid m (put i sid n)
note_isin-put_if (some c) (some i) sid m n =
    note_embedded-default_if _ sid (put c sid m) (put i sid n)

add_security-notes :
    (doc : SecurityDoc) (index : ReferenceIndex)
    → tables_in (add_security doc index)
      ≡ note_isin
          (non_empty doc.isin)
          doc.security_id
          (note_cusip (non_empty doc.cusip) doc.security_id (tables_in index))
add_security-notes doc index =
    note_isin-put_if (non_empty doc.cusip) (non_empty doc.isin) doc.security_id index.sec_by_cusip
      index.sec_by_isin

add_securities-tables_of :
    (docs : List SecurityDoc) (index : ReferenceIndex)
    → (tables_in (add_securities docs index) ≡ tables_of docs (tables_in index))
      × ((add_securities docs index).account_ids ≡ index.account_ids)
unfolding add_securities tables_of
add_securities-tables_of [] index = (refl, refl)
add_securities-tables_of (doc ∷ docs) index =
    let (t, a) = add_securities-tables_of docs (add_security doc index) in
    (t ∙ ap (tables_of docs) (add_security-notes doc index), a)

found_or-or_else : (o p : Option Text) → found_or (non_empty o) p ≡ or_else o p
found_or-or_else none p = refl
found_or-or_else (some t) p = ground arith

-- The chain of tests, on the account and the security.
with_account-reason_of :
    (rec : Dict Text) (ids : List Text) (pairs : List (Text × Text)) (a s : Option Text)
    (stats : CurationStats) (now : Text)
    → with_account rec (known ids a) s stats now
      ≡ as_reported rec (reason_of ids pairs a s) (or_blank a) (or_blank s) stats now
unfolding reason_of
with_account-reason_of rec ids pairs none s stats now = refl
with_account-reason_of rec ids pairs (some a) none stats now = elim (Bool-cases (elem a ids)) [
  | inl e ↦ rw e
  | inr e ↦ rw e
]
with_account-reason_of rec ids pairs (some a) (some s) stats now = ground arith

-- With the reference data that both read, what the curator does with a record of the custody feed is
-- decided by the reason that `reconcile_custody_feed` gives for it: a record reported as
-- UNKNOWN_ACCOUNT or UNKNOWN_SECURITY is skipped under the same name; any other record, whatever
-- positions there are, goes on to the decoding of its values for the account and the security that
-- the query resolves, after which it is curated or skipped as MALFORMED_VALUE, a reason that the
-- query does not have.
pub curate_record-reason_of :
    (rec : Dict Text) (accounts : List Text) (securities : List SecurityDoc)
    (pairs : List (Text × Text)) (stats : CurationStats) (now : Text)
    → let found = security_of (tables_of securities ([], [])) rec in
      curate_record rec (load accounts securities) stats now
      ≡ as_reported rec
          (reason_of accounts pairs (account_of rec) found)
          (or_blank (account_of rec))
          (or_blank found)
          stats
          now
unfolding curate_record load account security security_of
curate_record-reason_of rec accounts securities pairs stats now =
    let index = record empty_index { account_ids = accounts } in
    let (t, ids) = add_securities-tables_of securities index in
    let by_cusip =
      get_if (non_empty (lookup "POS_CUSIP_NBR" rec)) (load accounts securities).sec_by_cusip in
    let by_isin =
      get_if (non_empty (lookup "POS_ISIN_NBR" rec)) (load accounts securities).sec_by_isin in
    rw (ids, ← t, ← with_account-reason_of rec accounts pairs (account_of rec) _ stats now)
      (ap (λ z. with_account rec (known accounts (account_of rec)) z stats now)
        (found_or-or_else by_cusip by_isin))
