-- ===== src/Curation/Vendor/Guard.antt =====
-- src/ods_ingest/curation/vendor_securities.py: the guard on the vendor's own timestamps.
use bank_ods_unified_api.Prelude.{
  ◌≡◌, refl, sym, ap, ◌∙◌, Bool, true, Option, none, some, List, [], ◌∷◌, ◌++◌, All, if-cases,
  append_assoc,
}
use bank_ods_unified_api.Prelude.Text.{
  Text, lt_text, eq_text, eq_text_self, eq_text_iff, lt_text_asymm,
}
use bank_ods_unified_api.Prelude.Index.{non_empty}
use bank_ods_unified_api.Curation.Stats.{CurationStats, see}
use bank_ods_unified_api.Curation.Vendor.{
  VendorRow, SecurityIndex, Updates, SecurityUpdate, if_unstamped, if_older, Security, resolve,
  updates_of, guarded_update, curate_resolved, curate_record, curate_rows, onto_updates, set_fields,
  is_unstamped, is_older, target, apply_to, apply_all,
}

-- The update is undated, or its timestamp is before t.
abbrev Precedes : Text → SecurityUpdate → Type 0
Precedes t (if_unstamped sid u) = u.vendor_updated_at ≡ none
Precedes t (if_older sid incoming u) =
    (u.vendor_updated_at ≡ some incoming) × (lt_text incoming t ≡ true)

abbrev IsRival : Text → Text → SecurityUpdate → Type 0
IsRival sid t op = eq_text (target op) sid ≡ true → Precedes t op

apply_to-after :
    (t : Text) (op : SecurityUpdate) (s : Security)
    → Precedes t op
    → s.vendor_updated_at ≡ some t
    → apply_to op s ≡ s
apply_to-after t (if_unstamped sid u) s p h =
    if-cases (λ z. z ≡ s) (is_unstamped s.vendor_updated_at) _ _ (λ e. cc) (λ e. refl)
apply_to-after t (if_older sid incoming u) s (p, q) h =
    if-cases (λ z. z ≡ s) (is_older incoming s.vendor_updated_at) _ _
      (λ e.
        let older : is_older incoming (some t) ≡ true = ap (is_older incoming) (sym h) ∙ e in
        let newer = lt_text_asymm incoming t q in cc)
      (λ e. refl)

apply_to-before :
    (t : Text) (op : SecurityUpdate) (s : Security)
    → Precedes t op
    → is_older t s.vendor_updated_at ≡ true
    → is_older t (apply_to op s).vendor_updated_at ≡ true
apply_to-before t (if_unstamped sid u) s p h =
    if-cases (λ z. is_older t z.vendor_updated_at ≡ true) (is_unstamped s.vendor_updated_at)
      (set_fields u s) s (λ e. rw p h) (λ e. h)
apply_to-before t (if_older sid incoming u) s (p, q) h =
    if-cases (λ z. is_older t z.vendor_updated_at ≡ true) (is_older incoming s.vendor_updated_at)
      (set_fields u s) s (λ e. rw p q) (λ e. h)

apply_all-after :
    (sid t : Text) (ops : List SecurityUpdate) (s : Security)
    → All (IsRival sid t) ops
    → s.vendor_updated_at ≡ some t
    → apply_all sid ops s ≡ s
unfolding apply_all
apply_all-after sid t [] s p h = refl
apply_all-after sid t (op ∷ ops) s p h =
    if-cases (λ z. apply_all sid ops z ≡ s) (eq_text (target op) sid) (apply_to op s) s
      (λ e.
        ap (apply_all sid ops) (apply_to-after t op s (p.0 e) h)
        ∙ apply_all-after sid t ops s p.1 h)
      (λ e. apply_all-after sid t ops s p.1 h)

apply_all-before :
    (sid t : Text) (ops : List SecurityUpdate) (s : Security)
    → All (IsRival sid t) ops
    → is_older t s.vendor_updated_at ≡ true
    → is_older t (apply_all sid ops s).vendor_updated_at ≡ true
unfolding apply_all
apply_all-before sid t [] s p h = h
apply_all-before sid t (op ∷ ops) s p h =
    if-cases (λ z. is_older t (apply_all sid ops z).vendor_updated_at ≡ true)
      (eq_text (target op) sid) (apply_to op s) s
      (λ e. apply_all-before sid t ops (apply_to op s) p.1 (apply_to-before t op s (p.0 e) h))
      (λ e. apply_all-before sid t ops s p.1 h)

apply_all-append :
    (sid : Text) (before after : List SecurityUpdate) (s : Security)
    → apply_all sid (before ++ after) s ≡ apply_all sid after (apply_all sid before s)
unfolding apply_all
apply_all-append sid [] after s = refl
apply_all-append sid (op ∷ before) after s = apply_all-append sid before after _

apply_all-newest :
    (sid t : Text) (before after : List SecurityUpdate) (u : Updates) (s : Security)
    → u.vendor_updated_at ≡ some t
    → All (IsRival sid t) before
    → All (IsRival sid t) after
    → is_older t s.vendor_updated_at ≡ true
    → apply_all sid (before ++ if_older sid t u ∷ after) s ≡ set_fields u (apply_all sid before s)
unfolding apply_all
apply_all-newest sid t before after u s e p q h =
    let found = apply_all sid before s in
    apply_all-append sid before (if_older sid t u ∷ after) s
    ∙ if-cases (λ z. apply_all sid after z ≡ set_fields u found) (eq_text sid sid)
        (apply_to (if_older sid t u) found) found
        (λ _.
          if-cases (λ z. apply_all sid after z ≡ set_fields u found)
            (is_older t found.vendor_updated_at) (set_fields u found) found
            (λ _. apply_all-after sid t after (set_fields u found) q (rw e refl))
            (λ stale. let fresh = apply_all-before sid t before s p h in cc))
        (λ other. let same = eq_text_self sid in cc)

-- The updates of the rows that resolve, without the counts.
abbrev op_of : SecurityIndex → VendorRow → Text → Option Text → List SecurityUpdate
op_of index row now none = []
op_of index row now (some sid) =
    guarded_update sid (non_empty row.src_updated_at) (updates_of row now) ∷ []

abbrev ops_of : SecurityIndex → List (VendorRow × Text) → List SecurityUpdate
ops_of index [] = []
ops_of index ((row, now) ∷ rows) = op_of index row now (resolve index row) ++ ops_of index rows

onto_updates-op_of :
    (index : SecurityIndex) (row : VendorRow) (now : Text) (sid : Option Text)
    (stats : CurationStats) (rest : List SecurityUpdate × CurationStats)
    → (onto_updates (curate_resolved row sid stats now).0 rest).0
      ≡ op_of index row now sid ++ rest.0
onto_updates-op_of index row now none stats rest = refl
onto_updates-op_of index row now (some sid) stats (ops, after) = refl

curate_rows-ops_of :
    (rows : List (VendorRow × Text)) (index : SecurityIndex) (stats : CurationStats)
    → (curate_rows rows index stats).0 ≡ ops_of index rows
unfolding curate_rows curate_record
curate_rows-ops_of [] index stats = refl
curate_rows-ops_of ((row, now) ∷ rows) index stats =
    onto_updates-op_of index row now (resolve index row) (see stats) _
    ∙ ap (λ z. op_of index row now (resolve index row) ++ z) (curate_rows-ops_of rows index _)

-- A row that is undated, or dated before t.
abbrev pub is_before : Text → Option Text → Bool
is_before t none = true
is_before t (some incoming) = lt_text incoming t

-- If the row is for the security, it is undated or dated before t.
abbrev pub YieldsTo : SecurityIndex → Text → Text → VendorRow × Text → Type 0
YieldsTo index sid t (row, now) =
    resolve index row ≡ some sid → is_before t (non_empty row.src_updated_at) ≡ true

guarded_update-Precedes :
    (t sid : Text) (stamp : Option Text) (row : VendorRow) (now : Text)
    → is_before t stamp ≡ true
    → Precedes t (guarded_update sid stamp (updates_of row now))
guarded_update-Precedes t sid none row now h = refl
guarded_update-Precedes t sid (some incoming) row now h = (refl, h)

target-guarded_update :
    (sid : Text) (stamp : Option Text) (u : Updates) → target (guarded_update sid stamp u) ≡ sid
target-guarded_update sid none u = refl
target-guarded_update sid (some incoming) u = refl

op_of-IsRival :
    (index : SecurityIndex) (sid t : Text) (row : VendorRow) (now : Text) (found : Option Text)
    (rest : List SecurityUpdate)
    → (found ≡ some sid → is_before t (non_empty row.src_updated_at) ≡ true)
    → All (IsRival sid t) rest
    → All (IsRival sid t) (op_of index row now found ++ rest)
op_of-IsRival index sid t row now none rest h r = r
op_of-IsRival index sid t row now (some other) rest h r = (
  λ e. guarded_update-Precedes t other (non_empty row.src_updated_at) row now (
      h (
        ap some (
          (eq_text_iff other sid).0 (
            sym (ap (λ z. eq_text z sid) (target-guarded_update other _ (updates_of row now)))
            ∙ e)))),
  r,
)

ops_of-IsRival :
    (index : SecurityIndex) (sid t : Text) (rows : List (VendorRow × Text))
    → All (YieldsTo index sid t) rows
    → All (IsRival sid t) (ops_of index rows)
ops_of-IsRival index sid t [] h = tt
ops_of-IsRival index sid t ((row, now) ∷ rows) (h, hs) =
    op_of-IsRival index sid t row now (resolve index row) (ops_of index rows) h
      (ops_of-IsRival index sid t rows hs)

ops_of-append :
    (index : SecurityIndex) (before after : List (VendorRow × Text))
    → ops_of index (before ++ after) ≡ ops_of index before ++ ops_of index after
ops_of-append index [] after = refl
ops_of-append index ((row, now) ∷ before) after =
    ap (λ z. op_of index row now (resolve index row) ++ z) (ops_of-append index before after)
    ∙ sym (append_assoc (op_of index row now (resolve index row)) (ops_of index before) _)

-- In a batch, let a row resolve to a security with a timestamp t that is after the security's own,
-- if it has one, and let the other rows for the security be undated or dated before t. In whatever
-- order they stand, the security ends as that row's update leaves what the rows before it left:
-- with the stamp t, and with each field that the row supplies.
pub curate_rows-newest :
    (index : SecurityIndex) (sid t : Text) (row : VendorRow) (now : Text)
    (before after : List (VendorRow × Text)) (stats : CurationStats) (s : Security)
    → resolve index row ≡ some sid
    → non_empty row.src_updated_at ≡ some t
    → All (YieldsTo index sid t) before
    → All (YieldsTo index sid t) after
    → is_older t s.vendor_updated_at ≡ true
    → apply_all sid (curate_rows (before ++ (row, now) ∷ after) index stats).0 s
      ≡ set_fields
          (record (updates_of row now) { vendor_updated_at = some t })
          (apply_all sid (curate_rows before index stats).0 s)
curate_rows-newest index sid t row now before after stats s found stamp p q h =
    rw
      (
        curate_rows-ops_of (before ++ (row, now) ∷ after) index stats,
        curate_rows-ops_of before index stats,
        ops_of-append index before ((row, now) ∷ after),
        found,
        stamp,
      )
      (apply_all-newest sid t (ops_of index before) (ops_of index after) _ s refl
        (ops_of-IsRival index sid t before p) (ops_of-IsRival index sid t after q) h)
