-- ===== src/Snapshot/Index.antt =====
-- src/ods_ingest/adapters/snapshot/diff.py: the lines of the key index, `read_index` and `write_index`.
-- A file is its text, and a missing one is `none`.
use mathlib.Core.Path.{subst}
use bank_ods_unified_api.Prelude.{
  ℕ, ◌≡◌, refl, ap, ◌∙◌, sym, false, Option, none, some, List, [], ◌∷◌, ◌++◌, append_assoc,
  append-nil, ◌==◌, if◌then◌else◌, inl, inr, All, ◌⊎◌,
}
use bank_ods_unified_api.Prelude.Text.{Text, codes}
use bank_ods_unified_api.Prelude.Strip.{
  has, split, strip, rstrip, is_empty, split-none, split-append, has-append, lines,
  universal_newlines, lines-append, universal_newlines-plain, rstrip-none, not-has-All,
}
use bank_ods_unified_api.Snapshot.Diff.{IndexEntry}
use bank_ods_unified_api.Snapshot.Merge.{Stream, end, raises, item, plain}

abbrev pub tab : ℕ
tab = 9

abbrev pub newline : ℕ
newline = 10

-- `f"{value}"` of a text or None.
abbrev pub format : Option Text → Text
format none = codes "None"
format (some t) = t

unfoldable pub to_line : IndexEntry → Text
to_line e = e.key ++ (tab ∷ (format e.source_timestamp ++ (tab ∷ e.content_hash)))

abbrev three : List Text → Option IndexEntry
three (key ∷ timestamp ∷ digest ∷ []) =
    some (record { key = key; source_timestamp = some timestamp; content_hash = digest })
three _ = none

-- `none` is the ValueError of the unpacking.
unfoldable pub from_line : Text → Option IndexEntry
from_line line = three (split tab (rstrip (λ c. c == newline) line))

-- A generator that stops at the first line that does not unpack.
entries_of : List Text → Stream IndexEntry
entries_of [] = end
entries_of (line ∷ rest) =
    let later = entries_of rest in
    if is_empty (strip line)
    then later
    else elim (from_line line) [ some e ↦ item e later | none ↦ raises "unpack" line ]

-- A missing file means that there is no previous snapshot.
unfoldable pub read_index : Option Text → Stream IndexEntry
unfolding entries_of
read_index none = end
read_index (some content) = entries_of (lines (universal_newlines content))

-- The files that `write_index` touches: the index and its temporary copy.
pub record Disk : Type 0 where
  pub index : Option Text
  pub temporary : Option Text

unfoldable pub content_of : List IndexEntry → Text
unfolding to_line
content_of [] = []
content_of (e ∷ es) = to_line e ++ newline ∷ content_of es

-- The states of the disk while the entries are written one by one behind what is written.
writing : Disk → Text → List IndexEntry → List Disk
writing d written [] =
    (record d { temporary = some written })
    ∷ (record { index = some written; temporary = none })
    ∷ []
writing d written (e ∷ es) =
    (record d { temporary = some written }) ∷ writing d (written ++ to_line e ++ newline ∷ []) es

-- Every state of the disk from the call on; the last is the state that the call leaves.
unfoldable pub write_index : Disk → List IndexEntry → List Disk
unfolding writing
write_index d es = d ∷ writing d [] es

abbrev pub last_disk : Disk → List Disk → Disk
last_disk d [] = d
last_disk d (e ∷ es) = last_disk e es

-- A text that the format can carry: no tab and no line end.
abbrev pub Plain : Text → Type 0
Plain s = (has tab s ≡ false) × (has newline s ≡ false) × (has 13 s ≡ false)

-- An entry as `sort_merge` makes it from a stamped record.
pub record IsStorable (e : IndexEntry) : Type 0 where
  pub key : Plain e.key
  pub stamp : Text
  pub stamped : e.source_timestamp ≡ some stamp
  pub timestamp : Plain stamp
  pub digest : Plain e.content_hash
  pub visible : is_empty (strip (to_line e)) ≡ false

abbrev stamped_entry : Text → Text → Text → IndexEntry
stamped_entry key stamp digest = record {
  key = key;
  source_timestamp = some stamp;
  content_hash = digest;
}

entry-stamped : (e : IndexEntry) (h : IsStorable e) → e ≡ stamped_entry e.key h.stamp e.content_hash
entry-stamped e h = λ i. record e { source_timestamp = h.stamped i }

module _ (key stamp digest : Text) where
  -- A line holds a character other than the tab only if a field does.
  has-cells :
      (c : ℕ)
      → has c key ≡ false
      → has c stamp ≡ false
      → has c digest ≡ false
      → (tab == c) ≡ false
      → has c (to_line (stamped_entry key stamp digest)) ≡ false
  unfolding to_line has
  has-cells c k t d n = rw (
    has-append c key (tab ∷ (stamp ++ tab ∷ digest)),
    k,
    n,
    has-append c stamp (tab ∷ digest),
    t,
    n,
    d,
  )

  from_line-cells :
      Plain key
      → Plain stamp
      → Plain digest
      → from_line (to_line (stamped_entry key stamp digest)) ≡ some (stamped_entry key stamp digest)
  unfolding from_line to_line
  from_line-cells k t d = rw (
    rstrip-none (λ c. c == newline) (key ++ tab ∷ (stamp ++ tab ∷ digest))
        (not-has-All newline _ (has-cells newline k.1 t.1 d.1 refl)),
    split-append tab key (stamp ++ tab ∷ digest) k.0,
    split-append tab stamp digest t.0,
    split-none tab digest d.0,
  )

has-to_line :
    (c : ℕ) (e : IndexEntry) (h : IsStorable e)
    → has c e.key ≡ false
    → has c h.stamp ≡ false
    → has c e.content_hash ≡ false
    → (tab == c) ≡ false
    → has c (to_line e) ≡ false
has-to_line c e h k t d n =
    subst (λ x. has c (to_line x) ≡ false) (sym (entry-stamped e h))
      (has-cells e.key h.stamp e.content_hash c k t d n)

from_line-to_line : (e : IndexEntry) → IsStorable e → from_line (to_line e) ≡ some e
from_line-to_line e h =
    subst (λ x. from_line (to_line x) ≡ some x) (sym (entry-stamped e h))
      (from_line-cells e.key h.stamp e.content_hash h.key h.timestamp h.digest)

no_returns : (es : List IndexEntry) → All IsStorable es → has 13 (content_of es) ≡ false
unfolding content_of has
no_returns [] a = refl
no_returns (e ∷ es) a =
    let h = a.0 in
    rw (
      has-append 13 (to_line e) (newline ∷ content_of es),
      has-to_line 13 e h h.key.2 h.timestamp.2 h.digest.2 refl,
      no_returns es a.1,
    )

entries_of-content_of :
    (es : List IndexEntry) → All IsStorable es → entries_of (lines (content_of es)) ≡ plain es
unfolding entries_of content_of lines
entries_of-content_of [] a = refl
entries_of-content_of (e ∷ es) a =
    let h = a.0 in
    rw (
      lines-append (to_line e) (content_of es)
          (has-to_line newline e h h.key.1 h.timestamp.1 h.digest.1 refl),
      h.visible,
      from_line-to_line e h,
      entries_of-content_of es a.1,
    )

-- What is written of storable entries is read back, whole and in order.
read_index-content_of :
    (es : List IndexEntry) → All IsStorable es → read_index (some (content_of es)) ≡ plain es
unfolding read_index
read_index-content_of es a =
    rw (universal_newlines-plain (content_of es) (no_returns es a)) (entries_of-content_of es a)

regroup :
    (written : Text) (x : IndexEntry) (es : List IndexEntry)
    → (written ++ to_line x ++ newline ∷ []) ++ content_of es ≡ written ++ content_of (x ∷ es)
unfolding content_of
regroup written x es = simp append_assoc

last_disk-writing :
    (d e : Disk) (written : Text) (es : List IndexEntry)
    → last_disk e (writing d written es)
      ≡ record { index = some (written ++ content_of es); temporary = none }
unfolding writing content_of
last_disk-writing d e written [] = rw append-nil
last_disk-writing d e written (x ∷ es) =
    rw (← regroup written x es) (last_disk-writing d _ (written ++ to_line x ++ newline ∷ []) es)

pub last_disk-write_index :
    (d : Disk) (es : List IndexEntry)
    → last_disk d (write_index d es) ≡ record { index = some (content_of es); temporary = none }
unfolding write_index
last_disk-write_index d es = last_disk-writing d d [] es

-- The index that `write_index` leaves is read back as the entries that were written, if each has a
-- timestamp, no tab or line end, and a line that is not blank.
pub read_index-write_index :
    (d : Disk) (es : List IndexEntry)
    → All IsStorable es
    → read_index (last_disk d (write_index d es)).index ≡ plain es
unfolding write_index
read_index-write_index d es a = rw (last_disk-writing d d [] es) (read_index-content_of es a)

-- At every moment of the call the index is the old one, or the new one in full.
pub write_index_atomic :
    (d : Disk) (es : List IndexEntry)
    → All (λ x. (x.index ≡ d.index) ⊎ (x.index ≡ some (content_of es))) (write_index d es)
unfolding write_index content_of
write_index_atomic d es = (inl refl, during [] es refl)
  where
    during :
        (written : Text) (xs : List IndexEntry)
        → written ++ content_of xs ≡ content_of es
        → All (λ x. (x.index ≡ d.index) ⊎ (x.index ≡ some (content_of es))) (writing d written xs)
    during written [] e = (inl refl, (inr (ap some (rw append-nil at e)), tt))
    during written (x ∷ xs) e =
        (inl refl, during (written ++ to_line x ++ newline ∷ []) xs (regroup written x xs ∙ e))
