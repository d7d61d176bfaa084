-- ===== src/Snapshot/Merge/Induction.antt =====
-- The loop of `sort_merge`, one equation for each branch, and induction over a run that raises
-- nothing.
use bank_ods_unified_api.Prelude.{◌≡◌, true, false, none, some, List, [], ◌∷◌, Bool-cases, inl, inr}
use bank_ods_unified_api.Prelude.Text.{Text, lt_text, eq_text, eq_of_not_lt, eq_text_iff}
use bank_ods_unified_api.Snapshot.Diff.{Row, Change, IndexEntry, Incoming, DiffStats}
use bank_ods_unified_api.Snapshot.Merge.{
  Stream, item, Run, stop, emit, removal, upsert, count_removed, count_added, count_changed,
  count_unchanged, entry_of, merge, plain,
}

module _ (digest : Row → Text) (l : IndexEntry) (ls : Stream IndexEntry) where
  module _ (r : Incoming) (rs : Stream Incoming) (s : DiffStats) where
    pub merge-gone :
        lt_text l.key r.key ≡ true
        → merge digest (item l ls) (item r rs) s
          ≡ emit (some (removal l)) none (merge digest ls (item r rs) (count_removed s))
    unfolding merge
    merge-gone a = rw a

    pub merge-fresh :
        lt_text l.key r.key ≡ false
        → lt_text r.key l.key ≡ true
        → merge digest (item l ls) (item r rs) s
          ≡ emit
              (some (upsert Change.added r))
              (some (entry_of digest r))
              (merge digest (item l ls) rs (count_added s))
    unfolding merge
    merge-fresh a b = rw (a, b)

    pub merge-same :
        lt_text l.key r.key ≡ false
        → lt_text r.key l.key ≡ false
        → eq_text l.content_hash (entry_of digest r).content_hash ≡ true
        → merge digest (item l ls) (item r rs) s
          ≡ emit none (some (entry_of digest r)) (merge digest ls rs (count_unchanged s))
    unfolding merge
    merge-same a b c = rw (a, b, c)

    pub merge-moved :
        lt_text l.key r.key ≡ false
        → lt_text r.key l.key ≡ false
        → eq_text l.content_hash (entry_of digest r).content_hash ≡ false
        → merge digest (item l ls) (item r rs) s
          ≡ emit
              (some (upsert Change.changed r))
              (some (entry_of digest r))
              (merge digest ls rs (count_changed s))
    unfolding merge
    merge-moved a b c = rw (a, b, c)

-- The branch that the loop takes is decided by the heads alone.
abbrev pub LeftFirst : IndexEntry → List Incoming → Type 0
LeftFirst l [] = Unit
LeftFirst l (r ∷ rs) = lt_text l.key r.key ≡ true

abbrev pub RightFirst : Incoming → List IndexEntry → Type 0
RightFirst r [] = Unit
RightFirst r (l ∷ ls) = lt_text r.key l.key ≡ true

-- A family of runs that is closed under the five branches.
pub record Cases (digest : Row → Text)
    (P : List IndexEntry → List Incoming → DiffStats → Run → Type 0) : Type 0 where
  pub done : (s : DiffStats) → P [] [] s (stop s none)
  pub gone :
      (l : IndexEntry) (ls : List IndexEntry) (rs : List Incoming) (s : DiffStats) (run : Run)
      → LeftFirst l rs
      → P ls rs (count_removed s) run
      → P (l ∷ ls) rs s (emit (some (removal l)) none run)
  pub fresh :
      (r : Incoming) (ls : List IndexEntry) (rs : List Incoming) (s : DiffStats) (run : Run)
      → RightFirst r ls
      → P ls rs (count_added s) run
      → P ls (r ∷ rs) s (emit (some (upsert Change.added r)) (some (entry_of digest r)) run)
  pub same :
      (l : IndexEntry) (r : Incoming) (ls : List IndexEntry) (rs : List Incoming) (s : DiffStats)
      (run : Run)
      → l.key ≡ r.key
      → l.content_hash ≡ (entry_of digest r).content_hash
      → P ls rs (count_unchanged s) run
      → P (l ∷ ls) (r ∷ rs) s (emit none (some (entry_of digest r)) run)
  pub moved :
      (l : IndexEntry) (r : Incoming) (ls : List IndexEntry) (rs : List Incoming) (s : DiffStats)
      (run : Run)
      → l.key ≡ r.key
      → eq_text l.content_hash (entry_of digest r).content_hash ≡ false
      → P ls rs (count_changed s) run
      → P (l ∷ ls) (r ∷ rs) s (emit (some (upsert Change.changed r)) (some (entry_of digest r)) run)

module _ (digest : Row → Text) (P : List IndexEntry → List Incoming → DiffStats → Run → Type 0)
    (c : Cases digest P) where
  -- The four branches at two heads, from the results of the calls that they make.
  heads :
      (l : IndexEntry) (r : Incoming) (ls : List IndexEntry) (rs : List Incoming) (s : DiffStats)
      → P ls (r ∷ rs) (count_removed s) (merge digest (plain ls) (plain (r ∷ rs)) (count_removed s))
      → P (l ∷ ls) rs (count_added s) (merge digest (plain (l ∷ ls)) (plain rs) (count_added s))
      → ((t : DiffStats) → P ls rs t (merge digest (plain ls) (plain rs) t))
      → P (l ∷ ls) (r ∷ rs) s (merge digest (plain (l ∷ ls)) (plain (r ∷ rs)) s)
  heads l r ls rs s g f b = elim (Bool-cases (lt_text l.key r.key)) [
    | inl p ↦ rw (merge-gone digest l (plain ls) r (plain rs) s p) (c.gone l ls (r ∷ rs) s _ p g)
    | inr p ↦ elim (Bool-cases (lt_text r.key l.key)) [
      | inl q ↦
          rw (merge-fresh digest l (plain ls) r (plain rs) s p q) (c.fresh r (l ∷ ls) rs s _ q f)
      | inr q ↦ elim (Bool-cases (eq_text l.content_hash (entry_of digest r).content_hash)) [
        | inl e ↦
            rw (merge-same digest l (plain ls) r (plain rs) s p q e)
              (c.same l r ls rs s _ (eq_of_not_lt _ _ p q) ((eq_text_iff _ _).0 e) (b _))
        | inr e ↦
            rw (merge-moved digest l (plain ls) r (plain rs) s p q e)
              (c.moved l r ls rs s _ (eq_of_not_lt _ _ p q) e (b _))
      ]
    ]
  ]

  pub merge_induction :
      (ps : List IndexEntry) (qs : List Incoming) (s : DiffStats)
      → P ps qs s (merge digest (plain ps) (plain qs) s)
  unfolding merge
  merge_induction [] [] s = c.done s
  merge_induction [] (r ∷ rs) s = c.fresh r [] rs s _ tt (merge_induction [] rs _)
  merge_induction (l ∷ ls) [] s = c.gone l ls [] s _ tt (merge_induction ls [] _)
  merge_induction (l ∷ ls) (r ∷ rs) s =
      heads l r ls rs s (merge_induction ls (r ∷ rs) _) (merge_induction (l ∷ ls) rs _)
        (merge_induction ls rs)
