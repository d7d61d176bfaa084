-- ===== src/Snapshot/Merge/Counts.antt =====
-- What one run of `sort_merge` amounts to: it raises exactly on a stream that is not strictly
-- ascending, the new index describes the whole snapshot, and the counters add up.
use bank_ods_unified_api.Prelude.{
  ℕ, ◌+◌, ◌≡◌, refl, ap, Option, none, some, List, [], ◌∷◌, arith, map, length, Bool-cases, inl,
  inr, ◌↔◌,
}
use bank_ods_unified_api.Prelude.Text.{Text, lt_text, eq_text}
use bank_ods_unified_api.Snapshot.Diff.{
  Row, IndexEntry, Delta, Incoming, DiffStats, total_seen, emitted,
}
use bank_ods_unified_api.Snapshot.Merge.{
  Stream, end, raises, item, Run, entry_of, merge, sort_merge, plain,
}
use bank_ods_unified_api.Snapshot.Merge.Order.{
  Completes, IsAscending, checked-plain, checked-IsAscending,
}
use bank_ods_unified_api.Snapshot.Merge.Induction.{
  Cases, merge_induction, merge-gone, merge-fresh, merge-same, merge-moved,
}

-- The new index: the entries that are there, in order.
abbrev pub entries : List (Option Delta × Option IndexEntry) → List IndexEntry
entries [] = []
entries ((d, none) ∷ ps) = entries ps
entries ((d, some e) ∷ ps) = e ∷ entries ps

-- What goes to the bus: the deltas that are there, in order.
abbrev pub deltas : List (Option Delta × Option IndexEntry) → List Delta
deltas [] = []
deltas ((none, e) ∷ ps) = deltas ps
deltas ((some d, e) ∷ ps) = d ∷ deltas ps

-- The entries of the previous index that were met.
abbrev pub total_previous : DiffStats → ℕ
total_previous s = s.removed + s.changed + s.unchanged

module _ (digest : Row → Text) where
  pub record Accounts (ps : List IndexEntry) (qs : List Incoming) (s : DiffStats) (run : Run)
      : Type 0 where
    pub completed : run.error ≡ none
    pub indexed : entries run.pairs ≡ map (entry_of digest) qs
    pub seen : total_seen run.stats ≡ total_seen s + length qs
    pub met : total_previous run.stats ≡ total_previous s + length ps
    pub sent : emitted run.stats ≡ emitted s + length (deltas run.pairs)

  merge_cases : Cases digest Accounts
  merge_cases = record {
    done = λ s. record {
      completed = refl;
      indexed = refl;
      seen = omega arith;
      met = omega arith;
      sent = omega arith;
    };
    gone = λ l ls rs s run _ a. record {
      completed = a.completed;
      indexed = a.indexed;
      seen = omega arith;
      met = omega arith;
      sent = omega arith;
    };
    fresh = λ r ls rs s run _ a. record {
      completed = a.completed;
      indexed = ap (◌∷◌ (entry_of digest r)) a.indexed;
      seen = omega arith;
      met = omega arith;
      sent = omega arith;
    };
    same = λ l r ls rs s run _ _ a. record {
      completed = a.completed;
      indexed = ap (◌∷◌ (entry_of digest r)) a.indexed;
      seen = omega arith;
      met = omega arith;
      sent = omega arith;
    };
    moved = λ l r ls rs s run _ _ a. record {
      completed = a.completed;
      indexed = ap (◌∷◌ (entry_of digest r)) a.indexed;
      seen = omega arith;
      met = omega arith;
      sent = omega arith;
    };
  }

  -- On strictly ascending streams the merge does not raise; the new index has one entry for each
  -- record of the snapshot, in order; the counters split the snapshot into added, changed and
  -- unchanged records and the previous index into removed, changed and unchanged entries; and
  -- `emitted` is the number of deltas.
  pub sort_merge-Accounts :
      (previous : List IndexEntry) (incoming : List Incoming) (s : DiffStats)
      → IsAscending (λ e. e.key) previous
      → IsAscending (λ r. r.key) incoming
      → Accounts previous incoming s (sort_merge digest (plain previous) (plain incoming) s)
  unfolding sort_merge
  sort_merge-Accounts previous incoming s a b =
      rw
        (
          checked-plain (λ e. e.key) "previous index" none previous tt a,
          checked-plain (λ r. r.key) "incoming snapshot" none incoming tt b,
        )
        (merge_induction digest Accounts merge_cases previous incoming s)

  at_heads :
      (l : IndexEntry) (r : Incoming) (ls : Stream IndexEntry) (rs : Stream Incoming)
      (s : DiffStats)
      → (merge digest (item l ls) (item r rs) s).error ≡ none
      → ((t : DiffStats)
          → (merge digest ls (item r rs) t).error ≡ none
          → Completes ls × Completes rs)
      → ((t : DiffStats)
          → (merge digest (item l ls) rs t).error ≡ none
          → Completes ls × Completes rs)
      → ((t : DiffStats) → (merge digest ls rs t).error ≡ none → Completes ls × Completes rs)
      → Completes ls × Completes rs
  at_heads l r ls rs s h g f b = elim (Bool-cases (lt_text l.key r.key)) [
    | inl p ↦ g _ (rw (merge-gone digest l ls r rs s p) at h)
    | inr p ↦ elim (Bool-cases (lt_text r.key l.key)) [
      | inl q ↦ f _ (rw (merge-fresh digest l ls r rs s p q) at h)
      | inr q ↦ elim (Bool-cases (eq_text l.content_hash (entry_of digest r).content_hash)) [
        | inl e ↦ b _ (rw (merge-same digest l ls r rs s p q e) at h)
        | inr e ↦ b _ (rw (merge-moved digest l ls r rs s p q e) at h)
      ]
    ]
  ]

  merge-Completes :
      (p : Stream IndexEntry) (q : Stream Incoming) (s : DiffStats)
      → (merge digest p q s).error ≡ none
      → Completes p × Completes q
  unfolding merge
  merge-Completes (raises label key) q s h = cc
  merge-Completes end (raises label key) s h = cc
  merge-Completes end end s h = (tt, tt)
  merge-Completes end (item r rs) s h = merge-Completes end rs _ h
  merge-Completes (item l ls) (raises label key) s h = cc
  merge-Completes (item l ls) end s h = merge-Completes ls end _ h
  merge-Completes (item l ls) (item r rs) s h =
      at_heads l r ls rs s h (merge-Completes ls (item r rs)) (merge-Completes (item l ls) rs)
        (merge-Completes ls rs)

  -- The merge raises exactly when one of the two streams is not strictly ascending by key.
  pub sort_merge-completes_iff :
      (previous : List IndexEntry) (incoming : List Incoming) (s : DiffStats)
      → ((sort_merge digest (plain previous) (plain incoming) s).error ≡ none)
        ↔ (IsAscending (λ e. e.key) previous × IsAscending (λ r. r.key) incoming)
  unfolding sort_merge
  sort_merge-completes_iff previous incoming s = (
    λ h.
        let (p, q) = merge-Completes _ _ s h in
        (
          (checked-IsAscending (λ e. e.key) "previous index" none previous p).1,
          (checked-IsAscending (λ r. r.key) "incoming snapshot" none incoming q).1,
        ),
    λ a. (sort_merge-Accounts previous incoming s a.0 a.1).completed,
  )
