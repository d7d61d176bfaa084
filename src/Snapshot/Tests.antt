-- ===== src/Snapshot/Tests.antt =====
-- Runs of the snapshot adapter, and instances of its theorems.
use mathlib.Core.Option
use bank_ods_unified_api.Prelude.{◌≡◌, refl, none, some, String, List, [], ◌∷◌, ◌++◌, ◌↔◌}
use bank_ods_unified_api.Prelude.Text.{Text, codes, compare_text}
use bank_ods_unified_api.Prelude.Dict.{without, contains}
use bank_ods_unified_api.Snapshot.Diff.{
  insert_sorted, sorted_items, Row, IndexEntry, Incoming, no_stats, content_hash,
}
use bank_ods_unified_api.Snapshot.Merge.{plain, sort_merge, checked, merge, entry_of}
use bank_ods_unified_api.Snapshot.Merge.Order.{IsAscending}
use bank_ods_unified_api.Snapshot.Merge.Counts.{
  Accounts, deltas, sort_merge-Accounts, sort_merge-completes_iff,
}
use bank_ods_unified_api.Snapshot.Merge.Deltas.{
  find, difference, replay, entry_key, incoming_key, delta_key, find-deltas-sort_merge,
  replay-sort_merge,
}

program : Unit {0}
unfolding compare_text checked merge sort_merge entry_of content_hash without contains insert_sorted
    sorted_items
program = tt

-- A digest that is the text of the values, one after the other.
abbrev flat : Row → Text
flat [] = []
flat ((k, none) ∷ m) = 0 ∷ flat m
flat ((k, some v) ∷ m) = v ++ flat m

abbrev entry : String → String → IndexEntry
entry key digest = record {
  key = codes key;
  source_timestamp = some (codes "t0");
  content_hash = codes digest;
}

abbrev incoming : String → String → Incoming
incoming key value = record {
  key = codes key;
  source_timestamp = some (codes "t1");
  content = ("v", some (codes value)) ∷ [];
}

abbrev before : List IndexEntry
before = entry "A" "one" ∷ entry "B" "two" ∷ entry "C" "three" ∷ []

abbrev after : List Incoming
after = incoming "B" "two" ∷ incoming "C" "3" ∷ incoming "D" "four" ∷ []

before-IsAscending : IsAscending entry_key before
unfolding compare_text
before-IsAscending = ((refl, (refl, tt)), ((refl, tt), (tt, tt)))

after-IsAscending : IsAscending incoming_key after
unfolding compare_text
after-IsAscending = ((refl, (refl, tt)), ((refl, tt), (tt, tt)))

-- One of each: A is removed, B is unchanged, C has changed, D is added.
one_of_each :
    (sort_merge flat (plain before) (plain after) no_stats).stats
    ≡ record { added = 1; changed = 1; removed = 1; unchanged = 1 }
unfolding program
one_of_each = refl

sort_merge-Accounts_example :
    Accounts flat before after no_stats (sort_merge flat (plain before) (plain after) no_stats)
sort_merge-Accounts_example =
    sort_merge-Accounts flat before after no_stats before-IsAscending after-IsAscending

sort_merge-completes_iff_example :
    ((sort_merge flat (plain before) (plain after) no_stats).error ≡ none)
    ↔ (IsAscending entry_key before × IsAscending incoming_key after)
sort_merge-completes_iff_example = sort_merge-completes_iff flat before after no_stats

find-deltas-sort_merge_example :
    find delta_key
      (codes "C")
      (deltas (sort_merge flat (plain before) (plain after) no_stats).pairs)
    ≡ difference flat (find entry_key (codes "C") before) (find incoming_key (codes "C") after)
find-deltas-sort_merge_example =
    find-deltas-sort_merge flat before after no_stats before-IsAscending after-IsAscending
      (codes "C")

replay-sort_merge_example :
    replay flat
      (λ k. Option.map (λ e. e.content_hash) (find entry_key k before))
      (deltas (sort_merge flat (plain before) (plain after) no_stats).pairs)
      (codes "D")
    ≡ Option.map (λ r. content_hash flat r.content []) (find incoming_key (codes "D") after)
replay-sort_merge_example =
    replay-sort_merge flat before after no_stats before-IsAscending after-IsAscending
      (λ k. Option.map (λ e. e.content_hash) (find entry_key k before)) (λ k. refl) (codes "D")

-- A repeated key is refused before anything of it is yielded.
repeated_key :
    (sort_merge flat
      (plain before)
      (plain (incoming "B" "two" ∷ incoming "B" "two" ∷ []))
      no_stats).error
    ≡ some ("incoming snapshot", codes "B")
unfolding program
repeated_key = refl
