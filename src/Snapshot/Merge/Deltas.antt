-- ===== src/Snapshot/Merge/Deltas.antt =====
-- Which deltas `sort_merge` yields, key by key, and what a consumer that applies them holds.
use mathlib.Core.Option
use bank_ods_unified_api.Prelude.{
  ◌≡◌, refl, true, false, Option, none, some, List, [], ◌∷◌, arith, Bool-cases, inl, inr, sym, ap,
  ◌∙◌, if◌then◌else◌,
}
use bank_ods_unified_api.Prelude.Text.{Text, eq_text, eq_text_iff, lt-ne_flip}
use bank_ods_unified_api.Snapshot.Diff.{
  Row, Change, IndexEntry, Delta, Incoming, DiffStats, content_hash,
}
use bank_ods_unified_api.Snapshot.Merge.{
  Run, emit, removal, upsert, entry_of, sort_merge, plain, count_removed, count_added,
  count_changed, count_unchanged,
}
use bank_ods_unified_api.Snapshot.Merge.Order.{Above, Above-trans, IsAscending, checked-plain}
use bank_ods_unified_api.Snapshot.Merge.Induction.{Cases, LeftFirst, RightFirst, merge_induction}
use bank_ods_unified_api.Snapshot.Merge.Counts.{deltas}

module _ {ℓ} {A : Type ℓ} (key_of : A → Text) where
  -- The first element with a key.
  abbrev pub find : Text → List A → Option A
  find k [] = none
  find k (x ∷ xs) = if eq_text (key_of x) k then some x else find k xs

  -- Behind an element of an ascending list, its key is not found.
  find-Above :
      (j k : Text) (xs : List A) → Above key_of j xs → eq_text j k ≡ true → find k xs ≡ none
  find-Above j k [] a e = refl
  find-Above j k (x ∷ xs) a e =
      let p = (eq_text_iff j k).0 e in
      ground (arith, find-Above j k xs a.1 e, p, lt-ne_flip j (key_of x) a.0)

abbrev pub entry_key : IndexEntry → Text
entry_key e = e.key

abbrev pub incoming_key : Incoming → Text
incoming_key r = r.key

abbrev pub delta_key : Delta → Text
delta_key d = d.key

left-Above :
    (l : IndexEntry) (rs : List Incoming)
    → LeftFirst l rs
    → IsAscending incoming_key rs
    → Above incoming_key l.key rs
left-Above l [] f a = tt
left-Above l (r ∷ rs) f a = (f, Above-trans incoming_key l.key r.key rs f a.0)

right-Above :
    (r : Incoming) (ls : List IndexEntry)
    → RightFirst r ls
    → IsAscending entry_key ls
    → Above entry_key r.key ls
right-Above r [] f a = tt
right-Above r (l ∷ ls) f a = (f, Above-trans entry_key r.key l.key ls f a.0)

module _ (digest : Row → Text) where
  -- The difference at one key, from what the two snapshots hold there.
  abbrev pub difference : Option IndexEntry → Option Incoming → Option Delta
  difference none none = none
  difference (some l) none = some (removal l)
  difference none (some r) = some (upsert Change.added r)
  difference (some l) (some r) =
      if eq_text l.content_hash (content_hash digest r.content [])
      then none
      else some (upsert Change.changed r)

  -- A downstream copy, seen as the content hash that it holds for each key.
  abbrev pub Mirror : Type 0
  Mirror = Text → Option Text

  abbrev pub hash_of : Option Row → Option Text
  hash_of none = none
  hash_of (some content) = some (content_hash digest content [])

  abbrev pub apply_delta : Mirror → Delta → Mirror
  apply_delta m d k = if eq_text d.key k then hash_of d.content else m k

  abbrev pub replay : Mirror → List Delta → Mirror
  replay m [] = m
  replay m (d ∷ ds) = replay (apply_delta m d) ds

  abbrev pub settle : Option Delta → Option Text → Option Text
  settle none held = held
  settle (some d) held = hash_of d.content

  record Exact (ps : List IndexEntry) (qs : List Incoming) (s : DiffStats) (run : Run)
      : Type 0 where
    at_key :
        IsAscending entry_key ps
        → IsAscending incoming_key qs
        → (k : Text)
        → find delta_key k (deltas run.pairs)
          ≡ difference (find entry_key k ps) (find incoming_key k qs)
    replayed :
        IsAscending entry_key ps
        → IsAscending incoming_key qs
        → (m : Mirror) (k : Text)
        → replay m (deltas run.pairs) k
          ≡ settle (difference (find entry_key k ps) (find incoming_key k qs)) (m k)

  gone-Exact :
      (l : IndexEntry) (ls : List IndexEntry) (rs : List Incoming) (s : DiffStats) (run : Run)
      → LeftFirst l rs
      → Exact ls rs (count_removed s) run
      → Exact (l ∷ ls) rs s (emit (some (removal l)) none run)
  gone-Exact l ls rs s run f x = record {
    at_key = λ a b k. elim (Bool-cases (eq_text l.key k)) [
      | inl e ↦ rw (e, find-Above incoming_key l.key k rs (left-Above l rs f b) e)
      | inr e ↦ rw e (x.at_key a.1 b k)
    ];
    replayed = λ a b m k.
        rw (x.replayed a.1 b (apply_delta m (removal l)) k) elim (Bool-cases (eq_text l.key k)) [
          | inl e ↦ rw (
            e,
            find-Above entry_key l.key k ls a.0 e,
            find-Above incoming_key l.key k rs (left-Above l rs f b) e,
          )
          | inr e ↦ rw e
        ];
  }

  fresh-Exact :
      (r : Incoming) (ls : List IndexEntry) (rs : List Incoming) (s : DiffStats) (run : Run)
      → RightFirst r ls
      → Exact ls rs (count_added s) run
      → Exact ls (r ∷ rs) s (emit (some (upsert Change.added r)) (some (entry_of digest r)) run)
  fresh-Exact r ls rs s run f x = record {
    at_key = λ a b k. elim (Bool-cases (eq_text r.key k)) [
      | inl e ↦ rw (e, find-Above entry_key r.key k ls (right-Above r ls f a) e)
      | inr e ↦ rw e (x.at_key a b.1 k)
    ];
    replayed = λ a b m k.
        rw (x.replayed a b.1 (apply_delta m (upsert Change.added r)) k)
          elim (Bool-cases (eq_text r.key k)) [
            | inl e ↦ rw (
              e,
              find-Above incoming_key r.key k rs b.0 e,
              find-Above entry_key r.key k ls (right-Above r ls f a) e,
            )
            | inr e ↦ rw e
          ];
  }

  module _ (l : IndexEntry) (r : Incoming) (p : l.key ≡ r.key) where
    -- At the shared key nothing follows in either list.
    nothing_follows :
        (k : Text) (ls : List IndexEntry) (rs : List Incoming)
        → IsAscending entry_key (l ∷ ls)
        → IsAscending incoming_key (r ∷ rs)
        → eq_text r.key k ≡ true
        → difference (find entry_key k ls) (find incoming_key k rs) ≡ none
    nothing_follows k ls rs a b e =
        rw (find-Above entry_key l.key k ls a.0 (rw p e), find-Above incoming_key r.key k rs b.0 e)

    past :
        (k : Text) (ls : List IndexEntry) (rs : List Incoming)
        → eq_text r.key k ≡ false
        → difference (find entry_key k (l ∷ ls)) (find incoming_key k (r ∷ rs))
          ≡ difference (find entry_key k ls) (find incoming_key k rs)
    past k ls rs e = let e' : eq_text l.key k ≡ false = rw p e in rw (e, e')

    at_shared :
        (k : Text) (ls : List IndexEntry) (rs : List Incoming)
        → eq_text r.key k ≡ true
        → difference (find entry_key k (l ∷ ls)) (find incoming_key k (r ∷ rs))
          ≡ difference (some l) (some r)
    at_shared k ls rs e = let e' : eq_text l.key k ≡ true = rw p e in rw (e, e')

    same_difference :
        l.content_hash ≡ (entry_of digest r).content_hash
        → (k : Text) (ls : List IndexEntry) (rs : List Incoming) → IsAscending entry_key (l ∷ ls)
        → IsAscending incoming_key (r ∷ rs)
        → difference (find entry_key k (l ∷ ls)) (find incoming_key k (r ∷ rs))
          ≡ difference (find entry_key k ls) (find incoming_key k rs)
    unfolding entry_of
    same_difference h k ls rs a b = elim (Bool-cases (eq_text r.key k)) [
      | inl e ↦
          at_shared k ls rs e ∙ rw ((eq_text_iff _ _).1 h) (sym (nothing_follows k ls rs a b e))
      | inr e ↦ past k ls rs e
    ]

    same-Exact :
        (ls : List IndexEntry) (rs : List Incoming) (s : DiffStats) (run : Run)
        → l.content_hash ≡ (entry_of digest r).content_hash
        → Exact ls rs (count_unchanged s) run
        → Exact (l ∷ ls) (r ∷ rs) s (emit none (some (entry_of digest r)) run)
    same-Exact ls rs s run h x = record {
      at_key = λ a b k. x.at_key a.1 b.1 k ∙ sym (same_difference h k ls rs a b);
      replayed = λ a b m k.
          x.replayed a.1 b.1 m k ∙ ap (λ d. settle d (m k)) (sym (same_difference h k ls rs a b));
    }

    moved_difference :
        eq_text l.content_hash (entry_of digest r).content_hash ≡ false
        → (k : Text) (ls : List IndexEntry) (rs : List Incoming) → eq_text r.key k ≡ true
        → difference (find entry_key k (l ∷ ls)) (find incoming_key k (r ∷ rs))
          ≡ some (upsert Change.changed r)
    unfolding entry_of
    moved_difference h k ls rs e = at_shared k ls rs e ∙ rw h

    moved-Exact :
        (ls : List IndexEntry) (rs : List Incoming) (s : DiffStats) (run : Run)
        → eq_text l.content_hash (entry_of digest r).content_hash ≡ false
        → Exact ls rs (count_changed s) run
        → Exact
            (l ∷ ls)
            (r ∷ rs)
            s
            (emit (some (upsert Change.changed r)) (some (entry_of digest r)) run)
    moved-Exact ls rs s run h x = record {
      at_key = λ a b k. elim (Bool-cases (eq_text r.key k)) [
        | inl e ↦ rw (moved_difference h k ls rs e, e)
        | inr e ↦ rw (past k ls rs e, e) (x.at_key a.1 b.1 k)
      ];
      replayed = λ a b m k. elim (Bool-cases (eq_text r.key k)) [
        | inl e ↦ rw (moved_difference h k ls rs e) (
            x.replayed a.1 b.1 (apply_delta m (upsert Change.changed r)) k
            ∙ rw (nothing_follows k ls rs a b e, e))
        | inr e ↦
            rw (past k ls rs e)
              (x.replayed a.1 b.1 (apply_delta m (upsert Change.changed r)) k ∙ rw e)
      ];
    }

  merge-Exact : Cases digest Exact
  merge-Exact = record {
    done = λ s. record { at_key = λ a b k. refl; replayed = λ a b m k. refl };
    gone = gone-Exact;
    fresh = fresh-Exact;
    same = λ l r ls rs s run p. same-Exact l r p ls rs s run;
    moved = λ l r ls rs s run p. moved-Exact l r p ls rs s run;
  }

  module _ (previous : List IndexEntry) (incoming : List Incoming) (s : DiffStats) where
    sort_merge-Exact :
        IsAscending entry_key previous
        → IsAscending incoming_key incoming
        → Exact previous incoming s (sort_merge digest (plain previous) (plain incoming) s)
    unfolding sort_merge
    sort_merge-Exact a b =
        rw
          (
            checked-plain entry_key "previous index" none previous tt a,
            checked-plain incoming_key "incoming snapshot" none incoming tt b,
          )
          (merge_induction digest Exact merge-Exact previous incoming s)

    -- On strictly ascending streams the deltas are, key by key, the difference of the two
    -- snapshots: for a key of the index alone a removal, for a key of the snapshot alone an
    -- addition, for a key of both a change if the content hashes differ and else nothing, and for
    -- any other key nothing.
    pub find-deltas-sort_merge :
        IsAscending entry_key previous
        → IsAscending incoming_key incoming
        → (k : Text)
        → find delta_key k (deltas (sort_merge digest (plain previous) (plain incoming) s).pairs)
          ≡ difference (find entry_key k previous) (find incoming_key k incoming)
    find-deltas-sort_merge a b = (sort_merge-Exact a b).at_key a b

    -- A consumer that held the content of the previous snapshot and applies the deltas in order
    -- holds the content of the new one: at each key the content hash of the snapshot's record, and
    -- nothing where the snapshot has no record.
    pub replay-sort_merge :
        IsAscending entry_key previous
        → IsAscending incoming_key incoming
        → (m : Mirror)
        → ((k : Text) → m k ≡ Option.map (λ e. e.content_hash) (find entry_key k previous))
        → (k : Text)
        → replay m (deltas (sort_merge digest (plain previous) (plain incoming) s).pairs) k
          ≡ Option.map (λ r. content_hash digest r.content []) (find incoming_key k incoming)
    replay-sort_merge a b m held k =
        (sort_merge-Exact a b).replayed a b m k
        ∙ settled (find entry_key k previous) (find incoming_key k incoming) (m k) (held k)
      where
        settled :
            (p : Option IndexEntry) (q : Option Incoming) (h : Option Text)
            → h ≡ Option.map (λ e. e.content_hash) p
            → settle (difference p q) h ≡ Option.map (λ r. content_hash digest r.content []) q
        settled none none h e = e
        settled (some l) none h e = refl
        settled none (some r) h e = refl
        settled (some l) (some r) h e =
            elim (Bool-cases (eq_text l.content_hash (content_hash digest r.content []))) [
              | inl q ↦ rw q (e ∙ ap some ((eq_text_iff _ _).0 q))
              | inr q ↦ rw q
            ]
