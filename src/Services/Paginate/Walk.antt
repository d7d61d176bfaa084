-- ===== src/Services/Paginate/Walk.antt =====
-- A client of src/bank_ods/services/pagination.py that follows the cursors from page to page.
use native.Mathlib.Decide.{dec_le}
use mathlib.Core.Path.{subst}
use bank_ods_unified_api.Prelude.{
  ℕ, suc, zero, ◌+◌, ◌≤◌, ◌<◌, ◌≡◌, refl, sym, ap, ◌∙◌, Bool, true, false, Option, none, some, List,
  [], ◌∷◌, ◌++◌, map, length, take, drop, ltb, All, arith, length-take, length-drop,
  take-append-drop, take_of_length-le, append_assoc,
}
use bank_ods_unified_api.Services.Cursor.{
  Bson, Tokens, SortSpec, Value, Result, ok, raises, encode_cursor, clamp_limit, clamp_limit-bounds,
}
use bank_ods_unified_api.Services.Cursor.RoundTrip.{decode_cursor-encode_cursor}
use bank_ods_unified_api.Services.Seek.{
  ValueOrder, Doc, Clause, keys_of, seek_predicate, satisfies_any,
}
use bank_ods_unified_api.Services.Seek.Order.{Distinct}
use bank_ods_unified_api.Services.Paginate.{
  filter, last_of, Collection, Page, full_sort, conditions, selects, page_of, paginate,
}
use bank_ods_unified_api.Services.Paginate.Filter.{
  Sorted, All-filter, Sorted-filter, All-right, filter-and, take-take-suc, last_of-take,
}
use bank_ods_unified_api.Services.Paginate.Resume.{
  Keyed, Before, length-keys_of, filter-seek_predicate,
}

module _ {D : Type 0} where
  abbrev pub onto_pages : List D → Result (Option (List D)) → Result (Option (List D))
  onto_pages docs (ok none) = ok none
  onto_pages docs (ok (some more)) = ok (some (docs ++ more))
  onto_pages docs (raises e) = raises e

module _ (bson : Bson) (tokens : Tokens) (order : ValueOrder (Value bson))
    (col : Collection (Value bson)) (sort : SortSpec) (query : Doc (Value bson) → Bool)
    (limit : ℕ) where
  abbrev pub DocOf : Type 0
  DocOf = Doc (Value bson)

  -- One page, and then the pages behind its cursor.
  abbrev pub follow :
      Result (Page (Value bson) tokens.Token)
      → (tokens.Token → Result (Option (List DocOf)))
      → Result (Option (List DocOf))
  follow (raises e) again = raises e
  follow (ok page) again = elim page.next_cursor [
    | none ↦ ok (some page.data_)
    | some next ↦ onto_pages page.data_ (again next)
  ]

  -- All that a client sees who follows the cursors, for at most so many pages; `none` if there
  -- are more.
  unfoldable pub walk : ℕ → Option tokens.Token → Result (Option (List DocOf))
  walk zero cursor = ok none
  walk (suc fuel) cursor =
      follow (paginate bson tokens order col sort query limit cursor) λ next. walk fuel (some next)

  abbrev full : SortSpec
  full = full_sort sort

  abbrev listed : List DocOf
  listed = col.listing full

  -- The document has the keys of the sort, of the type brackets that are given, and a cursor can
  -- carry them.
  abbrev pub Carried : List ℕ → DocOf → Type 0
  Carried brackets d =
      (ks : List (Value bson)) × ((token : tokens.Token) × (keys_of full d ≡ some ks)
        × (map order.bracket ks ≡ brackets)
        × (encode_cursor bson tokens col.name full ks ≡ ok token))

  -- The constraint that the module states, and what the sort does.
  pub record Lists : Type 0 where
    pub distinct : Distinct full
    pub brackets : List ℕ
    pub carried : All (Carried brackets) listed
    pub sorted : Sorted (Before order full) listed

  -- The cursor stands before the documents xs, the last ones of the selected.
  record Stands (cursor : Option tokens.Token) (xs : List DocOf) : Type 0 where
    added : Option (List (Clause (Value bson)))
    read : conditions bson tokens order col sort cursor ≡ ok added
    selected : filter (selects bson tokens order col sort query added) listed ≡ xs
    before : List DocOf
    suffix : filter query listed ≡ before ++ xs

  Carried-Keyed :
      (brackets : List ℕ) (xs : List DocOf)
      → All (Carried brackets) xs
      → All (Keyed order full brackets) xs
  Carried-Keyed brackets [] h = tt
  Carried-Keyed brackets (d ∷ xs) ((ks, (token, e, b, c)), h) =
      ((ks, (e, b)), Carried-Keyed brackets xs h)

  found :
      (cursor : Option tokens.Token) (xs : List DocOf) (s : Stands cursor xs)
      → paginate bson tokens order col sort query limit cursor
        ≡ page_of bson tokens order col sort (clamp_limit limit) (take (suc (clamp_limit limit)) xs)
  unfolding paginate
  found cursor xs s =
      let e : clamp_limit limit + 1 ≡ suc (clamp_limit limit) = omega arith in
      rw
        (
          s.read,
          col.find-listing (selects bson tokens order col sort query s.added) full
              (clamp_limit limit + 1),
          s.selected,
          e,
        )
        refl

  last_page :
      (n : ℕ) (xs : List DocOf)
      → length xs ≤ n
      → page_of bson tokens order col sort n (take (suc n) xs)
        ≡ ok record { data_ = xs; has_more = false; next_cursor = none }
  unfolding page_of
  last_page n xs h =
      let e : ltb n (length xs) ≡ false = ground arith in
      rw (take_of_length-le (suc n) xs (omega arith), take_of_length-le n xs h, e) refl

  middle :
      (init : List DocOf) (l : DocOf) (rest : List DocOf) (P : DocOf → Type 0)
      → All P (init ++ l ∷ rest)
      → P l
  middle [] l rest P (h, hs) = h
  middle (d ∷ init) l rest P (h, hs) = middle init l rest P hs

  page_with_more :
      (n : ℕ) (xs : List DocOf) (l : DocOf) (ks : List (Value bson)) (token : tokens.Token)
      → n < length xs
      → last_of (take n xs) ≡ some l
      → keys_of full l ≡ some ks
      → encode_cursor bson tokens col.name full ks ≡ ok token
      → page_of bson tokens order col sort n (take (suc n) xs)
        ≡ ok record { data_ = take n xs; has_more = true; next_cursor = some token }
  unfolding page_of
  page_with_more n xs l ks token more e k c =
      let longer : ltb n (length (take (suc n) xs)) ≡ true =
        ground (arith, length-take (suc n) xs) in
      rw (longer, take-take-suc n xs, e, k, c) refl

  resumed :
      (init before : List DocOf) (l : DocOf) (rest : List DocOf) (ks : List (Value bson))
      (token : tokens.Token)
      → (h : Lists) → filter query listed ≡ before ++ init ++ l ∷ rest
      → keys_of full l ≡ some ks
      → map order.bracket ks ≡ h.brackets
      → encode_cursor bson tokens col.name full ks ≡ ok token
      → Stands (some token) rest
  unfolding conditions
  resumed init before l rest ks token h split e b c =
      let keyed = subst (All (Keyed order full (map order.bracket ks))) split (
        All-filter _ query listed (
          subst (λ t. All (Keyed order full t) listed) (sym b)
            (Carried-Keyed h.brackets listed h.carried))) in
      let sorted =
        subst (Sorted (Before order full)) split (Sorted-filter _ query listed h.sorted) in
      record {
        added = some (seek_predicate full ks);
        read =
            rw
              (decode_cursor-encode_cursor bson tokens col.name token full ks c
                (length-keys_of order full l ks e))
              refl;
        selected =
            filter-and query (satisfies_any order (seek_predicate full ks)) listed
            ∙ ap (filter (satisfies_any order (seek_predicate full ks))) split
            ∙ filter-seek_predicate order full h.distinct (before ++ init) l rest ks e keyed sorted;
        before = before ++ init ++ l ∷ [];
        suffix = split ∙ sym (append_assoc (before ++ init) (l ∷ []) rest);
      }

  -- The pages from a cursor on.
  walk-Stands :
      Lists
      → (fuel : ℕ) (cursor : Option tokens.Token) (xs : List DocOf) → Stands cursor xs
      → length xs < fuel
      → walk fuel cursor ≡ ok (some xs)
  unfolding walk
  walk-Stands h zero cursor xs s enough = absurd (omega arith)
  walk-Stands h (suc fuel) cursor xs s enough =
      let n = clamp_limit limit in
      elim (dec_le (length xs) n) [
        | yes short ↦ rw (found cursor xs s, last_page n xs short) refl
        | no long ↦
            let (init, (l, e, split)) =
              last_of-take n xs (clamp_limit-bounds limit).0 (omega arith) in
            let whole : filter query listed ≡ s.before ++ init ++ l ∷ drop n xs =
              s.suffix
              ∙ ap (λ ys. s.before ++ ys) split
              ∙ sym (append_assoc s.before init (l ∷ drop n xs)) in
            let P = Carried h.brackets in
            let (ks, (token, k, b, c)) = middle init l (drop n xs) P (
              subst (All P) split (
                All-right P s.before xs
                  (subst (All P) s.suffix (All-filter P query listed h.carried)))) in
            let next = resumed init s.before l (drop n xs) ks token h whole k b c in
            rw
              (
                found cursor xs s,
                page_with_more n xs l ks token (omega arith) e k c,
                walk-Stands h fuel (some token) (drop n xs) next
                    (omega (arith, length-drop n xs, (clamp_limit-bounds limit).0)),
              )
              (ap (λ ys. ok (some ys)) (take-append-drop n xs))
      ]

  -- If the sort has no field twice, the documents have keys that a cursor can carry, at each field
  -- all of one type bracket, and the listing is strictly sorted by them, then a client that follows the cursors from the first page gets the
  -- selected documents in the order of the sort, each once, when it may fetch more pages than
  -- there are selected documents.
  pub walk-filter :
      Lists
      → (fuel : ℕ) → length (filter query listed) < fuel
      → walk fuel none ≡ ok (some (filter query listed))
  unfolding conditions
  walk-filter h fuel enough =
      walk-Stands h fuel none (filter query listed)
        (record { added = none; read = refl; selected = refl; before = []; suffix = refl }) enough
