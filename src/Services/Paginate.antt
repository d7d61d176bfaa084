-- ===== src/Services/Paginate.antt =====
-- src/bank_ods/services/pagination.py: `paginate`. A collection of the database is the interface
-- `Collection`; the documents of a page are as they are before `serialize_doc`.
pub mod Filter
pub mod Resume
pub mod Walk
use bank_ods_unified_api.Prelude.{
  ℕ, suc, ◌+◌, ◌≡◌, String, Bool, true, false, ◌&&◌, Option, none, some, List, [], ◌∷◌, ◌++◌,
  length, take, ltb, if◌then◌else◌,
}
use bank_ods_unified_api.Prelude.Text.{Text}
use bank_ods_unified_api.Services.Cursor.{
  Bson, Tokens, SortSpec, ascending, Value, Result, ok, raises, missing_key, bind, encode_cursor,
  decode_cursor, clamp_limit,
}
use bank_ods_unified_api.Services.Seek.{
  ValueOrder, Doc, Clause, keys_of, seek_predicate, satisfies_any,
}

unfoldable pub filter : {A : Type 0} → (A → Bool) → List A → List A
filter p [] = []
filter p (x ∷ xs) = let rest = filter p xs in if p x then x ∷ rest else rest

-- `docs[-1]`
unfoldable pub last_of : {A : Type 0} → List A → Option A
last_of [] = none
last_of (x ∷ xs) = elim xs [ [] ↦ some x | _ ∷ _ ↦ last_of xs ]

-- `listing sort` is the whole collection in the order of the sort.
pub record Collection (V : Type 0) : Type 0 where
  pub name : Text
  pub listing : SortSpec → List (Doc V)
  -- `find(...).sort(...).limit(...)`
  pub find : (Doc V → Bool) → SortSpec → ℕ → List (Doc V)
  pub find-listing :
      (selected : Doc V → Bool) (sort : SortSpec) (n : ℕ)
      → find selected sort n ≡ take n (filter selected (listing sort))

pub record Page (V Token : Type 0) : Type 0 where
  pub data_ : List (Doc V)
  pub has_more : Bool
  pub next_cursor : Option Token

unfoldable pub full_sort : SortSpec → SortSpec
full_sort sort = sort ++ ("_id", ascending) ∷ []

module _ (bson : Bson) (tokens : Tokens) (order : ValueOrder (Value bson))
    (col : Collection (Value bson)) (sort : SortSpec) where
  -- What the cursor adds to the query.
  unfoldable pub conditions : Option tokens.Token → Result (Option (List (Clause (Value bson))))
  conditions none = ok none
  conditions (some cursor) =
      bind (decode_cursor bson tokens cursor col.name (full_sort sort))
        λ values. ok (some (seek_predicate (full_sort sort) values))

  abbrev pub selects :
      (Doc (Value bson) → Bool) → Option (List (Clause (Value bson))) → Doc (Value bson) → Bool
  selects query none d = query d
  selects query (some clauses) d = query d && satisfies_any order clauses d

  abbrev pub cursor_of : Option (List (Value bson)) → Result (Option tokens.Token)
  cursor_of none = raises missing_key
  cursor_of (some values) =
      bind (encode_cursor bson tokens col.name (full_sort sort) values) λ c. ok (some c)

  abbrev pub cursor_at : Option (Doc (Value bson)) → Result (Option tokens.Token)
  cursor_at none = ok none
  cursor_at (some last) = cursor_of (keys_of (full_sort sort) last)

  -- The end of `paginate`, for the documents that were found.
  unfoldable pub page_of : ℕ → List (Doc (Value bson)) → Result (Page (Value bson) tokens.Token)
  page_of n docs =
      let has_more = ltb n (length docs) in
      bind (if has_more then cursor_at (last_of (take n docs)) else ok none)
        λ next. ok record { data_ = take n docs; has_more = has_more; next_cursor = next }

  unfoldable pub paginate :
      (Doc (Value bson) → Bool) → ℕ → Option tokens.Token → Result (Page (Value bson) tokens.Token)
  paginate query limit cursor = bind (conditions cursor) λ clauses.
      page_of (clamp_limit limit)
        (col.find (selects query clauses) (full_sort sort) (clamp_limit limit + 1))
