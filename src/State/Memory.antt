-- ===== src/State/Memory.antt =====
-- A collection in memory, with the behaviour that `Documents` states.
use bank_ods_unified_api.Prelude.{
  ◌≡◌, refl, Option, none, some, List, [], ◌∷◌, arith, if◌then◌else◌,
}
use bank_ods_unified_api.Prelude.Text.{Text, eq_text, eq_text_iff}
use bank_ods_unified_api.State.{Documents}

module _ {D : Type 0} where
  abbrev pub find_text : Text → List (Text × D) → Option D
  find_text k [] = none
  find_text k ((j, d) ∷ m) = if eq_text j k then some d else find_text k m

  abbrev pub put_text : Text → D → List (Text × D) → List (Text × D)
  put_text k d m = (k, d) ∷ m

  abbrev pub delete_text : Text → List (Text × D) → List (Text × D)
  delete_text k [] = []
  delete_text k ((j, d) ∷ m) =
      let rest = delete_text k m in if eq_text j k then rest else (j, d) ∷ rest

  pub find-delete_text :
      (k j : Text) (m : List (Text × D))
      → find_text j (delete_text k m) ≡ (if eq_text k j then none else find_text j m)
  find-delete_text k j [] = ground arith
  find-delete_text k j ((i, d) ∷ m) =
      ground (arith, find-delete_text k j m, eq_text_iff k j, eq_text_iff i k, eq_text_iff i j)

abbrev pub memory : (D : Type 0) → Documents D
memory D = record {
  Store = List (Text × D);
  find = find_text;
  upsert = λ k update m. put_text k (update (find_text k m)) m;
  delete = delete_text;
  find-upsert = λ k j update m. refl;
  find-delete = find-delete_text;
}
