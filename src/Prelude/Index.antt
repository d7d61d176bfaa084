-- ===== src/Prelude/Index.antt =====
-- Python's `dict` and `set` with texts as keys, and `or` on what a lookup gives.
use mathlib.Core.Path.{◌≡◌, refl}
use mathlib.Core.Bool.{Bool, false, ◌||◌}
use mathlib.Core.List.{List, [], ◌∷◌}
use mathlib.Core.Option.{Option, none, some}
use native.Mathlib.Omega.{arith}
use bank_ods_unified_api.Prelude.Tests.{if◌then◌else◌, if-cases}
use bank_ods_unified_api.Prelude.Text.{Text, eq_text, eq_text_iff}
use bank_ods_unified_api.Prelude.Strip.{is_empty}

-- `t in ts`
unfoldable pub elem : Text → List Text → Bool
elem t [] = false
elem t (s ∷ ts) = eq_text s t || elem t ts

abbrev pub Index {ℓ} : Type ℓ → Type ℓ
Index V = List (Text × V)

module _ {ℓ} {V : Type ℓ} where
  -- `d.get(k)`
  unfoldable pub get : Text → Index V → Option V
  get k [] = none
  get k ((j, v) ∷ m) = if eq_text j k then some v else get k m

  -- `d[k] = v`
  unfoldable pub put : Text → V → Index V → Index V
  put k v [] = (k, v) ∷ []
  put k v ((j, w) ∷ m) = if eq_text j k then (j, v) ∷ m else (j, w) ∷ put k v m

  -- `d.setdefault(k, v)`
  unfoldable pub set_default : Text → V → Index V → Index V
  set_default k v [] = (k, v) ∷ []
  set_default k v ((j, w) ∷ m) = if eq_text j k then (j, w) ∷ m else (j, w) ∷ set_default k v m

  -- `del d[k]`
  unfoldable pub delete : Text → Index V → Index V
  delete k [] = []
  delete k ((j, w) ∷ m) = let rest = delete k m in if eq_text j k then rest else (j, w) ∷ rest

  -- `d.get(k) if k is not None else None`
  abbrev pub get_if : Option Text → Index V → Option V
  get_if none m = none
  get_if (some k) m = get k m

  pub get-put :
      (k j : Text) (v : V) (m : Index V)
      → get j (put k v m) ≡ (if eq_text k j then some v else get j m)
  unfolding get put
  get-put k j v [] = refl
  get-put k j v ((i, w) ∷ m) =
      ground (arith, eq_text_iff k j, eq_text_iff i k, eq_text_iff i j, get-put k j v m)

  pub get-delete : (k : Text) (m : Index V) → get k (delete k m) ≡ none
  unfolding get delete
  get-delete k [] = refl
  get-delete k ((j, w) ∷ m) =
      if-cases (λ r. get k r ≡ none) (eq_text j k) _ _ (λ _. get-delete k m)
        (λ e. rw e (get-delete k m))

-- A text that is absent, null or empty is false in a test.
abbrev pub non_empty : Option Text → Option Text
non_empty none = none
non_empty (some t) = if is_empty t then none else some t

-- `t or other`
abbrev pub or_else : Option Text → Option Text → Option Text
or_else none other = other
or_else (some t) other = if is_empty t then other else some t

-- `t or ""`
abbrev pub or_blank : Option Text → Text
or_blank none = []
or_blank (some t) = t

-- `t or other` where the other is a text.
abbrev pub or_text : Option Text → Text → Text
or_text none other = other
or_text (some t) other = if is_empty t then other else t
