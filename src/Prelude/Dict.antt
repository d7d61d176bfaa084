-- ===== src/Prelude/Dict.antt =====
-- Python's `dict` with string keys: an association list in insertion order, where an assignment
-- to a key that is there keeps its place.
use Prim.Native.String.{String}
use mathlib.Core.Path.{◌≡◌, refl}
use mathlib.Core.Bool.{Bool, true, false, ◌||◌}
use mathlib.Core.List.{List, [], ◌∷◌}
use mathlib.Core.Option.{Option, none, some}
use native.Mathlib.Omega.{arith}
use text.Mathlib.Text.{◌==◌ as str_eq}
use text.Mathlib.TextEquality.{eq_iff as str_eq_iff}
use bank_ods_unified_api.Prelude.Tests.{if◌then◌else◌}

abbrev pub Dict {ℓ} : Type ℓ → Type ℓ
Dict V = List (String × V)

-- `k in ks`
unfoldable pub contains : List String → String → Bool
contains [] k = false
contains (j ∷ ks) k = str_eq j k || contains ks k

module _ {ℓ} {V : Type ℓ} where
  -- `d.get(k)`
  unfoldable pub lookup : String → Dict V → Option V
  lookup k [] = none
  lookup k ((j, v) ∷ m) = if str_eq j k then some v else lookup k m

  -- `d[k] = v`
  unfoldable pub insert : String → V → Dict V → Dict V
  insert k v [] = (k, v) ∷ []
  insert k v ((j, w) ∷ m) = if str_eq j k then (j, v) ∷ m else (j, w) ∷ insert k v m

  -- `{k: v for k, v in d.items() if k not in skip}`
  unfoldable pub without : List String → Dict V → Dict V
  without skip [] = []
  without skip ((j, v) ∷ m) =
      let rest = without skip m in if contains skip j then rest else (j, v) ∷ rest

  pub lookup-insert :
      (k j : String) (v : V) (m : Dict V)
      → lookup j (insert k v m) ≡ (if str_eq k j then some v else lookup j m)
  unfolding lookup insert
  lookup-insert k j v [] = refl
  lookup-insert k j v ((i, w) ∷ m) =
      ground (arith, str_eq_iff k j, str_eq_iff i k, str_eq_iff i j, lookup-insert k j v m)

  -- An assignment to a skipped key is not seen behind the skip.
  pub without-insert :
      (skip : List String) (k : String) (v : V) (m : Dict V)
      → contains skip k ≡ true
      → without skip (insert k v m) ≡ without skip m
  unfolding without insert
  without-insert skip k v [] h = ground arith
  without-insert skip k v ((i, w) ∷ m) h =
      ground (arith, str_eq_iff i k, without-insert skip k v m h)
