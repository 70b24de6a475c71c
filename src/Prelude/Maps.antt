-- ===== src/Prelude/Maps.antt =====
-- A HashMap with text keys is an association list with at most one entry for a key, a HashSet of
-- texts a list without repetition. Both keep the order of insertion.
use ruchat.Prelude.Tests.{if◌then◌else◌}
use mathlib.Core.Bool.{Bool, false, ◌||◌}
use mathlib.Core.Option.{Option, none, some}
use mathlib.Core.List.{List, [], ◌∷◌}
use Prim.Native.String.{String}
use text.Mathlib.Text.{◌==◌ as str_eq}

abbrev pub Map {ℓ} : Type ℓ → Type ℓ
Map A = List (String × A)

module _ {ℓ} {A : Type ℓ} where
  unfoldable pub lookup : String → Map A → Option A
  lookup key [] = none
  lookup key ((k, a) ∷ entries) =
      let rest = lookup key entries in if str_eq k key then some a else rest

  unfoldable pub insert : String → A → Map A → Map A
  insert key value [] = (key, value) ∷ []
  insert key value ((k, a) ∷ entries) =
      let rest = insert key value entries in
      if str_eq k key then (k, value) ∷ entries else (k, a) ∷ rest

  unfoldable pub remove : String → Map A → Map A
  remove key [] = []
  remove key ((k, a) ∷ entries) =
      let rest = remove key entries in if str_eq k key then rest else (k, a) ∷ rest

unfoldable pub contains : String → List String → Bool
contains key [] = false
contains key (k ∷ keys) = str_eq k key || contains key keys

unfoldable pub insert_item : String → List String → List String
insert_item key [] = key ∷ []
insert_item key (k ∷ keys) =
    let rest = insert_item key keys in if str_eq k key then k ∷ keys else k ∷ rest
