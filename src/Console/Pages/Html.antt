-- ===== src/Console/Pages/Html.antt =====
-- apps/command-server/src/console.rs: how the pages are put together, as code points.
use ruchat.Prelude.{ℕ, List, [], ◌∷◌, ◌++◌}

-- `format!` of a part of a page, and `join("")` of several parts.
unfoldable pub concat : List (List ℕ) → List ℕ
concat [] = []
concat (piece ∷ pieces) = piece ++ concat pieces

-- `iter().rev()`
unfoldable pub reversed {ℓ} : {A : Type ℓ} → List A → List A
reversed [] = []
reversed (x ∷ xs) = reversed xs ++ x ∷ []
