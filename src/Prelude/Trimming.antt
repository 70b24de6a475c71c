-- ===== src/Prelude/Trimming.antt =====
-- Texts that have nothing to be trimmed.
use Prim.Native.Char.{Char, code}
use Prim.Native.String.{String, ◌++◌ as str_append}
use mathlib.Core.Path.{◌≡◌, refl}
use mathlib.Core.Logic.{inl, inr}
use mathlib.Core.Bool.{false}
use text.Mathlib.TextLemmas.{nil-append, cons-append}
use ruchat.Prelude.Tests.{Bool-cases}
use ruchat.Prelude.Text.{is_whitespace, is_empty, trim, trim_start, trim_end}

-- Every character of a text.
abbrev pub Each : (Char → Type 0) → String → Type 0
Each P String.[] = Unit
Each P (String.◌∷◌ c s) = P c × Each P s

-- A character that is not trimmed away.
abbrev pub Dense : Char → Type 0
Dense c = is_whitespace (code c) ≡ false

pub Each-append : (P : Char → Type 0) (s t : String) → Each P s → Each P t → Each P (str_append s t)
Each-append P String.[] t p q = rw (nil-append t) q
Each-append P (String.◌∷◌ c s) t p q = rw (cons-append c s t) (p.0, Each-append P s t p.1 q)

pub Each-map : (P Q : Char → Type 0) → ((c : Char) → P c → Q c) → (s : String) → Each P s → Each Q s
Each-map P Q f String.[] p = tt
Each-map P Q f (String.◌∷◌ c s) p = (f c p.0, Each-map P Q f s p.1)

trim_end-Dense : (s : String) → Each Dense s → trim_end s ≡ s
unfolding trim_end
trim_end-Dense String.[] p = refl
trim_end-Dense (String.◌∷◌ c s) p =
    rw (trim_end-Dense s p.1, p.0)
      (elim (Bool-cases (is_empty s)) [ inl e ↦ rw e refl | inr e ↦ rw e refl ])

trim_start-Dense : (s : String) → Each Dense s → trim_start s ≡ s
unfolding trim_start
trim_start-Dense String.[] p = refl
trim_start-Dense (String.◌∷◌ c s) p = rw p.0 refl

pub trim-Dense : (s : String) → Each Dense s → trim s ≡ s
unfolding trim
trim-Dense s p = rw (trim_end-Dense s p) (trim_start-Dense s p)

-- A space before a text that is not empty goes away.
trim_end_space :
    (s : String)
    → is_empty s ≡ false
    → Each Dense s
    → trim_end (String.◌∷◌ " " s) ≡ String.◌∷◌ " " s
unfolding trim_end
trim_end_space s e p = rw (trim_end-Dense s p, e) refl

pub trim_space : (s : String) → is_empty s ≡ false → Each Dense s → trim (String.◌∷◌ " " s) ≡ s
unfolding trim trim_start
trim_space s e p = rw (trim_end_space s e p) (trim_start-Dense s p)
