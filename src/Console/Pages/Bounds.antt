-- ===== src/Console/Pages/Bounds.antt =====
-- apps/command-server/src/console.rs: how much of an output the console shows.
mod Tests
use Prim.Native.String.{String, ◌++◌ as str_append}
use text.Mathlib.TextLemmas.{nil-append, cons-append}
use ruchat.Prelude.{
  ℕ, zero, suc, ◌+◌, ◌-◌, ◌≤◌, ◌≡◌, refl, ap, ◌∙◌, Bool, true, false, Bool-cases, inl, inr, leb,
  leb→le, arith, if◌then◌else◌,
}
use ruchat.Console.Pages.Texts.{char_count, take_chars, truncate_text}

char_count-append : (s t : String) → char_count (str_append s t) ≡ char_count s + char_count t
unfolding char_count
char_count-append String.[] t = rw (nil-append t) (omega arith)
char_count-append (String.◌∷◌ c s) t = rw (cons-append c s t) (omega (arith, char_count-append s t))

char_count-take : (n : ℕ) (s : String) → char_count (take_chars n s) ≤ n
unfolding char_count take_chars
char_count-take zero s = omega arith
char_count-take (suc n) String.[] = omega arith
char_count-take (suc n) (String.◌∷◌ c s) = omega (arith, char_count-take n s)

-- For a limit of at least three, the text shown has at most that number of characters, and a text of
-- at most that number is shown whole.
pub truncate_text-char_count :
    (input : String) (limit : ℕ)
    → 3 ≤ limit
    → (char_count (truncate_text input limit) ≤ limit)
      × (char_count input ≤ limit → truncate_text input limit ≡ input)
unfolding truncate_text
truncate_text-char_count input limit enough = elim (Bool-cases (leb (char_count input) limit)) [
  | inl e ↦ (rw e (leb→le (char_count input) limit e), λ fits. rw e refl)
  | inr e ↦ (
    rw e (cut_le (take_chars (limit - 3) input) (char_count-take (limit - 3) input)),
    λ fits. absurd (too_long e fits),
  )
]
  where
    cut_le :
        (start : String)
        → char_count start ≤ limit - 3
        → char_count (str_append start "...") ≤ limit
    cut_le start le =
        rw (char_count-append start "...") (unfold char_count in omega (arith, le, enough))

    too_long : leb (char_count input) limit ≡ false → char_count input ≤ limit → ⊥
    too_long e fits = ground arith
