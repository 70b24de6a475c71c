-- ===== src/Console/Forms/Numbers.antt =====
-- apps/command-server/src/console.rs: the timeout of a form, as the digits of a number.
use Prim.Native.Char.{Char, code}
use Prim.Native.Nat.{◌*◌, ◌/◌}
use Prim.Native.String.{String, ◌++◌ as str_append}
use text.Mathlib.TextLemmas.{nil-append, cons-append}
use ruchat.Prelude.{
  ℕ, zero, suc, ◌+◌, ◌-◌, ◌%◌, ◌^◌, ◌<◌, ◌≡◌, refl, ap, ◌∙◌, true, false, ◌&&◌, ◌==◌, Bool-cases,
  inl, inr, Option, none, some, ltb, leb, arith,
}
use ruchat.Prelude.Text.{is_whitespace, is_empty, parse_digits, parse_u64}
use ruchat.Prelude.Trimming.{Each, Dense, trim-Dense}
use ruchat.Session.Frames.{digit, decimal_digits, decimal}
use ruchat.Console.Forms.{parse_timeout}

abbrev and_then : Option ℕ → (ℕ → Option ℕ) → Option ℕ
and_then none next = none
and_then (some value) next = next value

parse_digits-append :
    (value : ℕ) (s t : String)
    → parse_digits value (str_append s t)
      ≡ and_then (parse_digits value s) (λ read. parse_digits read t)
unfolding parse_digits
parse_digits-append value String.[] t = rw (nil-append t) refl
parse_digits-append value (String.◌∷◌ c s) t =
    let next = value * 10 + (code c - 48) in
    rw (cons-append c s t) (elim (Bool-cases (leb 48 (code c) && leb (code c) 57)) [
      | inl d ↦ elim (Bool-cases (ltb next (2 ^ 64))) [
        | inl e ↦ rw (d, e) (parse_digits-append next s t)
        | inr e ↦ rw (d, e) refl
      ]
      | inr d ↦ rw d refl
    ])

-- The character of a digit.
digit_code : (d : ℕ) → d < 10 → (c : Char) × (digit d ≡ String.◌∷◌ c "") × (code c ≡ 48 + d)
unfolding digit
digit_code zero small = ("0", refl, refl)
digit_code (suc zero) small = ("1", refl, refl)
digit_code (suc (suc zero)) small = ("2", refl, refl)
digit_code (suc (suc (suc zero))) small = ("3", refl, refl)
digit_code (suc (suc (suc (suc zero)))) small = ("4", refl, refl)
digit_code (suc (suc (suc (suc (suc zero))))) small = ("5", refl, refl)
digit_code (suc (suc (suc (suc (suc (suc zero)))))) small = ("6", refl, refl)
digit_code (suc (suc (suc (suc (suc (suc (suc zero))))))) small = ("7", refl, refl)
digit_code (suc (suc (suc (suc (suc (suc (suc (suc zero)))))))) small = ("8", refl, refl)
digit_code (suc (suc (suc (suc (suc (suc (suc (suc (suc zero))))))))) small = ("9", refl, refl)
digit_code (suc (suc (suc (suc (suc (suc (suc (suc (suc (suc n)))))))))) small =
    absurd (omega (arith, small))

parse-digit :
    (value d n : ℕ)
    → d < 10
    → value * 10 + d ≡ n
    → n < 2 ^ 64
    → parse_digits value (digit d) ≡ some n
unfolding parse_digits
parse-digit value d n small whole fits =
    let (c, text, is) = digit_code d small in rw text (rw is (ground (arith, small, whole, fits)))

abbrev ten_to : ℕ → ℕ
ten_to zero = 1
ten_to (suc k) = ten_to k * 10

-- The digits of a number are read back, if there are as many as the fuel.
parse-decimal_digits :
    (fuel n : ℕ) → n < ten_to fuel → n < 2 ^ 64 → parse_digits 0 (decimal_digits fuel n) ≡ some n
unfolding decimal_digits
parse-decimal_digits zero n few fits = unfold parse_digits in ap (λ m. some m) (omega (arith, few))
parse-decimal_digits (suc fuel) n few fits = elim (Bool-cases (ltb n 10)) [
  | inl e ↦ rw e (parse-digit 0 n n (small e) (omega arith) fits)
  | inr e ↦ rw e (
      parse_digits-append 0 (decimal_digits fuel (n / 10)) (digit (n % 10))
      ∙ rw (parse-decimal_digits fuel (n / 10) (omega (arith, few)) (omega (arith, fits)))
          (parse-digit (n / 10) (n % 10) n (omega arith) (omega arith) fits))
]
  where
    small : ltb n 10 ≡ true → n < 10
    small e = ground arith

-- A text that is read as digits has nothing that is trimmed away.
digit-Dense :
    (c : Char) → (leb 48 (code c) && leb (code c) 57) ≡ true → is_whitespace (code c) ≡ false
digit-Dense c e = ground arith

digits-Dense : (value n : ℕ) (s : String) → parse_digits value s ≡ some n → Each Dense s
unfolding parse_digits
digits-Dense value n String.[] e = tt
digits-Dense value n (String.◌∷◌ c s) e =
    let next = value * 10 + (code c - 48) in
    elim (Bool-cases (leb 48 (code c) && leb (code c) 57)) [
      | inl d ↦ elim (Bool-cases (ltb next (2 ^ 64))) [
        | inl f ↦ (digit-Dense c d, digits-Dense next n s (rw (d, f) at e))
        | inr f ↦ absurd (never (rw (d, f) at e))
      ]
      | inr d ↦ absurd (never (rw d at e))
    ]
  where
    never : ◌≡◌ {A = Option ℕ} none (some n) → ⊥
    never p = cc

sign-undigit : (c : ℕ) → (c == 43) ≡ true → (leb 48 c && leb c 57) ≡ false
sign-undigit c e = ground arith

unsigned :
    (n : ℕ) (c : Char) (s : String)
    → parse_digits 0 (String.◌∷◌ c s) ≡ some n
    → (code c == 43) ≡ true
    → ⊥
unfolding parse_digits
unsigned n c s e sign = never (rw (sign-undigit (code c) sign) at e)
  where
    never : ◌≡◌ {A = Option ℕ} none (some n) → ⊥
    never p = cc

-- Digits are a number for `parse` too: there is one at least, and no sign before them.
parse_u64-digits :
    (n : ℕ) (s : String) → is_empty s ≡ false → parse_digits 0 s ≡ some n → parse_u64 s ≡ some n
unfolding parse_u64
parse_u64-digits n String.[] full e = absurd (grind arith)
parse_u64-digits n (String.◌∷◌ c s) full e = elim (Bool-cases (code c == 43)) [
  | inl sign ↦ absurd (unsigned n c s e sign)
  | inr sign ↦ rw sign e
]

digit-full : (d : ℕ) → d < 10 → is_empty (digit d) ≡ false
digit-full d small = let (c, text, is) = digit_code d small in rw text refl

append-full : (s t : String) → is_empty t ≡ false → is_empty (str_append s t) ≡ false
append-full String.[] t e = rw (nil-append t) e
append-full (String.◌∷◌ c s) t e = rw (cons-append c s t) refl

decimal-full : (n : ℕ) → is_empty (decimal n) ≡ false
unfolding decimal decimal_digits
decimal-full n = elim (Bool-cases (ltb n 10)) [
  | inl e ↦ rw e (digit-full n (small e))
  | inr e ↦ rw e (append-full _ (digit (n % 10)) (digit-full (n % 10) (omega arith)))
]
  where
    small : ltb n 10 ≡ true → n < 10
    small e = ground arith

-- The timeout of a form is read as the number that its digits stand for, for every u64.
pub parse_timeout-decimal : (n : ℕ) → n < 2 ^ 64 → parse_timeout (decimal n) ≡ some (some n)
unfolding parse_timeout
parse_timeout-decimal n fits =
    let read : parse_digits 0 (decimal n) ≡ some n =
      unfold decimal in parse-decimal_digits 20 n (omega (arith, fits)) fits in
    rw
      (
        trim-Dense (decimal n) (digits-Dense 0 n (decimal n) read),
        decimal-full n,
        parse_u64-digits n (decimal n) (decimal-full n) read,
      )
      refl
