-- ===== src/Client/Capture.antt =====
-- apps/command-client/src/executor.rs: the captured output is the beginning of what the process
-- wrote.
use ruchat.Prelude.{
  ℕ, zero, suc, ◌+◌, ◌-◌, ◌≤◌, String, ◌≡◌, refl, ap, ◌∙◌, Bool, true, false, some, List, [], ◌∷◌,
  ◌++◌, ltb, leb, ap, if◌then◌else◌, arith, Bool-cases, inl, inr,
}
use mathlib.Core.List.{append-nil, append_assoc}
use ruchat.Prelude.Lists.{length, take}
use ruchat.Prelude.Result.{Result, ok, err}
use ruchat.Protocol.Domain.{max_result_output_bytes}
use ruchat.Client.Executor.{Read, OutputCapture, keep, read_loop, capture_of, read_output}

-- The bytes of a pipe up to its end, or the error before it.
abbrev pub prepend : List ℕ → Result String (List ℕ) → Result String (List ℕ)
prepend chunk (ok bytes) = ok (chunk ++ bytes)
prepend chunk (err error) = err error

unfoldable pub delivered : List Read → Result String (List ℕ)
delivered [] = ok []
delivered (err error ∷ reads) = err error
delivered (ok [] ∷ reads) = ok []
delivered (ok (b ∷ chunk) ∷ reads) = prepend (b ∷ chunk) (delivered reads)

take_all : {A : Type 0} (n : ℕ) (xs : List A) → length xs ≤ n → take n xs ≡ xs
take_all zero [] h = refl
take_all zero (x ∷ xs) h = absurd (omega arith)
take_all (suc n) [] h = refl
take_all (suc n) (x ∷ xs) h = ap (λ r. x ∷ r) (take_all n xs (omega arith))

take-append :
    {A : Type 0} (n : ℕ) (xs ys : List A) → take n (xs ++ ys) ≡ take n xs ++ take (n - length xs) ys
take-append zero [] ys = refl
take-append zero (x ∷ xs) ys = ground arith
take-append (suc n) [] ys = ap (λ k. take k ys) {x = suc n} (omega arith)
take-append (suc n) (x ∷ xs) ys = ground (arith, take-append n xs ys)

pub length-append : {A : Type 0} (xs ys : List A) → length (xs ++ ys) ≡ length xs + length ys
length-append [] ys = omega arith
length-append (x ∷ xs) ys = omega (arith, length-append xs ys)

pub length-take :
    {A : Type 0} (n : ℕ) (xs : List A)
    → length (take n xs) ≡ (if leb n (length xs) then n else length xs)
length-take zero xs = ground arith
length-take (suc n) [] = ground arith
length-take (suc n) (x ∷ xs) = ground (arith, length-take n xs)

module _ (limit : ℕ) where
  -- What should be kept of some bytes: the beginning, and whether that is not all.
  unfoldable pub kept_of : List ℕ → List ℕ × Bool
  kept_of bytes = (take limit bytes, ltb limit (length bytes))

  unfoldable pub kept_result : List ℕ → Result String (List ℕ) → Result String (List ℕ × Bool)
  unfolding kept_of
  kept_result before (ok bytes) = ok (kept_of (before ++ bytes))
  kept_result before (err error) = err error

  -- Some room is left.
  keep_below :
      (bytes : List ℕ) (chunk : List ℕ)
      → ltb (length bytes) limit ≡ true
      → keep limit (kept_of bytes) chunk ≡ kept_of (bytes ++ chunk)
  unfolding keep kept_of
  keep_below bytes chunk h = ground (
    arith,
    take_all limit bytes,
    take-append limit bytes chunk,
    length-append bytes chunk,
    take_all (length chunk) chunk,
    take_all (limit - length bytes) chunk,
  )

  -- No room is left.
  keep_full :
      (bytes : List ℕ) (b : ℕ) (chunk : List ℕ)
      → ltb (length bytes) limit ≡ false
      → keep limit (kept_of bytes) (b ∷ chunk) ≡ kept_of (bytes ++ b ∷ chunk)
  unfolding keep kept_of
  keep_full bytes b chunk h = ground (
    arith,
    length-take limit bytes,
    take-append limit bytes (b ∷ chunk),
    length-append bytes (b ∷ chunk),
    append-nil (take limit bytes),
  )

  keep_lem :
      (bytes : List ℕ) (b : ℕ) (chunk : List ℕ)
      → keep limit (kept_of bytes) (b ∷ chunk) ≡ kept_of (bytes ++ b ∷ chunk)
  keep_lem bytes b chunk = elim (Bool-cases (ltb (length bytes) limit)) [
    | inl h ↦ keep_below bytes (b ∷ chunk) h
    | inr h ↦ keep_full bytes b chunk h
  ]

  further :
      (bytes chunk : List ℕ) (r : Result String (List ℕ))
      → kept_result (bytes ++ chunk) r ≡ kept_result bytes (prepend chunk r)
  unfolding kept_result
  further bytes chunk (ok rest) = rw (append_assoc bytes chunk rest)
  further bytes chunk (err error) = refl

  -- The loop keeps what it should of all bytes that come before the end.
  read_loop_lem :
      (bytes : List ℕ) (reads : List Read)
      → read_loop limit (kept_of bytes) reads ≡ kept_result bytes (delivered reads)
  unfolding read_loop delivered kept_result
  read_loop_lem bytes [] = rw (append-nil bytes)
  read_loop_lem bytes (err error ∷ reads) = refl
  read_loop_lem bytes (ok [] ∷ reads) = rw (append-nil bytes)
  read_loop_lem bytes (ok (b ∷ chunk) ∷ reads) =
      rw (keep_lem bytes b chunk)
        (read_loop_lem (bytes ++ b ∷ chunk) reads ∙ further bytes (b ∷ chunk) (delivered reads))

module _ (from_utf8_lossy : List ℕ → String) where
  -- The capture of what a pipe delivered.
  unfoldable pub captured : Result String (List ℕ) → Result String OutputCapture
  captured (ok bytes) = ok (record {
    text = from_utf8_lossy (take max_result_output_bytes bytes);
    truncated = ltb max_result_output_bytes (length bytes);
  })
  captured (err error) = err error

  capture_of-kept_result :
      (r : Result String (List ℕ))
      → capture_of from_utf8_lossy (kept_result max_result_output_bytes [] r) ≡ captured r
  unfolding capture_of kept_result captured kept_of
  capture_of-kept_result (ok bytes) = refl
  capture_of-kept_result (err error) = refl

  -- Nothing was read.
  kept_of_nothing : (limit : ℕ) → kept_of limit [] ≡ ([], false)
  unfolding kept_of
  kept_of_nothing zero = ground arith
  kept_of_nothing (suc limit) = ground arith

  -- However the output is cut into reads, what is captured is its beginning, of at most 65536 bytes, and it is marked as
  -- truncated exactly if there was more; an error of a read before the end is passed on.
  pub read_output-captured :
      (reads : List Read) → read_output from_utf8_lossy (some reads) ≡ captured (delivered reads)
  unfolding read_output
  read_output-captured reads = rw (← kept_of_nothing max_result_output_bytes) (
      ap (capture_of from_utf8_lossy) (read_loop_lem max_result_output_bytes [] reads)
      ∙ capture_of-kept_result (delivered reads))
