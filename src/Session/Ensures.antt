-- ===== src/Session/Ensures.antt =====
-- What holds after an action that succeeded: a condition before, and one after that may speak of the
-- value. A failed action ends its session, and nothing is claimed of it.
use ruchat.Prelude.{◌≡◌, Bool, true, false, Bool-cases, inl, inr, if◌then◌else◌}
use ruchat.Prelude.Result.{Result, ok, err}
use ruchat.Session.World.{World, Action, IoError, continue, ◌>>=◌}

abbrev pub Succeeds : {A : Type 0} → (A → World → Type 0) → Result IoError A × World → Type 0
Succeeds Q (ok a, w) = Q a w
Succeeds Q (err _, _) = Unit

pub record Ensures (P : World → Type 0) {A : Type 0} (m : Action A) (Q : A → World → Type 0)
    : Type 0 where
  pub run : (w : World) → P w → Succeeds Q (m w)

-- The same condition before and after.
abbrev pub Keeping : (World → Type 0) → {A : Type 0} → Action A → Type 0
Keeping P m = Ensures P m (λ _. P)

module _ {A B : Type 0} where
  continue-Succeeds :
      (Q : A → World → Type 0) (R : B → World → Type 0) (f : A → Action B)
      (out : Result IoError A × World)
      → Succeeds Q out
      → ((a : A) → Ensures (Q a) (f a) R)
      → Succeeds R (continue f out)
  continue-Succeeds Q R f (ok a, w) h k = (k a).run w h
  continue-Succeeds Q R f (err e, w) h k = tt

  pub bind-Ensures :
      {P : World → Type 0} {m : Action A} {f : A → Action B} (Q : A → World → Type 0)
      {R : B → World → Type 0}
      → Ensures P m Q
      → ((a : A) → Ensures (Q a) (f a) R)
      → Ensures P (m >>= f) R
  bind-Ensures {m} {f} Q {R} h k = record {
    run = λ w p. continue-Succeeds Q R f (m w) (h.run w p) k;
  }

module _ {P : World → Type 0} {A : Type 0} {Q : A → World → Type 0} where
  pub if-Ensures :
      (b : Bool) {m n : Action A} → Ensures P m Q → Ensures P n Q → Ensures P (if b then m else n) Q
  if-Ensures true h k = h
  if-Ensures false h k = k

  pub at-Ensures :
      (test : World → Bool) (m n : Action A)
      → ((w : World) → P w → test w ≡ true → Succeeds Q (m w))
      → ((w : World) → P w → test w ≡ false → Succeeds Q (n w))
      → Ensures P (λ w. if test w then m w else n w) Q
  at-Ensures test m n h k = record {
    run = λ w p. elim (Bool-cases (test w)) [ inl e ↦ rw e (h w p e) | inr e ↦ rw e (k w p e) ];
  }
