-- ===== src/Machine/Gives.antt =====
-- A statement about the value of a command, wherever it returns one.
use bedrock_os.Machine.{Machine, Outcome, ok, exit, waiting, fault, M, and_then}

-- If the outcome is a return, its value has the property.
abbrev pub Gives : {A : Type 0} → (A → Type 0) → Outcome A → Type 0
Gives P (ok a m) = P a
Gives P (exit code m) = Unit
Gives P (waiting m) = Unit
Gives P fault = Unit

pub Gives-bind :
    {A B : Type 0} (Q : A → Type 0) (P : B → Type 0) (r : Outcome A) (k : A → M B)
    → Gives Q r
    → ((a : A) (m : Machine) → Q a → Gives P (k a m))
    → Gives P (and_then r k)
Gives-bind Q P (ok a m) k h f = f a m h
Gives-bind Q P (exit code m) k h f = tt
Gives-bind Q P (waiting m) k h f = tt
Gives-bind Q P fault k h f = tt

pub Gives-any : {A : Type 0} (r : Outcome A) → Gives (λ _. Unit {0}) r
Gives-any (ok a m) = tt
Gives-any (exit code m) = tt
Gives-any (waiting m) = tt
Gives-any fault = tt
