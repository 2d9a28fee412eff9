-- ===== src/Machine/Stays.antt =====
-- Commands that stay within a transitive relation of the machine before and after, whatever the
-- hardware answers and however they end.
use bedrock_os.Base.{Bool, true, false, if◌then◌else◌}
use bedrock_os.Machine.{Machine, Outcome, ok, exit, waiting, fault, M, and_then, ◌>>=◌}
use bedrock_os.Machine.Frame.{Always}

pub Always-map :
    {A : Type 0} (P Q : Machine → Type 0) (r : Outcome A)
    → ((n : Machine) → P n → Q n)
    → Always P r
    → Always Q r
Always-map P Q (ok a n) h p = h n p
Always-map P Q (exit code n) h p = h n p
Always-map P Q (waiting n) h p = h n p
Always-map P Q fault h p = p

-- What a first command leaves behind is enough for the second.
pub Always-and_then :
    {A B : Type 0} (P Q : Machine → Type 0) (r : Outcome A) (k : A → M B)
    → Always P r
    → ((n : Machine) → P n → Q n)
    → ((a : A) (n : Machine) → P n → Always Q (k a n))
    → Always Q (and_then r k)
Always-and_then P Q (ok a n) k p h g = g a n p
Always-and_then P Q (exit code n) k p h g = h n p
Always-and_then P Q (waiting n) k p h g = h n p
Always-and_then P Q fault k p h g = p

-- A command that stays within the relation from wherever it starts.
pub record Stays {A : Type 0} (R : Machine → Machine → Type 0) (c : M A) : Type 0 where
  pub at : (m : Machine) → Always (R m) (c m)

module _ (R : Machine → Machine → Type 0) (trans : (m n o : Machine) → R m n → R n o → R m o) where
  pub Always-then :
      {A B : Type 0} (m : Machine) (r : Outcome A) (k : A → M B)
      → Always (R m) r
      → ((a : A) → Stays R (k a))
      → Always (R m) (and_then r k)
  Always-then m (ok a n) k f g =
      Always-map (R n) (R m) (k a n) (λ o later. trans m n o f later) ((g a).at n)
  Always-then m (exit code n) k f g = f
  Always-then m (waiting n) k f g = f
  Always-then m fault k f g = f

  pub Stays-bind :
      {A B : Type 0} {c : M A} {k : A → M B}
      → Stays R c
      → ((a : A) → Stays R (k a))
      → Stays R (c >>= k)
  Stays-bind {c} {k} f g = record { at = λ m. Always-then m (c m) k (f.at m) g }

  pub Stays-if :
      {A : Type 0} (b : Bool) {c d : M A} → Stays R c → Stays R d → Stays R (if b then c else d)
  Stays-if true f g = f
  Stays-if false f g = g
