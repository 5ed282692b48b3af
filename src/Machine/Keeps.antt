-- ===== src/Machine/Keeps.antt =====
-- Methods that write to the pending operations alone: one rule for each way to build a method.
use defing.Prelude.{Bool, true, false, ◌≡◌, refl, ◌∙◌, if◌then◌else◌}
use defing.Error.{ErrorKind, Result, ok, err}
use defing.Machine.{Machine, Action, pure, throw, read, modify, continue, ◌>>=◌, ◌>>◌}

-- `a` leaves the store as it is, whether it succeeds or fails
pub record Keeps {R A : Type 0} (a : Action R A) : Type 0 where
  pub at : (m : Machine R) → (a m).1.store ≡ m.store

module _ {R A : Type 0} where
  pub Keeps-pure : (a : A) → Keeps {R = R} (pure a)
  Keeps-pure a = record { at = λ m. refl }

  pub Keeps-throw : (e : ErrorKind) → Keeps {R = R} {A = A} (throw e)
  Keeps-throw e = record { at = λ m. refl }

  pub Keeps-read : (r : Machine R → Result A) → Keeps (read r)
  Keeps-read r = record { at = λ m. refl }

  pub Keeps-if : (b : Bool) (a c : Action R A) → Keeps a → Keeps c → Keeps (if b then a else c)
  Keeps-if true a c ka kc = ka
  Keeps-if false a c ka kc = kc

pub Keeps-modify :
    {R : Type 0} (f : Machine R → Machine R)
    → ((m : Machine R) → (f m).store ≡ m.store)
    → Keeps (modify f)
Keeps-modify f h = record { at = h }

module _ {R A B : Type 0} where
  Keeps-continue :
      (r : Result A) (f : A → Action R B) → ((a : A) → Keeps (f a)) → Keeps (continue r f)
  Keeps-continue (ok a) f kf = kf a
  Keeps-continue (err e) f kf = Keeps-throw e

  pub Keeps-bind :
      (a : Action R A) (f : A → Action R B) → Keeps a → ((x : A) → Keeps (f x)) → Keeps (a >>= f)
  Keeps-bind a f ka kf = record { at = λ m. (Keeps-continue (a m).0 f kf).at (a m).1 ∙ ka.at m }

pub Keeps-then :
    {R B : Type 0} (a : Action R (Unit {0})) (b : Action R B) → Keeps a → Keeps b → Keeps (a >> b)
Keeps-then a b ka kb = Keeps-bind a (λ _. b) ka (λ _. kb)

pub ruleset keeps_rules =
    (Keeps-pure, Keeps-throw, Keeps-read, Keeps-if, Keeps-modify, Keeps-bind, Keeps-then)
