-- ===== src/Machine/Removes.antt =====
-- Methods that take keys with one prefix out of the store itself, past the pending operations, and
-- change nothing else of it: one rule for each way to build a method.
use mathlib.Core.Path.{subst}
use defing.Prelude.{
  Bool, true, false, none, ◌≡◌, refl, sym, ◌∙◌, arith, Bytes, bytes_eq_iff, starts_with,
  if◌then◌else◌,
}
use defing.BTreeMap
use defing.BTreeMap.{BTreeMap, get-remove}
use defing.BTreeMap.Order.{IsSorted, remove-IsSorted}
use defing.Error.{ErrorKind, Result, ok, err}
use defing.Machine.{Machine, Action, pure, throw, read, modify, continue, ◌>>=◌, ◌>>◌}

module _ {R : Type 0} where
  -- `t` is `s` without some of the keys that start with the prefix
  pub record IsPart (prefix : Bytes) (s t : BTreeMap R) : Type 0 where
    pub others :
        (key : Bytes) → starts_with key prefix ≡ false → BTreeMap.get key t ≡ BTreeMap.get key s
    pub missing : (key : Bytes) → BTreeMap.get key s ≡ none → BTreeMap.get key t ≡ none
    pub sorted : IsSorted s → IsSorted t

  pub IsPart-refl : (prefix : Bytes) (s : BTreeMap R) → IsPart prefix s s
  IsPart-refl prefix s = record { others = λ key h. refl; missing = λ key h. h; sorted = λ h. h }

  pub IsPart-trans :
      (prefix : Bytes) (s t u : BTreeMap R)
      → IsPart prefix s t
      → IsPart prefix t u
      → IsPart prefix s u
  IsPart-trans prefix s t u st tu = record {
    others = λ key h. tu.others key h ∙ st.others key h;
    missing = λ key h. tu.missing key (st.missing key h);
    sorted = λ h. tu.sorted (st.sorted h);
  }

  pub IsPart-remove :
      (prefix key : Bytes) (s : BTreeMap R)
      → starts_with key prefix ≡ true
      → IsPart prefix s (BTreeMap.remove key s)
  IsPart-remove prefix key s inside = record {
    others = λ j h. ground (arith, get-remove key j s, bytes_eq_iff key j, inside, h);
    missing = λ j h. ground (arith, get-remove key j s, h);
    sorted = λ h. remove-IsSorted key s h;
  }

pub record Removes {R A : Type 0} (prefix : Bytes) (a : Action R A) : Type 0 where
  pub at : (m : Machine R) → IsPart prefix m.store (a m).1.store

module _ {R A : Type 0} {prefix : Bytes} where
  pub Removes-pure : (a : A) → Removes {R = R} prefix (pure a)
  Removes-pure a = record { at = λ m. IsPart-refl prefix m.store }

  pub Removes-throw : (e : ErrorKind) → Removes {R = R} {A = A} prefix (throw e)
  Removes-throw e = record { at = λ m. IsPart-refl prefix m.store }

  pub Removes-read : (r : Machine R → Result A) → Removes prefix (read r)
  Removes-read r = record { at = λ m. IsPart-refl prefix m.store }

  pub Removes-if :
      (b : Bool) (a c : Action R A)
      → Removes prefix a
      → Removes prefix c
      → Removes prefix (if b then a else c)
  Removes-if true a c ra rc = ra
  Removes-if false a c ra rc = rc

-- a change of the pending operations alone
pub Removes-modify :
    {R : Type 0} {prefix : Bytes} (f : Machine R → Machine R)
    → ((m : Machine R) → (f m).store ≡ m.store)
    → Removes prefix (modify f)
Removes-modify {prefix = prefix} f h = record {
  at = λ m. subst (IsPart prefix m.store) (sym (h m)) (IsPart-refl prefix m.store);
}

module _ {R A B : Type 0} {prefix : Bytes} where
  Removes-continue :
      (r : Result A) (f : A → Action R B)
      → ((a : A) → Removes prefix (f a))
      → Removes prefix (continue r f)
  Removes-continue (ok a) f rf = rf a
  Removes-continue (err e) f rf = Removes-throw e

  pub Removes-bind :
      (a : Action R A) (f : A → Action R B)
      → Removes prefix a
      → ((x : A) → Removes prefix (f x))
      → Removes prefix (a >>= f)
  Removes-bind a f ra rf = record {
    at = λ m.
        let r = a m in
        IsPart-trans prefix m.store r.1.store ((a >>= f) m).1.store (ra.at m)
          ((Removes-continue r.0 f rf).at r.1);
  }

pub Removes-then :
    {R B : Type 0} {prefix : Bytes} (a : Action R (Unit {0})) (b : Action R B)
    → Removes prefix a
    → Removes prefix b
    → Removes prefix (a >> b)
Removes-then a b ra rb = Removes-bind a (λ _. b) ra (λ _. rb)

pub ruleset removes_rules = (
  Removes-pure, Removes-throw, Removes-read, Removes-if, Removes-modify, Removes-bind, Removes-then,
)
