-- ===== src/Prelude/Decimal.antt =====
-- `format!("{no}")` and `str::parse` of an unsigned number, with the round trip.
use Prim.Native.Nat.{ℕ, zero, suc, ◌+◌, ◌-◌, ◌*◌, ◌/◌, ◌%◌, ◌^◌, ◌<◌, ◌≤◌}
use mathlib.Core.Path.{◌≡◌, refl, ap, sym, ◌∙◌}
use mathlib.Core.Bool.{Bool, ◌&&◌}
use mathlib.Core.Option.{Option, none, some}
use mathlib.Core.List.{[], ◌∷◌, ◌++◌, foldl, foldl-append}
use native.Mathlib.Omega.{arith}
use mathlib.Core.Logic.{inl, inr}
use defing.Prelude.Tests.{
  ltb, leb, ◌==◌, every, Bool-cases, length, replicate, if◌then◌else◌, All, All-append,
}
use defing.Prelude.Text.{Bytes, codes}

-- The digits of `n`, most significant first; one round of fuel for each digit.
decimal_fuel : ℕ → ℕ → Bytes
decimal_fuel zero n = []
decimal_fuel (suc f) n =
    let rest = decimal_fuel f (n / 10) in
    if ltb n 10 then (48 + n) ∷ [] else rest ++ (48 + n % 10) ∷ []

-- Fuel `n + 1` is enough, since a number has fewer digits than that.
unfoldable pub decimal : ℕ → Bytes
unfolding decimal_fuel
decimal n = decimal_fuel (suc n) n

-- The number that digits spell behind `n`.
unfoldable pub digits_value : ℕ → Bytes → ℕ
digits_value = foldl (λ n c. n * 10 + (c - 48))

digits_value-append_one :
    (s : Bytes) (n c : ℕ) → digits_value n (s ++ c ∷ []) ≡ digits_value n s * 10 + (c - 48)
unfolding digits_value
digits_value-append_one s n c = rw foldl-append

digits_value-nil : (n : ℕ) → digits_value n [] ≡ n
unfolding digits_value
digits_value-nil n = refl

digits_value-decimal_fuel : (f n : ℕ) → n < f → digits_value 0 (decimal_fuel f n) ≡ n
unfolding decimal_fuel
digits_value-decimal_fuel zero n h = elim h [ ]
digits_value-decimal_fuel (suc f) n h = ground (
  arith,
  digits_value-append_one (decimal_fuel f (n / 10)) 0 (48 + n % 10),
  digits_value-decimal_fuel f (n / 10),
  digits_value-append_one [] 0 (48 + n),
  digits_value-nil 0,
)

pub digits_value-decimal : (n : ℕ) → digits_value 0 (decimal n) ≡ n
unfolding decimal
digits_value-decimal n = digits_value-decimal_fuel (suc n) n (omega arith)

-- Two numbers with the same decimal text are equal.
pub decimal_injective : (m n : ℕ) → decimal m ≡ decimal n → m ≡ n
decimal_injective m n e =
    sym (digits_value-decimal m) ∙ ap (digits_value 0) e ∙ digits_value-decimal n

abbrev pub IsDigit : ℕ → Type 0
IsDigit c = (48 ≤ c) × (c ≤ 57)

decimal_fuel-IsDigit : (f n : ℕ) → All IsDigit (decimal_fuel f n)
unfolding decimal_fuel
decimal_fuel-IsDigit zero n = tt
decimal_fuel-IsDigit (suc f) n = elim (Bool-cases (ltb n 10)) [
  | inl small ↦ rw small (ground arith, tt)
  | inr large ↦ rw large (
      All-append IsDigit (decimal_fuel f (n / 10)) ((48 + n % 10) ∷ [])
        (decimal_fuel-IsDigit f (n / 10)) (omega arith))
]

pub decimal-IsDigit : (n : ℕ) → All IsDigit (decimal n)
unfolding decimal
decimal-IsDigit n = decimal_fuel-IsDigit (suc n) n

decimal_example : decimal 1207 ≡ codes "1207"
unfolding decimal
decimal_example = refl

-- `format!("{n:0w}")`: zeros up to the width, in front of the digits
pub decimal_padded : ℕ → ℕ → Bytes
decimal_padded w n = replicate (w - length (decimal n)) 48 ++ decimal n

abbrev pub u64_mod : ℕ
u64_mod = 2 ^ 64

abbrev is_digit : ℕ → Bool
is_digit c = leb 48 c && leb c 57

-- digits alone, at least one of them, that spell a number of 64 bits
abbrev parse_nonempty : Bytes → Option ℕ
parse_nonempty [] = none
parse_nonempty (c ∷ s) =
    if every is_digit (c ∷ s) && ltb (digits_value 0 (c ∷ s)) u64_mod
    then some (digits_value 0 (c ∷ s))
    else none

-- `s.parse::<u64>()`, which takes a plus sign in front
unfoldable pub parse_u64 : Bytes → Option ℕ
unfolding digits_value
parse_u64 [] = none
parse_u64 (c ∷ s) = if c == b'+' then parse_nonempty s else parse_nonempty (c ∷ s)
