-- ===== src/Model/Equality.antt =====
-- The derived `PartialEq` of model.rs, where the program compares values. Floats compare as IEEE
-- 754 prescribes: a NaN equals nothing, and the two zeros are equal.
use defing.Prelude.{
  ℕ, ◌*◌, ◌%◌, ◌^◌, Bool, true, false, not, ◌&&◌, ◌||◌, List, [], ◌∷◌, Option, none, some, ◌≡◌,
  Bytes, bytes_eq, ltb, ◌==◌, if◌then◌else◌,
}
use defing.Prelude.Int.{int_eq}
use defing.Model.{ValueType, Ciphertext, Value}

unfoldable pub type_eq : ValueType → ValueType → Bool
type_eq ValueType.string ValueType.string = true
type_eq ValueType.int ValueType.int = true
type_eq ValueType.float ValueType.float = true
type_eq ValueType.bool ValueType.bool = true
type_eq ValueType.json ValueType.json = true
type_eq ValueType.array ValueType.array = true
type_eq ValueType.secret ValueType.secret = true
type_eq _ _ = false

unfoldable pub ciphertext_eq : Ciphertext → Ciphertext → Bool
ciphertext_eq a b =
    bytes_eq a.enc b.enc
    && ((a.v == b.v)
        && ((a.dek_v == b.dek_v)
            && (bytes_eq a.nonce b.nonce
                && (bytes_eq a.ct b.ct
                    && (bytes_eq a.edek b.edek && bytes_eq a.edek_nonce b.edek_nonce)))))

-- the bits of an f64 without its sign
abbrev magnitude : ℕ → ℕ
magnitude x = x % 2 ^ 63

unfoldable pub is_nan : ℕ → Bool
is_nan x = ltb (2047 * 2 ^ 52) (magnitude x)

unfoldable pub f64_eq : ℕ → ℕ → Bool
unfolding is_nan
f64_eq a b =
    if is_nan a || is_nan b then false else (a == b) || ((magnitude a == 0) && (magnitude b == 0))

unfoldable pub strings_eq : List Bytes → List Bytes → Bool
strings_eq [] [] = true
strings_eq [] (b ∷ bs) = false
strings_eq (a ∷ as') [] = false
strings_eq (a ∷ as') (b ∷ bs) = bytes_eq a b && strings_eq as' bs

abbrev bool_eq : Bool → Bool → Bool
bool_eq true b = b
bool_eq false b = not b

unfoldable pub value_eq : Value → Value → Bool
value_eq (Value.string a) (Value.string b) = bytes_eq a b
value_eq (Value.int a) (Value.int b) = int_eq a b
value_eq (Value.float a) (Value.float b) = f64_eq a b
value_eq (Value.bool a) (Value.bool b) = bool_eq a b
value_eq (Value.json a) (Value.json b) = bytes_eq a b
value_eq (Value.array a) (Value.array b) = strings_eq a b
value_eq (Value.secret a) (Value.secret b) = ciphertext_eq a b
value_eq _ _ = false

-- `old_val == Some(value)`
unfoldable pub is_value : Option Value → Value → Bool
is_value none v = false
is_value (some w) v = value_eq w v

-- The values that compare equal to themselves: all but the NaNs.
abbrev pub IsReflexive : Value → Type 0
IsReflexive v = value_eq v v ≡ true
