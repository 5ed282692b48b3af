-- ===== src/Raft/Log/Key.antt =====
-- The key of an entry of the log gives its index back.
use defing.Prelude.{
  ℕ, zero, suc, ◌+◌, ◌*◌, ◌/◌, ◌%◌, ◌<◌, [], ◌∷◌, ◌++◌, ◌≡◌, refl, ap, ◌∙◌, arith, Bytes,
}
use defing.Raft.Log.{be_bytes, be_value, log_key, log_index_from_key}

be_value-append :
    (acc : ℕ) (bs : Bytes) (b : ℕ) → be_value acc (bs ++ b ∷ []) ≡ be_value acc bs * 256 + b
unfolding be_value
be_value-append acc [] b = refl
be_value-append acc (c ∷ bs) b = be_value-append (acc * 256 + c) bs b

-- the numbers of so many bytes
abbrev bytes_mod : ℕ → ℕ
bytes_mod zero = 1
bytes_mod (suc w) = bytes_mod w * 256

be_value-be_bytes : (w n : ℕ) → n < bytes_mod w → be_value 0 (be_bytes w n) ≡ n
unfolding be_bytes be_value
be_value-be_bytes zero n h = omega arith
be_value-be_bytes (suc w) n h =
    be_value-append 0 (be_bytes w (n / 256)) (n % 256)
    ∙ ap (λ x. x * 256 + n % 256) (be_value-be_bytes w (n / 256) (omega arith))
    ∙ omega arith

-- An index of 64 bits is read back from its key.
pub log_index_from_key-log_key : (n : ℕ) → n < bytes_mod 8 → log_index_from_key (log_key n) ≡ n
unfolding log_index_from_key log_key be_bytes be_value
log_index_from_key-log_key n h = be_value-be_bytes 8 n h
