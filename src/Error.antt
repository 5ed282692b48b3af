-- ===== src/Error.antt =====
-- server/crates/dsh-core/src/error.rs: the kinds of error and their public codes. The message, the
-- detail and the hints of an `Error` are text for people, and a model error is its kind.
use mathlib.Core.Path.{fun_ext}
use defing.Prelude.{Bytes, codes, ◌≡◌, ◌∙◌, ap, refl, ◌⊎◌, inl, inr}

pub data ErrorKind : Type 0 where
  leader_redirect not_found validation publish_blocked version_pruned : ErrorKind
  session_in_use session_expired forbidden cycle_ref conflict no_draft : ErrorKind
  limit_exceeded internal storage raft crypto : ErrorKind

-- `ErrorKind::code`
pub code : ErrorKind → Bytes
code leader_redirect = codes "ERR_LEADER_REDIRECT"
code not_found = codes "ERR_NOT_FOUND"
code validation = codes "ERR_VALIDATION"
code publish_blocked = codes "ERR_PUBLISH_BLOCKED"
code version_pruned = codes "ERR_VERSION_PRUNED"
code session_in_use = codes "ERR_SESSION_IN_USE"
code session_expired = codes "ERR_SESSION_EXPIRED"
code forbidden = codes "ERR_FORBIDDEN"
code cycle_ref = codes "ERR_CYCLE_REF"
code conflict = codes "ERR_CONFLICT"
code no_draft = codes "ERR_NO_DRAFT"
code limit_exceeded = codes "ERR_LIMIT_EXCEEDED"
code internal = codes "ERR_INTERNAL"
code storage = codes "ERR_STORAGE"
code raft = codes "ERR_RAFT"
code crypto = codes "ERR_CRYPTO"

-- `Result<A, Error>`
pub data Result {ℓ} (A : Type ℓ) : Type ℓ where
  ok : A → Result A
  err : ErrorKind → Result A

-- the `?` operator
abbrev pub and_then {ℓ κ} : {A : Type ℓ} {B : Type κ} → Result A → (A → Result B) → Result B
and_then (ok a) f = f a
and_then (err e) f = err e

module _ {ℓ} {A : Type ℓ} where
  pub ok-injective : {a b : A} → ok a ≡ ok b → a ≡ b
  ok-injective h = cc h

  pub Result-cases : (r : Result A) → ((a : A) × (r ≡ ok a)) ⊎ ((e : ErrorKind) × (r ≡ err e))
  Result-cases (ok a) = inl (a, refl)
  Result-cases (err e) = inr (e, refl)

-- A step behind `?` that succeeds comes from one before it that does.
pub and_then-ok {ℓ κ} :
    {A : Type ℓ} {B : Type κ} (r : Result A) (f : A → Result B) {b : B}
    → and_then r f ≡ ok b
    → (a : A) × (r ≡ ok a) × (f a ≡ ok b)
and_then-ok (ok a) f h = (a, refl, h)
and_then-ok (err e) f h = cc

pub and_then_cong {ℓ κ} :
    {A : Type ℓ} {B : Type κ} {r r' : Result A} {f g : A → Result B}
    → r ≡ r'
    → ((a : A) → f a ≡ g a)
    → and_then r f ≡ and_then r' g
and_then_cong {r = r} {g = g} e h = ap (and_then r) (fun_ext h) ∙ ap (λ z. and_then z g) e
