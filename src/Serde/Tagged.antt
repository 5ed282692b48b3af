-- ===== src/Serde/Tagged.antt =====
-- An encoder that reads NaN and the infinities as 0, which shows that the law of `Serde` can hold: a document with its kind.
use defing.Prelude.{ℕ, ◌%◌, ltb, if◌then◌else◌, Option, none, some, ◌≡◌, refl, true}
use defing.Serde.{reread_doc, Serde, Kind, Sem}

abbrev Tagged : Type 0
Tagged = (k : Kind) × Sem k

abbrev pub untag : (k j : Kind) → Sem j → Option (Sem k)
untag Kind.project Kind.project x = some x
untag Kind.index Kind.index x = some x
untag Kind.structure Kind.structure x = some x
untag Kind.structure_draft Kind.structure_draft x = some x
untag Kind.branch_state Kind.branch_state x = some x
untag Kind.version Kind.version x = some x
untag Kind.snapshot Kind.snapshot x = some x
untag Kind.diff Kind.diff x = some x
untag Kind.shared_item Kind.shared_item x = some x
untag Kind.session Kind.session x = some x
untag Kind.project_admin Kind.project_admin x = some x
untag Kind.global_admin Kind.global_admin x = some x
untag Kind.token Kind.token x = some x
untag Kind.audit_entry Kind.audit_entry x = some x
untag Kind.audit_seq Kind.audit_seq x = some x
untag Kind.password Kind.password x = some x
untag Kind.value Kind.value x = some x
untag _ _ _ = none

pub untag-same : (k : Kind) (x : Sem k) → untag k k x ≡ some x
untag-same Kind.project x = refl
untag-same _ x = refl

-- NaN and the infinities are read as 0, any other float as it was.
abbrev pub finite : ℕ → ℕ
finite bits = if ltb (bits % 9223372036854775808) 9218868437227405312 then bits else 0

abbrev pub tagged : Serde
tagged = record {
  Raw = Tagged;
  len = λ r. 1;
  to_vec = λ k x. (k, reread_doc finite k x);
  from_slice = λ k r. untag k r.0 r.1;
  json_valid = λ s. true;
  reread_float = finite;
  from_slice-to_vec = λ k x. untag-same k (reread_doc finite k x);
}
