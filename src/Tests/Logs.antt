-- ===== src/Tests/Logs.antt =====
-- Examples for the reads of the log of openraft and of the audit log.
use defing.Prelude.Int.{pos}
use defing.Prelude.Decimal.{parse_u64}
use defing.Prelude.{◌≤◌, All, length, inl, inr, Bytes, codes, none, strip_prefix}
use defing.BTreeMap.Order.{IsSorted}
use defing.Keys.{k_audit}
use defing.Model.{AuditEntry}
use defing.Serde.{Kind, Sm, load_merged}
use defing.Serde.Tagged.{tagged}
use defing.Retention.{get_audit}
use defing.Retention.Sorted.{IsTaken, IsDescending}
use defing.Retention.Audit.{IsAskedFor, get_audit-IsTaken}
use defing.Prelude.{ℕ, ◌-◌, List, [], ◌∷◌, some, ◌≡◌, refl, arith, bytes_lt}
use defing.BTreeMap.{BTreeMap}
use defing.Error.{Result, ok}
use defing.Store.{range_from}
use defing.Raft.Log.{log_key, first_expected, read_entries, limited_get_log_entries}
use defing.Raft.Log.Reads.{IsBatch, IsRead, limited_get_log_entries-IsBatch}

-- rows that are their own length, two of which do not fit together
abbrev table : BTreeMap ℕ
table = (log_key 3, 5000000) ∷ (log_key 4, 2000000) ∷ []

abbrev decode : ℕ → Result ℕ
decode v = ok v

abbrev size : ℕ → ℕ
size v = v

limited_get_log_entries-IsBatch_example :
    (batch : List ℕ) × (limited_get_log_entries decode size (some 2) table 3 5 ≡ ok batch)
    × IsBatch decode size (range_from (log_key 3) table) (5000000 ∷ 2000000 ∷ []) batch
    × IsRead decode
        (5 - 1)
        (first_expected (some 2) 3)
        (range_from (log_key 3) table)
        (5000000 ∷ 2000000 ∷ [])
unfolding read_entries range_from bytes_lt log_key defing.Raft.Log.log_index_from_key
limited_get_log_entries-IsBatch_example =
    limited_get_log_entries-IsBatch decode size (some 2) table 3 5 (5000000 ∷ 2000000 ∷ [])
      (ground arith) refl

abbrev entry : ℕ → Bytes → AuditEntry
entry seq action = record {
  seq = seq;
  ts = pos 100;
  operator = codes "admin";
  action = action;
  project = some (codes "shop");
  branch = none;
  version = none;
  request_id = none;
  detail = [];
}

-- three entries of the audit log, two of them about a publish
abbrev audited : Sm tagged
audited = record {
  store =
      (codes "audit/00000000000000000001", (Kind.audit_entry, entry 1 (codes "publish")))
      ∷ (codes "audit/00000000000000000002", (Kind.audit_entry, entry 2 (codes "login")))
      ∷ (codes "audit/00000000000000000003", (Kind.audit_entry, entry 3 (codes "publish")))
      ∷ [];
  pending_ops = [];
}

audited-IsSorted : IsSorted audited.store
unfolding bytes_lt
audited-IsSorted = ((refl, (refl, tt)), ((refl, tt), (tt, tt)))

audited-named :
    strip_prefix (codes "audit/00000000000000000003") k_audit ≡ some (codes "00000000000000000003")
unfolding strip_prefix
audited-named = refl

audited-number : parse_u64 (codes "00000000000000000003") ≡ some 3
unfolding parse_u64
audited-number = refl

audited-stored :
    load_merged tagged Kind.audit_entry (codes "audit/00000000000000000003") audited
    ≡ ok (some (entry 3 (codes "publish")))
unfolding load_merged defing.Machine.get_merged defing.Machine.last_op defing.BTreeMap.get
    defing.Prelude.bytes_eq
audited-stored = refl

-- of the two entries about a publish the query with the limit 1 has the newer
get_audit-IsTaken_example :
    let es = get_audit tagged (some (codes "publish")) none none 1 audited in
    IsTaken (λ x. x.seq) 1 (entry 3 (codes "publish")) es
    × (length es ≤ 1)
    × All (IsAskedFor tagged (some (codes "publish")) none none) es
    × IsDescending (λ x. x.seq) es
get_audit-IsTaken_example =
    get_audit-IsTaken tagged (some (codes "publish")) none none (codes "audit/00000000000000000003")
      (codes "00000000000000000003") 3 (entry 3 (codes "publish")) 1 audited audited-IsSorted
      audited-named audited-number audited-stored (inr refl, inl refl, inl refl)
