-- ===== src/Retention/Audit.antt =====
-- What an audit query returns.
use defing.Prelude.{
  ◌⊎◌, ◌↔◌, ◌∙◌, refl, sym, ap, none, some, not, ℕ, ◌≤◌, true, ◌&&◌, List, [], ◌∷◌, Option, ◌≡◌,
  arith, Bytes, All, length, bytes_eq, bytes_eq_iff, strip_prefix, starts_with, Bool-cases, inl,
  inr,
}
use mathlib.Core.List.{Memᴰ}
use mathlib.Core.Path.{subst}
use defing.Prelude.Int.{ℤ, pos, negsuc, int_lt}
use defing.BTreeMap
use defing.BTreeMap.{BTreeMap}
use defing.Prelude.Decimal.{parse_u64}
use defing.Machine.{get_prefix_merged, get_merged}
use defing.Keys.{k_audit}
use defing.Model.{AuditEntry}
use defing.Reads.{parsed_rows}
use defing.Retention.{
  sort_by_reverse, entry_rows, is_action, is_of_project, is_since, audit_matches, get_audit,
  audit_no,
}
use defing.Serde.{Serde, Kind, Sem, Sm, parsed, decoded, load_merged}
use defing.Error.{ok}
use defing.BTreeMap.Order.{IsSorted}
use defing.Machine.View.{get_prefix_merged-get_merged}
use defing.Retention.Sorted.{
  IsDescending, IsTaken, take-All, length-take-le, sort_by_reverse-All,
  sort_by_reverse-IsDescending, take-IsDescending, sort_by_reverse-Memᴰ, take-IsTaken,
}

-- the order of times
abbrev pub IsFrom : ℤ → ℤ → Type 0
IsFrom (pos m) (pos n) = m ≤ n
IsFrom (pos m) (negsuc n) = ⊥
IsFrom (negsuc m) (pos n) = Unit
IsFrom (negsuc m) (negsuc n) = n ≤ m

int_lt-IsFrom : (s t : ℤ) → (not (int_lt t s) ≡ true) ↔ IsFrom s t
unfolding int_lt
int_lt-IsFrom (pos m) (pos n) = (λ h. ground (arith, h), λ h. ground (arith, h))
int_lt-IsFrom (pos m) (negsuc n) = (λ h. absurd (ground (arith, h)), λ h. absurd h)
int_lt-IsFrom (negsuc m) (pos n) = (λ h. tt, λ h. refl)
int_lt-IsFrom (negsuc m) (negsuc n) = (λ h. ground (arith, h), λ h. ground (arith, h))

get-Memᴰ :
    {R : Type 0} (key : Bytes) (raw : R) (rows : BTreeMap R)
    → BTreeMap.get key rows ≡ some raw
    → Memᴰ (key, raw) rows
unfolding BTreeMap.get
get-Memᴰ {R = R} key raw [] h = absurd (ground (arith, h))
get-Memᴰ {R = R} key raw ((j, v) ∷ rows) h = elim (Bool-cases (bytes_eq j key)) [
  | inl same ↦ Memᴰ.head (
      ap (λ (z : Bytes). (z, raw)) (sym ((bytes_eq_iff j key).0 same))
      ∙ ap (λ (z : R). (j, z)) (ground (arith, same, h)))
  | inr other ↦ Memᴰ.tail (get-Memᴰ key raw rows (ground (arith, other, h)))
]

strip_prefix-starts_with : (s p t : Bytes) → strip_prefix s p ≡ some t → starts_with s p ≡ true
unfolding strip_prefix starts_with
strip_prefix-starts_with s [] t h = refl
strip_prefix-starts_with [] (p ∷ ps) t h = ground (arith, h)
strip_prefix-starts_with (c ∷ s) (p ∷ ps) t h = ground (arith, h, strip_prefix-starts_with s ps t)

decoded-some :
    (S : Serde) (k : Kind) (o : Option S.Raw) (x : Sem k)
    → decoded S k o ≡ ok (some x)
    → (raw : S.Raw) × (o ≡ some raw) × (S.from_slice k raw ≡ some x)
unfolding decoded parsed
decoded-some S k none x h = absurd (cc h)
decoded-some S k (some raw) x h = (raw, refl, by_cases (S.from_slice k raw) h)
  where
    by_cases : (o : Option (Sem k)) → parsed S k o ≡ ok (some x) → o ≡ some x
    by_cases none h = absurd (cc h)
    by_cases (some y) h = cc h

module _ (S : Serde) where
  parsed_rows-Memᴰ :
      (key : Bytes) (raw : S.Raw) (e : AuditEntry) (rows : BTreeMap S.Raw)
      → S.from_slice Kind.audit_entry raw ≡ some e
      → Memᴰ (key, raw) rows
      → Memᴰ e (parsed_rows S Kind.audit_entry rows)
  unfolding parsed_rows
  parsed_rows-Memᴰ key raw e [] parses in_none = elim in_none [ ]
  parsed_rows-Memᴰ key raw e ((j, v) ∷ rows) parses (Memᴰ.head same) =
      by_parse (S.from_slice Kind.audit_entry v)
        (ap (S.from_slice Kind.audit_entry) (sym (ap (λ (z : Bytes × S.Raw). z.1) same)) ∙ parses)
    where
      by_parse :
          (o : Option AuditEntry)
          → o ≡ some e
          → Memᴰ e (elim o [
            | none ↦ parsed_rows S Kind.audit_entry rows
            | some x ↦ x ∷ parsed_rows S Kind.audit_entry rows
          ])
      by_parse none eq = absurd (cc eq)
      by_parse (some x) eq = Memᴰ.head (cc eq)
  parsed_rows-Memᴰ key raw e ((j, v) ∷ rows) parses (Memᴰ.tail rest) =
      by_cases (S.from_slice Kind.audit_entry v) (parsed_rows-Memᴰ key raw e rows parses rest)
    where
      by_cases :
          (o : Option AuditEntry) {es : List AuditEntry}
          → Memᴰ e es
          → Memᴰ e (elim o [ none ↦ es | some x ↦ x ∷ es ])
      by_cases none h = h
      by_cases (some x) h = Memᴰ.tail h

  entry_rows-Memᴰ :
      (key text : Bytes) (raw : S.Raw) (n : ℕ) (rows : BTreeMap S.Raw)
      → strip_prefix key k_audit ≡ some text
      → parse_u64 text ≡ some n
      → Memᴰ (key, raw) rows
      → Memᴰ (key, raw) (entry_rows S rows)
  unfolding entry_rows strip_prefix
  entry_rows-Memᴰ key text raw n [] named number in_none = elim in_none [ ]
  entry_rows-Memᴰ key text raw n ((j, v) ∷ rows) named number (Memᴰ.head same) =
      rw (sym (ap (λ (z : Bytes × S.Raw). z.0) same), named, number) (Memᴰ.head same)
  entry_rows-Memᴰ key text raw n ((j, v) ∷ rows) named number (Memᴰ.tail rest) =
      by_cases (audit_no S j) (entry_rows-Memᴰ key text raw n rows named number rest)
    where
      by_cases :
          (o : Option ℕ) {es : BTreeMap S.Raw}
          → Memᴰ (key, raw) es
          → Memᴰ (key, raw) (elim o [ none ↦ es | some x ↦ (j, v) ∷ es ])
      by_cases none h = h
      by_cases (some x) h = Memᴰ.tail h

module _ (S : Serde) (action project : Option Bytes) (since : Option ℤ) where
  -- an entry that the query asks for
  abbrev pub IsAskedFor : AuditEntry → Type 0
  IsAskedFor e =
      ((action ≡ none) ⊎ (action ≡ some e.action))
      × ((project ≡ none) ⊎ ((a : Bytes) × (project ≡ some a) × (e.project ≡ some a)))
      × ((since ≡ none) ⊎ ((s : ℤ) × (since ≡ some s) × IsFrom s e.ts))

  is_action_iff :
      (a : Option Bytes) (e : AuditEntry)
      → (is_action S a e ≡ true) ↔ ((a ≡ none) ⊎ (a ≡ some e.action))
  is_action_iff none e = (λ h. inl refl, λ h. refl)
  is_action_iff (some a) e = (
    λ h. inr (ap some (sym ((bytes_eq_iff e.action a).0 h))),
    λ h. elim h [ inl free ↦ absurd (cc free) | inr same ↦ (bytes_eq_iff e.action a).1 (cc same) ],
  )

  is_of_project_iff :
      (a p : Option Bytes)
      → (is_of_project S a p ≡ true) ↔ ((a ≡ none) ⊎ ((b : Bytes) × (a ≡ some b) × (p ≡ some b)))
  is_of_project_iff none p = (λ h. inl refl, λ h. refl)
  is_of_project_iff (some a) none = (
    λ h. absurd (cc h),
    λ h. elim h [ inl free ↦ absurd (cc free) | inr (b, same, other) ↦ absurd (cc other) ],
  )
  is_of_project_iff (some a) (some p) = (
    λ h. inr (a, refl, ap some ((bytes_eq_iff p a).0 h)),
    λ h. elim h [
      | inl free ↦ absurd (cc free)
      | inr (b, asked, has) ↦ (bytes_eq_iff p a).1 (cc (asked, has))
    ],
  )

  is_since_iff :
      (o : Option ℤ) (e : AuditEntry)
      → (is_since S o e ≡ true) ↔ ((o ≡ none) ⊎ ((s : ℤ) × (o ≡ some s) × IsFrom s e.ts))
  is_since_iff none e = (λ h. inl refl, λ h. refl)
  is_since_iff (some s) e = (
    λ h. inr (s, refl, (int_lt-IsFrom s e.ts).0 h),
    λ h. elim h [
      | inl free ↦ absurd (cc free)
      | inr (r, same, from) ↦ (int_lt-IsFrom s e.ts).1 (subst (λ z. IsFrom z e.ts) (cc same) from)
    ],
  )

  asked_iff :
      (e : AuditEntry)
      → ((is_action S action e && is_of_project S project e.project && is_since S since e) ≡ true)
        ↔ IsAskedFor e
  asked_iff e =
      let by_action = is_action_iff action e in
      let by_project = is_of_project_iff project e.project in
      let by_time = is_since_iff since e in
      (
        λ h. (
          by_action.0 (ground (arith, h)),
          by_project.0 (ground (arith, h)),
          by_time.0 (ground (arith, h)),
        ),
        λ h. rw (by_action.1 h.0, by_project.1 h.1, by_time.1 h.2) refl,
      )

  audit_matches-IsAskedFor :
      (es : List AuditEntry) → All IsAskedFor (audit_matches S action project since es)
  unfolding audit_matches
  audit_matches-IsAskedFor [] = tt
  audit_matches-IsAskedFor (e ∷ es) =
      elim (Bool-cases
        (is_action S action e && is_of_project S project e.project && is_since S since e)) [
          | inl asked ↦ rw asked ((asked_iff e).0 asked, audit_matches-IsAskedFor es)
          | inr other ↦ rw other (audit_matches-IsAskedFor es)
        ]

  audit_matches-Memᴰ :
      (x : AuditEntry) (es : List AuditEntry)
      → IsAskedFor x
      → Memᴰ x es
      → Memᴰ x (audit_matches S action project since es)
  unfolding audit_matches
  audit_matches-Memᴰ x [] asked in_none = elim in_none [ ]
  audit_matches-Memᴰ x (e ∷ es) asked (Memᴰ.head same) =
      rw ((asked_iff e).1 (subst IsAskedFor same asked)) (Memᴰ.head same)
  audit_matches-Memᴰ x (e ∷ es) asked (Memᴰ.tail rest) =
      elim (Bool-cases
        (is_action S action e && is_of_project S project e.project && is_since S since e)) [
          | inl here ↦ rw here (Memᴰ.tail (audit_matches-Memᴰ x es asked rest))
          | inr other ↦ rw other (audit_matches-Memᴰ x es asked rest)
        ]

  -- an entry that is read under a key of the audit log is in the scan of it
  scan-Memᴰ :
      (key text : Bytes) (n : ℕ) (e : AuditEntry) (m : Sm S)
      → IsSorted m.store
      → strip_prefix key k_audit ≡ some text
      → parse_u64 text ≡ some n
      → load_merged S Kind.audit_entry key m ≡ ok (some e)
      → Memᴰ e (parsed_rows S Kind.audit_entry (entry_rows S (get_prefix_merged k_audit m)))
  unfolding load_merged
  scan-Memᴰ key text n e m sorted named number stored =
      let (raw, found, parses) = decoded-some S Kind.audit_entry (get_merged key m) e stored in
      let scanned : BTreeMap.get key (get_prefix_merged k_audit m) ≡ some raw =
        get_prefix_merged-get_merged k_audit key m sorted
        ∙ rw (strip_prefix-starts_with key k_audit text named) found in
      parsed_rows-Memᴰ S key raw e (entry_rows S (get_prefix_merged k_audit m)) parses (
        entry_rows-Memᴰ S key text raw n (get_prefix_merged k_audit m) named number
          (get-Memᴰ key raw (get_prefix_merged k_audit m) scanned))

  -- An audit query misses nothing that it asks for: over a sorted store, an entry that is read
  -- under a key of the audit log that ends in a number, and that has the action and the project and
  -- is not before the time that the query gives, is in the answer, or the answer has as many
  -- entries as its limit and none with a smaller number than that entry's. The answer has at most
  -- that many entries, only such as the query asks for, and the highest numbers come first.
  pub get_audit-IsTaken :
      (key text : Bytes) (n : ℕ) (e : AuditEntry) (limit : ℕ) (m : Sm S)
      → IsSorted m.store
      → strip_prefix key k_audit ≡ some text
      → parse_u64 text ≡ some n
      → load_merged S Kind.audit_entry key m ≡ ok (some e)
      → IsAskedFor e
      → let es = get_audit S action project since limit m in
        IsTaken (λ x. x.seq) limit e es
        × (length es ≤ limit)
        × All IsAskedFor es
        × IsDescending (λ x. x.seq) es
  unfolding get_audit
  get_audit-IsTaken key text n e limit m sorted named number stored asked =
      let rows = parsed_rows S Kind.audit_entry (entry_rows S (get_prefix_merged k_audit m)) in
      let es = audit_matches S action project since rows in
      let by_seq : AuditEntry → ℕ = λ x. x.seq in
      let order = sort_by_reverse-IsDescending by_seq es in
      (
        take-IsTaken by_seq limit e (sort_by_reverse by_seq es) order (
            sort_by_reverse-Memᴰ by_seq e es (
              audit_matches-Memᴰ e rows asked
                (scan-Memᴰ key text n e m sorted named number stored))),
        length-take-le limit (sort_by_reverse by_seq es),
        take-All IsAskedFor limit (sort_by_reverse by_seq es)
            (sort_by_reverse-All IsAskedFor by_seq es (audit_matches-IsAskedFor rows)),
        take-IsDescending by_seq limit (sort_by_reverse by_seq es) order,
      )
