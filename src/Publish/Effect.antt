-- ===== src/Publish/Effect.antt =====
-- What a publish does on each of its branches.
use defing.Prelude.{
  ℕ, zero, suc, ◌<◌, false, not, ◌&&◌, List, [], ◌∷◌, none, some, ◌≡◌, refl, ap, sym, ◌∙◌, arith,
  Bytes, bytes_eq_refl, is_empty, Option-cases, inl, inr,
}
use defing.Prelude.Int.{ℤ}
use defing.BTreeMap.Nested.{IsNested}
use defing.Model.Reread.{IsExact}
use defing.Diff.{compute_diff}
use defing.Diff.RoundTrip.{IsSnapshot}
use defing.Error.{Result, ok, not_found, ok-injective}
use mathlib.Core.Path.{subst}
use defing.Version.History.{history, snapshot_of-history}
use defing.Keys.{branch_state_key, struct_key}
use defing.Keys.Distinct.{struct_key-branch_key}
use defing.Model.{
  BranchState, Structure, SnapshotMap, VersionRecord, EventType, PublishEvent, PublishPolicy, full,
}
use defing.Publish.{
  Resolved, is_request, operator_id, materialize_resolved, active_snapshot, published_state,
  apply_publish,
}
use defing.Publish.Materialize.{materialize_resolved-IsSnapshot}
use defing.Reads.{expect, expect-ok, expect-same}
use defing.Serde.{Serde, Kind, Sm, load_merged}
use defing.Version.{snapshot_of}
use defing.Version.Commit.{
  commit, IsChain, commit-state, commit-outside, commit-IsNextVersion, commit-IsChain,
}
use defing.Version.Write.{IsNextVersion}

module _ (S : Serde) (id branch : Bytes) where
  -- The invariant of a branch: its versions can be read, and its draft is a sorted map.
  pub record IsBranch (m : Sm S) (st : BranchState) : Type 0 where
    pub chain : IsChain S id branch m st.active_version
    pub draft : IsNested st.value_draft

  pub active_snapshot-read :
      (n : ℕ) (old : SnapshotMap) (m : Sm S)
      → active_snapshot S id branch n m ≡ ok old
      → 0 < n
      → snapshot_of S id branch n m ≡ ok old
  unfolding active_snapshot
  active_snapshot-read n old m h pos = ground arith

  pub active_snapshot-IsSnapshot :
      (n : ℕ) (old : SnapshotMap) (m : Sm S)
      → IsChain S id branch m n
      → active_snapshot S id branch n m ≡ ok old
      → IsSnapshot old
  unfolding active_snapshot
  active_snapshot-IsSnapshot zero old m chain h = subst IsSnapshot (ok-injective h) tt
  active_snapshot-IsSnapshot (suc n) old m chain h =
      elim (Option-cases (history S id branch m (suc n))) [
        | inl missing ↦
            absurd (ground (arith, missing, chain.readable (suc n) (omega arith) (omega arith)))
        | inr (s, there) ↦
            subst IsSnapshot
              (cc (
                snapshot_of-history S id branch m (suc n) s (omega arith) chain.readable there,
                active_snapshot-read (suc n) old m h (omega arith),
              ))
              (chain.sorted (suc n) s (omega arith) there)
      ]

  module _ (comment request_id operator : Bytes) (now_ms : ℤ) (policy : PublishPolicy)
      (m : Sm S) where
    abbrev run : Result (List PublishEvent) × Sm S
    run = apply_publish S id branch comment request_id now_ms operator policy m

    abbrev publish_record : BranchState → Structure → VersionRecord
    publish_record st structure = record {
      no = suc st.active_version;
      structure_version = structure.version;
      created_at = now_ms;
      operator = operator_id operator;
      comment = comment;
      rollback_of = none;
      kind = full;
      snapshot_ref = none;
      diff_ref = none;
      event_ty = some EventType.value_publish;
      gray = false;
    }

    abbrev pub publish_event : BranchState → Structure → SnapshotMap → SnapshotMap → PublishEvent
    publish_event st structure old new = record {
      project = id;
      branch = branch;
      version = suc st.active_version;
      ty = EventType.value_publish;
      structure_version = structure.version;
      comment = comment;
      request_id = request_id;
      changes = compute_diff old new;
      gray = false;
    }

    module _ (st : BranchState) (structure : Structure)
        (has_state : expect S Kind.branch_state not_found (branch_state_key id branch) m ≡ ok st)
        (has_structure : expect S Kind.structure not_found (struct_key id) m ≡ ok structure) where
      pub apply_publish-run :
          (old : SnapshotMap) (resolved : Resolved)
          → is_request st.last_request_id request_id ≡ false
          → (is_empty st.value_draft && not st.bindings_dirty) ≡ false
          → active_snapshot S id branch st.active_version m ≡ ok old
          → materialize_resolved S st structure old policy m ≡ ok resolved
          → run ≡ (
            ok (publish_event st structure old resolved.0 ∷ []),
            commit S id branch st.active_version old resolved.0
                (publish_record st structure)
                (published_state st (suc st.active_version) request_id)
                m,
          )
      unfolding apply_publish
      apply_publish-run old resolved fresh pending has_old has_resolved =
          rw (has_state, has_structure, fresh, pending, has_old, has_resolved) refl

      -- A publish on a branch whose versions can be read and whose draft is a sorted map, which is
      -- no repetition of the last request and has something to publish, succeeds once its values
      -- are materialised; it is assumed that no float of the materialised snapshot changes when it
      -- is written and read. The new version is read back item by item as the materialised snapshot
      -- (up to the program's own comparison of values), every earlier version is read as before,
      -- the branch's state has the new number, no draft and the request's id, one event tells of
      -- it, and the branch is again readable with a sorted draft.
      pub apply_publish-IsNextVersion :
          (old : SnapshotMap) (resolved : Resolved)
          → IsBranch m st
          → is_request st.last_request_id request_id ≡ false
          → (is_empty st.value_draft && not st.bindings_dirty) ≡ false
          → active_snapshot S id branch st.active_version m ≡ ok old
          → materialize_resolved S st structure old policy m ≡ ok resolved
          → IsExact S.reread_float resolved.0
          → (run.0 ≡ ok (publish_event st structure old resolved.0 ∷ []))
            × IsNextVersion S id branch st.active_version old resolved.0
                (publish_record st structure)
                m
                run.1
            × (load_merged S Kind.branch_state (branch_state_key id branch) run.1
                ≡ ok (some (published_state st (suc st.active_version) request_id)))
            × IsBranch run.1 (published_state st (suc st.active_version) request_id)
      apply_publish-IsNextVersion old resolved inv fresh pending has_old has_resolved exact =
          let n = st.active_version in
          let rec : VersionRecord = publish_record st structure in
          let st' : BranchState = published_state st (suc n) request_id in
          let before : (0 < n → snapshot_of S id branch n m ≡ ok old) =
            active_snapshot-read n old m has_old in
          let sorted_old : IsSnapshot old = active_snapshot-IsSnapshot n old m inv.chain has_old in
          let sorted_new : IsSnapshot resolved.0 =
            materialize_resolved-IsSnapshot S m st structure old policy resolved inv.draft
              has_resolved in
          subst
            (λ (r : Result (List PublishEvent) × Sm S).
              (r.0 ≡ ok (publish_event st structure old resolved.0 ∷ []))
              × IsNextVersion S id branch n old resolved.0 rec m r.1
              × (load_merged S Kind.branch_state (branch_state_key id branch) r.1 ≡ ok (some st'))
              × IsBranch r.1 st')
            (sym (apply_publish-run old resolved fresh pending has_old has_resolved))
            (
              refl,
              commit-IsNextVersion S id branch n old resolved.0 rec st' m inv.chain before
                  sorted_old sorted_new exact,
              commit-state S id branch n old resolved.0 rec st' m,
              record {
                chain =
                    commit-IsChain S id branch n old resolved.0 rec st' m inv.chain before
                      sorted_old sorted_new exact;
                draft = tt;
              },
            )

      -- a publish leaves the structure as it is
      pub apply_publish-structure :
          (old : SnapshotMap) (resolved : Resolved)
          → is_request st.last_request_id request_id ≡ false
          → (is_empty st.value_draft && not st.bindings_dirty) ≡ false
          → active_snapshot S id branch st.active_version m ≡ ok old
          → materialize_resolved S st structure old policy m ≡ ok resolved
          → load_merged S Kind.structure (struct_key id) run.1
            ≡ load_merged S Kind.structure (struct_key id) m
      apply_publish-structure old resolved fresh pending has_old has_resolved =
          ap
            (λ (r : Result (List PublishEvent) × Sm S).
              load_merged S Kind.structure (struct_key id) r.1)
            (apply_publish-run old resolved fresh pending has_old has_resolved)
          ∙ commit-outside S id branch st.active_version old resolved.0
              (publish_record st structure) (published_state st (suc st.active_version) request_id)
              m Kind.structure (struct_key id) (struct_key-branch_key id branch)

module _ (S : Serde) (id branch : Bytes) (comment request_id operator : Bytes) (now_ms : ℤ)
    (policy : PublishPolicy) (m : Sm S) (st : BranchState) (structure : Structure)
    (has_state : expect S Kind.branch_state not_found (branch_state_key id branch) m ≡ ok st)
    (has_structure : expect S Kind.structure not_found (struct_key id) m ≡ ok structure)
    (old : SnapshotMap) (resolved : Resolved)
    (fresh : is_request st.last_request_id request_id ≡ false)
    (pending : (is_empty st.value_draft && not st.bindings_dirty) ≡ false)
    (has_old : active_snapshot S id branch st.active_version m ≡ ok old)
    (has_resolved : materialize_resolved S st structure old policy m ≡ ok resolved) where
  abbrev published : Sm S
  published = (apply_publish S id branch comment request_id now_ms operator policy m).1

  -- After a publish that passes its checks, a publish with the same request id, whatever its other
  -- arguments, reports success with no event and changes nothing.
  pub apply_publish_again :
      (comment' operator' : Bytes) (now' : ℤ) (policy' : PublishPolicy)
      → apply_publish S id branch comment' request_id now' operator' policy' published
        ≡ (ok [], published)
  apply_publish_again comment' operator' now' policy' =
      subst
        (λ (r : Result (List PublishEvent) × Sm S).
          apply_publish S id branch comment' request_id now' operator' policy' r.1 ≡ (ok [], r.1))
        (sym (
          apply_publish-run S id branch comment request_id operator now_ms policy m st structure
            has_state has_structure old resolved fresh pending has_old has_resolved))
        again
    where
      n : ℕ
      n = st.active_version

      rec : VersionRecord
      rec = publish_record S id branch comment request_id operator now_ms policy m st structure

      st' : BranchState
      st' = published_state st (suc n) request_id

      done : Sm S
      done = commit S id branch n old resolved.0 rec st' m

      again :
          apply_publish S id branch comment' request_id now' operator' policy' done ≡ (ok [], done)
      again =
          let state_read : expect S Kind.branch_state not_found (branch_state_key id branch) done
              ≡ ok st' =
            expect-ok S Kind.branch_state not_found (branch_state_key id branch) st' done
              (commit-state S id branch n old resolved.0 rec st' m) in
          let structure_read : expect S Kind.structure not_found (struct_key id) done
              ≡ ok structure =
            expect-same S Kind.structure not_found (struct_key id) m done (
              commit-outside S id branch n old resolved.0 rec st' m Kind.structure (struct_key id)
                (struct_key-branch_key id branch))
            ∙ has_structure in
          unfold apply_publish in rw (state_read, structure_read, bytes_eq_refl) refl
