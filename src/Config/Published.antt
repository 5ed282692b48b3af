-- ===== src/Config/Published.antt =====
-- What the data plane reads after a publish command.
use defing.Prelude.{
  List, [], Option, Bool-cases, inl, inr, ap, sym, ℕ, suc, ◌==◌, some, not, ◌&&◌, false, ◌≡◌, refl,
  ◌∙◌, arith, Bytes, is_empty,
}
use defing.Prelude.Int.{ℤ}
use defing.BTreeMap
use defing.BTreeMap.Nested.{get2}
use mathlib.Core.Path.{subst}
use defing.Commands.{Command, apply_inner, finish, apply}
use defing.Gray.{IpAddr}
use defing.Machine.{last_op, get_merged, put_pending, flush_pending, clear_pending}
use defing.Machine.Flush.{is_deleted, NoPutThenDelete, get-flush_pending}
use defing.Model.Reread.{IsExact}
use defing.Version.Local.{snapshot_of-same}
use defing.Version.Commit.{commit}
use defing.Version.History.{is_checkpoint}
use defing.Config.{ConfigSnapshot, config_at, get_config}
use defing.Diff.RoundTrip.{Agrees}
use defing.Error.{Result, ok, err, not_found}
use defing.Keys.{branch_state_key, struct_key, snapshot_key, diff_key}
use defing.Model.{BranchState, Structure, SnapshotMap, PublishPolicy, PublishEvent, VersionRecord}
use defing.Publish.{
  eff_ts, Resolved, is_request, active_snapshot, materialize_resolved, published_state,
  apply_publish,
}
use defing.Publish.Effect.{
  IsBranch, apply_publish-run, apply_publish-IsNextVersion, apply_publish-structure,
}
use defing.Reads.{expect, expect-ok, expect-some}
use defing.Serde.{Serde, Kind, Sm, decoded, load_merged, save_pending}
use defing.Version.{snapshot_of, write_version_snapshot}

module _ (S : Serde) (id branch : Bytes) where
  abbrev pub published_config : ℕ → ℕ → SnapshotMap → ConfigSnapshot
  published_config vno structure_version groups = record {
    project = id;
    branch = branch;
    version = vno;
    resolved_version = vno;
    structure_version = structure_version;
    groups = groups;
    gray = false;
  }

  get_config-active :
      (m : Sm S) (st : BranchState) (structure : Structure) (n : ℕ) (s : SnapshotMap)
      → expect S Kind.branch_state not_found (branch_state_key id branch) m ≡ ok st
      → st.active_version ≡ suc n
      → load_merged S Kind.structure (struct_key id) m ≡ ok (some structure)
      → snapshot_of S id branch (suc n) m ≡ ok s
      → get_config S id branch 0 m ≡ ok (published_config (suc n) structure.version s)
  unfolding get_config config_at
  get_config-active m st structure n s has_state active has_structure has_snap =
      rw (has_state, active, not_zero, has_snap, has_structure) refl
    where
      not_zero : (suc n == 0) ≡ false
      not_zero = ground arith

  -- what a command wrote is read in the store after its flush, if it deleted nothing
  load_merged-flush_pending :
      (k : Kind) (key : Bytes) (m : Sm S)
      → NoPutThenDelete m.pending_ops
      → load_merged S k key (flush_pending m) ≡ load_merged S k key m
  unfolding load_merged
  load_merged-flush_pending k key m h =
      ap (decoded S k) (unflushed (flush_pending m) idle ∙ get-flush_pending key m h)
    where
      unflushed : (n : Sm S) → n.pending_ops ≡ [] → get_merged key n ≡ BTreeMap.get key n.store
      unflushed n none_pending = unfold get_merged in rw none_pending (unfold last_op in refl)

      idle : (flush_pending m).pending_ops ≡ []
      idle = unfold flush_pending in refl

  snapshot_of-flush_pending :
      (n : ℕ) (m : Sm S)
      → NoPutThenDelete m.pending_ops
      → snapshot_of S id branch n (flush_pending m) ≡ snapshot_of S id branch n m
  snapshot_of-flush_pending n m h =
      snapshot_of-same S id branch m (flush_pending m) 0
        (record {
          whole = λ v le. load_merged-flush_pending Kind.snapshot (snapshot_key id branch v) m h;
          step = λ v le. load_merged-flush_pending Kind.diff (diff_key id branch v) m h;
        })
        n (omega arith)

  -- the writes of a publish delete nothing
  commit-NoPutThenDelete :
      (n : ℕ) (old new : SnapshotMap) (rec : VersionRecord) (st : BranchState) (m : Sm S)
      → NoPutThenDelete (commit S id branch n old new rec st (clear_pending m)).pending_ops
  unfolding save_pending put_pending write_version_snapshot clear_pending is_deleted
  commit-NoPutThenDelete n old new rec st m = elim (Bool-cases (is_checkpoint (suc n))) [
    | inl whole ↦ rw whole (refl, (refl, (refl, tt)))
    | inr other ↦ rw other (refl, (refl, (refl, tt)))
  ]

  module _ (comment request_id operator : Bytes) (ts now_ms : ℤ) (policy : PublishPolicy) (m : Sm S)
      (st : BranchState) (structure : Structure) (old : SnapshotMap) (resolved : Resolved)
      (parse_addr : Bytes → Option IpAddr) where
    -- what the command finds
    abbrev begun : Sm S
    begun = clear_pending m

    abbrev pub publish_applied : Result (List PublishEvent) × Sm S
    publish_applied =
        apply S parse_addr (Command.publish id branch comment request_id operator ts policy) now_ms
          m

    -- What is published is what clients read: after a whole publish command, its flush included,
    -- whatever was pending before it, on a branch whose versions can be read and whose draft is a
    -- sorted map, which is no repetition of the last request, has something to publish and is
    -- materialised with no float that changes when it is written and read, the read of the branch's
    -- current configuration succeeds, with the next version number, the structure's version, and
    -- groups that agree item by item with the materialised snapshot (up to the program's own
    -- comparison of values).
    pub get_config-apply_publish :
        expect S Kind.branch_state not_found (branch_state_key id branch) begun ≡ ok st
        → expect S Kind.structure not_found (struct_key id) begun ≡ ok structure
        → IsBranch S id branch begun st
        → is_request st.last_request_id request_id ≡ false
        → (is_empty st.value_draft && not st.bindings_dirty) ≡ false
        → active_snapshot S id branch st.active_version begun ≡ ok old
        → materialize_resolved S st structure old policy begun ≡ ok resolved
        → IsExact S.reread_float resolved.0
        → (s : SnapshotMap) × (get_config S id branch 0 publish_applied.1
            ≡ ok (published_config (suc st.active_version) structure.version s))
          × ((g k : Bytes) → Agrees (get2 g k s) (get2 g k resolved.0))
    unfolding apply finish apply_inner
    get_config-apply_publish has_state has_structure inv fresh pending has_old has_resolved exact =
        let now : ℤ = eff_ts ts now_ms in
        let run : Result (List PublishEvent) × Sm S =
          apply_publish S id branch comment request_id now operator policy begun in
        let (events, next, state, _) =
          apply_publish-IsNextVersion S id branch comment request_id operator now policy begun st
            structure has_state has_structure old resolved inv fresh pending has_old has_resolved
            exact in
        let (s, read, agrees) = next.content in
        let st' : BranchState = published_state st (suc st.active_version) request_id in
        let puts : NoPutThenDelete run.1.pending_ops =
          subst (λ (r : Result (List PublishEvent) × Sm S). NoPutThenDelete r.1.pending_ops)
            (sym (
              apply_publish-run S id branch comment request_id operator now policy begun st
                structure has_state has_structure old resolved fresh pending has_old has_resolved))
            (commit-NoPutThenDelete st.active_version old resolved.0 _ st' m) in
        let flushed : Sm S = flush_pending run.1 in
        let finished : finish S parse_addr run ≡ (run.0, flushed) = finish-ok run _ events in
        (
          s,
          ap (λ (r : Result (List PublishEvent) × Sm S). get_config S id branch 0 r.1) finished
              ∙ get_config-active flushed st' structure st.active_version s
                  (expect-ok S Kind.branch_state not_found (branch_state_key id branch) st' flushed
                    (load_merged-flush_pending Kind.branch_state (branch_state_key id branch) run.1
                        puts
                      ∙ state))
                  refl
                  (load_merged-flush_pending Kind.structure (struct_key id) run.1 puts
                    ∙ apply_publish-structure S id branch comment request_id operator now policy
                        begun st structure has_state has_structure old resolved fresh pending
                        has_old has_resolved
                    ∙ expect-some S Kind.structure not_found (struct_key id) structure begun
                        has_structure)
                  (snapshot_of-flush_pending (suc st.active_version) run.1 puts ∙ read),
          agrees,
        )
      where
        finish-ok :
            (r : Result (List PublishEvent) × Sm S) (events : List PublishEvent)
            → r.0 ≡ ok events
            → finish S parse_addr r ≡ (r.0, flush_pending r.1)
        finish-ok (ok es, n) events h = refl
        finish-ok (err e, n) events h = cc
