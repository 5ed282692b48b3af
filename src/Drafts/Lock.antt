-- ===== src/Drafts/Lock.antt =====
-- The number of a draft as an optimistic lock.
use defing.Prelude.{
  ℕ, suc, ◌≢◌, true, false, ◌||◌, List, [], Option, some, ◌≡◌, refl, ◌∙◌, arith, Bytes,
  bytes_eq_refl, ==_iff,
}
use defing.Prelude.Int.{ℤ}
use defing.Drafts.{
  DraftUpdateItem, SharedBinding, Bound, is_stale, check_updates, bind_all, draft_size,
  delete_values, set_values, apply_draft_update,
}
use defing.Error.{ok, err, not_found, conflict}
use defing.Keys.{branch_state_key, struct_key}
use defing.Model.{BranchState, Structure}
use defing.Reads.{expect, expect-ok}
use defing.Serde.{Serde, Kind, Sm, read_back, load_merged, save_pending}
use defing.Serde.Laws.{load_merged-save_pending}
use defing.Structures.{index_items}
use defing.Validator.{each_item}

module _ (S : Serde) (id branch : Bytes) where
  -- A draft update of an existing branch whose expected number is not the draft's fails with a
  -- conflict, and leaves the machine as it was.
  pub apply_draft_update-stale :
      (updates : List DraftUpdateItem) (deletes : List (Bytes × Bytes))
      (bindings : List SharedBinding) (now_ms : ℤ) (rev : ℕ) (m : Sm S) (st : BranchState)
      → expect S Kind.branch_state not_found (branch_state_key id branch) m ≡ ok st
      → rev ≢ st.draft_rev
      → apply_draft_update S id branch updates deletes bindings now_ms (some rev) m
        ≡ (err conflict, m)
  unfolding apply_draft_update
  apply_draft_update-stale updates deletes bindings now_ms rev m st has other = rw (has, stale) refl
    where
      stale : is_stale (some rev) st.draft_rev ≡ true
      stale = unfold is_stale in ground (arith, ==_iff rev st.draft_rev)

  module _ (updates : List DraftUpdateItem) (deletes : List (Bytes × Bytes))
      (bindings : List SharedBinding) (now_ms : ℤ) (expected : Option ℕ) (m : Sm S)
      (st : BranchState) (structure : Structure) (total : ℕ) (bound : Bound)
      (has_state : expect S Kind.branch_state not_found (branch_state_key id branch) m ≡ ok st)
      (has_structure : expect S Kind.structure not_found (struct_key id) m ≡ ok structure)
      (current : is_stale expected st.draft_rev ≡ false)
      (checked : check_updates S
          (index_items (each_item structure.groups) [])
          st.value_draft
          updates
          (draft_size st.value_draft)
        ≡ ok total)
      (all_bound : bind_all S
          (index_items (each_item structure.groups) [])
          bindings
          (st.shared_bindings, false)
          m
        ≡ ok bound) where
    abbrev pub updated : BranchState
    updated = record st {
      value_draft = set_values now_ms updates (delete_values deletes st.value_draft);
      shared_bindings = bound.0;
      bindings_dirty = st.bindings_dirty || bound.1;
      draft_rev = suc st.draft_rev;
    }

    abbrev after : Sm S
    after = save_pending S Kind.branch_state (branch_state_key id branch) updated m

    apply_draft_update-run :
        apply_draft_update S id branch updates deletes bindings now_ms expected m ≡ (ok [], after)
    unfolding apply_draft_update
    apply_draft_update-run = rw (has_state, current, has_structure, checked, all_bound) refl

    after-state :
        expect S Kind.branch_state not_found (branch_state_key id branch) after
        ≡ ok (read_back S Kind.branch_state updated)
    after-state =
        expect-ok S Kind.branch_state not_found (branch_state_key id branch)
          (read_back S Kind.branch_state updated) after
          (load_merged-save_pending S Kind.branch_state (branch_state_key id branch)
              (branch_state_key id branch) updated m
            ∙ rw bytes_eq_refl refl)

    -- No lost update: after a draft update that is not stale and passes its checks, the branch's
    -- state is read back as the updated one with the next draft number, but for what one write and
    -- one read make of the floats of its draft; a second update that expects the number before, 0
    -- included, whatever it would write, fails with a conflict and leaves the machine as the first
    -- one left it; and an update that expects the new number is not stale.
    pub apply_draft_update-once :
        (updates' : List DraftUpdateItem) (deletes' : List (Bytes × Bytes))
        (bindings' : List SharedBinding) (now' : ℤ)
        → let r = apply_draft_update S id branch updates deletes bindings now_ms expected m in
          (r.0 ≡ ok [])
          × (load_merged S Kind.branch_state (branch_state_key id branch) r.1
              ≡ ok (some (read_back S Kind.branch_state updated)))
          × (apply_draft_update S id branch updates' deletes' bindings' now' (some st.draft_rev) r.1
              ≡ (err conflict, r.1))
          × (is_stale (some (suc st.draft_rev)) updated.draft_rev ≡ false)
    apply_draft_update-once updates' deletes' bindings' now' = rw apply_draft_update-run (
      refl,
      (load_merged-save_pending S Kind.branch_state (branch_state_key id branch)
            (branch_state_key id branch) updated m
          ∙ rw bytes_eq_refl refl),
      apply_draft_update-stale updates' deletes' bindings' now' st.draft_rev after
          (read_back S Kind.branch_state updated) after-state (λ h. absurd (omega arith)),
      unfold is_stale in ground (arith, ==_iff (suc st.draft_rev) (suc st.draft_rev)),
    )
