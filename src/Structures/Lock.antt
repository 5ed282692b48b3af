-- ===== src/Structures/Lock.antt =====
-- The version of a structure as an optimistic lock on its draft.
use defing.Prelude.{
  suc, true, false, not, List, none, some, ◌≡◌, refl, ◌∙◌, arith, Bytes, bytes_eq, bytes_eq_refl,
  ◌==◌, ==_iff, is_empty,
}
use defing.Prelude.Int.{ℤ}
use defing.Error.{ok, err, not_found, conflict, no_draft}
use defing.Keys.{k_struct, k_struct_draft, struct_key, struct_draft_key}
use defing.Keys.Distinct.{bytes_eq-append_left}
use defing.Model.{GroupDef, Structure, StructureDraft, PublishPolicy, PublishEvent}
use defing.Reads.{expect, expect-ok, list_branches}
use defing.Serde.{Serde, Kind, Sm, load_merged, save_pending}
use defing.Serde.Laws.{load_merged-save_pending, load_merged-delete_pending}
use defing.Machine.{delete_pending}
use defing.Structures.{
  blocks, apply_structure_draft_set, publish_structure_to_all, apply_publish_structure,
}
use defing.Validator.{validate_structure}

module _ (S : Serde) (id : Bytes) where
  draft_key-struct_key : bytes_eq (struct_draft_key id) (struct_key id) ≡ false
  unfolding struct_key struct_draft_key bytes_eq
  draft_key-struct_key = bytes_eq-append_left id k_struct_draft k_struct

  module _ (comment request_id operator : Bytes) (now_ms : ℤ) (policy : PublishPolicy) (m m' : Sm S)
      (structure : Structure) (draft : StructureDraft) (events : List PublishEvent)
      (has_structure : expect S Kind.structure not_found (struct_key id) m ≡ ok structure)
      (has_draft : expect S Kind.structure_draft no_draft (struct_draft_key id) m ≡ ok draft)
      (same_base : draft.base_version ≡ structure.version)
      (allowed : blocks policy (not (is_empty (validate_structure draft.groups))) ≡ false)
      (all_published : publish_structure_to_all S id comment request_id operator now_ms
          (record { version = suc structure.version; groups = draft.groups })
          (list_branches S id m)
          m
        ≡ (ok events, m')) where
    abbrev pub next_structure : Structure
    next_structure = record { version = suc structure.version; groups = draft.groups }

    abbrev saved : Sm S
    saved = save_pending S Kind.structure (struct_key id) next_structure m'

    abbrev after : Sm S
    after = delete_pending (struct_draft_key id) saved

    apply_publish_structure-run :
        apply_publish_structure S id comment request_id now_ms operator policy m
        ≡ (ok events, after)
    unfolding apply_publish_structure
    apply_publish_structure-run = rw (has_structure, has_draft, same, allowed, all_published) refl
      where
        same : not (draft.base_version == structure.version) ≡ false
        same = ground (arith, ==_iff draft.base_version structure.version)

    after-structure : load_merged S Kind.structure (struct_key id) after ≡ ok (some next_structure)
    after-structure =
        load_merged-delete_pending S Kind.structure (struct_draft_key id) (struct_key id) saved
        ∙ rw draft_key-struct_key (
            load_merged-save_pending S Kind.structure (struct_key id) (struct_key id) next_structure
              m'
            ∙ rw bytes_eq_refl refl)

    draft_gone : load_merged S Kind.structure_draft (struct_draft_key id) after ≡ ok none
    draft_gone =
        load_merged-delete_pending S Kind.structure_draft (struct_draft_key id)
          (struct_draft_key id) saved
        ∙ rw bytes_eq_refl refl

    after-draft : expect S Kind.structure_draft no_draft (struct_draft_key id) after ≡ err no_draft
    unfolding expect
    after-draft = rw draft_gone refl

    -- When a structure has a draft for its version that the policy lets pass, and the loop over the
    -- branches succeeds, the publish succeeds with that loop's events; the draft becomes the
    -- structure, under the next version; a second publish finds no draft and leaves the machine as
    -- it was; and a draft for the old version is refused with a conflict.
    pub apply_publish_structure-once :
        (groups : List GroupDef) (comment' request' operator' : Bytes) (now' : ℤ)
        (policy' : PublishPolicy)
        → let r = apply_publish_structure S id comment request_id now_ms operator policy m in
          (r.0 ≡ ok events)
          × (load_merged S Kind.structure (struct_key id) r.1 ≡ ok (some next_structure))
          × (apply_publish_structure S id comment' request' now' operator' policy' r.1
              ≡ (err no_draft, r.1))
          × (apply_structure_draft_set S id structure.version groups r.1 ≡ (err conflict, r.1))
    apply_publish_structure-once groups comment' request' operator' now' policy' =
        rw apply_publish_structure-run (
          refl,
          after-structure,
          unfold apply_publish_structure in rw (read, after-draft) refl,
          unfold apply_structure_draft_set in rw (read, old) refl,
        )
      where
        read : expect S Kind.structure not_found (struct_key id) after ≡ ok next_structure
        read =
            expect-ok S Kind.structure not_found (struct_key id) next_structure after
              after-structure

        old : not (structure.version == suc structure.version) ≡ true
        old = ground (arith, ==_iff structure.version (suc structure.version))
