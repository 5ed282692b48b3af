-- ===== src/Commands/Runs.antt =====
-- What a whole command leaves, above all a publish of shared items that fails.
use defing.Prelude.{
  false, List, ◌∷◌, Option, none, ◌≡◌, refl, ap, sym, ◌∙◌, arith, Bytes, starts_with,
}
use defing.Prelude.Int.{ℤ}
use mathlib.Core.Path.{subst}
use defing.BTreeMap
use defing.Commands.{Command, apply_inner, finish, apply}
use defing.Commands.Atomic.{is_shared_publish, apply_inner-Keeps}
use defing.Error.{ErrorKind, Result, ok, err}
use defing.Gray.{IpAddr}
use defing.Keys.{k_shared_draft, shared_draft_key}
use defing.Machine.{clear_pending}
use defing.Machine.Removes.{IsPart, IsPart-refl}
use defing.Model.{SharedItem, SharedCascadeMode, PublishPolicy, PublishEvent}
use defing.Publish.{eff_ts}
use defing.Reads.{list_shared_drafts, get_shared}
use defing.Serde.{Serde, Sm}
use defing.Shared.{apply_shared_publish}
use defing.Shared.Loss.{apply_shared_publish-Removes, apply_shared_publish-gone}

module _ (S : Serde) (parse_addr : Bytes → Option IpAddr) where
  -- Every handler leaves the store as it is, but for drafts of shared items.
  apply_inner-IsPart :
      (cmd : Command) (now_ms : ℤ) (m : Sm S)
      → IsPart k_shared_draft m.store (apply_inner S parse_addr cmd now_ms m).1.store
  apply_inner-IsPart (Command.shared_publish comment request_id operator ts mode policy) now_ms m =
      unfold apply_inner in
      (apply_shared_publish-Removes S comment request_id (eff_ts ts now_ms) mode).at m
  apply_inner-IsPart cmd now_ms m =
      unfold is_shared_publish in
      subst (IsPart k_shared_draft m.store)
        (sym ((apply_inner-Keeps S parse_addr cmd now_ms refl).at m))
        (IsPart-refl k_shared_draft m.store)

  finish-store :
      (e : ErrorKind) (r : Result (List PublishEvent) × Sm S)
      → (finish S parse_addr r).0 ≡ err e
      → (finish S parse_addr r).1.store ≡ r.1.store
  unfolding finish clear_pending
  finish-store e (ok events, m) h = absurd (ground (arith, h))
  finish-store e (err d, m) h = refl

  module _ (comment request_id operator : Bytes) (ts now_ms : ℤ) (mode : SharedCascadeMode)
      (policy : PublishPolicy) (m : Sm S) where
    abbrev pub shared_publish_run : Result (List PublishEvent) × Sm S
    shared_publish_run =
        apply S parse_addr (Command.shared_publish comment request_id operator ts mode policy)
          now_ms m

    -- A publish of shared items that fails has taken the draft of the first item out of the store,
    -- where the drafts are listed and that item's published state can be read, although every key
    -- that is no draft of a shared item has the value it had before.
    pub shared_publish-loses_draft :
        (item : SharedItem) (items : List SharedItem) (prev : Option SharedItem) (e : ErrorKind)
        → list_shared_drafts S (clear_pending m) ≡ item ∷ items
        → get_shared S item.key (clear_pending m) ≡ ok prev
        → shared_publish_run.0 ≡ err e
        → (BTreeMap.get (shared_draft_key item.key) shared_publish_run.1.store ≡ none)
          × ((key : Bytes)
              → starts_with key k_shared_draft ≡ false
              → BTreeMap.get key shared_publish_run.1.store ≡ BTreeMap.get key m.store)
    unfolding apply apply_inner
    shared_publish-loses_draft item items prev e drafts has fails =
        let t = eff_ts ts now_ms in
        let r = apply_shared_publish S comment request_id t mode (clear_pending m) in
        let same = finish-store e r fails in
        (
          ap (BTreeMap.get (shared_draft_key item.key)) same
              ∙ apply_shared_publish-gone S comment request_id t mode item items prev
                  (clear_pending m) drafts has,
          λ key other.
              ap (BTreeMap.get key) same
              ∙ unfold clear_pending in
                ((apply_shared_publish-Removes S comment request_id t mode).at
                    (clear_pending m)).others
                  key other,
        )
