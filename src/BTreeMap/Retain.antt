-- ===== src/BTreeMap/Retain.antt =====
-- `retain` on a map of maps, as state.rs does it on drafts, bindings and clones: the items that
-- fail the test go, and so does a group that has none left.
use defing.Prelude.{Bool, [], ◌∷◌, Bytes, is_empty, if◌then◌else◌}
use defing.BTreeMap
use defing.BTreeMap.{BTreeMap}

module _ {ℓ} {V : Type ℓ} where
  unfoldable pub retain2 :
      (Bytes → Bytes → V → Bool) → BTreeMap (BTreeMap V) → BTreeMap (BTreeMap V)
  retain2 p [] = []
  retain2 p ((g, items) ∷ m) =
      let rest = retain2 p m in
      let kept = BTreeMap.retain (p g) items in if is_empty kept then rest else (g, kept) ∷ rest
