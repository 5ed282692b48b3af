-- ===== src/Validator.antt =====
-- server/crates/dsh-core/src/validator.rs and limits.rs, and the name tests of state.rs. A finding
-- is a constructor in place of a formatted text. `json_valid` is the JSON parser's verdict.
pub mod Sound
use defing.Prelude.{
  ℕ, ◌+◌, Bool, true, false, not, ◌&&◌, ◌||◌, List, [], ◌∷◌, ◌++◌, Option, none, some, Bytes, codes,
  bytes_eq, ltb, leb, ◌==◌, length, is_empty, any, every, is_some, if◌then◌else◌,
}
use defing.BTreeMap.{BTreeMap}
use defing.BTreeMap.Nested.{get2}
use defing.Model.{ValueType, Value, ItemDef, GroupDef, Structure, DraftValue}
use defing.Model.Equality.{type_eq}

abbrev pub max_projects : ℕ
max_projects = 10000

abbrev pub max_branches_per_project : ℕ
max_branches_per_project = 100

abbrev pub max_groups_per_project : ℕ
max_groups_per_project = 500

abbrev pub max_items_per_project : ℕ
max_items_per_project = 10000

abbrev pub max_value_bytes : ℕ
max_value_bytes = 65536

abbrev pub max_array_element_bytes : ℕ
max_array_element_bytes = 8192

abbrev pub max_key_bytes : ℕ
max_key_bytes = 128

abbrev pub max_group_name_bytes : ℕ
max_group_name_bytes = 128

abbrev pub max_project_name_bytes : ℕ
max_project_name_bytes = 128

-- What a check can find: each stands for one formatted message.
pub data Issue : Type 0 where
  string_too_long invalid_json array_element_too_long type_mismatch : Bytes → Issue
  required_unset duplicate_item secret_needs_type unbound type_differs dangling :
      Bytes → Bytes → Issue
  too_many_groups bad_group_length too_many_items : Issue
  bad_group_name duplicate_group bad_key_length bad_key_name : Bytes → Issue

-- an issue if the test holds
abbrev pub issue_if : Bool → Issue → List Issue
issue_if true e = e ∷ []
issue_if false e = []

-- `validate_value`, with the test of the JSON text as a parameter: the match on the declared type
-- and the value, for the item `key`
unfoldable pub validate_typed : (Bytes → Bool) → Bytes → ValueType → Value → List Issue
validate_typed json_valid key ValueType.string (Value.string s) =
    issue_if (ltb max_value_bytes (length s)) (string_too_long key)
validate_typed json_valid key ValueType.int (Value.int n) = []
validate_typed json_valid key ValueType.float (Value.float x) = []
validate_typed json_valid key ValueType.bool (Value.bool b) = []
validate_typed json_valid key ValueType.json (Value.json s) =
    issue_if (not (json_valid s)) (invalid_json key)
validate_typed json_valid key ValueType.array (Value.array items) =
    issue_if (any (λ i. ltb max_array_element_bytes (length i)) items) (array_element_too_long key)
validate_typed json_valid key ValueType.secret (Value.secret c) = []
validate_typed json_valid key _ _ = type_mismatch key ∷ []

unfoldable pub validate_value : (Bytes → Bool) → ItemDef → Value → List Issue
unfolding validate_typed
validate_value json_valid def v = validate_typed json_valid def.key def.ty v

-- `for g in &structure.groups { for item in &g.items { … } }` as one list
unfoldable pub named_items : Bytes → List ItemDef → List (Bytes × ItemDef)
named_items g [] = []
named_items g (item ∷ items) = (g, item) ∷ named_items g items

unfoldable pub each_item : List GroupDef → List (Bytes × ItemDef)
unfolding named_items
each_item [] = []
each_item (g ∷ groups) = named_items g.name g.items ++ each_item groups

module _ (json_valid : Bytes → Bool) where
  -- one round of `validate_publish`: what the draft has for the item
  unfoldable pub validate_draft : Bytes → ItemDef → Option DraftValue → List Issue
  validate_draft g item none = issue_if item.required (required_unset g item.key)
  validate_draft g item (some dv) = validate_value json_valid item dv.value

  -- `validate_publish`
  unfoldable pub validate_publish :
      BTreeMap (BTreeMap DraftValue) → List (Bytes × ItemDef) → List Issue
  unfolding validate_draft
  validate_publish draft [] = []
  validate_publish draft ((g, item) ∷ items) =
      (if item.shared then [] else validate_draft g item (get2 g item.key draft))
      ++ validate_publish draft items

abbrev pub is_lower : ℕ → Bool
is_lower c = leb b'a' c && leb c b'z'

abbrev pub is_upper : ℕ → Bool
is_upper c = leb b'A' c && leb c b'Z'

abbrev pub is_digit : ℕ → Bool
is_digit c = leb b'0' c && leb c b'9'

abbrev pub is_alphanumeric : ℕ → Bool
is_alphanumeric c = is_lower c || (is_upper c || is_digit c)

-- `valid_key_name`; `valid_token_name` of state.rs differs only in its limit
unfoldable pub valid_key_name : Bytes → Bool
valid_key_name name =
    not (is_empty name)
    && (leb (length name) 128
        && every (λ c. is_alphanumeric c || ((c == b'.') || ((c == b'_') || (c == b'-')))) name)

unfoldable pub valid_token_name : Bytes → Bool
valid_token_name name =
    not (is_empty name)
    && (leb (length name) 64
        && every (λ c. is_alphanumeric c || ((c == b'.') || ((c == b'_') || (c == b'-')))) name)

-- the first and the last byte
abbrev first_is : ℕ → Bytes → Bool
first_is b [] = false
first_is b (c ∷ s) = c == b

abbrev last_is : ℕ → Bytes → Bool
last_is b [] = false
last_is b (c ∷ []) = c == b
last_is b (c ∷ d ∷ s) = last_is b (d ∷ s)

-- `valid_name` and `valid_branch` of state.rs, which differ in their limit
unfoldable pub valid_slug : ℕ → Bytes → Bool
valid_slug limit name =
    not (is_empty name)
    && (leb (length name) limit
        && (every (λ c. is_lower c || (is_digit c || (c == b'-'))) name
            && (not (first_is b'-' name) && not (last_is b'-' name))))

unfoldable pub valid_name : Bytes → Bool
unfolding valid_slug
valid_name = valid_slug max_project_name_bytes

unfoldable pub valid_branch : Bytes → Bool
unfolding valid_slug
valid_branch = valid_slug 64

-- `to_ascii_lowercase`, and `eq_ignore_ascii_case`
abbrev pub lower : ℕ → ℕ
lower c = if is_upper c then c + 32 else c

unfoldable pub eq_ignore_case : Bytes → Bytes → Bool
eq_ignore_case [] [] = true
eq_ignore_case [] (d ∷ t) = false
eq_ignore_case (c ∷ s) [] = false
eq_ignore_case (c ∷ s) (d ∷ t) = (lower c == lower d) && eq_ignore_case s t

-- `valid_account_username` of state.rs
unfoldable pub valid_account_username : Bytes → Bool
unfolding eq_ignore_case
valid_account_username name =
    not (is_empty name)
    && (not (eq_ignore_case name (codes "admin"))
        && (leb (length name) 64
            && (every (λ c. is_alphanumeric c || ((c == b'_') || (c == b'-'))) name
                && leb 2 (length name))))

-- `HashSet::insert` returns whether the name is new
abbrev pub seen_in : Bytes → List Bytes → Bool
seen_in name seen = any (λ s. bytes_eq s name) seen

-- the loop over the items of a group, with the keys seen so far
unfoldable pub validate_items : Bytes → List Bytes → List ItemDef → List Issue
validate_items g seen [] = []
validate_items g seen (item ∷ items) =
    issue_if (ltb max_key_bytes (length item.key) || is_empty item.key) (bad_key_length item.key)
    ++ (issue_if (not (valid_key_name item.key)) (bad_key_name item.key)
        ++ (issue_if (seen_in item.key seen) (duplicate_item g item.key)
            ++ (issue_if (item.secret && not (type_eq item.ty ValueType.secret))
                  (secret_needs_type g item.key)
                ++ validate_items g (item.key ∷ seen) items)))

-- the loop over the groups, with the names seen so far
unfoldable pub validate_groups : List Bytes → List GroupDef → List Issue
unfolding validate_items
validate_groups seen [] = []
validate_groups seen (g ∷ groups) =
    issue_if (ltb max_group_name_bytes (length g.name) || is_empty g.name) bad_group_length
    ++ (issue_if (not (valid_key_name g.name)) (bad_group_name g.name)
        ++ (issue_if (seen_in g.name seen) (duplicate_group g.name)
            ++ (validate_items g.name [] g.items ++ validate_groups (g.name ∷ seen) groups)))

unfoldable pub total_items : List GroupDef → ℕ
total_items [] = 0
total_items (g ∷ groups) = length g.items + total_items groups

-- `validate_structure`
unfoldable pub validate_structure : List GroupDef → List Issue
unfolding validate_groups total_items
validate_structure groups =
    issue_if (ltb max_groups_per_project (length groups)) too_many_groups
    ++ (validate_groups [] groups
        ++ issue_if (ltb max_items_per_project (total_items groups)) too_many_items)
