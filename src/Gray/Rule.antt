-- ===== src/Gray/Rule.antt =====
-- The evaluation of a gray rule, and of the version that a client is given.
use defing.Prelude.{
  ℕ, ◌*◌, ◌%◌, ◌≤◌, ◌<◌, Bool, true, false, not, ◌&&◌, ◌||◌, List, [], ◌∷◌, Option, none, some, ◌≡◌,
  ◌≢◌, refl, arith, Bytes, codes, ◌==◌, if◌then◌else◌, is_empty, is_some, any, every, All, bit_xor,
  Option-cases, inl, inr, ◌⊎◌,
}
use defing.Error.{ok}
use defing.Gray.{
  IpAddr, ClientCtx, stable, gray, u32_mod, fnv1a_from, fnv1a_hash, ip_hit, label_hit, percent_hit,
  rule_matches, validate_gray_rule, valid_cidr, resolve_state, parse_cidr, width,
}
use defing.Model.{LabelSelector, GrayRule, BranchState}
use defing.Serde.{Serde}

-- The hash is a 32-bit word, whatever the bytes.
fnv1a_from-lt : (h : ℕ) (s : Bytes) → h < u32_mod → fnv1a_from h s < u32_mod
unfolding fnv1a_from
fnv1a_from-lt h [] lt = lt
fnv1a_from-lt h (b ∷ s) lt = fnv1a_from-lt ((bit_xor h b * 0x01000193) % u32_mod) s (omega arith)

-- The hash of a client's identity is a 32-bit number.
pub fnv1a_hash-lt : (s : Bytes) → fnv1a_hash s < u32_mod
unfolding fnv1a_hash
fnv1a_hash-lt s = fnv1a_from-lt 0x811c9dc5 s (omega arith)

-- the published test vectors of FNV-1a
fnv1a_vectors :
    (fnv1a_hash [] ≡ 0x811c9dc5)
    × (fnv1a_hash (codes "a") ≡ 0xe40c292c)
    × (fnv1a_hash (codes "foobar") ≡ 0xbf9cf968)
unfolding fnv1a_hash
fnv1a_vectors = (refl, refl, refl)

module _ (parse_addr : Bytes → Option IpAddr) where
  percent_hit_mono :
      (client : Bytes) (low high : ℕ)
      → low ≤ high
      → percent_hit parse_addr client (some low) ≡ true
      → percent_hit parse_addr client (some high) ≡ true
  unfolding percent_hit
  percent_hit_mono client low high le h = ground arith

  -- A gray release that is widened keeps its clients: a client that a rule takes in at a percentage
  -- is taken in at every higher one, the labels and the addresses of the rule being the same.
  pub rule_matches_mono :
      (rule : GrayRule) (ctx : ClientCtx) (low high : ℕ)
      → low ≤ high
      → rule_matches parse_addr (record rule { percentage = some low }) ctx ≡ true
      → rule_matches parse_addr (record rule { percentage = some high }) ctx ≡ true
  unfolding rule_matches
  rule_matches_mono rule ctx low high le h =
      ground (arith, percent_hit_mono ctx.instance_id low high le)

  ends_high :
      (labels ips : Bool) (client : Bytes)
      → client ≢ []
      → (labels || (ips || percent_hit parse_addr client (some 100))) ≡ true
  unfolding percent_hit
  ends_high labels ips [] h = absurd (h refl)
  ends_high labels ips (c ∷ s) h = ground arith

  ends_low :
      (ip : Option IpAddr) (client : Bytes)
      → (ip_hit parse_addr ip [] || percent_hit parse_addr client (some 0)) ≡ false
  unfolding percent_hit ip_hit
  ends_low none client = ground arith
  ends_low (some ip) client = ground arith

  -- A rule at 100 percent takes in every client with an identity, and a rule of 0 percent with no
  -- other criterion takes in none.
  pub rule_matches_ends :
      (rule : GrayRule) (ctx : ClientCtx)
      → ctx.instance_id ≢ []
      → (rule_matches parse_addr (record rule { percentage = some 100 }) ctx ≡ true)
        × (rule_matches parse_addr
              (record { match_labels = []; ip_cidrs = []; percentage = some 0 })
              ctx
            ≡ false)
  unfolding rule_matches
  rule_matches_ends rule ctx h = (
    ends_high (any (label_hit parse_addr ctx.labels) rule.match_labels)
        (ip_hit parse_addr ctx.ip rule.ip_cidrs) ctx.instance_id h,
    ends_low ctx.ip ctx.instance_id,
  )

  -- What a gray rule has to be.
  pub record IsGrayRule (rule : GrayRule) : Type 0 where
    pub criterion :
        (rule.match_labels ≢ []) ⊎ ((rule.ip_cidrs ≢ []) ⊎ (is_some rule.percentage ≡ true))
    pub labels : All (λ sel. (sel.key ≢ []) × (sel.value ≢ [])) rule.match_labels
    pub cidrs :
        All
          (λ cidr. (p : IpAddr × ℕ) × (parse_cidr parse_addr cidr ≡ some p) × (p.1 ≤ width p.0))
          rule.ip_cidrs
    pub percentage : (pct : ℕ) → rule.percentage ≡ some pct → pct ≤ 100

  is_empty-false : (s : Bytes) → is_empty s ≡ false → s ≢ []
  is_empty-false [] h e = cc
  is_empty-false (c ∷ s) h e = cc

  labels_sound :
      (sels : List LabelSelector)
      → any (λ sel. is_empty sel.key || is_empty sel.value) sels ≡ false
      → All (λ sel. (sel.key ≢ []) × (sel.value ≢ [])) sels
  labels_sound [] h = tt
  labels_sound (sel ∷ sels) h = (
    (is_empty-false sel.key (ground arith), is_empty-false sel.value (ground arith)),
    labels_sound sels (ground arith),
  )

  cidr_sound :
      (cidr : Bytes)
      → valid_cidr parse_addr cidr ≡ true
      → (p : IpAddr × ℕ) × (parse_cidr parse_addr cidr ≡ some p) × (p.1 ≤ width p.0)
  unfolding valid_cidr
  cidr_sound cidr h = elim (Option-cases (parse_cidr parse_addr cidr)) [
    | inl missing ↦ absurd (ground (arith, missing))
    | inr (p, there) ↦ (p, there, ground (arith, there))
  ]

  cidrs_sound :
      (cidrs : List Bytes)
      → every (valid_cidr parse_addr) cidrs ≡ true
      → All
          (λ cidr. (p : IpAddr × ℕ) × (parse_cidr parse_addr cidr ≡ some p) × (p.1 ≤ width p.0))
          cidrs
  cidrs_sound [] h = tt
  cidrs_sound (cidr ∷ cidrs) h = (cidr_sound cidr (ground arith), cidrs_sound cidrs (ground arith))

  criterion_sound :
      (rule : GrayRule)
      → (is_empty rule.match_labels && (is_empty rule.ip_cidrs && not (is_some rule.percentage)))
        ≡ false
      → (rule.match_labels ≢ []) ⊎ ((rule.ip_cidrs ≢ []) ⊎ (is_some rule.percentage ≡ true))
  criterion_sound rule h = ground arith

  -- A gray rule that is accepted has a criterion, its labels have a key and a value, every address
  -- range of it parses and is no longer than its address, and its percentage is at most 100.
  pub validate_gray_rule-IsGrayRule :
      (rule : GrayRule) → validate_gray_rule parse_addr rule ≡ ok tt → IsGrayRule rule
  unfolding validate_gray_rule
  validate_gray_rule-IsGrayRule rule h = record {
    criterion = criterion_sound rule (ground arith);
    labels = labels_sound rule.match_labels (ground arith);
    cidrs = cidrs_sound rule.ip_cidrs (ground arith);
    percentage = λ pct e. ground arith;
  }

  module _ (S : Serde) (id branch : Bytes) where
    -- On a branch with a gray rule, a client is given the gray release exactly if a gray number is
    -- set, the client has an identity and the rule takes it in; in every other case it is given the
    -- active version.
    pub resolve_state-gray :
        (ctx : ClientCtx) (st : BranchState) (rule : GrayRule)
        → st.gray_rule ≡ some rule
        → resolve_state S parse_addr id branch ctx st ≡ (
            if not (st.gray_seq == 0)
              && (not (is_empty ctx.instance_id) && rule_matches parse_addr rule ctx)
            then gray st.gray_seq
            else stable st.active_version)
    unfolding resolve_state
    resolve_state-gray ctx st rule h = ground (arith, h)
