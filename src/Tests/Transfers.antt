-- ===== src/Tests/Transfers.antt =====
-- The theorems about dumps, restores, retention, secrets and the store on disk, at small inputs.
use defing.Prelude.{
  ℕ, List, [], ◌∷◌, Option, none, some, ◌≡◌, refl, inr, sym, ◌≤◌, false, true, Bytes, codes, arith,
  All, ends_with, starts_with,
}
use defing.BTreeMap
use defing.BTreeMap.{BTreeMap}
use defing.Config.{get_config}
use mathlib.Core.Path.{subst}
use defing.Error.{Result, ok, ok-injective}
use defing.Machine.{Machine}
use defing.Model.{Ciphertext, Value, BranchState}
use defing.Redb as Disk
use defing.Redb.{Redb, Yields}
use defing.Redb.Refines.{Implements, writes-Implements}
use defing.Redb.Scans.{reads-agree}
use defing.Retention.{prune_versions, version_history}
use defing.Retention.Prune.{kept_from, prune_versions-get_config}
use defing.Rewrap.{rewrap_deks}
use defing.Rewrap.Secrets.{snapshot_view, IsKept, rewrap_deks-snapshot_view}
use defing.Serde.{Kind, Sm, load_merged}
use defing.Keys.{branch_state_key}
use defing.Serde.Tagged.{tagged}
use defing.Snapshots.{concat, dump_batches, restore_stream}
use defing.Snapshots.Pages.{dump_batches-concat}
use defing.Snapshots.Restore.{restore_stream-dump_batches}
use defing.Store
use defing.Store.{range_from}
use defing.Tests.{
  shop, dev, group_name, item_key, first_state, version_record, snapshot_one, snapshot_two,
}
use defing.Tests.Stores.{two_rows, two_rows-IsSorted}

abbrev leader : Machine ℕ
leader = record { store = two_rows; pending_ops = [] }

abbrev old_rows : BTreeMap ℕ
old_rows = (codes "q", 9) ∷ []

abbrev follower : Machine ℕ
follower = record { store = old_rows; pending_ops = [] }

-- a page for each row, since the budget is one byte
dump_batches-concat_example :
    (pages : List (BTreeMap ℕ)) × (dump_batches (λ v. 1) 3 1 leader ≡ some pages)
    × (concat pages ≡ two_rows)
dump_batches-concat_example =
    dump_batches-concat (λ v. 1) 3 1 leader two_rows-IsSorted (omega arith)

dump_in_pages :
    dump_batches (λ v. 1) 3 1 leader ≡ some (((codes "p/a", 1) ∷ []) ∷ ((codes "p/b", 2) ∷ []) ∷ [])
unfolding dump_batches Store.get_prefix_page Store.page_rows Store.rows_after Store.get_prefix
    defing.Prelude.bytes_lt starts_with defing.Snapshots.last_key defing.Prelude.bytes_eq
dump_in_pages = refl

restore_stream-dump_batches_example :
    (pages : List (BTreeMap ℕ)) × (dump_batches (λ v. 1) 3 1 leader ≡ some pages)
    × (restore_stream (defing.Prelude.map ok pages) follower ≡ (ok tt, leader))
restore_stream-dump_batches_example =
    restore_stream-dump_batches (λ v. 1) 3 1 leader follower two_rows-IsSorted (tt, tt)
      (omega arith)

abbrev secret_text : Ciphertext
secret_text = record {
  enc = codes "a";
  v = 1;
  dek_v = 1;
  nonce = [];
  ct = codes "c";
  edek = codes "e";
  edek_nonce = [];
}

-- a version with a secret
abbrev vault : Sm tagged
vault = record {
  store =
      (
        codes "p/shop/b/dev/v/1/snap",
        (Kind.snapshot, (group_name, (item_key, Value.secret secret_text) ∷ []) ∷ []),
      )
      ∷ [];
  pending_ops = [];
}

-- a new key generation, over the same data
abbrev next_generation : Ciphertext → Option (Result Ciphertext)
next_generation ct = some (ok (record ct { dek_v = 2 }))

abbrev without_generation : Ciphertext → Ciphertext
without_generation ct = record ct { dek_v = 0 }

same_data :
    (ct ct' : Ciphertext)
    → next_generation ct ≡ some (ok ct')
    → without_generation ct' ≡ without_generation ct
same_data ct ct' h = ground (arith, h)

vault-key : ends_with (codes "p/shop/b/dev/v/1/snap") (codes "/snap") ≡ true
unfolding ends_with
vault-key = refl

rewrap_deks-snapshot_view_example :
    IsKept without_generation tagged
      (snapshot_view without_generation tagged (
        BTreeMap.get
          (codes "p/shop/b/dev/v/1/snap")
          (rewrap_deks next_generation tagged vault).1.store))
      (snapshot_view without_generation tagged
        (BTreeMap.get (codes "p/shop/b/dev/v/1/snap") vault.store))
rewrap_deks-snapshot_view_example =
    rewrap_deks-snapshot_view next_generation without_generation same_data tagged
      (codes "p/shop/b/dev/v/1/snap") vault (tt, tt) refl vault-key

abbrev late_state : BranchState
late_state = record first_state { active_version = 101 }

-- versions 1, 100 and 101, of which the last is a diff
abbrev long_branch : Sm tagged
long_branch = record {
  store =
      (codes "p/shop/b/dev/state", (Kind.branch_state, late_state))
      ∷ (codes "p/shop/b/dev/v/1", (Kind.version, version_record 1))
      ∷ (codes "p/shop/b/dev/v/1/snap", (Kind.snapshot, snapshot_one))
      ∷ (codes "p/shop/b/dev/v/100", (Kind.version, version_record 100))
      ∷ (codes "p/shop/b/dev/v/100/snap", (Kind.snapshot, snapshot_two))
      ∷ (codes "p/shop/b/dev/v/101", (Kind.version, version_record 101))
      ∷ (codes "p/shop/b/dev/v/101/diff", (Kind.diff, []))
      ∷ [];
  pending_ops = [];
}

long_branch-state :
    load_merged tagged Kind.branch_state (branch_state_key shop dev) long_branch
    ≡ ok (some late_state)
unfolding load_merged defing.Machine.get_merged defing.Machine.last_op BTreeMap.get
    defing.Prelude.bytes_eq branch_state_key
long_branch-state = refl

long_branch-history :
    version_history tagged shop dev long_branch
    ≡ version_record 1 ∷ version_record 100 ∷ version_record 101 ∷ []
unfolding version_history defing.Machine.get_prefix_merged Store.get_prefix defing.Prelude.bytes_lt
    starts_with ends_with
long_branch-history = refl

-- of three versions the first goes, and the active one and the hundredth stay
prune_removes_one : (prune_versions tagged shop dev 1 long_branch).0 ≡ ok 1
unfolding prune_versions defing.Reads.expect load_merged defing.Machine.get_merged
    defing.Machine.last_op BTreeMap.get defing.Prelude.bytes_eq branch_state_key version_history
    defing.Machine.get_prefix_merged Store.get_prefix defing.Prelude.bytes_lt starts_with ends_with
prune_removes_one = refl

long_branch-below : All (λ r. r.no ≤ 101) (version_history tagged shop dev long_branch)
long_branch-below = rw long_branch-history (omega arith)

long_branch-kept_from : kept_from tagged shop dev 1 long_branch ≤ 100
unfolding defing.Retention.keep_from
long_branch-kept_from = rw long_branch-history (omega arith)

prune_versions-get_config_example :
    (get_config tagged shop dev 0 (prune_versions tagged shop dev 1 long_branch).1
      ≡ get_config tagged shop dev 0 long_branch)
    × (get_config tagged shop dev 100 (prune_versions tagged shop dev 1 long_branch).1
        ≡ get_config tagged shop dev 100 long_branch)
prune_versions-get_config_example =
    prune_versions-get_config tagged shop dev 1 100 long_branch late_state long_branch-state
      long_branch-below long_branch-kept_from

-- redb over its rows in memory, where no call fails
abbrev entries_of : BTreeMap ℕ → List (Result (Bytes × ℕ))
entries_of [] = []
entries_of (row ∷ rows) = ok row ∷ entries_of rows

entries_of-Yields : (rows : BTreeMap ℕ) → Yields (entries_of rows) rows
entries_of-Yields [] = tt
entries_of-Yields (row ∷ rows) = (refl, entries_of-Yields rows)

abbrev memory : Redb ℕ
memory = record {
  Db = BTreeMap ℕ;
  Table = BTreeMap ℕ;
  Txn = BTreeMap ℕ;
  rows = λ db. db;
  table_rows = λ t. t;
  txn_rows = λ t. t;
  begin_read = λ db. ok db;
  table_get = λ key t. ok (BTreeMap.get key t);
  range = λ start t. ok (entries_of (range_from start t));
  begin_write = λ db. ok db;
  table_insert = λ key v t. ok (BTreeMap.insert key v t);
  table_remove = λ key t. ok (BTreeMap.remove key t);
  commit = λ db t. (ok tt, t);
  begin_read-ok = λ db t h. sym (ok-injective h);
  table_get-ok = λ key t v h. sym (ok-injective h);
  range-ok = λ start t es h.
      subst (λ z. Yields z (range_from start t)) (ok-injective h)
        (entries_of-Yields (range_from start t));
  begin_write-ok = λ db t h. sym (ok-injective h);
  table_insert-ok = λ key v t t' h. sym (ok-injective h);
  table_remove-ok = λ key t t' h. sym (ok-injective h);
  commit-ok = λ db t h. refl;
  commit-all_or_nothing = λ db t. inr refl;
}

writes-Implements_example :
    Implements memory two_rows
      (BTreeMap.insert (codes "p/c") 3 two_rows)
      (Disk.put memory (codes "p/c") 3 two_rows)
writes-Implements_example =
    (writes-Implements memory (codes "p/c") 3 ((codes "q", 1) ∷ []) (codes "p/a" ∷ []) two_rows).0

disk_batch :
    Disk.write_batch memory ((codes "p/c", 3) ∷ []) (codes "p/a" ∷ []) two_rows
    ≡ (ok tt, (codes "p/b", 2) ∷ (codes "p/c", 3) ∷ [])
unfolding Disk.write_batch BTreeMap.insert BTreeMap.remove defing.Prelude.bytes_eq
    defing.Prelude.bytes_lt
disk_batch = refl

disk_get : Disk.get memory (codes "p/a") two_rows ≡ ok (some 1)
unfolding Disk.get BTreeMap.get defing.Prelude.bytes_eq
disk_get = refl

disk_prefix : Disk.get_prefix memory (codes "p/") two_rows ≡ ok two_rows
unfolding Disk.get_prefix range_from defing.Prelude.bytes_lt starts_with
disk_prefix = refl

disk_keys : Disk.get_prefix_keys memory (codes "p/") two_rows ≡ ok (codes "p/a" ∷ codes "p/b" ∷ [])
unfolding Disk.get_prefix_keys range_from defing.Prelude.bytes_lt starts_with
disk_keys = refl

disk_page :
    Disk.get_prefix_page memory (λ v. 1) (codes "p/") (some (codes "p/a")) 1 two_rows
    ≡ ok ((codes "p/b", 2) ∷ [])
unfolding Disk.get_prefix_page range_from defing.Prelude.bytes_lt starts_with
    defing.Prelude.bytes_eq
disk_page = refl

disk_cursor : starts_with (codes "p/a") (codes "p/") ≡ true
unfolding starts_with
disk_cursor = refl

reads-agree_example :
    ◌≡◌ {A = BTreeMap ℕ}
      ((codes "p/b", 2) ∷ [])
      (Store.get_prefix_page (λ v. 1) two_rows (codes "p/") (some (codes "p/a")) 1)
reads-agree_example =
    (reads-agree memory (λ v. 1) (codes "p/a") (codes "p/") (some (codes "p/a")) 1 two_rows (some 1)
      two_rows ((codes "p/b", 2) ∷ []) (codes "p/a" ∷ codes "p/b" ∷ []) two_rows-IsSorted
      disk_cursor disk_get disk_prefix disk_keys disk_page).3
