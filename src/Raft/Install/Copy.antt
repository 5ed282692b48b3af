-- ===== src/Raft/Install/Copy.antt =====
-- The canonical copy of a payload holds what was received, or the install ends with an error.
use defing.Prelude.{
  List, Option, none, some, ◌≡◌, refl, sym, ap, ◌∙◌, Bool-cases, Bytes, bytes_eq, bytes_eq_refl,
  ◌++◌, codes, inl, inr,
}
use defing.BTreeMap.{BTreeMap, get, insert, remove, get-remove, get-insert}
use defing.Error.{ErrorKind, ok-injective, ok, storage}
use defing.Raft.Io.{
  Fault, Io, pure, throw, gets, puts, ◌>>=◌, ◌>>◌, attempt, Ensures, Ensures-handle, Ensures-bind,
  Ensures-puts, Ensures-gets,
}
use defing.Raft.Keeps.{Ensures-attempt}
use defing.Raft.Install.{Node, opened, remove_file, copy_to_part, rename_part, copy_payload_file}

pub opened-ok : {F : Type 0} (o : Option F) {f : F} → opened o ≡ ok f → o ≡ some f
opened-ok none h = cc
opened-ok (some g) h = cc

-- what a path holds, if anything, after another is removed
pub get-remove-some :
    {F : Type 0} (part src : Bytes) (files : BTreeMap F) {f g : F}
    → get src files ≡ some f
    → get src (remove part files) ≡ some g
    → g ≡ f
get-remove-some part src files h k = elim (Bool-cases (bytes_eq part src)) [
  | inl same ↦ (let gone = get-remove part src files in cc)
  | inr other ↦ (let there = get-remove part src files in cc)
]

module _ {R F M : Type 0} (P : Node R F M → Type 0) (f : F)
    (closed : (n : Node R F M) (files : BTreeMap F) → P n → P (record n { files = files })) where
  abbrev Holds : Bytes → Node R F M → Type 0
  Holds path n = (g : F) → get path n.files ≡ some g → g ≡ f

  abbrev Has : Bytes → Node R F M → Type 0
  Has path n = P n × (get path n.files ≡ some f)

  -- the part file is removed again, and the error goes on
  cleanup :
      {A : Type 0} (Q : A → Node R F M → Type 0) (part : Bytes) (e : ErrorKind) (fs : List Fault)
      (n : Node R F M)
      → P n
      → Ensures P Q P ((attempt (puts (remove_file part)) >> throw e) fs n)
  cleanup Q part e fs n p =
      Ensures-bind P P (λ u. P) Q (attempt (puts (remove_file part))) (λ u. throw e) fs n
        (Ensures-attempt P P P (remove_file part) fs n (λ n' q. q) p
          (closed n (remove part n.files) p))
        (λ u gs n' q. q)

  -- a read of one file and a write of its contents to another
  copied :
      (from : Bytes) (write : F → BTreeMap F → BTreeMap F) (to : Bytes) (fs : List Fault)
      (n : Node R F M)
      → P n
      → Holds from n
      → ((g : F) (files : BTreeMap F) → get to (write g files) ≡ some g)
      → Ensures P
          (λ u. Has to)
          P
          ((gets (λ n'. opened (get from n'.files)) >>= λ g.
              puts (λ n'. record n' { files = write g n'.files }))
            fs n)
  copied from write to fs n p held written =
      Ensures-bind P P (λ g n'. P n' × (g ≡ f)) (λ u. Has to)
        (gets (λ n'. opened (get from n'.files)))
        (λ g. puts (λ n'. record n' { files = write g n'.files })) fs n
        (Ensures-gets P P (λ g n'. P n' × (g ≡ f)) (λ n'. opened (get from n'.files)) fs n p p
          (λ g h. (p, held g (opened-ok (get from n.files) h))))
        (λ g gs n' (q, h).
          Ensures-puts P P (λ u. Has to) (λ m. record m { files = write g m.files }) gs n' q q
            (closed n' (write g n'.files) q, written g n'.files ∙ ap some h))

  get-insert_same : (to : Bytes) (g : F) (files : BTreeMap F) → get to (insert to g files) ≡ some g
  get-insert_same to g files = rw (get-insert to to g files) (rw (bytes_eq_refl to) refl)

  copy_to_part-Has :
      (part src : Bytes) (fs : List Fault) (n : Node R F M)
      → P n
      → Holds src n
      → Ensures P (λ u. Has part) P (copy_to_part part src fs n)
  unfolding copy_to_part
  copy_to_part-Has part src fs n p held =
      Ensures-handle P P (λ u. Has part) P (λ u. Has part)
        (gets (λ n'. opened (get src n'.files)) >>= λ g.
          puts (λ n'. record n' { files = insert part g n'.files }))
        pure (λ e. attempt (puts (remove_file part)) >> throw storage) fs n
        (copied src (insert part) part fs n p held (get-insert_same part)) (λ u gs n' q. q)
        (λ e gs n' q. cleanup (λ u. Has part) part storage gs n' q)

  rename_part-Has :
      (part path : Bytes) (fs : List Fault) (n : Node R F M)
      → Has part n
      → Ensures P (λ to n'. Has path n' × (to ≡ path)) P (rename_part part path fs n)
  unfolding rename_part
  rename_part-Has part path fs n (p, h) =
      Ensures-handle P P (λ u. Has path) P (λ to n'. Has path n' × (to ≡ path))
        (gets (λ n'. opened (get part n'.files)) >>= λ g.
          puts (λ n'. record n' { files = insert path g (remove part n'.files) }))
        (λ u. gets (λ n'. ok path)) (λ e. attempt (puts (remove_file part)) >> throw storage) fs n
        (copied part (λ g files. insert path g (remove part files)) path fs n p (λ g k. cc)
          (λ g files. get-insert_same path g (remove part files)))
        (λ u gs n' q.
          Ensures-gets P P (λ to m. Has path m × (to ≡ path)) (λ m. ok path) gs n' q.0 q.0
            (λ to k. (q, sym (ok-injective k))))
        (λ e gs n' q. cleanup (λ to m. Has path m × (to ≡ path)) part storage gs n' q)

  -- What was received is what the copy has, under the path that the copy gives back.
  pub copy_payload_file-Has :
      (dir name src : Bytes) (fs : List Fault) (n : Node R F M)
      → P n
      → get src n.files ≡ some f
      → Ensures P
          (λ to n'. Has (dir ++ codes "/" ++ name) n' × (to ≡ dir ++ codes "/" ++ name))
          P
          (copy_payload_file dir name src fs n)
  unfolding copy_payload_file
  copy_payload_file-Has dir name src fs n p h =
      let path = dir ++ codes "/" ++ name in
      let part = path ++ codes ".part" in
      let Q : Bytes → Node R F M → Type 0 = λ to n'. Has path n' × (to ≡ path) in
      let synced : Io (Node R F M) Bytes =
        gets (λ n'. opened (get part n'.files)) >>= λ g. rename_part part path in
      Ensures-bind P P (λ u n'. P n' × Holds src n') Q (attempt (puts (remove_file part)))
        (λ u. copy_to_part part src >> synced) fs n
        (Ensures-attempt P P (λ n'. P n' × Holds src n') (remove_file part) fs n (λ n' q. q.0)
          (p, λ g k. cc)
          (closed n (remove part n.files) p, λ g k. get-remove-some part src n.files h k))
        (λ u gs n' q.
          Ensures-bind P P (λ v. Has part) Q (copy_to_part part src) (λ v. synced) gs n'
            (copy_to_part-Has part src gs n' q.0 q.1)
            (λ v hs m r.
              Ensures-bind P P (λ g. Has part) Q (gets (λ x. opened (get part x.files)))
                (λ g. rename_part part path) hs m
                (Ensures-gets P P (λ g. Has part) (λ x. opened (get part x.files)) hs m r.0 r.0
                  (λ g k. r))
                (λ g is l t. rename_part-Has part path is l t)))
