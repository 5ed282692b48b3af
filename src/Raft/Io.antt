-- ===== src/Raft/Io.antt =====
-- Calls of the disk, in the order in which they are made, with a schedule of what happens to them.
-- A call whose effect is lost at a crash or that fails has done nothing: the database commits a
-- transaction or drops it, and a file gets its name when it is complete.
use defing.Prelude.{List, [], ◌∷◌, ◌≡◌, refl}
use defing.Error.{ErrorKind, Result, ok, err, storage}

pub data Fault : Type 0 where
  passes fails crashes : Fault

-- What a sequence of calls comes to: a result, the node and the rest of the schedule, or the node
-- at the crash.
pub data Outcome (N A : Type 0) : Type 0 where
  done : Result A → N → List Fault → Outcome N A
  crashed : N → Outcome N A

-- the node that is left
abbrev pub node_of : {N A : Type 0} → Outcome N A → N
node_of (done r n fs) = n
node_of (crashed n) = n

abbrev pub Io : Type 0 → Type 0 → Type 0
Io N A = List Fault → N → Outcome N A

module _ {N A : Type 0} where
  abbrev pub pure : A → Io N A
  pure a fs n = done (ok a) n fs

  abbrev pub throw : ErrorKind → Io N A
  throw e fs n = done (err e) n fs

  -- a read, which may fail by itself or by the disk
  unfoldable pub gets : (N → Result A) → Io N A
  gets read [] n = done (read n) n []
  gets read (passes ∷ fs) n = done (read n) n fs
  gets read (fails ∷ fs) n = done (err storage) n fs
  gets read (crashes ∷ fs) n = crashed n

module _ {N : Type 0} where
  -- a write
  unfoldable pub puts : (N → N) → Io N (Unit {0})
  puts write [] n = done (ok tt) (write n) []
  puts write (passes ∷ fs) n = done (ok tt) (write n) fs
  puts write (fails ∷ fs) n = done (err storage) n fs
  puts write (crashes ∷ fs) n = crashed n

  -- a change in memory, which does not fail
  abbrev pub sets : (N → N) → Io N (Unit {0})
  sets change fs n = done (ok tt) (change n) fs

-- a read of the memory, which does not fail
abbrev pub asks : {N A : Type 0} → (N → A) → Io N A
asks read fs n = done (ok (read n)) n fs

module _ {N A B : Type 0} where
  abbrev pub follow : Outcome N A → (A → Io N B) → (ErrorKind → Io N B) → Outcome N B
  follow (done (ok a) n fs) k h = k a fs n
  follow (done (err e) n fs) k h = h e fs n
  follow (crashed n) k h = crashed n

  -- what comes behind a result, and behind an error
  abbrev pub handle : Io N A → (A → Io N B) → (ErrorKind → Io N B) → Io N B
  handle m k h fs n = follow (m fs n) k h

  infixl 10 ◌>>=◌
  abbrev pub ◌>>=◌ : Io N A → (A → Io N B) → Io N B
  m >>= k = handle m k throw

infixl 10 ◌>>◌
abbrev pub ◌>>◌ : {N B : Type 0} → Io N (Unit {0}) → Io N B → Io N B
m >> k = m >>= λ _. k

-- an error that the code only warns of
abbrev pub attempt : {N : Type 0} → Io N (Unit {0}) → Io N (Unit {0})
attempt m = handle m (λ _. pure tt) (λ _. pure tt)

-- What holds of an outcome: `Q` of a result, `E` of the node after an error, `I` of the node at a
-- crash.
module _ {N A : Type 0} (I : N → Type 0) (Q : A → N → Type 0) (E : N → Type 0) where
  abbrev pub Ensures : Outcome N A → Type 0
  Ensures (done (ok a) n fs) = Q a n
  Ensures (done (err e) n fs) = E n
  Ensures (crashed n) = I n

module _ {N A B : Type 0} (I : N → Type 0) (E : N → Type 0) where
  pub Ensures-handle :
      (Q : A → N → Type 0) (E' : N → Type 0) (Q' : B → N → Type 0) (m : Io N A) (k : A → Io N B)
      (h : ErrorKind → Io N B) (fs : List Fault) (n : N)
      → Ensures I Q E' (m fs n)
      → ((a : A) (gs : List Fault) (n' : N) → Q a n' → Ensures I Q' E (k a gs n'))
      → ((e : ErrorKind) (gs : List Fault) (n' : N) → E' n' → Ensures I Q' E (h e gs n'))
      → Ensures I Q' E (handle m k h fs n)
  Ensures-handle Q E' Q' m k h fs n first then_k then_h = by_outcome (m fs n) first
    where
      by_outcome : (o : Outcome N A) → Ensures I Q E' o → Ensures I Q' E (follow o k h)
      by_outcome (done (ok a) n' gs) q = then_k a gs n' q
      by_outcome (done (err e) n' gs) q = then_h e gs n' q
      by_outcome (crashed n') q = q

  pub Ensures-bind :
      (Q : A → N → Type 0) (Q' : B → N → Type 0) (m : Io N A) (k : A → Io N B) (fs : List Fault)
      (n : N)
      → Ensures I Q E (m fs n)
      → ((a : A) (gs : List Fault) (n' : N) → Q a n' → Ensures I Q' E (k a gs n'))
      → Ensures I Q' E ((m >>= k) fs n)
  Ensures-bind Q Q' m k fs n first then_k =
      Ensures-handle Q E Q' m k throw fs n first then_k (λ e gs n' q. q)

module _ {N : Type 0} (I : N → Type 0) (E : N → Type 0) where
  pub Ensures-puts :
      (Q : Unit {0} → N → Type 0) (write : N → N) (fs : List Fault) (n : N)
      → I n
      → E n
      → Q tt (write n)
      → Ensures I Q E (puts write fs n)
  unfolding puts
  Ensures-puts Q write [] n i e q = q
  Ensures-puts Q write (passes ∷ fs) n i e q = q
  Ensures-puts Q write (fails ∷ fs) n i e q = e
  Ensures-puts Q write (crashes ∷ fs) n i e q = i

  -- a read of something that is there
  pub Ensures-gets :
      {A : Type 0} (Q : A → N → Type 0) (read : N → Result A) (fs : List Fault) (n : N)
      → I n
      → E n
      → ((a : A) → read n ≡ ok a → Q a n)
      → Ensures I Q E (gets read fs n)
  unfolding gets
  Ensures-gets {A} Q read fs n i e q = by_schedule fs
    where
      by_result : (r : Result A) (gs : List Fault) → read n ≡ r → Ensures I Q E (done r n gs)
      by_result (ok a) gs h = q a h
      by_result (err x) gs h = e

      by_schedule : (gs : List Fault) → Ensures I Q E (gets read gs n)
      by_schedule [] = by_result (read n) [] refl
      by_schedule (passes ∷ gs) = by_result (read n) gs refl
      by_schedule (fails ∷ gs) = e
      by_schedule (crashes ∷ gs) = i
