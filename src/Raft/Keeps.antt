-- ===== src/Raft/Keeps.antt =====
-- Calls of the disk that keep a predicate of the node, whatever happens to them.
use defing.Prelude.{List}
use defing.Error.{ok, err}
use defing.Raft.Io.{
  Fault, Outcome, done, crashed, node_of, Io, pure, puts, ◌>>=◌, attempt, Ensures, Ensures-handle,
  Ensures-bind, Ensures-puts,
}

module _ {N A : Type 0} where
  abbrev pub Keeps : (N → Type 0) → Io N A → Type 0
  Keeps P m = (fs : List Fault) (n : N) → P n → Ensures P (λ a. P) P (m fs n)

  pub Ensures-weaken :
      {I I' E E' : N → Type 0} {Q Q' : A → N → Type 0} (o : Outcome N A)
      → ((n : N) → I n → I' n)
      → ((a : A) (n : N) → Q a n → Q' a n)
      → ((n : N) → E n → E' n)
      → Ensures I Q E o
      → Ensures I' Q' E' o
  Ensures-weaken (done (ok a) n fs) f g h x = g a n x
  Ensures-weaken (done (err e) n fs) f g h x = h n x
  Ensures-weaken (crashed n) f g h x = f n x

  pub Ensures-node_of :
      {I E : N → Type 0} {Q : A → N → Type 0} (P : N → Type 0) (o : Outcome N A)
      → ((n : N) → I n → P n)
      → ((a : A) (n : N) → Q a n → P n)
      → ((n : N) → E n → P n)
      → Ensures I Q E o
      → P (node_of o)
  Ensures-node_of P (done (ok a) n fs) f g h x = g a n x
  Ensures-node_of P (done (err e) n fs) f g h x = h n x
  Ensures-node_of P (crashed n) f g h x = f n x

module _ {N : Type 0} (P : N → Type 0) where
  pub Keeps-puts : (write : N → N) → ((n : N) → P n → P (write n)) → Keeps P (puts write)
  Keeps-puts write closed fs n p = Ensures-puts P P (λ u. P) write fs n p p (closed n p)

  pub Keeps-attempt : (m : Io N (Unit {0})) → Keeps P m → Keeps P (attempt m)
  Keeps-attempt m keeps fs n p =
      Ensures-handle P P (λ u. P) P (λ u. P) m (λ u. pure tt) (λ e. pure tt) fs n (keeps fs n p)
        (λ u gs n' q. q) (λ e gs n' q. q)

  pub Keeps-bind :
      {A B : Type 0} (m : Io N A) (k : A → Io N B)
      → Keeps P m
      → ((a : A) → Keeps P (k a))
      → Keeps P (m >>= k)
  Keeps-bind m k first then_k fs n p =
      Ensures-bind P P (λ a. P) (λ b. P) m k fs n (first fs n p) (λ a gs n' q. then_k a gs n' q)

-- A call that the code only tries, with what holds behind it of `Q`.
pub Ensures-attempt :
    {N : Type 0} (I E Q : N → Type 0) (write : N → N) (fs : List Fault) (n : N)
    → ((n' : N) → Q n' → I n')
    → Q n
    → Q (write n)
    → Ensures I (λ u. Q) E (attempt (puts write) fs n)
Ensures-attempt I E Q write fs n weaker q r =
    Ensures-handle I E (λ u. Q) Q (λ u. Q) (puts write) (λ u. pure tt) (λ e. pure tt) fs n
      (Ensures-puts I Q (λ u. Q) write fs n (weaker n q) q r) (λ u gs n' x. x) (λ e gs n' x. x)
