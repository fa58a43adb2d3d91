-- ===== src/Credential/Session/Steps.antt =====
-- A chain of calls, taken apart: what it answers and which slots it leaves as they were.
use nymora.Prelude.{◌≡◌, refl, sym, ap, ◌∙◌, inl, inr, ◌≢◌, Option, arith}
use nymora.Prelude.Bytes.{Bytes}
use nymora.Core.Error.{Outcome, Outcome-cases, ok, err, panic, ProtocolError}
use nymora.Credential.Ports.{Slot}
use nymora.Credential.Session.{Action, follow, undone, lift, ◌>>=◌, unwinding}

module _ {S A B : Type 0} (f : A → Action S B) where
  follow-ok : (o : Outcome A × S) {a : A} → o.0 ≡ ok a → follow f o ≡ f a o.1
  follow-ok (r, s) h = rw h refl

  follow-err : (o : Outcome A × S) {e : ProtocolError} → o.0 ≡ err e → follow f o ≡ (err e, o.1)
  follow-err (r, s) h = rw h refl

  follow-panic : (o : Outcome A × S) → o.0 ≡ panic → follow f o ≡ (panic, o.1)
  follow-panic (r, s) h = rw h refl

module _ {S A : Type 0} (undo : S → S) where
  pub undone-ok : (o : Outcome A × S) {a : A} → o.0 ≡ ok a → undone undo o ≡ (ok a, o.1)
  undone-ok (r, s) h = rw h refl

  pub undone-err :
      (o : Outcome A × S) {e : ProtocolError} → o.0 ≡ err e → undone undo o ≡ (err e, undo o.1)
  undone-err (r, s) h = rw h refl

  undone-panic : (o : Outcome A × S) → o.0 ≡ panic → undone undo o ≡ (panic, o.1)
  undone-panic (r, s) h = rw h refl

-- A fallible value that reads no storage, and what follows it.
pub lift_each :
    {S A B : Type 0} (IsFine : Outcome B × S → Type 0) (f : A → Action S B) (o : Outcome A) (s : S)
    → ((x : A) → o ≡ ok x → IsFine (f x s))
    → ((e : ProtocolError) → IsFine (err e, s))
    → IsFine (panic, s)
    → IsFine ((lift o >>= f) s)
lift_each IsFine f (ok x) s answers refuses panics = answers x refl
lift_each IsFine f (err e) s answers refuses panics = refuses e
lift_each IsFine f panic s answers refuses panics = panics

-- What is unwound only where it fails.
pub unwinding-inversion :
    {S A : Type 0} (m : Action S A) (undo : S → S) (s : S) {a : A}
    → (unwinding m undo s).0 ≡ ok a
    → ((m s).0 ≡ ok a) × (unwinding m undo s ≡ m s)
unwinding-inversion {S = S} {A = A} m undo s {a = a} h = by_outcome (m s) h
  where
    by_outcome : (o : Outcome A × S) → (undone undo o).0 ≡ ok a → (o.0 ≡ ok a) × (undone undo o ≡ o)
    by_outcome (ok x, s) h = (h, refl)
    by_outcome (err e, s) h = ground arith
    by_outcome (panic, s) h = ground arith

module _ {S A B : Type 0} (m : Action S A) (f : A → Action S B) (s : S) where
  pub then_ok : {a : A} → (m s).0 ≡ ok a → (m >>= f) s ≡ f a (m s).1
  then_ok h = follow-ok f (m s) h

  pub then_err : {e : ProtocolError} → (m s).0 ≡ err e → (m >>= f) s ≡ (err e, (m s).1)
  then_err h = follow-err f (m s) h

  pub then_panic : (m s).0 ≡ panic → (m >>= f) s ≡ (panic, (m s).1)
  then_panic h = follow-panic f (m s) h

  -- A chain that answers has a first call that answers.
  pub then_inversion :
      {b : B} → ((m >>= f) s).0 ≡ ok b → (a : A) × ((m s).0 ≡ ok a) × ((m >>= f) s ≡ f a (m s).1)
  then_inversion h = elim (Outcome-cases (m s).0) [
    | inl (a, e) ↦ (a, e, then_ok e)
    | inr (inl (x, e)) ↦ let k = ap (λ r. r.0) (then_err e) in ground arith
    | inr (inr e) ↦ let k = ap (λ r. r.0) (then_panic e) in ground arith
  ]

  -- The same, with what follows from the rest of the chain.
  pub after_first :
      {Q : Type 0} {b : B}
      → ((m >>= f) s).0 ≡ ok b
      → ((a : A) → (m s).0 ≡ ok a → (f a (m s).1).0 ≡ ok b → Q)
      → Q
  after_first h k = let (a, e, same) = then_inversion h in k a e (sym (ap (λ r. r.0) same) ∙ h)

  pub then_ends : (m s).0 ≢ panic → ((a : A) → (f a (m s).1).0 ≢ panic) → ((m >>= f) s).0 ≢ panic
  then_ends first rest h = elim (Outcome-cases (m s).0) [
    | inl (a, e) ↦ rest a (sym (ap (λ r. r.0) (then_ok e)) ∙ h)
    | inr (inl (x, e)) ↦ let k = sym (ap (λ r. r.0) (then_err e)) ∙ h in ground arith
    | inr (inr e) ↦ first e
  ]

  -- A chain whose calls leave the state leaves it.
  pub then_stays : (m s).1 ≡ s → ((a : A) → (m s).0 ≡ ok a → (f a s).1 ≡ s) → ((m >>= f) s).1 ≡ s
  then_stays first rest = elim (Outcome-cases (m s).0) [
    | inl (a, e) ↦ ap (λ r. r.1) (then_ok e) ∙ ap (λ t. (f a t).1) first ∙ rest a e
    | inr (inl (x, e)) ↦ ap (λ r. r.1) (then_err e) ∙ first
    | inr (inr e) ↦ ap (λ r. r.1) (then_panic e) ∙ first
  ]

module _ {S : Type 0} (held : S → Bytes → Slot → Option Bytes) (b : Bytes) (j : Slot) where
  abbrev pub Keeps : {A : Type 0} → Action S A → Type 0
  Keeps m = (s : S) → held (m s).1 b j ≡ held s b j

  pub then-Keeps :
      {A B : Type 0} (m : Action S A) (f : A → Action S B)
      → Keeps m
      → ((a : A) → Keeps (f a))
      → Keeps (m >>= f)
  then-Keeps m f first rest s = elim (Outcome-cases (m s).0) [
    | inl (a, e) ↦ ap (λ r. held r.1 b j) (then_ok m f s e) ∙ rest a (m s).1 ∙ first s
    | inr (inl (x, e)) ↦ ap (λ r. held r.1 b j) (then_err m f s e) ∙ first s
    | inr (inr e) ↦ ap (λ r. held r.1 b j) (then_panic m f s e) ∙ first s
  ]

  pub unwinding-Keeps :
      {A : Type 0} (m : Action S A) (undo : S → S)
      → Keeps m
      → ((s : S) → held (undo s) b j ≡ held s b j)
      → Keeps (unwinding m undo)
  unwinding-Keeps m undo first back s = elim (Outcome-cases (m s).0) [
    | inl (a, e) ↦ ap (λ r. held r.1 b j) (undone-ok undo (m s) e) ∙ first s
    | inr (inl (x, e)) ↦ ap (λ r. held r.1 b j) (undone-err undo (m s) e) ∙ back (m s).1 ∙ first s
    | inr (inr e) ↦ ap (λ r. held r.1 b j) (undone-panic undo (m s) e) ∙ first s
  ]
