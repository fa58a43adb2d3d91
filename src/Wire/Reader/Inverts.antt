-- ===== src/Wire/Reader/Inverts.antt =====
-- Whatever a reader takes is the bytes of the value that it answers.
use nymora.Prelude.{
  subst, ℕ, ◌^◌, ◌≤◌, ◌<◌, ◌≡◌, refl, sym, ap, ◌∙◌, inl, inr, Bool, true, false, [], ◌∷◌, ◌++◌,
  arith, length, take, drop, take-drop, length-take, append_assoc,
}
use nymora.Prelude.Bytes.{Bytes, IsBytes, le_bytes, le_value, le_value-lt, le_bytes-le_value}
use nymora.Core.Error.{Outcome, Outcome-cases, ok}
use nymora.Crypto.Hash.{frame}
use nymora.Crypto.Hash.Framing.{IsSlice}
use nymora.Wire.Reader.{
  Reader, pure, ◌>>=◌, refuse_if, take_bytes, take_digest, take_u64, take_framed, take_version,
  take_end,
}
use nymora.Wire.Reader.Prints.{bind-ok}

pub bind-inversion {ℓ κ} :
    {A : Type ℓ} {B : Type κ} (m : Reader A) (f : A → Reader B) (bytes : Bytes) {b : B}
    {left : Bytes}
    → (m >>= f) bytes ≡ ok (b, left)
    → (a : A) × (rest : Bytes) × (m bytes ≡ ok (a, rest)) × (f a rest ≡ ok (b, left))
bind-inversion m f bytes h = elim (Outcome-cases (m bytes)) [
  | inl ((a, rest), e) ↦ (a, rest, e, sym (bind-ok m f bytes e) ∙ h)
  | inr (inl (x, e)) ↦ ground arith
  | inr (inr e) ↦ ground arith
]

pub take_bytes-inversion :
    (n : ℕ) (bytes x rest : Bytes)
    → take_bytes n bytes ≡ ok (x, rest)
    → (bytes ≡ x ++ rest) × (length x ≡ n)
unfolding take_bytes
take_bytes-inversion n bytes x rest h =
    let fits : n ≤ length bytes = ground arith in
    let front : take n bytes ≡ x = ground arith in
    let back : drop n bytes ≡ rest = ground arith in
    (sym (take-drop n bytes) ∙ rw (front, back), rw (← front) (length-take n bytes fits))

-- What an inverted reader says of the bytes it read from, where those were bytes.
IsBytes-split : (x rest : Bytes) → IsBytes (x ++ rest) → IsBytes x × IsBytes rest
IsBytes-split [] rest h = (tt, h)
IsBytes-split (b ∷ x) rest h = let (l, r) = IsBytes-split x rest h.1 in ((h.0, l), r)

pub take_digest-inversion :
    (bytes x rest : Bytes)
    → take_digest bytes ≡ ok (x, rest)
    → IsBytes bytes
    → (bytes ≡ x ++ rest) × (length x ≡ 32) × IsBytes rest
unfolding take_digest
take_digest-inversion bytes x rest h all =
    let (e, w) = take_bytes-inversion 32 bytes x rest h in
    (e, w, (IsBytes-split x rest (subst IsBytes e all)).1)

ok_pair :
    {v w : ℕ} {r s : Bytes}
    → ◌≡◌ {A = Outcome (ℕ × Bytes)} (ok (v, r)) (ok (w, s))
    → (v ≡ w) × (r ≡ s)
ok_pair h = ground arith

pub take_u64-inversion :
    (bytes : Bytes) (n : ℕ) (rest : Bytes)
    → take_u64 bytes ≡ ok (n, rest)
    → IsBytes bytes
    → (bytes ≡ le_bytes 8 n ++ rest) × (n < 2 ^ 64) × IsBytes rest
unfolding take_u64
take_u64-inversion bytes n rest h all =
    let (x, r, e, f) = bind-inversion (take_bytes 8) (λ b. pure (le_value b)) bytes h in
    let (split, wide) = take_bytes-inversion 8 bytes x r e in
    let (xb, rb) = IsBytes-split x r (subst IsBytes split all) in
    let (value, same) = ok_pair f in
    let back : le_bytes 8 n ≡ x =
      ap (λ v. le_bytes 8 v) (sym value)
      ∙ ap (λ w. le_bytes w (le_value x)) (sym wide)
      ∙ le_bytes-le_value x xb in
    let small : le_value x < 256 ^ length x = le_value-lt x xb in
    (
      split ∙ ap (λ t. t ++ r) (sym back) ∙ ap (λ t. le_bytes 8 n ++ t) same,
      below n x value wide small,
      subst IsBytes same rb,
    )
  where
    below :
        (n : ℕ) (x : Bytes)
        → le_value x ≡ n
        → length x ≡ 8
        → le_value x < 256 ^ length x
        → n < 2 ^ 64
    below n x e w h = let p : 256 ^ length x ≡ 2 ^ 64 = rw w in omega arith

pub take_framed-inversion :
    (bytes x rest : Bytes)
    → take_framed bytes ≡ ok (x, rest)
    → IsBytes bytes
    → (bytes ≡ frame x ++ rest) × IsSlice x × IsBytes rest
unfolding take_framed frame
take_framed-inversion bytes x rest h all =
    let (n, r, e, f) = bind-inversion take_u64 take_bytes bytes h in
    let (split, small, rb) = take_u64-inversion bytes n r e all in
    let (tail, wide) = take_bytes-inversion n r x rest f in
    (
      split
          ∙ ap (λ t. le_bytes 8 n ++ t) tail
          ∙ ap (λ w. le_bytes 8 w ++ (x ++ rest)) (sym wide)
          ∙ sym (append_assoc (le_bytes 8 (length x)) x rest),
      subst (λ w. w < 2 ^ 64) (sym wide) small,
      (IsBytes-split x rest (subst IsBytes tail rb)).1,
    )

pub take_version-inversion :
    (v : ℕ) (bytes : Bytes) (u : Unit {0}) (rest : Bytes)
    → take_version v bytes ≡ ok (u, rest)
    → IsBytes bytes
    → (bytes ≡ v ∷ rest) × IsBytes rest
unfolding take_version
take_version-inversion v [] u rest h all = ground arith
take_version-inversion v (x ∷ xs) u rest h all =
    let same : x ≡ v = ground arith in
    let tail : xs ≡ rest = ground arith in (cc (same, tail), subst IsBytes tail all.1)

pub take_end-inversion :
    (bytes : Bytes) (u : Unit {0}) (rest : Bytes) → take_end bytes ≡ ok (u, rest) → bytes ≡ []
unfolding take_end
take_end-inversion [] u rest h = refl
take_end-inversion (b ∷ bytes) u rest h = ground arith

-- A decoder that answers, taken apart at its first reader: what holds of the bytes that the
-- reader's values print holds of the bytes that were read.
module _ {ℓ κ} {B : Type ℓ} (Q : Bytes → Type κ) {b : B} {left : Bytes} where
  pub after_version :
      (v : ℕ) (f : Unit {0} → Reader B) (bytes : Bytes)
      → IsBytes bytes
      → (take_version v >>= f) bytes ≡ ok (b, left)
      → ((rest : Bytes) → IsBytes rest → f tt rest ≡ ok (b, left) → Q (v ∷ rest))
      → Q bytes
  after_version v f bytes all h k =
      let (u, rest, e, g) = bind-inversion (take_version v) f bytes h in
      let (p, a) = take_version-inversion v bytes u rest e all in subst Q (sym p) (k rest a g)

  pub after_digest :
      (f : Bytes → Reader B) (bytes : Bytes)
      → IsBytes bytes
      → (take_digest >>= f) bytes ≡ ok (b, left)
      → ((x rest : Bytes) → length x ≡ 32 → IsBytes rest → f x rest ≡ ok (b, left) → Q (x ++ rest))
      → Q bytes
  after_digest f bytes all h k =
      let (x, rest, e, g) = bind-inversion take_digest f bytes h in
      let (p, w, a) = take_digest-inversion bytes x rest e all in subst Q (sym p) (k x rest w a g)

  pub after_u64 :
      (f : ℕ → Reader B) (bytes : Bytes)
      → IsBytes bytes
      → (take_u64 >>= f) bytes ≡ ok (b, left)
      → ((n : ℕ) (rest : Bytes)
          → n < 2 ^ 64
          → IsBytes rest
          → f n rest ≡ ok (b, left)
          → Q (le_bytes 8 n ++ rest))
      → Q bytes
  after_u64 f bytes all h k =
      let (n, rest, e, g) = bind-inversion take_u64 f bytes h in
      let (p, w, a) = take_u64-inversion bytes n rest e all in subst Q (sym p) (k n rest w a g)

  pub after_framed :
      (f : Bytes → Reader B) (bytes : Bytes)
      → IsBytes bytes
      → (take_framed >>= f) bytes ≡ ok (b, left)
      → ((x rest : Bytes)
          → IsSlice x
          → IsBytes rest
          → f x rest ≡ ok (b, left)
          → Q (frame x ++ rest))
      → Q bytes
  after_framed f bytes all h k =
      let (x, rest, e, g) = bind-inversion take_framed f bytes h in
      let (p, w, a) = take_framed-inversion bytes x rest e all in subst Q (sym p) (k x rest w a g)

  pub after_refuse_if :
      (test : Bool) (f : Unit {0} → Reader B) (bytes : Bytes)
      → (refuse_if test >>= f) bytes ≡ ok (b, left)
      → (test ≡ false → f tt bytes ≡ ok (b, left) → Q bytes)
      → Q bytes
  after_refuse_if true f bytes h k = ground arith
  after_refuse_if false f bytes h k = k refl h

  pub after_end :
      (f : Unit {0} → Reader B) (bytes : Bytes)
      → (take_end >>= f) bytes ≡ ok (b, left)
      → (f tt [] ≡ ok (b, left) → Q [])
      → Q bytes
  unfolding take_end
  after_end f [] h k = k h
  after_end f (x ∷ bytes) h k =
      absurd
        (nonempty (take_end-inversion (x ∷ bytes) _ _ (bind-inversion take_end f (x ∷ bytes) h).2))
    where
      nonempty : x ∷ bytes ≡ [] → ⊥
      nonempty h = cc
