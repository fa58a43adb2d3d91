-- ===== src/Wire/Format.antt =====
-- What an encoder and a strict decoder of one format owe each other, from what its fields and its
-- reader owe each other.
use nymora.Prelude.{
  ℕ, ◌≤◌, ◌≡◌, sym, ap, ◌∙◌, List, [], ◌++◌, arith, length, take, drop, take-append,
}
use nymora.Prelude.Bytes.{Bytes, IsBytes}
use nymora.Core.Error.{Outcome, ok, err, panic}
use nymora.Wire.Reader.{Reader, decoded}
use nymora.Wire.Writer.{joined, encode_into, encode_into-joined, encode_into-exact}

decoded-ok :
    {A : Type 0} (o : Outcome (A × Bytes)) {a : A}
    → decoded o ≡ ok a
    → (rest : Bytes) × (o ≡ ok (a, rest))
decoded-ok (ok (b, rest)) h = (rest, ground arith)
decoded-ok (err e) h = ground arith
decoded-ok panic h = ground arith

-- The fields that an encoder puts and the reader of the decoder, on the values that are well formed.
pub record IsFormat {A : Type 0} (IsGood : A → Type 0) (total : A → ℕ) (fields : A → List Bytes)
    (read : Reader A) : Type 0 where
  pub width : (a : A) → IsGood a → length (joined (fields a)) ≡ total a
  pub reads : (a : A) → IsGood a → read (joined (fields a)) ≡ ok (a, [])
  pub canonical :
      (bytes : Bytes) (a : A) (left : Bytes)
      → IsBytes bytes
      → read bytes ≡ ok (a, left)
      → (bytes ≡ joined (fields a)) × IsGood a

module _ {A : Type 0} {IsGood : A → Type 0} {total : A → ℕ} {fields : A → List Bytes}
    {read : Reader A} (format : IsFormat IsGood total fields read) where
  pub decoded-encode_into :
      (a : A) (out : Bytes)
      → IsGood a
      → total a ≤ length out
      → ((encode_into (total a) (fields a) out).0 ≡ ok (total a))
        × (decoded (read (take (total a) (encode_into (total a) (fields a) out).1)) ≡ ok a)
  decoded-encode_into a out good room =
      let wide = format.width a good in
      let written = encode_into-joined (total a) (fields a) out wide room in
      let taken : take (total a) (encode_into (total a) (fields a) out).1 ≡ joined (fields a) =
        ap (λ r. take (total a) r.1) written
        ∙ ap (λ n. take n (joined (fields a) ++ drop (total a) out)) (sym wide)
        ∙ take-append (joined (fields a)) (drop (total a) out) in
      (
        ap (λ r. r.0) written,
        ap (λ t. decoded (read t)) taken ∙ ap (λ o. decoded o) (format.reads a good),
      )

  pub encode_into-decoded :
      (bytes : Bytes) (a : A) (out : Bytes)
      → IsBytes bytes
      → decoded (read bytes) ≡ ok a
      → length out ≡ length bytes
      → encode_into (total a) (fields a) out ≡ (ok (length bytes), bytes)
  encode_into-decoded bytes a out all h size =
      let (left, e) = decoded-ok (read bytes) h in
      let (same, good) = format.canonical bytes a left all e in
      ap (λ n. encode_into n (fields a) out) (sym (format.width a good))
      ∙ encode_into-exact (fields a) out (size ∙ ap (λ t. length t) same)
      ∙ ap (λ t. (ok (length t), t)) (sym same)
