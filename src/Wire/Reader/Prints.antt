-- ===== src/Wire/Reader/Prints.antt =====
-- The readers and what they read back: each takes exactly the bytes of one value.
use nymora.Prelude.{
  ℕ, ◌*◌, ◌^◌, ◌<◌, ◌≡◌, refl, ap, ◌∙◌, Bool, true, false, ◌∷◌, ◌++◌, arith, leb, length,
  take-append, drop-append, length-append, append_assoc,
}
use nymora.Prelude.Bytes.{Bytes, le_bytes, le_value, length-le_bytes, le_value-le_bytes}
use nymora.Core.Error.{ok, err, panic}
use nymora.Crypto.Hash.{frame}
use nymora.Crypto.Hash.Framing.{IsSlice}
use nymora.Wire.Reader.{
  Reader, pure, ◌>>=◌, refuse_if, take_bytes, take_u64, take_framed, take_entries, take_version,
}

pub bind-ok {ℓ κ} :
    {A : Type ℓ} {B : Type κ} (m : Reader A) (f : A → Reader B) (bytes : Bytes) {a : A}
    {rest : Bytes}
    → m bytes ≡ ok (a, rest)
    → (m >>= f) bytes ≡ f a rest
bind-ok m f bytes e = ap (λ o. elim o [ ok (a, rest) ↦ f a rest | err x ↦ err x | panic ↦ panic ]) e

pub refuse_if-false : (b : Bool) (rest : Bytes) → b ≡ false → refuse_if b rest ≡ ok (tt, rest)
refuse_if-false b rest e = rw e refl

pub take_bytes-append :
    (n : ℕ) (x rest : Bytes) → length x ≡ n → take_bytes n (x ++ rest) ≡ ok (x, rest)
unfolding take_bytes
take_bytes-append n x rest e =
    let fits : leb (length x) (length (x ++ rest)) ≡ true = ground (arith, length-append x rest) in
    rw (← e, fits, take-append x rest, drop-append x rest)

pub take_u64-append :
    (n : ℕ) (rest : Bytes) → n < 2 ^ 64 → take_u64 (le_bytes 8 n ++ rest) ≡ ok (n, rest)
unfolding take_u64
take_u64-append n rest h =
    bind-ok (take_bytes 8) (λ bytes. pure (le_value bytes)) (le_bytes 8 n ++ rest)
      (take_bytes-append 8 (le_bytes 8 n) rest (length-le_bytes 8 n))
    ∙ ap (λ v. ok (v, rest)) (le_value-le_bytes 8 n (omega arith))

pub take_framed-append : (x rest : Bytes) → IsSlice x → take_framed (frame x ++ rest) ≡ ok (x, rest)
unfolding take_framed frame
take_framed-append x rest h = rw (append_assoc (le_bytes 8 (length x)) x rest) (
    bind-ok take_u64 take_bytes (le_bytes 8 (length x) ++ (x ++ rest))
      (take_u64-append (length x) (x ++ rest) h)
    ∙ take_bytes-append (length x) x rest refl)

pub take_entries-append :
    (count width : ℕ) (x rest : Bytes)
    → length x ≡ count * width
    → IsSlice x
    → take_entries count width (x ++ rest) ≡ ok (x, rest)
unfolding take_entries
take_entries-append count width x rest e h =
    let fits : leb (2 ^ 64) (count * width) ≡ false = rw (← e) (ground arith) in
    rw (fits, take_bytes-append (count * width) x rest e)

pub take_version-cons : (v : ℕ) (rest : Bytes) → take_version v (v ∷ rest) ≡ ok (tt, rest)
unfolding take_version
take_version-cons v rest = ground arith
