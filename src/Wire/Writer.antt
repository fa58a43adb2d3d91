-- ===== src/Wire/Writer.antt =====
-- The `put` closure of `Bundle::encode`, `MigrationHandoff::encode` and `Invitation::encode`: it
-- copies each field into `out` at a cursor, and a copy past the end of the slice panics.
use nymora.Prelude.{
  ℕ, suc, ◌+◌, ◌≤◌, ◌≡◌, refl, sym, ap, ◌∙◌, List, [], ◌∷◌, ◌++◌, arith, leb, if◌then◌else◌, length,
  take, drop, true, length-take, length-drop, length-append, take-append, append-nil, append_assoc,
}
use nymora.Prelude.Bytes.{Bytes}
use nymora.Core.Error.{Outcome, ok, err, panic, ProtocolError}

-- `out[at..at + bytes.len()].copy_from_slice(bytes)`
unfoldable pub copy_at : ℕ → Bytes → Bytes → Bytes
copy_at at bytes out = take at out ++ bytes ++ drop (at + length bytes) out

unfoldable pub put_all : List Bytes → ℕ → Bytes → Outcome Bytes
put_all [] at out = ok out
put_all (field ∷ fields) at out =
    let rest = put_all fields (at + length field) (copy_at at field out) in
    if leb (at + length field) (length out) then rest else panic

-- `out.get_mut(..total).ok_or(Malformed)?`, the fields, and `Ok(total)`: the answer and the buffer.
unfoldable pub encode_into : ℕ → List Bytes → Bytes → Outcome ℕ × Bytes
encode_into total fields out =
    if leb total (length out)
    then elim (put_all fields 0 (take total out)) [
      | ok written ↦ (ok total, written ++ drop total out)
      | err e ↦ (err e, out)
      | panic ↦ (panic, out)
    ]
    else (err ProtocolError.malformed, out)

-- The fields, one after another.
abbrev pub joined : List Bytes → Bytes
joined [] = []
joined (field ∷ fields) = field ++ joined fields

pub drop-past : (done left : Bytes) (k : ℕ) → drop (length done + k) (done ++ left) ≡ drop k left
drop-past [] left k = ap (λ n. drop n left) (zero_plus k)
  where
    zero_plus : (k : ℕ) → 0 + k ≡ k
    zero_plus k = omega arith
drop-past (b ∷ done) left k =
    ap (λ n. drop n (b ∷ (done ++ left))) (suc_plus (length done) k) ∙ drop-past done left k
  where
    suc_plus : (n k : ℕ) → suc n + k ≡ suc (n + k)
    suc_plus n k = omega arith

copied :
    (done field left : Bytes)
    → copy_at (length done) field (done ++ left) ≡ (done ++ field) ++ drop (length field) left
unfolding copy_at
copied done field left = rw (take-append done left, drop-past done left (length field)) refl

-- From a cursor that has written `done`, the fields fill the rest of a buffer of their length.
put_all-joined :
    (fields : List Bytes) (done left : Bytes)
    → length left ≡ length (joined fields)
    → put_all fields (length done) (done ++ left) ≡ ok (done ++ joined fields)
unfolding put_all copy_at
put_all-joined [] done [] h = refl
put_all-joined [] done (b ∷ left) h = absurd (omega arith)
put_all-joined (field ∷ fields) done left h =
    let more : length left ≡ length field + length (joined fields) =
      h ∙ length-append field (joined fields) in
    let room : leb (length done + length field) (length (done ++ left)) ≡ true =
      ground (arith, length-append done left) in
    let tail : length (drop (length field) left) ≡ length (joined fields) =
      omega (arith, length-drop (length field) left) in
    rw (room, copied done field left, ← length-append done field)
      (put_all-joined fields (done ++ field) (drop (length field) left) tail
        ∙ ap ok (append_assoc done field (joined fields)))

drop_all : (out : Bytes) → drop (length out) out ≡ []
drop_all [] = refl
drop_all (b ∷ out) = drop_all out

pub encode_into-joined :
    (total : ℕ) (fields : List Bytes) (out : Bytes)
    → length (joined fields) ≡ total
    → total ≤ length out
    → encode_into total fields out ≡ (ok total, joined fields ++ drop total out)
unfolding encode_into
encode_into-joined total fields out e h =
    let room : leb total (length out) ≡ true = ground arith in
    rw (room, put_all-joined fields [] (take total out) (length-take total out h ∙ sym e)) refl

-- The whole of a buffer of the right length is overwritten.
pub encode_into-exact :
    (fields : List Bytes) (out : Bytes)
    → length out ≡ length (joined fields)
    → encode_into (length (joined fields)) fields out ≡ (ok (length (joined fields)), joined fields)
encode_into-exact fields out e =
    encode_into-joined (length (joined fields)) fields out refl (omega arith)
    ∙ ap (λ t. (ok (length (joined fields)), joined fields ++ t)) (rw (← e) (drop_all out))
    ∙ ap (λ t. (ok (length (joined fields)), t)) (append-nil (joined fields))
