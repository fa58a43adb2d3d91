-- ===== src/Credential/Record.antt =====
-- nymora-protocol/src/credential.rs: the stored epoch certificate record.
use nymora.Prelude.{
  ℕ, ◌+◌, ◌^◌, ◌≤◌, ◌<◌, ◌≡◌, refl, sym, ap, ◌∙◌, subst, inl, inr, Bool-cases, ltb-false, [], ◌++◌,
  arith, ltb, if◌then◌else◌, length, take, drop, length-take, length-drop, length-append,
  take-append, drop-append, append_assoc, append-nil, take-drop,
}
use nymora.Prelude.Bytes.{Bytes, le_bytes, length-le_bytes}
use nymora.Core.Error.{Outcome, ok, err, panic, ProtocolError}
use nymora.Crypto.Hash.{frame}
use nymora.Crypto.Hash.Framing.{IsSlice}
use nymora.Wire.Reader.{Reader, pure, ◌>>=◌, ◌>>◌, take_framed, take_end, decoded}
use nymora.Wire.Reader.Prints.{bind-ok, take_framed-append}
use nymora.Wire.Writer.{copy_at, drop-past}
use nymora.Credential.Ports.{KeyStore, EpochCertPayload, Fits}

pub record EpochRecord : Type 0 where
  pub public_key : Bytes
  pub signature : Bytes

unfoldable pub read_record : Reader EpochRecord
read_record = do
  public_key ← take_framed
  signature ← take_framed
  take_end
  pure (record { public_key = public_key; signature = signature })

-- `EpochRecord::decode`
unfoldable pub decode_record : Bytes → Outcome EpochRecord
decode_record bytes = decoded (read_record bytes)

-- What follows the room for the two prefixes and the key: the signature's length, and the whole.
unfoldable pub finish_record : ℕ → Bytes → Outcome ℕ × Bytes → Outcome ℕ × Bytes
finish_record pk_len head (ok sig_len, tail) =
    (ok (8 + pk_len + 8 + sig_len), copy_at (8 + pk_len) (le_bytes 8 sig_len) (head ++ tail))
finish_record pk_len head (err e, tail) = (err e, head ++ tail)
finish_record pk_len head (panic, tail) = (panic, head ++ tail)

-- The record's length, and the buffer.
unfoldable pub sign_epoch_record : Bytes → KeyStore → ℕ → Bytes → Bytes → Outcome ℕ × Bytes
sign_epoch_record agora key_store epoch epoch_public_key buffer =
    let pk_len = length epoch_public_key in
    let sig_at = 8 + pk_len + 8 in
    let begun = copy_at 8 epoch_public_key (copy_at 0 (le_bytes 8 pk_len) buffer) in
    let payload : EpochCertPayload = record {
      agora = agora;
      epoch = epoch;
      epoch_public_key = epoch_public_key;
    } in
    if ltb (length buffer) sig_at
    then (err ProtocolError.malformed, buffer)
    else finish_record pk_len (take sig_at begun)
        (key_store.sign_epoch_cert payload (drop sig_at begun))

pub decode_record-frames :
    (pk signature : Bytes)
    → IsSlice pk
    → IsSlice signature
    → decode_record (frame pk ++ frame signature)
      ≡ ok (record { public_key = pk; signature = signature })
unfolding decode_record read_record take_end
decode_record-frames pk signature h k =
    ap (λ o. decoded o)
      (bind-ok take_framed _ _ (take_framed-append pk (frame signature) h)
        ∙ bind-ok take_framed _ _ (
            ap take_framed (sym (append-nil (frame signature)))
            ∙ take_framed-append signature [] k))

-- A buffer of three parts, of which the middle one is written over.
copy_at-middle :
    (at : ℕ) (before old after new : Bytes)
    → at ≡ length before
    → length old ≡ length new
    → copy_at at new (before ++ (old ++ after)) ≡ before ++ (new ++ after)
unfolding copy_at
copy_at-middle at before old after new h e =
    let rest : drop (length before + length new) (before ++ (old ++ after)) ≡ after =
      drop-past before (old ++ after) (length new)
      ∙ ap (λ n. drop n (old ++ after)) (sym e)
      ∙ drop-append old after in
    rw (h, rest, take-append before (old ++ after)) (append_assoc before new after)

split_at :
    (k : ℕ) (xs : Bytes) → k ≤ length xs → (a : Bytes) × (xs ≡ a ++ drop k xs) × (length a ≡ k)
split_at k xs h = (take k xs, sym (take-drop k xs), length-take k xs h)

-- The record, over a buffer in the parts that it overwrites.
record-over :
    (pk a b c t tail : Bytes) (n : ℕ)
    → length a ≡ 8
    → length b ≡ length pk
    → length c ≡ 8
    → finish_record
        (length pk)
        (take
          (8 + length pk + 8)
          (copy_at 8 pk (copy_at 0 (le_bytes 8 (length pk)) (a ++ (b ++ (c ++ t))))))
        (ok n, tail)
      ≡ (ok (8 + length pk + 8 + n), frame pk ++ (le_bytes 8 n ++ tail))
unfolding finish_record frame
record-over pk a b c t tail n ea eb ec =
    let prefix = le_bytes 8 (length pk) in
    let p0 : copy_at 0 prefix (a ++ (b ++ (c ++ t))) ≡ prefix ++ (b ++ (c ++ t)) =
      copy_at-middle 0 [] a (b ++ (c ++ t)) prefix refl
        (ea ∙ sym (length-le_bytes 8 (length pk))) in
    let p1 : copy_at 8 pk (prefix ++ (b ++ (c ++ t))) ≡ prefix ++ (pk ++ (c ++ t)) =
      copy_at-middle 8 prefix b (c ++ t) pk (sym (length-le_bytes 8 (length pk))) eb in
    let head : Bytes = prefix ++ (pk ++ c) in
    let wide : length head ≡ 8 + length pk + 8 =
      simp (length-append, length-le_bytes, ec) (omega arith) in
    let p2 : take (8 + length pk + 8) (prefix ++ (pk ++ (c ++ t))) ≡ head =
      ap (λ w. take w (prefix ++ (pk ++ (c ++ t)))) (sym wide)
      ∙ ap (take (length head)) (simp append_assoc refl)
      ∙ take-append head t in
    let p3 : copy_at (8 + length pk) (le_bytes 8 n) ((prefix ++ pk) ++ (c ++ tail))
        ≡ (prefix ++ pk) ++ (le_bytes 8 n ++ tail) =
      copy_at-middle (8 + length pk) (prefix ++ pk) c tail (le_bytes 8 n)
        (sym (length-append prefix pk ∙ ap (λ w. w + length pk) (length-le_bytes 8 (length pk))))
        (ec ∙ sym (length-le_bytes 8 n)) in
    let shift : head ++ tail ≡ (prefix ++ pk) ++ (c ++ tail) = simp append_assoc refl in
    rw (p0, p1, p2, shift, p3) refl

-- What was signed into the room behind the key, taken to its frame.
after_sign :
    (pk a b c t : Bytes) (o : Outcome ℕ × Bytes) (total : ℕ) (out : Bytes)
    → length a ≡ 8
    → length b ≡ length pk
    → length c ≡ 8
    → ((n : ℕ) (tail : Bytes) → o ≡ (ok n, tail) → (n ≤ length tail) × (n < 2 ^ 64))
    → finish_record
        (length pk)
        (take
          (8 + length pk + 8)
          (copy_at 8 pk (copy_at 0 (le_bytes 8 (length pk)) (a ++ (b ++ (c ++ t))))))
        o
      ≡ (ok total, out)
    → (signature : Bytes) × (take total out ≡ frame pk ++ frame signature)
      × (total ≤ length out)
      × IsSlice signature
unfolding frame finish_record
after_sign pk a b c t (ok n, tail) total out ea eb ec fits e =
    let made : ◌≡◌ {A = Outcome ℕ × Bytes}
        (ok (8 + length pk + 8 + n), frame pk ++ (le_bytes 8 n ++ tail)) (ok total, out) =
      sym (record-over pk a b c t tail n ea eb ec) ∙ e in
    let size : 8 + length pk + 8 + n ≡ total = ground arith in
    let bytes : frame pk ++ (le_bytes 8 n ++ tail) ≡ out = ground arith in
    let (short, wide) = fits n tail refl in
    let width : length (take n tail) ≡ n = length-take n tail short in
    let record_of : Bytes = frame pk ++ (le_bytes 8 n ++ take n tail) in
    let whole : length record_of ≡ 8 + length pk + 8 + n =
      simp (length-append, length-le_bytes, width) (omega arith) in
    let rest : frame pk ++ (le_bytes 8 n ++ tail) ≡ record_of ++ drop n tail =
      ap (λ w. frame pk ++ (le_bytes 8 n ++ w)) (sym (take-drop n tail)) ∙ simp append_assoc refl in
    let room : 8 + length pk + 8 + n ≤ length (frame pk ++ (le_bytes 8 n ++ tail)) =
      simp (length-append, length-le_bytes) (omega arith) in
    let front : take total out ≡ frame pk ++ frame (take n tail) =
      ap (λ w. take w out) (sym size)
      ∙ ap (take (8 + length pk + 8 + n)) (sym bytes ∙ rest)
      ∙ ap (λ w. take w (record_of ++ drop n tail)) (sym whole)
      ∙ take-append record_of (drop n tail)
      ∙ ap (λ w. frame pk ++ (le_bytes 8 w ++ take n tail)) (sym width) in
    (
      take n tail,
      front,
      subst (λ w. total ≤ length w) bytes
          (subst (λ w. w ≤ length (frame pk ++ (le_bytes 8 n ++ tail))) size room),
      omega arith,
    )
after_sign pk a b c t (err e', tail) total out ea eb ec fits e = ground arith
after_sign pk a b c t (panic, tail) total out ea eb ec fits e = ground arith

-- Where the key store signs into a buffer with room, the record is the key and the signature, each
-- in its frame.
pub sign_epoch_record-frames :
    (agora : Bytes) (key_store : KeyStore) (epoch : ℕ) (pk buffer : Bytes) (total : ℕ) (out : Bytes)
    → Fits key_store.sign_epoch_cert
    → sign_epoch_record agora key_store epoch pk buffer ≡ (ok total, out)
    → (signature : Bytes) × (take total out ≡ frame pk ++ frame signature)
      × (total ≤ length out)
      × IsSlice signature
unfolding sign_epoch_record
sign_epoch_record-frames agora key_store epoch pk buffer total out fits e =
    elim (Bool-cases (ltb (length buffer) (8 + length pk + 8))) [
      | inl short ↦ ground arith
      | inr room ↦
          let enough : 8 + length pk + 8 ≤ length buffer =
            ltb-false (length buffer) (8 + length pk + 8) room in
          let begun = copy_at 8 pk (copy_at 0 (le_bytes 8 (length pk)) buffer) in
          let (a, pa, ea) = split_at 8 buffer (omega arith) in
          let r1 = drop 8 buffer in
          let (b, pb, eb) = split_at (length pk) r1 (omega (arith, length-drop 8 buffer)) in
          let r2 = drop (length pk) r1 in
          let (c, pc, ec) =
            split_at 8 r2 (omega (arith, length-drop 8 buffer, length-drop (length pk) r1)) in
          let whole : buffer ≡ a ++ (b ++ (c ++ drop 8 r2)) =
            pa ∙ ap (λ w. a ++ w) (pb ∙ ap (λ w. b ++ w) pc) in
          let signed = key_store.sign_epoch_cert _ (drop (8 + length pk + 8) begun) in
          let e' : finish_record (length pk) (take (8 + length pk + 8) begun) signed
              ≡ (ok total, out) =
            rw room at e in
          after_sign pk a b c (drop 8 r2) signed total out ea eb ec
            (λ n tail answered. fits _ _ n tail answered)
            (subst
              (λ w.
                finish_record (length pk)
                  (take (8 + length pk + 8) (copy_at 8 pk (copy_at 0 (le_bytes 8 (length pk)) w)))
                  signed
                ≡ (ok total, out))
              whole e')
    ]
