-- ===== src/Wire/Handoff/RoundTrip.antt =====
-- A handoff and its encoding determine each other.
use nymora.Prelude.{
  ◌≤◌, ◌≡◌, refl, sym, ◌∙◌, subst, [], ◌∷◌, ◌++◌, arith, length, take, length-append, append_assoc,
}
use nymora.Prelude.Bytes.{Bytes, IsBytes, length-le_bytes}
use nymora.Core.Error.{Outcome, ok}
use nymora.Crypto.Hash.{frame}
use nymora.Crypto.Hash.Framing.{IsSlice}
use nymora.Wire.Reader.{take_digest, take_end}
use nymora.Wire.Reader.Prints.{take_version-cons, take_framed-append, take_bytes-append}
use nymora.Wire.Reader.Inverts.{after_version, after_framed, after_digest, after_end}
use nymora.Wire.Writer.{joined}
use nymora.Wire.Format.{IsFormat, decoded-encode_into, encode_into-decoded}
use nymora.Wire.Handoff.{
  MigrationHandoff, handoff_version, encoded_len, fields, encode, read, decode,
}

-- The fixed fields are 32 bytes, and the variable ones are slices.
pub record IsWellFormed (m : MigrationHandoff) : Type 0 where
  pub agora : length m.agora ≡ 32
  pub credential_key : length m.credential_key ≡ 32
  pub root_opening : length m.root_opening ≡ 32
  pub root_public_key : IsSlice m.root_public_key
  pub migration_cert : IsSlice m.migration_cert
  pub retire_cert : IsSlice m.retire_cert

-- The encoding, in frames.
unfoldable pub encoding : MigrationHandoff → Bytes
encoding m =
    handoff_version
    ∷ (m.agora
        ++ (m.credential_key
            ++ (m.root_opening
                ++ (frame m.root_public_key
                    ++ (frame m.migration_cert ++ (frame m.retire_cert ++ []))))))

read-encoding : (m : MigrationHandoff) → IsWellFormed m → read (encoding m) ≡ ok (m, [])
unfolding read encoding take_digest take_end
read-encoding m w = ground (
  arith,
  take_version-cons handoff_version (
      m.agora
      ++ (m.credential_key
          ++ (m.root_opening
              ++ (frame m.root_public_key
                  ++ (frame m.migration_cert ++ (frame m.retire_cert ++ [])))))),
  take_bytes-append 32 m.agora
      (m.credential_key
        ++ (m.root_opening
            ++ (frame m.root_public_key
                ++ (frame m.migration_cert ++ (frame m.retire_cert ++ [])))))
      w.agora,
  take_bytes-append 32 m.credential_key
      (m.root_opening
        ++ (frame m.root_public_key ++ (frame m.migration_cert ++ (frame m.retire_cert ++ []))))
      w.credential_key,
  take_bytes-append 32 m.root_opening
      (frame m.root_public_key ++ (frame m.migration_cert ++ (frame m.retire_cert ++ [])))
      w.root_opening,
  take_framed-append m.root_public_key (frame m.migration_cert ++ (frame m.retire_cert ++ []))
      w.root_public_key,
  take_framed-append m.migration_cert (frame m.retire_cert ++ []) w.migration_cert,
  take_framed-append m.retire_cert [] w.retire_cert,
)

joined-fields : (m : MigrationHandoff) → joined (fields m) ≡ encoding m
unfolding fields encoding frame
joined-fields m = simp append_assoc refl

length-fields : (m : MigrationHandoff) → IsWellFormed m → length (joined (fields m)) ≡ encoded_len m
unfolding fields encoded_len
length-fields m w =
    simp (length-append, length-le_bytes, w.agora, w.credential_key, w.root_opening) (omega arith)

-- Whatever the reader accepts is the encoding of what it answers.
read-inversion :
    (bytes : Bytes) (m : MigrationHandoff) (left : Bytes)
    → IsBytes bytes
    → read bytes ≡ ok (m, left)
    → (bytes ≡ encoding m) × IsWellFormed m
unfolding read encoding
read-inversion bytes m left all h = after_version Q handoff_version _ bytes all h λ r0 a0 f0.
    after_digest (λ r. Q (handoff_version ∷ r)) _ r0 a0 f0
      λ agora r1 w1 a1 f1.
        after_digest (λ r. Q (handoff_version ∷ (agora ++ r))) _ r1 a1 f1
          λ credential_key r2 w2 a2 f2.
            after_digest (λ r. Q (handoff_version ∷ (agora ++ (credential_key ++ r)))) _ r2 a2 f2
              λ root_opening r3 w3 a3 f3.
                after_framed
                  (λ r. Q (handoff_version ∷ (agora ++ (credential_key ++ (root_opening ++ r))))) _
                  r3 a3 f3
                  λ root_public_key r4 w4 a4 f4.
                    after_framed
                      (λ r. Q (
                        handoff_version
                        ∷ (agora
                            ++ (credential_key ++ (root_opening ++ (frame root_public_key ++ r))))))
                      _ r4 a4 f4
                      λ migration_cert r5 w5 a5 f5.
                        after_framed
                          (λ r. Q (
                            handoff_version
                            ∷ (agora
                                ++ (credential_key
                                    ++ (root_opening
                                        ++ (frame root_public_key
                                            ++ (frame migration_cert ++ r)))))))
                          _ r5 a5 f5
                          λ retire_cert r6 w6 a6 f6.
                            after_end
                              (λ r. Q (
                                handoff_version
                                ∷ (agora
                                    ++ (credential_key
                                        ++ (root_opening
                                            ++ (frame root_public_key
                                                ++ (frame migration_cert
                                                    ++ (frame retire_cert ++ r))))))))
                              _ r6 f6
                              λ fz.
                                subst
                                  (λ c.
                                    ((handoff_version
                                        ∷ (agora
                                            ++ (credential_key
                                                ++ (root_opening
                                                    ++ (frame root_public_key
                                                        ++ (frame migration_cert
                                                            ++ (frame retire_cert ++ [])))))))
                                      ≡ encoding c)
                                    × IsWellFormed c)
                                  (value fz)
                                  (
                                    refl,
                                    record {
                                      agora = w1;
                                      credential_key = w2;
                                      root_opening = w3;
                                      root_public_key = w4;
                                      migration_cert = w5;
                                      retire_cert = w6;
                                    },
                                  )
  where
    Q : Bytes → Type 0
    Q r = (r ≡ encoding m) × IsWellFormed m

    value :
        {c : MigrationHandoff}
        → ◌≡◌ {A = Outcome (MigrationHandoff × Bytes)} (ok (c, [])) (ok (m, left))
        → c ≡ m
    value h = ground arith

MigrationHandoff-IsFormat : IsFormat (IsWellFormed) encoded_len fields (read)
MigrationHandoff-IsFormat = record {
  width = length-fields;
  reads = λ m w. rw (joined-fields m) (read-encoding m w);
  canonical = λ bytes m left all h.
      let (printed, w) = read-inversion bytes m left all h in (printed ∙ sym (joined-fields m), w);
}

-- For a handoff whose fixed fields are 32 bytes and whose variable fields are slices, and any
-- buffer that holds `encoded_len`: `encode` answers that length, and `decode` reads the handoff
-- back from the bytes it wrote.
pub decode-encode_handoff :
    (m : MigrationHandoff) (out : Bytes)
    → IsWellFormed m
    → encoded_len m ≤ length out
    → ((encode m out).0 ≡ ok (encoded_len m))
      × (decode (take (encoded_len m) (encode m out).1) ≡ ok m)
unfolding encode decode
decode-encode_handoff m out w room = decoded-encode_into MigrationHandoff-IsFormat m out w room

-- The encoding is canonical: whatever bytes `decode` accepts, `encode` writes the handoff it
-- answers back as exactly those bytes, into any buffer of their length.
pub encode-decode_handoff :
    (bytes : Bytes) (m : MigrationHandoff) (out : Bytes)
    → IsBytes bytes
    → decode bytes ≡ ok m
    → length out ≡ length bytes
    → encode m out ≡ (ok (length bytes), bytes)
unfolding encode decode
encode-decode_handoff bytes m out all h size =
    encode_into-decoded MigrationHandoff-IsFormat bytes m out all h size
