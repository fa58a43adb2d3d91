-- ===== src/Wire/Bundle/RoundTrip.antt =====
-- A bundle and its encoding determine each other.
use nymora.Prelude.{
  ◌≤◌, ◌≡◌, refl, sym, ◌∙◌, subst, [], ◌∷◌, ◌++◌, arith, length, take, length-append, append_assoc,
}
use nymora.Prelude.Bytes.{Bytes, IsBytes, length-le_bytes}
use nymora.Core.Error.{Outcome, ok}
use nymora.Crypto.Hash.{frame}
use nymora.Crypto.Hash.Framing.{IsSlice}
use nymora.Wire.Reader.{take_digest, take_end}
use nymora.Wire.Reader.Prints.{take_version-cons, take_framed-append, take_bytes-append}
use nymora.Wire.Reader.Inverts.{after_version, after_framed, after_digest, after_end}
use nymora.Wire.Writer.{joined}
use nymora.Wire.Format.{IsFormat, decoded-encode_into, encode_into-decoded}
use nymora.Wire.Bundle.{Bundle, format_version, encoded_len, fields, encode, read, decode}

-- The digests are 32 bytes, and the two variable fields are slices.
pub record IsWellFormed (b : Bundle) : Type 0 where
  pub content : IsSlice b.content
  pub proof : IsSlice b.attestation.proof
  pub tag : length b.tag ≡ 32
  pub message_hash : length b.attestation.message_hash ≡ 32
  pub nullifier : length b.attestation.nullifier ≡ 32

-- The encoding, in frames.
unfoldable pub encoding : Bundle → Bytes
encoding b =
    format_version
    ∷ (frame b.content
        ++ (b.tag
            ++ (frame b.attestation.proof
                ++ (b.attestation.message_hash ++ (b.attestation.nullifier ++ [])))))

read-encoding : (b : Bundle) → IsWellFormed b → read (encoding b) ≡ ok (b, [])
unfolding read encoding take_digest take_end
read-encoding b w =
    let a = b.attestation in
    ground (
      arith,
      take_version-cons format_version (
          frame b.content ++ (b.tag ++ (frame a.proof ++ (a.message_hash ++ (a.nullifier ++ []))))),
      take_framed-append b.content
          (b.tag ++ (frame a.proof ++ (a.message_hash ++ (a.nullifier ++ [])))) w.content,
      take_bytes-append 32 b.tag (frame a.proof ++ (a.message_hash ++ (a.nullifier ++ []))) w.tag,
      take_framed-append a.proof (a.message_hash ++ (a.nullifier ++ [])) w.proof,
      take_bytes-append 32 a.message_hash (a.nullifier ++ []) w.message_hash,
      take_bytes-append 32 a.nullifier [] w.nullifier,
    )

joined-fields : (b : Bundle) → joined (fields b) ≡ encoding b
unfolding fields encoding frame
joined-fields b = simp (append_assoc) refl

length-fields : (b : Bundle) → IsWellFormed b → length (joined (fields b)) ≡ encoded_len b
unfolding fields encoded_len
length-fields b w =
    simp (length-append, length-le_bytes, w.tag, w.message_hash, w.nullifier) (omega arith)

-- Whatever the reader accepts is the encoding of what it answers.
read-inversion :
    (bytes : Bytes) (b : Bundle) (left : Bytes)
    → IsBytes bytes
    → read bytes ≡ ok (b, left)
    → (bytes ≡ encoding b) × IsWellFormed b
unfolding read encoding
read-inversion bytes b left all h = after_version Q format_version _ bytes all h λ r0 a0 f0.
    after_framed (λ r. Q (1 ∷ r)) _ r0 a0 f0
      λ content r1 w1 a1 f1.
        after_digest (λ r. Q (1 ∷ (frame content ++ r))) _ r1 a1 f1
          λ tag r2 w2 a2 f2.
            after_framed (λ r. Q (1 ∷ (frame content ++ (tag ++ r)))) _ r2 a2 f2
              λ proof r3 w3 a3 f3.
                after_digest (λ r. Q (1 ∷ (frame content ++ (tag ++ (frame proof ++ r))))) _ r3 a3
                  f3
                  λ hash r4 w4 a4 f4.
                    after_digest
                      (λ r. Q (1 ∷ (frame content ++ (tag ++ (frame proof ++ (hash ++ r)))))) _ r4
                      a4 f4
                      λ nullifier r5 w5 a5 f5.
                        after_end
                          (λ r. Q (
                            1
                            ∷ (frame content
                                ++ (tag ++ (frame proof ++ (hash ++ (nullifier ++ r)))))))
                          _ r5 f5
                          λ f6.
                            subst
                              (λ c.
                                (1
                                    ∷ (frame content
                                        ++ (tag ++ (frame proof ++ (hash ++ (nullifier ++ [])))))
                                  ≡ encoding c)
                                × IsWellFormed c)
                              (value f6)
                              (
                                refl,
                                record {
                                  content = w1;
                                  proof = w3;
                                  tag = w2;
                                  message_hash = w4;
                                  nullifier = w5;
                                },
                              )
  where
    Q : Bytes → Type 0
    Q r = (r ≡ encoding b) × IsWellFormed b

    value : {c : Bundle} → ◌≡◌ {A = Outcome (Bundle × Bytes)} (ok (c, [])) (ok (b, left)) → c ≡ b
    value h = ground arith

Bundle-IsFormat : IsFormat IsWellFormed encoded_len fields read
Bundle-IsFormat = record {
  width = length-fields;
  reads = λ b w. rw (joined-fields b) (read-encoding b w);
  canonical = λ bytes b left all h.
      let (printed, w) = read-inversion bytes b left all h in (printed ∙ sym (joined-fields b), w);
}

-- For a bundle whose digests are 32 bytes and whose variable fields are slices, and any buffer
-- that holds `encoded_len`: `encode` answers that length, and `decode` reads the bundle back from
-- the bytes it wrote.
pub decode-encode_bundle :
    (b : Bundle) (out : Bytes)
    → IsWellFormed b
    → encoded_len b ≤ length out
    → ((encode b out).0 ≡ ok (encoded_len b))
      × (decode (take (encoded_len b) (encode b out).1) ≡ ok b)
unfolding encode decode
decode-encode_bundle b out w room = decoded-encode_into Bundle-IsFormat b out w room

-- The encoding is canonical: whatever bytes `decode` accepts, `encode` writes the bundle it
-- answers back as exactly those bytes, into any buffer of their length.
pub encode-decode_bundle :
    (bytes : Bytes) (b : Bundle) (out : Bytes)
    → IsBytes bytes
    → decode bytes ≡ ok b
    → length out ≡ length bytes
    → encode b out ≡ (ok (length bytes), bytes)
unfolding encode decode
encode-decode_bundle bytes b out all h size =
    encode_into-decoded Bundle-IsFormat bytes b out all h size
