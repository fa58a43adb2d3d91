-- ===== src/Wire/Invitation/RoundTrip.antt =====
-- An invitation and its encoding determine each other.
use nymora.Prelude.{
  ℕ, ◌^◌, ◌≤◌, ◌<◌, ◌≡◌, refl, sym, ap, ◌∙◌, subst, Bool, true, false, not, [], ◌∷◌, ◌++◌, arith,
  length, ltb, take, length-append, append_assoc, ltb, ltb-false,
}
use nymora.Prelude.Bytes.{Bytes, IsBytes, le_bytes, length-le_bytes}
use nymora.Core.Error.{Outcome, ok}
use nymora.Crypto.Hash.{frame}
use nymora.Crypto.Hash.Framing.{IsSlice}
use nymora.Wire.Reader.{refuse_if, take_u64, take_digest, take_framed, take_version, take_end}
use nymora.Wire.Reader.Prints.{
  bind-ok, refuse_if-false, take_version-cons, take_framed-append, take_bytes-append,
  take_u64-append,
}
use nymora.Wire.Reader.Inverts.{
  after_version, after_framed, after_digest, after_u64, after_refuse_if, after_end,
}
use nymora.Wire.Writer.{joined}
use nymora.Wire.Format.{IsFormat, decoded-encode_into, encode_into-decoded}
use nymora.Wire.Invitation.{
  Invitation, invitation_version, encoded_len, fields, encode, read, decode,
}

-- The fixed fields are 32 bytes, the numbers are `u64`s, the address is UTF-8 of slice length, and
-- the invitation does not end before it begins.
pub record IsWellFormed (is_utf8 : Bytes → Bool) (v : Invitation) : Type 0 where
  pub agora : length v.agora ≡ 32
  pub policy_class : length v.policy_class ≡ 32
  pub statement_key : length v.statement_key ≡ 32
  pub log_key : length v.log_key ≡ 32
  pub fetch_key : length v.fetch_key ≡ 32
  pub epoch : v.epoch < 2 ^ 64
  pub interval_seconds : v.interval_seconds < 2 ^ 64
  pub valid_through : v.valid_through < 2 ^ 64
  pub server : IsSlice v.server
  pub utf8 : is_utf8 v.server ≡ true
  pub window : v.epoch ≤ v.valid_through

-- The encoding, in frames.
unfoldable pub encoding : Invitation → Bytes
encoding v =
    invitation_version
    ∷ (v.agora
        ++ (v.policy_class
            ++ (v.statement_key
                ++ (v.log_key
                    ++ (v.fetch_key
                        ++ (le_bytes 8 v.epoch
                            ++ (le_bytes 8 v.interval_seconds
                                ++ (le_bytes 8 v.valid_through ++ (frame v.server ++ [])))))))))

read-encoding :
    (is_utf8 : Bytes → Bool) (v : Invitation)
    → IsWellFormed is_utf8 v
    → read is_utf8 (encoding v) ≡ ok (v, [])
unfolding read encoding take_digest take_end
read-encoding is_utf8 v w =
    bind-ok (take_version invitation_version) _ _ (take_version-cons invitation_version _)
    ∙ bind-ok take_digest _ _ (take_bytes-append 32 v.agora _ w.agora)
    ∙ bind-ok take_digest _ _ (take_bytes-append 32 v.policy_class _ w.policy_class)
    ∙ bind-ok take_digest _ _ (take_bytes-append 32 v.statement_key _ w.statement_key)
    ∙ bind-ok take_digest _ _ (take_bytes-append 32 v.log_key _ w.log_key)
    ∙ bind-ok take_digest _ _ (take_bytes-append 32 v.fetch_key _ w.fetch_key)
    ∙ bind-ok take_u64 _ _ (take_u64-append v.epoch _ w.epoch)
    ∙ bind-ok take_u64 _ _ (take_u64-append v.interval_seconds _ w.interval_seconds)
    ∙ bind-ok take_u64 _ _ (take_u64-append v.valid_through _ w.valid_through)
    ∙ bind-ok take_framed _ _ (take_framed-append v.server [] w.server)
    ∙ bind-ok (refuse_if (not (is_utf8 v.server))) _ _ (refuse_if-false _ [] (ap not w.utf8))
    ∙ bind-ok (refuse_if (ltb v.valid_through v.epoch)) _ _
        (refuse_if-false _ [] (not_above w.window))
  where
    not_above : {a b : ℕ} → a ≤ b → ltb b a ≡ false
    not_above h = ground arith

joined-fields : (v : Invitation) → joined (fields v) ≡ encoding v
unfolding fields encoding frame
joined-fields v = simp append_assoc refl

length-fields :
    (is_utf8 : Bytes → Bool) (v : Invitation)
    → IsWellFormed is_utf8 v
    → length (joined (fields v)) ≡ encoded_len v
unfolding fields encoded_len
length-fields is_utf8 v w =
    simp
      (
        length-append, length-le_bytes, w.agora, w.policy_class, w.statement_key, w.log_key,
        w.fetch_key,
      )
      (omega arith)

-- Whatever the reader accepts is the encoding of what it answers.
read-inversion :
    (is_utf8 : Bytes → Bool) (bytes : Bytes) (v : Invitation) (left : Bytes)
    → IsBytes bytes
    → read is_utf8 bytes ≡ ok (v, left)
    → (bytes ≡ encoding v) × IsWellFormed is_utf8 v
unfolding read encoding
read-inversion is_utf8 bytes v left all h =
    after_version Q invitation_version _ bytes all h λ r0 a0 f0.
      after_digest (λ r. Q (invitation_version ∷ r)) _ r0 a0 f0
        λ agora r1 w1 a1 f1.
          after_digest (λ r. Q (invitation_version ∷ (agora ++ r))) _ r1 a1 f1
            λ policy_class r2 w2 a2 f2.
              after_digest (λ r. Q (invitation_version ∷ (agora ++ (policy_class ++ r)))) _ r2 a2 f2
                λ statement_key r3 w3 a3 f3.
                  after_digest
                    (λ r.
                      Q (invitation_version ∷ (agora ++ (policy_class ++ (statement_key ++ r)))))
                    _ r3 a3 f3
                    λ log_key r4 w4 a4 f4.
                      after_digest
                        (λ r. Q (
                          invitation_version
                          ∷ (agora ++ (policy_class ++ (statement_key ++ (log_key ++ r))))))
                        _ r4 a4 f4
                        λ fetch_key r5 w5 a5 f5.
                          after_u64
                            (λ r. Q (
                              invitation_version
                              ∷ (agora
                                  ++ (policy_class
                                      ++ (statement_key ++ (log_key ++ (fetch_key ++ r)))))))
                            _ r5 a5 f5
                            λ epoch r6 w6 a6 f6.
                              after_u64
                                (λ r. Q (
                                  invitation_version
                                  ∷ (agora
                                      ++ (policy_class
                                          ++ (statement_key
                                              ++ (log_key
                                                  ++ (fetch_key ++ (le_bytes 8 epoch ++ r))))))))
                                _ r6 a6 f6
                                λ interval_seconds r7 w7 a7 f7.
                                  after_u64
                                    (λ r. Q (
                                      invitation_version
                                      ∷ (agora
                                          ++ (policy_class
                                              ++ (statement_key
                                                  ++ (log_key
                                                      ++ (fetch_key
                                                          ++ (le_bytes 8 epoch
                                                            ++ (le_bytes 8 interval_seconds
                                                            ++ r)))))))))
                                    _ r7 a7 f7
                                    λ valid_through r8 w8 a8 f8.
                                      after_framed
                                        (λ r. Q (
                                          invitation_version
                                          ∷ (agora
                                              ++ (policy_class
                                                  ++ (statement_key
                                                      ++ (log_key
                                                          ++ (fetch_key
                                                            ++ (le_bytes 8 epoch
                                                            ++ (le_bytes 8 interval_seconds
                                                            ++ (le_bytes 8 valid_through
                                                            ++ r))))))))))
                                        _ r8 a8 f8
                                        λ server r9 w9 a9 f9.
                                          after_refuse_if
                                            (λ r. Q (
                                              invitation_version
                                              ∷ (agora
                                                  ++ (policy_class
                                                      ++ (statement_key
                                                          ++ (log_key
                                                            ++ (fetch_key
                                                            ++ (le_bytes 8 epoch
                                                            ++ (le_bytes 8 interval_seconds
                                                            ++ (le_bytes 8 valid_through
                                                            ++ (frame server ++ r)))))))))))
                                            _ _ r9 f9
                                            λ wu fu.
                                              after_end
                                                (λ r. Q (
                                                  invitation_version
                                                  ∷ (agora
                                                      ++ (policy_class
                                                          ++ (statement_key
                                                            ++ (log_key
                                                            ++ (fetch_key
                                                            ++ (le_bytes 8 epoch
                                                            ++ (le_bytes 8 interval_seconds
                                                            ++ (le_bytes 8 valid_through
                                                            ++ (frame server ++ r)))))))))))
                                                _ r9 fu
                                                λ fe.
                                                  after_refuse_if
                                                    (λ r. Q (
                                                      invitation_version
                                                      ∷ (agora
                                                          ++ (policy_class
                                                            ++ (statement_key
                                                            ++ (log_key
                                                            ++ (fetch_key
                                                            ++ (le_bytes 8 epoch
                                                            ++ (le_bytes 8 interval_seconds
                                                            ++ (le_bytes 8 valid_through
                                                            ++ (frame server ++ r)))))))))))
                                                    _ _ [] fe
                                                    λ wv fz.
                                                      subst
                                                        (λ c.
                                                          ((invitation_version
                                                            ∷ (agora
                                                            ++ (policy_class
                                                            ++ (statement_key
                                                            ++ (log_key
                                                            ++ (fetch_key
                                                            ++ (le_bytes 8 epoch
                                                            ++ (le_bytes 8 interval_seconds
                                                            ++ (le_bytes 8 valid_through
                                                            ++ (frame server ++ []))))))))))
                                                            ≡ encoding c)
                                                          × IsWellFormed is_utf8 c)
                                                        (value fz)
                                                        (
                                                          refl,
                                                          record {
                                                            agora = w1;
                                                            policy_class = w2;
                                                            statement_key = w3;
                                                            log_key = w4;
                                                            fetch_key = w5;
                                                            epoch = w6;
                                                            interval_seconds = w7;
                                                            valid_through = w8;
                                                            server = w9;
                                                            utf8 = not-false _ wu;
                                                            window = ltb-false _ _ wv;
                                                          },
                                                        )
  where
    Q : Bytes → Type 0
    Q r = (r ≡ encoding v) × IsWellFormed is_utf8 v

    not-false : (b : Bool) → not b ≡ false → b ≡ true
    not-false b h = ground arith

    value :
        {c : Invitation}
        → ◌≡◌ {A = Outcome (Invitation × Bytes)} (ok (c, [])) (ok (v, left))
        → c ≡ v
    value h = ground arith

Invitation-IsFormat :
    (is_utf8 : Bytes → Bool) → IsFormat (IsWellFormed is_utf8) encoded_len fields (read is_utf8)
Invitation-IsFormat is_utf8 = record {
  width = length-fields is_utf8;
  reads = λ v w. rw (joined-fields v) (read-encoding is_utf8 v w);
  canonical = λ bytes v left all h.
      let (printed, w) = read-inversion is_utf8 bytes v left all h in
      (printed ∙ sym (joined-fields v), w);
}

-- For an invitation of well-formed fields that does not end before its epoch, and any buffer that
-- holds `encoded_len`: `encode` answers that length, and `decode` reads the invitation back from
-- the bytes it wrote.
pub decode-encode_invitation :
    (is_utf8 : Bytes → Bool) (v : Invitation) (out : Bytes)
    → IsWellFormed is_utf8 v
    → encoded_len v ≤ length out
    → ((encode v out).0 ≡ ok (encoded_len v))
      × (decode is_utf8 (take (encoded_len v) (encode v out).1) ≡ ok v)
unfolding encode decode
decode-encode_invitation is_utf8 v out w room =
    decoded-encode_into (Invitation-IsFormat is_utf8) v out w room

-- The encoding is canonical: whatever bytes `decode` accepts, `encode` writes the invitation it
-- answers back as exactly those bytes, into any buffer of their length.
pub encode-decode_invitation :
    (is_utf8 : Bytes → Bool) (bytes : Bytes) (v : Invitation) (out : Bytes)
    → IsBytes bytes
    → decode is_utf8 bytes ≡ ok v
    → length out ≡ length bytes
    → encode v out ≡ (ok (length bytes), bytes)
unfolding encode decode
encode-decode_invitation is_utf8 bytes v out all h size =
    encode_into-decoded (Invitation-IsFormat is_utf8) bytes v out all h size
