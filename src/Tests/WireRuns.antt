-- ===== src/Tests/WireRuns.antt =====
-- The wire formats at concrete values.
use nymora.Prelude.{ℕ, ◌≡◌, refl, Bool, true, ◌&&◌, [], ◌∷◌, ◌++◌, arith, take, replicate, ltb}
use nymora.Prelude.Bytes.{Bytes, IsBytes, le_value}
use nymora.Core.Error.{ok}
use nymora.Wire.Reader.{take_version, take_digest, take_bytes, take_framed, take_u64, take_end}
use nymora.Wire.Bundle
use nymora.Wire.Bundle.{Bundle}
use nymora.Wire.Invitation
use nymora.Wire.Invitation.{Invitation}
use nymora.Wire.Bundle.RoundTrip.{decode-encode_bundle}
use nymora.Wire.Invitation.RoundTrip.{encode-decode_invitation}

abbrev are_bytes : Bytes → Bool
are_bytes [] = true
are_bytes (b ∷ bytes) = ltb b 256 && are_bytes bytes

are_bytes-IsBytes : (bytes : Bytes) → are_bytes bytes ≡ true → IsBytes bytes
are_bytes-IsBytes [] h = tt
are_bytes-IsBytes (b ∷ bytes) h =
    let rest : are_bytes bytes ≡ true = ground arith in (ground arith, are_bytes-IsBytes bytes rest)

abbrev sample : Bundle
sample = record {
  content = 1 ∷ 2 ∷ [];
  tag = replicate 32 3;
  attestation = record {
    proof = 4 ∷ [];
    message_hash = replicate 32 5;
    nullifier = replicate 32 6;
  };
}

decode-encode_bundle_example :
    ((Bundle.encode sample (replicate 120 0)).0 ≡ ok (Bundle.encoded_len sample))
    × (Bundle.decode (take (Bundle.encoded_len sample) (Bundle.encode sample (replicate 120 0)).1)
        ≡ ok sample)
unfolding Bundle.encoded_len
decode-encode_bundle_example =
    decode-encode_bundle sample (replicate 120 0)
      (record {
        content = omega arith;
        proof = omega arith;
        tag = refl;
        message_hash = refl;
        nullifier = refl;
      })
      (omega arith)

abbrev invitation : Invitation
invitation = record {
  agora = replicate 32 1;
  policy_class = replicate 32 2;
  statement_key = replicate 32 3;
  log_key = replicate 32 0;
  fetch_key = replicate 32 4;
  epoch = 5;
  interval_seconds = 6;
  valid_through = 7;
  server = 104 ∷ 105 ∷ [];
}

abbrev number : ℕ → Bytes
number n = n ∷ replicate 7 0

abbrev invitation_bytes : Bytes
invitation_bytes =
    1 ∷ replicate 32 1
    ++ (replicate 32 2
        ++ (replicate 32 3
            ++ (replicate 32 0
                ++ (replicate 32 4
                    ++ (number 5 ++ (number 6 ++ (number 7 ++ (number 2 ++ (104 ∷ 105 ∷ [])))))))))

abbrev is_ascii : Bytes → Bool
is_ascii [] = true
is_ascii (b ∷ bytes) = ltb b 128 && is_ascii bytes

invitation_reads : Invitation.decode is_ascii invitation_bytes ≡ ok invitation
unfolding Invitation.decode Invitation.read take_version take_digest take_bytes take_framed take_u64
    take_end le_value
invitation_reads = refl

encode-decode_invitation_example :
    Invitation.encode invitation (replicate 195 0) ≡ (ok 195, invitation_bytes)
encode-decode_invitation_example =
    encode-decode_invitation is_ascii invitation_bytes invitation (replicate 195 0)
      (are_bytes-IsBytes invitation_bytes refl) invitation_reads refl
