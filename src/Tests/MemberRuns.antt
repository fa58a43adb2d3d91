-- ===== src/Tests/MemberRuns.antt =====
-- What a member opens, at concrete values.
use nymora.Prelude.{
  ℕ, ◌+◌, ◌≡◌, refl, ap, Option, some, List, [], ◌∷◌, ◌++◌, arith, length, replicate, take,
  bytes_eq,
}
use nymora.Prelude.Bytes.{Bytes}
use nymora.Core.Error.{ok}
use nymora.Crypto.Primitives.{Primitives}
use nymora.Crypto.Inbox
use nymora.Accumulator.Tree
use nymora.Accumulator.Witness.{Witness}
use nymora.Bulletin.Member.{own_lookup_tag, open_own_ciphertext, open_body}
use nymora.Operator.State.{pad}
use nymora.Operator.Envelope.{Body, Ciphertext, encode, encode_entries, ciphertext_for, inbox_live}
use nymora.Operator.Envelope.Opens.{Seals, IsBody, view, open_body-encode}
use nymora.Operator.Envelope.Receives.{Agrees, ciphertext_for-opens}
use nymora.Tests.OperatorRuns.{agora, guild}

-- Text in the clear with a tag of 16 bytes, and an agreement that adds lengths.
abbrev clear : Primitives
clear = record {
  fld = record {
    F = Bytes;
    to_bytes = λ x. x;
    from_witness_bytes = λ x. x;
    from_u64 = λ n. n ∷ [];
    hash = λ _. 9 ∷ [];
  };
  sha256 = λ x. length x ∷ [];
  hkdf = λ ikm info. length info ∷ [];
  x25519_public = λ x. x;
  x25519 = λ secret public. some ((length secret + length public) ∷ []);
  encrypt = λ key associated text. (text, replicate 16 0);
  decrypt = λ key associated text tag. some text;
  mint_signing_secret = λ x. x;
  public_key = λ x. x;
  sign = λ sk m. sk ++ m;
  verify = λ pk m signature. bytes_eq signature (pk ++ m);
  from_id = λ x. x;
}

clear-Seals : Seals clear
clear-Seals key associated text = (refl, refl)

clear-Agrees : Agrees clear
clear-Agrees a b = ap (λ n. some (n ∷ [])) (swap (length a) (length b))
  where
    swap : (m n : ℕ) → m + n ≡ n + m
    swap m n = omega arith

abbrev body : Body
body = record {
  epoch = 3;
  class_roots = (5, replicate 32 1) ∷ [];
  revocation_root = replicate 32 2;
  spend_root = replicate 32 3;
  revoked = replicate 32 4 ∷ [];
  spent = [];
  tag_key = replicate 32 5;
  fetch_key = replicate 32 6;
}

body-IsBody : IsBody body
body-IsBody = record {
  epoch = omega arith;
  class_roots = (refl, tt);
  revoked = (refl, tt);
  spent = tt;
  revocation_root = refl;
  spend_root = refl;
  tag_key = refl;
  fetch_key = refl;
  class_bytes = omega arith;
  revoked_bytes = omega arith;
  spent_bytes = omega arith;
}

open_body-encode_example :
    open_body clear (8 ∷ []) 1 3 (
      (Inbox.seal_in_place clear (8 ∷ []) (Inbox.associated_data clear 1 3) (encode body)).0
      ++ (Inbox.seal_in_place clear (8 ∷ []) (Inbox.associated_data clear 1 3) (encode body)).1)
    ≡ ok (view body)
open_body-encode_example = open_body-encode clear (8 ∷ []) 1 body clear-Seals body-IsBody

abbrev path : Witness
path = record { index = 0; siblings = pad ∷ (9 ∷ []) ∷ (9 ∷ []) ∷ [] }

abbrev made : Ciphertext
made =
    elim (ciphertext_for clear 3 agora (7 ∷ []) (replicate 32 8) 5 guild (0, 7))
      as (λ _. Ciphertext) [ some c ↦ c | _ ↦ record { tag = []; bytes = [] } ]

leaf_lives : inbox_live 7 agora ≡ some (Inbox.inbox_public_key clear (4 ∷ []))
unfolding inbox_live Inbox.inbox_public_key nymora.Prelude.Map.lookup
leaf_lives = refl

path_found : Tree.witness clear.fld 3 guild.tree 0 ≡ some path
unfolding Tree.witness nymora.Accumulator.Witness.new Tree.siblings_from Tree.occupied_level
    Tree.sibling_index Tree.pair_up nymora.Accumulator.Witness.empty_node
    nymora.Accumulator.Witness.empty_above nymora.Accumulator.Witness.hash_node
path_found = refl

ciphertext_made : ciphertext_for clear 3 agora (7 ∷ []) (replicate 32 8) 5 guild (0, 7) ≡ some made
unfolding ciphertext_for inbox_live nymora.Prelude.Map.lookup Inbox.agree Tree.witness
    nymora.Accumulator.Witness.new
ciphertext_made = refl

ciphertext_for-opens_example :
    (own_lookup_tag clear (4 ∷ []) (Inbox.inbox_public_key clear (7 ∷ [])) 5 ≡ some made.tag)
    × (open_own_ciphertext clear (4 ∷ []) (Inbox.inbox_public_key clear (7 ∷ [])) 1 3 5 made.bytes
        ≡ ok (record {
          body_key = replicate 32 8;
          position = 0;
          path = encode_entries (take (Tree.occupied_height guild.tree) path.siblings);
        }))
unfolding Tree.occupied_height Tree.bit_length
ciphertext_for-opens_example =
    ciphertext_for-opens clear 3 agora (7 ∷ []) (replicate 32 8) (4 ∷ []) 5 guild 0 7 path made
      clear-Seals clear-Agrees refl (omega arith) (omega arith) refl (refl, tt) leaf_lives
      path_found ciphertext_made
