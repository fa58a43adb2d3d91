-- ===== src/Operator/Envelope.antt =====
-- nymora-protocol/src/operator/mod.rs: the body and the envelope of the current epoch, and
-- `inbox_live` of operator/inbox.rs, which decides whom an envelope reaches.
pub mod Delivery
pub mod Opens
pub mod Receives
use nymora.Prelude.{
  ℕ, ◌-◌, ◌%◌, ◌&&◌, ◌||◌, Option, none, some, List, [], ◌∷◌, ◌++◌, map, ltb, ◌==◌, if◌then◌else◌,
  contains, length, take, replicate,
}
use nymora.Prelude.Map
use nymora.Prelude.Map.{Map}
use nymora.Prelude.Bytes.{Bytes, le_bytes, be_bytes}
use nymora.Core.Error.{Outcome, ok, err, panic}
use nymora.Crypto.Primitives.{Primitives}
use nymora.Crypto.Inbox
use nymora.Accumulator.Witness.{Witness}
use nymora.Accumulator.Tree
use nymora.Accumulator.Exclusion
use nymora.Bulletin
use nymora.Bulletin.{EnvelopeStatement}
use nymora.Operator.Log.{SignedHead}
use nymora.Operator.State.{AgoraState, ClassState, live}

pub record Body : Type 0 where
  pub epoch : ℕ
  pub class_roots : Map Bytes
  pub revocation_root : Bytes
  pub spend_root : Bytes
  pub revoked : List Bytes
  pub spent : List Bytes
  pub tag_key : Bytes
  pub fetch_key : Bytes

unfoldable pub encode_class_roots : Map Bytes → Bytes
encode_class_roots [] = []
encode_class_roots ((c, root) ∷ rest) = be_bytes 32 c ++ root ++ encode_class_roots rest

unfoldable pub encode_entries : List Bytes → Bytes
encode_entries [] = []
encode_entries (entry ∷ rest) = entry ++ encode_entries rest

-- `Body::encode`
unfoldable pub encode : Body → Bytes
encode b =
    le_bytes 8 b.epoch
    ++ le_bytes 8 (length b.class_roots)
    ++ encode_class_roots b.class_roots
    ++ b.revocation_root
    ++ b.spend_root
    ++ le_bytes 8 (length b.revoked)
    ++ encode_entries b.revoked
    ++ le_bytes 8 (length b.spent)
    ++ encode_entries b.spent
    ++ b.tag_key
    ++ b.fetch_key

pub record Ciphertext : Type 0 where
  pub tag : Bytes
  pub bytes : Bytes

pub record Envelope : Type 0 where
  pub epoch : ℕ
  pub ephemeral_key : Bytes
  pub body : Bytes
  pub ciphertexts : List Ciphertext
  pub head : Option SignedHead
  pub signature : Bytes

-- `inbox_live`: registered, not revoked, and inside the horizon.
unfoldable pub inbox_live : ℕ → AgoraState → Option Bytes
inbox_live leaf s =
    if contains leaf s.revoked_leaves then none else elim (Map.lookup leaf s.inboxes) [
      | none ↦ none
      | some r ↦ if ltb (s.epoch - r.since) s.inbox_horizon then some r.key else none
    ]

-- The sort of `(position, leaf)` pairs.
unfoldable pub place_pair : ℕ × ℕ → List (ℕ × ℕ) → List (ℕ × ℕ)
place_pair x [] = x ∷ []
place_pair (p, l) ((q, m) ∷ rest) =
    if ltb p q || (p == q && ltb l m)
    then (p, l) ∷ (q, m) ∷ rest
    else (q, m) ∷ place_pair (p, l) rest

-- `positions.iter()` with each pair turned round, sorted.
unfoldable pub by_position : Map ℕ → List (ℕ × ℕ)
by_position [] = []
by_position ((leaf, position) ∷ rest) = place_pair (position, leaf) (by_position rest)

unfoldable pub last_signed : List SignedHead → Option SignedHead
last_signed [] = none
last_signed (h ∷ []) = some h
last_signed (h ∷ k ∷ rest) = last_signed (k ∷ rest)

module _ (prim : Primitives) (depth : ℕ) where
  -- `fetch_key_now`
  unfoldable pub fetch_key_now : AgoraState → Bytes
  fetch_key_now s = Inbox.derive_fetch_key prim s.tag_secret s.agora s.epoch

  -- `tag_key_now`
  unfoldable pub tag_key_now : AgoraState → Bytes
  tag_key_now s = Inbox.derive_tag_key prim s.tag_secret s.agora s.epoch

  -- `body_now`: indexing the history panics where the epoch has no snapshot.
  unfoldable pub body_now : AgoraState → Outcome Body
  body_now s = elim (Map.lookup s.epoch s.history) [
    | none ↦ panic
    | some snap ↦ ok (record {
      epoch = s.epoch;
      class_roots = snap.class_roots;
      revocation_root = snap.revocation;
      spend_root = snap.spend;
      revoked = Exclusion.keys s.revocations;
      spent = Exclusion.keys s.spends;
      tag_key = tag_key_now s;
      fetch_key = fetch_key_now s;
    })
  ]

  -- What a member's ciphertext seals: `K_body ‖ position ‖ height ‖ path`. The source slices
  -- `siblings()[..height]`, which would panic where the height exceeds the path; `take` stops at
  -- the path's end there. A tree's occupied height is at most the depth of its paths.
  unfoldable pub own_plain : Bytes → ℕ → ℕ → Witness → Bytes
  own_plain body_key position height w =
      body_key
      ++ le_bytes 8 position
      ++ (height % 256 ∷ [])
      ++ encode_entries (take height w.siblings)

  -- One round of the ciphertext loop; `none` is a `continue`.
  unfoldable pub ciphertext_for :
      AgoraState → Bytes → Bytes → ℕ → ClassState → ℕ × ℕ → Option Ciphertext
  ciphertext_for s ephemeral_secret body_key c state (position, leaf) = elim (inbox_live leaf s) [
    | none ↦ none
    | some inbox ↦ elim (Inbox.agree prim ephemeral_secret inbox) [
      | none ↦ none
      | some agreed ↦ elim (Tree.witness prim.fld depth state.tree position) [
        | none ↦ none
        | some w ↦
            let ephemeral_key = Inbox.inbox_public_key prim ephemeral_secret in
            let height = Tree.occupied_height state.tree in
            let key = Inbox.seal_key prim agreed ephemeral_key inbox c in
            let (sealed, tag) =
              Inbox.seal_in_place prim key (Inbox.associated_data prim s.agora s.epoch)
                (own_plain body_key position height w) in
            some (record {
              tag = Inbox.lookup_tag prim agreed ephemeral_key inbox c;
              bytes = sealed ++ tag;
            })
      ]
    ]
  ]

  unfoldable pub class_ciphertexts :
      AgoraState → Bytes → Bytes → ℕ → ClassState → List (ℕ × ℕ) → List Ciphertext
  class_ciphertexts s ephemeral_secret body_key c state [] = []
  class_ciphertexts s ephemeral_secret body_key c state (row ∷ rows) =
      let others = class_ciphertexts s ephemeral_secret body_key c state rows in
      elim (ciphertext_for s ephemeral_secret body_key c state row) [
        | none ↦ others
        | some ciphertext ↦ ciphertext ∷ others
      ]

  unfoldable pub all_ciphertexts : AgoraState → Bytes → Bytes → Map ClassState → List Ciphertext
  all_ciphertexts s ephemeral_secret body_key [] = []
  all_ciphertexts s ephemeral_secret body_key ((c, state) ∷ rest) =
      class_ciphertexts s ephemeral_secret body_key c state (by_position state.positions)
      ++ all_ciphertexts s ephemeral_secret body_key rest

  -- `Envelope::statement`
  unfoldable pub statement : ℕ → Envelope → EnvelopeStatement
  statement agora e = record {
    agora = agora;
    epoch = e.epoch;
    ephemeral_key = e.ephemeral_key;
    body = e.body;
    ciphertexts_digest =
        Bulletin.ciphertexts_digest prim (map (λ (c : Ciphertext). (c.tag, c.bytes)) e.ciphertexts);
    head = e.head;
  }

  -- The last lines of `envelope_now`: the digest of the unsigned envelope is signed.
  unfoldable pub sign_envelope : AgoraState → Envelope → Envelope
  sign_envelope s e = record e {
    signature =
        prim.sign s.statement_seed (prim.from_id (Bulletin.digest prim (statement s.agora e)));
  }

  unfoldable pub envelope_now : AgoraState → Outcome Envelope
  envelope_now s =
      let ephemeral_secret = Inbox.derive_ephemeral_secret prim s.tag_secret s.agora s.epoch in
      let body_key = Inbox.derive_body_key prim s.tag_secret s.agora s.epoch in
      let head : Option SignedHead = elim s.log [
        | none ↦ none
        | some log ↦ last_signed log.heads
      ] in
      elim (body_now s) [
        | panic ↦ panic
        | err e ↦ err e
        | ok body ↦
            let (sealed, tag) =
              Inbox.seal_in_place prim body_key (Inbox.associated_data prim s.agora s.epoch)
                (encode body) in
            ok (
              sign_envelope s (record {
                epoch = s.epoch;
                ephemeral_key = Inbox.inbox_public_key prim ephemeral_secret;
                body = sealed ++ tag;
                ciphertexts = all_ciphertexts s ephemeral_secret body_key s.classes;
                head = head;
                signature = replicate 64 0;
              }))
      ]

  -- `statement_key`
  unfoldable pub statement_key : AgoraState → Bytes
  statement_key s = prim.public_key s.statement_seed

  -- `current_envelope`
  unfoldable pub current_envelope : AgoraState → Outcome Envelope
  current_envelope s = elim (live s) [ panic ↦ panic | err e ↦ err e | ok _ ↦ envelope_now s ]

  -- `current_body`
  unfoldable pub current_body : AgoraState → Outcome Body
  current_body s = elim (live s) [ panic ↦ panic | err e ↦ err e | ok _ ↦ body_now s ]
