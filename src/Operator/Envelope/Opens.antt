-- ===== src/Operator/Envelope/Opens.antt =====
-- What the operator seals, a member opens.
use nymora.Prelude.{
  ℕ, ◌-◌, ◌*◌, ◌^◌, ◌<◌, ◌≡◌, refl, ap, ◌∙◌, true, not, some, List, [], ◌∷◌, ◌++◌, arith, leb, ◌==◌,
  length, take-append, drop-append, length-append, append_assoc, append-nil, All,
}
use nymora.Prelude.Map.{Map}
use nymora.Prelude.Bytes.{Bytes, le_bytes, length-be_bytes}
use nymora.Core.Error.{ok}
use nymora.Crypto.Primitives.{Primitives}
use nymora.Crypto.Inbox
use nymora.Wire.Reader.{decoded, refuse_if, take_digest, take_u64, take_entries, take_end}
use nymora.Wire.Reader.Prints.{
  bind-ok, refuse_if-false, take_bytes-append, take_u64-append, take_entries-append,
}
use nymora.Bulletin.Member.{BodyView, read_body, open_sealed, open_body, opened}
use nymora.Operator.Envelope.{Body, encode, encode_class_roots, encode_entries}

-- Authenticated encryption opens what it sealed, and its tag is 16 bytes.
abbrev pub Seals : Primitives → Type 0
Seals prim =
    (key associated text : Bytes)
    → (length (prim.encrypt key associated text).1 ≡ 16)
      × (prim.decrypt key associated (prim.encrypt key associated text).0
            (prim.encrypt key associated text).1
          ≡ some text)

abbrev pub IsRoot : ℕ × Bytes → Type 0
IsRoot (c, root) = length root ≡ 32

abbrev pub IsEntry : Bytes → Type 0
IsEntry entry = length entry ≡ 32

-- A body of digests, whose epoch and counts are `u64`s.
pub record IsBody (b : Body) : Type 0 where
  pub epoch : b.epoch < 2 ^ 64
  pub class_roots : All IsRoot b.class_roots
  pub revoked : All IsEntry b.revoked
  pub spent : All IsEntry b.spent
  pub revocation_root : length b.revocation_root ≡ 32
  pub spend_root : length b.spend_root ≡ 32
  pub tag_key : length b.tag_key ≡ 32
  pub fetch_key : length b.fetch_key ≡ 32
  pub class_bytes : length b.class_roots * 64 < 2 ^ 64
  pub revoked_bytes : length b.revoked * 32 < 2 ^ 64
  pub spent_bytes : length b.spent * 32 < 2 ^ 64

-- The view of a body.
abbrev pub view : Body → BodyView
view b = record {
  epoch = b.epoch;
  class_roots = encode_class_roots b.class_roots;
  revocation_root = b.revocation_root;
  spend_root = b.spend_root;
  revoked = encode_entries b.revoked;
  spent = encode_entries b.spent;
  tag_key = b.tag_key;
  fetch_key = b.fetch_key;
}

length-encode_class_roots :
    (roots : Map Bytes)
    → All IsRoot roots
    → length (encode_class_roots roots) ≡ length roots * (2 * 32)
unfolding encode_class_roots
length-encode_class_roots [] h = omega arith
length-encode_class_roots ((c, root) ∷ rest) (wide, all) =
    let tail = length-encode_class_roots rest all in
    simp (length-append, length-be_bytes, wide) (omega (arith, tail))

pub length-encode_entries :
    (entries : List Bytes)
    → All IsEntry entries
    → length (encode_entries entries) ≡ length entries * 32
unfolding encode_entries
length-encode_entries [] h = omega arith
length-encode_entries (entry ∷ rest) (wide, all) =
    let tail = length-encode_entries rest all in simp (length-append, wide) (omega (arith, tail))

-- The encoding, with its last parts together.
encode-parts :
    (b : Body)
    → encode b
      ≡ le_bytes 8 b.epoch
        ++ (le_bytes 8 (length b.class_roots)
            ++ (encode_class_roots b.class_roots
                ++ (b.revocation_root
                    ++ (b.spend_root
                        ++ (le_bytes 8 (length b.revoked)
                            ++ (encode_entries b.revoked
                                ++ (le_bytes 8 (length b.spent)
                                    ++ (encode_entries b.spent
                                        ++ (b.tag_key ++ (b.fetch_key ++ []))))))))))
unfolding encode
encode-parts b = simp (append_assoc, append-nil) refl

read_body-encode : (b : Body) → IsBody b → read_body b.epoch (encode b) ≡ ok (view b, [])
unfolding read_body take_digest take_end
read_body-encode b w =
    let roots = length-encode_class_roots b.class_roots w.class_roots in
    let revoked = length-encode_entries b.revoked w.revoked in
    let spent = length-encode_entries b.spent w.spent in
    ap (read_body b.epoch) (encode-parts b)
    ∙ bind-ok take_u64 _ _ (take_u64-append b.epoch _ w.epoch)
    ∙ bind-ok (refuse_if (not (b.epoch == b.epoch))) _ _ (refuse_if-false _ _ (ground arith))
    ∙ bind-ok take_u64 _ _ (take_u64-append (length b.class_roots) _ (omega (arith, w.class_bytes)))
    ∙ bind-ok (take_entries (length b.class_roots) (2 * 32)) _ _ (
        take_entries-append _ _ (encode_class_roots b.class_roots) _ roots
          (omega (arith, roots, w.class_bytes)))
    ∙ bind-ok take_digest _ _ (take_bytes-append 32 b.revocation_root _ w.revocation_root)
    ∙ bind-ok take_digest _ _ (take_bytes-append 32 b.spend_root _ w.spend_root)
    ∙ bind-ok take_u64 _ _ (take_u64-append (length b.revoked) _ (omega (arith, w.revoked_bytes)))
    ∙ bind-ok (take_entries (length b.revoked) 32) _ _ (
        take_entries-append _ _ (encode_entries b.revoked) _ revoked
          (omega (arith, revoked, w.revoked_bytes)))
    ∙ bind-ok take_u64 _ _ (take_u64-append (length b.spent) _ (omega (arith, w.spent_bytes)))
    ∙ bind-ok (take_entries (length b.spent) 32) _ _ (
        take_entries-append _ _ (encode_entries b.spent) _ spent
          (omega (arith, spent, w.spent_bytes)))
    ∙ bind-ok take_digest _ _ (take_bytes-append 32 b.tag_key _ w.tag_key)
    ∙ bind-ok take_digest _ _ (take_bytes-append 32 b.fetch_key _ w.fetch_key)

module _ (prim : Primitives) where
  -- A sealed text, with its tag appended, is opened under the same key, agora and epoch.
  pub open_sealed-seal :
      (key : Bytes) (agora epoch : ℕ) (text : Bytes)
      → Seals prim
      → open_sealed prim key agora epoch (
          (Inbox.seal_in_place prim key (Inbox.associated_data prim agora epoch) text).0
          ++ (Inbox.seal_in_place prim key (Inbox.associated_data prim agora epoch) text).1)
        ≡ some text
  unfolding open_sealed Inbox.seal_in_place Inbox.open_in_place
  open_sealed-seal key agora epoch text seals =
      let associated = Inbox.associated_data prim agora epoch in
      let (wide, opens) = seals key associated text in
      let (c, t) = prim.encrypt key associated text in
      let room : leb 16 (length (c ++ t)) ≡ true = ground (arith, length-append c t) in
      let size : length (c ++ t) - 16 ≡ length c = omega (arith, length-append c t) in
      rw (room, size, take-append c t, drop-append c t) opens

  -- What the operator seals as the body of an epoch, a member that holds the body key opens: the
  -- view has the body's epoch, roots, entries and keys. The body's digests are 32 bytes, and the
  -- cipher opens what it sealed.
  pub open_body-encode :
      (body_key : Bytes) (agora : ℕ) (b : Body)
      → Seals prim
      → IsBody b
      → open_body prim body_key agora b.epoch (
          (Inbox.seal_in_place prim body_key
            (Inbox.associated_data prim agora b.epoch)
            (encode b)).0
          ++ (Inbox.seal_in_place prim body_key
              (Inbox.associated_data prim agora b.epoch)
              (encode b)).1)
        ≡ ok (view b)
  unfolding open_body opened
  open_body-encode body_key agora b seals w =
      ap (λ o. opened o (λ plain. decoded (read_body b.epoch plain)))
        (open_sealed-seal body_key agora b.epoch (encode b) seals)
      ∙ ap (λ o. decoded o) (read_body-encode b w)
