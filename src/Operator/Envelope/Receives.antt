-- ===== src/Operator/Envelope/Receives.antt =====
-- A member finds and opens the ciphertext that the operator made for their leaf.
use nymora.Prelude.{
  ℕ, ◌+◌, ◌*◌, ◌%◌, ◌^◌, ◌<◌, ◌≡◌, refl, sym, ap, ◌∙◌, false, not, inl, inr, none, some,
  Option-cases, [], ◌∷◌, ◌++◌, arith, ltb, ◌==◌, length, take, drop, take-append, drop-append,
  length-append, append_assoc, All,
}
use nymora.Prelude.Bytes.{Bytes, le_bytes, le_value, length-le_bytes, le_value-le_bytes}
use nymora.Core.Error.{ok}
use nymora.Crypto.Primitives.{Primitives}
use nymora.Crypto.Inbox
use nymora.Bulletin.Member.{
  open_sealed, opened, parse_own, own_path, own_lookup_tag, open_own_ciphertext,
}
use nymora.Accumulator.Tree
use nymora.Accumulator.Witness.{Witness}
use nymora.Operator.State.{AgoraState, ClassState}
use nymora.Operator.Envelope.{Ciphertext, encode_entries, inbox_live, own_plain, ciphertext_for}
use nymora.Operator.Envelope.Opens.{Seals, IsEntry, length-encode_entries, open_sealed-seal}

-- Both ends of a key agreement derive the same secret.
abbrev pub Agrees : Primitives → Type 0
Agrees prim =
    (a b : Bytes) → prim.x25519 a (prim.x25519_public b) ≡ prim.x25519 b (prim.x25519_public a)

-- A plaintext of the operator's shape is read back.
parse_own-parts :
    (body_key : Bytes) (position height : ℕ) (path : Bytes)
    → length body_key ≡ 32
    → position < 2 ^ 64
    → length path ≡ height * 32
    → parse_own (body_key ++ (le_bytes 8 position ++ (height ∷ path)))
      ≡ ok (record { body_key = body_key; position = position; path = path })
unfolding parse_own own_path
parse_own-parts body_key position height path wide small sized =
    let place = le_bytes 8 position in
    let rest = place ++ (height ∷ path) in
    let eight : length place ≡ 8 = length-le_bytes 8 position in
    let room : ltb (length (body_key ++ rest)) (32 + 8 + 1) ≡ false =
      ground (arith, length-append body_key rest, length-append place (height ∷ path)) in
    let key : take 32 (body_key ++ rest) ≡ body_key =
      ap (λ n. take n (body_key ++ rest)) (sym wide) ∙ take-append body_key rest in
    let after : drop 32 (body_key ++ rest) ≡ rest =
      ap (λ n. drop n (body_key ++ rest)) (sym wide) ∙ drop-append body_key rest in
    let number : take 8 rest ≡ place =
      ap (λ n. take n rest) (sym eight) ∙ take-append place (height ∷ path) in
    let tail : drop 8 rest ≡ height ∷ path =
      ap (λ n. drop n rest) (sym eight) ∙ drop-append place (height ∷ path) in
    let back : le_value place ≡ position = le_value-le_bytes 8 position (omega arith) in
    let whole : not (length path == height * 32) ≡ false = ground arith in
    rw (room, key, after, number, tail, back, whole) refl

module _ (prim : Primitives) where
  agree_sym :
      (agrees : Agrees prim) (x y : Bytes)
      → Inbox.agree prim y (Inbox.inbox_public_key prim x)
        ≡ Inbox.agree prim x (Inbox.inbox_public_key prim y)
  unfolding Inbox.agree Inbox.inbox_public_key
  agree_sym agrees x y = agrees y x

  own_lookup_tag-agreed :
      (secret ephemeral : Bytes) (c : ℕ) (agreed : Bytes)
      → Inbox.agree prim secret ephemeral ≡ some agreed
      → own_lookup_tag prim secret ephemeral c
        ≡ some (Inbox.lookup_tag prim agreed ephemeral (Inbox.inbox_public_key prim secret) c)
  unfolding own_lookup_tag Inbox.lookup_tag
  own_lookup_tag-agreed secret ephemeral c agreed e = rw (own_lookup_tag, e) refl

  open_own-agreed :
      (secret ephemeral : Bytes) (agora epoch c : ℕ) (buffer agreed : Bytes)
      → Inbox.agree prim secret ephemeral ≡ some agreed
      → open_own_ciphertext prim secret ephemeral agora epoch c buffer
        ≡ opened
            (open_sealed prim
              (Inbox.seal_key prim agreed ephemeral (Inbox.inbox_public_key prim secret) c)
              agora
              epoch
              buffer)
            parse_own
  unfolding opened open_own_ciphertext open_sealed
  open_own-agreed secret ephemeral agora epoch c buffer agreed e = rw (open_own_ciphertext, e) refl

  parse_own-own_plain :
      (depth : ℕ) (body_key : Bytes) (position height : ℕ) (w : Witness)
      → length body_key ≡ 32
      → position < 2 ^ 64
      → height < 256
      → length (take height w.siblings) ≡ height
      → All IsEntry (take height w.siblings)
      → parse_own (own_plain prim depth body_key position height w)
        ≡ ok (record {
          body_key = body_key;
          position = position;
          path = encode_entries (take height w.siblings);
        })
  unfolding own_plain
  parse_own-own_plain depth body_key position height w wide small low levels entries =
      let path = encode_entries (take height w.siblings) in
      let byte : height % 256 ≡ height = omega arith in
      let sized : length path ≡ height * 32 =
        length-encode_entries (take height w.siblings) entries ∙ ap (λ n. n * 32) levels in
      ap (λ x. parse_own (body_key ++ le_bytes 8 position ++ (x ∷ []) ++ path)) byte
      ∙ ap parse_own (regroup body_key (le_bytes 8 position) height path)
      ∙ parse_own-parts body_key position height path wide small sized
    where
      regroup :
          (k p : Bytes) (x : ℕ) (path : Bytes) → k ++ p ++ (x ∷ []) ++ path ≡ k ++ (p ++ (x ∷ path))
      regroup k p x path = simp append_assoc refl

  -- A ciphertext that the operator makes for a live leaf is found and opened by the member that
  -- holds the secret of the registered inbox key: under the envelope's ephemeral key, the member's
  -- lookup tag is the ciphertext's, and the ciphertext opens to the body key, the position and the
  -- path of the leaf's witness up to the occupied height. The two ends of an agreement agree, the
  -- cipher opens what it sealed, and the path has a digest for each level.
  pub ciphertext_for-opens :
      (depth : ℕ) (s : AgoraState) (ephemeral_secret body_key inbox_secret : Bytes) (c : ℕ)
      (state : ClassState) (position leaf : ℕ) (w : Witness) (made : Ciphertext)
      → Seals prim
      → Agrees prim
      → length body_key ≡ 32
      → position < 2 ^ 64
      → Tree.occupied_height state.tree < 256
      → length (take (Tree.occupied_height state.tree) w.siblings) ≡ Tree.occupied_height state.tree
      → All IsEntry (take (Tree.occupied_height state.tree) w.siblings)
      → inbox_live leaf s ≡ some (Inbox.inbox_public_key prim inbox_secret)
      → Tree.witness prim.fld depth state.tree position ≡ some w
      → ciphertext_for prim depth s ephemeral_secret body_key c state (position, leaf) ≡ some made
      → (own_lookup_tag prim inbox_secret (Inbox.inbox_public_key prim ephemeral_secret) c
          ≡ some made.tag)
        × (open_own_ciphertext prim inbox_secret
              (Inbox.inbox_public_key prim ephemeral_secret)
              s.agora
              s.epoch
              c
              made.bytes
            ≡ ok (record {
              body_key = body_key;
              position = position;
              path = encode_entries (take (Tree.occupied_height state.tree) w.siblings);
            }))
  unfolding ciphertext_for opened parse_own
  ciphertext_for-opens depth s ephemeral_secret body_key inbox_secret c state position leaf w made
        seals agrees wide small low levels entries live found h =
      let inbox = Inbox.inbox_public_key prim inbox_secret in
      let ephemeral = Inbox.inbox_public_key prim ephemeral_secret in
      elim (Option-cases (Inbox.agree prim ephemeral_secret inbox)) [
        | inl apart ↦
            let impossible : none ≡ some made = rw (ciphertext_for, live, apart) at h in
            ground arith
        | inr (agreed, e) ↦
            let both : Inbox.agree prim inbox_secret ephemeral ≡ some agreed =
              agree_sym agrees ephemeral_secret inbox_secret ∙ e in
            let key = Inbox.seal_key prim agreed ephemeral inbox c in
            let text = own_plain prim depth body_key position (Tree.occupied_height state.tree) w in
            let sealed =
              Inbox.seal_in_place prim key (Inbox.associated_data prim s.agora s.epoch) text in
            let made_of : some (record {
              tag = Inbox.lookup_tag prim agreed ephemeral inbox c;
              bytes = sealed.0 ++ sealed.1;
            })
                ≡ some made =
              rw (ciphertext_for, live, e, found) at h in
            let same : record {
              tag = Inbox.lookup_tag prim agreed ephemeral inbox c;
              bytes = sealed.0 ++ sealed.1;
            }
                ≡ made =
              ciphertext_is made_of in
            (
              own_lookup_tag-agreed inbox_secret ephemeral c agreed both
                  ∙ ap (λ x. some x.tag) same,
              ap (λ x. open_own_ciphertext prim inbox_secret ephemeral s.agora s.epoch c x.bytes)
                    (sym same)
                  ∙ open_own-agreed inbox_secret ephemeral s.agora s.epoch c (sealed.0 ++ sealed.1)
                      agreed both
                  ∙ ap (λ o. opened o parse_own)
                      (open_sealed-seal prim key s.agora s.epoch text seals)
                  ∙ parse_own-own_plain depth body_key position (Tree.occupied_height state.tree) w
                      wide small low levels entries,
            )
      ]
    where
      ciphertext_is : {x y : Ciphertext} → some x ≡ some y → x ≡ y
      ciphertext_is h = ground arith
