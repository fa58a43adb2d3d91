-- ===== src/Crypto/Hash/Framing.antt =====
-- The framed encoding is injective: what was absorbed, and where each value ended, can be read
-- off the bytes that reach the hash.
use nymora.Prelude.{
  ◌^◌, ◌<◌, ◌≡◌, refl, sym, ◌∙◌, ap, subst, true, List, [], ◌∷◌, ◌++◌, arith, length, All,
  append_assoc, append-nil,
}
use nymora.Prelude.Bytes.{Bytes, le_bytes, le_value, le_value-le_bytes, length-le_bytes}
use nymora.Core.Domain.{Domain, agora_id, tag, codes}
use nymora.Core.Domain.PrefixFree.{is_prefix, is_prefix_refl, tag_prefix_free}
use nymora.Crypto.Hash.{Hasher, frame, absorb, absorb_all, new}

-- The frames of a list of values, one after another.
abbrev pub frames : List Bytes → Bytes
frames [] = []
frames (x ∷ xs) = frame x ++ frames xs

pub absorb_all-frames :
    (xs : List Bytes) (h : Hasher) → (absorb_all xs h).absorbed ≡ h.absorbed ++ frames xs
unfolding absorb_all absorb
absorb_all-frames [] h = sym (append-nil h.absorbed)
absorb_all-frames (x ∷ xs) h =
    absorb_all-frames xs (absorb x h) ∙ append_assoc h.absorbed (frame x) (frames xs)

-- A value shorter than 2 ^ 64 bytes, as every slice is.
abbrev pub IsSlice : Bytes → Type 0
IsSlice x = length x < 2 ^ 64

pub append-split : (a b c d : Bytes) → length a ≡ length c → a ++ b ≡ c ++ d → (a ≡ c) × (b ≡ d)
append-split [] b [] d e h = (refl, h)
append-split [] b (z ∷ c) d e h = absurd (omega arith)
append-split (x ∷ a) b [] d e h = absurd (omega arith)
append-split (x ∷ a) b (z ∷ c) d e h =
    let (p, q) = append-split a b c d (omega arith) (cc) in (cc (p), q)

frame-split :
    (x y r t : Bytes) → IsSlice x → IsSlice y → frame x ++ r ≡ frame y ++ t → (x ≡ y) × (r ≡ t)
unfolding frame
frame-split x y r t hx hy h =
    let h' : le_bytes 8 (length x) ++ (x ++ r) ≡ le_bytes 8 (length y) ++ (y ++ t) =
      sym (append_assoc (le_bytes 8 (length x)) x r)
      ∙ h
      ∙ append_assoc (le_bytes 8 (length y)) y t in
    let (lens, rest) =
      append-split (le_bytes 8 (length x)) (x ++ r) (le_bytes 8 (length y)) (y ++ t)
        (length-le_bytes 8 (length x) ∙ sym (length-le_bytes 8 (length y))) h' in
    let same : length x ≡ length y =
      sym (le_value-le_bytes 8 (length x) (omega arith))
      ∙ ap le_value lens
      ∙ le_value-le_bytes 8 (length y) (omega arith) in
    append-split x r y t same rest

nonempty_frame : (x r : Bytes) → [] ≡ frame x ++ r → ⊥
unfolding frame le_bytes
nonempty_frame x r h = cc

frames-injective :
    (xs ys : List Bytes) → All IsSlice xs → All IsSlice ys → frames xs ≡ frames ys → xs ≡ ys
frames-injective [] [] hx hy h = refl
frames-injective [] (y ∷ ys) hx hy h = absurd (nonempty_frame y (frames ys) h)
frames-injective (x ∷ xs) [] hx hy h = absurd (nonempty_frame x (frames xs) (sym h))
frames-injective (x ∷ xs) (y ∷ ys) hx hy h =
    let (same, rest) = frame-split x y (frames xs) (frames ys) hx.0 hy.0 h in
    let tails : xs ≡ ys = frames-injective xs ys hx.1 hy.1 rest in cc (same, tails)

tag-IsSlice : (d : Domain) → IsSlice (codes (tag d))
unfolding tag
tag-IsSlice agora_id = omega arith
tag-IsSlice d = omega arith

-- Two transcripts, each a domain and the values absorbed after it, that reach the hash as the
-- same bytes have the same domain and the same values, for values that are slices.
pub transcript-injective :
    (d e : Domain) (xs ys : List Bytes)
    → All IsSlice xs
    → All IsSlice ys
    → (absorb_all xs (new d)).absorbed ≡ (absorb_all ys (new e)).absorbed
    → (d ≡ e) × (xs ≡ ys)
unfolding new absorb
transcript-injective d e xs ys hx hy h =
    let p : frame (codes (tag d)) ++ frames xs ≡ frame (codes (tag e)) ++ frames ys =
      sym (absorb_all-frames xs (new d)) ∙ h ∙ absorb_all-frames ys (new e) in
    let (tags, rest) =
      frame-split (codes (tag d)) (codes (tag e)) (frames xs) (frames ys) (tag-IsSlice d)
        (tag-IsSlice e) p in
    (
      tag_prefix_free d e (
          subst (λ (b : Bytes). is_prefix (codes (tag d)) b ≡ true) tags
            (is_prefix_refl (codes (tag d)))),
      frames-injective xs ys hx hy rest,
    )
