-- ===== src/Accumulator/Tree/Prefix.antt =====
-- The path below the occupied height, refilled with the empty values, is the whole path: what the
-- operator sends in an envelope is enough for the member to rebuild its witness.
use nymora.Prelude.{
  ℕ, zero, suc, ◌+◌, ◌*◌, ◌-◌, ◌/◌, ◌^◌, ◌≤◌, ◌<◌, ◌≡◌, refl, sym, ◌∙◌, ap, some, List, [], ◌∷◌,
  false, arith, length, get_or, get_or-past, take, ◌==◌, leb, ltb, Bool-cases, inl, inr,
}
use native.Mathlib.Nat.{pow-suc, add-zero}
use nymora.Prelude.Bytes.{Bytes}
use nymora.Crypto.Field.{Field}
use nymora.Accumulator.Witness
use nymora.Accumulator.Witness.{
  Witness, zero_node, empty_node, empty_above, hash_node, fill, from_prefix,
}
use nymora.Accumulator.Tree.{
  Tree, pair_up, occupied_level, bit_length, occupied_height, sibling_index, siblings_from, witness,
}
use nymora.Accumulator.Tree.Inclusion.{halve, halve-zero, empty_node-suc}

lt-bit_length : (bits n : ℕ) → n < 2 ^ bits → n < 2 ^ bit_length bits n
unfolding bit_length
lt-bit_length zero n h = h
lt-bit_length (suc bits) n h =
    let p : 2 ^ suc bits ≡ 2 ^ bits * 2 = pow-suc 2 bits in
    let q : 2 ^ suc (bit_length bits (n / 2)) ≡ 2 ^ bit_length bits (n / 2) * 2 = pow-suc 2 _ in
    let ih : n / 2 < 2 ^ bit_length bits (n / 2) = lt-bit_length bits (n / 2) (omega arith) in
    elim (Bool-cases (n == 0)) [ inl z ↦ rw z (ground arith) | inr nz ↦ rw nz (omega arith) ]

module _ (fld : Field) where
  length-pair_up :
      (e : Bytes) (below : List Bytes) → length (pair_up fld e below) ≡ (length below + 1) / 2
  unfolding pair_up
  length-pair_up e [] = refl
  length-pair_up e (left ∷ []) = refl
  length-pair_up e (left ∷ right ∷ below) = omega (arith, length-pair_up e below)

  length-occupied_level :
      (leaves : List Bytes) (h level : ℕ)
      → length (occupied_level fld leaves level) ≤ 2 ^ h
      → length (occupied_level fld leaves (level + h)) ≤ 1
  unfolding occupied_level
  length-occupied_level leaves zero level b = rw (add-zero level) b
  length-occupied_level leaves (suc h) level b =
      let p : 2 ^ suc h ≡ 2 ^ h * 2 = pow-suc 2 h in
      let e : level + suc h ≡ suc level + h = omega arith in
      rw e (
        length-occupied_level leaves h (suc level)
          (omega (arith, length-pair_up (empty_node fld level) (occupied_level fld leaves level))))

  thin_above :
      (leaves : List Bytes) (level : ℕ)
      → length (occupied_level fld leaves level) ≤ 1
      → length (occupied_level fld leaves (suc level + 0)) ≤ 1
  thin_above leaves level b =
      let e : suc level + 0 ≡ level + 1 = omega arith in
      rw e (length-occupied_level leaves 1 level (omega arith))

  fill-siblings :
      (leaves : List Bytes) (level n k i : ℕ)
      → length (occupied_level fld leaves (level + k)) ≤ 1
      → halve k i ≡ 0
      → fill fld n (take k (siblings_from fld leaves level n i)) (empty_node fld level)
        ≡ siblings_from fld leaves level n i
  unfolding fill siblings_from
  fill-siblings leaves level zero k i thin top = refl
  fill-siblings leaves level (suc n) zero i thin top =
      let here : length (occupied_level fld leaves level) ≤ 1 = rw add-zero at thin in
      let next : length (occupied_level fld leaves (suc level + 0)) ≤ 1 =
        thin_above leaves level here in
      let side : sibling_index i ≡ 1 = unfold sibling_index in ground arith in
      let first : get_or (occupied_level fld leaves level) (sibling_index i) (empty_node fld level)
          ≡ empty_node fld level =
        rw side (get_or-past (occupied_level fld leaves level) 1 _ here) in
      ap
        (λ (b : Bytes).
          b ∷ fill fld n [] (hash_node fld (empty_node fld level) (empty_node fld level)))
        (sym first)
      ∙ ap
          (λ (t : List Bytes).
            get_or (occupied_level fld leaves level) (sibling_index i) (empty_node fld level) ∷ t)
          (ap (λ (e : Bytes). fill fld n [] e) (sym (empty_node-suc fld level))
            ∙ fill-siblings leaves (suc level) n zero (i / 2) next (omega arith))
  fill-siblings leaves level (suc n) (suc k) i thin top =
      let e : suc level + k ≡ level + suc k = omega arith in
      ap
        (λ (t : List Bytes).
          get_or (occupied_level fld leaves level) (sibling_index i) (empty_node fld level) ∷ t)
        (ap (λ (b : Bytes). fill fld n (take k (siblings_from fld leaves (suc level) n (i / 2))) b)
            (sym (empty_node-suc fld level))
          ∙ fill-siblings leaves (suc level) n k (i / 2) (rw e thin) top)

  length-take-siblings :
      (leaves : List Bytes) (level n k i : ℕ)
      → length (take k (siblings_from fld leaves level n i)) ≤ n
  unfolding siblings_from
  length-take-siblings leaves level n zero i = omega arith
  length-take-siblings leaves level zero (suc k) i = omega arith
  length-take-siblings leaves level (suc n) (suc k) i =
      omega (arith, length-take-siblings leaves (suc level) n k (i / 2))

  le-occupied_height :
      (t : Tree) → length t.leaves ≤ 2 ^ 64 → length t.leaves ≤ 2 ^ occupied_height t
  unfolding occupied_height
  le-occupied_height t size = elim (Bool-cases (leb (length t.leaves) 1)) [
    | inl small ↦ rw small (ground arith)
    | inr large ↦ rw large (
        let p : length t.leaves - 1 < 2 ^ bit_length 64 (length t.leaves - 1) =
          lt-bit_length 64 (length t.leaves - 1) (ground arith) in
        ground arith)
  ]

  witness-inversion :
      (depth : ℕ) (t : Tree) (position : ℕ) (w : Witness)
      → witness fld depth t position ≡ some w
      → (position < length t.leaves)
        × (w.siblings ≡ siblings_from fld t.leaves 0 depth position)
        × (Witness.new depth position (siblings_from fld t.leaves 0 depth position) ≡ some w)
  unfolding witness Witness.new
  witness-inversion depth t position w h = (ground arith, ground arith, ground arith)

  -- For a tree of at most 2 ^ 64 leaves and any witness that it gives, the siblings below the
  -- occupied height are enough: `from_prefix` rebuilds exactly that witness from them.
  pub from_prefix-witness :
      (depth : ℕ) (t : Tree) (position : ℕ) (w : Witness)
      → length t.leaves ≤ 2 ^ 64
      → witness fld depth t position ≡ some w
      → from_prefix fld depth position (take (occupied_height t) w.siblings) ≡ some w
  unfolding from_prefix
  from_prefix-witness depth t position w size h =
      let (inside, same, made) = witness-inversion depth t position w h in
      let enough : length t.leaves ≤ 2 ^ occupied_height t = le-occupied_height t size in
      let thin : length (occupied_level fld t.leaves (0 + occupied_height t)) ≤ 1 =
        length-occupied_level t.leaves (occupied_height t) 0 (unfold occupied_level in enough) in
      let filled : fill fld depth
            (take (occupied_height t) (siblings_from fld t.leaves 0 depth position)) zero_node
          ≡ siblings_from fld t.leaves 0 depth position =
        unfold empty_node empty_above in
        fill-siblings t.leaves 0 depth (occupied_height t) position thin
          (halve-zero (occupied_height t) position (omega arith)) in
      let short : ltb depth
            (length (take (occupied_height t) (siblings_from fld t.leaves 0 depth position)))
          ≡ false =
        ground (arith, length-take-siblings t.leaves 0 depth (occupied_height t) position) in
      simp same (rw (short, filled) made)
