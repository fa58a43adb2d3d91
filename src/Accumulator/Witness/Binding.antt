-- ===== src/Accumulator/Witness/Binding.antt =====
-- nymora-accumulator/src/witness.rs: the fold binds the leaf that it starts from, as far as the
-- hash has no collision.
use nymora.Prelude.{
  ℕ, ◌%◌, ◌/◌, ◌≡◌, ◌≢◌, sym, ◌∙◌, ap, ◌⊎◌, List, [], ◌∷◌, length, arith, Bool-cases, inl, inr,
  ◌==◌, if◌then◌else◌,
}
use nymora.Prelude.Bytes.{Bytes}
use nymora.Crypto.Field.{Field, Decodes}
use nymora.Accumulator.Witness.{Witness, fold_step, fold_from, fold}

module _ (fld : Field) where
  open fld use {F, to_bytes, from_witness_bytes, hash}

  -- What one level of the fold hashes.
  unfoldable pub step_inputs : F → ℕ → Bytes → List F
  step_inputs current index sibling =
      if index % 2 == 1
      then from_witness_bytes sibling ∷ current ∷ []
      else current ∷ from_witness_bytes sibling ∷ []

  fold_step-hash :
      (x : F) (index : ℕ) (s : Bytes) → fold_step fld x index s ≡ hash (step_inputs x index s)
  unfolding fold_step step_inputs
  fold_step-hash x index s = ground arith

  -- At some level of two paths, the two folds hash different inputs to one value.
  unfoldable pub Collides : F → F → ℕ → List Bytes → List Bytes → Type 0
  Collides x y index [] ts = ⊥
  Collides x y index (s ∷ ss) [] = ⊥
  Collides x y index (s ∷ ss) (t ∷ ts) =
      ((step_inputs x index s ≢ step_inputs y index t)
        × (hash (step_inputs x index s) ≡ hash (step_inputs y index t)))
      ⊎ Collides (fold_step fld x index s) (fold_step fld y index t) (index / 2) ss ts

  step_inputs-injective :
      (x y : F) (index : ℕ) (s t : Bytes) → step_inputs x index s ≡ step_inputs y index t → x ≡ y
  unfolding step_inputs
  step_inputs-injective x y index s t h = elim (Bool-cases (index % 2 == 1)) [
    | inl right ↦ ground arith
    | inr left ↦ ground arith
  ]

  pub fold_from-Collides :
      Discrete F
      → (x y : F) (index : ℕ) (ss ts : List Bytes) → length ss ≡ length ts
      → fold_from fld x index ss ≡ fold_from fld y index ts
      → (x ≡ y) ⊎ Collides x y index ss ts
  unfolding fold_from Collides
  fold_from-Collides dec x y index [] [] len h = inl h
  fold_from-Collides dec x y index [] (t ∷ ts) len h = absurd (omega arith)
  fold_from-Collides dec x y index (s ∷ ss) [] len h = absurd (omega arith)
  fold_from-Collides dec x y index (s ∷ ss) (t ∷ ts) len h =
      elim (fold_from-Collides dec (fold_step fld x index s) (fold_step fld y index t) (index / 2)
        ss ts (omega arith) h) [
          | inr above ↦ inr (inr above)
          | inl same ↦ elim (dec x y) [
            | yes e ↦ inl e
            | no differ ↦ inr (
                inl (
                  λ p. differ (step_inputs-injective x y index s t p),
                  sym (fold_step-hash x index s) ∙ same ∙ fold_step-hash y index t,
                ))
          ]
        ]

  -- For a field with decidable equality that reads its own encodings back: two witnesses at one
  -- index, of one depth, that fold two leaves to one root either start from one leaf, or at some
  -- level of the two paths different inputs of the hash have one value.
  pub fold_binding :
      Decodes fld
      → Discrete F
      → (x y : F) (w v : Witness) → w.index ≡ v.index
      → length w.siblings ≡ length v.siblings
      → fold fld x w ≡ fold fld y v
      → (x ≡ y) ⊎ Collides x y w.index w.siblings v.siblings
  unfolding fold
  fold_binding decodes dec x y w v same_index same_depth same_root =
      let p : from_witness_bytes (to_bytes (fold_from fld x w.index w.siblings))
          ≡ from_witness_bytes (to_bytes (fold_from fld y v.index v.siblings)) =
        ap from_witness_bytes same_root in
      let q : fold_from fld x w.index w.siblings ≡ fold_from fld y v.index v.siblings =
        sym (decodes _) ∙ p ∙ decodes _ in
      fold_from-Collides dec x y w.index w.siblings v.siblings same_depth
        (q ∙ ap (λ (i : ℕ). fold_from fld y i v.siblings) (sym same_index))
