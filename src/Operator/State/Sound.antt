-- ===== src/Operator/State/Sound.antt =====
-- nymora-protocol/src/operator/mod.rs, `ClassState`: what holds of a class, and that landing a
-- leaf keeps it.
use nymora.Prelude.{
  ℕ, zero, suc, ◌*◌, ◌^◌, ◌≤◌, ◌<◌, ◌≡◌, ◌∙◌, subst, inl, inr, false, none, some, List, [], ◌∷◌,
  ◌++◌, arith, length, get_elem?, get_elem?-append_left, get_elem?-lt, Bool-cases, ltb, ◌==◌,
}
use native.Mathlib.Numerals.{unary_clauses}
use nymora.Prelude.Map
use nymora.Prelude.Bytes.{Bytes, be_bytes}
use nymora.Accumulator.Tree
use nymora.Operator.State.{ClassState, pad, class_capacity, land}
use nymora.Operator.State.Landing.{
  IsPaired, room_for_two, land-appends, paired_after, leaf_there, pad_there,
}

-- Every recorded position holds its leaf, and the next one the pad.
unfoldable pub Placed : List Bytes → Map.Map ℕ → Type 0
Placed l [] = Unit {0}
Placed l ((leaf, p) ∷ m) =
    (get_elem? l p ≡ some (be_bytes 32 leaf)) × (get_elem? l (suc p) ≡ some pad) × Placed l m

-- A class holds two leaves for each admission, no more admissions than its capacity, and every
-- member at the recorded position.
pub record IsSound (depth : ℕ) (c : ClassState) : Type 0 where
  pub paired : IsPaired c
  pub within : c.occupied ≤ class_capacity depth
  pub placed : Placed c.tree.leaves c.positions

get_elem?-append_some :
    (l xs : List Bytes) (p : ℕ) {v : Bytes}
    → get_elem? l p ≡ some v
    → get_elem? (l ++ xs) p ≡ some v
get_elem?-append_some l xs p h = get_elem?-append_left l xs p (get_elem?-lt l p h) ∙ h

Placed-append : (l xs : List Bytes) (m : Map.Map ℕ) → Placed l m → Placed (l ++ xs) m
unfolding Placed
Placed-append l xs [] h = tt
Placed-append l xs ((leaf, p) ∷ m) (a, b, h) =
    (get_elem?-append_some l xs p a, get_elem?-append_some l xs (suc p) b, Placed-append l xs m h)

Placed-insert :
    (l : List Bytes) (leaf p : ℕ) (m : Map.Map ℕ)
    → get_elem? l p ≡ some (be_bytes 32 leaf)
    → get_elem? l (suc p) ≡ some pad
    → Placed l m
    → Placed l (Map.insert leaf p m)
unfolding Placed Map.insert
Placed-insert l leaf p [] a b h = (a, b, tt)
Placed-insert l leaf p ((k, q) ∷ m) a b (c, d, h) =
    let rest = Placed-insert l leaf p m a b h in
    elim (Bool-cases (leaf == k)) [
      | inl same ↦ rw same (a, b, h)
      | inr other ↦ elim (Bool-cases (ltb leaf k)) [
        | inl below ↦ rw (other, below) (a, b, (c, d, h))
        | inr above ↦ rw (other, above) (c, d, rest)
      ]
    ]

-- A class whose capacity is reached has a full tree.
full_tree :
    (depth n occupied : ℕ)
    → 0 < depth
    → depth < 64
    → n ≡ 2 * occupied
    → occupied ≡ class_capacity depth
    → 2 ^ depth ≤ n
unfolding class_capacity
full_tree zero n occupied lo hi e h = omega arith
full_tree (suc depth) n occupied lo hi e h =
    simp unary_clauses (doubles (2 ^ depth) n occupied e (ground (arith, simp unary_clauses at h)))
  where
    doubles : (m n k : ℕ) → n ≡ 2 * k → k ≡ m → m * 2 ≤ n
    doubles m n k e h = omega arith

land-full :
    (depth leaf : ℕ) (c : ClassState)
    → depth < 64
    → 2 ^ depth ≤ length c.tree.leaves
    → land depth leaf c ≡ (none, c)
unfolding land Tree.append
land-full depth leaf c hi full = ground arith

reached : (n m : ℕ) → n ≤ m → ltb n m ≡ false → n ≡ m
reached n m h k = ground arith

-- Whatever `land` answers, it leaves a class of depth 1 to 63 sound that was.
pub land-IsSound :
    (depth leaf : ℕ) (c : ClassState)
    → 0 < depth
    → depth < 64
    → IsSound depth c
    → IsSound depth (land depth leaf c).1
unfolding IsPaired
land-IsSound depth leaf c lo hi h = elim (Bool-cases (ltb c.occupied (class_capacity depth))) [
  | inl room ↦
      let l = c.tree.leaves in
      let v = be_bytes 32 leaf in
      let two = room_for_two depth (length l) c.occupied lo hi h.paired (ground arith) in
      rw (land-appends depth leaf c hi two) (record {
        paired = paired_after l v c.occupied h.paired;
        within = ground arith;
        placed =
            Placed-insert ((l ++ v ∷ []) ++ pad ∷ []) leaf (length l) c.positions (leaf_there l v)
              (pad_there l v)
              (Placed-append (l ++ v ∷ []) (pad ∷ []) c.positions
                (Placed-append l (v ∷ []) c.positions h.placed));
      })
  | inr stop ↦
      let full =
        full_tree depth (length c.tree.leaves) c.occupied lo hi h.paired
          (reached c.occupied (class_capacity depth) h.within stop) in
      rw (land-full depth leaf c hi full) h
]

-- Every class of a map is sound.
unfoldable pub AllSound : ℕ → Map.Map ClassState → Type 0
AllSound depth [] = Unit {0}
AllSound depth ((k, c) ∷ m) = IsSound depth c × AllSound depth m

pub insert-AllSound :
    (depth k : ℕ) (c : ClassState) (m : Map.Map ClassState)
    → IsSound depth c
    → AllSound depth m
    → AllSound depth (Map.insert k c m)
unfolding AllSound Map.insert
insert-AllSound depth k c [] a h = (a, tt)
insert-AllSound depth k c ((j, d) ∷ m) a (b, h) =
    let rest = insert-AllSound depth k c m a h in
    elim (Bool-cases (k == j)) [
      | inl same ↦ rw same (a, h)
      | inr other ↦ elim (Bool-cases (ltb k j)) [
        | inl below ↦ rw (other, below) (a, (b, h))
        | inr above ↦ rw (other, above) (b, rest)
      ]
    ]

pub lookup-IsSound :
    (depth k : ℕ) (c : ClassState) (m : Map.Map ClassState)
    → AllSound depth m
    → Map.lookup k m ≡ some c
    → IsSound depth c
unfolding AllSound Map.lookup
lookup-IsSound depth k c [] h e = cc
lookup-IsSound depth k c ((j, d) ∷ m) (a, h) e = elim (Bool-cases (k == j)) [
  | inl same ↦ subst (IsSound depth) (ground arith) a
  | inr other ↦ lookup-IsSound depth k c m h (ground arith)
]
