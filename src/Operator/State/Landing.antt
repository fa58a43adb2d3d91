-- ===== src/Operator/State/Landing.antt =====
-- Where a leaf lands.
use nymora.Prelude.{
  ℕ, zero, suc, ◌+◌, ◌*◌, ◌^◌, ◌≤◌, ◌<◌, ◌≡◌, sym, ◌∙◌, ap, some, List, [], ◌∷◌, ◌++◌, arith,
  length, length-append, get_elem?, get_elem?-append_left, get_elem?-append_end, take, take-append,
  append_assoc,
}
use native.Mathlib.Numerals.{unary_clauses}
use nymora.Prelude.Map
use nymora.Prelude.Bytes.{Bytes, be_bytes}
use nymora.Accumulator.Tree
use nymora.Accumulator.Tree.{Tree}
use nymora.Operator.State.{ClassState, pad, class_capacity, position_of, land}

-- The tree holds two leaves, a member's and a pad, for every occupied position: a count, which
-- says nothing of their order.
unfoldable pub IsPaired : ClassState → Type 0
IsPaired c = length c.tree.leaves ≡ 2 * c.occupied

pub room_for_two :
    (depth n occupied : ℕ)
    → 0 < depth
    → depth < 64
    → n ≡ 2 * occupied
    → occupied < class_capacity depth
    → n + 1 < 2 ^ depth
unfolding class_capacity
room_for_two zero n occupied lo hi e h = omega arith
room_for_two (suc depth) n occupied lo hi e h =
    simp unary_clauses (below (2 ^ depth) n occupied e (ground (arith, simp unary_clauses at h)))
  where
    below : (m n k : ℕ) → n ≡ 2 * k → k < m → suc (suc n) ≤ m * 2
    below m n k e h = omega arith

pub land-appends :
    (depth leaf : ℕ) (c : ClassState)
    → depth < 64
    → length c.tree.leaves + 1 < 2 ^ depth
    → land depth leaf c ≡ (
      some (length c.tree.leaves),
      record c {
        tree = record { leaves = (c.tree.leaves ++ be_bytes 32 leaf ∷ []) ++ pad ∷ [] };
        occupied = c.occupied + 1;
        positions = Map.insert leaf (length c.tree.leaves) c.positions;
      },
    )
unfolding land Tree.append
land-appends depth leaf c hi room =
    ground (arith, length-append c.tree.leaves (be_bytes 32 leaf ∷ []))

doubled : (n : ℕ) → 2 * n ≡ position_of n
doubled n = omega arith

suc_of : (n : ℕ) → n + 1 ≡ suc n
suc_of n = omega arith

module _ (l : List Bytes) (v : Bytes) where
  pub paired_after : (n : ℕ) → length l ≡ 2 * n → length ((l ++ v ∷ []) ++ pad ∷ []) ≡ 2 * (n + 1)
  paired_after n h =
      length-append (l ++ v ∷ []) (pad ∷ [])
      ∙ ap (λ k. k + 1) (length-append l (v ∷ []))
      ∙ sum (length l) n h
    where
      sum : (k n : ℕ) → k ≡ 2 * n → k + 1 + 1 ≡ 2 * (n + 1)
      sum k n h = omega arith

  longer : length (l ++ v ∷ []) ≡ suc (length l)
  longer = length-append l (v ∷ []) ∙ suc_of (length l)

  pub leaf_there : get_elem? ((l ++ v ∷ []) ++ pad ∷ []) (length l) ≡ some v
  leaf_there =
      get_elem?-append_left (l ++ v ∷ []) (pad ∷ []) (length l) (less longer)
      ∙ get_elem?-append_end l v
    where
      less : {k n : ℕ} → k ≡ suc n → n < k
      less h = omega arith

  pub pad_there : get_elem? ((l ++ v ∷ []) ++ pad ∷ []) (suc (length l)) ≡ some pad
  pad_there =
      ap (λ n. get_elem? ((l ++ v ∷ []) ++ pad ∷ []) n) (sym longer)
      ∙ get_elem?-append_end (l ++ v ∷ []) pad

  earlier : take (length l) ((l ++ v ∷ []) ++ pad ∷ []) ≡ l
  earlier =
      ap (λ m. take (length l) m) (append_assoc l (v ∷ []) (pad ∷ []))
      ∙ take-append l (v ∷ pad ∷ [])

-- A class of a depth from 1 to 63 with room lands a leaf: at the position of its count, with the
-- pad beside it, every earlier leaf where it was; the count and the recorded position follow, and
-- leaves stay paired with pads.
pub land-position :
    (depth leaf : ℕ) (c : ClassState)
    → 0 < depth
    → depth < 64
    → IsPaired c
    → c.occupied < class_capacity depth
    → let (position, d) = land depth leaf c in
      (position ≡ some (position_of c.occupied))
      × IsPaired d
      × (d.occupied ≡ suc c.occupied)
      × (Map.lookup leaf d.positions ≡ some (position_of c.occupied))
      × (get_elem? d.tree.leaves (position_of c.occupied) ≡ some (be_bytes 32 leaf))
      × (get_elem? d.tree.leaves (suc (position_of c.occupied)) ≡ some pad)
      × (take (length c.tree.leaves) d.tree.leaves ≡ c.tree.leaves)
unfolding IsPaired
land-position depth leaf c lo hi paired room =
    let two = room_for_two depth (length c.tree.leaves) c.occupied lo hi paired room in
    let done = land-appends depth leaf c hi two in
    let l = c.tree.leaves in
    let v = be_bytes 32 leaf in
    let at = paired ∙ doubled c.occupied in
    rw done (
      ap (λ n. some n) at,
      paired_after l v c.occupied paired,
      suc_of c.occupied,
      Map.lookup-insert_same leaf (length l) c.positions ∙ ap (λ n. some n) at,
      ap (λ n. get_elem? ((l ++ v ∷ []) ++ pad ∷ []) n) (sym at) ∙ leaf_there l v,
      ap (λ n. get_elem? ((l ++ v ∷ []) ++ pad ∷ []) (suc n)) (sym at) ∙ pad_there l v,
      earlier l v,
    )
