-- ===== src/Accumulator/Exclusion/Gaps.antt =====
-- The gaps of an ordered set, on numbers and on bytes: the gap that an absent key falls into,
-- and that no gap strictly contains a present one.
use nymora.Prelude.{
  ℕ, zero, suc, ◌+◌, ◌-◌, ◌^◌, ◌≤◌, ◌<◌, ◌≡◌, refl, ◌∙◌, ap, true, false, none, some, List, [], ◌∷◌,
  ◌++◌, map, leb, ◌==◌, ◌||◌, fun_ext, get_elem?-map, Option-cases, arith, length, length-append,
  length-map, get_elem?, contains, All, Bool-cases, inl, inr,
}
use mathlib.Core.List.{map-append}
use nymora.Prelude.NatSet
use nymora.Prelude.NatSet.{Above, IsAscending}
use nymora.Prelude.Bytes.{Bytes, le_bytes, le_value}
use nymora.Accumulator.Witness.{zero_node}
use nymora.Accumulator.Exclusion.{
  ExclusionSet, truncate_key, upper_sentinel, to_ordering, insert, keys, windows, gaps, count_upto,
}
use nymora.Accumulator.Exclusion.Order.{
  IsDigest, truncate_key-lt, to_ordering-value, to_le-le_bytes,
}

abbrev pub top : ℕ
top = 2 ^ 253 - 1

-- Each key once, in ascending order, inside the ordering domain.
pub record IsOrdered (s : ExclusionSet) : Type 0 where
  pub ascending : IsAscending s.ordered
  pub bounded : All (λ k. k < 2 ^ 253) s.ordered

place-bounded :
    (k : ℕ) (l : List ℕ)
    → k < 2 ^ 253
    → All (λ j. j < 2 ^ 253) l
    → All (λ j. j < 2 ^ 253) (NatSet.place k l)
unfolding NatSet.place
place-bounded k [] h a = (h, tt)
place-bounded k (j ∷ l) h a = ground (arith, place-bounded k l h a.1)

insert-bounded :
    (k : ℕ) (l : List ℕ)
    → k < 2 ^ 253
    → All (λ j. j < 2 ^ 253) l
    → All (λ j. j < 2 ^ 253) (NatSet.insert k l)
unfolding NatSet.insert
insert-bounded k l h a = ground (arith, place-bounded k l h a)

-- Insertion of any 32-byte key into an ordered set keeps it ordered; afterwards exactly the keys
-- that were there are in it, and the truncation of the new one.
pub insert-IsOrdered :
    (key : Bytes) (s : ExclusionSet)
    → IsDigest key
    → IsOrdered s
    → IsOrdered (insert key s)
      × ((t : ℕ)
          → contains t (insert key s).ordered
            ≡ (t == le_value (truncate_key key) || contains t s.ordered))
unfolding insert
insert-IsOrdered key s d h =
    let small : to_ordering (truncate_key key) < 2 ^ 253 =
      rw (to_ordering-value (truncate_key key)) (truncate_key-lt d) in
    (
      record {
        ascending =
            NatSet.insert-IsAscending (to_ordering (truncate_key key)) s.ordered h.ascending;
        bounded = insert-bounded (to_ordering (truncate_key key)) s.ordered small h.bounded;
      },
      λ t.
          rw (NatSet.contains-insert (to_ordering (truncate_key key)) t s.ordered)
            (ap (λ (k : ℕ). t == k || contains t s.ordered) (to_ordering-value (truncate_key key))),
    )

-- The list of bounds between two ends, and its gaps.
abbrev num_gaps : ℕ → List ℕ → ℕ → List (ℕ × ℕ)
num_gaps lo ks hi = windows (lo ∷ ks ++ hi ∷ [])

Above-contains : (t k : ℕ) (l : List ℕ) → Above k l → contains t l ≡ true → k < t
Above-contains t k [] a c = cc
Above-contains t k (j ∷ l) a c = ground (arith, Above-contains t j l a.1)

Above-IsAscending : (k : ℕ) (l : List ℕ) → Above k l → IsAscending l
Above-IsAscending k [] a = tt
Above-IsAscending k (j ∷ l) a = a.1

-- A number between the ends that is not in the list lies strictly inside the gap that its count
-- selects.
pub gap_around :
    (lo hi t : ℕ) (ks : List ℕ)
    → lo < t
    → t < hi
    → IsAscending ks
    → contains t ks ≡ false
    → (a b : ℕ) × (get_elem? (num_gaps lo ks hi) (count_upto t ks) ≡ some (a, b))
      × (a < t)
      × (t < b)
unfolding windows count_upto
gap_around lo hi t [] l h asc c = (lo, hi, refl, l, h)
gap_around lo hi t (k ∷ ks) l h asc c = elim (Bool-cases (leb k t)) [
  | inl below ↦
      let (a, b, at, la, lb) =
        gap_around k hi t ks (ground arith) h (Above-IsAscending k ks asc) (ground arith) in
      (a, b, rw below at, la, lb)
  | inr above ↦ (lo, k, rw above, l, ground arith)
]

gap_from :
    (lo hi i a b : ℕ) (ks : List ℕ)
    → Above lo ks
    → get_elem? (num_gaps lo ks hi) i ≡ some (a, b)
    → lo ≤ a
unfolding windows
gap_from lo hi zero a b [] asc h = ground arith
gap_from lo hi (suc i) a b [] asc h = cc
gap_from lo hi zero a b (k ∷ ks) asc h = ground arith
gap_from lo hi (suc i) a b (k ∷ ks) asc h = omega (arith, gap_from k hi i a b ks asc.1 h, asc.0)

-- No gap strictly contains a number that is in the list.
pub gap_excludes :
    (lo hi t i a b : ℕ) (ks : List ℕ)
    → IsAscending ks
    → contains t ks ≡ true
    → get_elem? (num_gaps lo ks hi) i ≡ some (a, b)
    → a < t
    → t < b
    → ⊥
unfolding windows
gap_excludes lo hi t i a b [] asc c h la lb = cc
gap_excludes lo hi t zero a b (k ∷ ks) asc c h la lb =
    let e : b ≡ k = ground arith in ground (arith, Above-contains t k ks asc)
gap_excludes lo hi t (suc i) a b (k ∷ ks) asc c h la lb =
    let inside : contains t ks ≡ true = ground (arith, gap_from k hi i a b ks asc h) in
    gap_excludes k hi t i a b ks (Above-IsAscending k ks asc) inside h la lb

abbrev pub gap_bytes : ℕ × ℕ → Bytes × Bytes
gap_bytes (a, b) = (le_bytes 32 a, le_bytes 32 b)

windows-map : (xs : List ℕ) → windows (map (le_bytes 32) xs) ≡ map gap_bytes (windows xs)
unfolding windows
windows-map [] = refl
windows-map (x ∷ []) = refl
windows-map (x ∷ y ∷ xs) =
    ap (λ (t : List (Bytes × Bytes)). gap_bytes (x, y) ∷ t) (windows-map (y ∷ xs))

-- The gaps of a set, on the numbers that the bounds stand for.
pub gaps-numbers : (s : ExclusionSet) → gaps s ≡ map gap_bytes (num_gaps 0 s.ordered top)
unfolding gaps keys upper_sentinel
gaps-numbers s =
    let ends : zero_node ∷ map (le_bytes 32) s.ordered ++ upper_sentinel ∷ []
        ≡ map (le_bytes 32) (0 ∷ s.ordered ++ top ∷ []) =
      rw (map-append (le_bytes 32) s.ordered (top ∷ [])) (unfold le_bytes in refl) in
    ap (λ (f : ℕ → Bytes). windows (zero_node ∷ map f s.ordered ++ upper_sentinel ∷ []))
      (fun_ext to_le-le_bytes)
    ∙ ap (λ (l : List Bytes). windows l) ends
    ∙ windows-map (0 ∷ s.ordered ++ top ∷ [])

length-windows : (x : ℕ) (xs : List ℕ) → length (windows (x ∷ xs)) ≡ length xs
unfolding windows
length-windows x [] = refl
length-windows x (y ∷ xs) = omega (arith, length-windows y xs)

pub length-gaps : (s : ExclusionSet) → length (gaps s) ≡ length s.ordered + 1
length-gaps s = rw (gaps-numbers s) (
    length-map gap_bytes (num_gaps 0 s.ordered top)
    ∙ length-windows 0 (s.ordered ++ top ∷ [])
    ∙ length-append s.ordered (top ∷ []))

pub gap-bounded :
    (lo i a b : ℕ) (ks : List ℕ)
    → lo < 2 ^ 253
    → All (λ k. k < 2 ^ 253) ks
    → get_elem? (num_gaps lo ks top) i ≡ some (a, b)
    → (a < 2 ^ 253) × (b < 2 ^ 253)
unfolding windows
gap-bounded lo zero a b [] l bd h = ground arith
gap-bounded lo (suc i) a b [] l bd h = cc
gap-bounded lo zero a b (k ∷ ks) l bd h = ground arith
gap-bounded lo (suc i) a b (k ∷ ks) l bd h = gap-bounded k i a b ks bd.0 bd.1 h

-- Every gap that the set has is the bytes of two numbers in the ordering domain.
pub gaps-bounded :
    (s : ExclusionSet) (i : ℕ) {g : Bytes × Bytes}
    → IsOrdered s
    → get_elem? (gaps s) i ≡ some g
    → (a b : ℕ) × (g ≡ gap_bytes (a, b))
      × (get_elem? (num_gaps 0 s.ordered top) i ≡ some (a, b))
      × (a < 2 ^ 253)
      × (b < 2 ^ 253)
gaps-bounded s i {g} ord h = elim (Option-cases (get_elem? (num_gaps 0 s.ordered top) i)) [
  | inl gone ↦ absurd (
      let e : get_elem? (gaps s) i ≡ none =
        rw (gaps-numbers s, get_elem?-map gap_bytes (num_gaps 0 s.ordered top) i, gone) in
      cc)
  | inr ((a, b), at) ↦
      let e : get_elem? (gaps s) i ≡ some (gap_bytes (a, b)) =
        rw (gaps-numbers s, get_elem?-map gap_bytes (num_gaps 0 s.ordered top) i, at) in
      let (la, lb) = gap-bounded 0 i a b s.ordered (omega arith) ord.bounded at in
      (a, b, cc, at, la, lb)
]
