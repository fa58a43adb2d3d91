-- ===== src/Prelude/NatSet.antt =====
-- `BTreeSet` of numbers: the elements in ascending order, each once.
use Prim.Native.Nat.{ℕ, suc, ◌+◌, ◌<◌}
use mathlib.Core.Path.{◌≡◌, refl}
use mathlib.Core.Bool.{true, false, ◌||◌}
use mathlib.Core.List.{List, [], ◌∷◌}
use native.Mathlib.Omega.{arith}
use nymora.Prelude.Tests.{◌==◌, ltb, if◌then◌else◌}
use nymora.Prelude.Lists.{length, contains}

-- Places a number that is not in the list before the first larger one.
unfoldable pub place : ℕ → List ℕ → List ℕ
place k [] = k ∷ []
place k (j ∷ s) = if ltb k j then k ∷ j ∷ s else j ∷ place k s

unfoldable pub insert : ℕ → List ℕ → List ℕ
insert k s = if contains k s then s else place k s

unfoldable pub remove : ℕ → List ℕ → List ℕ
remove k [] = []
remove k (j ∷ s) = let rest = remove k s in if k == j then rest else j ∷ rest

contains-place : (k j : ℕ) (s : List ℕ) → contains j (place k s) ≡ (j == k || contains j s)
unfolding place
contains-place k j [] = refl
contains-place k j (i ∷ s) = ground (arith, contains-place k j s)

length-place : (k : ℕ) (s : List ℕ) → length (place k s) ≡ length s + 1
unfolding place
length-place k [] = refl
length-place k (i ∷ s) = ground (arith, length-place k s)

pub contains-insert : (k j : ℕ) (s : List ℕ) → contains j (insert k s) ≡ (j == k || contains j s)
unfolding insert
contains-insert k j s = ground (arith, contains-place k j s)

pub length-insert :
    (k : ℕ) (s : List ℕ) → length (insert k s) ≡ (if contains k s then length s else length s + 1)
unfolding insert
length-insert k s = ground (arith, length-place k s)

pub length-insert_fresh :
    (n : ℕ) (l : List ℕ) → contains n l ≡ false → length (insert n l) ≡ suc (length l)
length-insert_fresh n l h = ground (arith, length-insert n l)

pub contains-insert_same : (n : ℕ) (l : List ℕ) → contains n (insert n l) ≡ true
contains-insert_same n l = ground (arith, contains-insert n n l)

pub contains-remove :
    (k j : ℕ) (s : List ℕ) → contains j (remove k s) ≡ (if j == k then false else contains j s)
unfolding remove
contains-remove k j [] = ground arith
contains-remove k j (i ∷ s) = ground (arith, contains-remove k j s)

-- Strictly ascending, so no element occurs twice.
abbrev pub Above : ℕ → List ℕ → Type 0
Above k [] = Unit
Above k (j ∷ s) = (k < j) × Above j s

abbrev pub IsAscending : List ℕ → Type 0
IsAscending [] = Unit
IsAscending (k ∷ s) = Above k s

place-Above :
    (lo k : ℕ) (s : List ℕ) → lo < k → contains k s ≡ false → Above lo s → Above lo (place k s)
unfolding place
place-Above lo k [] h c a = (h, tt)
place-Above lo k (j ∷ s) h c a = ground (arith, place-Above j k s)

place-IsAscending :
    (k : ℕ) (s : List ℕ) → contains k s ≡ false → IsAscending s → IsAscending (place k s)
unfolding place
place-IsAscending k [] c a = tt
place-IsAscending k (j ∷ s) c a = ground (arith, place-Above j k s)

pub insert-IsAscending : (k : ℕ) (s : List ℕ) → IsAscending s → IsAscending (insert k s)
unfolding insert
insert-IsAscending k s a = ground (arith, place-IsAscending k s)
