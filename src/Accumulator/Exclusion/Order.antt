-- ===== src/Accumulator/Exclusion/Order.antt =====
-- The ordering domain on the numbers that keys stand for: truncation is the remainder below
-- 2 ^ 253, and the constant-time comparison is `<`.
use nymora.Prelude.{
  ℕ, zero, suc, ◌+◌, ◌*◌, ◌/◌, ◌%◌, ◌^◌, ◌<◌, ◌≡◌, refl, sym, ◌∙◌, ap, Bool, true, false, ◌&&◌,
  ◌||◌, [], ◌∷◌, ◌++◌, reverse, ltb, ◌==◌, arith, length, All-append,
}
use mathlib.Core.List.{reverse-reverse, reverse-append}
use native.Mathlib.Nat.{pow-suc, div-add-mod, mod-lt, add-mul-mod_self_left, mod-eq_of_lt}
use nymora.Prelude.Bytes.{
  Bytes, IsBytes, le_value, be_value, be_bytes, le_bytes, length-reverse, le_value-lt,
  length-le_bytes, le_bytes-IsBytes, le_bytes-le_value,
}
use nymora.Accumulator.Exclusion.{
  update_at, truncate_key, ct_less_loop, ct_less, to_ordering, to_le,
}

le_value-append : (xs : Bytes) (b : ℕ) → le_value (xs ++ b ∷ []) ≡ le_value xs + 256 ^ length xs * b
unfolding le_value
le_value-append [] b = omega arith
le_value-append (x ∷ xs) b =
    let p : 256 ^ suc (length xs) ≡ 256 ^ length xs * 256 = pow-suc 256 (length xs) in
    let q : 256 ^ suc (length xs) * b ≡ 256 ^ length xs * 256 * b = ap (λ (t : ℕ). t * b) p in
    omega (arith, le_value-append xs b)

be_value-cons : (b : ℕ) (xs : Bytes) → be_value (b ∷ xs) ≡ be_value xs + 256 ^ length xs * b
unfolding be_value
be_value-cons b xs =
    rw (reverse-append (b ∷ []) xs) (rw (← length-reverse xs) (le_value-append (reverse xs) b))

All-reverse : (xs : Bytes) → IsBytes xs → IsBytes (reverse xs)
All-reverse [] h = tt
All-reverse (x ∷ xs) h =
    rw (reverse-append (x ∷ []) xs)
      (All-append _ (reverse xs) (x ∷ []) (All-reverse xs h.1) (h.0, tt))

be_value-lt : (xs : Bytes) → IsBytes xs → be_value xs < 256 ^ length xs
unfolding be_value
be_value-lt xs h = rw (← length-reverse xs) (le_value-lt (reverse xs) (All-reverse xs h))

bool_step :
    (less equal x y z : Bool)
    → ((less || (equal && x)) || ((equal && y) && z)) ≡ (less || (equal && (x || (y && z))))
bool_step less equal x y z = ground arith

-- The order of two numbers by their leading digits.
lt-digit : (p v w x y : ℕ) → v < p → w < p → x < y → v + p * x < w + p * y
lt-digit p v w x y hv hw h = grind arith

ltb-digit :
    (p v w x y : ℕ)
    → v < p
    → w < p
    → ltb (v + p * x) (w + p * y) ≡ (ltb x y || ((x == y) && ltb v w))
ltb-digit p v w x y hv hw =
    ground (arith, lt-digit p v w x y hv hw, lt-digit p w v y x hw hv, ap (λ (t : ℕ). p * t))

ct_less_loop-lt :
    (less equal : Bool) (xs ys : Bytes)
    → length xs ≡ length ys
    → IsBytes xs
    → IsBytes ys
    → ct_less_loop less equal xs ys ≡ (less || (equal && ltb (be_value xs) (be_value ys)))
unfolding ct_less_loop
ct_less_loop-lt less equal [] [] e hx hy = ground arith
ct_less_loop-lt less equal [] (y ∷ ys) e hx hy = absurd (omega arith)
ct_less_loop-lt less equal (x ∷ xs) [] e hx hy = absurd (omega arith)
ct_less_loop-lt less equal (x ∷ xs) (y ∷ ys) e hx hy =
    let same : length xs ≡ length ys = omega arith in
    let below : be_value xs < 256 ^ length ys = rw (← same) (be_value-lt xs hx.1) in
    rw (be_value-cons x xs, be_value-cons y ys, same)
      (ct_less_loop-lt (less || (equal && ltb x y)) (equal && (x == y)) xs ys same hx.1 hy.1
        ∙ rw
            (ltb-digit (256 ^ length ys) (be_value xs) (be_value ys) x y below
              (be_value-lt ys hy.1))
            (bool_step less equal (ltb x y) (x == y) (ltb (be_value xs) (be_value ys))))

be_value-reverse : (xs : Bytes) → be_value (reverse xs) ≡ le_value xs
unfolding be_value
be_value-reverse xs = rw reverse-reverse

-- The constant-time comparison of two byte strings of one length is the order of the
-- little-endian numbers that they spell.
pub ct_less-lt :
    (a b : Bytes)
    → length a ≡ length b
    → IsBytes a
    → IsBytes b
    → ct_less a b ≡ ltb (le_value a) (le_value b)
unfolding ct_less
ct_less-lt a b e ha hb =
    ct_less_loop-lt false true (reverse a) (reverse b)
      (omega (arith, length-reverse a, length-reverse b)) (All-reverse a ha) (All-reverse b hb)
    ∙ rw (be_value-reverse a, be_value-reverse b)

mod-digit : (b v m : ℕ) → b < 256 → 0 < m → (b + 256 * v) % (256 * m) ≡ b + 256 * (v % m)
mod-digit b v m hb hm =
    let split : b + 256 * v ≡ (b + 256 * (v % m)) + (256 * m) * (v / m) =
      omega (arith, ap (λ (t : ℕ). 256 * t) (div-add-mod v m)) in
    let small : b + 256 * (v % m) < 256 * m = omega (arith, mod-lt v hm) in
    rw split (add-mul-mod_self_left (b + 256 * (v % m)) (256 * m) (v / m) ∙ mod-eq_of_lt small)

pow-pos : (i : ℕ) → 0 < 256 ^ i
pow-pos zero = omega arith
pow-pos (suc i) = let p : 256 ^ suc i ≡ 256 ^ i * 256 = pow-suc 256 i in omega (arith, pow-pos i)

update_at-value :
    (i : ℕ) (key : Bytes)
    → length key ≡ suc i
    → IsBytes key
    → le_value (update_at i (λ b. b % 0x20) key) ≡ le_value key % (256 ^ i * 0x20)
unfolding update_at le_value
update_at-value i [] e h = absurd (omega arith)
update_at-value zero (b ∷ []) e h = omega arith
update_at-value zero (b ∷ c ∷ bs) e h = absurd (omega arith)
update_at-value (suc i) (b ∷ bs) e h =
    let p : 256 ^ suc i * 0x20 ≡ 256 * (256 ^ i * 0x20) = omega (arith, pow-suc 256 i) in
    rw p (
      ap (λ (t : ℕ). b + 256 * t) (update_at-value i bs (omega arith) h.1)
      ∙ sym (mod-digit b (le_value bs) (256 ^ i * 0x20) h.0 (omega (arith, pow-pos i))))

-- Truncation keeps the low 253 bits of the little-endian number.
pub truncate_key-value :
    (key : Bytes)
    → length key ≡ 32
    → IsBytes key
    → le_value (truncate_key key) ≡ le_value key % 2 ^ 253
unfolding truncate_key
truncate_key-value key e h = update_at-value 31 key e h

length-update_at : (i : ℕ) (f : ℕ → ℕ) (key : Bytes) → length (update_at i f key) ≡ length key
unfolding update_at
length-update_at i f [] = refl
length-update_at zero f (b ∷ bs) = refl
length-update_at (suc i) f (b ∷ bs) = omega (arith, length-update_at i f bs)

update_at-IsBytes : (i : ℕ) (key : Bytes) → IsBytes key → IsBytes (update_at i (λ b. b % 0x20) key)
unfolding update_at
update_at-IsBytes i [] h = tt
update_at-IsBytes zero (b ∷ bs) h = (omega arith, h.1)
update_at-IsBytes (suc i) (b ∷ bs) h = (h.0, update_at-IsBytes i bs h.1)

-- A 32-byte array.
pub record IsDigest (b : Bytes) : Type 0 where
  pub width : length b ≡ 32
  pub bytes : IsBytes b

pub truncate_key-IsDigest : {key : Bytes} → IsDigest key → IsDigest (truncate_key key)
unfolding truncate_key
truncate_key-IsDigest {key} h = record {
  width = length-update_at 31 (λ b. b % 0x20) key ∙ h.width;
  bytes = update_at-IsBytes 31 key h.bytes;
}

pub le_bytes-IsDigest : (n : ℕ) → IsDigest (le_bytes 32 n)
le_bytes-IsDigest n = record { width = length-le_bytes 32 n; bytes = le_bytes-IsBytes 32 n }

-- A 32-byte array is determined by its little-endian number.
pub le_value-injective : {a b : Bytes} → IsDigest a → IsDigest b → le_value a ≡ le_value b → a ≡ b
le_value-injective {a} {b} ha hb e =
    sym (le_bytes-le_value a ha.bytes) ∙ rw (ha.width, e, ← hb.width) (le_bytes-le_value b hb.bytes)

pub truncate_key_fixed :
    {key : Bytes} → IsDigest key → le_value key < 2 ^ 253 → truncate_key key ≡ key
truncate_key_fixed {key} h small =
    le_value-injective (truncate_key-IsDigest h) h
      (truncate_key-value key h.width h.bytes ∙ mod-eq_of_lt small)

pub truncate_key-lt : {key : Bytes} → IsDigest key → le_value (truncate_key key) < 2 ^ 253
truncate_key-lt {key} h = rw (truncate_key-value key h.width h.bytes) (mod-lt _ (omega arith))

-- The number by which the set orders a key is the little-endian number of its bytes.
pub to_ordering-value : (le : Bytes) → to_ordering le ≡ le_value le
unfolding to_ordering
to_ordering-value le = be_value-reverse le

pub to_le-le_bytes : (n : ℕ) → to_le n ≡ le_bytes 32 n
unfolding to_le be_bytes
to_le-le_bytes n = reverse-reverse (le_bytes 32 n)
