-- ===== src/Trading/Limbs.antt =====
-- src/deepx_sdk/_perp_market.py, _parse_int_value: integers that come as lists of limbs or of bytes.
use deepx_python_sdk.Prelude.{
  ℕ, suc, ◌+◌, ◌*◌, ◌/◌, ◌%◌, ◌^◌, ◌<◌, ◌≡◌, ap, ◌∙◌, refl, Bool, true, false, ◌&&◌, ◌||◌, some,
  List, [], ◌∷◌, ◌≢◌, pow_add, ℤ, pos, length, All, arith, ◌==◌,
}
use deepx_python_sdk.Trading.Json.{arr, Items, ints}
use deepx_python_sdk.Trading.Values.{
  int_or, shift_left, join_limbs, all_bytes, from_items, more_items, parse_int_value, parse_items,
}
use deepx_python_sdk.Trading.Bits.{bit_or_disjoint}

-- the number that 64-bit limbs stand for, the lowest first
pub limbs_value : List ℕ → ℕ
limbs_value [] = 0
limbs_value (l ∷ ls) = l + 2 ^ 64 * limbs_value ls

abbrev pub IsLimb : ℕ → Type 0
IsLimb l = l < 2 ^ 64

abbrev place : ℕ → ℕ
place i = 2 ^ (64 * i)

place-suc : (i : ℕ) → place (suc i) ≡ 2 ^ 64 * place i
place-suc i = let e : 64 * suc i ≡ 64 + 64 * i = omega arith in rw e (pow_add 2 64 (64 * i))

step_fits : (t l p : ℕ) → t < p → l < 2 ^ 64 → t + l * p < 2 ^ 64 * p
step_fits t l p h k = grind arith

regroup : (t l p v : ℕ) → t + l * p + 2 ^ 64 * p * v ≡ t + p * (l + 2 ^ 64 * v)
regroup t l p v = grind arith

next_limb :
    (i t l : ℕ) (vs : List ℤ)
    → t < place i
    → join_limbs i (pos t) (pos l ∷ vs) ≡ join_limbs (suc i) (pos (t + l * place i)) vs
unfolding join_limbs int_or shift_left
next_limb i t l vs h = ap (λ x. join_limbs (suc i) (pos x) vs) (bit_or_disjoint (64 * i) t l h)

numbers : List ℕ → List ℤ
numbers [] = []
numbers (l ∷ ls) = pos l ∷ numbers ls

join_limbs_lem :
    (i t : ℕ) (ls : List ℕ)
    → t < place i
    → All IsLimb ls
    → join_limbs i (pos t) (numbers ls) ≡ pos (t + place i * limbs_value ls)
unfolding limbs_value numbers join_limbs
join_limbs_lem i t [] h k = ap pos (omega arith)
join_limbs_lem i t (l ∷ ls) h (hl, k) =
    let inside : t + l * place i < place (suc i) =
      rw (place-suc i) (step_fits t l (place i) h hl) in
    next_limb i t l (numbers ls) h
    ∙ join_limbs_lem (suc i) (t + l * place i) ls inside k
    ∙ ap pos (rw (place-suc i) (regroup t l (place i) (limbs_value ls)))

-- the JSON list of the limbs
pub limb_items : List ℕ → Items
unfolding numbers
limb_items ls = ints (numbers ls)

parse_ints : (vs : List ℤ) → parse_items (ints vs) ≡ some vs
unfolding parse_items
parse_ints [] = refl
parse_ints (v ∷ vs) = rw (parse_ints vs) refl

length-numbers : (ls : List ℕ) → length (numbers ls) ≡ length ls
unfolding numbers
length-numbers [] = refl
length-numbers (l ∷ ls) = omega (arith, length-numbers ls)

not_bytes : (b : Bool) (n m : ℕ) → n ≡ m → m ≢ 16 → m ≢ 32 → (b && ((n == 16) || (n == 32))) ≡ false
not_bytes true n m e h k = ground (arith, h, k)
not_bytes false n m e h k = refl

-- A list of 64-bit limbs, the lowest first, is read as the number that they stand for, if it is not
-- one of 16 or 32 bytes.
pub parse_limbs :
    (l : ℕ) (ls : List ℕ)
    → All IsLimb (l ∷ ls)
    → length (l ∷ ls) ≢ 16
    → length (l ∷ ls) ≢ 32
    → parse_int_value (arr (limb_items (l ∷ ls))) ≡ some (pos (limbs_value (l ∷ ls)))
unfolding parse_int_value limb_items from_items
parse_limbs l ls h not16 not32 =
    let vs = pos l ∷ numbers ls in
    rw (parse_ints (numbers ls), more_items)
      (rw
        (not_bytes (all_bytes vs) (length vs) (length (l ∷ ls)) (length-numbers (l ∷ ls)) not16
          not32)
        (ap some (join_limbs_lem 0 0 (l ∷ ls) (omega arith) h ∙ ap pos (omega arith))))

-- the four limbs of a U256
pub u256_limbs : ℕ → List ℕ
u256_limbs n =
    (n % 2 ^ 64) ∷ (n / 2 ^ 64 % 2 ^ 64) ∷ (n / 2 ^ 128 % 2 ^ 64) ∷ (n / 2 ^ 192 % 2 ^ 64) ∷ []

limbs_value-u256_limbs : (n : ℕ) → n < 2 ^ 256 → limbs_value (u256_limbs n) ≡ n
unfolding limbs_value u256_limbs
limbs_value-u256_limbs n h = omega (arith, h)

-- A number below 2 ^ 256 that an event gives as its four 64-bit limbs is read back.
pub parse_int_value-u256_limbs :
    (n : ℕ) → n < 2 ^ 256 → parse_int_value (arr (limb_items (u256_limbs n))) ≡ some (pos n)
unfolding u256_limbs
parse_int_value-u256_limbs n h =
    parse_limbs (n % 2 ^ 64)
      ((n / 2 ^ 64 % 2 ^ 64) ∷ (n / 2 ^ 128 % 2 ^ 64) ∷ (n / 2 ^ 192 % 2 ^ 64) ∷ []) (omega arith)
      (omega arith) (omega arith)
    ∙ ap (λ m. some (pos m)) (limbs_value-u256_limbs n h)
