-- ===== src/Base/Integers.antt =====
-- Go's signed 64-bit integers over the native numbers, and their conversions from and to `uint`.
use managed_tokens.Base.{ℕ, ◌-◌, ◌*◌, ◌%◌, ◌^◌, ◌<◌, ◌≡◌, Bool, true, false, ltb, arith}
use managed_tokens.Base.{if◌then◌else◌}

-- `negsuc n` is -(n + 1).
pub data ℤ : Type 0 where
  pos : ℕ → ℤ
  negsuc : ℕ → ℤ

abbrev pub ltb_ℤ : ℤ → ℤ → Bool
ltb_ℤ (pos m) (pos n) = ltb m n
ltb_ℤ (pos m) (negsuc n) = false
ltb_ℤ (negsuc m) (pos n) = true
ltb_ℤ (negsuc m) (negsuc n) = ltb n m

abbrev pub pos_part : ℤ → ℕ
pos_part (pos n) = n
pos_part (negsuc n) = 0

-- `int(w)` of a word, and of a product of words
unfoldable pub to_int : ℕ → ℤ
to_int w = let v = w % (2 ^ 64) in if ltb v (2 ^ 63) then pos v else negsuc (2 ^ 64 - 1 - v)

-- `uint(a)`
unfoldable pub to_uint : ℤ → ℕ
to_uint (pos n) = n % (2 ^ 64)
to_uint (negsuc n) = 2 ^ 64 - 1 - n % (2 ^ 64)

-- The product of two signed integers, which wraps around.
unfoldable pub wrapped_product : ℤ → ℤ → ℤ
wrapped_product a b = to_int (to_uint a * to_uint b)

pub to_int_small : (w : ℕ) → w < 2 ^ 63 → to_int w ≡ pos w
unfolding to_int
to_int_small w h = let e : w % (2 ^ 64) ≡ w = omega arith in ground arith

pub to_uint_small : (n : ℕ) → n < 2 ^ 63 → to_uint (pos n) ≡ n
unfolding to_uint
to_uint_small n h = omega arith

pub wrapped_product_small :
    (n s : ℕ)
    → n < 2 ^ 63
    → s < 2 ^ 63
    → n * s < 2 ^ 63
    → wrapped_product (pos n) (pos s) ≡ pos (n * s)
unfolding wrapped_product
wrapped_product_small n s hn hs h =
    rw (to_uint_small n hn, to_uint_small s hs) (to_int_small (n * s) h)
