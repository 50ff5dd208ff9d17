-- ===== src/Double/Fixed.antt =====
-- Numbers with twelve decimal places: values at which the facts of `Double` hold, so that its
-- theorems can be applied and its definitions run.
use glb.Common.{◌+◌, ◌*◌, ◌≡◌, ℕ, refl, true, false, arith}
use glb.Common.Int.{
  ℤ, pos, negsuc, pos_part, neg_part, sub_ℕ, ◌+ℤ◌, ◌-ℤ◌, ltb_ℤ, leb_ℤ, eqb_ℤ, quot,
}
use glb.Double.Interface.{Double}

abbrev pub scale : ℕ
scale = 1_000_000_000_000

abbrev pub mul_ℕ : ℤ → ℕ → ℤ
mul_ℕ (pos a) k = pos (a * k)
mul_ℕ (negsuc a) k = sub_ℕ 0 ((a + 1) * k)

abbrev pub neg : ℤ → ℤ
neg a = sub_ℕ (neg_part a) (pos_part a)

-- The product and the quotient, rounded towards zero; a quotient by 0 is 0.
abbrev pub fixed_mul : ℤ → ℤ → ℤ
fixed_mul a (pos b) = quot (mul_ℕ a b) scale
fixed_mul a (negsuc b) = neg (quot (mul_ℕ a (b + 1)) scale)

abbrev pub fixed_div : ℤ → ℤ → ℤ
fixed_div a (pos b) = quot (mul_ℕ a scale) b
fixed_div a (negsuc b) = neg (quot (mul_ℕ a scale) (b + 1))

module _ (a b c : ℤ) where
  pub ltb_trans : ltb_ℤ a b ≡ true → ltb_ℤ b c ≡ true → ltb_ℤ a c ≡ true
  ltb_trans h k = ground arith

  pub leb_trans : leb_ℤ a b ≡ true → leb_ℤ b c ≡ true → leb_ℤ a c ≡ true
  leb_trans h k = ground arith

  pub ltb_leb_trans : ltb_ℤ a b ≡ true → leb_ℤ b c ≡ true → ltb_ℤ a c ≡ true
  ltb_leb_trans h k = ground arith

  pub leb_ltb_trans : leb_ℤ a b ≡ true → ltb_ℤ b c ≡ true → ltb_ℤ a c ≡ true
  leb_ltb_trans h k = ground arith

pub ltb_irrefl : (a : ℤ) → ltb_ℤ a a ≡ false
ltb_irrefl a = ground arith

pub leb_of_ltb : (a b : ℤ) → ltb_ℤ a b ≡ true → leb_ℤ a b ≡ true
leb_of_ltb a b h = ground arith

pub fixed_grow :
    (w : ℤ) → leb_ℤ (pos 0) w ≡ true → leb_ℤ w (fixed_mul w (pos scale +ℤ pos 1)) ≡ true
fixed_grow (pos w) h = ground arith
fixed_grow (negsuc w) h = ground arith

pub fixed_zero-div : (t : ℤ) → ltb_ℤ (pos 0) t ≡ true → fixed_div (pos 0) t ≡ pos 0
fixed_zero-div (pos t) h = ground arith
fixed_zero-div (negsuc t) h = ground arith

pub fixed_lt-zero-add : (h m : ℤ) → ltb_ℤ h (pos 0 +ℤ m) ≡ ltb_ℤ h m
fixed_lt-zero-add h m = ground arith

pub fixed_add_pos :
    (t w : ℤ) → leb_ℤ (pos 0) t ≡ true → ltb_ℤ (pos 0) w ≡ true → ltb_ℤ (pos 0) (t +ℤ w) ≡ true
fixed_add_pos t w h k = ground arith

instance abbrev pub fixed : Double ℤ
fixed = record {
  nought = pos 0;
  one = pos scale;
  eps = pos 1;
  div_prot = pos 1000;
  of_ℕ = λ n. pos (n * scale);
  add = ◌+ℤ◌;
  sub = ◌-ℤ◌;
  mul = fixed_mul;
  div = fixed_div;
  lt = ltb_ℤ;
  le = leb_ℤ;
  eq = eqb_ℤ;
  lt_irrefl = ltb_irrefl;
  lt_trans = ltb_trans;
  le_trans = leb_trans;
  lt_le_trans = ltb_leb_trans;
  le_lt_trans = leb_ltb_trans;
  le_of_lt = leb_of_ltb;
  eps_pos = refl;
  grow = fixed_grow;
  nought-div = fixed_zero-div;
  lt-nought-add = fixed_lt-zero-add;
  add_pos = fixed_add_pos;
  nought_refl = refl;
  eq_refl_nought = refl;
}

-- The number with `n` millionths.
abbrev pub millionths : ℕ → ℤ
millionths n = pos (n * 1_000_000)
