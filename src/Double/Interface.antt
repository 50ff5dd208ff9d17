-- ===== src/Double/Interface.antt =====
-- The C `double` as the program uses it: the operations that the router and the watchdog apply to
-- weights, usages and latencies, and the facts of IEEE 754 arithmetic that the code relies on.
-- Values, rounding and NaN are left open, so each fact is one that holds for NaN, infinities and
-- signed zeros too.
use glb.Common.{ℕ, ◌≡◌, Bool, true, false}

pub record Double (F : Type 0) : Type 0 where
  -- 0.0, 1.0 and the machine epsilon doubled, GLB_DBL_EPSILON
  pub nought : F
  pub one : F
  pub eps : F
  -- router_div_prot, 1.0e-09
  pub div_prot : F
  -- the conversion of an unsigned integer
  pub of_ℕ : ℕ → F
  pub add : F → F → F
  pub sub : F → F → F
  pub mul : F → F → F
  pub div : F → F → F
  -- `a < b`, `a <= b` and `a == b`
  pub lt : F → F → Bool
  pub le : F → F → Bool
  pub eq : F → F → Bool
  -- comparisons
  pub lt_irrefl : (a : F) → lt a a ≡ false
  pub lt_trans : (a b c : F) → lt a b ≡ true → lt b c ≡ true → lt a c ≡ true
  pub le_trans : (a b c : F) → le a b ≡ true → le b c ≡ true → le a c ≡ true
  pub lt_le_trans : (a b c : F) → lt a b ≡ true → le b c ≡ true → lt a c ≡ true
  pub le_lt_trans : (a b c : F) → le a b ≡ true → lt b c ≡ true → lt a c ≡ true
  pub le_of_lt : (a b : F) → lt a b ≡ true → le a b ≡ true
  -- arithmetic
  pub eps_pos : lt nought eps ≡ true
  -- scaling a weight that is not negative by a factor above one does not lower it
  pub grow : (w : F) → le nought w ≡ true → le w (mul w (add one eps)) ≡ true
  -- 0/t is 0 for a positive t, and adding that 0 keeps a value as comparisons see it
  pub nought-div : (t : F) → lt nought t ≡ true → div nought t ≡ nought
  pub lt-nought-add : (h m : F) → lt h (add nought m) ≡ lt h m
  -- a sum with a positive term and none that is negative is positive
  pub add_pos : (t w : F) → le nought t ≡ true → lt nought w ≡ true → lt nought (add t w) ≡ true
  pub nought_refl : le nought nought ≡ true
  -- `==` holds of 0.0 and itself
  pub eq_refl_nought : eq nought nought ≡ true
