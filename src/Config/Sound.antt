-- ===== src/Config/Sound.antt =====
-- What holds of a configuration whatever options set it.
use glb.Common.{Bool, true, false, not, ◌||◌, ◌≡◌, refl}
use glb.Common.Int.{ℤ, pos, ltb_ℤ, leb_ℤ}
use glb.Cnf.{Policy}
use glb.Config.{GlbCnf, cnf_init}

abbrev pub is_single : Policy → Bool
is_single Policy.single = true
is_single _ = false

-- A single destination is one of those with the top weight, checks are not made without a break, and
-- extra checks are not at negative times.
abbrev pub IsConfig : {F : Type 0} → GlbCnf F → Type 0
IsConfig cnf =
    ((not (is_single cnf.policy) || cnf.top) ≡ true)
    × (ltb_ℤ (pos 0) cnf.interval ≡ true)
    × (leb_ℤ (pos 0) cnf.extra ≡ true)

pub cnf_init-IsConfig :
    (F : Type 0) (glbd : Bool) (limit : ℤ) → IsConfig (cnf_init {F = F} glbd limit)
unfolding cnf_init
cnf_init-IsConfig F true limit = (refl, refl, refl)
cnf_init-IsConfig F false limit = (refl, refl, refl)
