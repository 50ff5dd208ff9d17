-- ===== src/Wdog/Returns.antt =====
-- The thread of the watchdog comes to its end where members are not discovered: no round can stop at
-- an index or an assertion.
use glb.Common.{ℕ, ◌≡◌, Bool, false, none, List, [], ◌∷◌}
use glb.Double.{Double}
use glb.Cnf.{Cnf}
use glb.Router.State.{Router}
use glb.Router.Change.{Error, Result, ok, err}
use glb.Wdog.Collect.{Round}
use glb.Wdog.Main.{Wake, quit}

module _ {F : Type 0} ⦃fp : Double F⦄ where
  -- There is no source of the membership.
  abbrev Unled : Round F → Type 0
  Unled s = s.memb_source ≡ none

  answered :
      (P : Round F → Type 0) (r : Result ℕ) (f : Error → Round F) (g : ℕ → Round F)
      → ((e : Error) → P (f e))
      → ((j : ℕ) → P (g j))
      → P (elim r as (λ _. Round F) [ err e ↦ f e | ok j ↦ g j ])
  answered P (err e) f g hf hg = hf e
  answered P (ok j) f g hf hg = hg j

  module _ (cnf : Cnf F) (has_pool : Bool) (no : cnf.discover ≡ false) where
    -- It ends with the signal to quit.
    abbrev pub Ends : List (Wake F) → Type 0
    Ends [] = ⊥
    Ends (quit ∷ wakes) = Unit
    Ends (wake ∷ wakes) = Ends wakes
