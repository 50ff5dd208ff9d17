-- ===== src/Wdog/Members.antt =====
-- src/glb_wdog.c: the members of the cluster that a destination reports as a text,
-- `wdog_process_membership_change`.
use glb.Common.{ℕ, ◌≡◌, refl, true, none, some, List, [], ◌∷◌, get_elem?, option_split}
use glb.Double.{Double}
use glb.Dst.{Dst}
use glb.Parse.Tokens.{parse_token_string}
use glb.Parse.Dst.{Libc, dst_parse}
use glb.Wdog.State.{WdogDst}
use glb.Wdog.Change.{Start, process_members}
use glb.Wdog.Rights.{StaysAt, process_members-StaysAt}

module _ {F : Type 0} ⦃fp : Double F⦄ where
  -- The destinations of a list; those that cannot be read are skipped.
  unfoldable pub memb_dsts : Libc F → ℕ → List (List ℕ) → List (Dst F)
  memb_dsts libc default_port [] = []
  memb_dsts libc default_port (s ∷ rest) =
      let later = memb_dsts libc default_port rest in
      elim (dst_parse libc s default_port) [ none ↦ later | some (fields, d) ↦ d ∷ later ]

  -- An empty text is an error, which changes nothing.
  unfoldable pub process_membership_change :
      Libc F → ℕ → (Dst F → Start) → List (WdogDst F) → List ℕ → List (WdogDst F)
  unfolding memb_dsts process_members
  process_membership_change libc default_port start ds memb_str =
      elim (parse_token_string memb_str b',') [
        | none ↦ ds
        | some (memb_list, memb_num) ↦
            process_members ds (memb_dsts libc default_port memb_list) start
      ]

  -- Whatever text a destination reports as the members of its cluster, every destination that was added
  -- explicitly stays in its place, with its address and weight, and with its thread as it was.
  pub membership_change-StaysAt :
      (libc : Libc F) (default_port : ℕ) (start : Dst F → Start) (ds : List (WdogDst F))
      (memb_str : List ℕ) (i : ℕ) (d : WdogDst F)
      → get_elem? ds i ≡ some d
      → d.explicit ≡ true
      → StaysAt (process_membership_change libc default_port start ds memb_str) i d
  unfolding process_membership_change
  membership_change-StaysAt libc default_port start ds memb_str i d h x =
      option_split (λ (l : List (WdogDst F)). StaysAt l i d) (parse_token_string memb_str b',') _ _
        (λ _. (d, h, (x, refl, refl)))
        (λ p _. process_members-StaysAt ds (memb_dsts libc default_port p.0) start i d h x)
