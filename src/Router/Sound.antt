-- ===== src/Router/Sound.antt =====
-- The representation invariant of the router, and what an operation has to keep for it.
use glb.Common.{
  ℕ, zero, suc, ◌+◌, ◌-◌, ◌<◌, ◌≡◌, refl, sym, ap, ◌∙◌, false, Option, none, some, List, [], ◌∷◌,
  length, get_elem?, set, All, arith,
}
use glb.Double.{Double}
use glb.Dst.{Dst, dst_is_equal}
use glb.Router.State.{RouterDst, Router}

-- The part of a destination that checks, failures and the map leave alone.
pub record Core (F : Type 0) : Type 0 where
  pub dst : Dst F
  pub usage : F
  pub conns : ℕ

abbrev pub InRange : Option ℕ → ℕ → Type 0
InRange none n = Unit
InRange (some i) n = i < n

module _ {F : Type 0} where
  abbrev pub core : RouterDst F → Core F
  core d = record { dst = d.dst; usage = d.usage; conns = d.conns }

  abbrev pub cores : List (RouterDst F) → List (Core F)
  cores [] = []
  cores (d ∷ ds) = core d ∷ cores ds

  abbrev pub sum_conns : List (Core F) → ℕ
  sum_conns [] = 0
  sum_conns (c ∷ cs) = c.conns + sum_conns cs

  -- No two destinations are equal.
  abbrev pub Distinct : List (Core F) → Type 0
  Distinct [] = Unit
  Distinct (c ∷ cs) = All (λ c'. dst_is_equal c.dst c'.dst ≡ false) cs × Distinct cs

  -- The round-robin cursor is an index, or 0 where there is no destination.
  abbrev pub HasCursor : Router F → Type 0
  HasCursor r = r.rrb_next < suc (length r.dst - 1)

  abbrev pub HasTop : Router F → Type 0
  HasTop r = InRange r.top_dst (length r.dst)

  length-cores : (ds : List (RouterDst F)) → length (cores ds) ≡ length ds
  length-cores [] = refl
  length-cores (d ∷ ds) = ap suc (length-cores ds)

  pub cores-set :
      (ds : List (RouterDst F)) (i : ℕ) (d d' : RouterDst F)
      → get_elem? ds i ≡ some d
      → core d' ≡ core d
      → cores (set ds i d') ≡ cores ds
  cores-set [] i d d' h e = refl
  cores-set (x ∷ ds) zero d d' h e = ground arith
  cores-set (x ∷ ds) (suc i) d d' h e = ap (◌∷◌ (core x)) (cores-set ds i d d' h e)

  -- What an operation that leaves the cores alone keeps.
  pub record Kept (r r' : Router F) : Type 0 where
    pub cores_kept : cores r'.dst ≡ cores r.dst
    pub conns_kept : r'.conns ≡ r.conns
    pub cursor_kept : HasCursor r → HasCursor r'
    pub top_kept : HasTop r → HasTop r'

  pub Kept-refl : (r : Router F) → Kept r r
  Kept-refl r = record {
    cores_kept = refl;
    conns_kept = refl;
    cursor_kept = λ h. h;
    top_kept = λ h. h;
  }

  pub Kept-trans : {r s t : Router F} → Kept r s → Kept s t → Kept r t
  Kept-trans h k = record {
    cores_kept = k.cores_kept ∙ h.cores_kept;
    conns_kept = k.conns_kept ∙ h.conns_kept;
    cursor_kept = λ c. k.cursor_kept (h.cursor_kept c);
    top_kept = λ c. k.top_kept (h.top_kept c);
  }

  pub length-Kept : {r r' : Router F} → Kept r r' → length r'.dst ≡ length r.dst
  length-Kept {r} {r'} k = sym (length-cores r'.dst) ∙ ap length k.cores_kept ∙ length-cores r.dst

  -- The cursor, the top destination and the length are the same.
  pub Kept-of_cores :
      {r r' : Router F}
      → cores r'.dst ≡ cores r.dst
      → r'.conns ≡ r.conns
      → r'.rrb_next ≡ r.rrb_next
      → r'.top_dst ≡ r.top_dst
      → Kept r r'
  Kept-of_cores {r} {r'} e c n t = record {
    cores_kept = e;
    conns_kept = c;
    cursor_kept = λ h. rw (n, same) h;
    top_kept = λ h. rw (t, same) h;
  }
    where
      same : length r'.dst ≡ length r.dst
      same = sym (length-cores r'.dst) ∙ ap length e ∙ length-cores r.dst

module _ {F : Type 0} ⦃fp : Double F⦄ where
  open fp use {of_ℕ, div}

  -- The usage is what it is computed to be.
  abbrev pub HasUsage : Core F → Type 0
  HasUsage c = c.usage ≡ div c.dst.weight (of_ℕ (c.conns + 1))

  pub record IsCounted (cs : List (Core F)) (n : ℕ) : Type 0 where
    pub total : n ≡ sum_conns cs
    pub usages : All HasUsage cs
    pub distinct : Distinct cs

  pub record IsSound (r : Router F) : Type 0 where
    pub counted : IsCounted (cores r.dst) r.conns
    pub cursor : HasCursor r
    pub top : HasTop r

  pub Kept-IsSound : {r r' : Router F} → Kept r r' → IsSound r → IsSound r'
  Kept-IsSound {r} {r'} k s = record {
    counted = rw (k.cores_kept, k.conns_kept) s.counted;
    cursor = k.cursor_kept s.cursor;
    top = k.top_kept s.top;
  }
