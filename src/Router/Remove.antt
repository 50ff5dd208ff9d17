-- ===== src/Router/Remove.antt =====
-- The removal of an entry by copying the last one over it.
use glb.Common.{
  ℕ, zero, suc, ◌+◌, ◌-◌, ◌<◌, ◌≤◌, ◌≡◌, refl, sym, ap, ◌∙◌, false, some, List, [], ◌∷◌, ◌++◌,
  length, get_elem?, set, take, arith, All, All-unsnoc, ltb→lt, length-append, length-set, ltb, inl,
  inr, Bool-cases,
}
use glb.SockAddr.{sockaddr_is_equal}
use glb.Dst.{Dst, dst_is_equal}
use glb.Router.State.{RouterDst}
use glb.Router.Change.{remove_at}
use glb.Router.Sound.{Core, core, cores, sum_conns, Distinct}

module _ {ℓ} {A : Type ℓ} where
  take-snoc : (xs : List A) (l : A) → take (length xs) (xs ++ l ∷ []) ≡ xs
  take-snoc [] l = refl
  take-snoc (x ∷ xs) l = ap (◌∷◌ x) (take-snoc xs l)

  get-snoc : (xs : List A) (l : A) → get_elem? (xs ++ l ∷ []) (length xs) ≡ some l
  get-snoc [] l = refl
  get-snoc (x ∷ xs) l = get-snoc xs l

  get-append :
      (xs : List A) (l : A) (i : ℕ) → i < length xs → get_elem? (xs ++ l ∷ []) i ≡ get_elem? xs i
  get-append [] l i h = absurd (omega arith)
  get-append (x ∷ xs) l zero h = refl
  get-append (x ∷ xs) l (suc i) h = get-append xs l i (omega arith)

  set-append :
      (xs : List A) (l v : A) (i : ℕ)
      → i < length xs
      → set (xs ++ l ∷ []) i v ≡ set xs i v ++ l ∷ []
  set-append [] l v i h = absurd (omega arith)
  set-append (x ∷ xs) l v zero h = refl
  set-append (x ∷ xs) l v (suc i) h = ap (◌∷◌ x) (set-append xs l v i (omega arith))

  set_beyond : (xs : List A) (i : ℕ) (v : A) → length xs ≤ i → set xs i v ≡ xs
  set_beyond [] i v h = refl
  set_beyond (x ∷ xs) zero v h = absurd (omega arith)
  set_beyond (x ∷ xs) (suc i) v h = ap (◌∷◌ x) (set_beyond xs i v (omega arith))

  -- A list that is not empty ends in an entry.
  pub snoc_view : (ds : List A) → 0 < length ds → (xs : List A) × (l : A) × (ds ≡ xs ++ l ∷ [])
  snoc_view [] h = absurd (omega arith)
  snoc_view (d ∷ []) h = ([], d, refl)
  snoc_view (d ∷ e ∷ ds) h =
      let (xs, l, p) = snoc_view (e ∷ ds) (omega arith) in (d ∷ xs, l, ap (◌∷◌ d) p)

module _ {F : Type 0} where
  -- What `remove_at` makes of a list with its last entry shown.
  pub remove_at-snoc :
      (xs : List (RouterDst F)) (l : RouterDst F) (i : ℕ)
      → i ≤ length xs
      → remove_at (xs ++ l ∷ []) i ≡ set xs i l
  unfolding remove_at
  remove_at-snoc xs l i h =
      let len : length (xs ++ l ∷ []) - 1 ≡ length xs = omega (arith, length-append xs (l ∷ [])) in
      elim (Bool-cases (ltb (i + 1) (length (xs ++ l ∷ [])))) [
        | inl e ↦
            let lt : i < length xs = omega (arith, length-append xs (l ∷ []), ltb→lt (i + 1) _ e) in
            rw (e, len, get-snoc xs l, set-append xs l l i lt, ← length-set xs i l)
              (take-snoc (set xs i l) l)
        | inr e ↦
            rw (e, len, take-snoc xs l)
              (sym (set_beyond xs i l (ground (arith, length-append xs (l ∷ [])))))
      ]

  pub cores-append :
      (xs : List (RouterDst F)) (l : RouterDst F) → cores (xs ++ l ∷ []) ≡ cores xs ++ core l ∷ []
  cores-append [] l = refl
  cores-append (x ∷ xs) l = ap (◌∷◌ (core x)) (cores-append xs l)

  pub sum_conns-append :
      (cs : List (Core F)) (c : Core F) → sum_conns (cs ++ c ∷ []) ≡ sum_conns cs + c.conns
  sum_conns-append [] c = omega arith
  sum_conns-append (x ∷ cs) c = omega (arith, sum_conns-append cs c)

  pub dst_is_equal_comm : (a b : Dst F) → dst_is_equal a b ≡ dst_is_equal b a
  unfolding dst_is_equal sockaddr_is_equal
  dst_is_equal_comm a b = ground arith

  -- Distinct entries stay so when the last one is moved.
  All-differ-move :
      (x l : Core F) (cs : List (Core F)) (i : ℕ)
      → All (λ c. dst_is_equal x.dst c.dst ≡ false) (cs ++ l ∷ [])
      → All (λ c. dst_is_equal x.dst c.dst ≡ false) (set cs i l)
  All-differ-move x l [] i h = tt
  All-differ-move x l (k ∷ cs) zero h =
      let (hs, p) = All-unsnoc (λ c. dst_is_equal x.dst c.dst ≡ false) cs l h.1 in (p, hs)
  All-differ-move x l (k ∷ cs) (suc i) h = (h.0, All-differ-move x l cs i h.1)

  pub All-differ-last :
      (l : Core F) (cs : List (Core F))
      → Distinct (cs ++ l ∷ [])
      → All (λ c. dst_is_equal l.dst c.dst ≡ false) cs
  All-differ-last l [] h = tt
  All-differ-last l (k ∷ cs) h =
      let (_, p) = All-unsnoc (λ c. dst_is_equal k.dst c.dst ≡ false) cs l h.0 in
      (dst_is_equal_comm l.dst k.dst ∙ p, All-differ-last l cs h.1)

  Distinct-init : (l : Core F) (cs : List (Core F)) → Distinct (cs ++ l ∷ []) → Distinct cs
  Distinct-init l [] h = tt
  Distinct-init l (k ∷ cs) h =
      let (hs, _) = All-unsnoc (λ c. dst_is_equal k.dst c.dst ≡ false) cs l h.0 in
      (hs, Distinct-init l cs h.1)

  pub Distinct-move :
      (l : Core F) (cs : List (Core F)) (i : ℕ) → Distinct (cs ++ l ∷ []) → Distinct (set cs i l)
  Distinct-move l [] i h = tt
  Distinct-move l (k ∷ cs) zero h = (All-differ-last l cs h.1, Distinct-init l cs h.1)
  Distinct-move l (k ∷ cs) (suc i) h = (All-differ-move k l cs i h.0, Distinct-move l cs i h.1)

  -- The sum without the removed entry.
  pub sum_conns-move :
      (l c : Core F) (cs : List (Core F)) (i : ℕ)
      → get_elem? (cs ++ l ∷ []) i ≡ some c
      → sum_conns (set cs i l) + c.conns ≡ sum_conns (cs ++ l ∷ [])
  sum_conns-move l c [] zero h = ground arith
  sum_conns-move l c [] (suc i) h = absurd (ground arith)
  sum_conns-move l c (k ∷ cs) zero h = ground (arith, sum_conns-append cs l)
  sum_conns-move l c (k ∷ cs) (suc i) h = omega (arith, sum_conns-move l c cs i h)
