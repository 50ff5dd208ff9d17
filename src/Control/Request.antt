-- ===== src/Control/Request.antt =====
-- src/glb_control.c: what a request asks for, and what it changes, `ctrl_handle_request`.
use glb.Common.{
  ℕ, ◌+◌, ◌≡◌, inl, inr, refl, sym, ap, subst, ◌∙◌, Bool, true, false, not, ◌&&◌, Option, none,
  some, List, [], ◌∷◌, ◌++◌, length, leb, ◌==◌, arith, if_split, if_intro, if◌then◌else◌,
  Option-cases,
}
use glb.Double.{Double}
use glb.SockAddr.{SockAddr}
use glb.Dst.{Dst}
use glb.Cnf.{Cnf}
use glb.Router.State.{Router}
use glb.Router.Change.{Alloc, change_dst}
use glb.Router.Change as RouterChange
use glb.Router.Sound.{IsSound}
use glb.Router.ChangeInvariant.{change_dst-IsSound}
use glb.Wdog.State.{WdogDst}
use glb.Wdog.Change.{Start, wdog_change_dst}
use glb.Wdog.Change as WdogChange
use glb.Parse.Dst.{Libc, dst_parse}

-- `isalnum (c) || ispunct (c)` in the C locale: the visible characters
abbrev is_visible : ℕ → Bool
is_visible c = leb 33 c && leb c 126

-- Trailing characters that are not visible are cut.
unfoldable cut_trailing : List ℕ → List ℕ
cut_trailing [] = []
cut_trailing (c ∷ cs) =
    let rest = cut_trailing cs in if length rest == 0 && not (is_visible c) then [] else c ∷ rest

unfoldable to_lower : ℕ → ℕ
to_lower c = if leb 65 c && leb c 90 then c + 32 else c

-- `!strncasecmp (cmd, req, strlen (cmd))`
unfoldable is_command : List ℕ → List ℕ → Bool
unfolding to_lower
is_command [] req = true
is_command (c ∷ cmd) [] = false
is_command (c ∷ cmd) (r ∷ req) = to_lower c == to_lower r && is_command cmd req

-- "getinfo" and "getstat"
abbrev getinfo_cmd : List ℕ
getinfo_cmd = 103 ∷ 101 ∷ 116 ∷ 105 ∷ 110 ∷ 102 ∷ 111 ∷ []

abbrev getstat_cmd : List ℕ
getstat_cmd = 103 ∷ 101 ∷ 116 ∷ 115 ∷ 116 ∷ 97 ∷ 116 ∷ []

-- What is responded: a report, or whether a change was applied.
pub data Response : Type 0 where
  router_info pool_stats ok_response error_response : Response

-- What the control thread works on: the router, the list of the watchdog if there is one, and whether
-- there is a pool; and the addresses that the pool was told to drop.
pub record Control (F : Type 0) : Type 0 where
  pub router : Router F
  pub wdog : Option (List (WdogDst F))
  pub has_pool : Bool
  pub dropped : List SockAddr

abbrev router_ok : RouterChange.Result ℕ → Bool
router_ok (RouterChange.ok i) = true
router_ok (RouterChange.err e) = false

abbrev wdog_ok : WdogChange.Result ℕ → Bool
wdog_ok (WdogChange.ok i) = true
wdog_ok (WdogChange.err e) = false

module _ {F : Type 0} ⦃fp : Double F⦄ where
  open fp use {nought, lt}

  -- The change goes to the watchdog, if there is one, and to the router otherwise: whether it was
  -- applied, and what it made.
  unfoldable apply_change : Control F → Cnf F → Dst F → Alloc F → Start → Bool × Control F
  unfolding wdog_change_dst change_dst
  apply_change c cnf dst a start = elim c.wdog [
    | some ds ↦
        let (ret, ds') = wdog_change_dst ds dst true start in
        (wdog_ok ret, record c { wdog = some ds' })
    | none ↦
        let (ret, router') = change_dst c.router cnf dst none a in
        (router_ok ret, record c { router = router' })
  ]

  abbrev has_wdog : Control F → Bool
  has_wdog c = elim c.wdog [ none ↦ false | some ds ↦ true ]

  -- A removal is passed on to the pool where there is a watchdog.
  unfoldable drop_removed : Control F → Dst F → Control F
  drop_removed c dst =
      if c.has_pool && (lt dst.weight nought && has_wdog c)
      then record c { dropped = c.dropped ++ dst.addr ∷ [] }
      else c

  unfoldable handle_change : Control F → Cnf F → Dst F → Alloc F → Start → Response × Control F
  unfolding apply_change drop_removed
  handle_change c cnf dst a start =
      let (applied, c') = apply_change c cnf dst a start in
      if applied then (ok_response, drop_removed c' dst) else (error_response, c')

  -- The request `text` was read whole; a closed connection is `del_client`.
  unfoldable pub handle_request :
      Control F → Cnf F → Libc F → ℕ → Alloc F → Start → List ℕ → Response × Control F
  unfolding cut_trailing is_command dst_parse handle_change
  handle_request c cnf libc default_port a start text =
      let req = cut_trailing text in
      if is_command getinfo_cmd req
      then (router_info, c)
      else if c.has_pool && is_command getstat_cmd req
      then (pool_stats, c)
      else elim (dst_parse libc req default_port) [
        | none ↦ (error_response, c)
        | some (n, dst) ↦ handle_change c cnf dst a start
      ]

  apply_change-IsSound :
      (c : Control F) (cnf : Cnf F) (dst : Dst F) (a : Alloc F) (start : Start)
      → IsSound c.router
      → IsSound (apply_change c cnf dst a start).1.router
  unfolding apply_change
  apply_change-IsSound c cnf dst a start h = elim (Option-cases c.wdog) [
    | inl e ↦ rw (e, apply_change) (change_dst-IsSound c.router cnf dst none a h)
    | inr (ds, e) ↦ rw (e, apply_change) h
  ]

  drop_removed-router : (c : Control F) (dst : Dst F) → (drop_removed c dst).router ≡ c.router
  unfolding drop_removed
  drop_removed-router c dst =
      if_intro (λ (x : Control F). x.router ≡ c.router)
        (c.has_pool && (lt dst.weight nought && has_wdog c)) _ _ refl refl

  handle_change-IsSound :
      (c : Control F) (cnf : Cnf F) (dst : Dst F) (a : Alloc F) (start : Start)
      → IsSound c.router
      → IsSound (handle_change c cnf dst a start).1.router
  unfolding handle_change
  handle_change-IsSound c cnf dst a start h =
      let c' = (apply_change c cnf dst a start).1 in
      let s = apply_change-IsSound c cnf dst a start h in
      if_intro (λ (o : Response × Control F). IsSound o.1.router) (apply_change c cnf dst a start).0
        _ _ (subst IsSound (sym (drop_removed-router c' dst)) s) s

  -- Any request keeps the invariant of the router.
  pub handle_request-IsSound :
      (c : Control F) (cnf : Cnf F) (libc : Libc F) (port : ℕ) (a : Alloc F) (start : Start)
      (text : List ℕ)
      → IsSound c.router
      → IsSound (handle_request c cnf libc port a start text).1.router
  unfolding handle_request
  handle_request-IsSound c cnf libc port a start text h =
      let req = cut_trailing text in
      if_intro (λ (o : Response × Control F). IsSound o.1.router) (is_command getinfo_cmd req) _ _ h
        (if_intro (λ (o : Response × Control F). IsSound o.1.router)
          (c.has_pool && is_command getstat_cmd req) _ _ h (parsed (dst_parse libc req port)))
    where
      parsed :
          (o : Option (ℕ × Dst F))
          → IsSound
              (elim o as (λ _. Response × Control F) [
                | none ↦ (error_response, c)
                | some (n, dst) ↦ handle_change c cnf dst a start
              ]).1.router
      parsed none = h
      parsed (some (n, dst)) = handle_change-IsSound c cnf dst a start h

  apply_change-idle :
      (c : Control F) (cnf : Cnf F) (dst : Dst F) (a : Alloc F) (start : Start)
      → c.wdog ≡ none
      → let c' = (apply_change c cnf dst a start).1 in (c'.wdog ≡ none) × (c'.dropped ≡ c.dropped)
  unfolding apply_change
  apply_change-idle c cnf dst a start e = rw e (refl, refl)

  drop_removed-idle :
      (c : Control F) (dst : Dst F) → c.wdog ≡ none → (drop_removed c dst).dropped ≡ c.dropped
  unfolding drop_removed
  drop_removed-idle c dst e =
      let none_there : has_wdog c ≡ false =
        ap
          (λ (o : Option (List (WdogDst F))). elim o as (λ _. Bool) [
            | none ↦ false
            | some ds ↦ true
          ])
          e in
      if_split (λ (x : Control F). x.dropped ≡ c.dropped)
        (c.has_pool && (lt dst.weight nought && has_wdog c)) _ _
        (λ t. absurd (ground (arith, none_there, t))) (λ _. refl)

  idle_change :
      (c : Control F) (cnf : Cnf F) (dst : Dst F) (a : Alloc F) (start : Start)
      → c.wdog ≡ none
      → (handle_change c cnf dst a start).1.dropped ≡ c.dropped
  unfolding handle_change
  idle_change c cnf dst a start e =
      let c' = (apply_change c cnf dst a start).1 in
      let (w, d) = apply_change-idle c cnf dst a start e in
      if_intro (λ (o : Response × Control F). o.1.dropped ≡ c.dropped)
        (apply_change c cnf dst a start).0 _ _ (drop_removed-idle c' dst w ∙ d) d

  -- Without a watchdog no request makes the pool drop connections: not one that removes a destination
  -- from the router either.
  pub handle_request_undropped :
      (c : Control F) (cnf : Cnf F) (libc : Libc F) (port : ℕ) (a : Alloc F) (start : Start)
      (text : List ℕ)
      → c.wdog ≡ none
      → (handle_request c cnf libc port a start text).1.dropped ≡ c.dropped
  unfolding handle_request
  handle_request_undropped c cnf libc port a start text e =
      let req = cut_trailing text in
      if_intro (λ (o : Response × Control F). o.1.dropped ≡ c.dropped) (is_command getinfo_cmd req)
        _ _ refl
        (if_intro (λ (o : Response × Control F). o.1.dropped ≡ c.dropped)
          (c.has_pool && is_command getstat_cmd req) _ _ refl (parsed (dst_parse libc req port)))
    where
      parsed :
          (o : Option (ℕ × Dst F))
          → (elim o as (λ _. Response × Control F) [
            | none ↦ (error_response, c)
            | some (n, dst) ↦ handle_change c cnf dst a start
          ]).1.dropped
            ≡ c.dropped
      parsed none = refl
      parsed (some (n, dst)) = idle_change c cnf dst a start e
