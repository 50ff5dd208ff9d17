-- ===== src/Limits.antt =====
-- src/glb_limits.c: how many connections the limit on open files allows, on a 64-bit host, where
-- `int` has 32 bits.
use glb.Common.{
  ℕ, ◌+◌, ◌-◌, ◌*◌, ◌/◌, ◌%◌, ◌^◌, ◌≤◌, ◌<◌, ◌≡◌, Bool, leb, ltb, arith, if_split, if_intro,
  if◌then◌else◌,
}

pub record Rlimit : Type 0 where
  pub rlim_cur : ℕ
  pub rlim_max : ℕ

-- Five descriptors of the process itself, and those of the control connections.
abbrev pub reserved : ℕ
reserved = 37

-- The subtraction is unsigned, of 64 bits, and the result is cut to the 32 bits of an `int`:
-- not a negative one where the soft limit is below 2^32 and not below what is reserved.
unfoldable pub get_conn_limit : Rlimit → ℕ
get_conn_limit rlp = (rlp.rlim_cur + (2 ^ 64 - reserved)) % 2 ^ 64 / 2 % 2 ^ 32

-- An `int` cut from a number, and then read as an unsigned number of 64 bits.
unfoldable pub int_as_u64 : ℕ → ℕ
int_as_u64 n = let w = n % 2 ^ 32 in if ltb w (2 ^ 31) then w else w + (2 ^ 64 - 2 ^ 32)

-- An `int`, which is compared with limits and assigned to them.
unfoldable pub nofiles : ℕ → ℕ
unfolding int_as_u64
nofiles val = int_as_u64 (val * 2 + reserved)

-- The limits after the first `setrlimit`, where it succeeds.
unfoldable raised : Rlimit → ℕ → Rlimit
unfolding nofiles
raised rlp val = record {
  rlim_cur = nofiles val;
  rlim_max = if ltb rlp.rlim_max (nofiles val) then nofiles val else rlp.rlim_max;
}

-- The limits, and the number of connections that is returned. `allowed` tells whether the first
-- `setrlimit` succeeds. If it does not, the hard limit, which was kept in an `int`, is what both limits
-- are set to by the second one, which succeeds.
unfoldable pub set_conn_limit : Rlimit → ℕ → Bool → Rlimit × ℕ
unfolding nofiles raised get_conn_limit int_as_u64
set_conn_limit rlp val allowed =
    let kept = int_as_u64 rlp.rlim_max in
    let most = record rlp { rlim_cur = kept; rlim_max = kept } in
    if leb (nofiles val) rlp.rlim_cur
    then (rlp, val)
    else if allowed
    then (raised rlp val, val)
    else (most, get_conn_limit most)

pub int_as_u64-small : (n : ℕ) → n < 2 ^ 31 → int_as_u64 n ≡ n
unfolding int_as_u64
int_as_u64-small n h = ground arith

-- The connections that are returned fit the limit on open files that is left behind, and are at
-- most what `get_conn_limit` then gives, whether raising the limit is allowed or not. The limits and
-- the descriptors that are asked for are below 2^31, as they go through an `int`, and the hard limit is
-- at least what is reserved and not below the soft one.
pub set_conn_limit_enough :
    (rlp : Rlimit) (val : ℕ) (allowed : Bool)
    → reserved ≤ rlp.rlim_max
    → rlp.rlim_cur ≤ rlp.rlim_max
    → rlp.rlim_max < 2 ^ 31
    → val * 2 + reserved < 2 ^ 31
    → let (rlp', val') = set_conn_limit rlp val allowed in
      (nofiles val' ≤ rlp'.rlim_cur) × (val' ≤ get_conn_limit rlp')
unfolding set_conn_limit nofiles raised get_conn_limit
set_conn_limit_enough rlp val allowed r c m n =
    let asked = int_as_u64-small (val * 2 + reserved) n in
    let kept = int_as_u64-small rlp.rlim_max m in
    if_split (λ (o : Rlimit × ℕ). (nofiles o.1 ≤ o.0.rlim_cur) × (o.1 ≤ get_conn_limit o.0))
      (leb (nofiles val) rlp.rlim_cur) _ _ (λ e. ground (arith, asked))
      (λ e.
        if_intro (λ (o : Rlimit × ℕ). (nofiles o.1 ≤ o.0.rlim_cur) × (o.1 ≤ get_conn_limit o.0))
          allowed _ _ (ground (arith, asked)) (ground (arith, asked, kept)))
