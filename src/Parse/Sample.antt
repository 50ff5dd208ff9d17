-- ===== src/Parse/Sample.antt =====
-- Functions of the C library for concrete texts.
use glb.Common.{ℕ, ◌+◌, ◌*◌, ◌-◌, ◌&&◌, some, List, [], ◌∷◌, leb, if◌then◌else◌}
use glb.Common.Int.{ℤ}
use glb.Double.Fixed.{millionths}
use glb.Parse.Dst.{Libc}

-- The decimal number at the start of a text, from `n` on, and the rest.
abbrev pub decimal : ℕ → List ℕ → ℕ × List ℕ
decimal n [] = (n, [])
decimal n (c ∷ cs) =
    let rest = decimal (n * 10 + (c - 48)) cs in if leb 48 c && leb c 57 then rest else (n, c ∷ cs)

-- Weights are whole numbers here, and every host has the address 1.
abbrev pub libc : Libc ℤ
libc = record {
  strtoul = decimal 0;
  strtod = λ s. let (n, rest) = decimal 0 s in (millionths (n * 1_000_000), rest);
  gethostbyname = λ s. some 1;
}
