-- ===== src/Backend/Command.antt =====
-- src/glb_wdog_exec.c: the command line of the process that checks a destination, `exec_create_cmd`,
-- and the environment it gets.
use glb.Common.{
  ℕ, ◌+◌, ◌/◌, ◌%◌, ◌==◌, ltb, Bool, true, false, List, [], ◌∷◌, ◌++◌, length, take, drop,
  if◌then◌else◌,
}
use glb.Config.{codes}

abbrev digit : ℕ → ℕ
digit d = b'0' + d

-- `%hu` of a 16-bit number
unfoldable pub port_digits : ℕ → List ℕ
port_digits p =
    if ltb p 10
    then digit p ∷ []
    else if ltb p 100
    then digit (p / 10) ∷ digit (p % 10) ∷ []
    else if ltb p 1000
    then digit (p / 100) ∷ digit (p / 10 % 10) ∷ digit (p % 10) ∷ []
    else if ltb p 10000
    then digit (p / 1000) ∷ digit (p / 100 % 10) ∷ digit (p / 10 % 10) ∷ digit (p % 10) ∷ []
    else digit (p / 10000)
      ∷ digit (p / 1000 % 10)
      ∷ digit (p / 100 % 10)
      ∷ digit (p / 10 % 10)
      ∷ digit (p % 10)
      ∷ []

-- The offset of the first space, or the length.
unfoldable pub cmd_offset : List ℕ → ℕ
cmd_offset [] = 0
cmd_offset (c ∷ cs) = let rest = cmd_offset cs in if c == b' ' then 0 else rest + 1

-- `sprintf (..., " %s:%hu", host, port)`
unfoldable pub host_port : List ℕ → ℕ → List ℕ
unfolding port_digits
host_port host port = b' ' ∷ (host ++ b':' ∷ port_digits port)

-- The address of the destination becomes the first argument of the command.
unfoldable pub create_cmd : List ℕ → List ℕ → ℕ → List ℕ
unfolding cmd_offset host_port
create_cmd cmd host port =
    take (cmd_offset cmd) cmd ++ (host_port host port ++ drop (cmd_offset cmd) cmd)

-- The bytes that are allocated for the new command and its NUL.
unfoldable pub cmd_size : List ℕ → List ℕ → ℕ
cmd_size cmd host = length cmd + length host + 7

abbrev starts_with : List ℕ → List ℕ → Bool
starts_with [] s = true
starts_with (x ∷ xs) [] = false
starts_with (x ∷ xs) (y ∷ ys) = if x == y then starts_with xs ys else false

-- The environment of the process: that of the daemon, or that of the program less what preloads the
-- library.
unfoldable pub create_env : Bool → List (List ℕ) → List (List ℕ)
create_env glbd [] = []
create_env glbd (e ∷ es) =
    let rest = create_env glbd es in
    if glbd then e ∷ rest else if starts_with (codes "LD_PRELOAD=") e then rest else e ∷ rest
