-- ===== src/Backend/Factory.antt =====
-- src/glb_wdog.c, `wdog_backend_factory`, and the constructors of the two backends that it knows, in
-- src/glb_wdog_backend.c and src/glb_wdog_exec.c. Memory is there.
use glb.Common.{
  ℕ, ◌≡◌, refl, ap, Bool, true, Option, none, some, List, [], ◌∷◌, ◌++◌, if◌then◌else◌,
}
use glb.Parse.Dst.{split_host}
use glb.Config.{codes, same}
use glb.Backend.Command.{create_env}

-- What the threads are given: nothing that they use, or a command with the environment of the process.
pub data Backend : Type 0 where
  dummy : Option (List ℕ) → Backend
  exec : List ℕ → List (List ℕ) → Backend

pub data Made : Type 0 where
  made : Backend → Made
  einval enosys : Made

unfoldable pub exec_init : Bool → List (List ℕ) → Option (List ℕ) → Made
unfolding create_env
exec_init glbd env none = einval
exec_init glbd env (some []) = einval
exec_init glbd env (some (c ∷ cmd)) = made (exec (c ∷ cmd) (create_env glbd env))

-- The text before the first colon names the backend, and what follows it is for the backend.
unfoldable pub backend_factory : Bool → List (List ℕ) → List ℕ → Made
unfolding split_host exec_init
backend_factory glbd env watchdog =
    let (name, spec) = split_host watchdog in
    if same name (codes "dummy")
    then made (dummy spec)
    else if same name (codes "exec")
    then exec_init glbd env spec
    else enosys

-- A command after "exec:" is the command of the backend, and a daemon hands its environment on whole.
backend_factory_exec :
    (env : List (List ℕ)) (c : ℕ) (cmd : List ℕ)
    → backend_factory true env (codes "exec" ++ b':' ∷ c ∷ cmd) ≡ made (exec (c ∷ cmd) env)
unfolding backend_factory same split_host exec_init create_env
backend_factory_exec env c cmd = ap (λ e. made (exec (c ∷ cmd) e)) (keeps env)
  where
    keeps : (es : List (List ℕ)) → create_env true es ≡ es
    keeps [] = refl
    keeps (e ∷ es) = ap (◌∷◌ e) (keeps es)
