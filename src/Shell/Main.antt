-- ===== src/Shell/Main.antt =====
-- hw02/shell.c: the loop over the command lines.
use operating_systems_git.Prelude.{
  ℕ, ◌+◌, none, some, Bool, true, false, List, [], ◌∷◌, ◌==◌, if◌then◌else◌, length,
}
use operating_systems_git.Shell.Process.{Token, Env, Proc, undefined, pure, exit, ◌>>=◌, ◌>>◌}
use operating_systems_git.Shell.Exec.{Arglist, prepare}
use operating_systems_git.Shell.Parse.{process_arglist}
use operating_systems_git.Shell.Words.{read_words}

-- One line of the input, with the answers of the kernel to its command; `memory` tells that its
-- calls of `malloc` and `realloc` succeed.
pub record Input : Type 0 where
  pub line : List ℕ
  pub memory : Bool
  pub env : Env

-- The words as `char **`, with NULL behind them.
abbrev pub arglist_of : List Token → Arglist
arglist_of [] = none ∷ []
arglist_of (w ∷ ws) = some w ∷ arglist_of ws

-- The body of the loop: true to go on.
unfoldable pub one_line : Input → Proc Bool
one_line input =
    if input.memory
    then elim (read_words (length input.line + 1) input.line) [
      | none ↦ undefined []
      | some ws ↦ if length ws == 0 then pure true else do
        status ← process_arglist input.env (length ws) (arglist_of ws)
        pure (if status == 0 then false else true)
    ]
    else exit 1

-- The loop ends with the input, or when a command returns 0.
unfoldable pub loop : List Input → Proc (Unit {0})
unfolding one_line
loop [] = pure tt
loop (input ∷ inputs) =
    let rest = loop inputs in do continue ← one_line input; if continue then rest else pure tt

-- `finalize` returns 0 always.
unfoldable pub main : (sigint_ok sigchld_ok : Bool) → List Input → Proc ℕ
unfolding loop prepare
main sigint_ok sigchld_ok inputs =
    if prepare sigint_ok sigchld_ok then (do loop inputs; pure 0) else exit 1
