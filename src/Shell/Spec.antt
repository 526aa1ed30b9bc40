-- ===== src/Shell/Spec.antt =====
-- The commands of the shell, and what running one means, on lists of words.
use operating_systems_git.Prelude.{
  ℕ, zero, suc, Option, none, some, Bool, true, false, List, [], ◌∷◌, ◌++◌, if◌then◌else◌,
}
use operating_systems_git.Shell.Process.{
  Token, Fork, failed, child, parent, Wait, reaped, echild, eintr, other_error, Call, fork, pipe,
  restore_sigint, waitpid, open_file, dup2, close, execvp, Env, Proc, returns, exits, replaced,
  undefined,
}
use operating_systems_git.Shell.Parse.{is_byte}

pub data Command : Type 0 where
  plain background : List Token → Command
  redirect : List Token → Option Token → Command
  pipeline : (writer reader : List Token) → Command
  misplaced : Command

abbrev pub first_word : List Token → Option Token
first_word [] = none
first_word (w ∷ ws) = some w

abbrev pub unless_empty : List Token → Command → Command
unless_empty [] c = misplaced
unless_empty (w ∷ ws) c = c

-- The words read so far, and those to come.
unfoldable pub parse : List Token → List Token → Command
parse before [] = plain before
parse before (w ∷ ws) =
    let rest = parse (before ++ (w ∷ [])) ws in
    if is_byte b'&' w
    then unless_empty before (background before)
    else if is_byte b'>' w
    then unless_empty before (redirect before (first_word ws))
    else if is_byte b'|' w
    then pipeline before ws
    else rest

-- A wait went wrong if it failed for another reason than ECHILD or EINTR.
abbrev pub status_of : Wait → ℕ
status_of other_error = 0
status_of reaped = 1
status_of echild = 1
status_of eintr = 1

abbrev pub worse : ℕ → ℕ → ℕ
worse zero b = 0
worse (suc a) b = b

-- A child that ends in a program, or in `exit(1)`, having made the calls `t`.
abbrev pub program : Bool → List Call → Proc ℕ
program true t = replaced t
program false t = exits 1 t

-- The same, after the default action of SIGINT is restored; what no words run is not defined.
abbrev pub foreground : Env → List Call → List Token → Proc ℕ
foreground env t [] =
    if env.signal_ok
    then undefined (t ++ (restore_sigint ∷ []))
    else exits 1 (t ++ (restore_sigint ∷ []))
foreground env t (w ∷ ws) =
    if env.signal_ok
    then program env.exec_ok (t ++ (restore_sigint ∷ execvp (w ∷ ws) ∷ []))
    else exits 1 (t ++ (restore_sigint ∷ []))

abbrev pub without_restore : Env → List Call → List Token → Proc ℕ
without_restore env t [] = undefined (t ++ [])
without_restore env t (w ∷ ws) = program env.exec_ok (t ++ (execvp (w ∷ ws) ∷ []))

abbrev pub waits_for : Env → List Call → ℕ → Proc ℕ
waits_for env t pid = returns (status_of (env.waited pid)) (t ++ (waitpid pid ∷ []))

abbrev pub redirected : Env → List Token → Option Token → Proc ℕ
redirected env ws file = elim env.opened [
  | none ↦ exits 1 (fork ∷ open_file file ∷ [])
  | some fd ↦ foreground env (fork ∷ open_file file ∷ dup2 fd 1 ∷ close fd ∷ []) ws
]

abbrev pub piped_second : Env → (r w pid : ℕ) → List Token → Fork → Proc ℕ
piped_second env r w pid ws failed = returns 0 (pipe ∷ fork ∷ fork ∷ [])
piped_second env r w pid ws child =
    foreground env (pipe ∷ fork ∷ fork ∷ close w ∷ dup2 r 0 ∷ close r ∷ []) ws
piped_second env r w pid ws (parent pid') =
    returns (worse (status_of (env.waited pid)) (status_of (env.waited pid')))
      (pipe ∷ fork ∷ fork ∷ close w ∷ close r ∷ waitpid pid ∷ waitpid pid' ∷ [])

abbrev pub piped_first : Env → (r w : ℕ) → (writer reader : List Token) → Fork → Proc ℕ
piped_first env r w writer reader failed = returns 0 (pipe ∷ fork ∷ [])
piped_first env r w writer reader child =
    foreground env (pipe ∷ fork ∷ close r ∷ dup2 w 1 ∷ close w ∷ []) writer
piped_first env r w writer reader (parent pid) = piped_second env r w pid reader env.fork_b

-- The calls of each process and how it ends.
abbrev pub meaning : Env → Command → Proc ℕ
meaning env (plain ws) = elim env.fork_a [
  | failed ↦ returns 0 (fork ∷ [])
  | child ↦ foreground env (fork ∷ []) ws
  | parent pid ↦ waits_for env (fork ∷ []) pid
]
meaning env (background ws) = elim env.fork_a [
  | failed ↦ returns 0 (fork ∷ [])
  | child ↦ without_restore env (fork ∷ []) ws
  | parent pid ↦ returns 1 (fork ∷ [])
]
meaning env (redirect ws file) = elim env.fork_a [
  | failed ↦ returns 0 (fork ∷ [])
  | child ↦ redirected env ws file
  | parent pid ↦ waits_for env (fork ∷ []) pid
]
meaning env (pipeline writer reader) = elim env.piped [
  | none ↦ undefined (pipe ∷ [])
  | some (r, w) ↦ piped_first env r w writer reader env.fork_a
]
meaning env misplaced = exits 1 []
