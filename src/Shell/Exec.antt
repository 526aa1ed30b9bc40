-- ===== src/Shell/Exec.antt =====
-- hw02/myshell.c: the commands, each run in the parent and, after a fork, in a child.
use operating_systems_git.Prelude.{
  ℕ, zero, suc, ◌+◌, Option, none, some, Bool, false, List, [], ◌∷◌, ◌==◌, if◌then◌else◌,
}
use mathlib.Core.Option.{map}
use operating_systems_git.Shell.Process.{
  Token, Fork, failed, child, parent, other_error, fork, pipe, restore_sigint, waitpid, open_file,
  dup2, close, execvp, Env, Proc, replaced, undefined, pure, exit, call, known, ◌>>=◌, ◌>>◌,
}

-- `char **arglist`, NULL being `none`.
abbrev pub Arglist : Type 0
Arglist = List (Option Token)

-- `arglist[i] = NULL`; `none` here and below: behind the array there is no memory of the program's.
unfoldable pub set_null : ℕ → Arglist → Option Arglist
set_null i [] = none
set_null zero (a ∷ l) = some (none ∷ l)
set_null (suc i) (a ∷ l) = map (λ m. a ∷ m) (set_null i l)

-- `&arglist[i]`
unfoldable pub from_index : ℕ → Arglist → Option Arglist
from_index zero l = some l
from_index (suc i) [] = none
from_index (suc i) (a ∷ l) = from_index i l

-- The words up to the first NULL, which `execvp` takes.
unfoldable pub argv : Arglist → Option (List Token)
argv [] = none
argv (none ∷ l) = some []
argv (some a ∷ l) = map (λ ws. a ∷ ws) (argv l)

abbrev pub stdin_fileno : ℕ
stdin_fileno = 0

abbrev pub stdout_fileno : ℕ
stdout_fileno = 1

-- The branches on the result of `fork`.
abbrev pub on_fork : {A : Type 0} → Fork → Proc A → Proc A → (ℕ → Proc A) → Proc A
on_fork failed f c p = f
on_fork child f c p = c
on_fork (parent pid) f c p = p pid

-- Both calls of `signal` in `prepare`; messages on stderr are left out here and below.
unfoldable pub prepare : (sigint_ok sigchld_ok : Bool) → Bool
prepare sigint_ok sigchld_ok = if sigint_ok then sigchld_ok else false

module _ (env : Env) where
  -- 0 where the wait failed for another reason than ECHILD or EINTR.
  unfoldable pub wait_child_process : ℕ → Proc ℕ
  wait_child_process pid = do
    call (waitpid pid)
    pure (elim (env.waited pid) [ other_error ↦ 0 | _ ↦ 1 ])

  -- `if (signal(SIGINT, SIG_DFL) == SIG_ERR) exit(1)`
  unfoldable pub restore : Proc (Unit {0})
  restore = do call restore_sigint; (if env.signal_ok then pure tt else exit 1)

  -- `execvp` with these words; a NULL for the name is not defined.
  abbrev pub execute : List Token → Proc ℕ
  execute [] = undefined []
  execute (w ∷ ws) = do call (execvp (w ∷ ws)); if env.exec_ok then replaced [] else exit 1

  -- `if (execvp(arglist[0], arglist)) exit(1)`
  unfoldable pub exec : Arglist → Proc ℕ
  exec arglist = known (argv arglist) execute

  -- The parent's wait for its child.
  unfoldable pub await : ℕ → Proc ℕ
  unfolding wait_child_process
  await pid = do w ← wait_child_process pid; pure (if w == 0 then 0 else 1)

  unfoldable pub normal_exec : Arglist → Proc ℕ
  unfolding restore exec await
  normal_exec arglist = do call fork; on_fork env.fork_a (pure 0) (do restore; exec arglist) await

  unfoldable pub background_exec : ℕ → Arglist → Proc ℕ
  unfolding exec
  background_exec count arglist = do
    call fork
    on_fork env.fork_a (pure 0) (known (set_null count arglist) exec) (λ _. pure 1)

  unfoldable pub redirection_exec : ℕ → Arglist → Option Token → Proc ℕ
  unfolding restore exec await
  redirection_exec count arglist filename = do
    call fork
    on_fork env.fork_a (pure 0)
        (do
          call (open_file filename)
          elim env.opened [
            | none ↦ exit 1
            | some fd ↦ (do
              call (dup2 fd stdout_fileno)
              call (close fd)
              restore
              known (set_null count arglist) exec)
          ])
        await

  -- The first child of a pipe writes.
  unfoldable pub pipe_writer : (readerfds writerfds : ℕ) → Arglist → Proc ℕ
  unfolding restore exec
  pipe_writer readerfds writerfds arglist = do
    call (close readerfds)
    call (dup2 writerfds stdout_fileno)
    call (close writerfds)
    restore
    exec arglist

  -- The second reads, and executes `&arglist[i + 1]`.
  unfoldable pub pipe_reader : (readerfds writerfds i : ℕ) → Arglist → Proc ℕ
  unfolding restore exec
  pipe_reader readerfds writerfds i arglist = do
    call (close writerfds)
    call (dup2 readerfds stdin_fileno)
    call (close readerfds)
    restore
    known (from_index (i + 1) arglist) exec

  -- The parent's end of it.
  unfoldable pub pipe_parent : (readerfds writerfds ca_pid cb_pid : ℕ) → Proc ℕ
  unfolding wait_child_process
  pipe_parent readerfds writerfds ca_pid cb_pid = do
    call (close writerfds)
    call (close readerfds)
    a ← wait_child_process ca_pid
    b ← wait_child_process cb_pid
    pure (if a == 0 then 0 else if b == 0 then 0 else 1)

  -- Where `pipe` fails the code goes on with two descriptors that are not set.
  unfoldable pub pipe_exec : ℕ → Arglist → Proc ℕ
  unfolding pipe_writer pipe_reader pipe_parent
  pipe_exec i arglist = do
    call pipe
    elim env.piped [
      | none ↦ undefined []
      | some (readerfds, writerfds) ↦ (do
        call fork
        on_fork env.fork_a (pure 0) (pipe_writer readerfds writerfds arglist) λ ca_pid. (do
          call fork
          on_fork env.fork_b (pure 0) (pipe_reader readerfds writerfds i arglist)
              (λ cb_pid. pipe_parent readerfds writerfds ca_pid cb_pid)))
    ]
