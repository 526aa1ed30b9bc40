-- ===== src/Shell/Commands.antt =====
-- hw02/myshell.c: what each command does in the parent and in its children, on words.
use operating_systems_git.Prelude.{
  ℕ, ◌+◌, ◌≡◌, refl, ◌∙◌, ap, Option, some, List, [], ◌∷◌, ◌++◌, ◌==◌, if◌then◌else◌, arith,
}
use operating_systems_git.Shell.Process.{
  Token, Fork, failed, child, parent, Wait, reaped, echild, eintr, other_error, Env, Proc, Call,
  fork, pipe, after, ◌>>◌, call, returns, exits, replaced, undefined, pure, waitpid, close, dup2,
  open_file, known,
}
use operating_systems_git.Shell.Exec.{
  Arglist, set_null, from_index, argv, on_fork, wait_child_process, restore, exec, execute, await,
  normal_exec, background_exec, redirection_exec, pipe_writer, pipe_reader, pipe_parent, pipe_exec,
}
use operating_systems_git.Shell.Spec.{
  plain, background, redirect, pipeline, meaning, waits_for, foreground, status_of, worse,
  piped_first, piped_second, without_restore,
}

status_lem :
    (x : Wait)
    → (if (elim x as (λ _. ℕ) [ other_error ↦ 0 | _ ↦ 1 ]) == 0 then 0 else 1) ≡ status_of x
status_lem reaped = refl
status_lem echild = refl
status_lem eintr = refl
status_lem other_error = refl

both_status :
    (x y : Wait)
    → (if (elim x as (λ _. ℕ) [ other_error ↦ 0 | _ ↦ 1 ]) == 0
        then 0
        else if (elim y as (λ _. ℕ) [ other_error ↦ 0 | _ ↦ 1 ]) == 0
        then 0
        else 1)
      ≡ worse (status_of x) (status_of y)
both_status reaped y = status_lem y
both_status echild y = status_lem y
both_status eintr y = status_lem y
both_status other_error y = refl

await_lem : (env : Env) (t : List Call) (pid : ℕ) → after t (await env pid) ≡ waits_for env t pid
unfolding await wait_child_process
await_lem env t pid = ap (λ n. returns n (t ++ (waitpid pid ∷ []))) (status_lem (env.waited pid))

append_assoc : (t u v : List Call) → t ++ (u ++ v) ≡ (t ++ u) ++ v
append_assoc [] u v = refl
append_assoc (c ∷ t) u v = ap (λ m. c ∷ m) (append_assoc t u v)

-- Three calls, one after the other.
after_three :
    (t : List Call) (a b c : Call) (p : Proc ℕ)
    → after t (after (a ∷ []) (after (b ∷ []) (after (c ∷ []) p))) ≡ after (t ++ (a ∷ b ∷ c ∷ [])) p
after_three t a b c (returns n u) = ap (returns n) (append_assoc t (a ∷ b ∷ c ∷ []) u)
after_three t a b c (exits n u) = ap (exits n) (append_assoc t (a ∷ b ∷ c ∷ []) u)
after_three t a b c (replaced u) = ap replaced (append_assoc t (a ∷ b ∷ c ∷ []) u)
after_three t a b c (undefined u) = ap undefined (append_assoc t (a ∷ b ∷ c ∷ []) u)

execute_lem :
    (env : Env) (t : List Call) (ws : List Token)
    → after t (restore env >> execute env ws) ≡ foreground env t ws
unfolding restore
execute_lem env t [] = ground arith
execute_lem env t (w ∷ ws) = ground arith

exec_lem :
    (env : Env) (l : Arglist) (ws : List Token) → argv l ≡ some ws → exec env l ≡ execute env ws
unfolding exec
exec_lem env l ws e = ap (λ x. known x (execute env)) e

-- The program of an array that was reached.
reached_lem :
    (env : Env) (x : Option Arglist) (l : Arglist) (ws : List Token)
    → x ≡ some l
    → argv l ≡ some ws
    → known x (exec env) ≡ execute env ws
reached_lem env x l ws e words = ap (λ y. known y (exec env)) e ∙ exec_lem env l ws words

foreground_lem :
    (env : Env) (t : List Call) (l : Arglist) (ws : List Token)
    → argv l ≡ some ws
    → after t (restore env >> exec env l) ≡ foreground env t ws
foreground_lem env t l ws e =
    ap (λ p. after t (restore env >> p)) (exec_lem env l ws e) ∙ execute_lem env t ws

foreground_reached :
    (env : Env) (t : List Call) (x : Option Arglist) (l : Arglist) (ws : List Token)
    → x ≡ some l
    → argv l ≡ some ws
    → after t (restore env >> known x (exec env)) ≡ foreground env t ws
foreground_reached env t x l ws e words =
    ap (λ p. after t (restore env >> p)) (reached_lem env x l ws e words) ∙ execute_lem env t ws

pub normal_lem :
    (env : Env) (l : Arglist) (ws : List Token)
    → argv l ≡ some ws
    → normal_exec env l ≡ meaning env (plain ws)
unfolding normal_exec
normal_lem env l ws e =
    ground (arith, foreground_lem env (fork ∷ []) l ws e, await_lem env (fork ∷ []))

background_child :
    (env : Env) (ws : List Token)
    → after (fork ∷ []) (execute env ws) ≡ without_restore env (fork ∷ []) ws
background_child env [] = refl
background_child env (w ∷ ws) = ground arith

pub background_lem :
    (env : Env) (n : ℕ) (l m : Arglist) (ws : List Token)
    → set_null n l ≡ some m
    → argv m ≡ some ws
    → background_exec env n l ≡ meaning env (background ws)
unfolding background_exec
background_lem env n l m ws cut words = ground (
  arith,
  ap (after (fork ∷ [])) (reached_lem env (set_null n l) m ws cut words) ∙ background_child env ws,
)

pub redirect_lem :
    (env : Env) (n : ℕ) (l m : Arglist) (ws : List Token) (f : Option Token)
    → set_null n l ≡ some m
    → argv m ≡ some ws
    → redirection_exec env n l f ≡ meaning env (redirect ws f)
unfolding redirection_exec
redirect_lem env n l m ws f cut words = ground (
  arith,
  await_lem env (fork ∷ []),
  λ (fd : ℕ).
      after_three (fork ∷ []) (open_file f) (dup2 fd 1) (close fd)
        (restore env >> known (set_null n l) (exec env))
      ∙ foreground_reached env (fork ∷ open_file f ∷ dup2 fd 1 ∷ close fd ∷ []) (set_null n l) m ws
          cut words,
)

parent_lem :
    (env : Env) (t : List Call) (r w ca cb : ℕ)
    → after t (pipe_parent env r w ca cb)
      ≡ returns
          (worse (status_of (env.waited ca)) (status_of (env.waited cb)))
          (t ++ (close w ∷ close r ∷ waitpid ca ∷ waitpid cb ∷ []))
unfolding pipe_parent wait_child_process
parent_lem env t r w ca cb =
    ap (λ n. returns n (t ++ (close w ∷ close r ∷ waitpid ca ∷ waitpid cb ∷ [])))
      (both_status (env.waited ca) (env.waited cb))

second_lem :
    (env : Env) (r w ca i : ℕ) (l m : Arglist) (ws : List Token) (f : Fork)
    → from_index (i + 1) l ≡ some m
    → argv m ≡ some ws
    → after
        (pipe ∷ fork ∷ fork ∷ [])
        (on_fork f (pure 0) (pipe_reader env r w i l) (λ cb. pipe_parent env r w ca cb))
      ≡ piped_second env r w ca ws f
unfolding pipe_reader
second_lem env r w ca i l m ws failed at words = refl
second_lem env r w ca i l m ws child at words =
    after_three (pipe ∷ fork ∷ fork ∷ []) (close w) (dup2 r 0) (close r)
      (restore env >> known (from_index (i + 1) l) (exec env))
    ∙ foreground_reached env (pipe ∷ fork ∷ fork ∷ close w ∷ dup2 r 0 ∷ close r ∷ [])
        (from_index (i + 1) l) m ws at words
second_lem env r w ca i l m ws (parent cb) at words =
    parent_lem env (pipe ∷ fork ∷ fork ∷ []) r w ca cb

after_fork :
    (m : Proc ℕ)
    → after (pipe ∷ fork ∷ []) (after (fork ∷ []) m) ≡ after (pipe ∷ fork ∷ fork ∷ []) m
after_fork (returns a t) = refl
after_fork (exits n t) = refl
after_fork (replaced t) = refl
after_fork (undefined t) = refl

first_lem :
    (env : Env) (r w i : ℕ) (l m : Arglist) (us ws : List Token) (f : Fork)
    → argv l ≡ some us
    → from_index (i + 1) l ≡ some m
    → argv m ≡ some ws
    → after (pipe ∷ fork ∷ []) (
        on_fork f (pure 0) (pipe_writer env r w l) λ ca. (do
          call fork
          on_fork env.fork_b (pure 0) (pipe_reader env r w i l) (λ cb. pipe_parent env r w ca cb)))
      ≡ piped_first env r w us ws f
unfolding pipe_writer
first_lem env r w i l m us ws failed first at words = refl
first_lem env r w i l m us ws child first at words =
    after_three (pipe ∷ fork ∷ []) (close r) (dup2 w 1) (close w) (restore env >> exec env l)
    ∙ foreground_lem env (pipe ∷ fork ∷ close r ∷ dup2 w 1 ∷ close w ∷ []) l us first
first_lem env r w i l m us ws (parent ca) first at words =
    after_fork
      (on_fork env.fork_b (pure 0) (pipe_reader env r w i l) (λ cb. pipe_parent env r w ca cb))
    ∙ second_lem env r w ca i l m ws env.fork_b at words

pub pipe_lem :
    (env : Env) (n : ℕ) (l m : Arglist) (us ws : List Token)
    → argv l ≡ some us
    → from_index (n + 1) l ≡ some m
    → argv m ≡ some ws
    → pipe_exec env n l ≡ meaning env (pipeline us ws)
unfolding pipe_exec
pipe_lem env n l m us ws first at words =
    ground (arith, λ (r w : ℕ). first_lem env r w n l m us ws env.fork_a first at words)
