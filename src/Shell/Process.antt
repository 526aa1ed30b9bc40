-- ===== src/Shell/Process.antt =====
-- What a process does: the system calls it makes, in order, and how it ends.
use operating_systems_git.Prelude.{ℕ, Option, none, some, Bool, List, [], ◌∷◌, ◌++◌}

-- A word of the command line, as its bytes.
abbrev pub Token : Type 0
Token = List ℕ

-- The return value of `fork`.
pub data Fork : Type 0 where
  failed child : Fork
  parent : (pid : ℕ) → Fork

-- The return value of `waitpid`, with `errno`.
pub data Wait : Type 0 where
  reaped echild eintr other_error : Wait

-- A system call with the arguments that matter.
pub data Call : Type 0 where
  fork pipe restore_sigint : Call
  waitpid : (pid : ℕ) → Call
  open_file : (name : Option Token) → Call
  dup2 : (from to : ℕ) → Call
  close : (fd : ℕ) → Call
  execvp : (argv : List Token) → Call

-- The answers of the kernel to one command: to the two forks, to `signal`, `execvp` (true where it
-- does not return), `open`, `pipe` (its two ends, read end first) and each `waitpid`.
pub record Env : Type 0 where
  pub fork_a : Fork
  pub fork_b : Fork
  pub signal_ok : Bool
  pub exec_ok : Bool
  pub opened : Option ℕ
  pub piped : Option (ℕ × ℕ)
  pub waited : (pid : ℕ) → Wait

-- A function that runs to its return, ends its process by `exit`, has its process replaced by a
-- program, or does what is not defined: it uses memory that is not set or not its own, or gives
-- `execvp` NULL for a name.
pub data Proc (A : Type 0) : Type 0 where
  returns : A → List Call → Proc A
  exits : ℕ → List Call → Proc A
  replaced : List Call → Proc A
  undefined : List Call → Proc A

module _ {A : Type 0} where
  -- The calls `t` made first.
  abbrev pub after : List Call → Proc A → Proc A
  after t (returns a u) = returns a (t ++ u)
  after t (exits n u) = exits n (t ++ u)
  after t (replaced u) = replaced (t ++ u)
  after t (undefined u) = undefined (t ++ u)

  abbrev pub pure : A → Proc A
  pure a = returns a []

  abbrev pub exit : ℕ → Proc A
  exit n = exits n []

module _ {A B : Type 0} where
  infixl 5 ◌>>=◌ ◌>>◌
  abbrev pub ◌>>=◌ : Proc A → (A → Proc B) → Proc B
  returns a t >>= k = after t (k a)
  exits n t >>= k = exits n t
  replaced t >>= k = replaced t
  undefined t >>= k = undefined t

  abbrev pub ◌>>◌ : Proc A → Proc B → Proc B
  m >> k = m >>= λ _. k

-- What is read or written behind the memory of the program, `none`, is undefined.
abbrev pub known : {A B : Type 0} → Option A → (A → Proc B) → Proc B
known none k = undefined []
known (some a) k = k a

-- One call.
abbrev pub call : Call → Proc (Unit {0})
call c = returns tt (c ∷ [])

abbrev pub trace : {A : Type 0} → Proc A → List Call
trace (returns a t) = t
trace (exits n t) = t
trace (replaced t) = t
trace (undefined t) = t
