-- ===== src/Shell/Parse.antt =====
-- hw02/myshell.c: `process_arglist`, which looks for the first word that is an operator.
use operating_systems_git.Prelude.{
  ℕ, zero, suc, ◌+◌, Option, none, some, Bool, false, [], ◌∷◌, ◌==◌, if◌then◌else◌, get_elem?,
}
use operating_systems_git.Shell.Process.{Token, Env, Proc, undefined, exit, known}
use operating_systems_git.Shell.Exec.{
  Arglist, set_null, normal_exec, background_exec, redirection_exec, pipe_exec,
}

-- `!strcmp(token, c)` for a text of one byte.
abbrev pub is_byte : ℕ → Token → Bool
is_byte c [] = false
is_byte c (a ∷ []) = a == c
is_byte c (a ∷ b ∷ t) = false

-- `arglist[i]`; behind the list there is no memory of the program's.
unfoldable pub word : Arglist → ℕ → Option (Option Token)
word l i = get_elem? l i

module _ (env : Env) where
  -- The loop from `i`, with `count - i` rounds left.
  unfoldable pub scan : ℕ → (i count : ℕ) → Arglist → Proc ℕ
  unfolding word
  scan zero i count arglist = normal_exec env arglist
  scan (suc rounds) i count arglist =
      let rest = scan rounds (i + 1) count arglist in
      elim (word arglist i) [
        | none ↦ undefined []
        | some none ↦ undefined []
        | some (some token) ↦
            if is_byte b'&' token
            then (if i == 0 then exit 1 else background_exec env i arglist)
            else if is_byte b'>' token
            then (if i == 0
                then exit 1
                else known (word arglist (i + 1)) (redirection_exec env i arglist))
            else if is_byte b'|' token
            then known (set_null i arglist) (pipe_exec env i)
            else rest
      ]

  unfoldable pub process_arglist : ℕ → Arglist → Proc ℕ
  unfolding scan
  process_arglist count arglist = scan count 0 count arglist
