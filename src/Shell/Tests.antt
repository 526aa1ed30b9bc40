-- ===== src/Shell/Tests.antt =====
-- The theorems at the line `ls -l | wc` and a kernel that grants everything.
use operating_systems_git.Prelude.{ℕ, ◌≡◌, refl, some, true, List, [], ◌∷◌, length, arith}
use operating_systems_git.Shell.Process.{
  Token, parent, reaped, Env, returns, pipe, fork, close, waitpid,
}
use operating_systems_git.Shell.Words.{AllWords, read_words, join, text, read_words-AllWords}
use operating_systems_git.Shell.Main.{Input, arglist_of, one_line, main}
use operating_systems_git.Shell.Parse.{process_arglist}
use operating_systems_git.Shell.Spec.{parse, meaning}
use operating_systems_git.Shell.Dispatch.{process_arglist-meaning}
use operating_systems_git.Shell.Defined.{defined, main-defined}
use operating_systems_git.Shell.Line.{line_result, one_line-meaning}

abbrev granted : Env
granted = record {
  fork_a = parent 10;
  fork_b = parent 11;
  signal_ok = true;
  exec_ok = true;
  opened = some 3;
  piped = some (4, 5);
  waited = λ pid. reaped;
}

abbrev ls_line : List ℕ
ls_line = b'l' ∷ b's' ∷ b' ' ∷ b'-' ∷ b'l' ∷ b' ' ∷ b'|' ∷ b' ' ∷ b'w' ∷ b'c' ∷ 10 ∷ []

abbrev ls_words : List Token
ls_words = (b'l' ∷ b's' ∷ []) ∷ (b'-' ∷ b'l' ∷ []) ∷ (b'|' ∷ []) ∷ (b'w' ∷ b'c' ∷ []) ∷ []

abbrev ls_input : Input
ls_input = record { line = ls_line; memory = true; env = granted }

ls_line_words : read_words 12 ls_line ≡ some ls_words
unfolding read_words
ls_line_words = refl

ls_line_calls :
    process_arglist granted 4 (arglist_of ls_words)
    ≡ returns 1 (pipe ∷ fork ∷ fork ∷ close 5 ∷ close 4 ∷ waitpid 10 ∷ waitpid 11 ∷ [])
unfolding process_arglist operating_systems_git.Shell.Exec.pipe_exec
    operating_systems_git.Shell.Exec.set_null
ls_line_calls = refl

read_words-AllWords_example :
    (ws : List Token) × (read_words 12 ls_line ≡ some ws) × AllWords ws × (join ws ≡ text ls_line)
read_words-AllWords_example = read_words-AllWords 12 ls_line (omega arith)

process_arglist-meaning_example :
    process_arglist granted (length ls_words) (arglist_of ls_words)
    ≡ meaning granted (parse [] ls_words)
process_arglist-meaning_example = process_arglist-meaning granted ls_words

one_line-meaning_example : one_line ls_input ≡ line_result granted ls_words
one_line-meaning_example = one_line-meaning ls_input refl

main-defined_example : defined (main true true (ls_input ∷ [])) ≡ true
unfolding parse
main-defined_example = main-defined true true (ls_input ∷ []) ((((4, 5), refl), tt, tt), tt)
