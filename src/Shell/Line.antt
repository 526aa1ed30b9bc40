-- ===== src/Shell/Line.antt =====
-- hw02/shell.c: a line of input, and the loop over the lines.
use operating_systems_git.Prelude.{
  suc, ◌+◌, ◌≡◌, refl, Bool, true, false, List, [], ◌∷◌, ◌==◌, if◌then◌else◌, length, arith, ne→==,
}
use operating_systems_git.Shell.Process.{Token, Env, Proc, ◌>>=◌, pure}
use operating_systems_git.Shell.Parse.{process_arglist}
use operating_systems_git.Shell.Main.{Input, arglist_of, one_line}
use operating_systems_git.Shell.Fields.{words, read_words-words}
use operating_systems_git.Shell.Spec.{parse, meaning}
use operating_systems_git.Shell.Dispatch.{process_arglist-meaning}

-- What a list of words does: nothing if it is empty, and the shell ends after a status of 0.
abbrev pub line_result : Env → List Token → Proc Bool
line_result env [] = pure true
line_result env (w ∷ ws) = do
  status ← meaning env (parse [] (w ∷ ws))
  pure (if status == 0 then false else true)

result_lem :
    (env : Env) (ws : List Token)
    → (if length ws == 0 then pure true else do
      status ← process_arglist env (length ws) (arglist_of ws)
      pure (if status == 0 then false else true))
      ≡ line_result env ws
result_lem env [] = refl
result_lem env (w ∷ ws) =
    rw (ne→== (suc (length ws)) 0 (omega arith), process_arglist-meaning env (w ∷ ws)) refl

-- Where its calls of `malloc` and `realloc` succeed, `one_line` does what the command means that is
-- spelled by the words of the line, which are what stands between its blanks, or nothing for no
-- words.
pub one_line-meaning :
    (input : Input)
    → input.memory ≡ true
    → one_line input ≡ line_result input.env (words input.line)
unfolding one_line
one_line-meaning input given =
    rw (given, read_words-words (length input.line + 1) input.line (omega arith), one_line)
      (result_lem input.env (words input.line))
