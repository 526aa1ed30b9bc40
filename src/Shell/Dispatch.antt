-- ===== src/Shell/Dispatch.antt =====
-- hw02/myshell.c: `process_arglist` on lists of words.
use operating_systems_git.Prelude.{
  ℕ, suc, ◌+◌, ◌≡◌, refl, ◌∙◌, sym, ap, none, some, List, [], ◌∷◌, ◌++◌, ◌==◌, if◌then◌else◌,
  length, length-append, arith, ne→==, Bool-cases, inl, inr,
}
use mathlib.Core.Option.{map}
use operating_systems_git.Shell.Process.{Token, Env, Proc, exit, known}
use operating_systems_git.Shell.Exec.{
  Arglist, set_null, from_index, argv, background_exec, redirection_exec, pipe_exec,
}
use operating_systems_git.Shell.Parse.{is_byte, word, scan, process_arglist}
use operating_systems_git.Shell.Main.{arglist_of}
use operating_systems_git.Shell.Spec.{
  Command, background, redirect, pipeline, first_word, unless_empty, parse, meaning,
}
use operating_systems_git.Shell.Commands.{normal_lem, background_lem, redirect_lem, pipe_lem}

argv-arglist_of : (ws : List Token) → argv (arglist_of ws) ≡ some ws
unfolding argv
argv-arglist_of [] = refl
argv-arglist_of (w ∷ ws) = ap (map (λ l. w ∷ l)) (argv-arglist_of ws)

word_lem :
    (b : List Token) (t : Token) (ts : List Token)
    → word (arglist_of (b ++ (t ∷ ts))) (length b) ≡ some (some t)
unfolding word
word_lem [] t ts = refl
word_lem (a ∷ b) t ts = word_lem b t ts

word_next :
    (b : List Token) (t : Token) (ts : List Token)
    → word (arglist_of (b ++ (t ∷ ts))) (suc (length b)) ≡ some (first_word ts)
unfolding word
word_next [] t [] = refl
word_next [] t (u ∷ ts) = refl
word_next (a ∷ b) t ts = word_next b t ts

-- The array cut off behind the words `b`, and what is behind its NULL.
abbrev cut_off : List Token → List Token → Arglist
cut_off [] ts = none ∷ arglist_of ts
cut_off (a ∷ b) ts = some a ∷ cut_off b ts

set_null_lem :
    (b : List Token) (t : Token) (ts : List Token)
    → set_null (length b) (arglist_of (b ++ (t ∷ ts))) ≡ some (cut_off b ts)
unfolding set_null
set_null_lem [] t ts = refl
set_null_lem (a ∷ b) t ts = ap (map (λ l. some a ∷ l)) (set_null_lem b t ts)

argv-cut_off : (b ts : List Token) → argv (cut_off b ts) ≡ some b
unfolding argv
argv-cut_off [] ts = refl
argv-cut_off (a ∷ b) ts = ap (map (λ l. a ∷ l)) (argv-cut_off b ts)

from_index-cut_off :
    (b ts : List Token) → from_index (suc (length b)) (cut_off b ts) ≡ some (arglist_of ts)
unfolding from_index
from_index-cut_off [] ts = refl
from_index-cut_off (a ∷ b) ts = from_index-cut_off b ts

append_step : (b : List Token) (t : Token) (ts : List Token) → b ++ (t ∷ ts) ≡ (b ++ (t ∷ [])) ++ ts
append_step [] t ts = refl
append_step (a ∷ b) t ts = ap (λ l. a ∷ l) (append_step b t ts)

suc_index : (n : ℕ) → n + 1 ≡ suc n
suc_index n = omega arith

length-snoc : (b : List Token) (t : Token) → length (b ++ (t ∷ [])) ≡ length b + 1
length-snoc b t = length-append b (t ∷ [])

append_nil : (b : List Token) → b ++ [] ≡ b
append_nil [] = refl
append_nil (a ∷ b) = ap (λ l. a ∷ l) (append_nil b)

guard_lem :
    (env : Env) (b : List Token) (c : Command) (p : Proc ℕ)
    → p ≡ meaning env c
    → (if length b == 0 then exit 1 else p) ≡ meaning env (unless_empty b c)
guard_lem env [] c p e = refl
guard_lem env (a ∷ b) c p e = rw (ne→== (suc (length b)) 0 (omega arith)) e

-- The four ways on from a word, each with its index turned into the words before and after it.
background_step :
    (env : Env) (b : List Token) (t : Token) (ts : List Token)
    → (if length b == 0
        then exit 1
        else background_exec env (length b) (arglist_of (b ++ (t ∷ ts))))
      ≡ meaning env (unless_empty b (background b))
background_step env b t ts = guard_lem env b (background b) _ (
    background_lem env (length b) (arglist_of (b ++ (t ∷ ts))) (cut_off b ts) b
      (set_null_lem b t ts) (argv-cut_off b ts))

redirect_step :
    (env : Env) (b : List Token) (t : Token) (ts : List Token)
    → (if length b == 0
        then exit 1
        else known
            (word (arglist_of (b ++ (t ∷ ts))) (length b + 1))
            (redirection_exec env (length b) (arglist_of (b ++ (t ∷ ts)))))
      ≡ meaning env (unless_empty b (redirect b (first_word ts)))
redirect_step env b t ts =
    let l = arglist_of (b ++ (t ∷ ts)) in
    let file = ap (word l) (suc_index (length b)) ∙ word_next b t ts in
    guard_lem env b (redirect b (first_word ts)) _ (
      ap (λ x. known x (redirection_exec env (length b) l)) file
      ∙ redirect_lem env (length b) l (cut_off b ts) b (first_word ts) (set_null_lem b t ts)
          (argv-cut_off b ts))

pipe_step :
    (env : Env) (b : List Token) (t : Token) (ts : List Token)
    → known (set_null (length b) (arglist_of (b ++ (t ∷ ts)))) (pipe_exec env (length b))
      ≡ meaning env (pipeline b ts)
pipe_step env b t ts =
    ap (λ x. known x (pipe_exec env (length b))) (set_null_lem b t ts)
    ∙ pipe_lem env (length b) (cut_off b ts) (arglist_of ts) b ts (argv-cut_off b ts)
        (ap (λ k. from_index k (cut_off b ts)) (suc_index (length b)) ∙ from_index-cut_off b ts)
        (argv-arglist_of ts)

rest_step :
    (env : Env) (count : ℕ) (b : List Token) (t : Token) (ts : List Token)
    → scan env (length ts) (length (b ++ (t ∷ []))) count (arglist_of ((b ++ (t ∷ [])) ++ ts))
      ≡ meaning env (parse (b ++ (t ∷ [])) ts)
    → scan env (length ts) (length b + 1) count (arglist_of (b ++ (t ∷ ts)))
      ≡ meaning env (parse (b ++ (t ∷ [])) ts)
rest_step env count b t ts e =
    ap (λ k. scan env (length ts) k count (arglist_of (b ++ (t ∷ ts)))) (sym (length-snoc b t))
    ∙ ap (λ l. scan env (length ts) (length (b ++ (t ∷ []))) count (arglist_of l))
        (append_step b t ts)
    ∙ e

scan-meaning :
    (env : Env) (count : ℕ) (b ts : List Token)
    → scan env (length ts) (length b) count (arglist_of (b ++ ts)) ≡ meaning env (parse b ts)
unfolding scan parse
scan-meaning env count b [] =
    normal_lem env (arglist_of (b ++ [])) b (argv-arglist_of (b ++ []) ∙ ap some (append_nil b))
scan-meaning env count b (t ∷ ts) = elim (Bool-cases (is_byte b'&' t)) [
  | inl e ↦ rw (word_lem b t ts, e, scan, parse) (background_step env b t ts)
  | inr e ↦ elim (Bool-cases (is_byte b'>' t)) [
    | inl e2 ↦ rw (word_lem b t ts, e, e2, scan, parse) (redirect_step env b t ts)
    | inr e2 ↦ elim (Bool-cases (is_byte b'|' t)) [
      | inl e3 ↦ rw (word_lem b t ts, e, e2, e3, scan, parse) (pipe_step env b t ts)
      | inr e3 ↦
          rw (word_lem b t ts, e, e2, e3, scan, parse)
            (rest_step env count b t ts (scan-meaning env count (b ++ (t ∷ [])) ts))
    ]
  ]
]

-- `process_arglist` on a list of words does what `meaning` says of the command that `parse` finds:
-- the calls in their order and the way each process ends, for every answer of the kernel.
pub process_arglist-meaning :
    (env : Env) (ws : List Token)
    → process_arglist env (length ws) (arglist_of ws) ≡ meaning env (parse [] ws)
unfolding process_arglist
process_arglist-meaning env ws = scan-meaning env (length ws) [] ws
