-- ===== src/Shell/Defined.antt =====
-- hw02/shell.c and hw02/myshell.c: the commands that do nothing that is not defined.
use operating_systems_git.Prelude.{
  ℕ, ◌≡◌, refl, ◌∙◌, ap, some, Bool, true, false, List, [], ◌∷◌, if◌then◌else◌, arith, Bool-cases,
  inl, inr, ◌++◌, Option,
}
use operating_systems_git.Shell.Process.{
  Token, Env, Proc, returns, exits, replaced, undefined, Call, fork, after, ◌>>=◌, pure,
}
use operating_systems_git.Shell.Exec.{prepare}
use operating_systems_git.Shell.Main.{Input, one_line, loop, main}
use operating_systems_git.Shell.Fields.{words}
use operating_systems_git.Shell.Spec.{
  Command, plain, background, redirect, pipeline, misplaced, parse, meaning, program, foreground,
  without_restore, unless_empty, first_word,
}
use operating_systems_git.Shell.Parse.{is_byte}
use operating_systems_git.Threads.Schedule.{if-elim}
use operating_systems_git.Shell.Line.{line_result, one_line-meaning}

-- Nothing that is not defined is done.
abbrev pub defined : {A : Type 0} → Proc A → Bool
defined (returns a t) = true
defined (exits n t) = true
defined (replaced t) = true
defined (undefined t) = false

-- There is a command.
abbrev pub Named : List Token → Type 0
Named [] = ⊥
Named (w ∷ ws) = Unit

-- Outside a pipe there is always a command.
abbrev IsNamed : Command → Type 0
IsNamed (plain ws) = Named ws
IsNamed (background ws) = Named ws
IsNamed (redirect ws file) = Named ws
IsNamed (pipeline us ws) = Unit
IsNamed misplaced = Unit

-- A pipe succeeds and has a command on both sides.
abbrev pub IsSound : Env → Command → Type 0
IsSound env (pipeline us ws) = ((p : ℕ × ℕ) × (env.piped ≡ some p)) × Named us × Named ws
IsSound env _ = Unit

Named-snoc : (b : List Token) (t : Token) → Named (b ++ (t ∷ []))
Named-snoc [] t = tt
Named-snoc (a ∷ b) t = tt

background-IsNamed : (b : List Token) → IsNamed (unless_empty b (background b))
background-IsNamed [] = tt
background-IsNamed (a ∷ b) = tt

redirect-IsNamed :
    (b : List Token) (file : Option Token) → IsNamed (unless_empty b (redirect b file))
redirect-IsNamed [] file = tt
redirect-IsNamed (a ∷ b) file = tt

parse_on-IsNamed : (b ts : List Token) → Named b → IsNamed (parse b ts)
unfolding parse
parse_on-IsNamed b [] named = named
parse_on-IsNamed b (t ∷ ts) named =
    let rest = parse (b ++ (t ∷ [])) ts in
    let after_pipe = if is_byte b'|' t then pipeline b ts else rest in
    let after_redirect =
      if is_byte b'>' t then unless_empty b (redirect b (first_word ts)) else after_pipe in
    if-elim IsNamed (is_byte b'&' t) (unless_empty b (background b)) after_redirect
      (λ e. background-IsNamed b)
      (λ e.
        if-elim IsNamed (is_byte b'>' t) (unless_empty b (redirect b (first_word ts))) after_pipe
          (λ e2. redirect-IsNamed b (first_word ts))
          (λ e2.
            if-elim IsNamed (is_byte b'|' t) (pipeline b ts) rest (λ e3. tt)
              (λ e3. parse_on-IsNamed (b ++ (t ∷ [])) ts (Named-snoc b t))))

parse-IsNamed : (t : Token) (ts : List Token) → IsNamed (parse [] (t ∷ ts))
unfolding parse
parse-IsNamed t ts =
    let rest = parse (t ∷ []) ts in
    let after_pipe = if is_byte b'|' t then pipeline [] ts else rest in
    let after_redirect = if is_byte b'>' t then misplaced else after_pipe in
    if-elim IsNamed (is_byte b'&' t) misplaced after_redirect (λ e. tt)
      (λ e.
        if-elim IsNamed (is_byte b'>' t) misplaced after_pipe (λ e2. tt)
          (λ e2.
            if-elim IsNamed (is_byte b'|' t) (pipeline [] ts) rest (λ e3. tt)
              (λ e3. parse_on-IsNamed (t ∷ []) ts tt)))

-- The line spells such a pipe, or none.
abbrev pub LineIsSound : Env → List Token → Type 0
LineIsSound env [] = Unit
LineIsSound env (w ∷ ws) = IsSound env (parse [] (w ∷ ws))

abbrev pub AllSound : List Input → Type 0
AllSound [] = Unit
AllSound (input ∷ inputs) = LineIsSound input.env (words input.line) × AllSound inputs

defined-after : {A : Type 0} (t : List Call) (p : Proc A) → defined (after t p) ≡ defined p
defined-after t (returns a u) = refl
defined-after t (exits n u) = refl
defined-after t (replaced u) = refl
defined-after t (undefined u) = refl

defined->>= :
    {A B : Type 0} (p : Proc A) (k : A → Proc B)
    → defined p ≡ true
    → ((a : A) → defined (k a) ≡ true)
    → defined (p >>= k) ≡ true
defined->>= (returns a t) k d f = defined-after t (k a) ∙ f a
defined->>= (exits n t) k d f = refl
defined->>= (replaced t) k d f = refl
defined->>= (undefined t) k d f = d

program-defined : (b : Bool) (t : List Call) → defined (program b t) ≡ true
program-defined true t = refl
program-defined false t = refl

foreground-defined :
    (env : Env) (t : List Call) (ws : List Token) → Named ws → defined (foreground env t ws) ≡ true
foreground-defined env t [] named = absurd named
foreground-defined env t (w ∷ ws) named = elim (Bool-cases env.signal_ok) [
  | inl e ↦ rw e (program-defined env.exec_ok _)
  | inr e ↦ rw e refl
]

without_restore-defined :
    (env : Env) (t : List Call) (ws : List Token)
    → Named ws
    → defined (without_restore env t ws) ≡ true
without_restore-defined env t [] named = absurd named
without_restore-defined env t (w ∷ ws) named = program-defined env.exec_ok _

meaning-defined :
    (env : Env) (c : Command) → IsNamed c → IsSound env c → defined (meaning env c) ≡ true
meaning-defined env (plain ws) named sound =
    ground (arith, foreground-defined env (fork ∷ []) ws named)
meaning-defined env (background ws) named sound =
    ground (arith, without_restore-defined env (fork ∷ []) ws named)
meaning-defined env (redirect ws file) named sound =
    ground (arith, λ (t : List Call). foreground-defined env t ws named)
meaning-defined env (pipeline us ws) named (((r, w), e), first, second) = ground (
  arith,
  e,
  λ (t : List Call). foreground-defined env t us first,
  λ (t : List Call). foreground-defined env t ws second,
)
meaning-defined env misplaced named sound = refl

line_result-defined :
    (env : Env) (ws : List Token) → LineIsSound env ws → defined (line_result env ws) ≡ true
line_result-defined env [] sound = refl
line_result-defined env (w ∷ ws) sound =
    defined->>= (meaning env (parse [] (w ∷ ws))) _
      (meaning-defined env _ (parse-IsNamed w ws) sound) λ status. refl

one_line-defined :
    (input : Input) → LineIsSound input.env (words input.line) → defined (one_line input) ≡ true
unfolding one_line
one_line-defined input sound = elim (Bool-cases input.memory) [
  | inl given ↦
      ap defined (one_line-meaning input given)
      ∙ line_result-defined input.env (words input.line) sound
  | inr e ↦ rw (e, one_line) refl
]

continue-defined :
    (rest : Proc (Unit {0}))
    → defined rest ≡ true
    → (a : Bool) → defined (if a then rest else pure tt) ≡ true
continue-defined rest d true = d
continue-defined rest d false = refl

loop-defined : (inputs : List Input) → AllSound inputs → defined (loop inputs) ≡ true
unfolding loop
loop-defined [] sound = refl
loop-defined (input ∷ inputs) (p, ps) =
    defined->>= (one_line input) _ (one_line-defined input p)
      (continue-defined (loop inputs) (loop-defined inputs ps))

-- Whatever lines the shell reads, it accesses no memory that is not set or not its own, and gives
-- `execvp` a name, where for every line that spells a pipe `pipe` succeeds and a command stands on
-- both sides.
pub main-defined :
    (sigint_ok sigchld_ok : Bool) (inputs : List Input)
    → AllSound inputs
    → defined (main sigint_ok sigchld_ok inputs) ≡ true
unfolding main
main-defined sigint_ok sigchld_ok inputs sound = elim (Bool-cases (prepare sigint_ok sigchld_ok)) [
  | inl e ↦ rw (e, main) (defined->>= (loop inputs) _ (loop-defined inputs sound) λ x. refl)
  | inr e ↦ rw (e, main) refl
]
