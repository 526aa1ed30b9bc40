-- ===== src/Shell/Fields.antt =====
-- hw02/shell.c: the words of a line, said without `strtok`.
use operating_systems_git.Prelude.{
  ℕ, zero, suc, ◌<◌, ◌≡◌, refl, sym, ap, ◌∙◌, subst, none, some, Bool, true, false, List, [], ◌∷◌,
  ◌==◌, if◌then◌else◌, length, arith, Bool-cases, Option-cases, inl, inr,
}
use mathlib.Core.Option.{some-injective}
use operating_systems_git.Shell.Process.{Token}
use operating_systems_git.Shell.Words.{
  is_delimiter, skip_delimiters, cut, cut_first, strtok, read_words, IsWord, strtok-IsWord,
}

-- A space, a tab or a newline.
abbrev pub is_blank : ℕ → Bool
is_blank c = if c == 32 then true else if c == 9 then true else if c == 10 then true else false

-- An empty field is no word.
abbrev pub keep : Token → List Token → List Token
keep [] ts = ts
keep (c ∷ t) ts = (c ∷ t) ∷ ts

-- The field that a line starts with, and the words after it: every blank ends a field.
abbrev pub fields : List ℕ → Token × List Token
fields [] = ([], [])
fields (c ∷ l) = let (t, ts) = fields l in if is_blank c then ([], keep t ts) else (c ∷ t, ts)

-- The words of a line: what stands between blanks, where it is not empty.
abbrev pub words : List ℕ → List Token
words l = keep (fields l).0 (fields l).1

is_blank-same : (c : ℕ) → is_delimiter c ≡ is_blank c
is_blank-same c = ground arith

skip-words : (l : List ℕ) → words (skip_delimiters l) ≡ words l
unfolding skip_delimiters
skip-words [] = refl
skip-words (c ∷ l) = elim (Bool-cases (is_blank c)) [
  | inl e ↦ rw (is_blank-same c, e) (skip-words l)
  | inr e ↦ rw (is_blank-same c, e) (rw e refl)
]

-- `cut` takes the first field, and the words of the rest are those after it.
cut-fields : (l : List ℕ) → ((cut l).0 ≡ (fields l).0) × (words (cut l).1 ≡ (fields l).1)
unfolding cut
cut-fields [] = (refl, refl)
cut-fields (c ∷ l) = elim (Bool-cases (is_blank c)) [
  | inl e ↦ rw (is_blank-same c, e) (refl, refl)
  | inr e ↦
      let (first, rest) = cut-fields l in rw (is_blank-same c, e) (ap (λ t. c ∷ t) first, rest)
]

cut_first-words :
    (m : List ℕ) {t : Token} {rest : List ℕ}
    → cut_first m ≡ some (t, rest)
    → keep t (words rest) ≡ words m
unfolding cut_first
cut_first-words [] e = absurd (ground arith)
cut_first-words (c ∷ l) {t} {rest} e =
    subst (λ (t, rest). keep t (words rest) ≡ words (c ∷ l))
      (some-injective (cut (c ∷ l)) (t, rest) e)
      (let (first, others) = cut-fields (c ∷ l) in rw (first, others) refl)

cut_first-end : (m : List ℕ) → cut_first m ≡ none → words m ≡ []
unfolding cut_first
cut_first-end [] e = refl
cut_first-end (c ∷ l) e = absurd (ground arith)

IsWord-keep : (t : Token) (ts : List Token) → IsWord t → keep t ts ≡ t ∷ ts
IsWord-keep [] ts w = absurd w
IsWord-keep (c ∷ t) ts w = refl

strtok-words :
    (l : List ℕ) {t : Token} {rest : List ℕ}
    → strtok l ≡ some (t, rest)
    → IsWord t
    → t ∷ words rest ≡ words l
unfolding strtok
strtok-words l {t} {rest} e w =
    sym (IsWord-keep t (words rest) w) ∙ cut_first-words (skip_delimiters l) e ∙ skip-words l

strtok-end : (l : List ℕ) → strtok l ≡ none → [] ≡ words l
unfolding strtok
strtok-end l e = sym (cut_first-end (skip_delimiters l) e) ∙ skip-words l

-- With at least one round more than the line has bytes, the loop of `strtok` ends with the words of
-- the line.
pub read_words-words :
    (fuel : ℕ) (l : List ℕ) → length l < fuel → read_words fuel l ≡ some (words l)
unfolding read_words
read_words-words zero l enough = absurd (omega arith)
read_words-words (suc fuel) l enough = elim (Option-cases (strtok l)) [
  | inl e ↦ rw (e, read_words) (ap some (strtok-end l e))
  | inr ((t, rest), e) ↦
      let (w, shorter) = strtok-IsWord l e in
      rw (e, read_words-words fuel rest (omega arith), read_words) (ap some (strtok-words l e w))
]
