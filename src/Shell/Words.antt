-- ===== src/Shell/Words.antt =====
-- hw02/shell.c: a line cut into words by `strtok` with the delimiters " \t\n".
use operating_systems_git.Prelude.{
  ℕ, zero, suc, ◌<◌, ◌≤◌, ◌≡◌, refl, sym, ap, ◌∙◌, ◌++◌, subst, Option, none, some, Bool, true,
  false, not, ◌||◌, ◌&&◌, List, [], ◌∷◌, ◌==◌, if◌then◌else◌, length, arith, Bool-cases,
  Option-cases, inl, inr,
}
use mathlib.Core.Option.{some-injective}
use operating_systems_git.Shell.Process.{Token}

abbrev pub is_delimiter : ℕ → Bool
is_delimiter c = (c == b' ') || ((c == 9) || (c == 10))

unfoldable pub skip_delimiters : List ℕ → List ℕ
skip_delimiters [] = []
skip_delimiters (c ∷ l) = if is_delimiter c then skip_delimiters l else c ∷ l

-- The bytes up to the next delimiter, and what follows it: `strtok` overwrites that one.
unfoldable pub cut : List ℕ → Token × List ℕ
cut [] = ([], [])
cut (c ∷ l) = let (t, rest) = cut l in if is_delimiter c then ([], l) else (c ∷ t, rest)

unfoldable pub cut_first : List ℕ → Option (Token × List ℕ)
unfolding cut
cut_first [] = none
cut_first (c ∷ r) = some (cut (c ∷ r))

-- `strtok`: the next word and the rest of the line, or `none` (NULL).
unfoldable pub strtok : List ℕ → Option (Token × List ℕ)
unfolding skip_delimiters cut_first
strtok l = cut_first (skip_delimiters l)

-- The loop that fills `arglist`, on fuel: its words, `none` where the fuel runs out.
unfoldable pub read_words : ℕ → List ℕ → Option (List Token)
unfolding strtok
read_words zero l = none
read_words (suc fuel) l = elim (strtok l) [
  | none ↦ some []
  | some (t, rest) ↦ elim (read_words fuel rest) [ none ↦ none | some ws ↦ some (t ∷ ws) ]
]

-- A word is not empty and holds no delimiter.
abbrev pub no_delimiter : Token → Bool
no_delimiter [] = true
no_delimiter (c ∷ t) = not (is_delimiter c) && no_delimiter t

abbrev pub IsWord : Token → Type 0
IsWord [] = ⊥
IsWord (c ∷ t) = no_delimiter (c ∷ t) ≡ true

abbrev pub AllWords : List Token → Type 0
AllWords [] = Unit
AllWords (t ∷ ts) = IsWord t × AllWords ts

length-skip : (l : List ℕ) → length (skip_delimiters l) ≤ length l
unfolding skip_delimiters
length-skip [] = omega arith
length-skip (c ∷ l) = ground (arith, length-skip l)

length-cut : (l : List ℕ) → length (cut l).1 ≤ length l
unfolding cut
length-cut [] = omega arith
length-cut (c ∷ l) = ground (arith, length-cut l)

cut-no_delimiter : (l : List ℕ) → no_delimiter (cut l).0 ≡ true
unfolding cut
cut-no_delimiter [] = refl
cut-no_delimiter (c ∷ l) = ground (arith, cut-no_delimiter l)

skip-head : (l : List ℕ) (c : ℕ) (r : List ℕ) → skip_delimiters l ≡ c ∷ r → is_delimiter c ≡ false
unfolding skip_delimiters
skip-head [] c r e = ground arith
skip-head (a ∷ l) c r e = ground (arith, skip-head l c r)

cut-IsWord :
    (c : ℕ) (r : List ℕ)
    → is_delimiter c ≡ false
    → IsWord (cut (c ∷ r)).0 × (length (cut (c ∷ r)).1 ≤ length r)
unfolding cut
cut-IsWord c r e = ground (arith, cut-no_delimiter r, length-cut r)

cut_first-IsWord :
    (l m : List ℕ)
    → skip_delimiters l ≡ m
    → {t : Token} {rest : List ℕ} → cut_first m ≡ some (t, rest)
    → IsWord t × (length rest < length l)
unfolding cut_first
cut_first-IsWord l [] skipped e = absurd (ground arith)
cut_first-IsWord l (c ∷ r) skipped {t} {rest} e =
    subst (λ (t, rest). IsWord t × (length rest < length l))
      (some-injective (cut (c ∷ r)) (t, rest) e)
      (let (w, shorter) = cut-IsWord c r (skip-head l c r skipped) in
        (w, omega (arith, shorter, length-skip l, ap length skipped)))

-- Each word found is a word and shortens the line.
pub strtok-IsWord :
    (l : List ℕ) {t : Token} {rest : List ℕ}
    → strtok l ≡ some (t, rest)
    → IsWord t × (length rest < length l)
unfolding strtok
strtok-IsWord l e = cut_first-IsWord l (skip_delimiters l) refl e

-- The bytes of a line that are no delimiters.
abbrev pub text : List ℕ → List ℕ
text [] = []
text (c ∷ l) = if is_delimiter c then text l else c ∷ text l

abbrev pub join : List Token → List ℕ
join [] = []
join (t ∷ ts) = t ++ join ts

text-skip : (l : List ℕ) → text (skip_delimiters l) ≡ text l
unfolding skip_delimiters
text-skip [] = refl
text-skip (c ∷ l) = elim (Bool-cases (is_delimiter c)) [
  | inl e ↦ rw e (text-skip l)
  | inr e ↦ rw e (rw e refl)
]

text-cut : (l : List ℕ) → (cut l).0 ++ text (cut l).1 ≡ text l
unfolding cut
text-cut [] = refl
text-cut (c ∷ l) = elim (Bool-cases (is_delimiter c)) [
  | inl e ↦ rw e refl
  | inr e ↦ rw e (ap (λ m. c ∷ m) (text-cut l))
]

text-cut_first :
    (l : List ℕ) {t : Token} {rest : List ℕ}
    → cut_first l ≡ some (t, rest)
    → t ++ text rest ≡ text l
unfolding cut_first
text-cut_first [] e = absurd (ground arith)
text-cut_first (c ∷ l) {t} {rest} e =
    subst (λ (t, rest). t ++ text rest ≡ text (c ∷ l)) (some-injective (cut (c ∷ l)) (t, rest) e)
      (text-cut (c ∷ l))

text-no_word : (l : List ℕ) → cut_first l ≡ none → text l ≡ []
unfolding cut_first
text-no_word [] e = refl
text-no_word (c ∷ l) e = absurd (ground arith)

text-strtok :
    (l : List ℕ) {t : Token} {rest : List ℕ} → strtok l ≡ some (t, rest) → t ++ text rest ≡ text l
unfolding strtok
text-strtok l e = text-cut_first (skip_delimiters l) e ∙ text-skip l

text-end : (l : List ℕ) → strtok l ≡ none → text l ≡ []
unfolding strtok
text-end l e = sym (text-skip l) ∙ text-no_word (skip_delimiters l) e

-- With at least one round more than the line has bytes the loop ends, and yields words only, none
-- empty and none with a delimiter, which hold the bytes of the line that are no delimiters, in
-- their order.
pub read_words-AllWords :
    (fuel : ℕ) (l : List ℕ)
    → length l < fuel
    → (ws : List Token) × (read_words fuel l ≡ some ws) × AllWords ws × (join ws ≡ text l)
unfolding read_words
read_words-AllWords zero l enough = absurd (omega arith)
read_words-AllWords (suc fuel) l enough = elim (Option-cases (strtok l)) [
  | inl e ↦ ([], rw (e, read_words) refl, tt, sym (text-end l e))
  | inr ((t, rest), e) ↦
      let (w, shorter) = strtok-IsWord l e in
      let (ws, e', all, joined) = read_words-AllWords fuel rest (omega arith) in
      (t ∷ ws, rw (e, e', read_words) refl, (w, all), ap (λ r. t ++ r) joined ∙ text-strtok l e)
]
