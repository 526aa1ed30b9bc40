-- ===== src/MessageSlot/Copy.antt =====
-- The byte loops of read and write against their descriptions on lists.
use operating_systems_git.Prelude.{
  ℕ, zero, suc, ◌+◌, ◌≤◌, ◌<◌, ◌≡◌, refl, arith, Option, none, some, List, [], ◌∷◌, Bool, sym, ap,
  ◌∙◌, ◌⊎◌, inl, inr, Option-cases, if◌then◌else◌, length, update, lt→ltb, le→ltb, ne→==, ==_refl,
}
use operating_systems_git.MessageSlot.Driver.{
  Node, Errno, Reply, returns, fails, put_loop, get_loop,
}
use operating_systems_git.MessageSlot.View.{bytes_at}

-- A message delivered to the memory of a caller from place `i` on.
unfoldable pub deliver : List ℕ → (i : ℕ) → (writable : ℕ → Bool) → (ℕ → ℕ) → Reply × (ℕ → ℕ)
deliver [] i writable user = (returns i, user)
deliver (c ∷ b) i writable user =
    let rest = deliver b (i + 1) writable (update user i c) in
    if writable i then rest else (fails Errno.einval, user)

none≢some_list : {b : List ℕ} → none ≡ some b → ⊥
none≢some_list e = cc

some_list-injective : {a b : List ℕ} → some a ≡ some b → b ≡ a
some_list-injective e = cc

abbrev prepend : ℕ → Option (List ℕ) → Option (List ℕ)
prepend c none = none
prepend c (some b) = some (c ∷ b)

-- The bytes of a caller, if all of them can be read.
unfoldable pub collect : (ℕ → Option ℕ) → (i k : ℕ) → Option (List ℕ)
collect buffer i zero = some []
collect buffer i (suc k) = elim (buffer i) [
  | none ↦ none
  | some c ↦ prepend c (collect buffer (i + 1) k)
]

pub put_loop-deliver :
    (rounds i k : ℕ) (n : Node) (writable : ℕ → Bool) (user : ℕ → ℕ)
    → i + k ≡ n.msg_len
    → k ≤ rounds
    → put_loop rounds i n writable user ≡ deliver (bytes_at i k n.channel) i writable user
unfolding put_loop deliver
put_loop-deliver zero i zero n writable user e le = refl
put_loop-deliver zero i (suc k) n writable user e le = absurd (omega arith)
put_loop-deliver (suc rounds) i zero n writable user e le = rw (le→ltb i n.msg_len (omega arith))
put_loop-deliver (suc rounds) i (suc k) n writable user e le = rw (
  lt→ltb i n.msg_len (omega arith),
  put_loop-deliver rounds (i + 1) k n writable (update user i (n.channel i)) (omega arith)
      (omega arith),
)

collect-suc :
    (buffer : ℕ → Option ℕ) (i k : ℕ) {c : ℕ} {o : Option (List ℕ)}
    → buffer i ≡ some c
    → collect buffer (i + 1) k ≡ o
    → collect buffer i (suc k) ≡ prepend c o
unfolding collect
collect-suc buffer i k {c} ok more = rw (ok, collect) (ap (prepend c) more)

record Collected (buffer : ℕ → Option ℕ) (i k : ℕ) (b : List ℕ) : Type 0 where
  first : ℕ
  read : buffer i ≡ some first
  rest : List ℕ
  others : collect buffer (i + 1) k ≡ some rest
  whole : b ≡ first ∷ rest

collect-some :
    (buffer : ℕ → Option ℕ) (i k : ℕ) {b : List ℕ}
    → collect buffer i (suc k) ≡ some b
    → Collected buffer i k b
unfolding collect
collect-some buffer i k {b} got = elim (Option-cases (buffer i)) [
  | inl bad ↦ absurd (ground arith)
  | inr (c, ok) ↦ elim (Option-cases (collect buffer (i + 1) k)) [
    | inl short ↦ absurd (none≢some_list (sym (collect-suc buffer i k ok short) ∙ got))
    | inr (r, more) ↦ record {
      first = c;
      read = ok;
      rest = r;
      others = more;
      whole = some_list-injective (sym (collect-suc buffer i k ok more) ∙ got);
    }
  ]
]

collect-none :
    (buffer : ℕ → Option ℕ) (i k : ℕ)
    → collect buffer i (suc k) ≡ none
    → (buffer i ≡ none) ⊎ ((c : ℕ) × (buffer i ≡ some c) × (collect buffer (i + 1) k ≡ none))
unfolding collect
collect-none buffer i k got = elim (Option-cases (buffer i)) [
  | inl bad ↦ inl bad
  | inr (c, ok) ↦ elim (Option-cases (collect buffer (i + 1) k)) [
    | inl short ↦ inr (c, ok, short)
    | inr (r, more) ↦ absurd (none≢some_list (sym got ∙ collect-suc buffer i k ok more))
  ]
]

-- A write whose bytes can all be read fills the channel with them.
pub get_loop-collect :
    (rounds i k len : ℕ) (buffer : ℕ → Option ℕ) (channel : ℕ → ℕ) {b : List ℕ}
    → i + k ≡ len
    → k ≤ rounds
    → collect buffer i k ≡ some b
    → (c : ℕ → ℕ) × (get_loop rounds i len buffer channel ≡ (returns len, c))
      × (bytes_at i k c ≡ b)
      × ((j : ℕ) → j < i → c j ≡ channel j)
unfolding get_loop collect
get_loop-collect zero i zero len buffer channel e le got =
    (channel, ap (λ r. (returns r, channel)) (omega arith), ground arith, λ j lt. refl)
get_loop-collect zero i (suc k) len buffer channel e le got = absurd (omega arith)
get_loop-collect (suc rounds) i zero len buffer channel e le got =
    rw (le→ltb i len (omega arith))
      (channel, ap (λ r. (returns r, channel)) (omega arith), ground arith, λ j lt. refl)
get_loop-collect (suc rounds) i (suc k) len buffer channel {b} e le got =
    let g = collect-some buffer i k got in
    let (c, run, filled, kept) =
      get_loop-collect rounds (i + 1) k len buffer (update channel i g.first) (omega arith)
        (omega arith) g.others in
    rw (lt→ltb i len (omega arith), g.read, run)
      (
        c,
        refl,
        ap (λ x. x ∷ bytes_at (i + 1) k c) (kept i (omega arith) ∙ rw (==_refl i))
            ∙ ap (λ r. g.first ∷ r) filled
            ∙ sym g.whole,
        λ j lt. kept j (omega arith) ∙ rw (ne→== j i (omega arith)),
      )

pub get_loop-fails :
    (rounds i k len : ℕ) (buffer : ℕ → Option ℕ) (channel : ℕ → ℕ)
    → i + k ≡ len
    → k ≤ rounds
    → collect buffer i k ≡ none
    → (c : ℕ → ℕ) × (get_loop rounds i len buffer channel ≡ (fails Errno.einval, c))
unfolding get_loop collect
get_loop-fails rounds i zero len buffer channel e le got = absurd (ground arith)
get_loop-fails zero i (suc k) len buffer channel e le got = absurd (omega arith)
get_loop-fails (suc rounds) i (suc k) len buffer channel e le got =
    rw (lt→ltb i len (omega arith)) (elim (collect-none buffer i k got) [
      | inl bad ↦ rw bad (update channel i 0, refl)
      | inr (c, ok, short) ↦ rw ok (
          get_loop-fails rounds (i + 1) k len buffer (update channel i c) (omega arith)
            (omega arith) short)
    ])

pub length-collect :
    (buffer : ℕ → Option ℕ) (i k : ℕ) {b : List ℕ} → collect buffer i k ≡ some b → length b ≡ k
unfolding collect
length-collect buffer i zero got = ground arith
length-collect buffer i (suc k) got =
    let g = collect-some buffer i k got in
    ap length g.whole ∙ ap suc (length-collect buffer (i + 1) k g.others)
