-- ===== src/MessageSlot/View.antt =====
-- The slot as a client sees it: a message for each device and channel, a channel for each file.
use operating_systems_git.Prelude.{
  ℕ, zero, suc, ◌+◌, ◌≤◌, ◌<◌, ◌≡◌, refl, arith, Option, none, some, List, [], ◌∷◌, ◌&&◌, ◌==◌,
  if◌then◌else◌, length,
}
use operating_systems_git.MessageSlot.Driver.{Ptr, null, buf_len, Node, Slot}
use operating_systems_git.MessageSlot.Chain.{Cells, Chain, ptr_of}

-- The `k` bytes from `i` on.
abbrev pub bytes_at : ℕ → ℕ → (ℕ → ℕ) → List ℕ
bytes_at i zero c = []
bytes_at i (suc k) c = c i ∷ bytes_at (i + 1) k c

-- A channel with no message has the empty list, which no write can store.
pub record View : Type 0 where
  pub messages : (minor id : ℕ) → List ℕ
  pub selected : (f : ℕ) → Option ℕ

abbrev pub set_message : (minor id : ℕ) → List ℕ → View → View
set_message m id b V = record V {
  messages = λ m' id'. if (m' == m) && (id' == id) then b else V.messages m' id';
}

abbrev pub set_selected : (f : ℕ) → Option ℕ → View → View
set_selected f o V = record V { selected = λ g. if g == f then o else V.selected g }

-- The node at an address stores this message; where there is no node there is no message.
abbrev pub Stores : (Ptr → Option Node) → Option Ptr → List ℕ → Type 0
Stores h none b = b ≡ []
Stores h (some p) b =
    (n : Node) × (h p ≡ some n) × (bytes_at 0 n.msg_len n.channel ≡ b) × (n.msg_len ≤ buf_len)

-- The pointer that a file keeps for the channel that it has selected.
abbrev pub Keeps : Cells → Ptr → Option ℕ → Type 0
Keeps xs p none = p ≡ null
Keeps xs p (some id) = ptr_of id xs ≡ some p

pub record Represents (s : Slot) (V : View) : Type 0 where
  pub chain : ℕ → Cells
  pub owner : Ptr → ℕ
  pub chains : (m : ℕ) → m < 256 → Chain s.heap owner m (s.devices m) (chain m)
  pub messages : (m id : ℕ) → m < 256 → Stores s.heap (ptr_of id (chain m)) (V.messages m id)
  pub minors : (f : ℕ) → (s.files f).minor < 256
  pub files : (f : ℕ) → Keeps (chain (s.files f).minor) (s.files f).private_data (V.selected f)

pub length-bytes_at : (i k : ℕ) (c : ℕ → ℕ) → length (bytes_at i k c) ≡ k
length-bytes_at i zero c = refl
length-bytes_at i (suc k) c = omega (arith, length-bytes_at (i + 1) k c)
