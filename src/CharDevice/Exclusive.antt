-- ===== src/CharDevice/Exclusive.antt =====
-- rec06-devices/CHARDEV2/chardev.c: the processes that hold the device, as a step relation. The kernel
-- calls the release once for each open that succeeded.
use operating_systems_git.Prelude.{
  ℕ, suc, ◌≤◌, ◌≡◌, ◌≢◌, refl, sym, ap, ◌∙◌, arith, Option, List, [], ◌∷◌, ◌==◌, length, ne→==,
  ℕ_discrete, Bool-cases, inl, inr, Bool, true, false,
}
use operating_systems_git.CharDevice.Replies.{Errno, ebusy, Reply, returns, fails, increment}
use operating_systems_git.CharDevice.Encrypting.{
  Device, device_open, device_release, device_read, device_write, device_ioctl,
}

-- The module, and the files that are open.
pub record System : Type 0 where
  pub device : Device
  pub holders : List ℕ

abbrev pub boot : (ℕ → ℕ) → System
boot message = record {
  device = record { dev_open_flag = 0; the_message = message; encryption_flag = 0 };
  holders = [];
}

-- The files that are left when `f` is closed.
pub data Removes (f : ℕ) : List ℕ → List ℕ → Type 0 where
  here : {l : List ℕ} → Removes f (f ∷ l) l
  there : {g : ℕ} {l m : List ℕ} → Removes f l m → Removes f (g ∷ l) (g ∷ m)

pub data Step : System → System → Type 0 where
  opened :
      {s : System} {d : Device} (f : ℕ)
      → device_open s.device ≡ (returns 0, d)
      → Step s (record { device = d; holders = f ∷ s.holders })
  refused :
      {s : System} {d : Device} {e : Errno}
      → device_open s.device ≡ (fails e, d)
      → Step s (record { device = d; holders = s.holders })
  released :
      {s : System} {r : Reply} {d : Device} {l : List ℕ} (f : ℕ)
      → Removes f s.holders l
      → device_release s.device ≡ (r, d)
      → Step s (record { device = d; holders = l })
  read :
      {s : System} {r : Reply} {d : Device}
      → device_read s.device ≡ (r, d)
      → Step s (record { device = d; holders = s.holders })
  written :
      {s : System} {r : Reply} {d : Device} (buffer : ℕ → Option ℕ) (len : ℕ)
      → device_write buffer len s.device ≡ (r, d)
      → Step s (record { device = d; holders = s.holders })
  controlled :
      {s : System} {r : Reply} {d : Device} (command id param : ℕ)
      → device_ioctl command id param s.device ≡ (r, d)
      → Step s (record { device = d; holders = s.holders })

pub data Reaches (s : System) : System → Type 0 where
  start : Reaches s s
  next : {t u : System} → Reaches s t → Step t u → Reaches s u

-- The flag counts the holders, who are at most one.
abbrev Counted : System → Type 0
Counted s = (s.device.dev_open_flag ≡ length s.holders) × (length s.holders ≤ 1)

length-Removes : {f : ℕ} {l m : List ℕ} → Removes f l m → length l ≡ suc (length m)
length-Removes here = refl
length-Removes (there r) = ap suc (length-Removes r)

flag_of :
    {r : Reply} {d : Device} {x : Reply × Device} → x ≡ (r, d) → x.1.dev_open_flag ≡ d.dev_open_flag
flag_of e = ap (λ x. x.1.dev_open_flag) e

abbrev is_error : Reply → Bool
is_error (returns n) = false
is_error (fails e) = true

open_busy : (d : Device) → d.dev_open_flag ≡ 1 → device_open d ≡ (fails ebusy, d)
unfolding device_open
open_busy d busy = rw (ap (λ n. n == 1) busy) refl

open_free :
    (d : Device)
    → d.dev_open_flag ≢ 1
    → device_open d ≡ (returns 0, record d { dev_open_flag = increment d.dev_open_flag })
unfolding device_open
open_free d free = rw (ne→== d.dev_open_flag 1 free) refl

open-flag :
    (d : Device) {d' : Device}
    → device_open d ≡ (returns 0, d')
    → d.dev_open_flag ≤ 1
    → (d.dev_open_flag ≡ 0) × (d'.dev_open_flag ≡ 1)
open-flag d e one = elim (ℕ_discrete d.dev_open_flag 1) [
  | yes busy ↦
      let clash : true ≡ false = ap (λ x. is_error x.0) (sym (open_busy d busy) ∙ e) in
      absurd (ground arith)
  | no free ↦
      let empty : d.dev_open_flag ≡ 0 = omega (arith, one, free) in
      (empty, sym (flag_of (sym (open_free d free) ∙ e)) ∙ ap increment empty)
]

open-refused :
    (d : Device) {d' : Device} {x : Errno}
    → device_open d ≡ (fails x, d')
    → d'.dev_open_flag ≡ d.dev_open_flag
open-refused d e = elim (ℕ_discrete d.dev_open_flag 1) [
  | yes busy ↦ sym (flag_of (sym (open_busy d busy) ∙ e))
  | no free ↦
      let clash : false ≡ true = ap (λ x. is_error x.0) (sym (open_free d free) ∙ e) in
      absurd (ground arith)
]

ioctl-flag :
    (command id param : ℕ) (d : Device)
    → (device_ioctl command id param d).1.dev_open_flag ≡ d.dev_open_flag
unfolding device_ioctl
ioctl-flag command id param d = elim (Bool-cases (id == command)) [
  | inl e ↦ rw e refl
  | inr e ↦ rw e refl
]

Step-Counted : {s t : System} → Step s t → Counted s → Counted t
unfolding device_open device_release device_read device_write
Step-Counted (opened {s} f e) (flag, one) =
    let (empty, taken) = open-flag s.device e (omega (arith, flag, one)) in
    (omega (arith, flag, empty, taken), omega (arith, flag, empty))
Step-Counted (refused {s} e) (flag, one) = (open-refused s.device e ∙ flag, one)
Step-Counted (released {s} f r e) (flag, one) =
    let size = length-Removes r in
    (omega (arith, flag_of e, flag, size, one), omega (arith, size, one))
Step-Counted (read e) (flag, one) = (sym (flag_of e) ∙ flag, one)
Step-Counted (written buffer len e) (flag, one) = (sym (flag_of e) ∙ flag, one)
Step-Counted (controlled {s} command id param e) (flag, one) =
    (sym (flag_of e) ∙ ioctl-flag command id param s.device ∙ flag, one)

Reaches-Counted : {s t : System} → Reaches s t → Counted s → Counted t
Reaches-Counted start c = c
Reaches-Counted (next r step) c = Step-Counted step (Reaches-Counted r c)

-- After any steps from the load of the module at most one file is open, and the flag is their number.
pub one_holder :
    {s : System} (message : ℕ → ℕ)
    → Reaches (boot message) s
    → (s.device.dev_open_flag ≡ length s.holders) × (length s.holders ≤ 1)
one_holder message r = Reaches-Counted r (refl, omega arith)
