-- ===== src/Game/Chip8/Valid.antt =====
-- The invariant of the machine, and that the register, memory and screen operations keep it.
use stm32h745_disco.Base.{
  ℕ, zero, suc, Bool, true, false, Option, none, some, List, ◌+◌, ◌≤◌, ◌<◌, arith, leb, ◌==◌, not,
  u16,
}
use stm32h745_disco.Base.Access.{Array, Safe, Safe-some, Safe-bind, Safe-if, Safe-load, Safe-store}
use stm32h745_disco.Game.Chip8.{
  Chip8, mem_n, skip_if, set_v, flag, flag_then, alu_on, alu, find_key, save_regs, load_regs,
  wait_key, store_bcd, misc,
}

-- The arrays have their sizes and hold values of their types, the pixels and the keys are 0 or 1, the
-- stack pointer is at most 16, and the time that waits is below a limit.
pub record IsValid (lim : ℕ) (c : Chip8) : Type 0 where
  pub mem : Array 4096 256 c.mem
  pub fb : Array 2048 2 c.fb
  pub v : Array 16 256 c.v
  pub key : Array 16 2 c.key
  pub stack : Array 16 65536 c.stack
  pub pc : c.pc < 65536
  pub i : c.i < 65536
  pub sp : c.sp ≤ 16
  pub dt : c.dt < 256
  pub st : c.st < 256
  pub acc : c.acc < lim
  pub rom : Array 3584 256 c.rom
  pub rom_n : c.rom_n ≤ 3584

abbrev pub Good : ℕ → Option Chip8 → Type 0
Good lim o = Safe (IsValid lim) o

pub skip_if-IsValid : {lim : ℕ} {c : Chip8} (t : Bool) → IsValid lim c → IsValid lim (skip_if t c)
unfolding skip_if
skip_if-IsValid {c = c} true h = ground arith
skip_if-IsValid {c = c} false h = h

pub set_v-Good :
    {lim : ℕ} {c : Chip8} (x b : ℕ) → IsValid lim c → x < 16 → b < 256 → Good lim (set_v c x b)
unfolding set_v
set_v-Good {c = c} x b h k l = Safe-store x b h.v k l (λ w a. Safe-some (search (h, a)))

flag_then-Good :
    {lim : ℕ} {c : Chip8} (f x y : ℕ) (g : ℕ → ℕ → ℕ)
    → IsValid lim c
    → f < 256
    → x < 16
    → y < 16
    → ((a b : ℕ) → a < 256 → b < 256 → g a b < 256)
    → Good lim (flag_then c f x y g)
unfolding flag_then
flag_then-Good {c = c} f x y g h k l m small = Safe-store 15 f h.v (omega arith) k (λ w e.
    Safe-load x e l (λ a p.
      Safe-load y e m
        (λ b q. set_v-Good {c = record c { v = w }} x (g a b) (search (h, e)) l (small a b p q))))

flag_small : (t : Bool) → flag t < 256
flag_small true = omega arith
flag_small false = omega arith

alu_on-Good :
    {lim : ℕ} {c : Chip8} (x y n a b : ℕ)
    → IsValid lim c
    → x < 16
    → y < 16
    → a < 256
    → b < 256
    → Good lim (alu_on c x y n a b)
unfolding alu_on
alu_on-Good {c = c} x y n a b h k l p q =
    Safe-if (n == 0x0) (λ e. set_v-Good x b h k q)
      (λ e.
        Safe-if (n == 0x1) (λ e. set_v-Good x _ h k (omega arith))
          (λ e.
            Safe-if (n == 0x2) (λ e. set_v-Good x _ h k (omega arith))
              (λ e.
                Safe-if (n == 0x3) (λ e. set_v-Good x _ h k (omega arith))
                  (λ e.
                    Safe-if (n == 0x4)
                      (λ e. flag_then-Good _ x y _ h (flag_small _) k l (λ a b p q. omega arith))
                      (λ e.
                        Safe-if (n == 0x5)
                          (λ e.
                            flag_then-Good _ x y _ h (flag_small _) k l (λ a b p q. omega arith))
                          (λ e.
                            Safe-if (n == 0x6)
                              (λ e.
                                flag_then-Good _ x y _ h (omega arith) k l (λ a b p q. omega arith))
                              (λ e.
                                Safe-if (n == 0x7)
                                  (λ e.
                                    flag_then-Good _ x y _ h (flag_small _) k l
                                      (λ a b p q. omega arith))
                                  (λ e.
                                    Safe-if (n == 0xE)
                                      (λ e.
                                        flag_then-Good _ x y _ h (omega arith) k l
                                          (λ a b p q. omega arith))
                                      (λ e. Safe-some h)))))))))

pub alu-Good :
    {lim : ℕ} {c : Chip8} (x y n : ℕ) → IsValid lim c → x < 16 → y < 16 → Good lim (alu c x y n)
unfolding alu
alu-Good x y n h k l =
    Safe-load x h.v k (λ a p. Safe-load y h.v l (λ b q. alu_on-Good x y n a b h k l p q))

-- What the search finds is the number of a key.
abbrev IsKey : Option ℕ → Type 0
IsKey none = Unit {0}
IsKey (some k) = k < 16

find_key-Safe :
    (left k : ℕ) {key : List ℕ} → Array 16 2 key → left + k ≤ 16 → Safe IsKey (find_key left k key)
unfolding find_key
find_key-Safe zero k a h = Safe-some tt
find_key-Safe (suc left) k a h = Safe-load k a (omega arith) (λ down l.
    Safe-if (not (down == 0)) (λ e. Safe-some {a = some k} (omega arith))
      (λ e. find_key-Safe left (k + 1) a (omega arith)))

wait_key-Good : {lim : ℕ} {c : Chip8} (x : ℕ) → IsValid lim c → x < 16 → Good lim (wait_key c x)
unfolding wait_key
wait_key-Good {lim} {c} x h k = Safe-bind (find_key-Safe 16 0 h.key (omega arith)) found
  where
    found :
        (o : Option ℕ)
        → IsKey o
        → Good lim (elim o [
          | some k ↦ set_v c x k
          | none ↦ some (record c { pc = u16 (c.pc + 65534); wait = 1 })
        ])
    found none l = Safe-some (ground arith)
    found (some j) l = set_v-Good x j h k (omega arith)

save_regs-Safe :
    (left k i : ℕ) {v mem : List ℕ}
    → Array 16 256 v
    → Array 4096 256 mem
    → left + k ≤ 16
    → Safe (Array 4096 256) (save_regs left k i v mem)
unfolding save_regs
save_regs-Safe zero k i a m h = Safe-some m
save_regs-Safe (suc left) k i a m h =
    Safe-if (leb mem_n (i + k)) (λ e. Safe-some m)
      (λ e. Safe-load k a (omega arith) (λ b l.
        Safe-store (i + k) b m (ground arith) l
          (λ n c. save_regs-Safe left (k + 1) i a c (omega arith))))

load_regs-Safe :
    (left k i : ℕ) {mem v : List ℕ}
    → Array 4096 256 mem
    → Array 16 256 v
    → left + k ≤ 16
    → Safe (Array 16 256) (load_regs left k i mem v)
unfolding load_regs
load_regs-Safe zero k i m a h = Safe-some a
load_regs-Safe (suc left) k i m a h =
    Safe-if (leb mem_n (i + k)) (λ e. Safe-some a)
      (λ e. Safe-load (i + k) m (ground arith) (λ b l.
        Safe-store k b a (omega arith) l (λ w c. load_regs-Safe left (k + 1) i m c (omega arith))))

store_bcd-Good : {lim : ℕ} {c : Chip8} (x : ℕ) → IsValid lim c → x < 16 → Good lim (store_bcd c x)
unfolding store_bcd
store_bcd-Good {c = c} x h k =
    Safe-if (leb mem_n (c.i + 2)) (λ e. Safe-some h)
      (λ e. Safe-load x h.v k (λ a l. Safe-store c.i _ h.mem (ground arith) (omega arith) (λ m1 e1.
        Safe-store (c.i + 1) _ e1 (ground arith) (omega arith) (λ m2 e2.
          Safe-store (c.i + 2) _ e2 (ground arith) (omega arith)
            (λ m3 e3. Safe-some (search (h, e3)))))))

pub misc-Good : {lim : ℕ} {c : Chip8} (x kk : ℕ) → IsValid lim c → x < 16 → Good lim (misc c x kk)
unfolding misc
misc-Good {c = c} x kk h k =
    Safe-if (kk == 0x07) (λ e. set_v-Good x c.dt h k h.dt)
      (λ e.
        Safe-if (kk == 0x0A) (λ e. wait_key-Good x h k)
          (λ e.
            Safe-if (kk == 0x15) (λ e. Safe-load x h.v k (λ a l. Safe-some (ground arith)))
              (λ e.
                Safe-if (kk == 0x18) (λ e. Safe-load x h.v k (λ a l. Safe-some (ground arith)))
                  (λ e.
                    Safe-if (kk == 0x1E) (λ e. Safe-load x h.v k (λ a l. Safe-some (ground arith)))
                      (λ e.
                        Safe-if (kk == 0x29)
                          (λ e. Safe-load x h.v k (λ a l. Safe-some (ground arith)))
                          (λ e.
                            Safe-if (kk == 0x33) (λ e. store_bcd-Good x h k)
                              (λ e.
                                Safe-if (kk == 0x55)
                                  (λ e.
                                    Safe-bind (save_regs-Safe (x + 1) 0 c.i h.v h.mem (omega arith))
                                      (λ m a. Safe-some (ground arith)))
                                  (λ e.
                                    Safe-if (kk == 0x65)
                                      (λ e.
                                        Safe-bind
                                          (load_regs-Safe (x + 1) 0 c.i h.mem h.v (omega arith))
                                          (λ v a. Safe-some (ground arith)))
                                      (λ e. Safe-some h)))))))))
