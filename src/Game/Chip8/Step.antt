-- ===== src/Game/Chip8/Step.antt =====
-- One instruction keeps the invariant and stays inside the arrays.
use stm32h745_disco.Base.{
  ℕ, zero, suc, Bool, some, List, ◌+◌, ◌-◌, ◌*◌, ◌/◌, ◌%◌, ◌^◌, ◌<◌, arith, ltb, leb, ◌==◌,
  if◌then◌else◌, not, ◌&&◌, ◌||◌, u8, u16, bit_and, bit_xor,
}
use stm32h745_disco.Base.Access.{
  store, Array, Safe, Safe-some, Safe-bind, Safe-if, Safe-load, Safe-store, store-Array,
  replicate-Array,
}
use stm32h745_disco.Game.Chip8.{Chip8, mem_n, fb_w, fb_h}
use stm32h745_disco.Game.Chip8.Screen.{plot, draw_cols, draw_rows, draw_sprite}
use stm32h745_disco.Game.Chip8.Exec.{system, call, skip_reg, skip_regs, skip_key, exec_op, op_step}
use stm32h745_disco.Game.Chip8.Valid.{
  IsValid, Good, skip_if-IsValid, set_v-Good, alu-Good, misc-Good,
}

-- Registers and pixels after a step of drawing.
abbrev pub Drawn : List ℕ × List ℕ → Type 0
Drawn p = Array 16 256 p.0 × Array 2048 2 p.1

-- A pixel stays a pixel.
flipped : (b : ℕ) → b < 2 → u8 (bit_xor b 1) < 2
flipped zero h = omega arith
flipped (suc zero) h = omega arith
flipped (suc (suc b)) h = absurd (omega arith)

plot-Safe :
    (at : ℕ) {v fb : List ℕ}
    → Array 16 256 v
    → Array 2048 2 fb
    → at < 2048
    → Safe Drawn (plot at v fb)
unfolding plot
plot-Safe at {v} {fb} a s h = Safe-load at s h (λ b l.
    Safe-bind (set b)
      (λ w e. Safe-store at _ s h (flipped b l) (λ f g. Safe-some {a = (w, f)} (e, g))))
  where
    set : (b : ℕ) → Safe (Array 16 256) (if not (b == 0) then store v 0xF 1 else some v)
    set b =
        Safe-if (not (b == 0)) (λ e. store-Array 15 1 a (omega arith) (omega arith))
          (λ e. Safe-some a)

draw_cols-Safe :
    (left col px yy bits : ℕ) {v fb : List ℕ}
    → Array 16 256 v
    → Array 2048 2 fb
    → yy < 32
    → Safe Drawn (draw_cols left col px yy bits v fb)
unfolding draw_cols
draw_cols-Safe zero col px yy bits {v} {fb} a s h = Safe-some {a = (v, fb)} (a, s)
draw_cols-Safe (suc left) col px yy bits {v} {fb} a s h =
    Safe-bind {P = Drawn}
      (Safe-if (bit_and bits (128 / 2 ^ col) == 0) (λ e. Safe-some {a = (v, fb)} (a, s))
        (λ e. plot-Safe (yy * fb_w + u8 ((px + col) % fb_w)) a s (omega arith)))
      (λ p d. draw_cols-Safe left (col + 1) px yy bits d.0 d.1 h)

draw_rows-Safe :
    (left row px py i : ℕ) {mem v fb : List ℕ}
    → Array 4096 256 mem
    → Array 16 256 v
    → Array 2048 2 fb
    → Safe Drawn (draw_rows left row px py i mem v fb)
unfolding draw_rows
draw_rows-Safe zero row px py i {v = v} {fb = fb} m a s = Safe-some {a = (v, fb)} (a, s)
draw_rows-Safe (suc left) row px py i {v = v} {fb = fb} m a s =
    Safe-if (leb mem_n (i + row)) (λ e. Safe-some {a = (v, fb)} (a, s))
      (λ e. Safe-load (i + row) m (ground arith) (λ bits l.
        Safe-bind (draw_cols-Safe 8 0 px (u8 ((py + row) % fb_h)) bits a s (omega arith))
          (λ p d. draw_rows-Safe left (row + 1) px py i m d.0 d.1)))

draw_sprite-Good :
    {lim : ℕ} {c : Chip8} (x y n : ℕ)
    → IsValid lim c
    → x < 16
    → y < 16
    → Good lim (draw_sprite c x y n)
unfolding draw_sprite
draw_sprite-Good {c = c} x y n h k l = Safe-load x h.v k (λ a p. Safe-load y h.v l (λ b q.
    Safe-store 15 0 h.v (omega arith) (omega arith) (λ v e.
      Safe-bind (draw_rows-Safe n 0 (u8 (a % fb_w)) (u8 (b % fb_h)) c.i h.mem e h.fb)
        (λ p d. Safe-some (ground (arith, d.0, d.1))))))

system-Good : {lim : ℕ} {c : Chip8} (op : ℕ) → IsValid lim c → Good lim (system c op)
unfolding system
system-Good {c = c} op h =
    Safe-if (op == 0x00E0)
      (λ e. let z = replicate-Array 2048 2 0 (omega arith) in Safe-some (search (h, z)))
      (λ e.
        Safe-if (op == 0x00EE && ltb 0 c.sp)
          (λ e. Safe-load (c.sp - 1) h.stack (ground arith) (λ pc l. Safe-some (ground arith)))
          (λ e. Safe-some h))

call-Good : {lim : ℕ} {c : Chip8} (nnn : ℕ) → IsValid lim c → nnn < 4096 → Good lim (call c nnn)
unfolding call
call-Good {c = c} nnn h k =
    Safe-if (ltb c.sp 16)
      (λ e. Safe-store c.sp c.pc h.stack (ground arith) h.pc (λ s a. Safe-some (ground arith)))
      (λ e. Safe-some (ground arith))

skip_reg-Good :
    {lim : ℕ} {c : Chip8} (x : ℕ) (test : ℕ → Bool)
    → IsValid lim c
    → x < 16
    → Good lim (skip_reg c x test)
unfolding skip_reg
skip_reg-Good x test h k = Safe-load x h.v k (λ a l. Safe-some (skip_if-IsValid (test a) h))

skip_regs-Good :
    {lim : ℕ} {c : Chip8} (x y : ℕ) (test : ℕ → ℕ → Bool)
    → IsValid lim c
    → x < 16
    → y < 16
    → Good lim (skip_regs c x y test)
unfolding skip_regs
skip_regs-Good x y test h k l =
    Safe-load x h.v k (λ a p. Safe-load y h.v l (λ b q. Safe-some (skip_if-IsValid (test a b) h)))

skip_key-Good :
    {lim : ℕ} {c : Chip8} (x kk : ℕ) → IsValid lim c → x < 16 → Good lim (skip_key c x kk)
unfolding skip_key
skip_key-Good {c = c} x kk h k =
    Safe-if (kk == 0x9E || kk == 0xA1)
      (λ e.
        Safe-load x h.v k (λ a l.
          Safe-load (a % 16) h.key (omega arith) (λ down m. Safe-some (skip_if-IsValid _ h))))
      (λ e. Safe-some h)

exec_op-Good : {lim : ℕ} {c : Chip8} (op : ℕ) → IsValid lim c → op < 65536 → Good lim (exec_op c op)
unfolding exec_op
exec_op-Good {c = c} op h k =
    let x = op / 256 % 16 in
    let y = op / 16 % 16 in
    let n = op % 16 in
    let kk = op % 256 in
    let nnn = op % 4096 in
    let xs : x < 16 = omega arith in
    let ys : y < 16 = omega arith in
    let top = op / 4096 in
    Safe-if (top == 0x0) (λ e. system-Good op h)
      (λ e.
        Safe-if (top == 0x1) (λ e. Safe-some (ground arith))
          (λ e.
            Safe-if (top == 0x2) (λ e. call-Good nnn h (omega arith))
              (λ e.
                Safe-if (top == 0x3) (λ e. skip_reg-Good x (λ a. a == kk) h xs)
                  (λ e.
                    Safe-if (top == 0x4) (λ e. skip_reg-Good x (λ a. not (a == kk)) h xs)
                      (λ e.
                        Safe-if (top == 0x5)
                          (λ e.
                            Safe-if (n == 0) (λ e. skip_regs-Good x y (λ a b. a == b) h xs ys)
                              (λ e. Safe-some h))
                          (λ e.
                            Safe-if (top == 0x6) (λ e. set_v-Good x kk h xs (omega arith))
                              (λ e.
                                Safe-if (top == 0x7)
                                  (λ e.
                                    Safe-load x h.v xs (λ a l. set_v-Good x _ h xs (omega arith)))
                                  (λ e.
                                    Safe-if (top == 0x8) (λ e. alu-Good x y n h xs ys)
                                      (λ e.
                                        Safe-if (top == 0x9)
                                          (λ e.
                                            Safe-if (n == 0)
                                              (λ e.
                                                skip_regs-Good x y (λ a b. not (a == b)) h xs ys)
                                              (λ e. Safe-some h))
                                          (λ e.
                                            Safe-if (top == 0xA) (λ e. Safe-some (ground arith))
                                              (λ e.
                                                Safe-if (top == 0xB)
                                                  (λ e.
                                                    Safe-load 0 h.v (omega arith)
                                                      (λ a l. Safe-some (ground arith)))
                                                  (λ e.
                                                    Safe-if (top == 0xC)
                                                      (λ e.
                                                        set_v-Good x _ (ground arith) xs
                                                          (omega arith))
                                                      (λ e.
                                                        Safe-if (top == 0xD)
                                                          (λ e. draw_sprite-Good x y n h xs ys)
                                                          (λ e.
                                                            Safe-if (top == 0xE)
                                                            (λ e. skip_key-Good x kk h xs)
                                                            (λ e. misc-Good x kk h xs)))))))))))))))

-- One instruction of any program stays inside the arrays of the machine and keeps the invariant.
pub op_step-Good : {lim : ℕ} (c : Chip8) → IsValid lim c → Good lim (op_step c)
unfolding op_step
op_step-Good {lim} c h =
    Safe-if (leb mem_n (c.pc + 1)) (λ e. Safe-some h)
      (λ e. Safe-load c.pc h.mem (ground arith) (λ hi p.
        Safe-load (c.pc + 1) h.mem (ground arith) (λ lo q.
          exec_op-Good {c = record c { pc = u16 (c.pc + 2) }} _ (ground arith) (omega arith))))
