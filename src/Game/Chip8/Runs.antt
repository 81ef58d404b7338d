-- ===== src/Game/Chip8/Runs.antt =====
-- Each call of the machine keeps the invariant and stays inside the arrays.
use stm32h745_disco.Base.{
  ℕ, zero, suc, false, Option, none, some, List, ◌+◌, ◌*◌, ◌/◌, ◌≤◌, ◌<◌, ◌≡◌, refl, arith, ltb,
  leb, ◌==◌, if◌then◌else◌, not, ◌&&◌, ◌||◌, u32, length, Err, Bool-cases, inl, inr,
}
use stm32h745_disco.Base.Int.{ℤ, ltb_ℤ, pos_part, ◌-ℤ◌}
use stm32h745_disco.Base.Access.{
  AllBelow, Array, Safe, Safe-some, Safe-bind, Safe-if, Safe-load, Safe-store, memcpy-Safe,
  replicate-Array, all_ltb-AllBelow,
}
use stm32h745_disco.Game.{Game, InputEvent}
use stm32h745_disco.Game.Chip8.{Chip8, rom_base, font_base, chip8_rom_max}
use stm32h745_disco.Game.Chip8.Valid.{IsValid, Good}
use stm32h745_disco.Game.Chip8.Step.{op_step-Good}
use stm32h745_disco.Game.Chip8.Machine.{
  k_font, k_hex, k_demo, cleared, hard_reset, started, sized, chip8_load, chip8_reset, op_steps,
  frame, frames, is_paused, chip8_tick, key_at, press, is_touch, is_up, chip8_input, pad_layout,
}

cleared-IsValid :
    {c : Chip8} {lim : ℕ} {mem : List ℕ}
    → IsValid lim c
    → Array 4096 256 mem
    → IsValid 16 (cleared c mem)
cleared-IsValid h m = record {
  mem = m;
  fb = replicate-Array 2048 2 0 (omega arith);
  v = replicate-Array 16 256 0 (omega arith);
  key = replicate-Array 16 2 0 (omega arith);
  stack = replicate-Array 16 65536 0 (omega arith);
  pc = omega arith;
  i = omega arith;
  sp = omega arith;
  dt = omega arith;
  st = omega arith;
  acc = omega arith;
  rom = h.rom;
  rom_n = h.rom_n;
}

hard_reset-Good : {c : Chip8} {lim : ℕ} → IsValid lim c → Good 16 (hard_reset c)
unfolding hard_reset
hard_reset-Good {c} h =
    Safe-bind
      (memcpy-Safe font_base k_font 80 (replicate-Array 4096 256 0 (omega arith))
        (all_ltb-AllBelow 256 k_font refl) (omega arith) (omega arith))
      (λ mem m. Safe-some (cleared-IsValid h m))

op_steps-Good : (n : ℕ) {c : Chip8} {lim : ℕ} → IsValid lim c → Good lim (op_steps n c)
unfolding op_steps
op_steps-Good zero h = Safe-some h
op_steps-Good (suc n) {c} h = Safe-bind (op_step-Good c h) (λ d k. op_steps-Good n k)

frames-Good : (fuel : ℕ) {c : Chip8} → IsValid (fuel * 16 + 16) c → Good 16 (frames fuel c)
unfolding frames frame
frames-Good zero h = Safe-some h
frames-Good (suc fuel) {c} h =
    Safe-if (ltb c.acc 16) (λ e. Safe-some (ground arith))
      (λ e.
        Safe-bind (op_steps-Good 20 {lim = fuel * 16 + 16} (ground arith))
          (λ d k. frames-Good fuel k))

pub chip8_tick-Good :
    (g : Option Game) {c : Chip8} (dt_ms : ℕ) → IsValid 16 c → Good 16 (chip8_tick g c dt_ms)
unfolding chip8_tick
chip8_tick-Good g {c} dt_ms h =
    let dt = if ltb 32 dt_ms then 32 else dt_ms in
    let acc = u32 (c.acc + dt) in
    Safe-if (is_paused g) (λ e. Safe-some h)
      (λ e.
        Safe-if (dt_ms == 0) (λ e. Safe-some h)
          (λ e. frames-Good (suc (acc / 16)) {c = record c { acc = acc }} (ground arith)))

-- What is loaded: a buffer of bytes that is as long as it is said to be.
abbrev pub IsProgram : Option (List ℕ) → ℕ → Type 0
IsProgram none n = Unit {0}
IsProgram (some rom) n = AllBelow 256 rom × (n ≤ length rom)

abbrev pub Loaded : Err × Option Game × Chip8 → Type 0
Loaded p = IsValid 16 p.2

pub chip8_load-Safe :
    (g : Option Game) {c : Chip8} (rom : Option (List ℕ)) (n : ℕ)
    → IsValid 16 c
    → IsProgram rom n
    → Safe Loaded (chip8_load g c rom n)
unfolding chip8_load
chip8_load-Safe g {c} none n h k = Safe-some {a = (Err.inval, g, c)} h
chip8_load-Safe g {c} (some rom) n h k =
    Safe-if (n == 0 || ltb chip8_rom_max n) (λ e. Safe-some {a = (Err.inval, g, c)} h)
      (λ e. Safe-bind (hard_reset-Good h) (λ r v.
        Safe-bind (memcpy-Safe 0 rom n v.rom k.0 k.1 (ground arith)) (λ kept a.
          Safe-bind (memcpy-Safe rom_base rom n v.mem k.0 k.1 (ground arith)) (λ mem m.
            Safe-some {a = (Err.ok, started g, record r { rom = kept; rom_n = n; mem = mem })}
              (ground arith)))))

-- A game and a machine.
abbrev pub Both : Type 0
Both = Option Game × Chip8

abbrev pub Fine : Both → Type 0
Fine p = IsValid 16 p.1

pub chip8_reset-Safe :
    (g : Option Game) {c : Chip8} (w h : ℕ) → IsValid 16 c → Safe Fine (chip8_reset g c w h)
unfolding chip8_reset
chip8_reset-Safe g {c} w h v =
    Safe-bind {P = Loaded}
      (Safe-if (c.rom_n == 0)
        (λ e.
          chip8_load-Safe (sized g w h) (some k_demo) (length k_demo) v
            (all_ltb-AllBelow 256 k_demo refl, omega arith))
        (λ e.
          chip8_load-Safe (sized g w h) (some c.rom) c.rom_n v
            (v.rom.below, omega (arith, v.rom.size, v.rom_n))))
      (λ p l. Safe-some {a = (p.1, p.2)} l)

-- What a touch hits is the number of a key.
abbrev IsHexKey : Option ℕ → Type 0
IsHexKey none = Unit {0}
IsHexKey (some k) = k < 16

key_at-Safe : (c : Chip8) (x y : ℤ) → Safe IsHexKey (key_at c x y)
unfolding key_at
key_at-Safe c x y =
    let col = pos_part (x -ℤ c.pad_x) / c.pad_s in
    let row = pos_part (y -ℤ c.pad_y) / c.pad_s in
    let hex : Array 16 16 k_hex = record { size = refl; below = all_ltb-AllBelow 16 k_hex refl } in
    Safe-if (c.pad_s == 0) (λ e. Safe-some {a = none} tt)
      (λ e.
        Safe-if (ltb_ℤ x c.pad_x || ltb_ℤ y c.pad_y) (λ e. Safe-some {a = none} tt)
          (λ e.
            Safe-if (ltb 3 col || ltb 3 row) (λ e. Safe-some {a = none} tt)
              (λ e.
                Safe-load (row * 4 + col) hex (in_pad col row e)
                  (λ k l. Safe-some {a = some k} l))))
  where
    in_pad : (col row : ℕ) → (ltb 3 col || ltb 3 row) ≡ false → row * 4 + col < 16
    in_pad col row e = ground arith

press-Good : {c : Chip8} (o : Option ℕ) → IsValid 16 c → IsHexKey o → Good 16 (press c o)
unfolding press
press-Good none h k = let z = replicate-Array 16 2 0 (omega arith) in Safe-some (search (h, z))
press-Good (some j) h k =
    Safe-store j 1 (replicate-Array 16 2 0 (omega arith)) k (omega arith)
      (λ keys a. Safe-some (search (h, a)))

pub chip8_input-Good :
    (g : Option Game) {c : Chip8} (e : Option InputEvent)
    → IsValid 16 c
    → Good 16 (chip8_input g c e)
unfolding chip8_input
chip8_input-Good g none h = Safe-some h
chip8_input-Good g {c} (some e) h =
    Safe-if (is_paused g) (λ _. Safe-some h)
      (λ _.
        Safe-if (is_up e.kind)
          (λ _. let z = replicate-Array 16 2 0 (omega arith) in Safe-some (search (h, z)))
          (λ _.
            Safe-if (not (is_touch e.kind)) (λ _. Safe-some h)
              (λ _. Safe-bind (key_at-Safe c e.x e.y) (λ k l. press-Good k h l))))

at_pad :
    {c : Chip8} (x y : ℤ) (s : ℕ)
    → IsValid 16 c
    → IsValid 16 (record c { pad_x = x; pad_y = y; pad_s = s })
at_pad x y s h = search h

pub pad_layout-IsValid : {c : Chip8} (w h : ℕ) → IsValid 16 c → IsValid 16 (pad_layout c w h)
unfolding pad_layout
pad_layout-IsValid {c} w h v = elim (Bool-cases (leb 400 w && leb 140 h)) [
  | inl side ↦ rw side (at_pad _ _ _ v)
  | inr other ↦ elim (Bool-cases (leb 148 h)) [
    | inl bottom ↦ rw (other, bottom) (at_pad _ _ _ v)
    | inr none_there ↦ rw (other, none_there) (at_pad c.pad_x c.pad_y 0 v)
  ]
]
