-- ===== src/Game/Chip8/Machine.antt =====
-- The machine as a game: `hard_reset`, loading a program, time and input, in firmware/src/game/chip8.c.
use stm32h745_disco.Base.{
  ℕ, zero, suc, Bool, true, false, Option, none, some, List, [], ◌∷◌, ◌+◌, ◌-◌, ◌*◌, ◌/◌, ltb, leb,
  ◌==◌, if◌then◌else◌, not, ◌&&◌, ◌||◌, u16, u32, length, replicate, Err,
}
use stm32h745_disco.Base.Int.{ℤ, pos, ltb_ℤ, pos_part, ◌-ℤ◌, div_ℤ, i16}
use stm32h745_disco.Base.Access.{◌>>=◌, load, store, memcpy}
use stm32h745_disco.Game.{Game, InputKind, InputEvent, game_phase_play}
use stm32h745_disco.Game.Chip8.{Chip8, mem_n, rom_base, fb_w, fb_h, font_base, chip8_rom_max}
use stm32h745_disco.Game.Chip8.Exec.{op_step}

-- `k_font`, five bytes for each digit.
abbrev pub k_font : List ℕ
k_font =
    0xF0 ∷ 0x90 ∷ 0x90 ∷ 0x90 ∷ 0xF0 ∷ 0x20 ∷ 0x60 ∷ 0x20 ∷ 0x20 ∷ 0x70 ∷ 0xF0 ∷ 0x10 ∷ 0xF0 ∷ 0x80
    ∷ 0xF0 ∷ 0xF0 ∷ 0x10 ∷ 0xF0 ∷ 0x10 ∷ 0xF0 ∷ 0x90 ∷ 0x90 ∷ 0xF0 ∷ 0x10 ∷ 0x10 ∷ 0xF0 ∷ 0x80
    ∷ 0xF0 ∷ 0x10 ∷ 0xF0 ∷ 0xF0 ∷ 0x80 ∷ 0xF0 ∷ 0x90 ∷ 0xF0 ∷ 0xF0 ∷ 0x10 ∷ 0x20 ∷ 0x40 ∷ 0x40
    ∷ 0xF0 ∷ 0x90 ∷ 0xF0 ∷ 0x90 ∷ 0xF0 ∷ 0xF0 ∷ 0x90 ∷ 0xF0 ∷ 0x10 ∷ 0xF0 ∷ 0xF0 ∷ 0x90 ∷ 0xF0
    ∷ 0x90 ∷ 0x90 ∷ 0xE0 ∷ 0x90 ∷ 0xE0 ∷ 0x90 ∷ 0xE0 ∷ 0xF0 ∷ 0x80 ∷ 0x80 ∷ 0x80 ∷ 0xF0 ∷ 0xE0
    ∷ 0x90 ∷ 0x90 ∷ 0x90 ∷ 0xE0 ∷ 0xF0 ∷ 0x80 ∷ 0xF0 ∷ 0x80 ∷ 0xF0 ∷ 0xF0 ∷ 0x80 ∷ 0xF0 ∷ 0x80
    ∷ 0x80 ∷ []

abbrev pub k_hex : List ℕ
k_hex =
    0x1 ∷ 0x2 ∷ 0x3 ∷ 0xC ∷ 0x4 ∷ 0x5 ∷ 0x6 ∷ 0xD ∷ 0x7 ∷ 0x8 ∷ 0x9 ∷ 0xE ∷ 0xA ∷ 0x0 ∷ 0xB ∷ 0xF
    ∷ []

-- `k_demo` of firmware/src/game/chip8_roms.c.
abbrev pub k_demo : List ℕ
k_demo =
    0x00 ∷ 0xE0 ∷ 0x60 ∷ 0x1C ∷ 0x61 ∷ 0x0C ∷ 0x62 ∷ 0x01 ∷ 0x63 ∷ 0x01 ∷ 0xA2 ∷ 0x3C ∷ 0xD0 ∷ 0x15
    ∷ 0x64 ∷ 0x03 ∷ 0xF4 ∷ 0x15 ∷ 0xF4 ∷ 0x07 ∷ 0x34 ∷ 0x00 ∷ 0x12 ∷ 0x12 ∷ 0xD0 ∷ 0x15 ∷ 0x80
    ∷ 0x24 ∷ 0x81 ∷ 0x34 ∷ 0x30 ∷ 0x00 ∷ 0x12 ∷ 0x26 ∷ 0x65 ∷ 0x00 ∷ 0x82 ∷ 0x57 ∷ 0x40 ∷ 0x38
    ∷ 0x12 ∷ 0x22 ∷ 0x31 ∷ 0x00 ∷ 0x12 ∷ 0x34 ∷ 0x65 ∷ 0x00 ∷ 0x83 ∷ 0x57 ∷ 0x12 ∷ 0x3A ∷ 0x41
    ∷ 0x1B ∷ 0x12 ∷ 0x2E ∷ 0x12 ∷ 0x3A ∷ 0x12 ∷ 0x0C ∷ 0xF8 ∷ 0x88 ∷ 0x88 ∷ 0x88 ∷ 0xF8 ∷ []

-- The state that `hard_reset` leaves, over a memory; the program and the seed are kept.
abbrev pub cleared : Chip8 → List ℕ → Chip8
cleared c mem = record c {
  mem = mem;
  fb = replicate (fb_w * fb_h) 0;
  v = replicate 16 0;
  key = replicate 16 0;
  stack = replicate 16 0;
  pc = rom_base;
  i = 0;
  sp = 0;
  dt = 0;
  st = 0;
  wait = 0;
  acc = 0;
}

unfoldable pub hard_reset : Chip8 → Option Chip8
hard_reset c = do mem ← memcpy (replicate mem_n 0) font_base k_font 80; some (cleared c mem)

-- What `chip8_load` and `chip8_reset` set in a game that is given.
unfoldable pub started : Option Game → Option Game
started none = none
started (some g) = some (record g { phase = game_phase_play; score = 0; lives = 0 })

unfoldable pub sized : Option Game → ℕ → ℕ → Option Game
sized none w h = none
sized (some g) w h = some (record g { w = w; h = h; phase = game_phase_play })

unfoldable pub chip8_load :
    Option Game → Chip8 → Option (List ℕ) → ℕ → Option (Err × Option Game × Chip8)
chip8_load g c none n = some (Err.inval, g, c)
chip8_load g c (some rom) n = if n == 0 || ltb chip8_rom_max n then some (Err.inval, g, c) else do
  r ← hard_reset c
  kept ← memcpy r.rom 0 rom n
  mem ← memcpy r.mem rom_base rom n
  some (Err.ok, started g, record r { rom = kept; rom_n = n; mem = mem })

-- `chip8_reset` loads the program that is kept, or the demo.
unfoldable pub chip8_reset : Option Game → Chip8 → ℕ → ℕ → Option (Option Game × Chip8)
chip8_reset g c w h = do
  (e, g', c') ←
      if c.rom_n == 0
      then chip8_load (sized g w h) c (some k_demo) (length k_demo)
      else chip8_load (sized g w h) c (some c.rom) c.rom_n
  some (g', c')

-- The loop over the instructions of a frame.
unfoldable pub op_steps : ℕ → Chip8 → Option Chip8
op_steps zero c = some c
op_steps (suc n) c = op_step c >>= op_steps n

-- The body of the loop of `chip8_tick`.
unfoldable pub frame : Chip8 → Option Chip8
frame c = op_steps 20 (record c { acc = c.acc - 16; dt = c.dt - 1; st = c.st - 1 })

-- The loop of `chip8_tick`, on fuel.
unfoldable pub frames : ℕ → Chip8 → Option Chip8
frames zero c = some c
frames (suc fuel) c = if ltb c.acc 16 then some c else (frame c >>= frames fuel)

abbrev pub is_paused : Option Game → Bool
is_paused none = false
is_paused (some g) = not (g.phase == game_phase_play)

-- `chip8_tick`
unfoldable pub chip8_tick : Option Game → Chip8 → ℕ → Option Chip8
chip8_tick g c dt_ms =
    let dt = if ltb 32 dt_ms then 32 else dt_ms in
    let acc = u32 (c.acc + dt) in
    if is_paused g
    then some c
    else if dt_ms == 0
    then some c
    else frames (suc (acc / 16)) (record c { acc = acc })

-- The size of a key in `chip8_draw`, where the pad is drawn at the side or at the bottom.
unfoldable pub pad_cell : Bool → ℕ → ℕ → ℕ
pad_cell at_bottom w h =
    let wide = if at_bottom then u16 (u32 (w + 4294967280) / 4) else 40 in
    let cell = if ltb h (u16 (4 * wide)) then u16 (h / 4) else wide in
    if ltb cell 28 then 28 else cell

abbrev pub at_least_0 : ℤ → ℤ
at_least_0 x = if ltb_ℤ x (pos 0) then pos 0 else x

-- What `chip8_draw` keeps: the place of the key pad, and that there is none on a small screen.
unfoldable pub pad_layout : Chip8 → ℕ → ℕ → Chip8
pad_layout c w h =
    let side = leb 400 w && leb 140 h in
    let bottom = not side && leb 148 h in
    let cell = pad_cell bottom w h in
    let pad = i16 (pos (4 * cell)) in
    if side
    then record c {
      pad_s = cell;
      pad_x = i16 (pos w -ℤ pad -ℤ pos 8);
      pad_y = at_least_0 (i16 (div_ℤ (pos h -ℤ pos (4 * cell)) 2));
    }
    else if bottom
    then record c {
      pad_s = cell;
      pad_x = i16 (div_ℤ (pos w -ℤ pad) 2);
      pad_y = at_least_0 (i16 (pos h -ℤ pad -ℤ pos 4));
    }
    else record c { pad_s = 0 }

-- `key_at`; `none` inside is -1. The differences of the guarded coordinates are not negative.
unfoldable pub key_at : Chip8 → ℤ → ℤ → Option (Option ℕ)
key_at c x y =
    let col = pos_part (x -ℤ c.pad_x) / c.pad_s in
    let row = pos_part (y -ℤ c.pad_y) / c.pad_s in
    if c.pad_s == 0
    then some none
    else if ltb_ℤ x c.pad_x || ltb_ℤ y c.pad_y
    then some none
    else if ltb 3 col || ltb 3 row
    then some none
    else (load k_hex (row * 4 + col) >>= λ k. some (some k))

-- The keys after a touch: only the key that was hit is down.
unfoldable pub press : Chip8 → Option ℕ → Option Chip8
press c none = some (record c { key = replicate 16 0 })
press c (some k) = do keys ← store (replicate 16 0) k 1; some (record c { key = keys; wait = 0 })

abbrev pub is_touch : InputKind → Bool
is_touch InputKind.ptr_down = true
is_touch InputKind.ptr_move = true
is_touch k = false

abbrev pub is_up : InputKind → Bool
is_up InputKind.ptr_up = true
is_up k = false

-- `chip8_input`
unfoldable pub chip8_input : Option Game → Chip8 → Option InputEvent → Option Chip8
chip8_input g c none = some c
chip8_input g c (some e) =
    if is_paused g
    then some c
    else if is_up e.kind
    then some (record c { key = replicate 16 0 })
    else if not (is_touch e.kind)
    then some c
    else (key_at c e.x e.y >>= press c)

-- The statics before the first call.
abbrev pub power_on : Chip8
power_on = record {
  mem = replicate mem_n 0;
  fb = replicate (fb_w * fb_h) 0;
  v = replicate 16 0;
  key = replicate 16 0;
  stack = replicate 16 0;
  pc = 0;
  i = 0;
  sp = 0;
  dt = 0;
  st = 0;
  wait = 0;
  seed = 1;
  acc = 0;
  rom = replicate chip8_rom_max 0;
  rom_n = 0;
  pad_x = pos 0;
  pad_y = pos 0;
  pad_s = 0;
}
