-- ===== src/Game/Chip8/Calls.antt =====
-- The machine under any sequence of calls.
use stm32h745_disco.Base.{ℕ, Option, some, List, [], ◌∷◌, ◌≡◌, arith}
use stm32h745_disco.Base.Access.{◌>>=◌, Safe, Safe-some, Safe-bind, replicate-Array}
use stm32h745_disco.Game.{Game, InputEvent}
use stm32h745_disco.Game.Chip8.{Chip8}
use stm32h745_disco.Game.Chip8.Valid.{IsValid}
use stm32h745_disco.Game.Chip8.Machine.{chip8_load, chip8_reset, chip8_tick, chip8_input, power_on}
use stm32h745_disco.Game.Chip8.Runs.{
  IsProgram, Both, Fine, chip8_tick-Good, chip8_load-Safe, chip8_reset-Safe, chip8_input-Good,
}
use stm32h745_disco.Game.Chip8.Draw.{chip8_draw}
use stm32h745_disco.Game.Chip8.Drawn.{OnScreen, chip8_draw-Safe}
use stm32h745_disco.Game.Gfx.{Gfx, GfxStats}

-- A call of the game module; `draw` is into a picture that may be absent.
pub data Call : Type 0 where
  reset : ℕ → ℕ → Call
  load_rom : Option (List ℕ) → ℕ → Call
  tick : ℕ → Call
  input : Option InputEvent → Call
  draw : GfxStats → Option Gfx → Call

unfoldable pub after : Call → Option Game → Chip8 → Option Both
after (reset w h) g c = chip8_reset g c w h
after (load_rom rom n) g c = do (e, g', c') ← chip8_load g c rom n; some (g', c')
after (tick dt_ms) g c = do d ← chip8_tick g c dt_ms; some (g, d)
after (input e) g c = do d ← chip8_input g c e; some (g, d)
after (draw st fx) g c = do (d, st', fx') ← chip8_draw g c st fx; some (g, d)

unfoldable pub after_all : List Call → Option Game → Chip8 → Option Both
after_all [] g c = some (g, c)
after_all (call ∷ calls) g c = do (g', d) ← after call g c; after_all calls g' d

-- The programs that are loaded are buffers of bytes of the length that is given with them, and the pictures that
-- are drawn into have their rows inside their buffers.
abbrev pub AllBuffers : List Call → Type 0
AllBuffers [] = Unit {0}
AllBuffers (load_rom rom n ∷ calls) = IsProgram rom n × AllBuffers calls
AllBuffers (reset w h ∷ calls) = AllBuffers calls
AllBuffers (tick dt_ms ∷ calls) = AllBuffers calls
AllBuffers (input e ∷ calls) = AllBuffers calls
AllBuffers (draw st fx ∷ calls) = OnScreen fx × AllBuffers calls

after_all-Safe :
    (calls : List Call) (g : Option Game) {c : Chip8}
    → IsValid 16 c
    → AllBuffers calls
    → Safe Fine (after_all calls g c)
unfolding after_all after
after_all-Safe [] g {c} h p = Safe-some {a = (g, c)} h
after_all-Safe (reset x y ∷ calls) g h p =
    Safe-bind (chip8_reset-Safe g x y h) (λ b f. after_all-Safe calls b.0 f p)
after_all-Safe (load_rom rom n ∷ calls) g h p =
    Safe-bind {P = Fine}
      (Safe-bind (chip8_load-Safe g rom n h p.0) (λ b f. Safe-some {a = (b.1, b.2)} f))
      (λ b f. after_all-Safe calls b.0 f p.1)
after_all-Safe (tick dt_ms ∷ calls) g h p =
    Safe-bind {P = Fine} (Safe-bind (chip8_tick-Good g dt_ms h) (λ d f. Safe-some {a = (g, d)} f))
      (λ b f. after_all-Safe calls b.0 f p)
after_all-Safe (input e ∷ calls) g h p =
    Safe-bind {P = Fine} (Safe-bind (chip8_input-Good g e h) (λ d f. Safe-some {a = (g, d)} f))
      (λ b f. after_all-Safe calls b.0 f p)
after_all-Safe (draw st fx ∷ calls) g h p =
    Safe-bind {P = Fine}
      (Safe-bind (chip8_draw-Safe g st fx h p.0) (λ r f. Safe-some {a = (g, r.0)} f.0))
      (λ b f. after_all-Safe calls b.0 f p.1)

power_on-IsValid : IsValid 16 power_on
power_on-IsValid = record {
  mem = replicate-Array 4096 256 0 (omega arith);
  fb = replicate-Array 2048 2 0 (omega arith);
  v = replicate-Array 16 256 0 (omega arith);
  key = replicate-Array 16 2 0 (omega arith);
  stack = replicate-Array 16 65536 0 (omega arith);
  pc = omega arith;
  i = omega arith;
  sp = omega arith;
  dt = omega arith;
  st = omega arith;
  acc = omega arith;
  rom = replicate-Array 3584 256 0 (omega arith);
  rom_n = omega arith;
}

-- No program and no sequence of calls makes the machine leave one of its arrays: from power-on every
-- sequence of resets, loads, ticks, touches and drawings runs to its end, in a state that keeps
-- the invariant and has less than 16 ms waiting. A drawing is the whole of `chip8_draw`, with its
-- reads of the pixels, the font, the keys and their digits, and the stores to the buffer of the
-- picture. A loaded buffer is as long as it is said to be, and the rows of a picture that is
-- drawn into are inside its buffer, whatever its size and that of the game.
pub chip8-Safe :
    (calls : List Call) (g : Option Game)
    → AllBuffers calls
    → (g' : Option Game) × (c : Chip8) × (after_all calls g power_on ≡ some (g', c)) × IsValid 16 c
chip8-Safe calls g p =
    let s = after_all-Safe calls g power_on-IsValid p in
    (s.result.0, s.result.1, s.reached, s.holds)
