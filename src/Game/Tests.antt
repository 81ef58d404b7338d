-- ===== src/Game/Tests.antt =====
-- The games at concrete inputs.
use stm32h745_disco.Base.{Option, none, some, List, [], ◌∷◌, ◌++◌, ◌≡◌, refl, arith, replicate}
use stm32h745_disco.Base.Int.{pos}
use stm32h745_disco.Game.{Game, InputKind}
use stm32h745_disco.Game.Gfx.{Gfx, gfx_stats_reset}
use stm32h745_disco.Game.Chip8.{Chip8, alu, set_v, flag_then, alu_on}
use stm32h745_disco.Game.Chip8.Valid.{IsValid}
use stm32h745_disco.Game.Chip8.Machine.{power_on}
use stm32h745_disco.Game.Chip8.Calls.{
  Call, reset, load_rom, tick, input, draw, after_all, chip8-Safe,
}

-- 200 + 100 leaves 44 and sets the carry.
add_carry :
    alu (record power_on { v = 200 ∷ 100 ∷ replicate 14 0 }) 0 1 4
    ≡ some (record power_on { v = 44 ∷ 100 ∷ replicate 13 0 ++ 1 ∷ [] })
unfolding alu alu_on flag_then set_v
add_carry = refl

-- The demo, a program that jumps to itself, a touch, and the pad at the side of a game, drawn into a small picture.
abbrev small : Gfx
small = record { fb = some (replicate 15 0); w = 4; h = 3; stride = 5 }

abbrev game : Game
game = record {
  w = 0;
  h = 0;
  phase = 1;
  lives = 0;
  rows = 0;
  served = 0;
  bricks = [];
  brick_w = 0;
  brick_h = 0;
  paddle_w = 0;
  paddle_y = 0;
  paddle_x = pos 0;
  ball_x = pos 0;
  ball_y = pos 0;
  ball_vx = pos 0;
  ball_vy = pos 0;
  score = 0;
  high = 0;
}

abbrev calls : List Call
calls =
    reset 480 240
    ∷ load_rom (some (0x12 ∷ 0x00 ∷ [])) 2
    ∷ tick 33
    ∷ input (some (record { kind = InputKind.ptr_down; x = pos 320; y = pos 50 }))
    ∷ draw gfx_stats_reset (some small)
    ∷ draw gfx_stats_reset none
    ∷ []

chip8-Safe_example :
    (g' : Option Game) × (c : Chip8) × (after_all calls (some game) power_on ≡ some (g', c))
    × IsValid 16 c
chip8-Safe_example = chip8-Safe calls (some game) (
  ((omega arith, (omega arith, tt)), omega arith),
  (
    (
      15,
      record {
        fb = replicate 15 0;
        there = refl;
        size = refl;
        wide = omega arith;
        high = omega arith;
      },
    ),
    (tt, tt),
  ),
)
