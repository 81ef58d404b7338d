-- ===== src/Game/Gfx/Tests.antt =====
-- Drawing at concrete inputs.
use stm32h745_disco.Base.{ℕ, some, List, [], ◌∷◌, ◌+◌, ◌≡◌, refl, arith, u32, replicate}
use stm32h745_disco.Base.Access.{Safe}
use stm32h745_disco.Base.Int.{pos, negsuc, ◌+ℤ◌}
use stm32h745_disco.Game.{Game}
use stm32h745_disco.Game.Gfx.{Gfx, GfxRect, gfx_stats_reset, gfx_fill, fill, fill_rows, fill_cols}
use stm32h745_disco.Game.Gfx.Drawn.{Drawn, gfx_fill-Drawn}
use stm32h745_disco.Game.Gfx.Inside.{Screen}
use stm32h745_disco.Game.Brick.Play.{brick_reset}
use stm32h745_disco.Game.Brick.Calls.{brick_reset-IsValid}
use stm32h745_disco.Game.Brick.Draw.{brick_draw, brick_draw-Screen}

abbrev empty_fb : List ℕ
empty_fb = replicate 9 0

abbrev small : Gfx
small = record { fb = some empty_fb; w = 3; h = 2; stride = 4 }

-- A rectangle that lies across the left and the lower side.
abbrev corner : GfxRect
corner = record { x = negsuc 0; y = pos 1; w = 3; h = 9 }

corner_filled : fill 3 2 4 corner 7 empty_fb ≡ some (0 ∷ 0 ∷ 0 ∷ 0 ∷ 7 ∷ 7 ∷ 0 ∷ 0 ∷ 0 ∷ [])
unfolding fill fill_rows fill_cols ◌+ℤ◌
corner_filled = refl

gfx_fill-Drawn_example :
    Safe
      (λ p.
        ((fb1 : List ℕ) × (p.1.fb ≡ some fb1) × Drawn 3 2 4 corner 7 empty_fb fb1)
        × (p.0.fills ≡ u32 (gfx_stats_reset.fills + 1)))
      (gfx_fill gfx_stats_reset small corner 7)
gfx_fill-Drawn_example =
    gfx_fill-Drawn gfx_stats_reset small corner 7 empty_fb refl (omega arith) (omega arith)

abbrev blank : Game
blank = record {
  w = 0;
  h = 0;
  phase = 0;
  lives = 0;
  rows = 0;
  served = 0;
  bricks = [];
  brick_w = 0;
  brick_h = 0;
  paddle_w = 0;
  paddle_y = 0;
  paddle_x = pos 0;
  ball_x = pos 0;
  ball_y = pos 0;
  ball_vx = pos 0;
  ball_vy = pos 0;
  score = 0;
  high = 0;
}

brick_draw-Screen_example :
    Safe (λ p. Screen 9 p.1) (brick_draw (brick_reset blank 200 120) gfx_stats_reset small)
brick_draw-Screen_example =
    brick_draw-Screen (brick_reset blank 200 120) gfx_stats_reset small 9
      (brick_reset-IsValid blank 200 120)
      (record { fb = empty_fb; there = refl; size = refl; wide = omega arith; high = omega arith })
