-- ===== src/Game/Brick/Tests.antt =====
-- The brick game at concrete inputs.
use stm32h745_disco.Base.{ℕ, false, List, [], ◌∷◌, ◌+◌, ◌≤◌, ◌≡◌, ◌≢◌, refl, arith, replicate}
use stm32h745_disco.Base.Int.{pos, ◌+ℤ◌, ◌-ℤ◌, ◌*ℤ◌, div_ℤ, neg_ℤ, wrap_ℤ, mod_ℤ}
use stm32h745_disco.Game.{Game, InputKind}
use stm32h745_disco.Game.Brick.{
  q8_px, px_q8, clampi, rows_for_h, layout, serve, fill_bricks, brick_count, overlap, brick_x,
  brick_y, bounce_brick,
}
use stm32h745_disco.Game.Brick.Play.{
  break_brick, hit_bricks_from, hit_bricks, hit_paddle, miss, brick_reset, brick_tick, move_x,
  move_y, after_move,
}
use stm32h745_disco.Game.Brick.Valid.{IsValid}
use stm32h745_disco.Game.Brick.Calls.{
  Call, input, tick, set_high, pause, resume, resize, after_all, brick_reset-IsValid,
  brick_reset-after_all,
}
use stm32h745_disco.Game.Brick.Places.{bricks_apart}
use stm32h745_disco.Game.Brick.Hits.{Hits, hit_bricks-Hits}

abbrev blank : Game
blank = record {
  w = 0;
  h = 0;
  phase = 0;
  lives = 0;
  rows = 0;
  served = 0;
  bricks = replicate 40 0;
  brick_w = 0;
  brick_h = 0;
  paddle_w = 0;
  paddle_y = 0;
  paddle_x = pos 0;
  ball_x = pos 0;
  ball_y = pos 0;
  ball_vx = pos 0;
  ball_vy = pos 0;
  score = 0;
  high = 0;
}

abbrev calls : List Call
calls =
    tick 16
    ∷ tick 33
    ∷ input (record { kind = InputKind.ptr_down; x = pos 470; y = pos 230 })
    ∷ pause
    ∷ resize 200 90
    ∷ resume
    ∷ set_high 500
    ∷ tick 32
    ∷ []

brick_reset-after_all_example : IsValid (after_all (brick_reset blank 480 240) calls)
brick_reset-after_all_example = brick_reset-after_all blank 480 240 calls

abbrev full : Game
full = brick_reset blank 480 240

forty : full.rows ≡ 5
unfolding brick_reset layout rows_for_h serve fill_bricks
forty = refl

abbrev fourth : ℕ
fourth = 3

abbrev thirteenth : ℕ
thirteenth = 12

bricks_apart_example :
    ((x : ℕ) × (y : ℕ) × (brick_x full fourth ≡ pos x)
      × (brick_y full fourth ≡ pos y)
      × (4 ≤ x)
      × (x + full.brick_w + 4 ≤ full.w)
      × (4 ≤ y)
      × (y + full.brick_h + 14 ≤ full.paddle_y))
    × (fourth ≢ thirteenth
        → overlap
            (brick_x full fourth)
            (brick_y full fourth)
            (pos full.brick_w)
            (pos full.brick_h)
            (brick_x full thirteenth)
            (brick_y full thirteenth)
            (pos full.brick_w)
            (pos full.brick_h)
          ≡ false)
bricks_apart_example =
    bricks_apart full (brick_reset-IsValid blank 480 240) fourth thirteenth (omega (arith, forty))
      (omega (arith, forty))

hit_bricks-Hits_example : Hits full (pos 10) (pos 20) (hit_bricks full (pos 10) (pos 20))
hit_bricks-Hits_example = hit_bricks-Hits full (pos 10) (pos 20)

-- The ball at the lower edge of a brick takes it away.
ten_points : (hit_bricks full (pos 10) (pos 14)).score ≡ 10
unfolding brick_reset layout rows_for_h serve fill_bricks hit_bricks hit_bricks_from break_brick
    bounce_brick brick_count overlap brick_x brick_y q8_px px_q8 wrap_ℤ mod_ℤ ◌+ℤ◌ ◌-ℤ◌ ◌*ℤ◌ div_ℤ
    neg_ℤ
ten_points = refl

-- A ball that has become fast passes the paddle that is under it, and a life is lost.
abbrev fast : Game
fast = record full { ball_x = px_q8 (pos 230); ball_y = px_q8 (pos 217); ball_vy = px_q8 (pos 600) }

passes : (brick_tick fast 32).lives ≡ 2
unfolding brick_reset layout rows_for_h serve fill_bricks hit_bricks hit_bricks_from break_brick
    bounce_brick brick_count overlap brick_x brick_y q8_px px_q8 wrap_ℤ mod_ℤ ◌+ℤ◌ ◌-ℤ◌ ◌*ℤ◌ div_ℤ
    neg_ℤ brick_tick move_x move_y after_move hit_paddle miss clampi
passes = refl
