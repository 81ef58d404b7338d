-- ===== src/Game/Brick/Valid.antt =====
-- When a state of firmware/src/game/brick.c is as it should be, and what gives its parts.
use stm32h745_disco.Base.{ℕ, ◌+◌, ◌*◌, ◌-◌, ◌/◌, ◌≤◌, ◌<◌, ◌≡◌, ◌⊎◌, arith, length, u16}
use stm32h745_disco.Base.Int.{ℤ, pos, ◌*ℤ◌, pos_part, i16, wrap_ℤ, mod_ℤ}
use stm32h745_disco.Game.{Game}
use stm32h745_disco.Game.Brick.{
  q8_px, px_q8, rows_for_h, field_h, layout_rows, layout_brick_h, layout,
}

-- The sizes that `layout` gives: the bricks fit side by side, and end above the paddle.
pub record Sizes (w h rows brick_w brick_h paddle_w paddle_y : ℕ) : Type 0 where
  pub w_low : 160 ≤ w
  pub w_high : w ≤ 480
  pub h_low : 100 ≤ h
  pub h_high : h ≤ 240
  pub rows_low : 1 ≤ rows
  pub rows_high : rows ≤ 5
  pub across : brick_w * 8 + 36 ≤ w
  pub wide : 1 ≤ brick_w
  pub high : (brick_h ≡ 10) ⊎ (brick_h ≡ 12)
  pub above : rows * (brick_h + 4) + 14 ≤ paddle_y
  pub paddle_size : paddle_w ≡ 64
  pub paddle_place : paddle_y + 16 ≡ h

-- The paddle is at a whole pixel and inside the field.
abbrev pub PaddleIn : ℕ → ℤ → Type 0
PaddleIn w paddle_x = (p : ℕ) × (paddle_x ≡ pos (p * 256)) × (p + 64 ≤ w)

-- The ball is between the left and the right side.
abbrev pub BallIn : ℕ → ℤ → Type 0
BallIn w ball_x = (x : ℕ) × (q8_px ball_x ≡ pos x) × (x + 6 ≤ w)

-- The ball is below the top.
abbrev pub BallBelow : ℤ → Type 0
BallBelow ball_y = (y : ℕ) × (q8_px ball_y ≡ pos y)

-- The game is over when and only when no life is left.
abbrev pub Life : ℕ → ℕ → Type 0
Life phase lives = ((phase ≡ 2) × (lives ≡ 0)) ⊎ ((phase ≤ 1) × (1 ≤ lives) × (lives ≤ 3))

-- All but that the ball has not left the field at the bottom.
pub record Moving (g : Game) : Type 0 where
  pub sizes : Sizes g.w g.h g.rows g.brick_w g.brick_h g.paddle_w g.paddle_y
  pub bricks : length g.bricks ≡ 40
  pub paddle : PaddleIn g.w g.paddle_x
  pub ball : BallIn g.w g.ball_x
  pub below : BallBelow g.ball_y
  pub life : Life g.phase g.lives

pub record IsValid (g : Game) : Type 0 where
  pub moving : Moving g
  pub floor : g.phase ≤ 1 → pos_part (q8_px g.ball_y) + 6 ≤ g.h

pub i16-pos : (n : ℕ) → n < 32768 → i16 (pos n) ≡ pos n
unfolding wrap_ℤ mod_ℤ
i16-pos n h = ground (arith, h)

pub px_q8-pos : (n : ℕ) → px_q8 (pos n) ≡ pos (n * 256)
unfolding px_q8 ◌*ℤ◌
px_q8-pos n = ground arith

pub q8_px-pos : (n : ℕ) → n < 32768 → q8_px (pos (n * 256)) ≡ pos n
unfolding q8_px
q8_px-pos n h = let e : n * 256 / 256 ≡ n = omega arith in rw e (i16-pos n h)

pub q8_px-px_q8 : (n : ℕ) → n < 32768 → q8_px (px_q8 (pos n)) ≡ pos n
q8_px-px_q8 n h = rw (px_q8-pos n) (q8_px-pos n h)

rows_above :
    (rows h : ℕ)
    → rows ≤ 5
    → 100 ≤ h
    → h ≤ 240
    → rows * (layout_brick_h rows h + 4) + 14 ≤ u16 (h - 8 - 8)
rows_above rows h r l u = ground arith

layout_rows-≤ : (rows h : ℕ) → layout_rows rows h ≤ 5
unfolding rows_for_h
layout_rows-≤ rows h = ground arith

pub layout-Sizes :
    (g : Game) → let l = layout g in Sizes l.w l.h l.rows l.brick_w l.brick_h l.paddle_w l.paddle_y
unfolding layout rows_for_h
layout-Sizes g = record {
  w_low = ground arith;
  w_high = ground arith;
  h_low = ground arith;
  h_high = ground arith;
  rows_low = ground arith;
  rows_high = ground arith;
  across = ground arith;
  wide = ground arith;
  high = ground arith;
  above = rows_above _ _ (layout_rows-≤ g.rows (field_h g.h)) (ground arith) (ground arith);
  paddle_size = ground arith;
  paddle_place = ground arith;
}
