-- ===== src/Game.antt =====
-- The games of firmware/src/game: the record that they share, and the events of a pointer.
pub mod Chip8
pub mod Brick
pub mod Gfx
mod Tests
use stm32h745_disco.Base.{ℕ, List}
use stm32h745_disco.Base.Int.{ℤ}

-- `game_t` of firmware/include/game/game_sim.h; the positions and speeds of the ball and the paddle
-- are in 1/256 pixels.
pub record Game : Type 0 where
  pub w : ℕ
  pub h : ℕ
  pub phase : ℕ
  pub lives : ℕ
  pub rows : ℕ
  pub served : ℕ
  pub bricks : List ℕ
  pub brick_w : ℕ
  pub brick_h : ℕ
  pub paddle_w : ℕ
  pub paddle_y : ℕ
  pub paddle_x : ℤ
  pub ball_x : ℤ
  pub ball_y : ℤ
  pub ball_vx : ℤ
  pub ball_vy : ℤ
  pub score : ℕ
  pub high : ℕ

-- `game_phase_t`
abbrev pub game_phase_play : ℕ
game_phase_play = 0

abbrev pub game_phase_pause : ℕ
game_phase_pause = 1

abbrev pub game_phase_over : ℕ
game_phase_over = 2

-- `input_kind_t` and `input_event_t` of firmware/include/hal/input.h.
pub data InputKind : Type 0 where
  ptr_down ptr_move ptr_up key_event btn_event : InputKind

pub record InputEvent : Type 0 where
  pub kind : InputKind
  pub x : ℤ
  pub y : ℤ
