-- ===== src/Game/Brick.antt =====
-- The brick game of firmware/src/game/brick.c: its numbers, its layout and its bricks. An `int` and an
-- `int32_t` are integers without a bound; the casts to `int16_t` are written out.
pub mod Play
pub mod Valid
pub mod Moves
pub mod Ticks
pub mod Calls
pub mod Places
pub mod Hits
pub mod Draw
mod Tests
use stm32h745_disco.Base.{
  ℕ, zero, suc, Bool, true, false, List, [], ◌∷◌, ◌++◌, ◌+◌, ◌*◌, ◌-◌, ◌/◌, ◌%◌, ltb, leb, ◌==◌,
  if◌then◌else◌, not, ◌&&◌, ◌||◌, get_or, set, replicate, u16, u32,
}
use stm32h745_disco.Base.Int.{ℤ, pos, negsuc, ◌+ℤ◌, ◌-ℤ◌, ◌*ℤ◌, ltb_ℤ, div_ℤ, neg_ℤ, i16}
use stm32h745_disco.Game.{Game}

abbrev pub ball_s : ℕ
ball_s = 6

abbrev pub paddle_h : ℕ
paddle_h = 8

abbrev pub gap : ℕ
gap = 4

abbrev pub game_brick_cols : ℕ
game_brick_cols = 8

abbrev pub game_brick_rows : ℕ
game_brick_rows = 5

abbrev pub game_brick_max : ℕ
game_brick_max = 40

abbrev pub game_field_max_w : ℕ
game_field_max_w = 480

abbrev pub game_field_max_h : ℕ
game_field_max_h = 240

abbrev pub game_lives_max : ℕ
game_lives_max = 3

-- `v >> Q`
abbrev pub shift_q : ℤ → ℤ
shift_q (pos n) = pos (n / 256)
shift_q (negsuc n) = negsuc (n / 256)

-- `q8_px` and `px_q8`
unfoldable pub q8_px : ℤ → ℤ
q8_px v = i16 (shift_q v)

unfoldable pub px_q8 : ℤ → ℤ
px_q8 v = v *ℤ pos 256

-- `clampi`
unfoldable pub clampi : ℤ → ℤ → ℤ → ℤ
clampi v lo hi = if ltb_ℤ v lo then lo else if ltb_ℤ hi v then hi else v

-- `rows_for_h`
unfoldable pub rows_for_h : ℕ → ℕ
rows_for_h h = if leb 180 h then game_brick_rows else if leb 150 h then 4 else 3

-- `layout`: the field is kept between the smallest and the largest, and what is in it is placed.
abbrev pub field_w : ℕ → ℕ
field_w w = if ltb w 160 then 160 else if ltb game_field_max_w w then game_field_max_w else w

abbrev pub field_h : ℕ → ℕ
field_h h = if ltb h 100 then 100 else if ltb game_field_max_h h then game_field_max_h else h

abbrev pub layout_rows : ℕ → ℕ → ℕ
layout_rows rows h = if rows == 0 || ltb game_brick_rows rows then rows_for_h h else rows

abbrev pub layout_brick_h : ℕ → ℕ → ℕ
layout_brick_h rows h = if ltb h (u16 (rows * (12 + gap) + 40)) then 10 else 12

abbrev pub layout_paddle_w : ℕ → ℕ
layout_paddle_w w =
    let pw = if ltb w (64 + 8) then u16 (w / 3) else 64 in if ltb pw 40 then 40 else pw

unfoldable pub layout : Game → Game
layout g =
    let w = field_w g.w in
    let h = field_h g.h in
    let rows = layout_rows g.rows h in
    record g {
      w = w;
      h = h;
      rows = rows;
      brick_w = u16 (w - gap * (game_brick_cols + 1)) / game_brick_cols;
      brick_h = layout_brick_h rows h;
      paddle_w = layout_paddle_w w;
      paddle_y = u16 (h - 8 - paddle_h);
    }

-- The largest place of the paddle.
abbrev pub max_x_of : ℕ → ℕ → ℤ
max_x_of w size = let max_x = pos w -ℤ pos size in if ltb_ℤ max_x (pos 0) then pos 0 else max_x

-- `clamp_paddle`
unfoldable pub clamp_paddle : Game → Game
clamp_paddle g =
    let max_x = max_x_of g.w g.paddle_w in
    let left = if ltb_ℤ (q8_px g.paddle_x) (pos 0) then pos 0 else g.paddle_x in
    record g { paddle_x = if ltb_ℤ max_x (q8_px left) then px_q8 (i16 max_x) else left }

-- `serve`
unfoldable pub serve : Game → Game
serve g =
    let px = q8_px g.paddle_x in
    let by = i16 (pos g.paddle_y -ℤ pos ball_s -ℤ pos 2) in
    record g {
      ball_x = px_q8 (i16 (px +ℤ div_ℤ (pos g.paddle_w -ℤ pos ball_s) 2));
      ball_y = px_q8 (if ltb_ℤ by (pos 8) then pos 8 else by);
      ball_vx = px_q8 (pos 90);
      ball_vy = px_q8 (negsuc 119);
      served = 1;
    }

-- `fill_bricks`
unfoldable pub fill_bricks : Game → Game
fill_bricks g =
    let n = g.rows * game_brick_cols in
    record g { bricks = replicate n 1 ++ replicate (game_brick_max - n) 0 }

-- `brick_count`, of the array.
unfoldable pub brick_count : List ℕ → ℕ
brick_count [] = 0
brick_count (b ∷ bs) = (if not (b == 0) then 1 else 0) + brick_count bs

-- `overlap`
unfoldable pub overlap : ℤ → ℤ → ℤ → ℤ → ℤ → ℤ → ℤ → ℤ → Bool
overlap ax ay aw ah bx by bw bh =
    ltb_ℤ ax (bx +ℤ bw) && ltb_ℤ bx (ax +ℤ aw) && ltb_ℤ ay (by +ℤ bh) && ltb_ℤ by (ay +ℤ ah)

-- `brick_xy`
unfoldable pub brick_x : Game → ℕ → ℤ
brick_x g index = i16 (pos (gap + index % game_brick_cols * (g.brick_w + gap)))

unfoldable pub brick_y : Game → ℕ → ℤ
brick_y g index = i16 (pos (gap + index / game_brick_cols * (g.brick_h + gap)))

-- `bounce_brick`
abbrev pub lesser : ℤ → ℤ → ℤ
lesser a b = if ltb_ℤ a b then a else b

unfoldable pub bounce_brick : Game → ℤ → ℤ → ℤ → ℤ → ℤ → ℤ → Game
bounce_brick g bx by brx bry brw brh =
    let px = lesser (bx +ℤ pos ball_s -ℤ brx) (brx +ℤ brw -ℤ bx) in
    let py = lesser (by +ℤ pos ball_s -ℤ bry) (bry +ℤ brh -ℤ by) in
    if ltb_ℤ px py
    then record g { ball_vx = neg_ℤ g.ball_vx }
    else record g { ball_vy = neg_ℤ g.ball_vy }
