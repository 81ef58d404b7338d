-- ===== src/Game/Brick/Play.antt =====
-- What happens in firmware/src/game/brick.c: collisions, time, the pointer, and a change of the size.
use stm32h745_disco.Base.{
  ℕ, zero, suc, Bool, true, false, ◌+◌, ◌*◌, ◌-◌, ◌/◌, ltb, leb, ◌==◌, if◌then◌else◌, not, ◌&&◌,
  get_or, set, replicate, u32, min,
}
use stm32h745_disco.Base.Int.{ℤ, pos, negsuc, ◌+ℤ◌, ◌-ℤ◌, ◌*ℤ◌, ltb_ℤ, div_ℤ, neg_ℤ, i16}
use stm32h745_disco.Game.{
  Game, InputKind, InputEvent, game_phase_play, game_phase_pause, game_phase_over,
}
use stm32h745_disco.Game.Brick.{
  ball_s, paddle_h, game_brick_cols, game_brick_max, game_lives_max, q8_px, px_q8, clampi,
  rows_for_h, layout, max_x_of, clamp_paddle, serve, fill_bricks, brick_count, overlap, brick_x,
  brick_y, bounce_brick,
}

-- A speed that grows by an eighth.
abbrev pub faster : ℤ → ℤ
faster v = if ltb_ℤ (pos 0) v then v +ℤ div_ℤ v 8 else v -ℤ div_ℤ (neg_ℤ v) 8

-- What `hit_bricks` does with the brick that the ball hits.
unfoldable pub break_brick : Game → ℕ → ℤ → ℤ → Game
break_brick g i bx by =
    let score = u32 (g.score + 10) in
    let broken = record g {
      bricks = set g.bricks i 0;
      score = score;
      high = if ltb g.high score then score else g.high;
    } in
    let away =
      bounce_brick broken bx by (brick_x g i) (brick_y g i) (pos g.brick_w) (pos g.brick_h) in
    let again = fill_bricks away in
    if brick_count away.bricks == 0
    then record again { ball_vx = faster again.ball_vx; ball_vy = faster again.ball_vy }
    else away

-- The tests of the loop of `hit_bricks` on brick `i`.
abbrev pub is_hit : Game → ℤ → ℤ → ℕ → Bool
is_hit g bx by i =
    not (get_or g.bricks i 0 == 0)
    && overlap bx by (pos ball_s) (pos ball_s) (brick_x g i) (brick_y g i) (pos g.brick_w)
        (pos g.brick_h)

-- That loop, on the `k` bricks from `i` on.
unfoldable pub hit_bricks_from : ℕ → ℕ → Game → ℤ → ℤ → Game
hit_bricks_from zero i g bx by = g
hit_bricks_from (suc k) i g bx by =
    let rest = hit_bricks_from k (i + 1) g bx by in
    if is_hit g bx by i then break_brick g i bx by else rest

-- `hit_bricks`
unfoldable pub hit_bricks : Game → ℤ → ℤ → Game
hit_bricks g bx by = hit_bricks_from (g.rows * game_brick_cols) 0 g bx by

-- `hit_paddle`
unfoldable pub hit_paddle : Game → ℤ → ℤ → Game
hit_paddle g bx by =
    let px = q8_px g.paddle_x in
    let py = pos g.paddle_y in
    let mid = px +ℤ pos (g.paddle_w / 2) in
    let hit = bx +ℤ pos 3 -ℤ mid in
    let vx = g.ball_vx +ℤ px_q8 (i16 (clampi (div_ℤ hit 2) (negsuc 39) (pos 40))) in
    let right = if ltb_ℤ (px_q8 (pos 220)) vx then px_q8 (pos 220) else vx in
    if not (ltb_ℤ (pos 0) g.ball_vy)
    then g
    else if not (overlap bx by (pos ball_s) (pos ball_s) px py (pos g.paddle_w) (pos paddle_h))
    then g
    else record g {
      ball_y = px_q8 (i16 (py -ℤ pos ball_s -ℤ pos 1));
      ball_vy = neg_ℤ (if ltb_ℤ g.ball_vy (pos 0) then neg_ℤ g.ball_vy else g.ball_vy);
      ball_vx = if ltb_ℤ right (px_q8 (negsuc 219)) then px_q8 (negsuc 219) else right;
    }

-- `miss`
unfoldable pub miss : Game → Game
miss g =
    let lives = if ltb 0 g.lives then g.lives - 1 else g.lives in
    let less = record g { lives = lives } in
    if lives == 0
    then record less {
      phase = game_phase_over;
      high = if ltb g.high g.score then g.score else g.high;
    }
    else serve less

-- The fields that `brick_reset` sets after its `memset`.
abbrev pub zeroed : Game → ℕ → ℕ → Game
zeroed g w h = record {
  w = w;
  h = h;
  phase = game_phase_play;
  lives = game_lives_max;
  rows = rows_for_h h;
  served = 0;
  bricks = replicate game_brick_max 0;
  brick_w = 0;
  brick_h = 0;
  paddle_w = 0;
  paddle_y = 0;
  paddle_x = pos 0;
  ball_x = pos 0;
  ball_y = pos 0;
  ball_vx = pos 0;
  ball_vy = pos 0;
  score = 0;
  high = g.high;
}

-- `brick_reset`
unfoldable pub brick_reset : Game → ℕ → ℕ → Game
brick_reset g w h =
    let placed = layout (zeroed g w h) in
    let middle = record placed {
      paddle_x = px_q8 (i16 (div_ℤ (pos placed.w -ℤ pos placed.paddle_w) 2));
    } in
    serve (fill_bricks middle)

abbrev pub is_drag : InputKind → Bool
is_drag InputKind.ptr_down = true
is_drag InputKind.ptr_move = true
is_drag kind = false

-- `brick_input`
unfoldable pub brick_input : Game → InputEvent → Game
brick_input g e =
    let drag = if leb 120 g.h then 56 else 40 in
    let x = clampi (e.x -ℤ pos (g.paddle_w / 2)) (pos 0) (max_x_of g.w g.paddle_w) in
    if not (g.phase == game_phase_play)
    then g
    else if not (is_drag e.kind)
    then g
    else if ltb_ℤ e.y (pos g.h -ℤ pos drag)
    then g
    else record g { paddle_x = px_q8 (i16 x) }

-- The part of `brick_tick` that moves the ball and turns it round at the left, the right and the top.
abbrev pub abs_ℤ : ℤ → ℤ
abs_ℤ v = if ltb_ℤ v (pos 0) then neg_ℤ v else v

unfoldable pub move_x : Game → ℕ → ℤ × Game
move_x g dt =
    let nx = g.ball_x +ℤ div_ℤ (g.ball_vx *ℤ pos dt) 1000 in
    let max_x = max_x_of g.w ball_s in
    let bx = q8_px nx in
    if ltb_ℤ bx (pos 0)
    then (pos 0, record g { ball_vx = abs_ℤ g.ball_vx; ball_x = px_q8 (pos 0) })
    else if ltb_ℤ max_x bx
    then (
      max_x,
      record g {
        ball_vx = if ltb_ℤ (pos 0) g.ball_vx then neg_ℤ g.ball_vx else g.ball_vx;
        ball_x = px_q8 (i16 max_x);
      },
    )
    else (bx, record g { ball_x = nx })

unfoldable pub move_y : Game → ℕ → ℤ × Game
move_y g dt =
    let ny = g.ball_y +ℤ div_ℤ (g.ball_vy *ℤ pos dt) 1000 in
    let by = q8_px ny in
    if ltb_ℤ by (pos 0)
    then (pos 0, record g { ball_vy = abs_ℤ g.ball_vy; ball_y = px_q8 (pos 0) })
    else (by, record g { ball_y = ny })

-- The rest of it, from the pixels of the ball on.
unfoldable pub after_move : Game → ℤ → ℤ → Game
after_move g bx by =
    let g1 = hit_bricks g bx by in
    let g2 = hit_paddle g1 (q8_px g1.ball_x) (q8_px g1.ball_y) in
    if ltb_ℤ (pos g2.h) (q8_px g2.ball_y +ℤ pos ball_s) then miss g2 else g2

-- `brick_tick`
unfoldable pub brick_tick : Game → ℕ → Game
brick_tick g dt_ms =
    let dt = min dt_ms 32 in
    let (bx, g1) = move_x g dt in
    let (by, g2) = move_y g1 dt in
    if not (g.phase == game_phase_play) then g else if dt_ms == 0 then g else after_move g2 bx by

-- `game_set_high`, `game_pause_sim` and `game_resume_sim`
unfoldable pub game_set_high : Game → ℕ → Game
game_set_high g high = record g { high = high }

unfoldable pub game_pause_sim : Game → Game
game_pause_sim g = if g.phase == game_phase_play then record g { phase = game_phase_pause } else g

unfoldable pub game_resume_sim : Game → Game
game_resume_sim g = if g.phase == game_phase_pause then record g { phase = game_phase_play } else g

-- `game_resize_layout`
unfoldable pub game_resize_layout : Game → ℕ → ℕ → Game
game_resize_layout g w h =
    let placed = layout (record g { w = w; h = h }) in
    let clamped = clamp_paddle (record placed { paddle_x = px_q8 (q8_px g.paddle_x) }) in
    let bx = if ltb_ℤ (q8_px g.ball_x) (pos 0) then pos 0 else q8_px g.ball_x in
    let by = if ltb_ℤ (q8_px g.ball_y) (pos 0) then pos 0 else q8_px g.ball_y in
    record clamped {
      ball_x = px_q8 (
          if ltb_ℤ (pos clamped.w) (bx +ℤ pos ball_s)
          then i16 (pos clamped.w -ℤ pos ball_s)
          else bx);
      ball_y = px_q8 (
          if ltb_ℤ (pos clamped.h) (by +ℤ pos ball_s)
          then i16 (pos clamped.h -ℤ pos ball_s -ℤ pos 2)
          else by);
    }

-- `game_brick_alive`, and the calls by which the tests set up a game: `game_test_set_ball`, `game_test_set_brick`
-- and `game_test_clear_bricks`.
unfoldable pub game_brick_alive : Game → ℕ → ℕ
game_brick_alive g index = if leb game_brick_max index then 0 else get_or g.bricks index 0

unfoldable pub game_test_set_ball : Game → ℤ → ℤ → ℤ → ℤ → Game
game_test_set_ball g x y vx_px_s vy_px_s = record g {
  ball_x = px_q8 x;
  ball_y = px_q8 y;
  ball_vx = px_q8 vx_px_s;
  ball_vy = px_q8 vy_px_s;
  served = 1;
}

unfoldable pub game_test_set_brick : Game → ℕ → ℕ → Game
game_test_set_brick g index alive =
    if leb game_brick_max index
    then g
    else record g { bricks = set g.bricks index (if not (alive == 0) then 1 else 0) }

unfoldable pub game_test_clear_bricks : Game → Game
game_test_clear_bricks g = record g { bricks = replicate game_brick_max 0 }
