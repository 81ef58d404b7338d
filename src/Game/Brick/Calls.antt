-- ===== src/Game/Brick/Calls.antt =====
-- Any sequence of calls of firmware/src/game/brick.c leaves a state as it should be.
use stm32h745_disco.Base.{
  ℕ, false, List, [], ◌∷◌, ◌+◌, ◌-◌, ◌/◌, ◌≤◌, ◌<◌, ◌≡◌, inl, inr, refl, ap, arith, ◌==◌,
  if◌then◌else◌, length-replicate, Bool-cases,
}
use stm32h745_disco.Base.Int.{ℤ, pos, ◌+ℤ◌, ◌-ℤ◌, ltb_ℤ, div_ℤ, i16, int_laws}
use stm32h745_disco.Game.{Game, InputEvent, game_phase_play, game_phase_pause}
use stm32h745_disco.Game.Brick.{q8_px, px_q8, max_x_of, layout, clamp_paddle, fill_bricks}
use stm32h745_disco.Game.Brick.Play.{
  zeroed, brick_reset, brick_input, brick_tick, game_pause_sim, game_resume_sim, game_set_high,
  game_resize_layout,
}
use stm32h745_disco.Game.Brick.Valid.{
  PaddleIn, Moving, IsValid, i16-pos, px_q8-pos, q8_px-pos, q8_px-px_q8, layout-Sizes,
}
use stm32h745_disco.Game.Brick.Moves.{fill_bricks-Moving, serve-IsValid, floor_of}
use stm32h745_disco.Game.Brick.Ticks.{max_x_of-pos, brick_tick-IsValid, brick_input-IsValid}

-- What `layout` leaves alone.
layout-kept :
    (g : Game)
    → ((layout g).bricks ≡ g.bricks)
      × ((layout g).phase ≡ g.phase)
      × ((layout g).lives ≡ g.lives)
      × ((layout g).ball_x ≡ g.ball_x)
      × ((layout g).ball_y ≡ g.ball_y)
unfolding layout
layout-kept g = (refl, refl, refl, refl, refl)

-- The middle of the field, where a reset puts the paddle.
in_middle :
    (w size : ℕ)
    → size ≡ 64
    → 160 ≤ w
    → w ≤ 480
    → PaddleIn w (px_q8 (i16 (div_ℤ (pos w -ℤ pos size) 2)))
unfolding div_ℤ
in_middle w size e l u =
    let d : pos w -ℤ pos size ≡ pos (w - 64) = omega (int_laws, e, l) in
    let half : i16 (pos ((w - 64) / 2)) ≡ pos ((w - 64) / 2) =
      i16-pos ((w - 64) / 2) (omega (arith, u)) in
    ((w - 64) / 2, rw (d, half) (px_q8-pos ((w - 64) / 2)), omega (arith, l))

pub brick_reset-IsValid : (g : Game) (w h : ℕ) → IsValid (brick_reset g w h)
unfolding brick_reset
brick_reset-IsValid g w h =
    let s = layout-Sizes (zeroed g w h) in
    let placed = layout (zeroed g w h) in
    let middle : Game = record placed {
      paddle_x = px_q8 (i16 (div_ℤ (pos placed.w -ℤ pos placed.paddle_w) 2));
    } in
    let v : Moving middle = record {
      sizes = s;
      bricks = rw (layout-kept (zeroed g w h)).0 (length-replicate {A = ℕ} 40 0);
      paddle = in_middle placed.w placed.paddle_w s.paddle_size s.w_low s.w_high;
      ball =
          rw (layout-kept (zeroed g w h)).3 (0, q8_px-pos 0 (omega arith), omega (arith, s.w_low));
      below = rw (layout-kept (zeroed g w h)).4 (0, q8_px-pos 0 (omega arith));
      life =
          rw ((layout-kept (zeroed g w h)).1, (layout-kept (zeroed g w h)).2)
            (inr (omega arith, omega arith, omega arith));
    } in
    serve-IsValid (fill_bricks middle) (fill_bricks-Moving middle v)

-- A change of the phase that does not end the game.
phase_set-Moving :
    (g : Game) (phase : ℕ)
    → g.phase ≤ 1
    → phase ≤ 1
    → Moving g
    → Moving (record g { phase = phase })
phase_set-Moving g phase p q m = record {
  sizes = m.sizes;
  bricks = m.bricks;
  paddle = m.paddle;
  ball = m.ball;
  below = m.below;
  life = elim m.life [
    | inl (over, e) ↦ absurd (omega (arith, over, p))
    | inr (going, l, u) ↦ inr (q, l, u)
  ];
}

high_set-IsValid : (g : Game) (high : ℕ) → IsValid g → IsValid (record g { high = high })
high_set-IsValid g high v =
    let m = v.moving in
    record {
      moving = record {
        sizes = m.sizes;
        bricks = m.bricks;
        paddle = m.paddle;
        ball = m.ball;
        below = m.below;
        life = m.life;
      };
      floor = v.floor;
    }

pause-IsValid : (g : Game) → IsValid g → IsValid (game_pause_sim g)
unfolding game_pause_sim
pause-IsValid g v = elim (Bool-cases (g.phase == game_phase_play)) [
  | inl e ↦
      let p : g.phase ≤ 1 = ground (arith, e) in
      rw e
        (record { moving = phase_set-Moving g 1 p (omega arith) v.moving; floor = λ h. v.floor p })
  | inr e ↦ rw e v
]

resume-IsValid : (g : Game) → IsValid g → IsValid (game_resume_sim g)
unfolding game_resume_sim
resume-IsValid g v = elim (Bool-cases (g.phase == game_phase_pause)) [
  | inl e ↦
      let p : g.phase ≤ 1 = ground (arith, e) in
      rw e
        (record { moving = phase_set-Moving g 0 p (omega arith) v.moving; floor = λ h. v.floor p })
  | inr e ↦ rw e v
]

not_negative : (x : ℕ) → ltb_ℤ (pos x) (pos 0) ≡ false
not_negative x = ground arith

-- What `clamp_paddle` makes of a paddle at a whole pixel.
clamp_paddle-in :
    (g : Game) (p : ℕ)
    → g.paddle_x ≡ px_q8 (pos p)
    → p < 32768
    → g.paddle_w ≡ 64
    → 160 ≤ g.w
    → g.w ≤ 480
    → PaddleIn g.w (clamp_paddle g).paddle_x
unfolding clamp_paddle
clamp_paddle-in g p at q e l u =
    let max_x : max_x_of g.w g.paddle_w ≡ pos (g.w - 64) =
      rw e (max_x_of-pos g.w 64 (omega (arith, l))) in
    let px = q8_px-px_q8 p q in
    let left : (if ltb_ℤ (q8_px g.paddle_x) (pos 0) then pos 0 else g.paddle_x) ≡ px_q8 (pos p) =
      rw (at, px, not_negative p) refl in
    elim (Bool-cases (ltb_ℤ (pos (g.w - 64)) (pos p))) [
      | inl out ↦ (
        g.w - 64,
        rw (left, px, max_x, out, i16-pos (g.w - 64) (omega (arith, u))) (px_q8-pos (g.w - 64)),
        omega (arith, l),
      )
      | inr inside ↦ (p, rw (left, px, max_x, inside) (px_q8-pos p), ground (arith, inside, l))
    ]

-- What a coordinate of the ball is after a change of the size.
fitted :
    (z n j : ℕ) (m : ℤ)
    → m ≡ pos j
    → j + 6 ≤ n
    → n ≤ 480
    → (x : ℕ) × (q8_px (px_q8 (if ltb_ℤ (pos n) (pos z +ℤ pos 6) then i16 m else pos z)) ≡ pos x)
      × (x + 6 ≤ n)
fitted z n j m e l u = elim (Bool-cases (ltb_ℤ (pos n) (pos z +ℤ pos 6))) [
  | inl out ↦
      (j, rw (out, e, i16-pos j (omega (arith, l, u))) (q8_px-px_q8 j (omega (arith, l, u))), l)
  | inr inside ↦
      let fits : z + 6 ≤ n = floor_of z n inside in
      (z, rw inside (q8_px-px_q8 z (omega (arith, fits, u))), fits)
]

resize-IsValid : (g : Game) (w h : ℕ) → IsValid g → IsValid (game_resize_layout g w h)
unfolding game_resize_layout clamp_paddle
resize-IsValid g w h v =
    let m = v.moving in
    let s = layout-Sizes (record g { w = w; h = h }) in
    let (p, at, fits) = m.paddle in
    let (x, bx, xfits) = m.ball in
    let (y, by) = m.below in
    let px : q8_px g.paddle_x ≡ pos p = rw at (q8_px-pos p (omega (arith, fits, m.sizes.w_high))) in
    let place = layout (record g { w = w; h = h }) in
    let kept = layout-kept (record g { w = w; h = h }) in
    let (x2, bx2, xfits2) =
      fitted x place.w (place.w - 6) (pos place.w -ℤ pos 6) (omega (int_laws, s.w_low))
        (omega (arith, s.w_low)) s.w_high in
    let (y2, by2, yfits2) =
      fitted y place.h (place.h - 8) (pos place.h -ℤ pos 6 -ℤ pos 2) (omega (int_laws, s.h_low))
        (omega (arith, s.h_low)) (omega (arith, s.h_high)) in
    record {
      moving = record {
        sizes = s;
        bricks = rw kept.0 m.bricks;
        paddle =
            clamp_paddle-in (record place { paddle_x = px_q8 (q8_px g.paddle_x) }) p (ap px_q8 px)
              (omega (arith, fits, m.sizes.w_high)) s.paddle_size s.w_low s.w_high;
        ball = (x2, rw (bx, not_negative x) bx2, xfits2);
        below = (y2, rw (by, not_negative y) by2);
        life = rw (kept.1, kept.2) m.life;
      };
      floor = λ f. rw (by, not_negative y, by2) yfits2;
    }

-- The calls of the game.
pub data Call : Type 0 where
  reset : ℕ → ℕ → Call
  input : InputEvent → Call
  tick : ℕ → Call
  set_high : ℕ → Call
  pause resume : Call
  resize : ℕ → ℕ → Call

unfoldable pub after : Game → Call → Game
after g (reset w h) = brick_reset g w h
after g (input e) = brick_input g e
after g (tick dt_ms) = brick_tick g dt_ms
after g (set_high high) = game_set_high g high
after g pause = game_pause_sim g
after g resume = game_resume_sim g
after g (resize w h) = game_resize_layout g w h

unfoldable pub after_all : Game → List Call → Game
after_all g [] = g
after_all g (c ∷ cs) = after_all (after g c) cs

after-IsValid : (g : Game) (c : Call) → IsValid g → IsValid (after g c)
unfolding after game_set_high
after-IsValid g (reset w h) v = brick_reset-IsValid g w h
after-IsValid g (input e) v = brick_input-IsValid g e v
after-IsValid g (tick dt_ms) v = brick_tick-IsValid g dt_ms v
after-IsValid g (set_high high) v = high_set-IsValid g high v
after-IsValid g pause v = pause-IsValid g v
after-IsValid g resume v = resume-IsValid g v
after-IsValid g (resize w h) v = resize-IsValid g w h v

after_all-IsValid : (g : Game) (cs : List Call) → IsValid g → IsValid (after_all g cs)
unfolding after_all
after_all-IsValid g [] v = v
after_all-IsValid g (c ∷ cs) v = after_all-IsValid (after g c) cs (after-IsValid g c v)

-- From a reset with whatever width and height, any sequence of calls (resets, pointer events, ticks of any
-- length, pauses, resumes, changes of the size and of the best score) leaves a game in which the sizes are
-- those of a field of 160 to 480 by 100 to 240 pixels whose bricks fit side by side and end above the paddle,
-- the paddle is inside the field, the ball is inside it from left to right and from the top down, and at
-- the bottom too while the game is not over, and the game is over just when no life is left.
pub brick_reset-after_all :
    (g : Game) (w h : ℕ) (cs : List Call) → IsValid (after_all (brick_reset g w h) cs)
brick_reset-after_all g w h cs =
    after_all-IsValid (brick_reset g w h) cs (brick_reset-IsValid g w h)
