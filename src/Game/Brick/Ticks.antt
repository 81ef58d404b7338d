-- ===== src/Game/Brick/Ticks.antt =====
-- Time and the pointer in firmware/src/game/brick.c keep its states as they should be.
use stm32h745_disco.Base.{
  ℕ, false, ◌-◌, ◌/◌, ◌≤◌, ◌≡◌, inl, inr, refl, arith, leb, ◌==◌, if◌then◌else◌, not, Bool-cases,
  min,
}
use stm32h745_disco.Base.Int.{ℤ, pos, negsuc, ◌+ℤ◌, ◌-ℤ◌, ◌*ℤ◌, ltb_ℤ, div_ℤ, i16, int_laws}
use stm32h745_disco.Game.{Game, InputEvent, game_phase_play}
use stm32h745_disco.Game.Brick.{q8_px, px_q8, clampi, max_x_of}
use stm32h745_disco.Game.Brick.Play.{is_drag, brick_input, move_x, move_y, brick_tick}
use stm32h745_disco.Game.Brick.Valid.{PaddleIn, Moving, IsValid, i16-pos, px_q8-pos, q8_px-px_q8}
use stm32h745_disco.Game.Brick.Moves.{IsValid-if, after_move-IsValid}

pub max_x_of-pos : (w size : ℕ) → size ≤ w → max_x_of w size ≡ pos (w - size)
max_x_of-pos w size h =
    let e : pos w -ℤ pos size ≡ pos (w - size) = omega int_laws in rw e (ground arith)

pub not_left : (b : ℤ) → ltb_ℤ b (pos 0) ≡ false → (x : ℕ) × (b ≡ pos x)
not_left (pos x) h = (x, refl)
not_left (negsuc x) h = absurd (ground (arith, h))

not_right : (x m : ℕ) → ltb_ℤ (pos m) (pos x) ≡ false → x ≤ m
not_right x m h = ground (arith, h)

pub move_x-Moving : (g : Game) (dt : ℕ) → Moving g → Moving (move_x g dt).1
unfolding move_x
move_x-Moving g dt v =
    let s = v.sizes in
    let nx = g.ball_x +ℤ div_ℤ (g.ball_vx *ℤ pos dt) 1000 in
    let max_x = max_x_of-pos g.w 6 (omega (arith, s.w_low)) in
    elim (Bool-cases (ltb_ℤ (q8_px nx) (pos 0))) [
      | inl left ↦ rw left (record {
        sizes = v.sizes;
        bricks = v.bricks;
        paddle = v.paddle;
        ball = (0, q8_px-px_q8 0 (omega arith), omega (arith, s.w_low));
        below = v.below;
        life = v.life;
      })
      | inr in_left ↦ elim (Bool-cases (ltb_ℤ (max_x_of g.w 6) (q8_px nx))) [
        | inl right ↦
            rw (in_left, right)
              (record {
                sizes = v.sizes;
                bricks = v.bricks;
                paddle = v.paddle;
                ball = (
                  g.w - 6,
                  rw (max_x, i16-pos (g.w - 6) (omega (arith, s.w_high)))
                      (q8_px-px_q8 (g.w - 6) (omega (arith, s.w_high))),
                  omega (arith, s.w_low),
                );
                below = v.below;
                life = v.life;
              })
        | inr in_right ↦
            let (x, at) = not_left (q8_px nx) in_left in
            rw (in_left, in_right)
              (record {
                sizes = v.sizes;
                bricks = v.bricks;
                paddle = v.paddle;
                ball = (
                  x,
                  at,
                  omega (arith, not_right x (g.w - 6) (rw (at, max_x) at in_right), s.w_low),
                );
                below = v.below;
                life = v.life;
              })
      ]
    ]

pub move_y-Moving : (g : Game) (dt : ℕ) → Moving g → Moving (move_y g dt).1
unfolding move_y
move_y-Moving g dt v =
    let ny = g.ball_y +ℤ div_ℤ (g.ball_vy *ℤ pos dt) 1000 in
    elim (Bool-cases (ltb_ℤ (q8_px ny) (pos 0))) [
      | inl above ↦ rw above (record {
        sizes = v.sizes;
        bricks = v.bricks;
        paddle = v.paddle;
        ball = v.ball;
        below = (0, q8_px-px_q8 0 (omega arith));
        life = v.life;
      })
      | inr below ↦ rw below (record {
        sizes = v.sizes;
        bricks = v.bricks;
        paddle = v.paddle;
        ball = v.ball;
        below = not_left (q8_px ny) below;
        life = v.life;
      })
    ]

pub brick_tick-IsValid : (g : Game) (dt_ms : ℕ) → IsValid g → IsValid (brick_tick g dt_ms)
unfolding brick_tick
brick_tick-IsValid g dt_ms v = IsValid-if _ v (
    IsValid-if _ v (
      after_move-IsValid _ _ _
        (move_y-Moving _ (min dt_ms 32) (move_x-Moving g (min dt_ms 32) v.moving))))

clampi_pos : (v : ℤ) (m : ℕ) → (x : ℕ) × (clampi v (pos 0) (pos m) ≡ pos x) × (x ≤ m)
unfolding clampi
clampi_pos (negsuc n) m = (0, ground arith, omega arith)
clampi_pos (pos n) m = (min n m, ground arith, omega arith)

-- The paddle under a pointer.
dragged :
    (v : ℤ) (w size : ℕ)
    → size ≡ 64
    → 160 ≤ w
    → w ≤ 480
    → PaddleIn w (px_q8 (i16 (clampi v (pos 0) (max_x_of w size))))
dragged v w size e l u =
    let (x, at, fits) = clampi_pos v (w - size) in
    (
      x,
      rw (max_x_of-pos w size (omega (arith, e, l)), at, i16-pos x (omega (arith, fits, u)))
          (px_q8-pos x),
      omega (arith, fits, e, l),
    )

paddle_at-IsValid :
    (g : Game) (at : ℤ) → PaddleIn g.w at → IsValid g → IsValid (record g { paddle_x = at })
paddle_at-IsValid g at inside v =
    let m = v.moving in
    record {
      moving = record {
        sizes = m.sizes;
        bricks = m.bricks;
        paddle = inside;
        ball = m.ball;
        below = m.below;
        life = m.life;
      };
      floor = v.floor;
    }

pub brick_input-IsValid : (g : Game) (e : InputEvent) → IsValid g → IsValid (brick_input g e)
unfolding brick_input
brick_input-IsValid g e v =
    let m = v.moving in
    let s = m.sizes in
    let there =
      dragged (e.x -ℤ pos (g.paddle_w / 2)) g.w g.paddle_w s.paddle_size s.w_low s.w_high in
    IsValid-if (not (g.phase == game_phase_play)) v (
      IsValid-if (not (is_drag e.kind)) v (
        IsValid-if (ltb_ℤ e.y (pos g.h -ℤ pos (if leb 120 g.h then 56 else 40))) v
          (paddle_at-IsValid g _ there v)))
