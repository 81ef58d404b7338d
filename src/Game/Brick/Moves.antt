-- ===== src/Game/Brick/Moves.antt =====
-- What firmware/src/game/brick.c does once the ball has moved keeps its states as they should be.
use stm32h745_disco.Base.{
  ℕ, zero, suc, Bool, true, false, ◌++◌, ◌+◌, ◌*◌, ◌-◌, ◌≤◌, ◌≡◌, ◌⊎◌, inl, inr, refl, ◌∙◌, arith,
  ltb, ◌==◌, if◌then◌else◌, length, length-set, length-append, length-replicate, replicate,
  Bool-cases, set,
}
use stm32h745_disco.Base.Int.{ℤ, pos, ◌+ℤ◌, ◌-ℤ◌, ltb_ℤ, div_ℤ, i16, int_laws, +ℤ_parts}
use stm32h745_disco.Game.{Game}
use stm32h745_disco.Game.Brick.{q8_px, px_q8, serve, fill_bricks, bounce_brick, brick_x, brick_y}
use stm32h745_disco.Game.Brick.Play.{
  break_brick, is_hit, hit_bricks_from, hit_bricks, hit_paddle, miss, after_move,
}
use stm32h745_disco.Game.Brick.Valid.{Life, Moving, IsValid, i16-pos, q8_px-pos, q8_px-px_q8}

pub Moving-if : (t : Bool) {x y : Game} → Moving x → Moving y → Moving (if t then x else y)
Moving-if true p q = p
Moving-if false p q = q

pub IsValid-if : (t : Bool) {x y : Game} → IsValid x → IsValid y → IsValid (if t then x else y)
IsValid-if true p q = p
IsValid-if false p q = q

pub fill_bricks-Moving : (g : Game) → Moving g → Moving (fill_bricks g)
unfolding fill_bricks
fill_bricks-Moving g v =
    let n = v.sizes.rows_high in
    let there : length (replicate (g.rows * 8) 1 ++ replicate (40 - g.rows * 8) 0) ≡ 40 =
      length-append {A = ℕ} (replicate (g.rows * 8) 1) (replicate (40 - g.rows * 8) 0)
      ∙ omega (
        arith,
        length-replicate {A = ℕ} (g.rows * 8) 1,
        length-replicate {A = ℕ} (40 - g.rows * 8) 0,
        n,
      ) in
    record {
      sizes = v.sizes;
      bricks = there;
      paddle = v.paddle;
      ball = v.ball;
      below = v.below;
      life = v.life;
    }

bounce_brick-Moving :
    (g : Game) (bx by rx ry rw rh : ℤ) → Moving g → Moving (bounce_brick g bx by rx ry rw rh)
unfolding bounce_brick
bounce_brick-Moving g bx by rx ry rw rh v =
    Moving-if _
      (record {
        sizes = v.sizes;
        bricks = v.bricks;
        paddle = v.paddle;
        ball = v.ball;
        below = v.below;
        life = v.life;
      })
      (record {
        sizes = v.sizes;
        bricks = v.bricks;
        paddle = v.paddle;
        ball = v.ball;
        below = v.below;
        life = v.life;
      })

scored-Moving :
    (g : Game) (i score high : ℕ)
    → Moving g
    → Moving (record g { bricks = set g.bricks i 0; score = score; high = high })
scored-Moving g i score high v = record {
  sizes = v.sizes;
  bricks = length-set g.bricks i 0 ∙ v.bricks;
  paddle = v.paddle;
  ball = v.ball;
  below = v.below;
  life = v.life;
}

break_brick-Moving : (g : Game) (i : ℕ) (bx by : ℤ) → Moving g → Moving (break_brick g i bx by)
unfolding break_brick
break_brick-Moving g i bx by v =
    let away =
      bounce_brick-Moving _ bx by (brick_x g i) (brick_y g i) (pos g.brick_w) (pos g.brick_h)
        (scored-Moving g i _ _ v) in
    let f = fill_bricks-Moving _ away in
    Moving-if _
      (record {
        sizes = f.sizes;
        bricks = f.bricks;
        paddle = f.paddle;
        ball = f.ball;
        below = f.below;
        life = f.life;
      })
      away

hit_bricks_from-Moving :
    (k i : ℕ) (g : Game) (bx by : ℤ) → Moving g → Moving (hit_bricks_from k i g bx by)
unfolding hit_bricks_from
hit_bricks_from-Moving zero i g bx by v = v
hit_bricks_from-Moving (suc k) i g bx by v =
    Moving-if (is_hit g bx by i) (break_brick-Moving g i bx by v)
      (hit_bricks_from-Moving k (i + 1) g bx by v)

pub hit_bricks-Moving : (g : Game) (bx by : ℤ) → Moving g → Moving (hit_bricks g bx by)
unfolding hit_bricks
hit_bricks-Moving g bx by v = hit_bricks_from-Moving (g.rows * 8) 0 g bx by v

-- The place that `hit_paddle` gives to the ball.
lifted :
    (py : ℕ) → 16 ≤ py → py ≤ 240 → q8_px (px_q8 (i16 (pos py -ℤ pos 6 -ℤ pos 1))) ≡ pos (py - 7)
lifted py l u =
    let e : pos py -ℤ pos 6 -ℤ pos 1 ≡ pos (py - 7) = omega int_laws in
    rw (e, i16-pos (py - 7) (omega arith)) (q8_px-px_q8 (py - 7) (omega arith))

pub hit_paddle-Moving : (g : Game) (bx by : ℤ) → Moving g → Moving (hit_paddle g bx by)
unfolding hit_paddle
hit_paddle-Moving g bx by v =
    let s = v.sizes in
    Moving-if _ v (
      Moving-if _ v (record {
        sizes = v.sizes;
        bricks = v.bricks;
        paddle = v.paddle;
        ball = v.ball;
        below = (
          g.paddle_y - 7,
          lifted g.paddle_y (omega (arith, s.paddle_place, s.h_low))
              (omega (arith, s.paddle_place, s.h_high)),
        );
        life = v.life;
      }))

-- The places that `serve` gives to the ball, over the middle of the paddle at `p`.
served_x :
    (p w : ℕ)
    → p + 64 ≤ w
    → w ≤ 480
    → q8_px (px_q8 (i16 (pos p +ℤ div_ℤ (pos 64 -ℤ pos 6) 2))) ≡ pos (p + 29)
unfolding ◌-ℤ◌ div_ℤ
served_x p w h u =
    let e : pos p +ℤ pos 29 ≡ pos (p + 29) = omega int_laws in
    rw (e, i16-pos (p + 29) (omega (arith, h, u))) (q8_px-px_q8 (p + 29) (omega (arith, h, u)))

over_paddle : (py : ℕ) → 16 ≤ py → py ≤ 240 → i16 (pos py -ℤ pos 6 -ℤ pos 2) ≡ pos (py - 8)
over_paddle py l u =
    let e : pos py -ℤ pos 6 -ℤ pos 2 ≡ pos (py - 8) = omega int_laws in
    rw e (i16-pos (py - 8) (omega arith))

pub serve-IsValid : (g : Game) → Moving g → IsValid (serve g)
unfolding serve
serve-IsValid g v =
    let s = v.sizes in
    let (p, at, fits) = v.paddle in
    let px : q8_px g.paddle_x ≡ pos p = rw at (q8_px-pos p (omega (arith, fits, s.w_high))) in
    let by =
      over_paddle g.paddle_y (omega (arith, s.paddle_place, s.h_low))
        (omega (arith, s.paddle_place, s.h_high)) in
    let high : ltb_ℤ (pos (g.paddle_y - 8)) (pos 8) ≡ false =
      ground (arith, s.paddle_place, s.h_low) in
    let there : q8_px (serve g).ball_y ≡ pos (g.paddle_y - 8) =
      rw (by, high) (q8_px-px_q8 (g.paddle_y - 8) (omega (arith, s.paddle_place, s.h_high))) in
    record {
      moving = record {
        sizes = v.sizes;
        bricks = v.bricks;
        paddle = v.paddle;
        ball = (p + 29, rw (px, s.paddle_size) (served_x p g.w fits s.w_high), omega (arith, fits));
        below = (g.paddle_y - 8, there);
        life = v.life;
      };
      floor = λ h. rw there (omega (arith, s.paddle_place, s.h_low));
    }

pub floor_of : (y h : ℕ) → ltb_ℤ (pos h) (pos y +ℤ pos 6) ≡ false → y + 6 ≤ h
floor_of y h e = let p = +ℤ_parts (pos y) (pos 6) in ground (arith, e, p)

-- The lives after a miss.
lives_after :
    (phase lives : ℕ)
    → Life phase lives
    → let less = if ltb 0 lives then lives - 1 else lives in
      (less ≡ 0) ⊎ ((less == 0) ≡ false) × Life phase less
lives_after phase zero l = inl refl
lives_after phase (suc zero) l = inl refl
lives_after phase (suc (suc n)) (inl (over, e)) = absurd (omega (arith, e))
lives_after phase (suc (suc n)) (inr (going, l, u)) =
    inr (ground arith, inr (going, ground arith, ground (arith, u)))

miss-IsValid : (g : Game) → Moving g → IsValid (miss g)
unfolding miss
miss-IsValid g v = elim (lives_after g.phase g.lives v.life) [
  | inl none_left ↦ rw none_left (record {
    moving = record {
      sizes = v.sizes;
      bricks = v.bricks;
      paddle = v.paddle;
      ball = v.ball;
      below = v.below;
      life = inl (refl, refl);
    };
    floor = λ h. absurd (omega (arith, h));
  })
  | inr (some_left, life) ↦ rw some_left (
      serve-IsValid _ (record {
        sizes = v.sizes;
        bricks = v.bricks;
        paddle = v.paddle;
        ball = v.ball;
        below = v.below;
        life = life;
      }))
]

pub after_move-IsValid : (g : Game) (bx by : ℤ) → Moving g → IsValid (after_move g bx by)
unfolding after_move
after_move-IsValid g bx by v =
    let g1 = hit_bricks g bx by in
    let g2 = hit_paddle g1 (q8_px g1.ball_x) (q8_px g1.ball_y) in
    let v2 =
      hit_paddle-Moving g1 (q8_px g1.ball_x) (q8_px g1.ball_y) (hit_bricks-Moving g bx by v) in
    elim (Bool-cases (ltb_ℤ (pos g2.h) (q8_px g2.ball_y +ℤ pos 6))) [
      | inl out ↦ rw out (miss-IsValid g2 v2)
      | inr inside ↦
          let (y, at) = v2.below in
          rw inside (record { moving = v2; floor = λ h. rw at (floor_of y g2.h (rw at at inside)) })
    ]
