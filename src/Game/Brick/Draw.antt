-- ===== src/Game/Brick/Draw.antt =====
-- `brick_draw` of firmware/src/game/brick.c, over the calls of gfx.c.
use stm32h745_disco.Base.{
  ℕ, zero, suc, Option, some, List, [], ◌∷◌, ◌++◌, ◌+◌, ◌*◌, ◌-◌, ◌/◌, ◌≤◌, ◌<◌, ◌≡◌, refl, arith,
  leb, ◌==◌, if◌then◌else◌, get_or, u16, length, bit_and, bit_or,
}
use stm32h745_disco.Base.Access.{◌>>=◌, load, Safe, Safe-some, Safe-bind, Safe-if}
use stm32h745_disco.Base.Int.{pos}
use stm32h745_disco.Game.{Game}
use stm32h745_disco.Game.Gfx.{Gfx, GfxStats, gfx_clear, gfx_fill, gfx_blit}
use stm32h745_disco.Game.Gfx.Inside.{Screen, gfx_clear-Screen, gfx_fill-Screen, gfx_blit-Screen}
use stm32h745_disco.Game.Brick.{ball_s, paddle_h, game_brick_cols, q8_px, brick_x, brick_y}
use stm32h745_disco.Game.Brick.Valid.{IsValid}

-- `rgb565`
unfoldable pub rgb565 : ℕ → ℕ
rgb565 rgb = u16 (
    bit_or (bit_or (bit_and (rgb / 256) 0xF800) (bit_and (rgb / 32) 0x07E0))
      (bit_and (rgb / 8) 0x001F))

abbrev pub k_row : List ℕ
k_row = 0xFBE0 ∷ 0xF99E ∷ 0x07E0 ∷ 0x3C7F ∷ 0xA81F ∷ []

-- The pixels of the ball, that are made once: a disc around the third pixel of the third row.
abbrev pub square_from_2 : ℕ → ℕ
square_from_2 n = (n - 2 + (2 - n)) * (n - 2 + (2 - n))

abbrev pub ball_row : ℕ → ℕ → List ℕ
ball_row zero y = []
ball_row (suc n) y =
    ball_row n y ++ (if leb (square_from_2 n + square_from_2 y) 8 then rgb565 0x1A2030 else 0) ∷ []

abbrev pub ball_rows : ℕ → List ℕ
ball_rows zero = []
ball_rows (suc n) = ball_rows n ++ ball_row ball_s n

unfoldable pub ball_px : List ℕ
ball_px = ball_rows ball_s

-- The loop over the bricks: `k` of them from `i` on.
unfoldable pub draw_bricks : ℕ → ℕ → Game → GfxStats → Gfx → Option (GfxStats × Gfx)
draw_bricks zero i g st fx = some (st, fx)
draw_bricks (suc k) i g st fx = do
  (st1, fx1) ←
      if get_or g.bricks i 0 == 0
      then some (st, fx)
      else load k_row (i / game_brick_cols) >>= λ c.
          gfx_fill st fx (record { x = brick_x g i; y = brick_y g i; w = g.brick_w; h = g.brick_h })
            c
  draw_bricks k (i + 1) g st1 fx1

-- `brick_draw`
unfoldable pub brick_draw : Game → GfxStats → Gfx → Option (GfxStats × Gfx)
brick_draw g st fx = do
  (st1, fx1) ← gfx_clear st fx (rgb565 0xF4F6FA)
  (st2, fx2) ← draw_bricks (g.rows * game_brick_cols) 0 g st1 fx1
  (st3, fx3) ←
      gfx_fill st2 fx2
        (record { x = q8_px g.paddle_x; y = pos g.paddle_y; w = g.paddle_w; h = paddle_h })
        (rgb565 0x3D8BFF)
  gfx_blit st3 fx3 (q8_px g.ball_x) (q8_px g.ball_y)
      (record { pixels = some ball_px; w = ball_s; h = ball_s })

k_row-Safe : (i : ℕ) → i < 5 → Safe (λ c. Unit {0}) (load k_row i)
k_row-Safe zero h = Safe-some tt
k_row-Safe (suc zero) h = Safe-some tt
k_row-Safe (suc (suc zero)) h = Safe-some tt
k_row-Safe (suc (suc (suc zero))) h = Safe-some tt
k_row-Safe (suc (suc (suc (suc zero)))) h = Safe-some tt
k_row-Safe (suc (suc (suc (suc (suc i))))) h = absurd (omega (arith, h))

draw_bricks-Screen :
    (k i : ℕ) (g : Game) (st : GfxStats) {n : ℕ} {fx : Gfx}
    → i + k ≤ 40
    → Screen n fx
    → Safe (λ p. Screen n p.1) (draw_bricks k i g st fx)
unfolding draw_bricks
draw_bricks-Screen zero i g st h v = Safe-some v
draw_bricks-Screen (suc k) i g st h v =
    Safe-bind {P = λ p. Screen _ p.1}
      (Safe-if (get_or g.bricks i 0 == 0) (λ e. Safe-some v)
        (λ e. Safe-bind (k_row-Safe (i / 8) (omega (arith, h))) (λ c u. gfx_fill-Screen st _ c v)))
      (λ p w. draw_bricks-Screen k (i + 1) g p.0 (omega (arith, h)) w)

ball_px-size : length ball_px ≡ 36
unfolding ball_px rgb565
ball_px-size = refl

-- In a game as it should be, `brick_draw` into a picture whose rows are inside its buffer, of whatever size, runs
-- to its end: it accesses nothing outside the buffer, the table of the colours and the pixels of the ball, and
-- leaves a picture of which that is true again.
pub brick_draw-Screen :
    (g : Game) (st : GfxStats) (fx : Gfx) (n : ℕ)
    → IsValid g
    → Screen n fx
    → Safe (λ p. Screen n p.1) (brick_draw g st fx)
unfolding brick_draw
brick_draw-Screen g st fx n valid v = Safe-bind (gfx_clear-Screen st (rgb565 0xF4F6FA) v) (λ p a.
    Safe-bind
      (draw_bricks-Screen (g.rows * 8) 0 g p.0 (omega (arith, valid.moving.sizes.rows_high)) a)
      (λ q b. Safe-bind (gfx_fill-Screen q.0 _ (rgb565 0x3D8BFF) b) (λ r c.
        gfx_blit-Screen r.0 (q8_px g.ball_x) (q8_px g.ball_y) _ ball_px refl
          (omega (arith, ball_px-size)) c)))
