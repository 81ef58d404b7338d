-- ===== src/Game/Brick/Places.antt =====
-- Where the bricks of firmware/src/game/brick.c lie.
use stm32h745_disco.Base.{ℕ, false, ◌+◌, ◌*◌, ◌/◌, ◌%◌, ◌≤◌, ◌<◌, ◌≡◌, ◌≢◌, ◌⊎◌, inl, inr, arith}
use stm32h745_disco.Base.Rem.{times_≤, times_step}
use stm32h745_disco.Base.Int.{pos, ◌+ℤ◌}
use stm32h745_disco.Game.{Game}
use stm32h745_disco.Game.Brick.{brick_x, brick_y, overlap}
use stm32h745_disco.Game.Brick.Valid.{IsValid, i16-pos}

apart :
    (ax ay bx by w h : ℕ)
    → (ax + w ≤ bx) ⊎ (bx + w ≤ ax) ⊎ (ay + h ≤ by) ⊎ (by + h ≤ ay)
    → overlap (pos ax) (pos ay) (pos w) (pos h) (pos bx) (pos by) (pos w) (pos h) ≡ false
unfolding overlap ◌+ℤ◌
apart ax ay bx by w h s = ground (arith, s)

-- Two bricks are in different columns or in different rows.
columns_or_rows :
    (i j : ℕ) → i ≢ j → (i % 8 < j % 8) ⊎ (j % 8 < i % 8) ⊎ (i / 8 < j / 8) ⊎ (j / 8 < i / 8)
columns_or_rows i j ne = ground (arith, ne)

module _ (g : Game) (v : IsValid g) where
  -- The place of a brick, as numbers.
  column :
      (i : ℕ)
      → i < g.rows * 8
      → (brick_x g i ≡ pos (4 + i % 8 * (g.brick_w + 4)))
        × (4 + i % 8 * (g.brick_w + 4) + g.brick_w + 4 ≤ g.w)
  unfolding brick_x
  column i h =
      let s = v.moving.sizes in
      let k = times_≤ (i % 8) 7 (g.brick_w + 4) (omega arith) in
      let fits : 4 + i % 8 * (g.brick_w + 4) + g.brick_w + 4 ≤ g.w = omega (arith, k, s.across) in
      (i16-pos (4 + i % 8 * (g.brick_w + 4)) (omega (arith, fits, s.w_high)), fits)

  row :
      (i : ℕ)
      → i < g.rows * 8
      → (brick_y g i ≡ pos (4 + i / 8 * (g.brick_h + 4)))
        × (4 + i / 8 * (g.brick_h + 4) + g.brick_h + 14 ≤ g.paddle_y)
  unfolding brick_y
  row i h =
      let s = v.moving.sizes in
      let k = times_step (i / 8) g.rows (g.brick_h + 4) (omega (arith, h)) in
      let fits : 4 + i / 8 * (g.brick_h + 4) + g.brick_h + 14 ≤ g.paddle_y =
        omega (arith, k, s.above) in
      (i16-pos (4 + i / 8 * (g.brick_h + 4)) (omega (arith, fits, s.paddle_place, s.h_high)), fits)

  sides :
      (i j : ℕ)
      → i ≢ j
      → let x : ℕ → ℕ = λ i. 4 + i % 8 * (g.brick_w + 4) in
        let y : ℕ → ℕ = λ i. 4 + i / 8 * (g.brick_h + 4) in
        (x i + g.brick_w ≤ x j)
        ⊎ (x j + g.brick_w ≤ x i)
        ⊎ (y i + g.brick_h ≤ y j)
        ⊎ (y j + g.brick_h ≤ y i)
  sides i j ne = elim (columns_or_rows i j ne) [
    | inl l ↦ let k = times_step (i % 8) (j % 8) (g.brick_w + 4) l in inl (omega (arith, k))
    | inr (inl l) ↦
        let k = times_step (j % 8) (i % 8) (g.brick_w + 4) l in inr (inl (omega (arith, k)))
    | inr (inr (inl l)) ↦
        let k = times_step (i / 8) (j / 8) (g.brick_h + 4) l in inr (inr (inl (omega (arith, k))))
    | inr (inr (inr l)) ↦
        let k = times_step (j / 8) (i / 8) (g.brick_h + 4) l in inr (inr (inr (omega (arith, k))))
  ]

  -- In a game as it should be, every brick lies inside the field, with 4 pixels to the left, the right and
  -- the top and 14 above the paddle, and two different bricks do not overlap.
  pub bricks_apart :
      (i j : ℕ)
      → i < g.rows * 8
      → j < g.rows * 8
      → ((x : ℕ) × (y : ℕ) × (brick_x g i ≡ pos x)
          × (brick_y g i ≡ pos y)
          × (4 ≤ x)
          × (x + g.brick_w + 4 ≤ g.w)
          × (4 ≤ y)
          × (y + g.brick_h + 14 ≤ g.paddle_y))
        × (i ≢ j
            → overlap
                (brick_x g i)
                (brick_y g i)
                (pos g.brick_w)
                (pos g.brick_h)
                (brick_x g j)
                (brick_y g j)
                (pos g.brick_w)
                (pos g.brick_h)
              ≡ false)
  bricks_apart i j h k =
      let (ex, fx) = column i h in
      let (ey, fy) = row i h in
      let (jx, gx) = column j k in
      let (jy, gy) = row j k in
      (
        (_, _, ex, ey, omega arith, omega (arith, fx), omega arith, omega (arith, fy)),
        λ ne. rw (ex, ey, jx, jy) (apart _ _ _ _ g.brick_w g.brick_h (sides i j ne)),
      )
