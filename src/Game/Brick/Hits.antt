-- ===== src/Game/Brick/Hits.antt =====
-- What a ball breaks in firmware/src/game/brick.c.
use stm32h745_disco.Base.{
  ℕ, zero, suc, Bool, true, false, List, [], ◌∷◌, ◌++◌, ◌+◌, ◌*◌, ◌-◌, ◌≤◌, ◌<◌, ◌≡◌, ◌⊎◌, inl, inr,
  refl, sym, ap, ◌∙◌, arith, ltb, ◌==◌, if◌then◌else◌, not, ◌&&◌, get_or, set, replicate, u32,
  Bool-cases,
}
use stm32h745_disco.Base.Int.{ℤ, pos}
use stm32h745_disco.Game.{Game}
use stm32h745_disco.Game.Brick.{brick_count, fill_bricks, bounce_brick, brick_x, brick_y}
use stm32h745_disco.Game.Brick.Play.{is_hit, break_brick, hit_bricks_from, hit_bricks}

-- How the search for a brick that the ball at `bx` and `by` hits ends: none of the field is hit, or one is that
-- no earlier one precedes. Then it alone is taken away, for 10 points, and the best score follows; the last one
-- that is taken away fills the field again.
pub data Hits (g : Game) (bx by : ℤ) (g' : Game) : Type 0 where
  missed : ((j : ℕ) → j < g.rows * 8 → is_hit g bx by j ≡ false) → g' ≡ g → Hits g bx by g'
  broke :
      (i : ℕ)
      → i < g.rows * 8
      → is_hit g bx by i ≡ true
      → ((j : ℕ) → j < i → is_hit g bx by j ≡ false)
      → suc (brick_count (set g.bricks i 0)) ≡ brick_count g.bricks
      → g'.score ≡ u32 (g.score + 10)
      → g'.score ≤ g'.high
      → ((g'.bricks ≡ set g.bricks i 0) × (1 ≤ brick_count g'.bricks))
        ⊎ ((brick_count g.bricks ≡ 1) × (brick_count g'.bricks ≡ g.rows * 8))
      → Hits g bx by g'

brick_count-set :
    (bs : List ℕ) (i : ℕ)
    → (get_or bs i 0 == 0) ≡ false
    → suc (brick_count (set bs i 0)) ≡ brick_count bs
unfolding brick_count
brick_count-set [] i h = absurd (ground (arith, h))
brick_count-set (b ∷ bs) zero h = ground (arith, h)
brick_count-set (b ∷ bs) (suc i) h = let k = brick_count-set bs i h in omega (arith, k)

brick_count-append : (as' bs : List ℕ) → brick_count (as' ++ bs) ≡ brick_count as' + brick_count bs
unfolding brick_count
brick_count-append [] bs = omega arith
brick_count-append (a ∷ as') bs = let k = brick_count-append as' bs in omega (arith, k)

brick_count_ones : (n : ℕ) → brick_count (replicate n 1) ≡ n
unfolding brick_count
brick_count_ones zero = refl
brick_count_ones (suc n) = let k = brick_count_ones n in omega (arith, k)

brick_count_zeros : (n : ℕ) → brick_count (replicate n 0) ≡ 0
unfolding brick_count
brick_count_zeros zero = refl
brick_count_zeros (suc n) = let k = brick_count_zeros n in omega (arith, k)

filled : (g : Game) → brick_count (fill_bricks g).bricks ≡ g.rows * 8
unfolding fill_bricks
filled g =
    brick_count-append (replicate (g.rows * 8) 1) (replicate (40 - g.rows * 8) 0)
    ∙ omega (arith, brick_count_ones (g.rows * 8), brick_count_zeros (40 - g.rows * 8))

kept_filled : (g : Game) → ((fill_bricks g).score ≡ g.score) × ((fill_bricks g).high ≡ g.high)
unfolding fill_bricks
kept_filled g = (refl, refl)

-- The parts of a game that a bounce leaves alone.
turned :
    (t : Bool) (g : Game) (vx vy : ℤ)
    → let b = if t then record g { ball_vx = vx } else record g { ball_vy = vy } in
      (b.bricks ≡ g.bricks) × (b.score ≡ g.score) × (b.high ≡ g.high) × (b.rows ≡ g.rows)
turned true g vx vy = (refl, refl, refl, refl)
turned false g vx vy = (refl, refl, refl, refl)

bounced :
    (g : Game) (bx by rx ry rw rh : ℤ)
    → let b = bounce_brick g bx by rx ry rw rh in
      (b.bricks ≡ g.bricks) × (b.score ≡ g.score) × (b.high ≡ g.high) × (b.rows ≡ g.rows)
unfolding bounce_brick
bounced g bx by rx ry rw rh = turned _ g _ _

-- The outcome of breaking brick `i`.
record Broken (g : Game) (i : ℕ) (g' : Game) : Type 0 where
  score : g'.score ≡ u32 (g.score + 10)
  best : g'.score ≤ g'.high
  left :
      ((g'.bricks ≡ set g.bricks i 0) × (1 ≤ brick_count g'.bricks))
      ⊎ ((brick_count (set g.bricks i 0) ≡ 0) × (brick_count g'.bricks ≡ g.rows * 8))

is_zero : (n : ℕ) → (n == 0) ≡ true → n ≡ 0
is_zero n h = ground (arith, h)

some_left : (n : ℕ) → (n == 0) ≡ false → 1 ≤ n
some_left n h = ground (arith, h)

break_brick-Broken : (g : Game) (i : ℕ) (bx by : ℤ) → Broken g i (break_brick g i bx by)
unfolding break_brick
break_brick-Broken g i bx by =
    let score = u32 (g.score + 10) in
    let broken : Game = record g {
      bricks = set g.bricks i 0;
      score = score;
      high = if ltb g.high score then score else g.high;
    } in
    let away =
      bounce_brick broken bx by (brick_x g i) (brick_y g i) (pos g.brick_w) (pos g.brick_h) in
    let (b, s, h, r) =
      bounced broken bx by (brick_x g i) (brick_y g i) (pos g.brick_w) (pos g.brick_h) in
    let best : away.score ≤ away.high = rw (s, h) (ground arith) in
    elim (Bool-cases (brick_count away.bricks == 0)) [
      | inl e ↦ rw e (record {
        score = (kept_filled away).0 ∙ s;
        best = rw ((kept_filled away).0, (kept_filled away).1) best;
        left = inr (
          ap brick_count (sym b) ∙ is_zero (brick_count away.bricks) e,
          filled away ∙ ap (λ n. n * 8) r,
        );
      })
      | inr e ↦
          rw e (record {
            score = s;
            best = best;
            left = inl (b, some_left (brick_count away.bricks) e);
          })
    ]

alive : (b : ℕ) (t : Bool) → (not (b == 0) && t) ≡ true → (b == 0) ≡ false
alive b t h = ground (arith, h)

at_most : (j i : ℕ) → j < i + 1 → (j < i) ⊎ (j ≡ i)
at_most j i h = omega (arith, h)

before_next :
    (g : Game) (bx by : ℤ) (i : ℕ)
    → ((j : ℕ) → j < i → is_hit g bx by j ≡ false)
    → is_hit g bx by i ≡ false
    → (j : ℕ) → j < i + 1
    → is_hit g bx by j ≡ false
before_next g bx by i before here j h = elim (at_most j i h) [
  | inl l ↦ before j l
  | inr e ↦ rw e here
]

ends :
    (g : Game) (i : ℕ) (g' : Game)
    → suc (brick_count (set g.bricks i 0)) ≡ brick_count g.bricks
    → ((g'.bricks ≡ set g.bricks i 0) × (1 ≤ brick_count g'.bricks))
      ⊎ ((brick_count (set g.bricks i 0) ≡ 0) × (brick_count g'.bricks ≡ g.rows * 8))
    → ((g'.bricks ≡ set g.bricks i 0) × (1 ≤ brick_count g'.bricks))
      ⊎ ((brick_count g.bricks ≡ 1) × (brick_count g'.bricks ≡ g.rows * 8))
ends g i g' one (inl p) = inl p
ends g i g' one (inr (none_left, full)) = inr (omega (arith, one, none_left), full)

hit_bricks_from-Hits :
    (k i : ℕ) (g : Game) (bx by : ℤ)
    → i + k ≡ g.rows * 8
    → ((j : ℕ) → j < i → is_hit g bx by j ≡ false)
    → Hits g bx by (hit_bricks_from k i g bx by)
unfolding hit_bricks_from
hit_bricks_from-Hits zero i g bx by e before = missed (λ j h. before j (omega (arith, h, e))) refl
hit_bricks_from-Hits (suc k) i g bx by e before = elim (Bool-cases (is_hit g bx by i)) [
  | inl hit ↦
      let b = break_brick-Broken g i bx by in
      let one = brick_count-set g.bricks i (alive _ _ hit) in
      rw hit (
        broke i (omega (arith, e)) hit before one b.score b.best
          (ends g i (break_brick g i bx by) one b.left))
  | inr miss ↦ rw miss (
      hit_bricks_from-Hits k (i + 1) g bx by (omega (arith, e))
        (λ j h. before_next g bx by i before miss j h))
]

-- `hit_bricks` breaks the first brick of the field that the ball overlaps and no other, for exactly 10 points
-- (modulo 2 ^ 32), and the best score is then no less than the score; taking the last brick away fills the
-- field again. Where the ball overlaps no brick nothing changes.
pub hit_bricks-Hits : (g : Game) (bx by : ℤ) → Hits g bx by (hit_bricks g bx by)
unfolding hit_bricks
hit_bricks-Hits g bx by =
    hit_bricks_from-Hits (g.rows * 8) 0 g bx by (omega arith) (λ j h. absurd (omega (arith, h)))
