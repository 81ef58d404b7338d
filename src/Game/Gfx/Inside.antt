-- ===== src/Game/Gfx/Inside.antt =====
-- The calls of firmware/src/game/gfx.c stay inside the buffers of the picture and of the sprite.
use stm32h745_disco.Base.{
  ℕ, zero, suc, true, Option, some, List, [], ◌∷◌, ◌+◌, ◌*◌, ◌-◌, ◌≤◌, ◌<◌, ◌≡◌, refl, ◌∙◌, arith,
  ◌==◌, not, ◌||◌, length, get_or,
}
use stm32h745_disco.Base.Access.{load, store, Safe, Safe-some, Safe-bind, Safe-if}
use stm32h745_disco.Base.Rem.{times_≤}
use stm32h745_disco.Base.Int.{ℤ, pos, ◌+ℤ◌, ltb_ℤ, pos_part, neg_ℤ, +ℤ_parts}
use stm32h745_disco.Game.Gfx.{
  Gfx, GfxStats, Sprite, GfxRect, gfx_blit, gfx_fill, gfx_clear, fill, on_fb, clip_low, clip_high,
  blit_cols, blit_rows, blit,
}
use stm32h745_disco.Game.Gfx.Filled.{row_fits, store-Painted}
use stm32h745_disco.Game.Gfx.Drawn.{span_fits, neither, fill-Drawn}

-- As many entries as before.
abbrev pub AsLong : List ℕ → List ℕ → Type 0
AsLong fb fb1 = length fb1 ≡ length fb

load-Safe : (xs : List ℕ) (i : ℕ) → i < length xs → Safe (λ v. v ≡ get_or xs i 0) (load xs i)
load-Safe [] i h = absurd (omega arith)
load-Safe (x ∷ xs) zero h = Safe-some refl
load-Safe (x ∷ xs) (suc i) h = load-Safe xs i (omega arith)

store-AsLong : (fb : List ℕ) (i v : ℕ) → i < length fb → Safe (AsLong fb) (store fb i v)
store-AsLong fb i v h =
    let s = store-Painted fb i v h in
    record { result = s.result; reached = s.reached; holds = s.holds.size }

AsLong-then :
    (fb fb1 : List ℕ) {o : Option (List ℕ)}
    → AsLong fb fb1
    → Safe (AsLong fb1) o
    → Safe (AsLong fb) o
AsLong-then fb fb1 e s = record { result = s.result; reached = s.reached; holds = s.holds ∙ e }

blit_cols-AsLong :
    (n src dst : ℕ) (pixels fb : List ℕ)
    → src + n ≤ length pixels
    → dst + n ≤ length fb
    → Safe (AsLong fb) (blit_cols n src dst pixels fb)
unfolding blit_cols
blit_cols-AsLong zero src dst pixels fb h k = Safe-some refl
blit_cols-AsLong (suc n) src dst pixels fb h k =
    Safe-bind (load-Safe pixels src (omega (arith, h))) (λ p e.
      Safe-bind
        (Safe-if (not (p == 0)) (λ f. store-AsLong fb dst p (omega (arith, k)))
          (λ f. Safe-some refl))
        (λ fb1 a. AsLong-then fb fb1 a (
          blit_cols-AsLong n (src + 1) (dst + 1) pixels fb1 (omega (arith, h))
            (omega (arith, k, a)))))

blit_rows-AsLong :
    (n src_y y src_x x0 cols sw stride : ℕ) (pixels fb : List ℕ)
    → x0 + cols ≤ stride
    → src_x + cols ≤ sw
    → (y + n) * stride ≤ length fb
    → (src_y + n) * sw ≤ length pixels
    → Safe (AsLong fb) (blit_rows n src_y y src_x x0 cols sw stride pixels fb)
unfolding blit_rows
blit_rows-AsLong zero src_y y src_x x0 cols sw stride pixels fb c d h k = Safe-some refl
blit_rows-AsLong (suc n) src_y y src_x x0 cols sw stride pixels fb c d h k =
    let (here, next) = row_fits n y x0 cols stride (length fb) c h in
    let (src_here, src_next) = row_fits n src_y src_x cols sw (length pixels) d k in
    Safe-bind (blit_cols-AsLong cols (src_y * sw + src_x) (y * stride + x0) pixels fb src_here here)
      (λ fb1 a. AsLong-then fb fb1 a (
        blit_rows-AsLong n (src_y + 1) (y + 1) src_x x0 cols sw stride pixels fb1 c d (rw a next)
          src_next))

-- What is left of the sprite by the clipping.
source_fits :
    (x : ℤ) (size limit : ℕ)
    → ltb_ℤ (pos (clip_low x)) (clip_high (x +ℤ pos size) limit) ≡ true
    → pos_part (neg_ℤ x) + (pos_part (clip_high (x +ℤ pos size) limit) - clip_low x) ≤ size
unfolding neg_ℤ
source_fits x size limit h = let p = +ℤ_parts x (pos size) in ground (arith, h, p)

blit-AsLong :
    (w h stride : ℕ) (x y : ℤ) (sw sh : ℕ) (pixels fb : List ℕ)
    → w ≤ stride
    → h * stride ≤ length fb
    → sh * sw ≤ length pixels
    → Safe (AsLong fb) (blit w h stride x y sw sh pixels fb)
unfolding blit
blit-AsLong w h stride x y sw sh pixels fb a b c =
    Safe-if (sw == 0 || sh == 0) (λ e. Safe-some refl)
      (λ e.
        Safe-if _ (λ f. Safe-some refl)
          (λ f.
            let (p, q) = neither f in
            let across = span_fits x sw w p in
            let y0 = clip_low y in
            let n = pos_part (clip_high (y +ℤ pos sh) h) - y0 in
            let rows = times_≤ (y0 + n) h stride (span_fits y sh h q) in
            let src_rows = times_≤ (pos_part (neg_ℤ y) + n) sh sw (source_fits y sh h q) in
            blit_rows-AsLong n (pos_part (neg_ℤ y)) y0 (pos_part (neg_ℤ x)) (clip_low x)
              (pos_part (clip_high (x +ℤ pos sw) w) - clip_low x) sw stride pixels fb
              (omega (arith, across, a)) (source_fits x sw w p) (omega (arith, rows, b))
              (omega (arith, src_rows, c))))

-- A picture whose rows are inside its buffer of `n` entries.
pub record Screen (n : ℕ) (fx : Gfx) : Type 0 where
  pub fb : List ℕ
  pub there : fx.fb ≡ some fb
  pub size : length fb ≡ n
  pub wide : fx.w ≤ fx.stride
  pub high : fx.h * fx.stride ≤ n

on_fb-Screen :
    {n : ℕ} {fx : Gfx} (f : List ℕ → Option (List ℕ)) (v : Screen n fx)
    → Safe (AsLong v.fb) (f v.fb)
    → Safe (Screen n) (on_fb fx f)
on_fb-Screen {n} {fx} f v s = rw v.there (
    Safe-bind s (λ fb1 a.
      Safe-some
        (record { fb = fb1; there = refl; size = a ∙ v.size; wide = v.wide; high = v.high })))

pub gfx_fill-Screen :
    {n : ℕ} {fx : Gfx} (st : GfxStats) (r : GfxRect) (rgb565 : ℕ)
    → Screen n fx
    → Safe (λ p. Screen n p.1) (gfx_fill st fx r rgb565)
unfolding gfx_fill
gfx_fill-Screen {n} {fx} st r rgb565 v =
    let d = fill-Drawn fx.w fx.h fx.stride r rgb565 v.fb v.wide (rw v.size v.high) in
    Safe-bind
      (on_fb-Screen (fill fx.w fx.h fx.stride r rgb565) v
        (record { result = d.result; reached = d.reached; holds = d.holds.size }))
      (λ fx1 k. Safe-some k)

pub gfx_clear-Screen :
    {n : ℕ} {fx : Gfx} (st : GfxStats) (rgb565 : ℕ)
    → Screen n fx
    → Safe (λ p. Screen n p.1) (gfx_clear st fx rgb565)
unfolding gfx_clear
gfx_clear-Screen {n} {fx} st rgb565 v =
    rw (gfx_clear, v.there) (Safe-bind (gfx_fill-Screen _ _ rgb565 v) (λ p k. Safe-some k))

pub gfx_blit-Screen :
    {n : ℕ} {fx : Gfx} (st : GfxStats) (x y : ℤ) (s : Sprite) (pixels : List ℕ)
    → s.pixels ≡ some pixels
    → s.h * s.w ≤ length pixels
    → Screen n fx
    → Safe (λ p. Screen n p.1) (gfx_blit st fx x y s)
unfolding gfx_blit
gfx_blit-Screen {n} {fx} st x y s pixels e c v =
    let t = blit-AsLong fx.w fx.h fx.stride x y s.w s.h pixels v.fb v.wide (rw v.size v.high) c in
    rw (gfx_blit, e)
      (Safe-bind (on_fb-Screen (blit fx.w fx.h fx.stride x y s.w s.h pixels) v t)
        (λ fx1 k. Safe-some k))
