-- ===== src/Game/Gfx.antt =====
-- Drawing into a buffer of pixels: firmware/src/game/gfx.c. Every access to a buffer goes through Base.Access and is
-- `none` past its end. A buffer that is there is the list of its pixels, row after row.
pub mod Filled
pub mod Drawn
pub mod Inside
mod Tests
use stm32h745_disco.Base.{
  ℕ, zero, suc, Bool, true, false, Option, none, some, List, ◌+◌, ◌*◌, ◌-◌, ltb, leb, ◌==◌,
  if◌then◌else◌, not, ◌||◌, u32, sub32,
}
use stm32h745_disco.Base.Access.{◌>>=◌, load, store}
use stm32h745_disco.Base.Int.{ℤ, pos, negsuc, ◌+ℤ◌, ◌-ℤ◌, ltb_ℤ, neg_ℤ, pos_part}

-- `gfx_rect_t`, `gfx_sprite_t` and `gfx_t`, where the pixels may be absent.
pub record GfxRect : Type 0 where
  pub x : ℤ
  pub y : ℤ
  pub w : ℕ
  pub h : ℕ

pub record Sprite : Type 0 where
  pub pixels : Option (List ℕ)
  pub w : ℕ
  pub h : ℕ

pub record Gfx : Type 0 where
  pub fb : Option (List ℕ)
  pub w : ℕ
  pub h : ℕ
  pub stride : ℕ

-- The clipping of both calls: from `low` on, or 0 where that is negative, and up to `high` or the `size`.
abbrev pub clip_low : ℤ → ℕ
clip_low low = pos_part low

abbrev pub clip_high : ℤ → ℕ → ℤ
clip_high high size = if ltb_ℤ (pos size) high then pos size else high

-- The loop over the columns of a row: `n` pixels from index `at` on.
unfoldable pub fill_cols : ℕ → ℕ → ℕ → List ℕ → Option (List ℕ)
fill_cols zero at rgb565 fb = some fb
fill_cols (suc n) at rgb565 fb = do fb1 ← store fb at rgb565; fill_cols n (at + 1) rgb565 fb1

-- The loop over the rows: `n` of them from row `y` on.
unfoldable pub fill_rows : ℕ → ℕ → ℕ → ℕ → ℕ → ℕ → List ℕ → Option (List ℕ)
fill_rows zero y x0 cols stride rgb565 fb = some fb
fill_rows (suc n) y x0 cols stride rgb565 fb = do
  fb1 ← fill_cols cols (y * stride + x0) rgb565 fb
  fill_rows n (y + 1) x0 cols stride rgb565 fb1

-- `gfx_fill` on a buffer that is there.
unfoldable pub fill : ℕ → ℕ → ℕ → GfxRect → ℕ → List ℕ → Option (List ℕ)
fill w h stride r rgb565 fb =
    let x0 = clip_low r.x in
    let y0 = clip_low r.y in
    let x1 = clip_high (r.x +ℤ pos r.w) w in
    let y1 = clip_high (r.y +ℤ pos r.h) h in
    let drawn = fill_rows (pos_part y1 - y0) y0 x0 (pos_part x1 - x0) stride rgb565 fb in
    if r.w == 0 || r.h == 0
    then some fb
    else if not (ltb_ℤ (pos x0) x1) || not (ltb_ℤ (pos y0) y1)
    then some fb
    else drawn

-- The buffer of a call, where it may be absent.
abbrev pub on_fb : Gfx → (List ℕ → Option (List ℕ)) → Option Gfx
on_fb fx f = elim fx.fb [
  | none ↦ some fx
  | some fb ↦ f fb >>= λ fb1. some (record fx { fb = some fb1 })
]

-- `gfx_stats_t`, kept in `g_stats`.
pub record GfxStats : Type 0 where
  pub clears : ℕ
  pub fills : ℕ
  pub blits : ℕ
  pub last_fill : GfxRect
  pub last_clear : ℕ
  pub last_fill_color : ℕ

-- `gfx_stats_reset`
unfoldable pub gfx_stats_reset : GfxStats
gfx_stats_reset = record {
  clears = 0;
  fills = 0;
  blits = 0;
  last_fill = record { x = pos 0; y = pos 0; w = 0; h = 0 };
  last_clear = 0;
  last_fill_color = 0;
}

-- `gfx_fill`
unfoldable pub gfx_fill : GfxStats → Gfx → GfxRect → ℕ → Option (GfxStats × Gfx)
gfx_fill st fx r rgb565 = do
  fx1 ← on_fb fx (fill fx.w fx.h fx.stride r rgb565)
  some (record st { fills = u32 (st.fills + 1); last_fill = r; last_fill_color = rgb565 }, fx1)

-- `gfx_clear`, which takes back the count of the fill that it is.
unfoldable pub gfx_clear : GfxStats → Gfx → ℕ → Option (GfxStats × Gfx)
gfx_clear st fx rgb565 =
    let st1 = record st { clears = u32 (st.clears + 1); last_clear = rgb565 } in
    elim fx.fb [
      | none ↦ some (st1, fx)
      | some fb ↦
          gfx_fill st1 fx (record { x = pos 0; y = pos 0; w = fx.w; h = fx.h }) rgb565
          >>= λ (st2, fx1). some (record st2 { fills = sub32 st2.fills 1 }, fx1)
    ]

-- The loops of `gfx_blit`: pixels of the sprite from index `src` on go to index `dst` on, but those that are 0.
unfoldable pub blit_cols : ℕ → ℕ → ℕ → List ℕ → List ℕ → Option (List ℕ)
blit_cols zero src dst pixels fb = some fb
blit_cols (suc n) src dst pixels fb = do
  p ← load pixels src
  fb1 ← if not (p == 0) then store fb dst p else some fb
  blit_cols n (src + 1) (dst + 1) pixels fb1

unfoldable pub blit_rows : ℕ → ℕ → ℕ → ℕ → ℕ → ℕ → ℕ → ℕ → List ℕ → List ℕ → Option (List ℕ)
blit_rows zero src_y y src_x x0 cols sw stride pixels fb = some fb
blit_rows (suc n) src_y y src_x x0 cols sw stride pixels fb = do
  fb1 ← blit_cols cols (src_y * sw + src_x) (y * stride + x0) pixels fb
  blit_rows n (src_y + 1) (y + 1) src_x x0 cols sw stride pixels fb1

unfoldable pub blit : ℕ → ℕ → ℕ → ℤ → ℤ → ℕ → ℕ → List ℕ → List ℕ → Option (List ℕ)
blit w h stride x y sw sh pixels fb =
    let x0 = clip_low x in
    let y0 = clip_low y in
    let x1 = clip_high (x +ℤ pos sw) w in
    let y1 = clip_high (y +ℤ pos sh) h in
    let src_x0 = pos_part (neg_ℤ x) in
    let src_y0 = pos_part (neg_ℤ y) in
    let drawn =
      blit_rows (pos_part y1 - y0) src_y0 y0 src_x0 x0 (pos_part x1 - x0) sw stride pixels fb in
    if sw == 0 || sh == 0
    then some fb
    else if not (ltb_ℤ (pos x0) x1) || not (ltb_ℤ (pos y0) y1)
    then some fb
    else drawn

-- `gfx_blit`
unfoldable pub gfx_blit : GfxStats → Gfx → ℤ → ℤ → Sprite → Option (GfxStats × Gfx)
gfx_blit st fx x y s =
    let st1 = record st { blits = u32 (st.blits + 1) } in
    elim s.pixels [
      | none ↦ some (st1, fx)
      | some pixels ↦
          on_fb fx (blit fx.w fx.h fx.stride x y s.w s.h pixels) >>= λ fx1. some (st1, fx1)
    ]
