-- ===== src/Display.antt =====
-- Rectangles of the display: firmware/src/bsp/disp_geom.c.
pub mod Clip
mod Tests
use stm32h745_disco.Base.{
  ℕ, Bool, true, false, ◌+◌, ◌-◌, ltb, leb, ◌==◌, if◌then◌else◌, ◌&&◌, ◌||◌, u16, u32,
}

-- `disp_rect_t`
pub record DispRect : Type 0 where
  pub x : ℕ
  pub y : ℕ
  pub w : ℕ
  pub h : ℕ

-- `disp_clip_rect`: whether anything is left, and the rectangle.
unfoldable pub clip_rect : DispRect → ℕ → ℕ → Bool × DispRect
clip_rect r max_w max_h =
    let w = if ltb max_w (u32 (r.x + r.w)) then u16 (max_w - r.x) else r.w in
    let h = if ltb max_h (u32 (r.y + r.h)) then u16 (max_h - r.y) else r.h in
    if r.w == 0 || r.h == 0
    then (false, r)
    else if leb max_w r.x || leb max_h r.y
    then (false, record r { w = 0; h = 0 })
    else (ltb 0 w && ltb 0 h, record r { w = w; h = h })
