-- ===== src/Display/Clip.antt =====
-- Clipping is the intersection with the panel.
use stm32h745_disco.Base.{ℕ, true, ◌+◌, ◌≤◌, ◌<◌, ◌≡◌, ◌↔◌, arith}
use stm32h745_disco.Display.{DispRect, clip_rect}

-- The point lies in the rectangle.
abbrev pub Covers : DispRect → ℕ → ℕ → Type 0
Covers r px py = (r.x ≤ px) × (px < r.x + r.w) × (r.y ≤ py) × (py < r.y + r.h)

-- Every field fits its 16 bits.
abbrev pub Is16 : DispRect → Type 0
Is16 r = (r.x < 65536) × (r.y < 65536) × (r.w < 65536) × (r.h < 65536)

-- The clipped rectangle covers exactly the points of the rectangle that lie on the panel, and
-- `disp_clip_rect` answers 1 exactly when it has a width and a height.
pub clip_rect_iff :
    (r : DispRect) (max_w max_h px py : ℕ)
    → Is16 r
    → max_w < 65536
    → max_h < 65536
    → let (any, c) = clip_rect r max_w max_h in
      (Covers c px py ↔ (Covers r px py × (px < max_w) × (py < max_h)))
      × ((any ≡ true) ↔ ((0 < c.w) × (0 < c.h)))
unfolding clip_rect
clip_rect_iff r max_w max_h px py v p q = ground arith
