-- ===== src/Display/Tests.antt =====
-- A rectangle over the right edge of the panel.
use stm32h745_disco.Base.{true, ◌<◌, ◌≡◌, ◌↔◌, refl, arith}
use stm32h745_disco.Display.{DispRect, clip_rect}
use stm32h745_disco.Display.Clip.{Covers, clip_rect_iff}

abbrev wide : DispRect
wide = record { x = 400; y = 10; w = 200; h = 20 }

wide_clipped : clip_rect wide 480 272 ≡ (true, record { x = 400; y = 10; w = 80; h = 20 })
unfolding clip_rect
wide_clipped = refl

clip_rect_iff_example :
    let (any, c) = clip_rect wide 480 272 in
    (Covers c 479 29 ↔ (Covers wide 479 29 × (479 < 480) × (29 < 272)))
    × ((any ≡ true) ↔ ((0 < c.w) × (0 < c.h)))
clip_rect_iff_example =
    clip_rect_iff wide 480 272 479 29 (omega arith, omega arith, omega arith, omega arith)
      (omega arith) (omega arith)
