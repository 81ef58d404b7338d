-- ===== src/Game/Chip8/Drawn.antt =====
-- `chip8_draw` stays inside its arrays and the buffer of the picture.
use stm32h745_disco.Base.{
  ℕ, zero, suc, Option, none, some, ◌+◌, ◌*◌, ◌/◌, ◌%◌, ◌^◌, ◌≤◌, ◌<◌, refl, arith, leb, ◌==◌, not,
  ◌&&◌, ◌||◌, bit_and,
}
use stm32h745_disco.Base.Access.{
  Array, Safe, Safe-some, Safe-bind, Safe-if, Safe-load, all_ltb-AllBelow,
}
use stm32h745_disco.Base.Int.{ℤ, pos}
use native.Mathlib.Nat.{mod-lt}
use stm32h745_disco.Game.{Game}
use stm32h745_disco.Game.Gfx.{Gfx, GfxStats}
use stm32h745_disco.Game.Gfx.Inside.{Screen, gfx_clear-Screen, gfx_fill-Screen}
use stm32h745_disco.Game.Brick.Draw.{rgb565}
use stm32h745_disco.Game.Chip8.{Chip8}
use stm32h745_disco.Game.Chip8.Valid.{IsValid}
use stm32h745_disco.Game.Chip8.Machine.{k_font, k_hex, pad_layout}
use stm32h745_disco.Game.Chip8.Runs.{pad_layout-IsValid}
use stm32h745_disco.Game.Chip8.Draw.{
  Picture, glyph_cols, glyph_rows, draw_glyph, pixel_cols, pixel_rows, pad_cols, pad_rows,
  chip8_draw,
}

-- The calls keep a picture whose rows are inside its buffer.
abbrev Kept : ℕ → Option Picture → Type 0
Kept n o = Safe (λ p. Screen n p.1) o

k_font-Array : Array 80 256 k_font
k_font-Array = record { size = refl; below = all_ltb-AllBelow 256 k_font refl }

k_hex-Array : Array 16 16 k_hex
k_hex-Array = record { size = refl; below = all_ltb-AllBelow 16 k_hex refl }

glyph_cols-Kept :
    (k c row : ℕ) (x y : ℤ) (scale color : ℕ) (p : Picture) {n : ℕ}
    → Screen n p.1
    → Kept n (glyph_cols k c row x y scale color p)
unfolding glyph_cols
glyph_cols-Kept zero c row x y scale color p v = Safe-some v
glyph_cols-Kept (suc k) c row x y scale color p {n} v =
    Safe-bind {P = λ p. Screen n p.1}
      (Safe-if (bit_and row (0x80 / 2 ^ c) == 0) (λ e. Safe-some v)
        (λ e. gfx_fill-Screen p.0 _ color v))
      (λ p1 v1. glyph_cols-Kept k (c + 1) row x y scale color p1 v1)

glyph_rows-Kept :
    (k r hex : ℕ) (x y : ℤ) (scale color : ℕ) (p : Picture) {n : ℕ}
    → r + k ≤ 5
    → Screen n p.1
    → Kept n (glyph_rows k r hex x y scale color p)
unfolding glyph_rows
glyph_rows-Kept zero r hex x y scale color p h v = Safe-some v
glyph_rows-Kept (suc k) r hex x y scale color p h v =
    let digit : hex % 16 < 16 = mod-lt hex (omega arith) in
    Safe-load (hex % 16 * 5 + r) k_font-Array (omega (arith, digit, h)) (λ row e.
      Safe-bind (glyph_cols-Kept 4 0 row x _ scale color p v)
        (λ p1 v1. glyph_rows-Kept k (r + 1) hex x y scale color p1 (omega (arith, h)) v1))

pixel_cols-Kept :
    (k x y : ℕ) (c : Chip8) (ox oy : ℤ) (scale : ℕ) (p : Picture) {n : ℕ}
    → Array 2048 2 c.fb
    → x + k ≤ 64
    → y < 32
    → Screen n p.1
    → Kept n (pixel_cols k x y c ox oy scale p)
unfolding pixel_cols
pixel_cols-Kept zero x y c ox oy scale p a h l v = Safe-some v
pixel_cols-Kept (suc k) x y c ox oy scale p {n} a h l v =
    Safe-load (y * 64 + x) a (omega (arith, h, l)) (λ on e.
      Safe-bind {P = λ p. Screen n p.1}
        (Safe-if (on == 0) (λ e. Safe-some v) (λ e. gfx_fill-Screen p.0 _ (rgb565 0xE8ECF1) v))
        (λ p1 v1. pixel_cols-Kept k (x + 1) y c ox oy scale p1 a (omega (arith, h)) l v1))

pixel_rows-Kept :
    (k y : ℕ) (c : Chip8) (ox oy : ℤ) (scale : ℕ) (p : Picture) {n : ℕ}
    → Array 2048 2 c.fb
    → y + k ≤ 32
    → Screen n p.1
    → Kept n (pixel_rows k y c ox oy scale p)
unfolding pixel_rows
pixel_rows-Kept zero y c ox oy scale p a h v = Safe-some v
pixel_rows-Kept (suc k) y c ox oy scale p a h v =
    Safe-bind (pixel_cols-Kept 64 0 y c ox oy scale p a (omega arith) (omega (arith, h)) v)
      (λ p1 v1. pixel_rows-Kept k (y + 1) c ox oy scale p1 a (omega (arith, h)) v1)

pad_cols-Kept :
    (k x y : ℕ) (c : Chip8) (p : Picture) {n : ℕ}
    → Array 16 2 c.key
    → x + k ≤ 4
    → y < 4
    → Screen n p.1
    → Kept n (pad_cols k x y c p)
unfolding pad_cols draw_glyph
pad_cols-Kept zero x y c p a h l v = Safe-some v
pad_cols-Kept (suc k) x y c p a h l v =
    Safe-load (y * 4 + x) k_hex-Array (omega (arith, h, l)) (λ hex small.
      Safe-load hex a small (λ down e. Safe-bind (gfx_fill-Screen p.0 _ _ v) (λ p1 v1.
        Safe-bind (glyph_rows-Kept 5 0 hex _ _ _ (rgb565 0x1A2030) p1 (omega arith) v1)
          (λ p2 v2. pad_cols-Kept k (x + 1) y c p2 a (omega (arith, h)) l v2))))

pad_rows-Kept :
    (k y : ℕ) (c : Chip8) (p : Picture) {n : ℕ}
    → Array 16 2 c.key
    → y + k ≤ 4
    → Screen n p.1
    → Kept n (pad_rows k y c p)
unfolding pad_rows
pad_rows-Kept zero y c p a h v = Safe-some v
pad_rows-Kept (suc k) y c p a h v =
    Safe-bind (pad_cols-Kept 4 0 y c p a (omega arith) (omega (arith, h)) v)
      (λ p1 v1. pad_rows-Kept k (y + 1) c p1 a (omega (arith, h)) v1)

-- A picture that is there has its rows inside its buffer.
abbrev pub OnScreen : Option Gfx → Type 0
OnScreen none = Unit {0}
OnScreen (some fx) = (n : ℕ) × Screen n fx

pub chip8_draw-Safe :
    (g : Option Game) {c : Chip8} (st : GfxStats) (fx : Option Gfx)
    → IsValid 16 c
    → OnScreen fx
    → Safe (λ r. IsValid 16 r.0 × OnScreen r.2) (chip8_draw g c st fx)
unfolding chip8_draw
chip8_draw-Safe none st fx h v = Safe-some (h, v)
chip8_draw-Safe (some g) st none h v = Safe-some (h, v)
chip8_draw-Safe (some g) {c} st (some fx) h v =
    let side = leb 400 g.w && leb 140 g.h in
    let laid = pad_layout-IsValid {c = c} g.w g.h h in
    Safe-bind (gfx_clear-Screen st (rgb565 0xF4F6FA) v.1) (λ p1 v1.
      Safe-bind (gfx_fill-Screen p1.0 _ (rgb565 0x12141A) v1) (λ p2 v2.
        Safe-bind (pixel_rows-Kept 32 0 c (pos 8) _ _ p2 h.fb (omega arith) v2) (λ p3 v3.
          Safe-bind {P = λ p. Screen v.0 p.1}
            (Safe-if (side || (not side && leb 148 g.h))
              (λ e. pad_rows-Kept 4 0 (pad_layout c g.w g.h) p3 laid.key (omega arith) v3)
              (λ e. Safe-some v3))
            (λ p4 v4. Safe-some {a = (pad_layout c g.w g.h, p4.0, some p4.1)} (laid, (v.0, v4))))))
