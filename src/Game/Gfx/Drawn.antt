-- ===== src/Game/Gfx/Drawn.antt =====
-- What firmware/src/game/gfx.c fills.
use stm32h745_disco.Base.{
  ℕ, Bool, true, false, some, List, ◌+◌, ◌*◌, ◌-◌, ◌≤◌, ◌<◌, ◌≡◌, ◌⊎◌, inl, inr, refl, ap, ◌∙◌,
  arith, ltb, ◌==◌, if◌then◌else◌, not, ◌&&◌, ◌||◌, length, get_or, Bool-cases, u32,
}
use stm32h745_disco.Base.Access.{Safe, Safe-some, Safe-bind, Safe-if}
use stm32h745_disco.Base.Int.{ℤ, pos, ◌+ℤ◌, ltb_ℤ, pos_part, +ℤ_parts}
use stm32h745_disco.Base.Rem.{times_≤}
use stm32h745_disco.Game.Gfx.{GfxRect, Gfx, GfxStats, gfx_fill, clip_low, clip_high, fill}
use stm32h745_disco.Game.Gfx.Filled.{in_rows-between, fill_rows-Painted, between}

-- Whether a coordinate lies in a span of `size` from `low` on.
abbrev pub in_span : ℤ → ℕ → ℕ → Bool
in_span low size i = not (ltb_ℤ (pos i) low) && ltb_ℤ (pos i) (low +ℤ pos size)

-- The clipped span is what is in the span and below the limit.
pub span_clipped :
    (x : ℤ) (size limit i : ℕ)
    → ltb_ℤ (pos (clip_low x)) (clip_high (x +ℤ pos size) limit) ≡ true
    → between (clip_low x) (pos_part (clip_high (x +ℤ pos size) limit) - clip_low x) i
      ≡ (ltb i limit && in_span x size i)
span_clipped x size limit i h = let p = +ℤ_parts x (pos size) in ground (arith, h, p)

pub span_fits :
    (x : ℤ) (size limit : ℕ)
    → ltb_ℤ (pos (clip_low x)) (clip_high (x +ℤ pos size) limit) ≡ true
    → clip_low x + (pos_part (clip_high (x +ℤ pos size) limit) - clip_low x) ≤ limit
span_fits x size limit h = ground (arith, h)

pub span_empty :
    (x : ℤ) (size limit i : ℕ)
    → ltb_ℤ (pos (clip_low x)) (clip_high (x +ℤ pos size) limit) ≡ false
    → (ltb i limit && in_span x size i) ≡ false
span_empty x size limit i h = let p = +ℤ_parts x (pos size) in ground (arith, h, p)

pub span_none : (x : ℤ) (limit i : ℕ) → (ltb i limit && in_span x 0 i) ≡ false
span_none x limit i = let p = +ℤ_parts x (pos 0) in ground (arith, p)

-- The pixels of a picture of `w` by `h` that a rectangle covers.
abbrev pub covers : GfxRect → ℕ → ℕ → ℕ → ℕ → Bool
covers r w h i j = (ltb i w && in_span r.x r.w i) && (ltb j h && in_span r.y r.h j)

-- What is left of a buffer: as many entries, the pixels that `r` covers of the colour, the others as they were, and the
-- entries between the end of a row and the start of the next as well.
pub record Drawn (w h stride : ℕ) (r : GfxRect) (rgb565 : ℕ) (fb fb1 : List ℕ) : Type 0 where
  pub size : length fb1 ≡ length fb
  pub pixel :
      (i j : ℕ)
      → i < stride
      → j * stride + i < length fb
      → get_or fb1 (j * stride + i) 0
        ≡ (if covers r w h i j then rgb565 else get_or fb (j * stride + i) 0)

left_alone :
    (w h stride : ℕ) (r : GfxRect) (rgb565 : ℕ) (fb : List ℕ)
    → ((i j : ℕ) → covers r w h i j ≡ false)
    → Drawn w h stride r rgb565 fb fb
left_alone w h stride r rgb565 fb e = record { size = refl; pixel = λ i j b k. rw (e i j) refl }

and_false : (b : Bool) → (b && false) ≡ false
and_false true = refl
and_false false = refl

and_comm : (a b : Bool) → (a && b) ≡ (b && a)
and_comm true b = ground arith
and_comm false b = ground arith

second : {a b : Bool} → a ≡ true → (not a || not b) ≡ true → b ≡ false
second {a} {b} p e = ground (arith, p, e)

pub neither : {a b : Bool} → (not a || not b) ≡ false → (a ≡ true) × (b ≡ true)
neither {a} {b} e = ground (arith, e)

-- Where a test for an empty rectangle stops the call, no pixel is covered.
no_area :
    (w h : ℕ) (r : GfxRect) (i j : ℕ) → (r.w == 0 || r.h == 0) ≡ true → covers r w h i j ≡ false
no_area w h r i j e =
    let zero_w : (r.w ≡ 0) ⊎ (r.h ≡ 0) = ground (arith, e) in
    elim zero_w [
      | inl p ↦ rw p (rw (span_none r.x w i) refl)
      | inr p ↦ rw p (rw (span_none r.y h j) (and_false _))
    ]

outside :
    (w h : ℕ) (r : GfxRect) (i j : ℕ)
    → (not (ltb_ℤ (pos (clip_low r.x)) (clip_high (r.x +ℤ pos r.w) w))
        || not (ltb_ℤ (pos (clip_low r.y)) (clip_high (r.y +ℤ pos r.h) h)))
      ≡ true
    → covers r w h i j ≡ false
outside w h r i j e =
    elim (Bool-cases (ltb_ℤ (pos (clip_low r.x)) (clip_high (r.x +ℤ pos r.w) w))) [
      | inr p ↦ rw (span_empty r.x r.w w i p) refl
      | inl p ↦ rw (span_empty r.y r.h h j (second p e)) (and_false _)
    ]

pub fill-Drawn :
    (w h stride : ℕ) (r : GfxRect) (rgb565 : ℕ) (fb : List ℕ)
    → w ≤ stride
    → h * stride ≤ length fb
    → Safe (Drawn w h stride r rgb565 fb) (fill w h stride r rgb565 fb)
unfolding fill
fill-Drawn w h stride r rgb565 fb a b =
    Safe-if (r.w == 0 || r.h == 0)
      (λ e. Safe-some (left_alone w h stride r rgb565 fb (λ i j. no_area w h r i j e)))
      (λ e.
        Safe-if _ (λ f. Safe-some (left_alone w h stride r rgb565 fb (λ i j. outside w h r i j f)))
          (λ f.
            let (p, q) = neither f in
            let across = span_fits r.x r.w w p in
            let down = span_fits r.y r.h h q in
            let y0 = clip_low r.y in
            let n = pos_part (clip_high (r.y +ℤ pos r.h) h) - y0 in
            let rows = times_≤ (y0 + n) h stride down in
            let s =
              fill_rows-Painted n y0 (clip_low r.x)
                (pos_part (clip_high (r.x +ℤ pos r.w) w) - clip_low r.x) stride rgb565 fb
                (omega (arith, across, a)) (omega (arith, rows, b)) in
            record {
              result = s.result;
              reached = s.reached;
              holds = record {
                size = s.holds.size;
                pixel = λ i j u v.
                    s.holds.at (j * stride + i) v
                    ∙ ap (λ t. if t then rgb565 else get_or fb (j * stride + i) 0)
                        (in_rows-between n y0 j i (clip_low r.x) _ stride u
                            (omega (arith, across, a))
                          ∙ rw (span_clipped r.x r.w w i p, span_clipped r.y r.h h j q)
                              (and_comm (ltb j h && in_span r.y r.h j)
                                (ltb i w && in_span r.x r.w i)));
              };
            }))

-- What a call leaves of the picture.
abbrev Left : Gfx → GfxRect → ℕ → List ℕ → Gfx → Type 0
Left fx r rgb565 fb fx1 =
    (fb1 : List ℕ) × (fx1.fb ≡ some fb1) × Drawn fx.w fx.h fx.stride r rgb565 fb fb1

-- `gfx_fill` into a buffer of `h` rows of `stride` pixels, of which a picture is `w` pixels wide, does not leave the buffer.
-- It gives the colour to exactly the pixels of the picture that the rectangle covers, wherever the
-- rectangle lies, and leaves all others and what stands behind the rows as they were; and it counts the call.
pub gfx_fill-Drawn :
    (st : GfxStats) (fx : Gfx) (r : GfxRect) (rgb565 : ℕ) (fb : List ℕ)
    → fx.fb ≡ some fb
    → fx.w ≤ fx.stride
    → fx.h * fx.stride ≤ length fb
    → Safe
        (λ p.
          ((fb1 : List ℕ) × (p.1.fb ≡ some fb1) × Drawn fx.w fx.h fx.stride r rgb565 fb fb1)
          × (p.0.fills ≡ u32 (st.fills + 1)))
        (gfx_fill st fx r rgb565)
unfolding gfx_fill
gfx_fill-Drawn st fx r rgb565 fb e a b =
    let s = fill-Drawn fx.w fx.h fx.stride r rgb565 fb a b in
    rw (gfx_fill, e)
      (Safe-bind (Safe-bind s (λ fb1 d. Safe-some {P = Left fx r rgb565 fb} (fb1, refl, d)))
        (λ fx1 d. Safe-some (d, refl)))
