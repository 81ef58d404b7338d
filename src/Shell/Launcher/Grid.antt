-- ===== src/Shell/Launcher/Grid.antt =====
-- The tiles do not overlap, and a touch finds the tile under it.
use stm32h745_disco.Base.{
  ℕ, zero, suc, Bool, true, false, some, ◌+◌, ◌-◌, ◌*◌, ◌/◌, ◌%◌, ◌≤◌, ◌<◌, ◌≡◌, ◌↔◌, ◌≢◌, ◌⊎◌, ap,
  subst, arith, ltb, leb, u16, sub16, Bool-cases, inl, inr,
}
use stm32h745_disco.Base.Int.{pos}
use stm32h745_disco.Shell.Launcher.{
  Rect, content, rows_h, tile_height, origin_y, tile_rect_in, tile_rect, inside, hit_from, hit_in,
  launcher_count, theme_panel_w, theme_panel_h, theme_status_h, theme_content_h,
}

content_bounds : (c : ℕ) → c ≤ 32767 → (72 ≤ content c) × (content c ≤ 32767)
unfolding content
content_bounds c h = ground arith

tile_height_bounds : (inner : ℕ) → (40 ≤ tile_height inner) × (tile_height inner ≤ 86)
unfolding tile_height
tile_height_bounds inner = ground arith

origin_y_bounds : (c g : ℕ) → c ≤ 32767 → (64 ≤ origin_y c g) × (origin_y c g ≤ 16500)
unfolding origin_y
origin_y_bounds c g h = ground arith

-- The height of the tiles, and the top of the first row.
abbrev pub tile_h_of : ℕ → ℕ
tile_h_of content_h = tile_height (sub16 (content content_h) 32)

abbrev pub top_of : ℕ → ℕ
top_of content_h = origin_y (content content_h) (rows_h (tile_h_of content_h))

row_bound : (index t : ℕ) → index < 6 → t ≤ 86 → index / 3 * (t + 16) ≤ 102
row_bound index t h k = grind arith

tile_rect_in-eq :
    (index content_h : ℕ)
    → index < launcher_count
    → content_h ≤ 32767
    → tile_rect_in index content_h ≡ record {
      x = 62 + index % 3 * 124;
      y = top_of content_h + index / 3 * (tile_h_of content_h + 16);
      w = 108;
      h = tile_h_of content_h;
    }
unfolding tile_rect_in
tile_rect_in-eq index content_h k h =
    let c = content_bounds content_h h in
    let t = tile_height_bounds (sub16 (content content_h) 32) in
    let o = origin_y_bounds (content content_h) (rows_h (tile_h_of content_h)) c.1 in
    let r = row_bound index (tile_h_of content_h) k t.1 in
    let step : u16 (tile_h_of content_h + 16) ≡ tile_h_of content_h + 16 = omega (arith, t.1) in
    let some_tile : leb launcher_count index ≡ false = ground arith in
    rw (some_tile, step) (ground (arith, o, r))

-- A point of the screen lies in the rectangle of a tile.
abbrev pub In : ℕ → ℕ → Rect → Type 0
In x y r = (r.x ≤ x) × (x < r.x + r.w) × (r.y ≤ y) × (y < r.y + r.h)

-- What the code tests is that the point lies in the rectangle.
inside_iff :
    (x y i content_h : ℕ)
    → i < launcher_count
    → content_h ≤ 32767
    → (inside x y (tile_rect_in i content_h) ≡ true) ↔ In x y (tile_rect_in i content_h)
unfolding inside
inside_iff x y i content_h k h =
    let c = content_bounds content_h h in
    let t = tile_height_bounds (sub16 (content content_h) 32) in
    let o = origin_y_bounds (content content_h) (rows_h (tile_h_of content_h)) c.1 in
    let r = row_bound i (tile_h_of content_h) k t.1 in
    rw (tile_rect_in-eq i content_h k h) (ground (arith, o, r, t))

two_rows : (i : ℕ) → i < 6 → (i / 3 ≡ 0) ⊎ (i / 3 ≡ 1)
two_rows i h = omega arith

-- Two different tiles have no point in common, at any height of the content up to 32767.
pub tiles_disjoint :
    (x y i j content_h : ℕ)
    → i < launcher_count
    → j < launcher_count
    → content_h ≤ 32767
    → In x y (tile_rect_in i content_h)
    → In x y (tile_rect_in j content_h)
    → i ≡ j
tiles_disjoint x y i j content_h ki kj h p q =
    same (subst (In x y) (tile_rect_in-eq i content_h ki h) p)
      (subst (In x y) (tile_rect_in-eq j content_h kj h) q) (two_rows i ki) (two_rows j kj)
  where
    T : ℕ
    T = tile_h_of content_h

    at : ℕ → Rect
    at k = record { x = 62 + k % 3 * 124; y = top_of content_h + k / 3 * (T + 16); w = 108; h = T }

    same :
        In x y (at i)
        → In x y (at j)
        → (i / 3 ≡ 0) ⊎ (i / 3 ≡ 1)
        → (j / 3 ≡ 0) ⊎ (j / 3 ≡ 1)
        → i ≡ j
    same p q (inl a) (inl b) = omega arith
    same p q (inl a) (inr b) = grind arith
    same p q (inr a) (inl b) = grind arith
    same p q (inr a) (inr b) = omega arith

-- The loop gives the tile under the point.
hit_from_sound :
    (left x y content_h i : ℕ)
    → left ≤ launcher_count
    → content_h ≤ 32767
    → hit_from left x y content_h ≡ some i
    → (i < launcher_count) × In x y (tile_rect_in i content_h)
unfolding hit_from
hit_from_sound zero x y content_h i k h e = cc
hit_from_sound (suc left) x y content_h i k h e =
    let j = launcher_count - suc left in
    elim (Bool-cases (inside x y (tile_rect_in j content_h))) [
      | inl yes_in ↦
          let f : some j ≡ some i = rw (yes_in, hit_from) at e in
          let s : j ≡ i = cc in
          (
            omega arith,
            subst (λ k. In x y (tile_rect_in k content_h)) s
                ((inside_iff x y j content_h (omega arith) h).0 yes_in),
          )
      | inr out ↦
          let f : hit_from left x y content_h ≡ some i = rw (out, hit_from) at e in
          hit_from_sound left x y content_h i (omega arith) h f
    ]

hit_from_complete :
    (left x y content_h i : ℕ)
    → left ≤ launcher_count
    → content_h ≤ 32767
    → launcher_count ≤ i + left
    → i < launcher_count
    → In x y (tile_rect_in i content_h)
    → hit_from left x y content_h ≡ some i
unfolding hit_from
hit_from_complete zero x y content_h i k h a b p = absurd (omega arith)
hit_from_complete (suc left) x y content_h i k h a b p =
    let j = launcher_count - suc left in
    elim (Bool-cases (inside x y (tile_rect_in j content_h))) [
      | inl yes_in ↦
          let s : j ≡ i =
            tiles_disjoint x y j i content_h (omega arith) b h
              ((inside_iff x y j content_h (omega arith) h).0 yes_in) p in
          rw (yes_in, hit_from) (ap some s)
      | inr out ↦
          let other : i ≢ j = λ e.
            apart (ap (λ k. inside x y (tile_rect_in k content_h)) e) out
              ((inside_iff x y i content_h b h).1 p) in
          rw (out, hit_from)
            (hit_from_complete left x y content_h i (omega arith) h (omega (arith, other)) b p)
    ]
  where
    apart : {c d : Bool} → c ≡ d → d ≡ false → c ≡ true → ⊥
    apart e f g = cc

tile_low :
    (x y i content_h : ℕ)
    → i < launcher_count
    → content_h ≤ 32767
    → In x y (tile_rect_in i content_h)
    → theme_status_h ≤ y
tile_low x y i content_h k h p =
    let c = content_bounds content_h h in
    let o = origin_y_bounds (content content_h) (rows_h (tile_h_of content_h)) c.1 in
    let q = subst (In x y) (tile_rect_in-eq i content_h k h) p in omega (arith, o.0, q.2)

-- A touch at `(x, y)` hits tile `i` exactly when the point lies in the rectangle of that tile: at any
-- height of the content up to 32767, `launcher_hit_in` undoes `launcher_tile_rect_in`.
pub hit_in_iff :
    (x y i content_h : ℕ)
    → content_h ≤ 32767
    → (hit_in (pos x) (pos y) content_h ≡ some i)
      ↔ ((i < launcher_count) × In x y (tile_rect_in i content_h))
unfolding hit_in
hit_in_iff x y i content_h h = elim (Bool-cases (ltb y theme_status_h)) [
  | inl status ↦
      rw status ((λ e. cc), (λ p. absurd (ground (arith, tile_low x y i content_h p.0 h p.1))))
  | inr below ↦ rw below (
    hit_from_sound launcher_count x y content_h i (omega arith) h,
    (λ p. hit_from_complete launcher_count x y content_h i (omega arith) h (omega arith) p.0 p.1),
  )
]

-- With the standard content height every tile lies on the panel, below the status bar.
pub tiles_on_panel :
    (i : ℕ)
    → i < launcher_count
    → let r = tile_rect i in
      (theme_status_h ≤ r.y) × (r.x + r.w ≤ theme_panel_w) × (r.y + r.h ≤ theme_panel_h)
unfolding tile_rect content tile_height origin_y
tiles_on_panel i k = rw (tile_rect_in-eq i theme_content_h k (omega arith)) (omega arith)
