-- ===== src/Game/Gfx/Filled.antt =====
-- The entries of a buffer that the loops of `gfx_fill` in firmware/src/game/gfx.c write.
use stm32h745_disco.Base.{
  ℕ, zero, suc, Bool, false, some, List, [], ◌∷◌, ◌+◌, ◌*◌, ◌≤◌, ◌<◌, ◌≡◌, ◌≢◌, ◌⊎◌, inl, inr, refl,
  ◌∙◌, arith, ltb, leb, ◌==◌, if◌then◌else◌, ◌&&◌, ◌||◌, length, get_or, set, Bool-cases,
  length-set, get_or-set_self, get_or-set_ne, subst,
}
use stm32h745_disco.Base.Access.{store, Safe, Safe-some, Safe-bind}
use stm32h745_disco.Base.Rem.{times_step}
use stm32h745_disco.Game.Gfx.{fill_cols, fill_rows}

store-set : (xs : List ℕ) (i v : ℕ) → i < length xs → store xs i v ≡ some (set xs i v)
store-set [] i v h = absurd (omega arith)
store-set (x ∷ xs) zero v h = refl
store-set (x ∷ xs) (suc i) v h = rw (store-set xs i v (omega arith)) refl

-- A buffer in which the entries that `test` picks are `v`, and the others are as in `fb`.
pub record Painted (v : ℕ) (test : ℕ → Bool) (fb fb1 : List ℕ) : Type 0 where
  pub size : length fb1 ≡ length fb
  pub at : (k : ℕ) → k < length fb → get_or fb1 k 0 ≡ (if test k then v else get_or fb k 0)

pub store-Painted :
    (fb : List ℕ) (i v : ℕ) → i < length fb → Safe (Painted v (λ k. k == i) fb) (store fb i v)
store-Painted fb i v h = record {
  result = set fb i v;
  reached = store-set fb i v h;
  holds = record {
    size = length-set fb i v;
    at = λ k b. elim (Bool-cases (k == i)) [
      | inl e ↦ let p : k ≡ i = ground (arith, e) in rw (e, p) (get_or-set_self fb i v 0 h)
      | inr e ↦
          let p : i ≢ k = λ q. absurd (ground (arith, e, q)) in rw e (get_or-set_ne fb i k v 0 p)
    ];
  };
}

-- Painting twice paints what either test picks.
pub Painted-then :
    {v : ℕ} {s t : ℕ → Bool} {fb fb1 fb2 : List ℕ} (u : ℕ → Bool)
    → ((k : ℕ) → k < length fb → u k ≡ (s k || t k))
    → Painted v s fb fb1
    → Painted v t fb1 fb2
    → Painted v u fb fb2
Painted-then {v} {s} {t} {fb} {fb1} {fb2} u e p q = record {
  size = q.size ∙ p.size;
  at = λ k b. q.at k (omega (arith, b, p.size)) ∙ both k b;
}
  where
    both :
        (k : ℕ)
        → k < length fb
        → (if t k then v else get_or fb1 k 0) ≡ (if u k then v else get_or fb k 0)
    both k b = rw (e k b, p.at k b) (ground arith)

abbrev pub none_at : ℕ → Bool
none_at k = false

pub Painted-none : (v : ℕ) (fb : List ℕ) → Painted v none_at fb fb
Painted-none v fb = record { size = refl; at = λ k b. refl }

abbrev pub between : ℕ → ℕ → ℕ → Bool
between low n k = leb low k && ltb k (low + n)

fill_cols-Painted :
    (n at v : ℕ) (fb : List ℕ)
    → at + n ≤ length fb
    → Safe (Painted v (between at n) fb) (fill_cols n at v fb)
unfolding fill_cols
fill_cols-Painted zero at v fb h = Safe-some (record { size = refl; at = λ k b. ground arith })
fill_cols-Painted (suc n) at v fb h = Safe-bind (store-Painted fb at v (omega (arith, h))) (λ fb1 p.
    let s = fill_cols-Painted n (at + 1) v fb1 (omega (arith, h, p.size)) in
    record {
      result = s.result;
      reached = s.reached;
      holds = Painted-then (between at (suc n)) (λ k b. ground arith) p s.holds;
    })

-- The entries that the loop over the rows goes through.
abbrev pub in_rows : ℕ → ℕ → ℕ → ℕ → ℕ → ℕ → Bool
in_rows zero y x0 cols stride k = false
in_rows (suc n) y x0 cols stride k =
    between (y * stride + x0) cols k || in_rows n (y + 1) x0 cols stride k

-- A row ends inside the buffer.
pub row_fits :
    (n y x0 cols stride size : ℕ)
    → x0 + cols ≤ stride
    → (y + suc n) * stride ≤ size
    → (y * stride + x0 + cols ≤ size) × ((y + 1 + n) * stride ≤ size)
row_fits n y x0 cols stride size c h =
    let k = times_step y (y + suc n) stride (omega arith) in
    let e : y + suc n ≡ y + 1 + n = omega arith in
    (omega (arith, k, h, c), subst (λ m. m * stride ≤ size) e h)

pub fill_rows-Painted :
    (n y x0 cols stride v : ℕ) (fb : List ℕ)
    → x0 + cols ≤ stride
    → (y + n) * stride ≤ length fb
    → Safe (Painted v (in_rows n y x0 cols stride) fb) (fill_rows n y x0 cols stride v fb)
unfolding fill_rows
fill_rows-Painted zero y x0 cols stride v fb c h = Safe-some (Painted-none v fb)
fill_rows-Painted (suc n) y x0 cols stride v fb c h =
    let (here, next) = row_fits n y x0 cols stride (length fb) c h in
    Safe-bind (fill_cols-Painted cols (y * stride + x0) v fb here) (λ fb1 p.
      let s = fill_rows-Painted n (y + 1) x0 cols stride v fb1 c (rw p.size next) in
      record {
        result = s.result;
        reached = s.reached;
        holds = Painted-then (in_rows (suc n) y x0 cols stride) (λ k b. refl) p s.holds;
      })

-- In rows and columns.
in_row :
    (y j i x0 cols stride : ℕ)
    → i < stride
    → x0 + cols ≤ stride
    → between (y * stride + x0) cols (j * stride + i) ≡ ((y == j) && between x0 cols i)
in_row y j i x0 cols stride b c = elim (sides y j) [
  | inl l ↦ let k = times_step y j stride l in ground (arith, k, l, c)
  | inr (inl e) ↦ rw e (ground arith)
  | inr (inr l) ↦ let k = times_step j y stride l in ground (arith, k, l, b)
]
  where
    sides : (y j : ℕ) → (y < j) ⊎ (y ≡ j) ⊎ (j < y)
    sides y j = omega arith

pub in_rows-between :
    (n y j i x0 cols stride : ℕ)
    → i < stride
    → x0 + cols ≤ stride
    → in_rows n y x0 cols stride (j * stride + i) ≡ (between y n j && between x0 cols i)
in_rows-between zero y j i x0 cols stride b c = ground arith
in_rows-between (suc n) y j i x0 cols stride b c =
    rw (in_row y j i x0 cols stride b c, in_rows-between n (y + 1) j i x0 cols stride b c)
      (ground arith)
