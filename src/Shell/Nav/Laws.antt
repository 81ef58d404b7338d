-- ===== src/Shell/Nav/Laws.antt =====
-- The stack holds its open screens in order, and nothing is left behind a screen that is closed.
use stm32h745_disco.Base.{
  ℕ, suc, zero, true, false, Option, none, some, List, [], ◌∷◌, ◌++◌, ◌+◌, ◌-◌, ◌≤◌, ◌<◌, ◌≡◌, refl,
  sym, ap, ap₂, ◌∙◌, arith, leb, ◌==◌, u32, length, get_or, set, replicate, Err, Bool-cases, inl,
  inr, ◌⊎◌,
}
use stm32h745_disco.Shell.Nav.{
  Nav, Frame, null_frame, is_unnamed, nav_stack_max, nav_init, nav_push, nav_pop, nav_home, nav_top,
  clear_down,
}

-- The array is that of the open screens, oldest first, and NULL frames up to its 8 places.
pub record Holds (s : Nav) (screens : List Frame) : Type 0 where
  pub fits : length screens ≤ nav_stack_max
  pub count : s.depth ≡ length screens
  pub array : s.frames ≡ screens ++ replicate (nav_stack_max - length screens) null_frame

-- A stack that has been set up holds no screen.
pub nav_init-Holds : (s : Nav) → Holds (nav_init s) []
unfolding nav_init
nav_init-Holds s = record { fits = omega arith; count = refl; array = refl }

set-append {ℓ} :
    {A : Type ℓ} (xs : List A) (x y : A) (ys : List A)
    → set (xs ++ x ∷ ys) (length xs) y ≡ xs ++ y ∷ ys
set-append [] x y ys = refl
set-append (z ∷ xs) x y ys = ap (λ l. z ∷ l) (set-append xs x y ys)

append-snoc {ℓ} :
    {A : Type ℓ} (xs : List A) (y : A) (ys : List A) → (xs ++ y ∷ []) ++ ys ≡ xs ++ y ∷ ys
append-snoc [] y ys = refl
append-snoc (z ∷ xs) y ys = ap (λ l. z ∷ l) (append-snoc xs y ys)

replicate-suc : (n : ℕ) → 0 < n → replicate n null_frame ≡ null_frame ∷ replicate (n - 1) null_frame
replicate-suc zero h = absurd (omega arith)
replicate-suc (suc n) h = ap (λ k. null_frame ∷ replicate k null_frame) (omega arith)

length-snoc {ℓ} : {A : Type ℓ} (xs : List A) (y : A) → length (xs ++ y ∷ []) ≡ suc (length xs)
length-snoc [] y = refl
length-snoc (x ∷ xs) y = ap suc (length-snoc xs y)

get_or-snoc {ℓ} :
    {A : Type ℓ} (xs : List A) (y : A) (ys : List A) (d : A)
    → get_or (xs ++ y ∷ ys) (length xs) d ≡ y
get_or-snoc [] y ys d = refl
get_or-snoc (x ∷ xs) y ys d = get_or-snoc xs y ys d

-- A stack with room takes a screen with a name on top of those that are open.
pub nav_push_lem :
    {s : Nav} {screens : List Frame} (id : Option (List ℕ)) (args : Option ℕ)
    → Holds s screens
    → is_unnamed id ≡ false
    → length screens < nav_stack_max
    → let (e, s') = nav_push s id args in
      let f : Frame = record { id = id; args = args } in
      (e ≡ Err.ok)
      × Holds s' (screens ++ f ∷ [])
      × (nav_top s' ≡ some f)
      × (s'.gen ≡ u32 (s.gen + 1))
unfolding nav_push nav_top
nav_push_lem {s} {screens} id args h named room =
    let f : Frame = record { id = id; args = args } in
    let n = length screens in
    let free : leb nav_stack_max s.depth ≡ false = ground (arith, h.count) in
    let some_open : (s.depth + 1 == 0) ≡ false = ground arith in
    let top : s.depth + 1 - 1 ≡ n = omega (arith, h.count) in
    let after : set s.frames s.depth f
        ≡ screens ++ f ∷ replicate (nav_stack_max - n - 1) null_frame =
      ap₂ (λ l k. set l k f)
        (h.array ∙ ap (λ l. screens ++ l) (replicate-suc (nav_stack_max - n) (omega arith))) h.count
      ∙ set-append screens null_frame f (replicate (nav_stack_max - n - 1) null_frame) in
    rw (named, free)
      (
        refl,
        record {
          fits = omega (arith, length-snoc screens f);
          count = omega (arith, length-snoc screens f, h.count);
          array =
              after
              ∙ sym (append-snoc screens f (replicate (nav_stack_max - n - 1) null_frame))
              ∙ ap (λ k. (screens ++ f ∷ []) ++ replicate k null_frame)
                  (omega (arith, length-snoc screens f));
        },
        rw (some_open, top)
            (ap some (
              ap (λ l. get_or l n null_frame) after
              ∙ get_or-snoc screens f (replicate (nav_stack_max - n - 1) null_frame) null_frame)),
        refl,
      )

-- Closing the top screen leaves the others, and clears its frame.
pub nav_pop_lem :
    {s : Nav} {screens : List Frame} (f : Frame)
    → Holds s (screens ++ f ∷ [])
    → let (e, s') = nav_pop s in (e ≡ Err.ok) × Holds s' screens × (s'.gen ≡ u32 (s.gen + 1))
unfolding nav_pop
nav_pop_lem {s} {screens} f h =
    let n = length screens in
    let size = length-snoc screens f in
    let some_open : (s.depth == 0) ≡ false = ground (arith, h.count, size) in
    let top : s.depth - 1 ≡ n = omega (arith, h.count, size) in
    let rest = replicate (nav_stack_max - length (screens ++ f ∷ [])) null_frame in
    rw some_open (
      refl,
      record {
        fits = omega (arith, h.fits, size);
        count = top;
        array =
            ap₂ (λ l k. set l k null_frame) (h.array ∙ append-snoc screens f rest) top
            ∙ set-append screens f null_frame rest
            ∙ ap (λ l. screens ++ l)
                (ap (λ k. null_frame ∷ replicate k null_frame) (omega (arith, size))
                  ∙ sym (replicate-suc (nav_stack_max - n) (omega (arith, h.fits, size))));
      },
      refl,
    )

-- A push without a name, or on a stack that is full, is refused and changes nothing.
pub nav_push_refused :
    {s : Nav} {screens : List Frame} (id : Option (List ℕ)) (args : Option ℕ)
    → Holds s screens
    → (is_unnamed id ≡ true) ⊎ (length screens ≡ nav_stack_max)
    → let (e, s') = nav_push s id args in ((e ≡ Err.inval) ⊎ (e ≡ Err.nospc)) × (s' ≡ s)
unfolding nav_push
nav_push_refused {s} {screens} id args h (inl unnamed) = rw unnamed (inl refl, refl)
nav_push_refused {s} {screens} id args h (inr full) =
    let no_room : leb nav_stack_max s.depth ≡ true = ground (arith, h.count) in
    elim (Bool-cases (is_unnamed id)) [
      | inl unnamed ↦ rw unnamed (inl refl, refl)
      | inr named ↦ rw (named, no_room) (inr refl, refl)
    ]

snoc_view {ℓ} :
    {A : Type ℓ} (x : A) (xs : List A) → (ys : List A) × (y : A) × (x ∷ xs ≡ ys ++ y ∷ [])
snoc_view x [] = ([], x, refl)
snoc_view x (z ∷ xs) = let (ys, y, e) = snoc_view z xs in (x ∷ ys, y, ap (λ l. x ∷ l) e)

clear_down-append :
    (k n : ℕ) (xs : List Frame)
    → length xs ≡ k
    → clear_down k (xs ++ replicate n null_frame) ≡ replicate (k + n) null_frame
unfolding clear_down
clear_down-append zero n [] e = ap (λ m. replicate m null_frame) (omega arith)
clear_down-append zero n (x ∷ xs) e = absurd (omega arith)
clear_down-append (suc k) n [] e = absurd (omega arith)
clear_down-append (suc k) n (x ∷ xs) e =
    let (ys, y, split) = snoc_view x xs in
    let size : length ys ≡ k = omega (arith, e, ap length split, length-snoc ys y) in
    ap (λ l. clear_down k (set (l ++ replicate n null_frame) k null_frame)) split
    ∙ ap (λ l. clear_down k (set l k null_frame)) (append-snoc ys y (replicate n null_frame))
    ∙ ap (λ m. clear_down k (set (ys ++ y ∷ replicate n null_frame) m null_frame)) (sym size)
    ∙ ap (clear_down k) (set-append ys y null_frame (replicate n null_frame))
    ∙ clear_down-append k (suc n) ys size
    ∙ ap (λ m. replicate m null_frame) (omega arith)

-- Going home closes every screen and clears every frame.
pub nav_home_lem :
    {s : Nav} {screens : List Frame}
    → Holds s screens
    → Holds (nav_home s) [] × (nav_top (nav_home s) ≡ none)
unfolding nav_home nav_top
nav_home_lem {s} {screens} h = elim (Bool-cases (s.depth == 0)) [
  | inl zero_open ↦
      let none_open : length screens ≡ 0 = ground (arith, h.count) in
      rw zero_open (
        record {
          fits = omega arith;
          count = ground arith;
          array = h.array ∙ gone screens none_open;
        },
        rw zero_open refl,
      )
  | inr more ↦
      let n = length screens in
      let whole : n + (nav_stack_max - n) ≡ nav_stack_max = omega (arith, h.fits) in
      rw more (
        record {
          fits = omega arith;
          count = refl;
          array =
              ap₂ clear_down h.count h.array
              ∙ clear_down-append (length screens) (nav_stack_max - length screens) screens refl
              ∙ ap (λ m. replicate m null_frame) whole;
        },
        refl,
      )
]
  where
    gone :
        (l : List Frame)
        → length l ≡ 0
        → l ++ replicate (nav_stack_max - length l) null_frame ≡ replicate nav_stack_max null_frame
    gone [] e = refl
    gone (x ∷ l) e = absurd (omega arith)
