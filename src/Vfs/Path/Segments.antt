-- ===== src/Vfs/Path/Segments.antt =====
-- A path as the list of its segments, and how a segment is checked while it is read.
use stm32h745_disco.Base.{
  ℕ, Bool, true, false, List, [], ◌∷◌, ◌≡◌, ◌≢◌, ◌↔◌, inl, inr, refl, arith, ◌==◌, if◌then◌else◌,
  Bool-cases,
}
use stm32h745_disco.Vfs.Path.{slash, dot, is_dotdot, at_boundary}

-- A path cut at its slashes; there is one segment more than there are slashes.
abbrev pub add_to_first : ℕ → List (List ℕ) → List (List ℕ)
add_to_first c [] = (c ∷ []) ∷ []
add_to_first c (s ∷ ss) = (c ∷ s) ∷ ss

unfoldable pub segments : List ℕ → List (List ℕ)
segments [] = [] ∷ []
segments (c ∷ cs) = if c == slash then [] ∷ segments cs else add_to_first c (segments cs)

abbrev pub dotdot : List ℕ
dotdot = dot ∷ dot ∷ []

-- Only the last segment may be empty, and none is "..".
abbrev pub AllNamed : List (List ℕ) → Type 0
AllNamed [] = Unit {0}
AllNamed (s ∷ []) = s ≢ dotdot
AllNamed (s ∷ t ∷ ss) = (s ≢ []) × (s ≢ dotdot) × AllNamed (t ∷ ss)

-- The same, but for the first segment, of which a part has been read.
abbrev pub RestNamed : List (List ℕ) → Type 0
RestNamed [] = Unit {0}
RestNamed (s ∷ []) = Unit {0}
RestNamed (s ∷ t ∷ ss) = AllNamed (t ∷ ss)

-- What the loop still has to find, at the start of a segment or inside one.
abbrev pub Named : Bool → List ℕ → Type 0
Named true p = AllNamed (segments p)
Named false p = RestNamed (segments p)

-- There is a first segment, and it is empty exactly at a boundary.
pub segments_view :
    (p : List ℕ)
    → (s : List ℕ) × (ss : List (List ℕ)) × (segments p ≡ s ∷ ss)
      × ((at_boundary p ≡ true) ↔ (s ≡ []))
unfolding segments
segments_view [] = ([], [], refl, ground arith)
segments_view (c ∷ cs) = elim (Bool-cases (c == slash)) [
  | inl e ↦ ([], segments cs, rw e refl, rw e ((λ _. refl), (λ _. refl)))
  | inr n ↦ let (s, ss, eq, b) = segments_view cs in (c ∷ s, ss, rw (n, eq) refl, ground arith)
]

pub Named-slash : (cs : List ℕ) → Named false (slash ∷ cs) ↔ Named true cs
unfolding segments
Named-slash cs = let (s, ss, eq, b) = segments_view cs in rw eq ((λ h. h), (λ h. h))

pub Named-double : (cs : List ℕ) → ¬ (Named true (slash ∷ cs))
unfolding segments
Named-double cs = let (s, ss, eq, b) = segments_view cs in rw eq (λ h. h.0 refl)

pub Named-inside :
    (c : ℕ) (cs : List ℕ) → (c == slash) ≡ false → Named false (c ∷ cs) ↔ Named false cs
unfolding segments
Named-inside c cs n = let (s, ss, eq, b) = segments_view cs in rw (n, eq) (grown c s ss)
  where
    grown :
        (c : ℕ) (s : List ℕ) (ss : List (List ℕ)) → RestNamed ((c ∷ s) ∷ ss) ↔ RestNamed (s ∷ ss)
    grown c s [] = ((λ h. h), (λ h. h))
    grown c s (t ∷ ss) = ((λ h. h), (λ h. h))

is_dotdot_iff :
    (c : ℕ) (cs s : List ℕ) (ss : List (List ℕ))
    → segments cs ≡ s ∷ ss
    → (is_dotdot (c ∷ cs) ≡ true) ↔ (c ∷ s ≡ dotdot)
unfolding segments
is_dotdot_iff c [] s ss e = ground arith
is_dotdot_iff c (b ∷ ds) s ss e = elim (Bool-cases (b == slash)) [
  | inl y ↦ let e' : [] ∷ segments ds ≡ s ∷ ss = rw y at e in ground arith
  | inr n ↦
      let (s', ss', eq, b') = segments_view ds in
      let e' : (b ∷ s') ∷ ss' ≡ s ∷ ss = rw (n, eq) at e in ground (arith, b')
]

pub Named-start :
    (c : ℕ) (cs : List ℕ)
    → (c == slash) ≡ false
    → Named true (c ∷ cs) ↔ ((is_dotdot (c ∷ cs) ≡ false) × Named false cs)
unfolding segments
Named-start c cs n =
    let (s, ss, eq, b) = segments_view cs in
    let d = is_dotdot_iff c cs s ss eq in
    rw (n, eq)
      (
        (λ h.
            let g = (grown c s ss).0 h in
            (
              elim (Bool-cases (is_dotdot (c ∷ cs))) [ inl y ↦ absurd (g.0 (d.0 y)) | inr m ↦ m ],
              g.1,
            )),
        (λ h. (grown c s ss).1 ((λ e. clash (d.1 e) h.0), h.1)),
      )
  where
    clash : {b : Bool} → b ≡ true → b ≡ false → ⊥
    clash p q = cc

    grown :
        (c : ℕ) (s : List ℕ) (ss : List (List ℕ))
        → AllNamed ((c ∷ s) ∷ ss) ↔ ((c ∷ s ≢ dotdot) × RestNamed (s ∷ ss))
    grown c s [] = ((λ h. (h, tt)), (λ h. h.0))
    grown c s (t ∷ ss) = ((λ h. (h.1, h.2)), (λ h. ((λ e. cc), h.0, h.1)))
