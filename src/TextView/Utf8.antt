-- ===== src/TextView/Utf8.antt =====
-- Well-formed UTF-8, as the Unicode standard tabulates it, and what the tests of text_view.c have to do with it.
use stm32h745_disco.Base.{ℕ, true, List, [], ◌∷◌, ◌++◌, ◌/◌, ◌≤◌, ◌<◌, ◌≡◌, refl, arith}
use stm32h745_disco.TextView.{utf8_cont, ok_3, ok_4}

-- A byte between two others.
abbrev pub In : ℕ → ℕ → ℕ → Type 0
In lo hi b = (lo ≤ b) × (b ≤ hi)

-- The second byte of a sequence of three, and of four, after its first.
pub record Second3 (a b : ℕ) : Type 0 where
  pub lead : In 0xE0 0xEF a
  pub tail : In 0x80 0xBF b
  pub no_short : a ≡ 0xE0 → 0xA0 ≤ b
  pub no_surrogate : a ≡ 0xED → b ≤ 0x9F

pub record Second4 (a b : ℕ) : Type 0 where
  pub lead : In 0xF0 0xF4 a
  pub tail : In 0x80 0xBF b
  pub no_short : a ≡ 0xF0 → 0x90 ≤ b
  pub in_unicode : a ≡ 0xF4 → b ≤ 0x8F

pub data Utf8 : List ℕ → Type 0 where
  nothing : Utf8 []
  one : (a : ℕ) (t : List ℕ) → a < 0x80 → Utf8 t → Utf8 (a ∷ t)
  two : (a b : ℕ) (t : List ℕ) → In 0xC2 0xDF a → In 0x80 0xBF b → Utf8 t → Utf8 (a ∷ b ∷ t)
  three : (a b c : ℕ) (t : List ℕ) → Second3 a b → In 0x80 0xBF c → Utf8 t → Utf8 (a ∷ b ∷ c ∷ t)
  four :
      (a b c d : ℕ) (t : List ℕ)
      → Second4 a b
      → In 0x80 0xBF c
      → In 0x80 0xBF d
      → Utf8 t
      → Utf8 (a ∷ b ∷ c ∷ d ∷ t)

pub Utf8-append : {s t : List ℕ} → Utf8 s → Utf8 t → Utf8 (s ++ t)
Utf8-append nothing u = u
Utf8-append (one a s h r) u = one a _ h (Utf8-append r u)
Utf8-append (two a b s h k r) u = two a b _ h k (Utf8-append r u)
Utf8-append (three a b c s h k r) u = three a b c _ h k (Utf8-append r u)
Utf8-append (four a b c d s h k l r) u = four a b c d _ h k l (Utf8-append r u)

pub cont→In : (b : ℕ) → utf8_cont b ≡ true → In 0x80 0xBF b
unfolding utf8_cont
cont→In b h = let e : b / 64 ≡ 2 = ground arith in (omega arith, omega arith)

pub In→cont : (b : ℕ) → In 0x80 0xBF b → utf8_cont b ≡ true
unfolding utf8_cont
In→cont b h = let e : b / 64 ≡ 2 = omega (arith, h.0, h.1) in rw e refl

pub ok_3→Second3 :
    (a b c : ℕ) → In 0xE0 0xEF a → In 0x80 0xBF b → In 0x80 0xBF c → ok_3 a b c ≡ true → Second3 a b
unfolding ok_3
ok_3→Second3 a b c h k l e = record {
  lead = h;
  tail = k;
  no_short = λ q. ground arith;
  no_surrogate = λ q. ground arith;
}

pub Second3→ok_3 : (a b c : ℕ) → Second3 a b → In 0x80 0xBF c → ok_3 a b c ≡ true
unfolding ok_3
Second3→ok_3 a b c s l = ground arith

pub ok_4→Second4 :
    (a b c d : ℕ) → In 0xF0 0xF4 a → In 0x80 0xBF b → ok_4 a b c d ≡ true → Second4 a b
unfolding ok_4
ok_4→Second4 a b c d h k e = record {
  lead = h;
  tail = k;
  no_short = λ q. ground arith;
  in_unicode = λ q. ground arith;
}

pub Second4→ok_4 :
    (a b c d : ℕ) → Second4 a b → In 0x80 0xBF c → In 0x80 0xBF d → ok_4 a b c d ≡ true
unfolding ok_4
Second4→ok_4 a b c d s l m = ground arith
