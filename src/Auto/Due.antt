-- ===== src/Auto/Due.antt =====
-- `auto_take_due` gives the earliest action that is due.
use stm32h745_disco.Base.{
  ℕ, zero, suc, true, false, Option, none, some, List, [], ◌∷◌, ◌+◌, ◌^◌, ◌≤◌, ◌<◌, ◌≡◌, ◌≢◌, ◌⊎◌,
  inl, inr, refl, ap, ◌∙◌, arith, leb, ◌&&◌, Err, Bool-cases,
}
use mathlib.Core.Option.{some_inj}
use stm32h745_disco.Auto.{Pend, Auto}
use stm32h745_disco.Auto.Table.{request, lookup, release, best_due, auto_take_due}

-- The actions that are due are not before a time, and after it.
abbrev pub NoneBefore : ℕ → ℕ → List Pend → Type 0
NoneBefore now_ms t [] = Unit {0}
NoneBefore now_ms t (p ∷ ps) =
    (p.used ≡ true → p.due_ms ≤ now_ms → t ≤ p.due_ms) × NoneBefore now_ms t ps

abbrev AllAfter : ℕ → ℕ → List Pend → Type 0
AllAfter now_ms t [] = Unit {0}
AllAfter now_ms t (p ∷ ps) =
    (p.used ≡ true → p.due_ms ≤ now_ms → t < p.due_ms) × AllAfter now_ms t ps

AllAfter-NoneBefore :
    (now_ms t : ℕ) (ps : List Pend) → AllAfter now_ms t ps → NoneBefore now_ms t ps
AllAfter-NoneBefore now_ms t [] h = tt
AllAfter-NoneBefore now_ms t (p ∷ ps) h =
    ((λ u d. omega (arith, h.0 u d)), AllAfter-NoneBefore now_ms t ps h.1)

-- The entry `p` stands at `j` and is the earliest that is due, no later than `soon`.
pub record Earliest (now_ms soon : ℕ) (ps : List Pend) (j : ℕ) : Type 0 where
  pub p : Pend
  pub stands : lookup ps j ≡ some p
  pub used : p.used ≡ true
  pub due : p.due_ms ≤ now_ms
  pub in_time : p.due_ms ≤ soon
  pub first : NoneBefore now_ms p.due_ms ps

best_due_lem :
    (now_ms i : ℕ) (ps : List Pend) (best : Option ℕ) (soon : ℕ)
    → ((best_due now_ms i ps best soon ≡ best) × AllAfter now_ms soon ps)
      ⊎ ((j : ℕ) × (best_due now_ms i ps best soon ≡ some (i + j)) × Earliest now_ms soon ps j)
unfolding best_due
best_due_lem now_ms i [] best soon = inl (refl, tt)
best_due_lem now_ms i (p ∷ ps) best soon =
    elim (Bool-cases (p.used && (leb p.due_ms now_ms && leb p.due_ms soon))) [
      | inl taken ↦
          let u : p.used ≡ true = ground arith in
          let due : p.due_ms ≤ now_ms = ground arith in
          let in_time : p.due_ms ≤ soon = ground arith in
          elim (best_due_lem now_ms (i + 1) ps (some i) p.due_ms) [
            | inl (e, after) ↦ inr (
              0,
              rw taken (e ∙ ap some (omega arith)),
              record {
                p = p;
                stands = refl;
                used = u;
                due = due;
                in_time = in_time;
                first = ((λ v d. omega arith), AllAfter-NoneBefore _ _ ps after);
              },
            )
            | inr (j, e, k) ↦ inr (
              suc j,
              rw taken (e ∙ ap some (omega arith)),
              record {
                p = k.p;
                stands = k.stands;
                used = k.used;
                due = k.due;
                in_time = omega (arith, k.in_time, in_time);
                first = ((λ v d. k.in_time), k.first);
              },
            )
          ]
      | inr passed ↦
          let beyond : p.used ≡ true → p.due_ms ≤ now_ms → soon < p.due_ms = λ u d. ground arith in
          elim (best_due_lem now_ms (i + 1) ps best soon) [
            | inl (e, after) ↦ inl (rw passed e, (beyond, after))
            | inr (j, e, k) ↦ inr (
              suc j,
              rw passed (e ∙ ap some (omega arith)),
              record {
                p = k.p;
                stands = k.stands;
                used = k.used;
                due = k.due;
                in_time = k.in_time;
                first = ((λ u d. omega (arith, beyond u d, k.in_time)), k.first);
              },
            )
          ]
    ]

-- No entry in use is due.
abbrev pub NoneDue : ℕ → List Pend → Type 0
NoneDue now_ms [] = Unit {0}
NoneDue now_ms (p ∷ ps) = (p.used ≡ true → now_ms < p.due_ms) × NoneDue now_ms ps

AllAfter-NoneDue :
    (now_ms : ℕ) (ps : List Pend)
    → now_ms < 2 ^ 32
    → AllAfter now_ms 0xFFFFFFFF ps
    → NoneDue now_ms ps
AllAfter-NoneDue now_ms [] short h = tt
AllAfter-NoneDue now_ms (p ∷ ps) short h = (later, AllAfter-NoneDue now_ms ps short h.1)
  where
    later : p.used ≡ true → now_ms < p.due_ms
    later u = elim (Bool-cases (leb p.due_ms now_ms)) [
      | inl due ↦
          absurd (let le : p.due_ms ≤ now_ms = ground arith in omega (arith, h.0 u le, short))
      | inr not_due ↦ ground arith
    ]

-- Entry `i` alone is no longer in use; nothing else of the rules has changed.
pub record Freed (a : Auto) (i : ℕ) (p : Pend) (a' : Auto) : Type 0 where
  pub rest : a' ≡ record a { pend = a'.pend }
  pub freed : lookup a'.pend i ≡ some (record p { used = false })
  pub others : (j : ℕ) → j ≢ i → lookup a'.pend j ≡ lookup a.pend j

release-freed :
    (ps : List Pend) (i : ℕ) (p : Pend)
    → lookup ps i ≡ some p
    → lookup (release ps i) i ≡ some (record p { used = false })
unfolding release
release-freed [] i p e = cc
release-freed (q ∷ ps) zero p e = rw (some_inj.0 e) refl
release-freed (q ∷ ps) (suc i) p e = release-freed ps i p e

release-others : (ps : List Pend) (i j : ℕ) → j ≢ i → lookup (release ps i) j ≡ lookup ps j
unfolding release
release-others [] i j ne = refl
release-others (q ∷ ps) zero zero ne = absurd (ne refl)
release-others (q ∷ ps) zero (suc j) ne = refl
release-others (q ∷ ps) (suc i) zero ne = refl
release-others (q ∷ ps) (suc i) (suc j) ne = release-others ps i j (λ e. ne (ap suc e))

-- At a time of 32 bits `auto_take_due` answers NOENT and changes nothing where no entry in use is due;
-- otherwise it answers ok with the request of an entry that is in use and due, than which no other such
-- entry is due earlier. That entry is then not in use, its other fields, all other entries and the
-- rest of the state are as they were.
pub auto_take_due_lem :
    (a : Auto)
    → a.now_ms < 2 ^ 32
    → ((auto_take_due a ≡ (Err.noent, none, a)) × NoneDue a.now_ms a.pend)
      ⊎ ((i : ℕ) × (k : Earliest a.now_ms 0xFFFFFFFF a.pend i) × ((auto_take_due a).0 ≡ Err.ok)
          × ((auto_take_due a).1 ≡ some (request k.p))
          × Freed a i k.p (auto_take_due a).2)
unfolding auto_take_due
auto_take_due_lem a short = elim (best_due_lem a.now_ms 0 a.pend none 0xFFFFFFFF) [
  | inl (e, after) ↦ inl (simp (auto_take_due, e), AllAfter-NoneDue a.now_ms a.pend short after)
  | inr (j, e, k) ↦
      let at : best_due a.now_ms 0 a.pend none 0xFFFFFFFF ≡ some j = e ∙ ap some (omega arith) in
      inr (
        j,
        k,
        rw (auto_take_due, at, k.stands) refl,
        rw (auto_take_due, at, k.stands) refl,
        rw (auto_take_due, at, k.stands)
            (record {
              rest = refl;
              freed = release-freed a.pend j k.p k.stands;
              others = release-others a.pend j;
            }),
      )
]
