-- ===== src/Auto/Runs.antt =====
-- Any sequence of calls of the rules keeps the sizes of the arrays.
use stm32h745_disco.Base.{
  ℕ, Bool, true, false, Option, none, some, List, [], ◌∷◌, ◌++◌, ◌+◌, ◌^◌, ◌≤◌, ◌<◌, ◌≡◌, ◌∙◌,
  arith, leb, ◌==◌, if◌then◌else◌, not, ◌&&◌, u32, length, length-append, length-replicate,
  Bool-cases, Option-cases, inl, inr,
}
use stm32h745_disco.Auto.{auto_rule_max, auto_pend_max, Rule, Pend, Row, Auto, cancel_pending}
use stm32h745_disco.Auto.Table.{
  auto_eval, auto_poll, auto_add, find_id, auto_set_enabled, auto_remove, best_due, lookup,
  auto_take_due, free_entry, auto_reset,
}
use stm32h745_disco.Auto.Sizes.{
  IsValid, Same, eval_rows-Same, time_rows-Same, cancel_pending-length, switch_row-length,
  remove_row-length, release-length,
}

-- The calls of the interface. `poll` is given whether the rules can be saved and the minute of the day.
pub data Call : Type 0 where
  add : Option Rule → Call
  set_enabled : ℕ → ℕ → Call
  remove : ℕ → Call
  eval : Option (List ℕ × ℕ × ℕ) → Call
  poll : Bool → ℕ → ℕ → Call
  take_due : Call

unfoldable pub after : Call → Auto → Auto
after (add r) a = (auto_add a r).1
after (set_enabled id on) a = (auto_set_enabled a id on).1
after (remove id) a = (auto_remove a id).1
after (eval changed) a = (auto_eval a changed).1
after (poll saved minutes dt_ms) a = auto_poll a saved minutes dt_ms
after take_due a = (auto_take_due a).2

unfoldable pub after_all : List Call → Auto → Auto
after_all [] a = a
after_all (call ∷ calls) a = after_all calls (after call a)

sizes :
    (rows : List Row) (pend : List Pend) (last_id next_id now_ms : ℕ) (dirty : Bool)
    → length rows ≤ auto_rule_max
    → length pend ≡ auto_pend_max
    → now_ms < 2 ^ 32
    → IsValid (record {
      rows = rows;
      pend = pend;
      last_id = last_id;
      next_id = next_id;
      now_ms = now_ms;
      dirty = dirty;
    })
sizes rows pend last_id next_id now_ms dirty h k l = record {
  rules_fit = h;
  pend_size = k;
  now_fits = l;
}

auto_add-IsValid : (a : Auto) (r : Option Rule) → IsValid a → IsValid (auto_add a r).1
unfolding auto_add
auto_add-IsValid a none h = h
auto_add-IsValid a (some r) h = elim (Bool-cases (leb auto_rule_max (length a.rows))) [
  | inl full ↦ simp full h
  | inr room ↦
      let fits : (row : Row) → length (a.rows ++ row ∷ []) ≤ auto_rule_max =
        λ row. ground (arith, length-append a.rows (row ∷ [])) in
      elim (Bool-cases (r.id == 0)) [
        | inl unnamed ↦ simp (room, unnamed) (sizes _ _ _ _ _ _ (fits _) h.pend_size h.now_fits)
        | inr named ↦ elim (Bool-cases (leb a.next_id r.id)) [
          | inl new ↦ simp (room, named, new) (sizes _ _ _ _ _ _ (fits _) h.pend_size h.now_fits)
          | inr old ↦ simp (room, named, old) (sizes _ _ _ _ _ _ (fits _) h.pend_size h.now_fits)
        ]
      ]
]

auto_set_enabled-IsValid : (a : Auto) (id on : ℕ) → IsValid a → IsValid (auto_set_enabled a id on).1
unfolding auto_set_enabled
auto_set_enabled-IsValid a id on h = elim (Option-cases (find_id id a.rows)) [
  | inl missing ↦ simp (auto_set_enabled, missing) h
  | inr (r, found) ↦
      simp (auto_set_enabled, found)
        (sizes _ _ _ _ _ _ (omega (arith, switch_row-length id on a.rows, h.rules_fit))
          (pend_of (on == 0) r) h.now_fits)
]
  where
    pend_of :
        (b : Bool) (r : Rule)
        → length (if b then cancel_pending r.action_ieee a.pend else a.pend) ≡ auto_pend_max
    pend_of true r = cancel_pending-length r.action_ieee a.pend ∙ h.pend_size
    pend_of false r = h.pend_size

auto_remove-IsValid : (a : Auto) (id : ℕ) → IsValid a → IsValid (auto_remove a id).1
unfolding auto_remove
auto_remove-IsValid a id h = elim (Option-cases (find_id id a.rows)) [
  | inl missing ↦ simp (auto_remove, missing) h
  | inr (r, found) ↦
      simp (auto_remove, found)
        (sizes _ _ _ _ _ _ (omega (arith, remove_row-length id a.rows, h.rules_fit))
          (cancel_pending-length r.action_ieee a.pend ∙ h.pend_size) h.now_fits)
]

of_Same :
    {a b : Auto} {rows : List Row}
    → IsValid a
    → Same a a.rows rows b
    → IsValid (record b { rows = rows })
of_Same h k = record {
  rules_fit = omega (arith, k.rows_same, h.rules_fit);
  pend_size = k.pend_same ∙ h.pend_size;
  now_fits = omega (arith, k.now_same, h.now_fits);
}

auto_eval-IsValid :
    (a : Auto) (changed : Option (List ℕ × ℕ × ℕ)) → IsValid a → IsValid (auto_eval a changed).1
unfolding auto_eval
auto_eval-IsValid a none h = h
auto_eval-IsValid a (some (ieee, level, on)) h = of_Same h (eval_rows-Same ieee level on a.rows a)

auto_poll-IsValid :
    (a : Auto) (saved : Bool) (minutes dt_ms : ℕ)
    → IsValid a
    → IsValid (auto_poll a saved minutes dt_ms)
unfolding auto_poll
auto_poll-IsValid a0 saved minutes dt_ms h =
    let a : Auto = record a0 { now_ms = u32 (a0.now_ms + dt_ms); dirty = a0.dirty && not saved } in
    let k : IsValid a = record {
      rules_fit = h.rules_fit;
      pend_size = h.pend_size;
      now_fits = omega arith;
    } in
    elim (Bool-cases (minutes == 0xFFFF)) [
      | inl no_clock ↦ rw no_clock k
      | inr clock ↦ rw clock (of_Same k (time_rows-Same minutes a0.rows a))
    ]

auto_take_due-IsValid : (a : Auto) → IsValid a → IsValid (auto_take_due a).2
unfolding auto_take_due
auto_take_due-IsValid a h = elim (Option-cases (best_due a.now_ms 0 a.pend none 0xFFFFFFFF)) [
  | inl no_due ↦ simp (auto_take_due, no_due) h
  | inr (i, e) ↦ elim (Option-cases (lookup a.pend i)) [
    | inl gone ↦ simp (auto_take_due, e, gone) h
    | inr (p, found) ↦
        simp (auto_take_due, e, found)
          (sizes _ _ _ _ _ _ h.rules_fit (release-length a.pend i ∙ h.pend_size) h.now_fits)
  ]
]

after-IsValid : (call : Call) (a : Auto) → IsValid a → IsValid (after call a)
unfolding after
after-IsValid (add r) a h = auto_add-IsValid a r h
after-IsValid (set_enabled id on) a h = auto_set_enabled-IsValid a id on h
after-IsValid (remove id) a h = auto_remove-IsValid a id h
after-IsValid (eval changed) a h = auto_eval-IsValid a changed h
after-IsValid (poll saved minutes dt_ms) a h = auto_poll-IsValid a saved minutes dt_ms h
after-IsValid take_due a h = auto_take_due-IsValid a h

after_all-IsValid : (calls : List Call) (a : Auto) → IsValid a → IsValid (after_all calls a)
unfolding after_all
after_all-IsValid [] a h = h
after_all-IsValid (call ∷ calls) a h =
    after_all-IsValid calls (after call a) (after-IsValid call a h)

-- After a reset any sequence of calls keeps at most 32 rules and exactly 8 entries for actions, which
-- are the sizes of the arrays, and a clock of 32 bits.
pub auto_reset-IsValid : (calls : List Call) → IsValid (after_all calls auto_reset)
unfolding auto_reset
auto_reset-IsValid calls = after_all-IsValid calls auto_reset (record {
  rules_fit = omega arith;
  pend_size = length-replicate 8 free_entry;
  now_fits = omega arith;
})
