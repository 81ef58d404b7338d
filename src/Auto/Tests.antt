-- ===== src/Auto/Tests.antt =====
-- The automation rules at concrete inputs.
use stm32h745_disco.Base.{
  ℕ, true, none, some, List, [], ◌∷◌, ◌++◌, ◌≡◌, ◌⊎◌, refl, arith, replicate, Err,
}
use stm32h745_disco.Base.Int.{pos}
use stm32h745_disco.Auto.{
  trig_occupied, act_on, Rule, Pend, Auto, cancel_pending, queue_act, fire_rule, ieee_eq,
  cmd_from_act,
}
use stm32h745_disco.Auto.Table.{request, auto_take_due, free_entry, auto_reset}
use stm32h745_disco.Auto.Due.{Freed, NoneDue, Earliest, auto_take_due_lem}
use stm32h745_disco.Auto.Sizes.{IsValid}
use stm32h745_disco.Auto.Store.{pack_rule, unpack_rule, unpack_rule-pack_rule}
use stm32h745_disco.Auto.Runs.{add, remove, eval, poll, take_due, after_all, auto_reset-IsValid}

abbrev lamp : List ℕ
lamp = 1 ∷ 0 ∷ 0 ∷ 0 ∷ 0 ∷ 0 ∷ 0 ∷ 1 ∷ []

abbrev sensor : List ℕ
sensor = 1 ∷ 0 ∷ 0 ∷ 0 ∷ 0 ∷ 0 ∷ 0 ∷ 4 ∷ []

-- The rule of `seed_motion`.
abbrev motion : Rule
motion = record {
  id = 1;
  enabled = 1;
  name = b'M' ∷ replicate 23 0;
  trig_ieee = sensor;
  trig = trig_occupied;
  thresh = pos 0;
  action_ieee = lamp;
  action = act_on;
  delay_ms = 3000;
}

abbrev busy : ℕ → Pend
busy due = record free_entry { used = true; due_ms = due }

-- With one entry free the lamp is switched on, and the action that switches it off again is dropped.
off_dropped :
    fire_rule 10 motion (replicate 7 (busy 5) ++ free_entry ∷ [])
    ≡ replicate 7 (busy 5)
      ++ record {
        used = true;
        ieee = lamp;
        cmd = record { on = 1; has_level = 0; level = 0 };
        rule_id = 1;
        due_ms = 10;
        toggle = 0;
      }
        ∷ []
unfolding fire_rule cancel_pending queue_act ieee_eq cmd_from_act
off_dropped = refl

abbrev waiting : Auto
waiting = record auto_reset {
  pend = busy 30 ∷ busy 20 ∷ busy 90 ∷ replicate 5 free_entry;
  now_ms = 40;
}

auto_take_due_lem_example :
    ((auto_take_due waiting ≡ (Err.noent, none, waiting)) × NoneDue waiting.now_ms waiting.pend)
    ⊎ ((i : ℕ) × (k : Earliest waiting.now_ms 0xFFFFFFFF waiting.pend i) × ((auto_take_due
            waiting).0
          ≡ Err.ok)
        × ((auto_take_due waiting).1 ≡ some (request k.p))
        × Freed waiting i k.p (auto_take_due waiting).2)
unfolding auto_reset
auto_take_due_lem_example = auto_take_due_lem waiting (omega arith)

auto_reset-IsValid_example : IsValid (
    after_all
      (add (some motion)
        ∷ eval (some (sensor, 0, 1))
        ∷ poll true 0xFFFF 20
        ∷ take_due
        ∷ remove 1
        ∷ [])
      auto_reset)
auto_reset-IsValid_example = auto_reset-IsValid (
    add (some motion) ∷ eval (some (sensor, 0, 1)) ∷ poll true 0xFFFF 20 ∷ take_due ∷ remove 1 ∷ [])

unpack_rule-pack_rule_example : unpack_rule (pack_rule motion) ≡ motion
unpack_rule-pack_rule_example = unpack_rule-pack_rule motion (b'M' ∷ replicate 22 0) (record {
  id = omega arith;
  enabled = omega arith;
  name = refl;
  name_size = refl;
  trig_ieee = refl;
  trig = omega arith;
  thresh_low = omega arith;
  thresh_high = omega arith;
  action_ieee = refl;
  action = omega arith;
  delay_ms = omega arith;
})
