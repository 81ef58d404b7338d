-- ===== src/Auto.antt =====
-- The automation rules of firmware/src/svc/auto.c: the table of the rules and the actions that are due.
pub mod Table
pub mod Due
pub mod Sizes
pub mod Runs
pub mod Store
mod Tests
use stm32h745_disco.Base.{
  ℕ, zero, suc, Bool, true, false, Option, none, some, List, [], ◌∷◌, ◌+◌, ◌-◌, ltb, leb, ◌==◌,
  if◌then◌else◌, not, ◌&&◌, ◌||◌, u32, Err,
}
use stm32h745_disco.Base.Int.{ℤ, pos, ltb_ℤ}

abbrev pub auto_rule_max : ℕ
auto_rule_max = 32

abbrev pub auto_pend_max : ℕ
auto_pend_max = 8

-- `auto_trig_t` and `auto_act_t`, which are numbers: one from a file may be any byte.
abbrev pub trig_on : ℕ
trig_on = 0

abbrev pub trig_occupied : ℕ
trig_occupied = 1

abbrev pub trig_temp_gt : ℕ
trig_temp_gt = 2

abbrev pub trig_time : ℕ
trig_time = 3

abbrev pub act_on : ℕ
act_on = 0

abbrev pub act_off : ℕ
act_off = 1

abbrev pub act_toggle : ℕ
act_toggle = 2

-- `auto_rule_t`; a name is its 24 bytes and an address its eight.
pub record Rule : Type 0 where
  pub id : ℕ
  pub enabled : ℕ
  pub name : List ℕ
  pub trig_ieee : List ℕ
  pub trig : ℕ
  pub thresh : ℤ
  pub action_ieee : List ℕ
  pub action : ℕ
  pub delay_ms : ℕ

-- `home_cmd_t`
pub record HomeCmd : Type 0 where
  pub on : ℕ
  pub has_level : ℕ
  pub level : ℕ

-- `pend_t`
pub record Pend : Type 0 where
  pub used : Bool
  pub ieee : List ℕ
  pub cmd : HomeCmd
  pub rule_id : ℕ
  pub due_ms : ℕ
  pub toggle : ℕ

-- A rule with its entries of `g_latched` and `g_time_fired`.
pub record Row : Type 0 where
  pub rule : Rule
  pub latched : Bool
  pub time_fired : Bool

-- The static variables. The table holds the rows in use, so that `g_n` is its length: what stands behind
-- them is never read.
pub record Auto : Type 0 where
  pub rows : List Row
  pub pend : List Pend
  pub last_id : ℕ
  pub next_id : ℕ
  pub now_ms : ℕ
  pub dirty : Bool

-- `ieee_eq`
unfoldable pub ieee_eq : List ℕ → List ℕ → Bool
ieee_eq [] [] = true
ieee_eq [] (y ∷ ys) = false
ieee_eq (x ∷ xs) [] = false
ieee_eq (x ∷ xs) (y ∷ ys) = x == y && ieee_eq xs ys

-- `cmd_from_act`
unfoldable pub cmd_from_act : ℕ → HomeCmd
cmd_from_act act = record { on = if act == act_off then 0 else 1; has_level = 0; level = 0 }

-- `cancel_pending`
unfoldable pub cancel_pending : List ℕ → List Pend → List Pend
cancel_pending ieee [] = []
cancel_pending ieee (p ∷ ps) =
    (if p.used && ieee_eq p.ieee ieee then record p { used = false } else p)
    ∷ cancel_pending ieee ps

-- `queue_act`: the first free entry is taken.
unfoldable pub queue_act : List ℕ → ℕ → ℕ → ℕ → List Pend → Err × List Pend
queue_act ieee act due rule_id [] = (Err.nospc, [])
queue_act ieee act due rule_id (p ∷ ps) =
    let (e, qs) = queue_act ieee act due rule_id ps in
    if not p.used
    then (
      Err.ok,
      record {
        used = true;
        ieee = ieee;
        cmd = cmd_from_act act;
        rule_id = rule_id;
        due_ms = due;
        toggle = if act == act_toggle then 1 else 0;
      }
          ∷ ps,
    )
    else (e, p ∷ qs)

-- `fire_rule`
unfoldable pub fire_rule : ℕ → Rule → List Pend → List Pend
fire_rule now_ms r pend =
    let p1 = cancel_pending r.action_ieee pend in
    let later = u32 (now_ms + r.delay_ms) in
    let p2 = (queue_act r.action_ieee act_on now_ms r.id p1).1 in
    if r.action == act_on
    then (if ltb 0 r.delay_ms then (queue_act r.action_ieee act_off later r.id p2).1 else p2)
    else (queue_act r.action_ieee r.action (if ltb 0 r.delay_ms then later else now_ms) r.id p1).1
