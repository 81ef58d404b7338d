-- ===== src/Auto/Table.antt =====
-- The calls of firmware/src/svc/auto.c on the table and on the pending actions.
use stm32h745_disco.Base.{
  ℕ, zero, suc, Bool, true, false, Option, none, some, List, [], ◌∷◌, ◌++◌, ◌+◌, leb, ◌==◌,
  if◌then◌else◌, not, ◌&&◌, ◌||◌, u16, u32, length, replicate, Err,
}
use stm32h745_disco.Base.Int.{ℤ, pos, ltb_ℤ, i16}
use stm32h745_disco.Auto.{
  auto_rule_max, auto_pend_max, trig_on, trig_occupied, trig_temp_gt, trig_time, Rule, HomeCmd,
  Pend, Row, Auto, ieee_eq, cancel_pending, fire_rule,
}

-- The latch of `match_attr`: whether it fires, and what it is afterwards.
unfoldable pub latch : Bool → Bool → Bool × Bool
latch holds latched = if holds then (not latched, true) else (false, false)

-- `match_attr` on a device with an address, a level and a state.
unfoldable pub match_attr : Rule → List ℕ → ℕ → ℕ → Bool → Bool × Bool
match_attr r ieee level on latched =
    if r.trig == trig_time
    then (false, latched)
    else if not (ieee_eq r.trig_ieee ieee)
    then (false, latched)
    else if r.trig == trig_temp_gt
    then latch (ltb_ℤ r.thresh (pos level)) latched
    else if r.trig == trig_on || r.trig == trig_occupied
    then latch (not (on == 0)) latched
    else (false, latched)

-- A rule that fires: `g_last_id` and the actions.
unfoldable pub fired : Auto → Rule → Auto
fired a r = record a { last_id = r.id; pend = fire_rule a.now_ms r a.pend }

-- The loop of `auto_eval` over the rows; the table is put together again from the rows it has passed.
unfoldable pub eval_rows : List ℕ → ℕ → ℕ → List Row → Auto → Bool × List Row × Auto
eval_rows ieee level on [] a = (false, [], a)
eval_rows ieee level on (row ∷ rows) a =
    let (hit, latched) = match_attr row.rule ieee level on row.latched in
    let enabled = not (row.rule.enabled == 0) in
    let (any, rest, b) =
      eval_rows ieee level on rows (if enabled && hit then fired a row.rule else a) in
    (enabled && hit || any, (if enabled then record row { latched = latched } else row) ∷ rest, b)

-- `auto_eval` of a device that has changed.
unfoldable pub auto_eval : Auto → Option (List ℕ × ℕ × ℕ) → Err × Auto
auto_eval a none = (Err.inval, a)
auto_eval a (some (ieee, level, on)) =
    let (hit, rows, b) = eval_rows ieee level on a.rows a in
    (if hit then Err.ok else Err.noent, record b { rows = rows })

abbrev pub same_ℤ : ℤ → ℤ → Bool
same_ℤ a b = not (ltb_ℤ a b) && not (ltb_ℤ b a)

-- The loop of `auto_poll`, at a minute of the day.
unfoldable pub time_rows : ℕ → List Row → Auto → List Row × Auto
time_rows minutes [] a = ([], a)
time_rows minutes (row ∷ rows) a =
    let watched = not (row.rule.enabled == 0) && row.rule.trig == trig_time in
    let now = same_ℤ row.rule.thresh (i16 (pos minutes)) in
    let fires = watched && (now && not row.time_fired) in
    let (rest, b) = time_rows minutes rows (if fires then fired a row.rule else a) in
    ((if watched then record row { time_fired = now } else row) ∷ rest, b)

-- `auto_poll`, where `saved` says whether saving the rules would succeed, and `minutes` is what
-- `clock_minutes` gives.
unfoldable pub auto_poll : Auto → Bool → ℕ → ℕ → Auto
auto_poll a0 saved minutes dt_ms =
    let a = record a0 { now_ms = u32 (a0.now_ms + dt_ms); dirty = a0.dirty && not saved } in
    let (rows, b) = time_rows minutes a.rows a in
    if minutes == 0xFFFF then a else record b { rows = rows }

-- `auto_add`
unfoldable pub auto_add : Auto → Option Rule → Err × Auto
auto_add a none = (Err.inval, a)
auto_add a (some r) =
    let own : Row = record { rule = r; latched = false; time_fired = false } in
    let given : Row = record {
      rule = record r { id = a.next_id };
      latched = false;
      time_fired = false;
    } in
    if leb auto_rule_max (length a.rows)
    then (Err.nospc, a)
    else if r.id == 0
    then (
      Err.ok,
      record a { rows = a.rows ++ given ∷ []; next_id = u16 (a.next_id + 1); dirty = true },
    )
    else if leb a.next_id r.id
    then (Err.ok, record a { rows = a.rows ++ own ∷ []; next_id = u16 (r.id + 1); dirty = true })
    else (Err.ok, record a { rows = a.rows ++ own ∷ []; dirty = true })

-- `find_id`, as the rule that it finds.
unfoldable pub find_id : ℕ → List Row → Option Rule
find_id id [] = none
find_id id (row ∷ rows) = if row.rule.id == id then some row.rule else find_id id rows

-- The first rule with an id is switched.
unfoldable pub switch_row : ℕ → ℕ → List Row → List Row
switch_row id on [] = []
switch_row id on (row ∷ rows) =
    if row.rule.id == id
    then record row { rule = record row.rule { enabled = if on == 0 then 0 else 1 } } ∷ rows
    else row ∷ switch_row id on rows

-- `auto_set_enabled`
unfoldable pub auto_set_enabled : Auto → ℕ → ℕ → Err × Auto
auto_set_enabled a id on = elim (find_id id a.rows) [
  | none ↦ (Err.noent, a)
  | some r ↦ (
    Err.ok,
    record a {
      rows = switch_row id on a.rows;
      pend = if on == 0 then cancel_pending r.action_ieee a.pend else a.pend;
      dirty = true;
    },
  )
]

-- The loop of `auto_remove` moves the rows behind the first one with an id down by one.
unfoldable pub remove_row : ℕ → List Row → List Row
remove_row id [] = []
remove_row id (row ∷ rows) = if row.rule.id == id then rows else row ∷ remove_row id rows

-- `auto_remove`
unfoldable pub auto_remove : Auto → ℕ → Err × Auto
auto_remove a id = elim (find_id id a.rows) [
  | none ↦ (Err.noent, a)
  | some r ↦ (
    Err.ok,
    record a {
      rows = remove_row id a.rows;
      pend = cancel_pending r.action_ieee a.pend;
      dirty = true;
    },
  )
]

-- The loop of `auto_take_due` from the entry `i` on: `best` and `soon`.
unfoldable pub best_due : ℕ → ℕ → List Pend → Option ℕ → ℕ → Option ℕ
best_due now_ms i [] best soon = best
best_due now_ms i (p ∷ ps) best soon =
    let taken = best_due now_ms (i + 1) ps (some i) p.due_ms in
    let passed = best_due now_ms (i + 1) ps best soon in
    if p.used && (leb p.due_ms now_ms && leb p.due_ms soon) then taken else passed

-- `auto_act_req_t`
pub record ActReq : Type 0 where
  pub ieee : List ℕ
  pub cmd : HomeCmd
  pub rule_id : ℕ
  pub toggle : ℕ

abbrev pub request : Pend → ActReq
request p = record { ieee = p.ieee; cmd = p.cmd; rule_id = p.rule_id; toggle = p.toggle }

abbrev pub lookup : List Pend → ℕ → Option Pend
lookup [] i = none
lookup (p ∷ ps) zero = some p
lookup (p ∷ ps) (suc i) = lookup ps i

-- `g_pend[i].used = 0u`
unfoldable pub release : List Pend → ℕ → List Pend
release [] i = []
release (p ∷ ps) zero = record p { used = false } ∷ ps
release (p ∷ ps) (suc i) = p ∷ release ps i

-- `auto_take_due` into a request that is not NULL.
unfoldable pub auto_take_due : Auto → Err × Option ActReq × Auto
auto_take_due a = elim (best_due a.now_ms 0 a.pend none 0xFFFFFFFF) [
  | none ↦ (Err.noent, none, a)
  | some i ↦ elim (lookup a.pend i) [
    | none ↦ (Err.noent, none, a)
    | some p ↦ (Err.ok, some (request p), record a { pend = release a.pend i })
  ]
]

abbrev pub free_entry : Pend
free_entry = record {
  used = false;
  ieee = replicate 8 0;
  cmd = record { on = 0; has_level = 0; level = 0 };
  rule_id = 0;
  due_ms = 0;
  toggle = 0;
}

-- `auto_reset`
unfoldable pub auto_reset : Auto
auto_reset = record {
  rows = [];
  pend = replicate auto_pend_max free_entry;
  last_id = 0;
  next_id = 1;
  now_ms = 0;
  dirty = false;
}
