-- ===== src/Auto/Sizes.antt =====
-- The table of the rules and the pending actions stay within their arrays.
use stm32h745_disco.Base.{
  ℕ, zero, suc, Bool, true, false, List, [], ◌∷◌, ◌+◌, ◌^◌, ◌≤◌, ◌<◌, ◌≡◌, refl, ap, ◌∙◌, arith,
  ltb, ◌==◌, if◌then◌else◌, not, ◌&&◌, u32, length, Bool-cases, inl, inr,
}
use stm32h745_disco.Auto.{
  auto_rule_max, auto_pend_max, act_on, act_off, Rule, Pend, Row, Auto, cancel_pending, queue_act,
  fire_rule,
}
use stm32h745_disco.Auto.Table.{
  match_attr, fired, eval_rows, time_rows, switch_row, remove_row, release,
}

-- The arrays have the sizes that auto.h gives them, and the clock is a 32-bit number.
pub record IsValid (a : Auto) : Type 0 where
  pub rules_fit : length a.rows ≤ auto_rule_max
  pub pend_size : length a.pend ≡ auto_pend_max
  pub now_fits : a.now_ms < 2 ^ 32

pub cancel_pending-length :
    (ieee : List ℕ) (ps : List Pend) → length (cancel_pending ieee ps) ≡ length ps
unfolding cancel_pending
cancel_pending-length ieee [] = refl
cancel_pending-length ieee (p ∷ ps) = ap suc (cancel_pending-length ieee ps)

queue_act-length :
    (ieee : List ℕ) (act : ℕ) (due rule_id : ℕ) (ps : List Pend)
    → length (queue_act ieee act due rule_id ps).1 ≡ length ps
unfolding queue_act
queue_act-length ieee act due rule_id [] = refl
queue_act-length ieee act due rule_id (p ∷ ps) = elim (Bool-cases p.used) [
  | inl used ↦ simp used (ap suc (queue_act-length ieee act due rule_id ps))
  | inr free ↦ simp free
]

fire_rule-length :
    (now_ms : ℕ) (r : Rule) (ps : List Pend) → length (fire_rule now_ms r ps) ≡ length ps
unfolding fire_rule
fire_rule-length now_ms r ps =
    let c = cancel_pending-length r.action_ieee ps in
    let p1 = cancel_pending r.action_ieee ps in
    let on = queue_act-length r.action_ieee act_on now_ms r.id p1 in
    let p2 = (queue_act r.action_ieee act_on now_ms r.id p1).1 in
    let off = queue_act-length r.action_ieee act_off (u32 (now_ms + r.delay_ms)) r.id p2 in
    elim (Bool-cases (r.action == act_on)) [
      | inl switches ↦ elim (Bool-cases (ltb 0 r.delay_ms)) [
        | inl later ↦ rw (switches, later) (off ∙ on ∙ c)
        | inr once ↦ rw (switches, once) (on ∙ c)
      ]
      | inr other ↦ rw other (queue_act-length r.action_ieee r.action _ r.id p1 ∙ c)
    ]

-- The loops over the rows keep their number, the size of the pending actions and the clock.
pub record Same (a : Auto) (rows : List Row) (rows' : List Row) (b : Auto) : Type 0 where
  pub rows_same : length rows' ≡ length rows
  pub pend_same : length b.pend ≡ length a.pend
  pub now_same : b.now_ms ≡ a.now_ms

fired_pend :
    (test : Bool) (a : Auto) (r : Rule)
    → length (if test then fired a r else a).pend ≡ length a.pend
unfolding fired
fired_pend true a r = fire_rule-length a.now_ms r a.pend
fired_pend false a r = refl

fired_now : (test : Bool) (a : Auto) (r : Rule) → (if test then fired a r else a).now_ms ≡ a.now_ms
unfolding fired
fired_now true a r = refl
fired_now false a r = refl

pub eval_rows-Same :
    (ieee : List ℕ) (level on : ℕ) (rows : List Row) (a : Auto)
    → Same a rows (eval_rows ieee level on rows a).1 (eval_rows ieee level on rows a).2
unfolding eval_rows
eval_rows-Same ieee level on [] a = record { rows_same = refl; pend_same = refl; now_same = refl }
eval_rows-Same ieee level on (row ∷ rows) a =
    let test = not (row.rule.enabled == 0) && (match_attr row.rule ieee level on row.latched).0 in
    let k = eval_rows-Same ieee level on rows (if test then fired a row.rule else a) in
    record {
      rows_same = ap suc k.rows_same;
      pend_same = k.pend_same ∙ fired_pend test a row.rule;
      now_same = k.now_same ∙ fired_now test a row.rule;
    }

pub time_rows-Same :
    (minutes : ℕ) (rows : List Row) (a : Auto)
    → Same a rows (time_rows minutes rows a).0 (time_rows minutes rows a).1
unfolding time_rows
time_rows-Same minutes [] a = record { rows_same = refl; pend_same = refl; now_same = refl }
time_rows-Same minutes (row ∷ rows) a =
    let k = time_rows-Same minutes rows _ in
    record {
      rows_same = ap suc k.rows_same;
      pend_same = k.pend_same ∙ fired_pend _ a row.rule;
      now_same = k.now_same ∙ fired_now _ a row.rule;
    }

pub switch_row-length : (id on : ℕ) (rows : List Row) → length (switch_row id on rows) ≡ length rows
unfolding switch_row
switch_row-length id on [] = refl
switch_row-length id on (row ∷ rows) = elim (Bool-cases (row.rule.id == id)) [
  | inl found ↦ simp found
  | inr other ↦ simp other (ap suc (switch_row-length id on rows))
]

pub remove_row-length : (id : ℕ) (rows : List Row) → length (remove_row id rows) ≤ length rows
unfolding remove_row
remove_row-length id [] = omega arith
remove_row-length id (row ∷ rows) =
    let k = remove_row-length id rows in
    elim (Bool-cases (row.rule.id == id)) [
      | inl found ↦ rw found (omega arith)
      | inr other ↦ rw other (omega (arith, k))
    ]

pub release-length : (ps : List Pend) (i : ℕ) → length (release ps i) ≡ length ps
unfolding release
release-length [] i = refl
release-length (p ∷ ps) zero = refl
release-length (p ∷ ps) (suc i) = ap suc (release-length ps i)
