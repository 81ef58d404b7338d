-- ===== src/Health/Watchdog.antt =====
-- When the watchdog of firmware/src/svc/health.c runs out.
use stm32h745_disco.Base.{
  ℕ, Bool, true, false, List, [], ◌∷◌, ◌+◌, ◌<◌, ◌≡◌, refl, ◌∙◌, arith, ltb, ◌||◌, u32, sub32,
  Bool-cases, inl, inr,
}
use stm32h745_disco.Health.{
  Health, health_init, health_reset, health_kick, health_poll, health_note_peer, health_mark_oom,
}

pub data Call : Type 0 where
  kick mark_oom : Call
  poll : ℕ → Call
  note_peer : Bool → Call

unfoldable pub after_all : Health → List Call → Health
after_all h [] = h
after_all h (kick ∷ cs) = after_all (health_kick h) cs
after_all h (mark_oom ∷ cs) = after_all (health_mark_oom h) cs
after_all h (poll dt_ms ∷ cs) = after_all (health_poll h dt_ms) cs
after_all h (note_peer ok ∷ cs) = after_all (health_note_peer h ok) cs

-- Whether, `since` milliseconds after a kick, the calls to come have a poll more than 8 seconds after the last kick.
abbrev pub is_late : ℕ → List Call → Bool
is_late since [] = false
is_late since (kick ∷ cs) = is_late 0 cs
is_late since (poll dt_ms ∷ cs) = ltb 8000 (since + dt_ms) || is_late (since + dt_ms) cs
is_late since (c ∷ cs) = is_late since cs

-- The time between two kicks has 32 bits.
abbrev pub Within32 : ℕ → List Call → Type 0
Within32 since [] = Unit {0}
Within32 since (kick ∷ cs) = Within32 0 cs
Within32 since (poll dt_ms ∷ cs) = (since + dt_ms < 4294967296) × Within32 (since + dt_ms) cs
Within32 since (c ∷ cs) = Within32 since cs

-- The record `since` milliseconds after a kick.
record Since (since : ℕ) (h : Health) : Type 0 where
  ready : h.ready ≡ true
  elapsed : sub32 h.now_ms h.last_kick ≡ since
  now : h.now_ms < 4294967296
  last : h.last_kick < 4294967296

or_true : (b : Bool) → true ≡ (b || true)
or_true true = refl
or_true false = refl

or_false : (b : Bool) → b ≡ (b || false)
or_false true = refl
or_false false = refl

poll-Since :
    (since dt_ms : ℕ) (h : Health)
    → since + dt_ms < 4294967296
    → Since since h
    → Since (since + dt_ms) (health_poll h dt_ms)
      × ((health_poll h dt_ms).expired ≡ (h.expired || ltb 8000 (since + dt_ms)))
unfolding health_poll
poll-Since since dt_ms h b s =
    let e : sub32 (u32 (h.now_ms + dt_ms)) h.last_kick ≡ since + dt_ms =
      omega (arith, b, s.elapsed, s.now, s.last) in
    elim (Bool-cases (ltb 8000 (since + dt_ms))) [
      | inl late ↦
          rw (s.ready, e, late)
            (
              record { ready = refl; elapsed = e; now = omega arith; last = s.last },
              or_true h.expired,
            )
      | inr early ↦
          rw (s.ready, e, early)
            (
              record { ready = refl; elapsed = e; now = omega arith; last = s.last },
              or_false h.expired,
            )
    ]

expired_after :
    (since : ℕ) (cs : List Call) (h : Health)
    → Within32 since cs
    → Since since h
    → (after_all h cs).expired ≡ (h.expired || is_late since cs)
unfolding after_all health_kick health_mark_oom health_note_peer
expired_after since [] h w s = ground arith
expired_after since (kick ∷ cs) h w s = rw s.ready (
    expired_after 0 cs (record h { ready = true; last_kick = h.now_ms }) w
      (record { ready = refl; elapsed = omega (arith, s.now); now = s.now; last = s.now }))
expired_after since (mark_oom ∷ cs) h w s =
    expired_after since cs _ w
      (record { ready = s.ready; elapsed = s.elapsed; now = s.now; last = s.last })
expired_after since (note_peer ok ∷ cs) h w s =
    expired_after since cs _ w
      (record { ready = s.ready; elapsed = s.elapsed; now = s.now; last = s.last })
expired_after since (poll dt_ms ∷ cs) h w s =
    let (t, e) = poll-Since since dt_ms h w.0 s in
    expired_after (since + dt_ms) cs (health_poll h dt_ms) w.1 t ∙ rw e (ground arith)

-- After `health_init`, any sequence of polls, kicks and notes leaves the watchdog expired just when some poll came more
-- than 8000 ms after the last kick (or the start), also across the wrap of the clock after 2 ^ 32 ms, if
-- less than 2 ^ 32 ms pass without a kick.
pub health_init-expired :
    (iwdg1rstf borrstf : Bool) (h : Health) (cs : List Call)
    → Within32 0 cs
    → (after_all (health_init iwdg1rstf borrstf h).1 cs).expired ≡ is_late 0 cs
unfolding health_init health_reset
health_init-expired iwdg1rstf borrstf h cs w =
    expired_after 0 cs _ w
      (record { ready = refl; elapsed = refl; now = omega arith; last = omega arith })
