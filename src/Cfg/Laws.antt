-- ===== src/Cfg/Laws.antt =====
-- The settings stay in their ranges, and what was saved is what is loaded.
use stm32h745_disco.Base.{
  ℕ, Bool, true, false, List, [], ◌∷◌, ◌≤◌, ◌≡◌, refl, arith, ltb, ◌==◌, not, ◌&&◌, ◌||◌, length,
  get_or, is_ok, Bool-cases, inl, inr, ◌⊎◌,
}
use stm32h745_disco.Cfg.{
  Disk, Cfg, cfg_size, vfs_o_rd, vfs_o_save, clamp_u8, defaults, cfg_bytes, has_magic, loaded,
  persist_save, persist_load, cfg_init, cfg_poll, commit, cfg_set_brightness, cfg_set_volume,
  cfg_set_zb_channel, cfg_set_join_s, cfg_reset,
}

-- Every setting is in the range that its setter keeps to.
pub record InRange (c : Cfg) : Type 0 where
  pub bright_from : 10 ≤ c.bright
  pub bright_to : c.bright ≤ 100
  pub vol_to : c.vol ≤ 100
  pub ch_from : 11 ≤ c.ch
  pub ch_to : c.ch ≤ 26
  pub join_from : 1 ≤ c.join
  pub join_to : c.join ≤ 254

clamp_bounds : (v lo hi : ℕ) → lo ≤ hi → (lo ≤ clamp_u8 v lo hi) × (clamp_u8 v lo hi ≤ hi)
unfolding clamp_u8
clamp_bounds v lo hi h = ground arith

pub clamp_same : (v lo hi : ℕ) → lo ≤ v → v ≤ hi → clamp_u8 v lo hi ≡ v
unfolding clamp_u8
clamp_same v lo hi p q = ground arith

-- A call of the settings.
pub data Call : Type 0 where
  init reset poll : Call
  brightness volume zb_channel join_s : ℕ → Call

-- What holds of the bare numbers of a state.
abbrev Numbers : ℕ → ℕ → ℕ → ℕ → Type 0
Numbers b v c j = (10 ≤ b) × (b ≤ 100) × (v ≤ 100) × (11 ≤ c) × (c ≤ 26) × (1 ≤ j) × (j ≤ 254)

Numbers-InRange : {c : Cfg} → Numbers c.bright c.vol c.ch c.join → InRange c
Numbers-InRange n = record {
  bright_from = n.0;
  bright_to = n.1;
  vol_to = n.2;
  ch_from = n.3;
  ch_to = n.4;
  join_from = n.5;
  join_to = n.6;
}

InRange-loaded : (c : Cfg) (buf : List ℕ) → InRange (loaded c buf)
unfolding loaded
InRange-loaded c buf =
    let b = clamp_bounds (get_or buf 4 0) 10 100 (omega arith) in
    let v = clamp_bounds (get_or buf 5 0) 0 100 (omega arith) in
    let n = clamp_bounds (get_or buf 6 0) 11 26 (omega arith) in
    let j = clamp_bounds (get_or buf 7 0) 1 254 (omega arith) in
    Numbers-InRange (b.0, b.1, v.1, n.0, n.1, j.0, j.1)

-- Another readiness or dirtiness changes no number.
pub InRange-flags : {c : Cfg} (r f : Bool) → InRange c → InRange (record c { ready = r; dirty = f })
InRange-flags r f h =
    Numbers-InRange
      (h.bright_from, h.bright_to, h.vol_to, h.ch_from, h.ch_to, h.join_from, h.join_to)

InRange-defaults : (c : Cfg) (r : Bool) → InRange (record (defaults c) { ready = r })
unfolding defaults
InRange-defaults c r =
    Numbers-InRange
      (omega arith, omega arith, omega arith, omega arith, omega arith, omega arith, omega arith)

module _ {S : Type 0} (d : Disk S) where
  -- A save changes nothing but the mark of unsaved changes.
  save_cases :
      (c : Cfg) (s : S)
      → ((persist_save d c s).1 ≡ c) ⊎ ((persist_save d c s).1 ≡ record c { dirty = false })
  unfolding persist_save
  save_cases c s = elim (Bool-cases (d.vfs_mounted s)) [
    | inr absent ↦ simp absent (inl refl)
    | inl present ↦ elim (Bool-cases (is_ok (d.vfs_open s vfs_o_save).0)) [
      | inr failed ↦ simp (present, failed) (inl refl)
      | inl opened ↦
          let w =
            d.vfs_write (d.vfs_open s vfs_o_save).2 (d.vfs_open s vfs_o_save).1 (cfg_bytes c) in
          elim (Bool-cases (not (is_ok w.0) || not (w.1 == cfg_size))) [
            | inl short ↦ simp (present, opened, short) (inl refl)
            | inr whole ↦ simp (present, opened, whole) (inr refl)
          ]
    ]
  ]

  -- A load takes all settings from the file, or none.
  load_cases :
      (c : Cfg) (s : S)
      → ((persist_load d c s).1 ≡ c) ⊎ ((buf : List ℕ) × ((persist_load d c s).1 ≡ loaded c buf))
  unfolding persist_load
  load_cases c s = elim (Bool-cases (d.vfs_mounted s)) [
    | inr absent ↦ simp absent (inl refl)
    | inl present ↦ elim (Bool-cases (is_ok (d.vfs_open s vfs_o_rd).0)) [
      | inr failed ↦ simp (present, failed) (inl refl)
      | inl opened ↦
          let r = d.vfs_read (d.vfs_open s vfs_o_rd).2 (d.vfs_open s vfs_o_rd).1 cfg_size in
          elim (Bool-cases (not (is_ok r.0) || ltb (length r.1) cfg_size)) [
            | inl short ↦ simp (present, opened, short) (inl refl)
            | inr whole ↦ elim (Bool-cases (has_magic r.1)) [
              | inr other ↦ simp (present, opened, whole, other) (inl refl)
              | inl good ↦ simp (present, opened, whole, good) (inr (r.1, refl))
            ]
          ]
    ]
  ]

  InRange-persist_save : {c : Cfg} (s : S) → InRange c → InRange (persist_save d c s).1
  InRange-persist_save {c} s h = elim (save_cases c s) [
    | inl same ↦ rw same h
    | inr saved ↦ rw saved (InRange-flags c.ready false h)
  ]

  InRange-persist_load : {c : Cfg} (s : S) → InRange c → InRange (persist_load d c s).1
  InRange-persist_load {c} s h = elim (load_cases c s) [
    | inl same ↦ rw same h
    | inr (buf, taken) ↦ rw taken (InRange-loaded c buf)
  ]

  -- The settings and the file system after a call.
  unfoldable pub after : Call → Cfg → S → Cfg × S
  after init c s = cfg_init d c s
  after reset c s = (cfg_reset c, s)
  after poll c s = cfg_poll d c s
  after (brightness v) c s = let (e, c', s') = cfg_set_brightness d c s v in (c', s')
  after (volume v) c s = let (e, c', s') = cfg_set_volume d c s v in (c', s')
  after (zb_channel v) c s = let (e, c', s') = cfg_set_zb_channel d c s v in (c', s')
  after (join_s v) c s = let (e, c', s') = cfg_set_join_s d c s v in (c', s')

  unfoldable pub after_all : List Call → Cfg → S → Cfg × S
  after_all [] c s = (c, s)
  after_all (call ∷ calls) c s = let (c', s') = after call c s in after_all calls c' s'

  InRange-after : (call : Call) {c : Cfg} (s : S) → InRange c → InRange (after call c s).0
  unfolding after cfg_init cfg_reset cfg_poll cfg_set_brightness cfg_set_volume cfg_set_zb_channel
      cfg_set_join_s commit
  InRange-after init {c} s h = InRange-persist_load s (InRange-defaults c true)
  InRange-after reset {c} s h = InRange-defaults c false
  InRange-after poll {c} s h = elim (Bool-cases (c.ready && c.dirty)) [
    | inl due ↦ rw due (InRange-persist_save s h)
    | inr clean ↦ rw clean h
  ]
  InRange-after (brightness v) {c} s h =
      let b = clamp_bounds v 10 100 (omega arith) in
      InRange-persist_save s
        (Numbers-InRange (b.0, b.1, h.vol_to, h.ch_from, h.ch_to, h.join_from, h.join_to))
  InRange-after (volume v) {c} s h =
      let b = clamp_bounds v 0 100 (omega arith) in
      InRange-persist_save s (
        Numbers-InRange
          (h.bright_from, h.bright_to, b.1, h.ch_from, h.ch_to, h.join_from, h.join_to))
  InRange-after (zb_channel v) {c} s h =
      let b = clamp_bounds v 11 26 (omega arith) in
      InRange-persist_save s
        (Numbers-InRange (h.bright_from, h.bright_to, h.vol_to, b.0, b.1, h.join_from, h.join_to))
  InRange-after (join_s v) {c} s h =
      let b = clamp_bounds v 1 254 (omega arith) in
      InRange-persist_save s
        (Numbers-InRange (h.bright_from, h.bright_to, h.vol_to, h.ch_from, h.ch_to, b.0, b.1))

  -- Whatever the file system does and whatever the file holds, after any sequence of calls of the
  -- settings that begins with all of them in their ranges, all of them are.
  pub after_all-InRange :
      (calls : List Call) {c : Cfg} (s : S) → InRange c → InRange (after_all calls c s).0
  unfolding after_all
  after_all-InRange [] s h = h
  after_all-InRange (call ∷ calls) {c} s h =
      after_all-InRange calls (after call c s).1 (InRange-after call s h)
