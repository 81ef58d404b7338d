-- ===== src/Cfg/Saved.antt =====
-- What has been saved is what the next start loads.
use stm32h745_disco.Base.{
  ℕ, true, false, List, ◌≡◌, refl, sym, ◌∙◌, arith, ltb, ◌==◌, length, take, Err, is_ok, Bool-cases,
  inl, inr,
}
use stm32h745_disco.Cfg.{
  Disk, Cfg, cfg_size, vfs_o_rd, vfs_o_save, defaults, cfg_bytes, has_magic, loaded, persist_save,
  persist_load, cfg_init, commit,
}
use stm32h745_disco.Cfg.Laws.{InRange, InRange-flags, clamp_same}

-- A volume was mounted, the file was opened to be written from its start, and took all of the bytes.
pub record Written {S : Type 0} (d : Disk S) (s : S) (bytes : List ℕ) : Type 0 where
  pub present : d.vfs_mounted s ≡ true
  pub opened : (d.vfs_open s vfs_o_save).0 ≡ Err.ok
  pub good : let (e, fd, s1) = d.vfs_open s vfs_o_save in (d.vfs_write s1 fd bytes).0 ≡ Err.ok
  pub whole :
      let (e, fd, s1) = d.vfs_open s vfs_o_save in (d.vfs_write s1 fd bytes).1 ≡ length bytes

ok_of : (e : Err) → is_ok e ≡ true → e ≡ Err.ok
ok_of e h = ground arith

loaded-cfg_bytes :
    (c' : Cfg) {c : Cfg}
    → InRange c
    → loaded c' (cfg_bytes c) ≡ record c { ready = c'.ready; dirty = false }
unfolding loaded cfg_bytes
loaded-cfg_bytes c' {c} h =
    rw
      (
        clamp_same c.bright 10 100 h.bright_from h.bright_to,
        clamp_same c.vol 0 100 (omega arith) h.vol_to,
        clamp_same c.ch 11 26 h.ch_from h.ch_to,
        clamp_same c.join 1 254 h.join_from h.join_to,
      )
      refl

has_magic-cfg_bytes : (c : Cfg) → has_magic (cfg_bytes c) ≡ true
unfolding cfg_bytes
has_magic-cfg_bytes c = refl

take-cfg_bytes :
    (c : Cfg) → (take cfg_size (cfg_bytes c) ≡ cfg_bytes c) × (length (cfg_bytes c) ≡ cfg_size)
unfolding cfg_bytes
take-cfg_bytes c = (refl, refl)

module _ {S : Type 0} (d : Disk S) where
  -- A file with the bytes of some settings is loaded.
  load_bytes :
      (c' : Cfg) (s : S) (c : Cfg)
      → d.vfs_mounted s ≡ true
      → let (opened, fd, s1) = d.vfs_open s vfs_o_rd in
        opened ≡ Err.ok
        → (d.vfs_read s1 fd cfg_size).0 ≡ Err.ok
        → (d.vfs_read s1 fd cfg_size).1 ≡ cfg_bytes c
        → (persist_load d c' s).1 ≡ loaded c' (cfg_bytes c)
  unfolding persist_load
  load_bytes c' s c present opened good bytes =
      let long : ltb (length (cfg_bytes c)) cfg_size ≡ false =
        ground (arith, (take-cfg_bytes c).1) in
      simp (present, opened, good, bytes, long, has_magic-cfg_bytes c)

  -- Where a save answers `ok`, the file has been written.
  save_ok : (c : Cfg) (s : S) → (persist_save d c s).0 ≡ Err.ok → Written d s (cfg_bytes c)
  unfolding persist_save
  save_ok c s h =
      let open_e = (d.vfs_open s vfs_o_save).0 in
      let w = d.vfs_write (d.vfs_open s vfs_o_save).2 (d.vfs_open s vfs_o_save).1 (cfg_bytes c) in
      elim (Bool-cases (d.vfs_mounted s)) [
        | inr absent ↦ let f : Err.io ≡ Err.ok = simp absent at h in cc
        | inl present ↦ elim (Bool-cases (is_ok open_e)) [
          | inr failed ↦
              let f : open_e ≡ Err.ok = simp (present, failed) at h in
              let g : is_ok open_e ≡ true = rw f refl in cc
          | inl opened ↦ elim (Bool-cases (is_ok w.0)) [
            | inr bad ↦
                let f : w.0 ≡ Err.ok = simp (present, opened, bad) at h in
                let g : is_ok w.0 ≡ true = rw f refl in cc
            | inl good ↦ elim (Bool-cases (w.1 == cfg_size)) [
              | inr short ↦
                  let f : Err.nospc ≡ Err.ok = simp (present, opened, good, short) at h in cc
              | inl whole ↦ record {
                present = present;
                opened = ok_of open_e opened;
                good = ok_of w.0 good;
                whole =
                    let size = (take-cfg_bytes c).1 in
                    let put : w.1 ≡ cfg_size = ground arith in put ∙ sym size;
              }
            ]
          ]
        ]
      ]

  -- Settings in their ranges that a setter has saved with the answer `ok` have gone to the file as a whole, on a
  -- mounted volume and from the start of the file; and a start at which the file can be opened and read, and still
  -- has these bytes, takes the same settings from it, whatever was in the variables before. What
  -- closing the file answered is not looked at, so `ok` does not promise that the bytes are still there.
  pub cfg_init-commit :
      (c' : Cfg) {c : Cfg} (s t : S)
      → InRange c
      → (commit d c s).0 ≡ Err.ok
      → d.vfs_mounted t ≡ true
      → (d.vfs_open t vfs_o_rd).0 ≡ Err.ok
      → (let (e, fd, t1) = d.vfs_open t vfs_o_rd in (d.vfs_read t1 fd cfg_size).0 ≡ Err.ok)
      → (let (e, fd, t1) = d.vfs_open t vfs_o_rd in (d.vfs_read t1 fd cfg_size).1 ≡ cfg_bytes c)
      → Written d s (cfg_bytes c) × ((cfg_init d c' t).0 ≡ record c { ready = true; dirty = false })
  unfolding cfg_init commit cfg_bytes
  cfg_init-commit c' {c} s t h saved there reopened readable bytes =
      let c1 = record c { ready = true; dirty = true } in
      let start : Cfg = record (defaults c') { ready = true } in
      (
        save_ok c1 s saved,
        load_bytes start t c1 there reopened readable bytes
            ∙ loaded-cfg_bytes start {c = c1} (InRange-flags true true h),
      )
