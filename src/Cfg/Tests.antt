-- ===== src/Cfg/Tests.antt =====
-- The settings over a file system that keeps one file in memory.
use stm32h745_disco.Base.{
  ℕ, true, false, Option, none, some, List, [], ◌∷◌, ◌≡◌, refl, arith, ◌==◌, if◌then◌else◌, length,
  take, Err,
}
use stm32h745_disco.Cfg.{
  Disk, Cfg, cfg_init, commit, cfg_set_volume, persist_save, persist_load, defaults, clamp_u8,
  cfg_bytes,
}
use stm32h745_disco.Cfg.Laws.{init, poll, volume, zb_channel, InRange, after_all, after_all-InRange}
use stm32h745_disco.Cfg.Saved.{Written, cfg_init-commit}

abbrev open_file : Option (List ℕ) → ℕ → Err × ℕ × Option (List ℕ)
open_file none flags = if flags == 14 then (Err.ok, 3, some []) else (Err.noent, 0, none)
open_file (some b) flags = if flags == 14 then (Err.ok, 3, some []) else (Err.ok, 3, some b)

abbrev read_file : Option (List ℕ) → ℕ → Err × List ℕ × Option (List ℕ)
read_file none n = (Err.io, [], none)
read_file (some b) n = (Err.ok, take n b, some b)

abbrev ram : Disk (Option (List ℕ))
ram = record {
  vfs_mounted = λ s. true;
  vfs_open = open_file;
  vfs_write = λ s fd b. (Err.ok, length b, some b);
  vfs_read = λ s fd n. read_file s n;
  vfs_close = λ s fd. (Err.ok, s);
}

abbrev old : Cfg
old = record { ready = false; dirty = false; bright = 100; vol = 35; ch = 20; join = 60 }

old-InRange : InRange old
old-InRange = record {
  bright_from = omega arith;
  bright_to = omega arith;
  vol_to = omega arith;
  ch_from = omega arith;
  ch_to = omega arith;
  join_from = omega arith;
  join_to = omega arith;
}

volume_saved :
    (cfg_set_volume ram old none 250).2
    ≡ some (b'C' ∷ b'F' ∷ b'G' ∷ b'1' ∷ 100 ∷ 100 ∷ 20 ∷ 60 ∷ [])
unfolding cfg_set_volume commit persist_save clamp_u8 cfg_bytes
volume_saved = refl

old_saved : (commit ram old none).0 ≡ Err.ok
unfolding commit persist_save cfg_bytes
old_saved = refl

after_all-InRange_example :
    InRange
      (after_all ram (init ∷ volume 250 ∷ poll ∷ zb_channel 3 ∷ init ∷ []) old (some (7 ∷ []))).0
after_all-InRange_example =
    after_all-InRange ram (init ∷ volume 250 ∷ poll ∷ zb_channel 3 ∷ init ∷ []) (some (7 ∷ []))
      old-InRange

-- A file system on which the flush at the close fails, and the file is empty after it.
abbrev no_flush : Disk (Option (List ℕ))
no_flush = record ram { vfs_close = λ s fd. (Err.io, some []) }

-- The save answers `ok` and is done with, and the next start has the defaults.
lost_save :
    let (e, c, s) = commit no_flush old none in
    (e ≡ Err.ok) × (c.dirty ≡ false) × ((cfg_init no_flush old s).0.vol ≡ 70)
unfolding commit persist_save cfg_bytes cfg_init persist_load defaults
lost_save = (refl, refl, refl)

cfg_init-commit_example :
    let file = (commit ram old none).2 in
    Written ram none (cfg_bytes old)
    × ((cfg_init ram (record old { vol = 0 }) file).0 ≡ record old { ready = true; dirty = false })
unfolding commit persist_save cfg_bytes
cfg_init-commit_example =
    cfg_init-commit ram (record old { vol = 0 }) none (commit ram old none).2 old-InRange old_saved
      refl refl refl refl
