-- ===== src/Vfs/Protocol/Tests.antt =====
-- Runs under the watch of a host.
use stm32h745_disco.Base.{
  ℕ, Bool, true, false, some, List, [], ◌∷◌, ◌≡◌, refl, arith, Err, is_ok, if◌then◌else◌, ◌<◌,
  Bool-cases, inl, inr,
}
use stm32h745_disco.Base.Int.{pos}
use mathlib.Core.Bool.{true≢false}
use stm32h745_disco.Vfs.Path.{normalize, scan, check, keep_jailed, is_user_root, jail_rel}
use stm32h745_disco.Vfs.Fat.{map_fr, Vfs, vfs_file_max, to_fat, locked, vfs_lock, vfs_unlock}
use stm32h745_disco.Vfs.Files.{alloc, open_unlocked, vfs_open, vfs_close}
use stm32h745_disco.Vfs.Dirs.{is_last, vfs_readdir}
use stm32h745_disco.Vfs.Handles.{Opens, vfs_open-Opens, vfs_close-vfs_open}
use stm32h745_disco.Vfs.Reading.{Reads, vfs_readdir-Reads}
use stm32h745_disco.Vfs.Protocol.Calls.{Call, after_all, after_all-Protocol}
use stm32h745_disco.Vfs.Protocol.Watched.{Monitor, watched, IsFree, watched-Protocol}

abbrev free_4 : List Bool
free_4 = false ∷ false ∷ false ∷ false ∷ []

abbrev free_2 : List Bool
free_2 = false ∷ false ∷ []

abbrev start : Vfs Monitor
start = record {
  mounted = false;
  did_format = false;
  fil_used = free_4;
  dir_used = free_2;
  host = record {
    held = false;
    files = free_4;
    dirs = free_2;
    fine = true;
    more = true;
    running = true;
    made = false;
  };
}

abbrev user_a : List ℕ
user_a = b'/' ∷ b'u' ∷ b's' ∷ b'e' ∷ b'r' ∷ b'/' ∷ b'a' ∷ []

abbrev calls : List Call
calls =
    Call.vfs_mount_call
    ∷ Call.vfs_open_call user_a 6
    ∷ Call.vfs_write_call (pos 0) (some (1 ∷ 2 ∷ []))
    ∷ Call.vfs_read_call (pos 7) true 4
    ∷ Call.vfs_close_call (pos 0)
    ∷ Call.vfs_close_call (pos 0)
    ∷ Call.vfs_rename_call user_a (b'/' ∷ [])
    ∷ []

after_all-Protocol_example :
    IsFree
      (after_all watched calls start).fil_used
      (after_all watched calls start).dir_used
      (after_all watched calls start).host
after_all-Protocol_example =
    after_all-Protocol watched watched-Protocol calls start
      (record { fine = refl; lock = refl; boot = refl; files = refl; dirs = refl })

abbrev mounted : Vfs Monitor
mounted = record start { mounted = true }

vfs_open-Opens_example :
    let r = vfs_open watched mounted user_a 6 in
    Opens vfs_file_max mounted.fil_used r.0 r.1.fil_used × (r.1.dir_used ≡ mounted.dir_used)
vfs_open-Opens_example = vfs_open-Opens watched mounted user_a 6 refl

user_a_opened : (vfs_open watched mounted user_a 6).0 ≡ (Err.ok, pos 0)
unfolding vfs_open to_fat normalize scan check keep_jailed is_user_root jail_rel locked vfs_lock
    open_unlocked alloc map_fr
user_a_opened = refl

user_a_lock : is_ok (vfs_lock watched (vfs_open watched mounted user_a 6).1).0 ≡ true
unfolding vfs_lock vfs_unlock vfs_open to_fat normalize keep_jailed scan check is_user_root jail_rel
    locked open_unlocked alloc map_fr
user_a_lock = refl

vfs_close-vfs_open_example :
    let v = (vfs_open watched mounted user_a 6).1 in
    ((vfs_close watched v (pos 0)).1.fil_used ≡ mounted.fil_used)
    × ((vfs_close watched v (pos 0)).1.dir_used ≡ mounted.dir_used)
vfs_close-vfs_open_example =
    vfs_close-vfs_open watched mounted user_a 6 (pos 0) refl user_a_opened user_a_lock

abbrev left : ℕ → Monitor → ℕ
left i h = if h.more then 1 else 0

left_down :
    (i : ℕ) (h : Monitor)
    → is_ok (map_fr (watched.f_readdir h i).0) ≡ true
    → is_last (watched.f_readdir h i).1.fname ≡ false
    → left i (watched.f_readdir h i).2 < left i h
left_down i h r l = elim (Bool-cases h.more) [
  | inl e ↦ rw e (omega arith)
  | inr e ↦ absurd (true≢false (rw e at l))
]

left_short : (i : ℕ) (h : Monitor) → left i h < 2
left_short i h = ground arith

abbrev listing : Vfs Monitor
listing = record mounted { dir_used = true ∷ false ∷ [] }

vfs_readdir-Reads_example :
    Reads watched listing (pos 0) true (vfs_readdir watched 2 listing (pos 0) true).0
vfs_readdir-Reads_example =
    vfs_readdir-Reads watched left 2 left_down left_short listing (pos 0) true
