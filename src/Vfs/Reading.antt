-- ===== src/Vfs/Reading.antt =====
-- What a caller of firmware/src/svc/vfs.c may rely on of the reading of a directory.
use stm32h745_disco.Base.{
  ℕ, zero, suc, Bool, true, false, Option, some, List, [], ◌∷◌, ◌/◌, ◌%◌, ◌==◌, ◌≡◌, ◌≢◌, ◌<◌, take,
  inl, inr, refl, ap, arith, Err, is_ok, Bool-cases,
}
use stm32h745_disco.Base.Int.{ℤ}
use stm32h745_disco.Vfs.Fat.{map_fr, Info, Host, Vfs, vfs_dir_max, vfs_lock, locked}
use stm32h745_disco.Vfs.Files.{is_used, slot}
use stm32h745_disco.Vfs.Dirs.{
  Dirent, no_dirent, is_last, is_skipped, next_entry, readdir_unlocked, vfs_readdir,
}
use stm32h745_disco.Vfs.Handles.{vfs_lock-host}

-- FatFs is at the end of the directory: the name is empty or starts with the byte 0xFF.
pub data AtEnd : List ℕ → Type 0 where
  empty : AtEnd []
  blank : (cs : List ℕ) → AtEnd (0xFF ∷ cs)

-- A name that is not the end.
pub data Named : List ℕ → Type 0 where
  named : (c : ℕ) (cs : List ℕ) → c ≢ 0xFF → Named (c ∷ cs)

-- The attribute bit of a volume label, which the parts of long names have as well.
abbrev pub volume_bit : Info → ℕ
volume_bit info = info.fattrib / 8 % 2

-- The entry that a caller gets for what FatFs gave.
pub record Shows (info : Info) (ent : Dirent) : Type 0 where
  pub name : ent.name ≡ take 63 info.fname
  pub is_dir : ent.is_dir ≡ (info.fattrib / 16 % 2 == 1)
  pub size : ent.size ≡ info.fsize

-- What is found in a directory, by the answers of FatFs from the state `h` on: its first error, the end, or the first entry
-- without the volume bit. The entries before it all have the bit.
pub data Finds {H : Type 0} (d : Host H) (i : ℕ) : H → Err × Dirent → H → Type 0 where
  broken :
      (h : H)
      → is_ok (map_fr (d.f_readdir h i).0) ≡ false
      → Finds d i h (map_fr (d.f_readdir h i).0, no_dirent) (d.f_readdir h i).2
  ended :
      (h : H)
      → is_ok (map_fr (d.f_readdir h i).0) ≡ true
      → AtEnd (d.f_readdir h i).1.fname
      → Finds d i h (Err.noent, no_dirent) (d.f_readdir h i).2
  found :
      (h : H) (ent : Dirent)
      → is_ok (map_fr (d.f_readdir h i).0) ≡ true
      → Named (d.f_readdir h i).1.fname
      → volume_bit (d.f_readdir h i).1 ≡ 0
      → Shows (d.f_readdir h i).1 ent
      → Finds d i h (Err.ok, ent) (d.f_readdir h i).2
  passed :
      (h : H) {r : Err × Dirent} {h' : H}
      → is_ok (map_fr (d.f_readdir h i).0) ≡ true
      → Named (d.f_readdir h i).1.fname
      → volume_bit (d.f_readdir h i).1 ≡ 1
      → Finds d i (d.f_readdir h i).2 r h'
      → Finds d i h r h'

-- How a call ends: without the lock, for a directory that is not open or no room for the entry, or else with
-- what is found from the state at the lock on.
pub data Reads {H : Type 0} (d : Host H) (w : Vfs H) (dir : ℤ) (has_ent : Bool)
    : Option (Err × Dirent) → Type 0 where
  no_lock :
      is_ok (vfs_lock d w).0 ≡ false → Reads d w dir has_ent (some ((vfs_lock d w).0, no_dirent))
  bad_dir :
      is_ok (vfs_lock d w).0 ≡ true
      → is_used vfs_dir_max w.dir_used dir ≡ false
      → Reads d w dir has_ent (some (Err.inval, no_dirent))
  no_room :
      is_ok (vfs_lock d w).0 ≡ true
      → has_ent ≡ false
      → Reads d w dir has_ent (some (Err.inval, no_dirent))
  read :
      {r : Err × Dirent} {h' : H}
      → is_ok (vfs_lock d w).0 ≡ true
      → is_used vfs_dir_max w.dir_used dir ≡ true
      → has_ent ≡ true
      → Finds d (slot dir) (vfs_lock d w).1.host r h'
      → Reads d w dir has_ent (some r)

name_end : (name : List ℕ) → is_last name ≡ true → AtEnd name
name_end [] e = empty
name_end (c ∷ cs) e = let p : c ≡ 0xFF = ground (arith, e) in rw p (blank cs)

name_on : (name : List ℕ) → is_last name ≡ false → Named name
name_on [] e = cc
name_on (c ∷ cs) e = named c cs (λ p. absurd (ground (arith, e, p)))

bit_set : (info : Info) → is_skipped info ≡ true → volume_bit info ≡ 1
bit_set info e = ground (arith, e)

bit_clear : (info : Info) → is_skipped info ≡ false → volume_bit info ≡ 0
bit_clear info e = ground (arith, e)

-- The loop ends, with what is found and the state after it.
record Found {H : Type 0} (d : Host H) (i : ℕ) (h : H) (o : Option (Err × Dirent) × H)
    : Type 0 where
  result : Err × Dirent
  there : o.0 ≡ some result
  finds : Finds d i h result o.1

module _ {H : Type 0} (d : Host H) where
  next_entry-Found :
      (left : ℕ → H → ℕ)
      → ((i : ℕ) (h : H)
          → is_ok (map_fr (d.f_readdir h i).0) ≡ true
          → is_last (d.f_readdir h i).1.fname ≡ false
          → left i (d.f_readdir h i).2 < left i h)
      → (fuel i : ℕ) (h : H) → left i h < fuel
      → Found d i h (next_entry d fuel i h)
  unfolding next_entry
  next_entry-Found left down zero i h more = absurd (omega (arith, more))
  next_entry-Found left down (suc fuel) i h more =
      elim (Bool-cases (is_ok (map_fr (d.f_readdir h i).0))) [
        | inr e ↦ rw e (record { result = _; there = refl; finds = broken h e })
        | inl r ↦ elim (Bool-cases (is_last (d.f_readdir h i).1.fname)) [
          | inl l ↦
              rw (r, l) (record { result = _; there = refl; finds = ended h r (name_end _ l) })
          | inr l ↦ elim (Bool-cases (is_skipped (d.f_readdir h i).1)) [
            | inl s ↦
                let rest =
                  next_entry-Found left down fuel i (d.f_readdir h i).2
                    (omega (arith, down i h r l, more)) in
                rw (r, l, s)
                  (record {
                    result = rest.result;
                    there = rest.there;
                    finds = passed h r (name_on _ l) (bit_set (d.f_readdir h i).1 s) rest.finds;
                  })
            | inr s ↦
                rw (r, l, s)
                  (record {
                    result = _;
                    there = refl;
                    finds =
                        found h _ r (name_on _ l) (bit_clear (d.f_readdir h i).1 s)
                          (record { name = refl; is_dir = refl; size = refl });
                  })
          ]
        ]
      ]

  -- If FatFs comes nearer to the end of a directory with each entry that it gives (`left` counts down), and no
  -- directory has `fuel` entries left or more, then the loop of `vfs_readdir` ends. The call fails where the
  -- lock is not had, with the error of the lock, and with INVAL where the directory is not open or there is no
  -- room for the entry. Else it gives what FatFs gave: its first error, NOENT at the end of the directory, or
  -- the name (its first 63 bytes), kind and size of the first entry without the volume bit, every one
  -- before which has that bit.
  pub vfs_readdir-Reads :
      (left : ℕ → H → ℕ) (fuel : ℕ)
      → ((i : ℕ) (h : H)
          → is_ok (map_fr (d.f_readdir h i).0) ≡ true
          → is_last (d.f_readdir h i).1.fname ≡ false
          → left i (d.f_readdir h i).2 < left i h)
      → ((i : ℕ) (h : H) → left i h < fuel)
      → (w : Vfs H) (dir : ℤ) (has_ent : Bool)
      → Reads d w dir has_ent (vfs_readdir d fuel w dir has_ent).0
  unfolding vfs_readdir readdir_unlocked locked
  vfs_readdir-Reads left fuel down enough w dir has_ent =
      let tables : (vfs_lock d w).1.dir_used ≡ w.dir_used =
        ap (λ v. v.dir_used) (vfs_lock-host d w).1 in
      elim (Bool-cases (is_ok (vfs_lock d w).0)) [
        | inr e ↦ rw e (no_lock e)
        | inl l ↦ elim (Bool-cases (is_used vfs_dir_max w.dir_used dir)) [
          | inr e ↦ rw (l, tables, e) (bad_dir l e)
          | inl u ↦ elim (Bool-cases has_ent) [
            | inr e ↦ rw (l, tables, u, e) (no_room l refl)
            | inl r ↦
                let h = (vfs_lock d w).1.host in
                let f = next_entry-Found left down fuel (slot dir) h (enough (slot dir) h) in
                rw (l, tables, u, r, f.there) (read l u refl f.finds)
          ]
        ]
      ]
