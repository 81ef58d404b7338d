-- ===== src/Ipc/Ring/Live.antt =====
-- The slots between the two counters, in the order in which they will be read.
use stm32h745_disco.Base.{
  ℕ, zero, suc, ◌+◌, ◌-◌, ◌%◌, ◌≤◌, ◌<◌, ◌≡◌, ◌≢◌, ◌⊎◌, refl, ap, ap₂, ◌∙◌, List, [], ◌∷◌, ◌++◌,
  arith, u16, inl, inr, length, get_or, set, get_or-set_self, get_or-set_ne,
}
use stm32h745_disco.Base.Rem.{mod-ne}
use stm32h745_disco.Ipc.Ring.{Slot, Ring, zero_slot, used_raw}
use native.Mathlib.Nat.{mod-mod_of_dvd, dvd_of_mod-eq-zero}

-- The slots of the positions `pos`, `pos + 1`, …, each position a 16-bit counter.
abbrev pub live : List Slot → ℕ → ℕ → ℕ → List Slot
live slots cap pos zero = []
live slots cap pos (suc n) = get_or slots (u16 pos % cap) zero_slot ∷ live slots cap (pos + 1) n

abbrev pub live_slots : Ring → List Slot
live_slots r = live r.slots r.nslots r.tail (used_raw r)

module _ (slots : List Slot) (cap : ℕ) where
  pub length-live : (pos n : ℕ) → length (live slots cap pos n) ≡ n
  length-live pos zero = refl
  length-live pos (suc n) = ap suc (length-live (pos + 1) n)

  pub live-u16 : (p q n : ℕ) → u16 p ≡ u16 q → live slots cap p n ≡ live slots cap q n
  live-u16 p q zero e = refl
  live-u16 p q (suc n) e =
      ap₂ ◌∷◌ (ap (λ k. get_or slots (k % cap) zero_slot) e)
        (live-u16 (p + 1) (q + 1) n (omega arith))

  -- `live` matches on `suc`, the code tests `used == 0`.
  pub live_of_ne_zero :
      (pos n : ℕ)
      → n ≢ 0
      → live slots cap pos n
        ≡ get_or slots (u16 pos % cap) zero_slot ∷ live slots cap (pos + 1) (n - 1)
  live_of_ne_zero pos zero p = absurd (p refl)
  live_of_ne_zero pos (suc n) p = ap (λ k. live slots cap pos (suc k)) (omega arith)

  -- A write at the index of the next position appends, if that index is none of those in use.
  pub live-set :
      (w pos n : ℕ) (s : Slot)
      → w < length slots
      → w ≡ u16 (pos + n) % cap
      → ((i : ℕ) → i < n → w ≢ u16 (pos + i) % cap)
      → live (set slots w s) cap pos (suc n) ≡ live slots cap pos n ++ s ∷ []
  live-set w pos zero s h e free =
      let here : w ≡ u16 pos % cap = e ∙ ap (λ k. u16 k % cap) (omega arith) in
      rw (← here, get_or-set_self slots w s zero_slot h)
  live-set w pos (suc n) s h e free =
      ap₂ ◌∷◌
        (get_or-set_ne slots w (u16 pos % cap) s zero_slot (step 0 pos (omega arith) (omega arith)))
        (live-set w (pos + 1) n s h (e ∙ ap (λ k. u16 k % cap) (omega arith))
          (λ i p. step (i + 1) (pos + 1 + i) (omega arith) (omega arith)))
    where
      step : (i q : ℕ) → i < suc n → q ≡ pos + i → w ≢ u16 q % cap
      step i q p d = rw d (free i p)

-- The counter's wrap does not disturb the indices: it has not come yet, or it falls on the end of
-- a round.
abbrev pub IsSteady : Ring → Type 0
IsSteady r = (r.tail ≤ r.head) ⊎ (65536 % r.nslots ≡ 0)

-- Under that condition the index of a position in use, or of the next one, is its plain remainder.
pub index-add :
    (r : Ring) (i : ℕ)
    → IsSteady r
    → r.head < 65536
    → r.tail < 65536
    → i ≤ used_raw r
    → u16 (r.tail + i) % r.nslots ≡ (r.tail + i) % r.nslots
index-add r i (inl p) hh ht h = ap (λ k. k % r.nslots) (omega arith)
index-add r i (inr e) hh ht h = mod-mod_of_dvd r.nslots (r.tail + i) (dvd_of_mod-eq-zero r.nslots e)

-- So the next index is none of those in use.
pub head_free :
    (r : Ring) (i : ℕ)
    → IsSteady r
    → r.head < 65536
    → r.tail < 65536
    → used_raw r < r.nslots
    → i < used_raw r
    → r.head % r.nslots ≢ u16 (r.tail + i) % r.nslots
head_free r i st hh ht h k =
    let n = used_raw r in
    let top : r.head ≡ u16 (r.tail + n) = omega arith in
    let split : r.tail + n ≡ r.tail + i + (n - i) = omega arith in
    rw (index-add r i st hh ht (omega arith)) (
      rw top (
        rw (index-add r n st hh ht (omega arith))
          (rw split (mod-ne (r.tail + i) (n - i) r.nslots (omega arith) (omega arith)))))
