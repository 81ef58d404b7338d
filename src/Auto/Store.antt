-- ===== src/Auto/Store.antt =====
-- The bytes of a rule in the file of firmware/src/svc/auto.c.
use stm32h745_disco.Base.{
  ℕ, suc, List, [], ◌∷◌, ◌++◌, ◌+◌, ◌-◌, ◌*◌, ◌/◌, ◌^◌, ◌≤◌, ◌<◌, ◌≡◌, refl, sym, ap, ◌∙◌, arith,
  u8, length, take, drop, get_or, take-append, get_or-append, length-append,
}
use stm32h745_disco.Base.Int.{ℤ, pos, negsuc, pos_part, neg_part, mod_ℤ, wrap_ℤ, i16}
use stm32h745_disco.Auto.{Rule}

unfoldable pub put_le16 : ℕ → List ℕ
put_le16 v = u8 v ∷ u8 (v / 256) ∷ []

unfoldable pub put_le32 : ℕ → List ℕ
put_le32 v = u8 v ∷ u8 (v / 256) ∷ u8 (v / 65536) ∷ u8 (v / 16777216) ∷ []

-- `get_le16` and `get_le32` at a place; the bytes do not overlap, so that `|` is a sum.
unfoldable pub get_le16 : List ℕ → ℕ → ℕ
get_le16 p at = get_or p at 0 + get_or p (at + 1) 0 * 256

unfoldable pub get_le32 : List ℕ → ℕ → ℕ
get_le32 p at =
    get_or p at 0
    + get_or p (at + 1) 0 * 256
    + get_or p (at + 2) 0 * 65536
    + get_or p (at + 3) 0 * 16777216

-- `pack_rule`
unfoldable pub pack_rule : Rule → List ℕ
pack_rule r =
    put_le16 r.id
    ++ u8 r.enabled
      ∷ (r.name
          ++ (r.trig_ieee
              ++ u8 r.trig
                ∷ (put_le16 (mod_ℤ r.thresh 65536)
                    ++ (r.action_ieee ++ u8 r.action ∷ put_le32 r.delay_ms))))

-- `unpack_rule`: a name is cut to 23 bytes and a terminator.
unfoldable pub unpack_rule : List ℕ → Rule
unpack_rule p = record {
  id = get_le16 p 0;
  enabled = get_or p 2 0;
  name = take 23 (drop 3 p) ++ 0 ∷ [];
  trig_ieee = take 8 (drop 27 p);
  trig = get_or p 35 0;
  thresh = i16 (pos (get_le16 p 36));
  action_ieee = take 8 (drop 38 p);
  action = get_or p 46 0;
  delay_ms = get_le32 p 47;
}

-- The fields have the sizes of their C types, and the name ends within its array.
pub record Packs (r : Rule) (text : List ℕ) : Type 0 where
  pub id : r.id < 65536
  pub enabled : r.enabled < 256
  pub name : r.name ≡ text ++ 0 ∷ []
  pub name_size : length text ≡ 23
  pub trig_ieee : length r.trig_ieee ≡ 8
  pub trig : r.trig < 256
  pub thresh_low : neg_part r.thresh ≤ 32768
  pub thresh_high : pos_part r.thresh < 32768
  pub action_ieee : length r.action_ieee ≡ 8
  pub action : r.action < 256
  pub delay_ms : r.delay_ms < 2 ^ 32

i16-mod :
    (t : ℤ)
    → neg_part t ≤ 32768
    → pos_part t < 32768
    → (v : ℕ) → v ≡ mod_ℤ t 65536
    → i16 (pos v) ≡ t
unfolding mod_ℤ wrap_ℤ
i16-mod (pos n) low high v e = let k : v ≡ n = omega (arith, e) in rw k (ground arith)
i16-mod (negsuc n) low high v e = let k : v ≡ 65535 - n = omega (arith, e) in rw k (ground arith)

mod_ℤ-small : (t : ℤ) → mod_ℤ t 65536 < 65536
unfolding mod_ℤ
mod_ℤ-small t = omega arith

-- What stands behind a part of a known length.
get_or-behind :
    (xs ys : List ℕ) (n i : ℕ) → length xs ≡ n → get_or (xs ++ ys) (n + i) 0 ≡ get_or ys i 0
get_or-behind xs ys n i h = ap (λ k. get_or (xs ++ ys) (k + i) 0) (sym h) ∙ get_or-append xs ys i 0

drop-behind : (xs ys : List ℕ) (n i : ℕ) → length xs ≡ n → drop (n + i) (xs ++ ys) ≡ drop i ys
drop-behind [] ys n i h = let e : n + i ≡ i = omega (arith, h) in rw e refl
drop-behind (x ∷ xs) ys n i h =
    let e : n + i ≡ suc (n - 1 + i) = omega (arith, h) in
    rw e (drop-behind xs ys (n - 1) i (omega (arith, h)))

take-part : (xs ys : List ℕ) (n : ℕ) → length xs ≡ n → take n (xs ++ ys) ≡ xs
take-part xs ys n h = ap (λ k. take k (xs ++ ys)) (sym h) ∙ take-append xs ys

append_assoc : (xs ys zs : List ℕ) → (xs ++ ys) ++ zs ≡ xs ++ (ys ++ zs)
append_assoc [] ys zs = refl
append_assoc (x ∷ xs) ys zs = ap (λ l. x ∷ l) (append_assoc xs ys zs)

same_fields :
    (r : Rule) {id enabled : ℕ} {name trig_ieee : List ℕ} {trig : ℕ} {thresh : ℤ}
    {action_ieee : List ℕ} {action delay_ms : ℕ}
    → id ≡ r.id
    → enabled ≡ r.enabled
    → name ≡ r.name
    → trig_ieee ≡ r.trig_ieee
    → trig ≡ r.trig
    → thresh ≡ r.thresh
    → action_ieee ≡ r.action_ieee
    → action ≡ r.action
    → delay_ms ≡ r.delay_ms
    → record {
      id = id;
      enabled = enabled;
      name = name;
      trig_ieee = trig_ieee;
      trig = trig;
      thresh = thresh;
      action_ieee = action_ieee;
      action = action;
      delay_ms = delay_ms;
    }
      ≡ r
same_fields r a b c d e f g h i = rw (a, b, c, d, e, f, g, h, i) refl

-- A rule whose fields have the sizes of their C types, and whose name ends within its array, is read back
-- from its 51 bytes as it was.
pub unpack_rule-pack_rule :
    (r : Rule) (text : List ℕ) → Packs r text → unpack_rule (pack_rule r) ≡ r
unfolding unpack_rule pack_rule put_le16 put_le32 get_le16 get_le32
unpack_rule-pack_rule r text k =
    let tail = u8 r.action ∷ put_le32 r.delay_ms in
    let back = u8 r.trig ∷ (put_le16 (mod_ℤ r.thresh 65536) ++ (r.action_ieee ++ tail)) in
    let named : length r.name ≡ 24 =
      ap length k.name ∙ length-append text (0 ∷ []) ∙ ap (λ n. n + 1) k.name_size in
    let at : (i : ℕ) → get_or (r.name ++ (r.trig_ieee ++ back)) (24 + (8 + i)) 0 ≡ get_or back i 0 =
      λ i.
        get_or-behind r.name _ 24 (8 + i) named ∙ get_or-behind r.trig_ieee back 8 i k.trig_ieee in
    let after : (i : ℕ) → get_or (r.action_ieee ++ tail) (8 + i) 0 ≡ get_or tail i 0 =
      λ i. get_or-behind r.action_ieee tail 8 i k.action_ieee in
    let byte : u8 r.trig ≡ r.trig = omega (arith, k.trig) in
    let byte2 : u8 r.action ≡ r.action = omega (arith, k.action) in
    same_fields r (omega (arith, k.id)) (omega (arith, k.enabled))
      (ap (λ l. take 23 (l ++ (r.trig_ieee ++ back)) ++ 0 ∷ []) k.name
        ∙ ap (λ l. take 23 l ++ 0 ∷ []) (append_assoc text (0 ∷ []) (r.trig_ieee ++ back))
        ∙ ap (λ l. l ++ 0 ∷ []) (take-part text _ 23 k.name_size)
        ∙ sym k.name)
      (ap (take 8) (drop-behind r.name _ 24 0 named) ∙ take-part r.trig_ieee back 8 k.trig_ieee)
      (at 0 ∙ byte) (i16-mod r.thresh k.thresh_low k.thresh_high _ (halves (at 1) (at 2)))
      (ap (take 8) (drop-behind r.name _ 24 11 named ∙ drop-behind r.trig_ieee back 8 3 k.trig_ieee)
        ∙ take-part r.action_ieee tail 8 k.action_ieee)
      (at 11 ∙ after 0 ∙ byte2)
      (quarters (at 12 ∙ after 1) (at 13 ∙ after 2) (at 14 ∙ after 3) (at 15 ∙ after 4))
  where
    halves :
        {a b : ℕ}
        → a ≡ u8 (mod_ℤ r.thresh 65536)
        → b ≡ u8 (mod_ℤ r.thresh 65536 / 256)
        → a + b * 256 ≡ mod_ℤ r.thresh 65536
    halves e f = let small = mod_ℤ-small r.thresh in omega (arith, e, f, small)

    quarters :
        {a b c d : ℕ}
        → a ≡ u8 r.delay_ms
        → b ≡ u8 (r.delay_ms / 256)
        → c ≡ u8 (r.delay_ms / 65536)
        → d ≡ u8 (r.delay_ms / 16777216)
        → a + b * 256 + c * 65536 + d * 16777216 ≡ r.delay_ms
    quarters e f g h = omega (arith, e, f, g, h, k.delay_ms)
