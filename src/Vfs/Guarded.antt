-- ===== src/Vfs/Guarded.antt =====
-- What reaches FatFs: paths of its volume that stay below the root, whatever the caller asks for.
use stm32h745_disco.Base.{
  ℕ, true, List, [], ◌∷◌, ◌++◌, ◌+◌, ◌≡◌, inl, inr, refl, sym, ap, subst, ◌∙◌, arith, ltb, length,
  Err, Result, value, >>=-eq-value, guard-eq-value,
}
use stm32h745_disco.Vfs.Path.{slash, jail_prefix, normalize, jail_rel, vfs_path_max, is_absolute}
use stm32h745_disco.Vfs.Path.Segments.{segments, AllNamed, RestNamed, segments_view}
use stm32h745_disco.Vfs.Path.Safe.{IsPlain, normalize_iff}
use stm32h745_disco.Vfs.Path.Jail.{user, jail_rel_lem}
use stm32h745_disco.Vfs.Fat.{to_fat, fat_max}

-- A path of drive 0 that is absolute and plain, and has no ".." and no empty segment but the last.
pub record InVolume (fat : List ℕ) : Type 0 where
  pub rel : List ℕ
  pub shape : fat ≡ b'0' ∷ b':' ∷ rel
  pub absolute : is_absolute rel ≡ true
  pub plain : IsPlain rel
  pub named : RestNamed (segments rel)

IsPlain-drop : (xs ys : List ℕ) → IsPlain (xs ++ ys) → IsPlain ys
IsPlain-drop [] ys h = h
IsPlain-drop (x ∷ xs) ys h = IsPlain-drop xs ys h.2

below_slash :
    (cs : List ℕ)
    → RestNamed (segments (jail_prefix ++ slash ∷ cs))
    → RestNamed (segments (slash ∷ cs))
unfolding segments
below_slash cs h =
    let (s, ss, eq, b) = segments_view cs in
    let k : AllNamed (user ∷ s ∷ ss) = rw eq at h in rw eq (k.2)

root_named : RestNamed (segments (slash ∷ []))
unfolding segments
root_named e = cc

-- Below the jail the segments are those of the path.
named_below :
    (r : List ℕ)
    → is_absolute r ≡ true
    → RestNamed (segments (jail_prefix ++ r))
    → RestNamed (segments r)
named_below [] a h = cc
named_below (c ∷ cs) a h =
    let k : c ≡ slash = ground arith in
    subst (λ c. RestNamed (segments (c ∷ cs))) (sym k)
      (below_slash cs (subst (λ c. RestNamed (segments (jail_prefix ++ c ∷ cs))) k h))

value_inj : {x y : List ℕ} → (Result.value x) ≡ value y → x ≡ y
value_inj e = ground arith

pub to_fat-InVolume : (path fat : List ℕ) → to_fat path fat_max ≡ value fat → InVolume fat
unfolding to_fat
to_fat-InVolume path fat e =
    let (norm, en, e1) = >>=-eq-value (normalize path vfs_path_max) _ e in
    let (same, safe, short, room) = (normalize_iff path norm vfs_path_max).0 en in
    let (rel, er, e2) = >>=-eq-value (jail_rel norm vfs_path_max) _ e1 in
    let (fits, e3) =
      guard-eq-value (ltb fat_max (length rel + 3)) Err.nospc (value (b'0' ∷ b':' ∷ rel)) e2 in
    let (r, er2, absolute, shape) =
      jail_rel_lem path vfs_path_max safe.jailed (omega arith) (omega (arith, short)) in
    let rr : r ≡ rel = value_inj (sym er2 ∙ ap (λ p. jail_rel p vfs_path_max) (sym same) ∙ er) in
    let there : fat ≡ b'0' ∷ b':' ∷ r = value_inj (sym e3) ∙ ap (λ l. b'0' ∷ b':' ∷ l) (sym rr) in
    elim shape [
      | inl p ↦ record {
        rel = r;
        shape = there;
        absolute = absolute;
        plain = IsPlain-drop jail_prefix r (subst IsPlain p safe.plain);
        named = named_below r absolute (subst (λ l. RestNamed (segments l)) p safe.named);
      }
      | inr (p, root) ↦ record {
        rel = slash ∷ [];
        shape = there ∙ ap (λ l. b'0' ∷ b':' ∷ l) root;
        absolute = refl;
        plain = (omega arith, (λ q. absurd (omega arith)), tt);
        named = root_named;
      }
    ]
