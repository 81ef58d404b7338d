-- ===== src/Vfs/Path/Parent.antt =====
-- Joining a name to a directory and taking the parent undo one another.
use stm32h745_disco.Base.{
  ℕ, zero, suc, true, false, List, [], ◌∷◌, ◌++◌, ◌+◌, ◌-◌, ◌≤◌, ◌<◌, ◌≡◌, refl, sym, ap, ap₂,
  subst, ◌∙◌, arith, ◌||◌, ◌==◌, if◌then◌else◌, ltb, leb, Err, value, error, ◌>>=◌, >>=-eq-value,
  guard-eq-value, Bool-cases, inl, inr, length, take, get_or, length-append, take-append,
  get_or-append,
}
use mathlib.Core.List.{append_assoc}
use stm32h745_disco.Vfs.Path.{
  slash, dot, bytes_eq, normalize, is_user_root, path_join, join_name, separator, copy, path_parent,
  parent_of, last_slash, in_user_jail, has_separator, ends_with_slash, jail_prefix, vfs_path_max,
  cons_result, has_prefix,
}
use stm32h745_disco.Vfs.Path.Jail.{bytes_eq_sound, has_prefix-append}
use stm32h745_disco.Vfs.Path.Safe.{IsSafe, normalize_iff, cons_result-eq}

-- A copy that succeeds writes the string, and stays below the end of `tmp`.
copy-eq :
    (slack o : ℕ) (s r : List ℕ)
    → 0 < slack
    → o < vfs_path_max
    → copy slack o s ≡ value r
    → (r ≡ s) × (o + length s < vfs_path_max)
unfolding copy
copy-eq slack o [] r p h e = (ground arith, omega arith)
copy-eq slack o (c ∷ cs) r p h e = elim (Bool-cases (leb vfs_path_max (o + slack))) [
  | inl full ↦ let f : error Err.nospc ≡ value r = rw (full, copy) at e in cc
  | inr room ↦
      let f : cons_result c (copy slack (o + 1) cs) ≡ value r = rw (room, copy) at e in
      let (r', er, eq) = cons_result-eq c (copy slack (o + 1) cs) r f in
      let ih = copy-eq slack (o + 1) cs r' p (ground arith) er in
      (eq ∙ ap (λ l. c ∷ l) ih.0, omega (arith, ih.1))
]

separator-eq :
    (d s : List ℕ)
    → separator d ≡ value s
    → ends_with_slash d ≡ false
    → (s ≡ slash ∷ []) × (length d + 2 < vfs_path_max)
unfolding separator
separator-eq d s e open_end =
    let f : (if leb vfs_path_max (length d + 2) then error Err.nospc else value (slash ∷ []))
        ≡ value s =
      rw open_end at e in
    let g = guard-eq-value (leb vfs_path_max (length d + 2)) Err.nospc (value (slash ∷ [])) f in
    (ground arith, ground arith)

join_name-eq :
    (d name q : List ℕ) (out_sz : ℕ)
    → join_name d name out_sz ≡ value q
    → ends_with_slash d ≡ false
    → (q ≡ d ++ slash ∷ name) × IsSafe q × (length q < vfs_path_max) × (length q < out_sz)
unfolding join_name
join_name-eq d name q out_sz e open_end =
    let (s, es, e1) =
      >>=-eq-value (separator d)
        (λ s. copy 1 (length (d ++ s)) name >>= λ n. normalize ((d ++ s) ++ n) out_sz) e in
    let (n, en, e2) =
      >>=-eq-value (copy 1 (length (d ++ s)) name) (λ n. normalize ((d ++ s) ++ n) out_sz) e1 in
    let sep = separator-eq d s es open_end in
    let size : length (d ++ s) ≡ length d + 1 =
      length-append d s ∙ ap (λ l. length d + length l) sep.0 in
    let named = copy-eq 1 (length (d ++ s)) name n (omega arith) (omega (arith, sep.1, size)) en in
    let norm = (normalize_iff ((d ++ s) ++ n) q out_sz).0 e2 in
    let whole : q ≡ d ++ slash ∷ name =
      norm.0 ∙ append_assoc d s n ∙ ap₂ (λ a b. d ++ (a ++ b)) sep.0 named.0 in
    (
      whole,
      subst IsSafe (sym norm.0) norm.1,
      omega (arith, ap length whole, length-append d (slash ∷ name), named.1, size),
      omega (arith, norm.2, ap length norm.0),
    )

-- A join that succeeds on a directory with no slash at its end gives the directory, a slash and the
-- name: a safe path, which fits both `tmp` and the buffer; and the name has no separator.
pub path_join-eq :
    (d name q : List ℕ) (out_sz : ℕ)
    → path_join d name out_sz ≡ value q
    → ends_with_slash d ≡ false
    → (q ≡ d ++ slash ∷ name)
      × IsSafe q
      × (length q < vfs_path_max)
      × (length q < out_sz)
      × (has_separator name ≡ false)
unfolding path_join
path_join-eq d name q out_sz e open_end =
    let last = copy 2 0 d >>= λ d. join_name d name out_sz in
    let third = if has_separator name then error Err.denied else last in
    let dots = bytes_eq name (dot ∷ []) || bytes_eq name (dot ∷ dot ∷ []) in
    let g1 =
      guard-eq-value (length name == 0) Err.denied (if dots then error Err.denied else third) e in
    let g2 = guard-eq-value dots Err.denied third g1.1 in
    let g3 = guard-eq-value (has_separator name) Err.denied last g2.1 in
    let (d', ed, e4) = >>=-eq-value (copy 2 0 d) (λ d. join_name d name out_sz) g3.1 in
    let same = (copy-eq 2 0 d d' (omega arith) (omega arith) ed).0 in
    let j =
      join_name-eq d name q out_sz (subst (λ l. join_name l name out_sz ≡ value q) same e4)
        open_end in
    (j.0, j.1, j.2, j.3, g3.0)

no_separator :
    (name : List ℕ) (k : ℕ) → has_separator name ≡ false → (get_or name k 0 == slash) ≡ false
no_separator [] k h = refl
no_separator (c ∷ cs) zero h = ground arith
no_separator (c ∷ cs) (suc k) h = no_separator cs k (ground arith)

-- The scan from the end stops at the slash before a name that has none.
last_slash_lem :
    (d name : List ℕ) (k m : ℕ)
    → has_separator name ≡ false
    → m ≡ suc (length d + k)
    → last_slash (d ++ slash ∷ name) m ≡ suc (length d)
unfolding last_slash
last_slash_lem d name k zero h e = absurd (omega arith)
last_slash_lem d name zero (suc m) h e =
    let here : (get_or (d ++ slash ∷ name) m 0 == slash) ≡ true =
      ap (λ k. get_or (d ++ slash ∷ name) k 0 == slash) (omega arith)
      ∙ ap (λ c. c == slash) (get_or-append d (slash ∷ name) 0 0) in
    rw here (omega arith)
last_slash_lem d name (suc k) (suc m) h e =
    let there : (get_or (d ++ slash ∷ name) m 0 == slash) ≡ false =
      ap (λ k. get_or (d ++ slash ∷ name) k 0 == slash) (omega arith)
      ∙ ap (λ c. c == slash) (get_or-append d (slash ∷ name) (suc k) 0)
      ∙ no_separator name k h in
    rw there (last_slash_lem d name k m h (omega arith))

user_root_length : (p : List ℕ) → is_user_root p ≡ true → 5 ≤ length p
unfolding is_user_root
user_root_length p h =
    let a : has_prefix jail_prefix p ≡ true = ground arith in
    omega (arith, ap length (has_prefix-append jail_prefix p a))

parent_of_lem :
    (q d : List ℕ) (room : ℕ)
    → last_slash q (length q) ≡ suc (length d)
    → bytes_eq q jail_prefix ≡ false
    → take (length d) q ≡ d
    → 5 ≤ length d
    → length d < room
    → is_user_root d ≡ true
    → parent_of q room ≡ value d
unfolding parent_of in_user_jail
parent_of_lem q d room last other up long fits jail =
    let n : suc (length d) - 1 ≡ length d = omega arith in
    let nonzero : (suc (length d) == 0) ≡ false = ground arith in
    let deep : (length d == 0) ≡ false = ground arith in
    let roomy : ltb room (length d + 1) ≡ false = ground arith in
    rw (last, other, n, nonzero, deep, roomy, up, jail) refl

-- Whatever `vfs_path_join` puts below a directory of the jail that does not end in a slash,
-- `vfs_path_parent` gives that directory back, in any buffer that holds it.
pub path_parent-path_join :
    (d name q : List ℕ) (out_sz room : ℕ)
    → path_join d name out_sz ≡ value q
    → is_user_root d ≡ true
    → ends_with_slash d ≡ false
    → length d < room
    → path_parent q room ≡ value d
unfolding path_parent
path_parent-path_join d name q out_sz room e jail open_end fits =
    let j = path_join-eq d name q out_sz e open_end in
    let norm : normalize q vfs_path_max ≡ value q =
      (normalize_iff q q vfs_path_max).1 (refl, j.1, j.2, omega arith) in
    let long : 5 ≤ length d = user_root_length d jail in
    let size : length q ≡ suc (length d + length name) =
      ap length j.0 ∙ length-append d (slash ∷ name) ∙ omega arith in
    let last : last_slash q (length q) ≡ suc (length d) =
      ap (λ l. last_slash l (length q)) j.0
      ∙ last_slash_lem d name (length name) (length q) j.4 size in
    let other : bytes_eq q jail_prefix ≡ false = differs q (omega arith) in
    let up : take (length d) q ≡ d = ap (take (length d)) j.0 ∙ take-append d (slash ∷ name) in
    rw norm (parent_of_lem q d room last other up long fits jail)
  where
    differs : (q : List ℕ) → 5 < length q → bytes_eq q jail_prefix ≡ false
    differs q k = elim (Bool-cases (bytes_eq q jail_prefix)) [
      | inl y ↦ absurd (omega (arith, ap length (bytes_eq_sound q jail_prefix y)))
      | inr n ↦ n
    ]
