-- ===== src/Vfs/Path/Jail.antt =====
-- A normalized path stays below "/user" however its segments are resolved.
use stm32h745_disco.Base.{
  ℕ, ◌+◌, ◌≤◌, ◌<◌, ltb, ◌⊎◌, ◌==◌, not, value, error, Err, true, false, List, [], ◌∷◌, ◌++◌, ◌≡◌,
  ◌≢◌, refl, sym, ap, ◌∙◌, arith, ◌||◌, if◌then◌else◌, Bool-cases, inl, inr, length, drop, subst,
  ap₂,
}
use stm32h745_disco.Vfs.Path.{
  dot, slash, bytes_eq, normalize, is_user_root, is_absolute, jail_rel, at_boundary, has_prefix,
  jail_prefix,
}
use stm32h745_disco.Vfs.Path.Segments.{segments, dotdot, AllNamed, RestNamed, segments_view}
use stm32h745_disco.Vfs.Path.Safe.{IsSafe, normalize_iff}

abbrev pub user : List ℕ
user = b'u' ∷ b's' ∷ b'e' ∷ b'r' ∷ []

abbrev pop_dir : List (List ℕ) → List (List ℕ)
pop_dir [] = []
pop_dir (d ∷ ds) = ds

-- The directories that a file system is in after following the segments, innermost first: an empty
-- segment and "." stay, ".." goes up.
unfoldable pub resolve : List (List ℕ) → List (List ℕ) → List (List ℕ)
resolve dirs [] = dirs
resolve dirs (s ∷ ss) =
    resolve
      (if bytes_eq s [] || bytes_eq s (dot ∷ [])
        then dirs
        else if bytes_eq s dotdot
        then pop_dir dirs
        else s ∷ dirs)
      ss

pub bytes_eq_sound : (a b : List ℕ) → bytes_eq a b ≡ true → a ≡ b
bytes_eq_sound [] [] e = refl
bytes_eq_sound [] (y ∷ b) e = cc
bytes_eq_sound (x ∷ a) [] e = cc
bytes_eq_sound (x ∷ a) (y ∷ b) e = ground (arith, bytes_eq_sound a b)

-- Without ".." nothing is ever left.
resolve-named :
    (up : List (List ℕ)) (ss : List (List ℕ))
    → AllNamed ss
    → (up' : List (List ℕ)) × (resolve (up ++ user ∷ []) ss ≡ up' ++ user ∷ [])
unfolding resolve
resolve-named up [] h = (up, refl)
resolve-named up (s ∷ ss) h = elim (Bool-cases (bytes_eq s [] || bytes_eq s (dot ∷ []))) [
  | inl same ↦ rw (same, resolve) (resolve-named up ss (rest s ss h))
  | inr other ↦ rw (other, no_up s ss h, resolve) (resolve-named (s ∷ up) ss (rest s ss h))
]
  where
    rest : (s : List ℕ) (ss : List (List ℕ)) → AllNamed (s ∷ ss) → AllNamed ss
    rest s [] h = tt
    rest s (t ∷ ss) h = h.2

    not_up : (s : List ℕ) (ss : List (List ℕ)) → AllNamed (s ∷ ss) → s ≢ dotdot
    not_up s [] h = h
    not_up s (t ∷ ss) h = h.1

    no_up : (s : List ℕ) (ss : List (List ℕ)) → AllNamed (s ∷ ss) → bytes_eq s dotdot ≡ false
    no_up s ss h = elim (Bool-cases (bytes_eq s dotdot)) [
      | inl y ↦ absurd (not_up s ss h (bytes_eq_sound s dotdot y))
      | inr n ↦ n
    ]

pub has_prefix-append : (s p : List ℕ) → has_prefix s p ≡ true → p ≡ s ++ drop (length s) p
has_prefix-append [] p h = refl
has_prefix-append (x ∷ s) [] h = cc
has_prefix-append (x ∷ s) (c ∷ p) h =
    let k : c ≡ x = ground arith in
    let m : has_prefix s p ≡ true = ground arith in ap₂ ◌∷◌ k (has_prefix-append s p m)

user_root_parts :
    (p : List ℕ)
    → is_user_root p ≡ true
    → (has_prefix jail_prefix p ≡ true) × (at_boundary (drop 5 p) ≡ true)
unfolding is_user_root
user_root_parts p h = (ground arith, ground arith)

-- The jail test, as the shape of the path and of its segments.
pub user_root_segments :
    (p : List ℕ) → is_user_root p ≡ true → (ss : List (List ℕ)) × (segments p ≡ [] ∷ user ∷ ss)
unfolding is_user_root segments
user_root_segments p h =
    let a : has_prefix jail_prefix p ≡ true = ground arith in
    let b : at_boundary (drop 5 p) ≡ true = ground arith in
    let (s, ss, e, iff) = segments_view (drop 5 p) in
    (
      ss,
      ap segments (has_prefix-append jail_prefix p a)
          ∙ rw e (ap (λ (k : List ℕ). [] ∷ (b'u' ∷ b's' ∷ b'e' ∷ b'r' ∷ k) ∷ ss) (iff.0 b)),
    )

-- A path that `vfs_normalize` gives out leads to "/user" or below, in whatever
-- directories its segments are resolved: "user" stays the outermost.
pub normalize-jailed :
    (p q : List ℕ) (out_sz : ℕ)
    → normalize p out_sz ≡ value q
    → (below : List (List ℕ)) × (resolve [] (segments q) ≡ below ++ user ∷ [])
unfolding resolve
normalize-jailed p q out_sz e =
    let n = (normalize_iff p q out_sz).0 e in
    let s : IsSafe q = subst IsSafe (sym n.0) n.1 in
    let (ss, eq) = user_root_segments q s.jailed in
    let named : RestNamed ([] ∷ user ∷ ss) = subst RestNamed eq s.named in
    let (up, r) = resolve-named [] ss (rest ss named) in (up, rw eq r)
  where
    rest : (ss : List (List ℕ)) → AllNamed (user ∷ ss) → AllNamed ss
    rest [] h = tt
    rest (t ∷ ss) h = h.2

-- `vfs_jail_rel` turns every path of the jail into an absolute path of the file system below it: the
-- path without its "/user", or "/" where nothing else is left. A buffer of at least two bytes that is
-- as long as the path less four always does.
pub jail_rel_lem :
    (p : List ℕ) (rel_sz : ℕ)
    → is_user_root p ≡ true
    → 2 ≤ rel_sz
    → length p < rel_sz + 5
    → (r : List ℕ) × (jail_rel p rel_sz ≡ value r)
      × (is_absolute r ≡ true)
      × ((p ≡ jail_prefix ++ r) ⊎ ((p ≡ jail_prefix) × (r ≡ slash ∷ [])))
unfolding jail_rel
jail_rel_lem p rel_sz jail room fits =
    let (pre, edge) = user_root_parts p jail in
    let whole : p ≡ jail_prefix ++ drop 5 p = has_prefix-append jail_prefix p pre in
    let small : ltb rel_sz 2 ≡ false = ground arith in
    rw (small, jail) (below (drop 5 p) whole edge (omega (arith, ap length whole)))
  where
    below :
        (rest : List ℕ)
        → p ≡ jail_prefix ++ rest
        → at_boundary rest ≡ true
        → length rest < rel_sz
        → (r : List ℕ) × ((if bytes_eq rest [] || bytes_eq rest (slash ∷ [])
              then value (slash ∷ [])
              else if not (is_absolute rest)
              then error Err.denied
              else if ltb rel_sz (length rest + 1)
              then error Err.nospc
              else value rest)
            ≡ value r)
          × (is_absolute r ≡ true)
          × ((p ≡ jail_prefix ++ r) ⊎ ((p ≡ jail_prefix) × (r ≡ slash ∷ [])))
    below [] e b k = (slash ∷ [], refl, refl, inr (e, refl))
    below (c ∷ []) e b k =
        let at : c ≡ slash = ground arith in
        rw at (slash ∷ [], refl, refl, inl (e ∙ ap (λ d. jail_prefix ++ d ∷ []) at))
    below (c ∷ d ∷ cs) e b k =
        let at : (c == slash) ≡ true = b in
        let fits : ltb rel_sz (length (c ∷ d ∷ cs) + 1) ≡ false = ground arith in
        (c ∷ d ∷ cs, rw (at, fits) refl, at, inl e)
