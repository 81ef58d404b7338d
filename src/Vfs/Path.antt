-- ===== src/Vfs/Path.antt =====
-- The path functions of firmware/src/svc/vfs_path.c. A C string is the list of the bytes before its
-- terminator; a function gives the string that it leaves in `out`, or its error code.
pub mod Segments
pub mod Safe
pub mod Jail
pub mod Parent
pub mod Errors
use stm32h745_disco.Base.{
  ℕ, zero, suc, Bool, true, false, List, [], ◌∷◌, ◌++◌, ◌+◌, ◌-◌, ltb, leb, ◌==◌, if◌then◌else◌,
  not, ◌&&◌, ◌||◌, length, get_or, take, drop, Err, Result, value, error, ◌>>=◌,
}

abbrev pub slash : ℕ
slash = b'/'

abbrev pub dot : ℕ
dot = b'.'

abbrev pub backslash : ℕ
backslash = 0x5c

-- `VFS_JAIL_PREFIX`
abbrev pub jail_prefix : List ℕ
jail_prefix = b'/' ∷ b'u' ∷ b's' ∷ b'e' ∷ b'r' ∷ []

abbrev pub vfs_path_max : ℕ
vfs_path_max = 256

-- `strcmp(a, b) == 0`
abbrev pub bytes_eq : List ℕ → List ℕ → Bool
bytes_eq [] [] = true
bytes_eq [] (b ∷ bs) = false
bytes_eq (a ∷ as') [] = false
bytes_eq (a ∷ as') (b ∷ bs) = a == b && bytes_eq as' bs

-- The end of the string or a slash.
abbrev pub at_boundary : List ℕ → Bool
at_boundary [] = true
at_boundary (c ∷ cs) = c == slash

-- `strlen(p) >= strlen(s) && strncmp(p, s, strlen(s)) == 0`
abbrev pub has_prefix : List ℕ → List ℕ → Bool
has_prefix [] p = true
has_prefix (s ∷ ss) [] = false
has_prefix (s ∷ ss) (c ∷ p) = c == s && has_prefix ss p

-- `is_user_root`
unfoldable pub is_user_root : List ℕ → Bool
is_user_root p = has_prefix jail_prefix p && at_boundary (drop 5 p)

-- `in[i] == '.' && in[i + 1] == '.' && (in[i + 2] == '/' || in[i + 2] == '\0')`
abbrev pub is_dotdot : List ℕ → Bool
is_dotdot (a ∷ b ∷ cs) = a == dot && (b == dot && at_boundary cs)
is_dotdot _ = false

-- The body of the loop of `vfs_normalize` at index `i`, where `c ∷ cs` is left: the next value of
-- `start_seg`, or an error. The output index `o` is `i`, since each round that goes on writes one
-- byte.
unfoldable pub check : ℕ → ℕ → Bool → ℕ → List ℕ → Result Bool
check out_sz i start_seg c cs =
    if c == backslash || c == 0
    then error Err.denied
    else if ltb c 0x20
    then error Err.denied
    else if leb out_sz (i + 1)
    then error Err.nospc
    else if c == slash
    then (if start_seg && not (i == 0) then error Err.denied else value true)
    else if start_seg && is_dotdot (c ∷ cs)
    then error Err.denied
    else value false

abbrev pub cons_result : ℕ → Result (List ℕ) → Result (List ℕ)
cons_result c (value l) = value (c ∷ l)
cons_result c (error e) = error e

-- The loop of `vfs_normalize` from index `i` on: the bytes that it writes.
unfoldable pub scan : ℕ → ℕ → Bool → List ℕ → Result (List ℕ)
scan out_sz i start_seg [] = value []
scan out_sz i start_seg (c ∷ cs) = elim (check out_sz i start_seg c cs) [
  | error e ↦ error e
  | value s ↦ cons_result c (scan out_sz (i + 1) s cs)
]

-- `in[0] != '/'`
abbrev pub is_absolute : List ℕ → Bool
is_absolute [] = false
is_absolute (c ∷ cs) = c == slash

-- The last test of `vfs_normalize`, on what its loop has written.
unfoldable pub keep_jailed : Result (List ℕ) → Result (List ℕ)
keep_jailed (error e) = error e
keep_jailed (value out) = if is_user_root out then value out else error Err.denied

-- `vfs_normalize`
unfoldable pub normalize : List ℕ → ℕ → Result (List ℕ)
normalize p out_sz =
    if ltb out_sz 2
    then error Err.inval
    else if not (is_absolute p)
    then error Err.denied
    else keep_jailed (scan out_sz 0 true p)

-- `vfs_in_user_jail`
unfoldable pub in_user_jail : List ℕ → Bool
in_user_jail norm = is_user_root norm

-- `vfs_jail_rel`
unfoldable pub jail_rel : List ℕ → ℕ → Result (List ℕ)
jail_rel norm rel_sz =
    let rest = drop 5 norm in
    if ltb rel_sz 2
    then error Err.inval
    else if not (is_user_root norm)
    then error Err.denied
    else if bytes_eq rest [] || bytes_eq rest (slash ∷ [])
    then value (slash ∷ [])
    else if not (is_absolute rest)
    then error Err.denied
    else if ltb rel_sz (length rest + 1)
    then error Err.nospc
    else value rest

-- A loop of `vfs_path_join` that copies a string to `tmp` from index `o` on, and keeps `slack`
-- bytes free.
unfoldable pub copy : ℕ → ℕ → List ℕ → Result (List ℕ)
copy slack o [] = value []
copy slack o (c ∷ cs) =
    let rest = cons_result c (copy slack (o + 1) cs) in
    if leb vfs_path_max (o + slack) then error Err.nospc else rest

abbrev pub has_separator : List ℕ → Bool
has_separator [] = false
has_separator (c ∷ cs) = (c == slash || c == backslash) || has_separator cs

-- The last byte of `tmp`, which is not asked for in an empty one.
abbrev pub ends_with_slash : List ℕ → Bool
ends_with_slash d = not (length d == 0) && (get_or d (length d - 1) 0 == slash)

-- The separator that `vfs_path_join` puts behind the directory.
unfoldable pub separator : List ℕ → Result (List ℕ)
separator d =
    if not (ends_with_slash d)
    then (if leb vfs_path_max (length d + 2) then error Err.nospc else value (slash ∷ []))
    else value []

-- The rest of `vfs_path_join` once the directory has been copied.
unfoldable pub join_name : List ℕ → List ℕ → ℕ → Result (List ℕ)
join_name d name out_sz = do
  s ← separator d
  n ← copy 1 (length (d ++ s)) name
  normalize ((d ++ s) ++ n) out_sz

-- `vfs_path_join`
unfoldable pub path_join : List ℕ → List ℕ → ℕ → Result (List ℕ)
path_join dir name out_sz =
    if length name == 0
    then error Err.denied
    else if bytes_eq name (dot ∷ []) || bytes_eq name (dot ∷ dot ∷ [])
    then error Err.denied
    else if has_separator name
    then error Err.denied
    else copy 2 0 dir >>= λ d. join_name d name out_sz

-- The loop of `vfs_path_parent`: the length up to the last slash, with that slash.
unfoldable pub last_slash : List ℕ → ℕ → ℕ
last_slash norm zero = zero
last_slash norm (suc k) = if get_or norm k 0 == slash then suc k else last_slash norm k

-- What `vfs_path_parent` does with the normalized path.
unfoldable pub parent_of : List ℕ → ℕ → Result (List ℕ)
parent_of norm out_sz =
    let len = last_slash norm (length norm) in
    let out = take (len - 1) norm in
    if bytes_eq norm jail_prefix
    then error Err.noent
    else if len == 0
    then error Err.noent
    else if len - 1 == 0
    then error Err.noent
    else if ltb out_sz (len - 1 + 1)
    then error Err.nospc
    else if in_user_jail out
    then value out
    else error Err.denied

-- `vfs_path_parent`
unfoldable pub path_parent : List ℕ → ℕ → Result (List ℕ)
path_parent path out_sz = normalize path vfs_path_max >>= λ norm. parent_of norm out_sz
