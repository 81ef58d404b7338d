-- ===== src/Vfs/Tests.antt =====
-- The paths "/user/a", "/user" and some that are refused.
use stm32h745_disco.Base.{
  ℕ, List, [], ◌∷◌, ◌++◌, ◌≤◌, ◌<◌, ◌≡◌, ◌↔◌, true, refl, length, Err, value, error,
}
use stm32h745_disco.Vfs.Path.{
  normalize, scan, check, keep_jailed, is_user_root, path_join, join_name, copy, separator,
}
use stm32h745_disco.Vfs.Path.Segments.{segments}
use stm32h745_disco.Vfs.Path.Safe.{IsSafe, normalize_iff}
use stm32h745_disco.Vfs.Path.Jail.{resolve, user, normalize-jailed}

abbrev user_dir : List ℕ
user_dir = b'/' ∷ b'u' ∷ b's' ∷ b'e' ∷ b'r' ∷ []

abbrev user_a : List ℕ
user_a = b'/' ∷ b'u' ∷ b's' ∷ b'e' ∷ b'r' ∷ b'/' ∷ b'a' ∷ []

user_a_normal : normalize user_a 64 ≡ value user_a
unfolding normalize scan check keep_jailed is_user_root
user_a_normal = refl

-- The path "/user/..", and "/user/" with its slash kept.
up_refused :
    normalize (b'/' ∷ b'u' ∷ b's' ∷ b'e' ∷ b'r' ∷ b'/' ∷ b'.' ∷ b'.' ∷ []) 64 ≡ error Err.denied
unfolding normalize scan check keep_jailed is_user_root
up_refused = refl

trailing_slash :
    normalize (b'/' ∷ b'u' ∷ b's' ∷ b'e' ∷ b'r' ∷ b'/' ∷ []) 64
    ≡ value (b'/' ∷ b'u' ∷ b's' ∷ b'e' ∷ b'r' ∷ b'/' ∷ [])
unfolding normalize scan check keep_jailed is_user_root
trailing_slash = refl

user_a_joined : path_join user_dir (b'a' ∷ []) 64 ≡ value user_a
unfolding path_join join_name copy separator normalize scan check keep_jailed is_user_root
user_a_joined = refl

user_dir_root : is_user_root user_dir ≡ true
unfolding is_user_root
user_dir_root = refl

normalize_iff_example :
    (normalize user_a 64 ≡ value user_a)
    ↔ ((user_a ≡ user_a) × IsSafe user_a × (length user_a < 64) × (2 ≤ 64))
normalize_iff_example = normalize_iff user_a user_a 64

normalize-jailed_example :
    (below : List (List ℕ)) × (resolve [] (segments user_a) ≡ below ++ user ∷ [])
normalize-jailed_example = normalize-jailed user_a user_a 64 user_a_normal
