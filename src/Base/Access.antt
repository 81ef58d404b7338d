-- ===== src/Base/Access.antt =====
-- Arrays of C whose accesses are checked: an access past the end is `none`, so that a program which
-- ends in `some` has stayed inside its arrays.
use Prim.Native.Nat.{ℕ, zero, suc, ◌+◌, ◌≤◌, ◌<◌}
use mathlib.Core.Path.{◌≡◌, refl, ap, subst, ◌∙◌}
use mathlib.Core.Bool.{Bool, true, false, ◌&&◌}
use mathlib.Core.List.{List, [], ◌∷◌}
use mathlib.Core.Option.{Option, none, some, some_inj}
use native.Mathlib.Omega.{arith}
use stm32h745_disco.Base.Tests.{ltb, if◌then◌else◌}
use stm32h745_disco.Base.Lists.{length, replicate}

infixl 5 ◌>>=◌
abbrev pub ◌>>=◌ {ℓ κ} : {A : Type ℓ} {B : Type κ} → Option A → (A → Option B) → Option B
none >>= f = none
some a >>= f = f a

-- `a[i]`
abbrev pub load : List ℕ → ℕ → Option ℕ
load [] i = none
load (x ∷ xs) zero = some x
load (x ∷ xs) (suc i) = load xs i

-- `a[i] = v`
abbrev pub store : List ℕ → ℕ → ℕ → Option (List ℕ)
store [] i v = none
store (x ∷ xs) zero v = some (v ∷ xs)
store (x ∷ xs) (suc i) v = store xs i v >>= λ ys. some (x ∷ ys)

-- `memcpy(dst + off, src, n)`
abbrev pub memcpy : List ℕ → ℕ → List ℕ → ℕ → Option (List ℕ)
memcpy dst off src zero = some dst
memcpy dst off [] (suc n) = none
memcpy dst off (b ∷ src) (suc n) = store dst off b >>= λ d. memcpy d (off + 1) src n

-- Every element is below a bound.
abbrev pub AllBelow : ℕ → List ℕ → Type 0
AllBelow b [] = Unit {0}
AllBelow b (x ∷ xs) = (x < b) × AllBelow b xs

-- An array of `n` elements below `b`.
pub record Array (n b : ℕ) (xs : List ℕ) : Type 0 where
  pub size : length xs ≡ n
  pub below : AllBelow b xs

-- The access is allowed, and what comes of it has the property.
pub record Safe {ℓ κ} {A : Type ℓ} (P : A → Type κ) (o : Option A) : Type (ℓ ⊔ κ) where
  pub result : A
  pub reached : o ≡ some result
  pub holds : P result

pub Safe-some {ℓ κ} : {A : Type ℓ} {P : A → Type κ} {a : A} → P a → Safe P (some a)
Safe-some {a = a} p = record { result = a; reached = refl; holds = p }

pub Safe-bind {ℓ κ μ ν} :
    {A : Type ℓ} {B : Type κ} {P : A → Type μ} {Q : B → Type ν} {o : Option A} {f : A → Option B}
    → Safe P o
    → ((a : A) → P a → Safe Q (f a))
    → Safe Q (o >>= f)
Safe-bind {f = f} s k =
    let r = k s.result s.holds in
    record { result = r.result; reached = ap (λ o. o >>= f) s.reached ∙ r.reached; holds = r.holds }

-- Each branch may use the test.
pub Safe-if {ℓ κ} :
    {A : Type ℓ} {P : A → Type κ} (b : Bool) {x y : Option A}
    → (b ≡ true → Safe P x)
    → (b ≡ false → Safe P y)
    → Safe P (if b then x else y)
Safe-if true f g = f refl
Safe-if false f g = g refl

load-Safe :
    (b : ℕ) (xs : List ℕ) (i : ℕ) → AllBelow b xs → i < length xs → Safe (λ v. v < b) (load xs i)
load-Safe b [] i h k = absurd (omega arith)
load-Safe b (x ∷ xs) zero h k = Safe-some h.0
load-Safe b (x ∷ xs) (suc i) h k = load-Safe b xs i h.1 (omega arith)

store-Safe :
    (b : ℕ) (xs : List ℕ) (i v : ℕ)
    → AllBelow b xs
    → i < length xs
    → v < b
    → Safe (Array (length xs) b) (store xs i v)
store-Safe b [] i v h k l = absurd (omega arith)
store-Safe b (x ∷ xs) zero v h k l = Safe-some (record { size = refl; below = (l, h.1) })
store-Safe b (x ∷ xs) (suc i) v h k l =
    Safe-bind (store-Safe b xs i v h.1 (omega arith) l)
      (λ ys a. Safe-some (record { size = ap suc a.size; below = (h.0, a.below) }))

-- A load or a store inside an array is allowed.
pub Safe-load {ℓ κ} :
    {A : Type ℓ} {P : A → Type κ} {n b : ℕ} {xs : List ℕ} {f : ℕ → Option A} (i : ℕ)
    → Array n b xs
    → i < n
    → ((v : ℕ) → v < b → Safe P (f v))
    → Safe P (load xs i >>= f)
Safe-load {b = b} {xs = xs} i a h k =
    Safe-bind (load-Safe b xs i a.below (omega (arith, a.size, h))) k

pub Safe-store {ℓ κ} :
    {A : Type ℓ} {P : A → Type κ} {n b : ℕ} {xs : List ℕ} {f : List ℕ → Option A} (i v : ℕ)
    → Array n b xs
    → i < n
    → v < b
    → ((ys : List ℕ) → Array n b ys → Safe P (f ys))
    → Safe P (store xs i v >>= f)
Safe-store {b = b} {xs = xs} i v a h l k =
    Safe-bind (store-Safe b xs i v a.below (omega (arith, a.size, h)) l)
      (λ ys c. k ys (record { size = c.size ∙ a.size; below = c.below }))

pub memcpy-Safe :
    {n b : ℕ} {dst : List ℕ} (off : ℕ) (src : List ℕ) (m : ℕ)
    → Array n b dst
    → AllBelow b src
    → m ≤ length src
    → off + m ≤ n
    → Safe (Array n b) (memcpy dst off src m)
memcpy-Safe off src zero a h k l = Safe-some a
memcpy-Safe off [] (suc m) a h k l = absurd (omega arith)
memcpy-Safe off (x ∷ src) (suc m) a h k l =
    Safe-store off x a (omega arith) h.0
      (λ d c. memcpy-Safe (off + 1) src m c h.1 (omega arith) (omega arith))

pub replicate-Array : (n b v : ℕ) → v < b → Array n b (replicate n v)
replicate-Array zero b v h = record { size = refl; below = tt }
replicate-Array (suc n) b v h =
    let a = replicate-Array n b v h in record { size = ap suc a.size; below = (h, a.below) }

pub store-Array :
    {n b : ℕ} {xs : List ℕ} (i v : ℕ)
    → Array n b xs
    → i < n
    → v < b
    → Safe (Array n b) (store xs i v)
store-Array {b = b} {xs = xs} i v a h l =
    let s = store-Safe b xs i v a.below (omega (arith, a.size, h)) l in
    record {
      result = s.result;
      reached = s.reached;
      holds = record { size = s.holds.size ∙ a.size; below = s.holds.below };
    }

-- The bound of a constant array, by evaluation.
abbrev pub all_ltb : ℕ → List ℕ → Bool
all_ltb b [] = true
all_ltb b (x ∷ xs) = ltb x b && all_ltb b xs

pub all_ltb-AllBelow : (b : ℕ) (xs : List ℕ) → all_ltb b xs ≡ true → AllBelow b xs
all_ltb-AllBelow b [] h = tt
all_ltb-AllBelow b (x ∷ xs) h = (ground arith, all_ltb-AllBelow b xs (ground arith))

-- What holds of a result that is there; nothing is said of `none`.
pub record Partly {ℓ κ} {A : Type ℓ} (P : A → Type κ) (o : Option A) : Type (ℓ ⊔ κ) where
  pub on : (a : A) → o ≡ some a → P a

pub Partly-some {ℓ κ} : {A : Type ℓ} {P : A → Type κ} {a : A} → P a → Partly P (some a)
Partly-some {P = P} p = record { on = λ b e. subst P (some_inj.0 e) p }

pub Partly-none {ℓ κ} : {A : Type ℓ} {P : A → Type κ} → Partly P none
Partly-none = record { on = λ b e. cc }

pub Partly-bind {ℓ κ μ ν} :
    {A : Type ℓ} {B : Type κ} {P : A → Type μ} {Q : B → Type ν} {o : Option A} {f : A → Option B}
    → Partly P o
    → ((a : A) → P a → Partly Q (f a))
    → Partly Q (o >>= f)
Partly-bind {o = none} p k = Partly-none
Partly-bind {o = some a} p k = k a (p.on a refl)

pub Partly-if {ℓ κ} :
    {A : Type ℓ} {P : A → Type κ} (b : Bool) {x y : Option A}
    → (b ≡ true → Partly P x)
    → (b ≡ false → Partly P y)
    → Partly P (if b then x else y)
Partly-if true f g = f refl
Partly-if false f g = g refl
