-- ===== src/Base/Tests.antt =====
-- Boolean tests on the native numbers, and the conditional.
use Prim.Native.Nat.{ℕ, ◌≤◌, ◌<◌, compare, Ordering}
use mathlib.Core.Path.{◌≡◌, refl}
use mathlib.Core.Logic.{◌↔◌, ◌⊎◌, inl, inr}
use mathlib.Core.Bool.{Bool, true, false, ◌&&◌, ◌||◌}
use mathlib.Core.Option.{Option, none, some}
use native.Mathlib.Omega.{arith}

-- These compute to `compare`, which `ground` and `grind` read with no lemma listed.
abbrev pub ltb : ℕ → ℕ → Bool
ltb a b = elim (compare a b) [ Ordering.lt ↦ true | _ ↦ false ]

abbrev pub leb : ℕ → ℕ → Bool
leb a b = elim (compare a b) [ Ordering.gt ↦ false | _ ↦ true ]

infix 50 ◌==◌
abbrev pub ◌==◌ : ℕ → ℕ → Bool
a == b = elim (compare a b) [ Ordering.eq ↦ true | _ ↦ false ]

infix 1 if◌then◌else◌
abbrev pub if◌then◌else◌ {ℓ} : {A : Type ℓ} → Bool → A → A → A
if true then x else y = x
if false then x else y = y

-- `omega` reads a test through such lemmas.
pub ltb→lt : (a b : ℕ) → ltb a b ≡ true → a < b
ltb→lt a b h = ground arith

pub lt→ltb : (a b : ℕ) → a < b → ltb a b ≡ true
lt→ltb a b h = ground arith

pub leb→le : (a b : ℕ) → leb a b ≡ true → a ≤ b
leb→le a b h = ground arith

pub gt→leb_false : (a b : ℕ) → b < a → leb a b ≡ false
gt→leb_false a b h = ground arith

pub ==_iff : (a b : ℕ) → ((a == b) ≡ true) ↔ (a ≡ b)
==_iff a b = ground arith

pub ruleset tests = (arith, ltb→lt, lt→ltb, leb→le)

-- To split on a computed value and keep the equation.
pub Bool-cases : (b : Bool) → (b ≡ true) ⊎ (b ≡ false)
Bool-cases true = inl refl
Bool-cases false = inr refl

pub Option-cases {ℓ} : {A : Type ℓ} (o : Option A) → (o ≡ none) ⊎ ((a : A) × (o ≡ some a))
Option-cases none = inl refl
Option-cases (some a) = inr (a, refl)

-- A predicate of a conditional holds when it holds of both branches.
pub if_cases {ℓ κ} :
    {A : Type ℓ} (P : A → Type κ) (b : Bool) {x y : A}
    → (b ≡ true → P x)
    → (b ≡ false → P y)
    → P (if b then x else y)
if_cases P true p q = p refl
if_cases P false p q = q refl

-- A relation between two conditionals with one test holds when it holds between their branches.
pub if_both {ℓ κ} :
    {A : Type ℓ} (R : A → A → Type κ) (b : Bool) {x y x' y' : A}
    → R x x'
    → R y y'
    → R (if b then x else y) (if b then x' else y')
if_both R true p q = p
if_both R false p q = q

-- The same for a test that keeps its branches apart.
pub elim_both {ℓ κ} :
    {A : Type ℓ} (R : A → A → Type κ) (b : Bool) {x y x' y' : A}
    → R x x'
    → R y y'
    → R (elim b [ true ↦ x | false ↦ y ]) (elim b [ true ↦ x' | false ↦ y' ])
elim_both R true p q = p
elim_both R false p q = q

pub elim_cases {ℓ κ} :
    {A : Type ℓ} (P : A → Type κ) (b : Bool) {x y : A}
    → (b ≡ true → P x)
    → (b ≡ false → P y)
    → P (elim b [ true ↦ x | false ↦ y ])
elim_cases P true p q = p refl
elim_cases P false p q = q refl

pub &&-left : (a b : Bool) → a && b ≡ true → a ≡ true
&&-left a b h = ground arith

pub &&-right : (a b : Bool) → a && b ≡ true → b ≡ true
&&-right a b h = ground arith

pub ||-left : (a b : Bool) → a || b ≡ false → a ≡ false
||-left a b h = ground arith

pub ||-right : (a b : Bool) → a || b ≡ false → b ≡ false
||-right a b h = ground arith

pub within_tests : (a x b : ℕ) → a ≤ x → x < b → leb a x && ltb x b ≡ true
within_tests a x b h k = ground arith

-- A chain of steps that may fail, and what a chain that ends tells of its parts.
infixl 5 ◌>>=◌
abbrev pub ◌>>=◌ {ℓ κ} : {A : Type ℓ} {B : Type κ} → Option A → (A → Option B) → Option B
none >>= f = none
some a >>= f = f a

pub >>=-eq-some {ℓ κ} :
    {A : Type ℓ} {B : Type κ} (o : Option A) (f : A → Option B) {b : B}
    → (o >>= f) ≡ some b
    → (a : A) × (o ≡ some a) × (f a ≡ some b)
>>=-eq-some none f e = cc
>>=-eq-some (some a) f e = (a, refl, e)

pub else-eq-some {ℓ} :
    {A : Type ℓ} (t : Bool) (o : Option A) {b : A}
    → (if t then none else o) ≡ some b
    → (t ≡ false) × (o ≡ some b)
else-eq-some true o e = cc
else-eq-some false o e = (refl, e)
