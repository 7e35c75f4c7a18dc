-- ===== src/Base/ListLaws.antt =====
-- Predicates on the members of a list, and how lookups, writes and maps act on them.
use Prim.Native.Nat.{ℕ, zero, suc}
use mathlib.Core.Path.{◌≡◌, refl, ap, sym, subst, ◌∙◌}
use mathlib.Core.List.{List, [], ◌∷◌, ◌++◌, map}
use mathlib.Core.Option.{some, some-injective}
use batorrent.Base.Lists.{get_elem?, set}

abbrev pub All {ℓ κ} : {A : Type ℓ} → (A → Type κ) → List A → Type κ
All P [] = Unit
All P (x ∷ xs) = P x × All P xs

module _ {ℓ κ} {A : Type ℓ} (P : A → Type κ) where
  pub All-get : (xs : List A) (i : ℕ) {x : A} → All P xs → get_elem? xs i ≡ some x → P x
  All-get [] i a e = cc
  All-get (y ∷ ys) zero {x} a e = subst P (some-injective y x e) a.0
  All-get (y ∷ ys) (suc i) a e = All-get ys i a.1 e

  pub All-set : (xs : List A) (i : ℕ) (v : A) → All P xs → P v → All P (set xs i v)
  All-set [] i v a p = a
  All-set (x ∷ xs) zero v a p = (p, a.1)
  All-set (x ∷ xs) (suc i) v a p = (a.0, All-set xs i v a.1 p)

  pub All-append : (xs ys : List A) → All P xs → All P ys → All P (xs ++ ys)
  All-append [] ys a b = b
  All-append (x ∷ xs) ys a b = (a.0, All-append xs ys a.1 b)

module _ {ℓ κ} {A : Type ℓ} (P Q : A → Type κ) where
  pub All-weaken : (xs : List A) → ((x : A) → P x → Q x) → All P xs → All Q xs
  All-weaken [] h a = tt
  All-weaken (x ∷ xs) h a = (h x a.0, All-weaken xs h a.1)

module _ {ℓ κ} {A B : Type ℓ} (P : A → Type κ) (Q : B → Type κ) where
  pub All-map : (f : A → B) (xs : List A) → ((x : A) → P x → Q (f x)) → All P xs → All Q (map f xs)
  All-map f [] h a = tt
  All-map f (x ∷ xs) h a = (h x a.0, All-map f xs h a.1)

module _ {ℓ κ} {A : Type ℓ} {B : Type κ} where
  -- A write that keeps the image keeps the list of images.
  pub map-set_same :
      (f : A → B) (xs : List A) (i : ℕ) (x v : A)
      → get_elem? xs i ≡ some x
      → f v ≡ f x
      → map f (set xs i v) ≡ map f xs
  map-set_same f [] i x v e h = refl
  map-set_same f (y ∷ ys) zero x v e h =
      ap (λ b. b ∷ map f ys) (h ∙ ap f (sym (some-injective y x e)))
  map-set_same f (y ∷ ys) (suc i) x v e h = ap (◌∷◌ (f y)) (map-set_same f ys i x v e h)
