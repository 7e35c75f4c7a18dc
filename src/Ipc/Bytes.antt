-- ===== src/Ipc/Bytes.antt =====
-- Bytes that are those of a file from some place on: what src/ipc hands from one side to the other.
use native.Mathlib.Decide.{dec_lt}
use batorrent.Base.{
  List, [], ap, arith, drop, get_or, get_or-append_right, length, length-append, length-drop,
  length-take, refl, suc, take, zero, ℕ, ◌++◌, ◌+◌, ◌-◌, ◌<◌, ◌∙◌, ◌∷◌, ◌≡◌,
}

pub get_or-drop :
    (j : ℕ) (xs : List ℕ) (k i : ℕ) → i ≡ j + k → get_or (drop j xs) k 0 ≡ get_or xs i 0
get_or-drop zero xs k i e = ap (λ n. get_or xs n 0) (omega (arith, e))
get_or-drop (suc j) [] k i e = refl
get_or-drop (suc j) (x ∷ xs) k zero e = absurd (omega (arith, e))
get_or-drop (suc j) (x ∷ xs) k (suc i) e = get_or-drop j xs k i (omega (arith, e))

pub get_or-take : (j : ℕ) (xs : List ℕ) (k : ℕ) → k < j → get_or (take j xs) k 0 ≡ get_or xs k 0
get_or-take zero xs k h = absurd (omega arith)
get_or-take (suc j) [] k h = refl
get_or-take (suc j) (x ∷ xs) zero h = refl
get_or-take (suc j) (x ∷ xs) (suc k) h = get_or-take j xs k (omega arith)

get_or-append_left :
    (xs ys : List ℕ) (k : ℕ) → k < length xs → get_or (xs ++ ys) k 0 ≡ get_or xs k 0
get_or-append_left [] ys k h = absurd (omega arith)
get_or-append_left (x ∷ xs) ys zero h = refl
get_or-append_left (x ∷ xs) ys (suc k) h = get_or-append_left xs ys k (omega arith)

module _ (source : ℕ → ℕ) where
  -- The bytes of a list are those of the source from place `at` on.
  abbrev pub AreAt : ℕ → List ℕ → Type 0
  AreAt at bytes = (k : ℕ) → k < length bytes → get_or bytes k 0 ≡ source (at + k)

  pub AreAt-take : (n at : ℕ) (bs : List ℕ) → AreAt at bs → AreAt at (take n bs)
  AreAt-take n at bs a k h =
      let len = length-take n bs in
      get_or-take n bs k (omega (arith, len)) ∙ a k (omega (arith, len))

  pub AreAt-drop : (n at : ℕ) (bs : List ℕ) → AreAt at bs → AreAt (at + n) (drop n bs)
  AreAt-drop n at bs a k h =
      let len = length-drop n bs in
      get_or-drop n bs k (n + k) refl ∙ a (n + k) (omega (arith, len)) ∙ ap source (omega arith)

  pub AreAt-append :
      (at : ℕ) (xs ys : List ℕ) → AreAt at xs → AreAt (at + length xs) ys → AreAt at (xs ++ ys)
  AreAt-append at xs ys a b k h = elim (dec_lt k (length xs)) [
    | yes l ↦ get_or-append_left xs ys k l ∙ a k l
    | no n ↦
        let len = length-append xs ys in
        get_or-append_right xs ys k (k - length xs) 0 (omega arith)
        ∙ b (k - length xs) (omega (arith, len))
        ∙ ap source (omega arith)
  ]

  pub AreAt-nil : (at : ℕ) → AreAt at []
  AreAt-nil at k h = absurd (omega arith)

  -- What is left when some are taken off.
  pub AreAt-rest :
      (n at : ℕ) (bs : List ℕ) → AreAt at bs → AreAt (at + length (take n bs)) (drop n bs)
  AreAt-rest n at bs a k h =
      AreAt-drop n at bs a k h ∙ ap source (omega (arith, length-take n bs, length-drop n bs))
