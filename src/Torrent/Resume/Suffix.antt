-- ===== src/Torrent/Resume/Suffix.antt =====
-- The mark of an unfinished file.
use batorrent.Base.{
  Bool, Text, [], ap, arith, chop, drop, ends_with, false, if_cases, leb, length, length-append,
  refl, take, text_eq_refl, true, ℕ, ◌++◌, ◌-◌, ◌∙◌, ◌∷◌, ◌≡◌, ◌≤◌,
}
use batorrent.Torrent.Resume.{
  incomplete_suffix, is_suffixed, strip_incomplete_suffix, with_incomplete_suffix,
}

take-prefix : (p s : Text) → take (length p) (p ++ s) ≡ p
take-prefix [] s = refl
take-prefix (c ∷ p) s = ap (◌∷◌ c) (take-prefix p s)

drop-prefix : (p s : Text) → drop (length p) (p ++ s) ≡ s
drop-prefix [] s = refl
drop-prefix (c ∷ p) s = drop-prefix p s

less_suffix : (p s : Text) → length (p ++ s) - length s ≡ length p
less_suffix p s = omega (arith, length-append p s)

ends_with-append : (p s : Text) → ends_with (p ++ s) s ≡ true
unfolding ends_with
ends_with-append p s =
    rw
      (
        less_suffix p s,
        drop-prefix p s,
        text_eq_refl s,
        long_enough (length s) (length (p ++ s)) (omega (arith, length-append p s)),
      )
      refl
  where
    long_enough : (a b : ℕ) → a ≤ b → leb a b ≡ true
    long_enough a b h = ground arith

chop-append : (p s : Text) → chop (length s) (p ++ s) ≡ p
chop-append p s = ap (λ n. take n (p ++ s)) (less_suffix p s) ∙ take-prefix p s

marked : (path : Text) → is_suffixed (with_incomplete_suffix path) ≡ true
unfolding with_incomplete_suffix
marked path =
    if_cases (λ (x : Text). is_suffixed x ≡ true) (is_suffixed path) {x = path}
      {y = path ++ incomplete_suffix} (λ h. h) (λ _. ends_with-append path incomplete_suffix)

-- Marking a path and taking the mark off gives the path back, and marking twice is marking once;
-- the first holds for a path that has no mark.
with-strip :
    (path : Text)
    → (is_suffixed path ≡ false
        → strip_incomplete_suffix (with_incomplete_suffix path) ≡ (path, true))
      × (with_incomplete_suffix (with_incomplete_suffix path) ≡ with_incomplete_suffix path)
unfolding with_incomplete_suffix strip_incomplete_suffix
with-strip path = (
  λ h. rw (h, ends_with-append path incomplete_suffix, chop-append path incomplete_suffix) refl,
  if_cases (λ (x : Text). x ≡ with_incomplete_suffix path)
      (is_suffixed (with_incomplete_suffix path)) {x = with_incomplete_suffix path}
      {y = with_incomplete_suffix path ++ incomplete_suffix} (λ _. refl)
      (λ h. absurd (clash (is_suffixed (with_incomplete_suffix path)) (marked path) h)),
)
  where
    clash : (b : Bool) → b ≡ true → b ≡ false → ⊥
    clash b h k = cc
