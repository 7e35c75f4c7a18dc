-- ===== src/Torrent/Resume/Removal.antt =====
-- What is removed with a torrent, and what is forgotten of those removed before.
use batorrent.Base.{
  ==_iff, All, Bool, Bool-cases, List, Option, Option-cases, Text, [], ap, arith, contains, false,
  if_cases, if◌then◌else◌, inl, inr, is_empty, length, ltb_ℤ, map, none, not, pos_part, refl, some,
  subst, suc, sym, take, text_eq, text_eq_iff, true, zero, ||-left, ||-right, ℕ, ℤ, ◌&&◌, ◌++◌,
  ◌-ℤ◌, ◌-◌, ◌==◌, ◌||◌, ◌∙◌, ◌∷◌, ◌≡◌, ◌⊎◌,
}
use mathlib.Core.Option.{some-injective}
use batorrent.Torrent.Resume.{
  forward_slashes, slash_at, first_segment, top_of, top_level_loop, top_level_trash_names,
  prune_by_count, prune_old, removed_history_hashes_to_prune,
}

contains-append :
    (xs ys : List Text) (a : Text) → contains (xs ++ ys) a ≡ contains xs a || contains ys a
unfolding contains
contains-append [] ys a = refl
contains-append (x ∷ xs) ys a =
    or_step (text_eq x a) (contains xs a) (contains ys a) (contains (xs ++ ys) a)
      (contains-append xs ys a)
  where
    or_step : (t b c d : Bool) → d ≡ b || c → t || d ≡ (t || b) || c
    or_step t b c d e = ground arith

contains-snoc :
    (xs : List Text) (t a : Text) → contains (xs ++ t ∷ []) a ≡ contains xs a || text_eq t a
unfolding contains
contains-snoc xs t a = contains-append xs (t ∷ []) a ∙ or_false (contains xs a) (text_eq t a)
  where
    or_false : (b c : Bool) → b || (c || false) ≡ b || c
    or_false b c = ground arith

-- Adding `t` unless it is there makes it there, whatever else is.
added :
    (xs : List Text) (t a : Text) (skip : Bool)
    → contains (if skip || contains xs t then xs else xs ++ t ∷ []) a
      ≡ contains xs a || not skip && text_eq t a
added xs t a skip =
    if_cases (λ (l : List Text). contains l a ≡ contains xs a || not skip && text_eq t a)
      (skip || contains xs t) {x = xs} {y = xs ++ t ∷ []}
      (λ h. was_there skip (text_eq t a) h (Bool-cases (text_eq t a)))
      (λ h. contains-snoc xs t a ∙ kept skip (contains xs t) (contains xs a) (text_eq t a) h)
  where
    kept : (s c b e : Bool) → s || c ≡ false → b || e ≡ b || not s && e
    kept s c b e h = ground arith

    other : (s b e : Bool) → e ≡ false → b ≡ b || not s && e
    other s b e h = ground arith

    same : (s b e : Bool) → s || b ≡ true → b ≡ b || not s && e
    same s b e h = ground arith

    was_there :
        (s e : Bool)
        → s || contains xs t ≡ true
        → (text_eq t a ≡ true) ⊎ (text_eq t a ≡ false)
        → contains xs a ≡ contains xs a || not s && text_eq t a
    was_there s e h (inl q) =
        same s (contains xs a) (text_eq t a)
          (subst (λ x. s || contains xs x ≡ true) ((text_eq_iff t a).0 q) h)
    was_there s e h (inr q) = other s (contains xs a) (text_eq t a) q

-- Some path has `a` as its top, which is not empty.
abbrev pub has_top : List Text → Text → Bool
has_top [] a = false
has_top (p ∷ ps) a = not (is_empty (top_of p)) && text_eq (top_of p) a || has_top ps a

top_level_loop-contains :
    (tops ps : List Text) (a : Text)
    → contains (top_level_loop tops ps) a ≡ contains tops a || has_top ps a
unfolding top_level_loop
top_level_loop-contains tops [] a = or_nothing (contains tops a)
  where
    or_nothing : (b : Bool) → b ≡ b || false
    or_nothing b = ground arith
top_level_loop-contains tops (p ∷ ps) a =
    top_level_loop-contains
      (if is_empty (top_of p) || contains tops (top_of p) then tops else tops ++ top_of p ∷ []) ps a
    ∙ grouped _ (contains tops a) (not (is_empty (top_of p)) && text_eq (top_of p) a) (has_top ps a)
        (added tops (top_of p) a (is_empty (top_of p)))
  where
    grouped : (x b c d : Bool) → x ≡ b || c → x || d ≡ b || (c || d)
    grouped x b c d e = ground arith

-- No name twice.
abbrev pub Unique : List Text → Type 0
Unique [] = Unit {0}
Unique (x ∷ xs) = (contains xs x ≡ false) × Unique xs

Unique-snoc :
    (xs : List Text) (t : Text) → Unique xs → contains xs t ≡ false → Unique (xs ++ t ∷ [])
unfolding contains
Unique-snoc [] t u h = (refl, tt)
Unique-snoc (x ∷ xs) t (n, u) h = (
  contains-snoc xs t x
      ∙ neither (contains xs x) (text_eq t x) n
          (apart (text_eq t x) (λ q. same_first ((text_eq_iff t x).0 q))),
  Unique-snoc xs t u (||-right (text_eq x t) (contains xs t) h),
)
  where
    neither : (a b : Bool) → a ≡ false → b ≡ false → a || b ≡ false
    neither a b h k = ground arith

    apart : (b : Bool) → (b ≡ true → ⊥) → b ≡ false
    apart true h = absurd (h refl)
    apart false h = refl

    clash : (b : Bool) → b ≡ false → b ≡ true → ⊥
    clash b h k = cc

    same_first : t ≡ x → ⊥
    same_first e =
        clash (text_eq x t) (||-left (text_eq x t) (contains xs t) h) ((text_eq_iff x t).1 (sym e))

top_level_loop-Unique : (tops ps : List Text) → Unique tops → Unique (top_level_loop tops ps)
unfolding top_level_loop
top_level_loop-Unique tops [] u = u
top_level_loop-Unique tops (p ∷ ps) u =
    top_level_loop-Unique
      (if is_empty (top_of p) || contains tops (top_of p) then tops else tops ++ top_of p ∷ []) ps
      (if_cases Unique (is_empty (top_of p) || contains tops (top_of p)) {x = tops}
        {y = tops ++ top_of p ∷ []} (λ _. u)
        (λ h.
          Unique-snoc tops (top_of p) u
            (||-right (is_empty (top_of p)) (contains tops (top_of p)) h)))

abbrev pub has_slash : Text → Bool
has_slash [] = false
has_slash (c ∷ s) = c == b'/' || has_slash s

-- The first segment of a path with slashes only: what stands before the first slash; a path that
-- starts with one is left whole.
pub data IsTop : Text → Text → Type 0 where
  without : (p : Text) → has_slash p ≡ false → IsTop p p
  leading : (p : Text) → IsTop (b'/' ∷ p) (b'/' ∷ p)
  before :
      (c : ℕ) (a rest : Text) → has_slash (c ∷ a) ≡ false → IsTop ((c ∷ a) ++ b'/' ∷ rest) (c ∷ a)

no_slash : (p : Text) → slash_at p ≡ none → has_slash p ≡ false
no_slash [] e = refl
no_slash (c ∷ s) e = elim (Bool-cases (c == b'/')) [
  | inl h ↦ let both : ◌≡◌ {A = Option ℕ} (some zero) none = rw h at e in cc
  | inr h ↦ elim (Option-cases (slash_at s)) [
    | inl n ↦ let rest = no_slash s n in ground arith
    | inr (i, t) ↦ let both : ◌≡◌ {A = Option ℕ} (some (suc i)) none = rw (h, t) at e in cc
  ]
]

-- The place of the first slash parts the path.
abbrev Parts : Text → ℕ → Type 0
Parts p i = (has_slash (take i p) ≡ false) × (rest : Text) × (take i p ++ b'/' ∷ rest ≡ p)

parted : (p : Text) (i : ℕ) → slash_at p ≡ some i → Parts p i
parted [] i e = cc
parted (c ∷ s) i e = elim (Bool-cases (c == b'/')) [
  | inl h ↦
      let first : some zero ≡ some i = rw h at e in
      subst (Parts (c ∷ s)) (some-injective zero i first)
        (refl, s, ap (λ d. d ∷ s) (sym ((==_iff c b'/').0 h)))
  | inr h ↦ elim (Option-cases (slash_at s)) [
    | inl n ↦ let both : none ≡ some i = rw (h, n) at e in cc
    | inr (j, t) ↦
        let later : some (suc j) ≡ some i = rw (h, t) at e in
        let (none_before, rest, whole) = parted s j t in
        subst (Parts (c ∷ s)) (some-injective (suc j) i later)
          (ground arith, rest, ap (λ d. c ∷ d) whole)
  ]
]

first_segment_of-IsTop : (p : Text) (o : Option ℕ) → slash_at p ≡ o → IsTop p (first_segment p o)
first_segment_of-IsTop p none e = without p (no_slash p e)
first_segment_of-IsTop p (some zero) e =
    let (_, rest, whole) = parted p 0 e in subst (λ q. IsTop q q) whole (leading rest)
first_segment_of-IsTop [] (some (suc i)) e = cc
first_segment_of-IsTop (c ∷ s) (some (suc i)) e =
    let (none_before, rest, whole) = parted (c ∷ s) (suc i) e in
    subst (λ q. IsTop q (c ∷ take i s)) whole (before c (take i s) rest none_before)

top_lem : (p : Text) → IsTop p (first_segment p (slash_at p))
top_lem p = first_segment_of-IsTop p (slash_at p) refl

-- The names to remove are the first segments of the paths, once a backslash is read as a slash: each
-- of them that is not empty, no other name, and none twice. The first segment of a path is what
-- stands before its first slash; a path without one, or that starts with one, is its own.
pub top_level_trash_names-Unique :
    (paths : List Text)
    → Unique (top_level_trash_names paths)
      × ((a : Text) → contains (top_level_trash_names paths) a ≡ has_top paths a)
      × All (λ p. IsTop (forward_slashes p) (top_of p)) paths
unfolding top_level_trash_names contains
top_level_trash_names-Unique paths =
    (top_level_loop-Unique [] paths tt, λ a. top_level_loop-contains [] paths a, all_tops paths)
  where
    all_tops : (ps : List Text) → All (λ p. IsTop (forward_slashes p) (top_of p)) ps
    all_tops [] = tt
    all_tops (p ∷ ps) = (top_lem (forward_slashes p), all_tops ps)

-- Some entry of that hash is too old.
abbrev pub has_old : ℤ → ℤ → List (ℤ × Text) → Text → Bool
has_old now max_age [] a = false
has_old now max_age (e ∷ es) a =
    ltb_ℤ max_age (now -ℤ e.0) && text_eq e.1 a || has_old now max_age es a

prune_old-contains :
    (now max_age : ℤ) (es : List (ℤ × Text)) (prune : List Text) (a : Text)
    → contains (prune_old now max_age es prune) a ≡ contains prune a || has_old now max_age es a
unfolding prune_old
prune_old-contains now max_age [] prune a = or_nothing (contains prune a)
  where
    or_nothing : (b : Bool) → b ≡ b || false
    or_nothing b = ground arith
prune_old-contains now max_age (e ∷ es) prune a =
    let old = ltb_ℤ max_age (now -ℤ e.0) in
    prune_old-contains now max_age es
      (if old && not (contains prune e.1) then prune ++ e.1 ∷ [] else prune) a
    ∙ grouped _ (contains prune a) (old && text_eq e.1 a) (has_old now max_age es a) (
        ap (λ (l : List Text). contains l a)
          (flipped old (contains prune e.1) prune (prune ++ e.1 ∷ []))
        ∙ added prune e.1 a (not old)
        ∙ twice (contains prune a) old (text_eq e.1 a))
  where
    grouped : (x b c d : Bool) → x ≡ b || c → x || d ≡ b || (c || d)
    grouped x b c d e = ground arith

    twice : (b o t : Bool) → b || not (not o) && t ≡ b || o && t
    twice b o t = ground arith

    flipped :
        (o c : Bool) (xs ys : List Text)
        → (if o && not c then ys else xs) ≡ (if not o || c then xs else ys)
    flipped true true xs ys = refl
    flipped true false xs ys = refl
    flipped false c xs ys = refl

-- A hash is forgotten exactly if it is one of the oldest, as many as there are more entries than are
-- to be kept, or has an entry older than the greatest age.
pub removed_history_lem :
    (entries : List (ℤ × Text)) (kept now max_age : ℤ) (a : Text)
    → contains (removed_history_hashes_to_prune entries kept now max_age) a
      ≡ contains (map (λ (e : ℤ × Text). e.1) (take (length entries - pos_part kept) entries)) a
        || has_old now max_age entries a
unfolding removed_history_hashes_to_prune prune_by_count
removed_history_lem entries kept now max_age a =
    prune_old-contains now max_age entries (prune_by_count entries kept) a
