-- ===== src/Torrent/MagnetTrackers/Own.antt =====
-- What src/torrent/magnettrackers.h adds to a magnet's own trackers, and what is left when it is taken
-- back.
use batorrent.Base.{
  All, Bool-cases, List, Text, [], ap, append-nil, arith, false, if_both, if_cases, if◌then◌else◌,
  inl, inr, length, length-append, not, pos, refl, subst, suc, sym, text_eq, text_eq_refl, true,
  zero, ℕ, ℤ, ◌++◌, ◌+◌, ◌==◌, ◌∙◌, ◌∷◌, ◌≡◌,
}
use batorrent.Torrent.MagnetTrackers.{
  public_trackers, is_among, Trackers, add_tracker, add_trackers, resize_tiers,
  append_public_trackers, strip_public_trackers,
}

abbrev IsPublic : Text → Type 0
IsPublic t = is_among t public_trackers ≡ true

-- Each tracker has a tier.
abbrev pub HasTiers : Trackers → Type 0
HasTiers m = length m.tiers ≡ length m.urls

length-resize_tiers : (n : ℕ) (ts : List ℤ) → length (resize_tiers n ts) ≡ n
length-resize_tiers zero ts = refl
length-resize_tiers (suc n) [] = ap suc (length-resize_tiers n [])
length-resize_tiers (suc n) (t ∷ ts) = ap suc (length-resize_tiers n ts)

strip_append :
    (us vs : List Text)
    → strip_public_trackers (us ++ vs) ≡ strip_public_trackers us ++ strip_public_trackers vs
unfolding strip_public_trackers
strip_append [] vs = refl
strip_append (u ∷ us) vs =
    if_both (λ l r. l ≡ r ++ strip_public_trackers vs) (is_among u public_trackers)
      (strip_append us vs) (ap (λ r. u ∷ r) (strip_append us vs))

strip_one : (t : Text) → IsPublic t → strip_public_trackers (t ∷ []) ≡ []
unfolding strip_public_trackers
strip_one t p = rw p

-- The round adds what a strip takes back, and its tier.
abbrev SameOwn : Trackers → Trackers → Type 0
SameOwn m n =
    (strip_public_trackers n.urls ≡ strip_public_trackers m.urls)
    × (length n.tiers + length m.urls ≡ length m.tiers + length n.urls)

add_tracker-SameOwn : (t : Text) (m : Trackers × ℤ) → IsPublic t → SameOwn m.0 (add_tracker t m).0
add_tracker-SameOwn t (m, tier) p =
    if_cases (λ (n : Trackers × ℤ). SameOwn m n.0) (is_among t m.urls) (λ _. (refl, refl))
      (λ _. (
        strip_append m.urls (t ∷ [])
            ∙ ap (λ r. strip_public_trackers m.urls ++ r) (strip_one t p)
            ∙ append-nil (strip_public_trackers m.urls),
        omega (arith, length-append m.urls (t ∷ []), length-append m.tiers (tier ∷ [])),
      ))

add_trackers-SameOwn :
    (ts : List Text) (m : Trackers × ℤ) → All IsPublic ts → SameOwn m.0 (add_trackers ts m).0
add_trackers-SameOwn [] m a = (refl, refl)
add_trackers-SameOwn (t ∷ ts) m (p, a) =
    let (e, l) = add_tracker-SameOwn t m p in
    let (f, k) = add_trackers-SameOwn ts (add_tracker t m) a in (f ∙ e, omega (arith, l, k))

public_trackers-All : All IsPublic public_trackers
unfolding public_trackers text_eq
public_trackers-All = (refl, (refl, (refl, (refl, (refl, tt)))))

with_tiers :
    (n : ℕ) (ts : List ℤ) → length (if not (length ts == n) then resize_tiers n ts else ts) ≡ n
with_tiers n ts =
    if_cases (λ us. length us ≡ n) (not (length ts == n)) (λ _. length-resize_tiers n ts)
      (λ h. ground arith)

-- The second list is the first one without the public trackers, in its order.
pub data IsOwnOf : List Text → List Text → Type 0 where
  nothing : IsOwnOf [] []
  keeps :
      (u : Text) {us vs : List Text}
      → is_among u public_trackers ≡ false
      → IsOwnOf us vs
      → IsOwnOf (u ∷ us) (u ∷ vs)
  drops :
      (u : Text) {us vs : List Text}
      → is_among u public_trackers ≡ true
      → IsOwnOf us vs
      → IsOwnOf (u ∷ us) vs

strip-IsOwnOf : (us : List Text) → IsOwnOf us (strip_public_trackers us)
unfolding strip_public_trackers
strip-IsOwnOf [] = nothing
strip-IsOwnOf (u ∷ us) =
    if_cases (IsOwnOf (u ∷ us)) (is_among u public_trackers) (λ p. drops u p (strip-IsOwnOf us))
      (λ p. keeps u p (strip-IsOwnOf us))

-- What a magnet is given is taken back when it turns out to be private: then the trackers are its own
-- that are not among the public ones, all of them and in their order; before that, each tracker has a
-- tier, whatever tiers the magnet came with.
pub append_public_trackers-strip :
    (m : Trackers)
    → IsOwnOf m.urls (strip_public_trackers (append_public_trackers m).urls)
      × (length (append_public_trackers m).tiers ≡ length (append_public_trackers m).urls)
unfolding append_public_trackers
append_public_trackers-strip m =
    let n = length m.urls in
    let tiers = if not (length m.tiers == n) then resize_tiers n m.tiers else m.tiers in
    let (e, l) =
      add_trackers-SameOwn public_trackers (record m { tiers = tiers }, pos n)
        public_trackers-All in
    (subst (IsOwnOf m.urls) (sym e) (strip-IsOwnOf m.urls), omega (arith, l, with_tiers n m.tiers))

is_among-append_left :
    (t : Text) (us vs : List Text) → is_among t us ≡ true → is_among t (us ++ vs) ≡ true
is_among-append_left t [] vs h = cc
is_among-append_left t (u ∷ us) vs h = elim (Bool-cases (text_eq u t)) [
  | inl e ↦ rw e
  | inr n ↦ let rest = is_among-append_left t us vs (ground arith) in ground arith
]

is_among-append_last : (t : Text) (us : List Text) → is_among t (us ++ t ∷ []) ≡ true
is_among-append_last t [] = let same = text_eq_refl t in ground arith
is_among-append_last t (u ∷ us) = let rest = is_among-append_last t us in ground arith

abbrev IsIn : Trackers × ℤ → Text → Type 0
IsIn m t = is_among t m.0.urls ≡ true

add_tracker-IsIn : (t : Text) (m : Trackers × ℤ) → IsIn (add_tracker t m) t
add_tracker-IsIn t (m, tier) =
    if_cases (λ (n : Trackers × ℤ). IsIn n t) (is_among t m.urls) (λ h. h)
      (λ _. is_among-append_last t m.urls)

add_tracker_keeps : (t u : Text) (m : Trackers × ℤ) → IsIn m u → IsIn (add_tracker t m) u
add_tracker_keeps t u (m, tier) h =
    if_cases (λ (n : Trackers × ℤ). IsIn n u) (is_among t m.urls) (λ _. h)
      (λ _. is_among-append_left u m.urls (t ∷ []) h)

add_trackers_keep :
    (ts : List Text) (u : Text) (m : Trackers × ℤ) → IsIn m u → IsIn (add_trackers ts m) u
add_trackers_keep [] u m h = h
add_trackers_keep (t ∷ ts) u m h =
    add_trackers_keep ts u (add_tracker t m) (add_tracker_keeps t u m h)

add_trackers-IsIn : (ts : List Text) (m : Trackers × ℤ) → All (IsIn (add_trackers ts m)) ts
add_trackers-IsIn [] m = tt
add_trackers-IsIn (t ∷ ts) m = (
  add_trackers_keep ts t (add_tracker t m) (add_tracker-IsIn t m),
  add_trackers-IsIn ts (add_tracker t m),
)

add_tracker_again : (t : Text) (m : Trackers × ℤ) → IsIn m t → add_tracker t m ≡ m
add_tracker_again t (m, tier) h = rw h

add_trackers_again : (ts : List Text) (m : Trackers × ℤ) → All (IsIn m) ts → add_trackers ts m ≡ m
add_trackers_again [] m a = refl
add_trackers_again (t ∷ ts) m (h, a) =
    ap (add_trackers ts) (add_tracker_again t m h) ∙ add_trackers_again ts m a

-- With every public tracker there and a tier for each, there is nothing to add.
append_public_trackers_settled :
    (m : Trackers)
    → HasTiers m
    → All (λ t. is_among t m.urls ≡ true) public_trackers
    → append_public_trackers m ≡ m
unfolding append_public_trackers
append_public_trackers_settled m l a =
    let n = length m.urls in
    let kept =
      if_cases (λ ts. ts ≡ m.tiers) (not (length m.tiers == n)) (λ h. ground arith) (λ _. refl) in
    ap (λ ts. (add_trackers public_trackers (record m { tiers = ts }, pos n)).0) kept
    ∙ ap (λ r. r.0) (add_trackers_again public_trackers (m, pos n) a)

append_public_trackers-All :
    (m : Trackers) → All (λ t. is_among t (append_public_trackers m).urls ≡ true) public_trackers
unfolding append_public_trackers
append_public_trackers-All m =
    let n = length m.urls in
    let tiers = if not (length m.tiers == n) then resize_tiers n m.tiers else m.tiers in
    add_trackers-IsIn public_trackers (record m { tiers = tiers }, pos n)

-- A magnet that has been given the public trackers has each of them, and is given nothing when it is
-- asked again.
pub append_public_trackers_again :
    (m : Trackers)
    → (let once = append_public_trackers m in
        All (λ t. is_among t once.urls ≡ true) public_trackers
        × (append_public_trackers once ≡ once))
append_public_trackers_again m =
    let all = append_public_trackers-All m in
    (
      all,
      append_public_trackers_settled (append_public_trackers m) (append_public_trackers-strip m).1
          all,
    )
