-- ===== src/Games/AchievementLedger/Folding.antt =====
-- Records of src/services/games/achievementledger.cpp folded into one another: the earliest known
-- time wins.
use mathlib.Core.Option.{some-injective}
use batorrent.Base.{
  ==_iff, All, Bool, Bool-cases, List, Option, Text, [], ap, arith, assign, false, find,
  find-assign, if_cases, inl, inr, leb_ℤ, ltb_ℤ, none, pos, refl, some, subst, sym, text_eq,
  text_eq_iff, true, ℕ, ℤ, ◌<ℤ◌, ◌↔◌, ◌∙◌, ◌∷◌, ◌≡◌, ◌≤ℤ◌, ◌⊎◌,
}
use batorrent.Games.AchievementLedger.{
  Unlocks, Owned, Ledger, same_app, earliest, merged_time, fold_unlocks, owned_or_new, merged_game,
  fold_games, unlocks_at,
}

module _ {K W : Type 0} (eq : K → K → Bool) where
  -- A key that is not in a hash, and a hash that has each key once.
  abbrev pub LacksKey : K → List (K × W) → Type 0
  LacksKey k = All (λ p. eq p.0 k ≡ false)

  abbrev pub HasKeysOnce : List (K × W) → Type 0
  HasKeysOnce [] = Unit
  HasKeysOnce (p ∷ ps) = LacksKey p.0 ps × HasKeysOnce ps

  find-LacksKey : (k : K) (m : List (K × W)) → LacksKey k m → find eq k m ≡ none
  unfolding find
  find-LacksKey k [] h = refl
  find-LacksKey k ((j, v) ∷ m) (e, h) = rw e (find-LacksKey k m h)

  All-find :
      (P : W → Type 0) (k : K) (m : List (K × W)) {w : W}
      → All (λ p. P p.1) m
      → find eq k m ≡ some w
      → P w
  unfolding find
  All-find P k [] a e = cc
  All-find P k ((j, v) ∷ m) {w} (p, a) e = elim (Bool-cases (eq j k)) [
    | inl t ↦ subst P (some-injective v w (rw t at e)) p
    | inr t ↦ All-find P k m a (rw t at e)
  ]

module _ {K V W : Type 0} (eq : K → K → Bool) where
  -- Both loops: each entry is merged into what stands under its key.
  module _ (f : Option V → W → V) where
    merge_all : List (K × W) → List (K × V) → List (K × V)
    merge_all [] m = m
    merge_all ((k, w) ∷ ws) m = merge_all ws (assign eq k (f (find eq k m) w) m)

    abbrev merged_value : Option V → Option W → Option V
    merged_value o none = o
    merged_value o (some w) = some (f o w)

    find-merge_all :
        (eq_iff : (j k : K) → (eq j k ≡ true) ↔ (j ≡ k)) (ws : List (K × W)) (m : List (K × V))
        (k : K)
        → HasKeysOnce eq ws
        → find eq k (merge_all ws m) ≡ merged_value (find eq k m) (find eq k ws)
    unfolding merge_all find
    find-merge_all eq_iff [] m k h = refl
    find-merge_all eq_iff ((j, w) ∷ ws) m k (l, h) =
        let x = f (find eq j m) w in
        let m' = assign eq j x m in
        find-merge_all eq_iff ws m' k h ∙ elim (Bool-cases (eq j k)) [
          | inl e ↦
              let same : j ≡ k = (eq_iff j k).0 e in
              let gone : find eq k ws ≡ none =
                find-LacksKey eq k ws (subst (λ z. LacksKey eq z ws) same l) in
              let there : find eq k m' ≡ some x = find-assign eq eq_iff j k x m ∙ rw e refl in
              rw (there, gone, e) (ap (λ z. some (f (find eq z m) w)) same)
          | inr e ↦
              let there : find eq k m' ≡ find eq k m = find-assign eq eq_iff j k x m ∙ rw e refl in
              rw (there, e) refl
        ]

fold_unlocks-merge_all :
    (us mine : Unlocks) → (fold_unlocks us mine).0 ≡ merge_all text_eq merged_time us mine
unfolding fold_unlocks merge_all
fold_unlocks-merge_all [] mine = refl
fold_unlocks-merge_all ((k, v) ∷ us) mine =
    fold_unlocks-merge_all us (assign text_eq k (merged_time (find text_eq k mine) v) mine)

fold_games-merge_all :
    (into from : Ledger)
    → (fold_games into from).0
      ≡ merge_all same_app (λ o g. merged_game g (owned_or_new o)) from into
unfolding fold_games merge_all
fold_games-merge_all into [] = refl
fold_games-merge_all into ((app, g) ∷ gs) =
    fold_games-merge_all
      (assign same_app app (merged_game g (owned_or_new (find same_app app into))) into) gs

-- Of two times that may be unknown to a record.
abbrev combine : Option ℤ → Option ℤ → Option ℤ
combine none y = y
combine (some a) none = some a
combine (some a) (some b) = some (earliest a b)

-- When a record has an achievement of a game unlocked.
abbrev pub time_at : ℕ → Text → Ledger → Option ℤ
time_at app name games = find text_eq name (unlocks_at app games)

-- Each game once, and each achievement once in a game.
abbrev pub IsLedger : Ledger → Type 0
IsLedger games = HasKeysOnce same_app games × All (λ g. HasKeysOnce text_eq g.1.unlocks) games

combine_lem : (x y : Option ℤ) → merged_value text_eq merged_time x y ≡ combine x y
combine_lem none none = refl
combine_lem (some a) none = refl
combine_lem none (some b) = refl
combine_lem (some a) (some b) = refl

-- What a game that is merged has of an achievement.
merged_unlocks :
    (name : Text) (mine theirs : Option Owned)
    → ((g : Owned) → theirs ≡ some g → HasKeysOnce text_eq g.unlocks)
    → find text_eq name
        (owned_or_new
          (merged_value same_app (λ o g. merged_game g (owned_or_new o)) mine theirs)).unlocks
      ≡ combine
          (find text_eq name (owned_or_new mine).unlocks)
          (find text_eq name (owned_or_new theirs).unlocks)
unfolding find
merged_unlocks name mine none h = combine_lem (find text_eq name (owned_or_new mine).unlocks) none
merged_unlocks name mine (some g) h =
    ap (find text_eq name) (fold_unlocks-merge_all g.unlocks (owned_or_new mine).unlocks)
    ∙ find-merge_all text_eq merged_time text_eq_iff g.unlocks (owned_or_new mine).unlocks name
        (h g refl)
    ∙ combine_lem (find text_eq name (owned_or_new mine).unlocks) (find text_eq name g.unlocks)

time_at-combine :
    (into from : Ledger) (app : ℕ) (name : Text)
    → IsLedger from
    → time_at app name (fold_games into from).0
      ≡ combine (time_at app name into) (time_at app name from)
time_at-combine into from app name (apps, names) =
    let f = λ (o : Option Owned) (g : Owned). merged_game g (owned_or_new o) in
    ap (λ games. time_at app name games) (fold_games-merge_all into from)
    ∙ ap (λ (o : Option Owned). find text_eq name (owned_or_new o).unlocks)
        (find-merge_all same_app f ==_iff from into app apps)
    ∙ merged_unlocks name (find same_app app into) (find same_app app from)
        (λ g e. All-find same_app (λ g. HasKeysOnce text_eq g.unlocks) app from names e)

-- A time `z` is known if it is above 0; then it is no later than `x`, if that is known.
abbrev pub NotAfter : Option ℤ → Option ℤ → Type 0
NotAfter z none = Unit {0}
NotAfter none (some x) = ⊥
NotAfter (some z) (some x) = (x ≤ℤ pos 0) ⊎ ((pos 0 <ℤ z) × (z ≤ℤ x))

-- One of two times, and the earliest of those that are known.
abbrev pub IsEarliest : Option ℤ → Option ℤ → Option ℤ → Type 0
IsEarliest x y z = ((z ≡ x) ⊎ (z ≡ y)) × NotAfter z x × NotAfter z y

one_of : (a b : ℤ) → (some (earliest a b) ≡ some a) ⊎ (some (earliest a b) ≡ some b)
unfolding earliest
one_of a b =
    if_cases (λ c. (some c ≡ some a) ⊎ (some c ≡ some b)) (leb_ℤ a (pos 0)) (λ _. inr refl)
      (λ _.
        if_cases (λ c. (some c ≡ some a) ⊎ (some c ≡ some b)) (leb_ℤ b (pos 0)) (λ _. inl refl)
          (λ _.
            if_cases (λ c. (some c ≡ some a) ⊎ (some c ≡ some b)) (ltb_ℤ b a) (λ _. inr refl)
              (λ _. inl refl)))

not_after :
    (a b : ℤ) → NotAfter (some (earliest a b)) (some a) × NotAfter (some (earliest a b)) (some b)
unfolding earliest
not_after a b = ground arith

itself : (a : ℤ) → NotAfter (some a) (some a)
itself a = ground arith

combine-IsEarliest : (x y : Option ℤ) → IsEarliest x y (combine x y)
combine-IsEarliest none none = (inl refl, tt, tt)
combine-IsEarliest none (some b) = (inr refl, tt, itself b)
combine-IsEarliest (some a) none = (inl refl, itself a, tt)
combine-IsEarliest (some a) (some b) = (one_of a b, (not_after a b).0, (not_after a b).1)

-- After a record is folded into another one, an achievement of a game is unlocked in it when it was
-- in either: at one of the two times, and at the earliest of those that are known, which are those
-- above 0; a hash has each key once.
pub time_at-fold_games :
    (into from : Ledger) (app : ℕ) (name : Text)
    → IsLedger from
    → IsEarliest
        (time_at app name into)
        (time_at app name from)
        (time_at app name (fold_games into from).0)
time_at-fold_games into from app name l =
    subst (IsEarliest (time_at app name into) (time_at app name from))
      (sym (time_at-combine into from app name l))
      (combine-IsEarliest (time_at app name into) (time_at app name from))
