-- ===== src/Games/PlayLog/History.antt =====
-- src/services/games/playlog.cpp against the history of what was recorded: the summaries are those
-- of all that happened, although only the last sessions are kept.
use batorrent.Base.{
  Bool, Bool-cases, List, Option, Option-cases, Text, [], ap, arith, assign, false, find,
  find-assign, if_cases, if◌then◌else◌, inl, inr, is_some, leb_ℤ, length, ltb, max_ℤ, none, pos,
  pos_part, refl, some, suc, sym, text_eq, text_eq_iff, true, ℕ, ℤ, ◌&&◌, ◌++◌, ◌+◌, ◌||◌, ◌∙◌, ◌∷◌,
  ◌≡◌, ◌≤◌,
}
use batorrent.Games.PlayLog.{
  Session, Summary, Game, Games, new_game, game_or_new, game_at, record_launch, fold_oldest,
  with_session, record_session, sum_secs, summary_of, summary, imported, import_totals,
  max_sessions,
}
use batorrent.Games.PlayLog.Remembered.{
  PlayEvent, launched, played, carried_over, handle, replay, or_nothing, add_launch, carry,
  remember, remember_all, known_of,
}

sum_secs-append : (xs ys : List Session) → sum_secs (xs ++ ys) ≡ sum_secs xs + sum_secs ys
sum_secs-append [] ys = omega arith
sum_secs-append (x ∷ xs) ys = omega (arith, sum_secs-append xs ys)

-- Folding keeps the sum, and leaves no more sessions than the limit.
fold_oldest-sum :
    (folded : ℕ) (ss : List Session)
    → ((fold_oldest folded ss).0 + sum_secs (fold_oldest folded ss).1 ≡ folded + sum_secs ss)
      × (length (fold_oldest folded ss).1 ≤ max_sessions)
unfolding fold_oldest
fold_oldest-sum folded [] = (refl, omega arith)
fold_oldest-sum folded (s ∷ ss) =
    if_cases Sums (ltb max_sessions (suc (length ss)))
      (λ _. let (e, l) = fold_oldest-sum (folded + s.secs) ss in (omega (arith, e), l))
      (λ e. (refl, few e))
  where
    Sums : ℕ × List Session → Type 0
    Sums r = (r.0 + sum_secs r.1 ≡ folded + sum_secs (s ∷ ss)) × (length r.1 ≤ max_sessions)

    few : ltb max_sessions (suc (length ss)) ≡ false → suc (length ss) ≤ max_sessions
    few e = ground arith

known_of-with_session :
    (start secs : ℕ) (g : Game)
    → known_of (some (with_session start secs g))
      ≡ some (record {
        total_secs = g.folded_secs + sum_secs g.sessions + secs;
        last_played_ms = g.last_played_ms;
        launches = g.launches;
      })
unfolding with_session
known_of-with_session start secs g =
    let more = record { start_ms = start; secs = secs } ∷ [] in
    let (e, _) = fold_oldest-sum g.folded_secs (g.sessions ++ more) in
    ap
      (λ n.
        some (record { total_secs = n; last_played_ms = g.last_played_ms; launches = g.launches }))
      (omega (arith, e, sum_secs-append g.sessions more))

known_of-assign :
    (hash game : Text) (g : Game) (games : Games)
    → known_of (find text_eq game (assign text_eq hash g games))
      ≡ (if text_eq hash game then known_of (some g) else known_of (find text_eq game games))
known_of-assign hash game g games = elim (Bool-cases (text_eq hash game)) [
  | inl e ↦ rw (find-assign text_eq text_eq_iff hash game g games, e) refl
  | inr e ↦ rw (find-assign text_eq text_eq_iff hash game g games, e) refl
]

known_launch :
    (now : ℤ) (o : Option Game)
    → known_of (
        some (record (game_or_new o) {
          last_played_ms = now;
          launches = suc (game_or_new o).launches;
        }))
      ≡ some (add_launch now (or_nothing (known_of o)))
known_launch now none = refl
known_launch now (some g) = refl

known_session :
    (start secs : ℕ) (o : Option Game)
    → known_of (some (with_session start secs (game_or_new o)))
      ≡ some (let s = or_nothing (known_of o) in record s { total_secs = s.total_secs + secs })
known_session start secs none = known_of-with_session start secs new_game
known_session start secs (some g) = known_of-with_session start secs g

-- Under the test on the keys, one stands for the other.
same_key :
    (hash game : Text) (games : Games) (F : Option Game → Option Summary) (d : Option Summary)
    → (if text_eq hash game then F (find text_eq hash games) else d)
      ≡ (if text_eq hash game then F (find text_eq game games) else d)
same_key hash game games F d = elim (Bool-cases (text_eq hash game)) [
  | inl e ↦
      ap (λ k. if text_eq hash game then F (find text_eq k games) else d)
        ((text_eq_iff hash game).0 e)
  | inr e ↦ rw e refl
]

if_same {ℓ} : {A : Type ℓ} (t : Bool) (a : A) → (if t then a else a) ≡ a
if_same true a = refl
if_same false a = refl

-- A test on the key of what is known of it before.
under_key :
    (hash game : Text) (games : Games) (F : Option Summary → Option Summary) (x : Option Summary)
    → x ≡ F (known_of (find text_eq hash games))
    → (if text_eq hash game then x else known_of (find text_eq game games)) ≡ (
        if text_eq hash game
        then F (known_of (find text_eq game games))
        else known_of (find text_eq game games))
under_key hash game games F x e =
    ap (λ y. if text_eq hash game then y else known_of (find text_eq game games)) e
    ∙ same_key hash game games (λ o. F (known_of o)) (known_of (find text_eq game games))

-- What leaves the known summary of the key leaves all.
unchanged :
    (hash game : Text) (games : Games) (F : Option Summary → Option Summary)
    → known_of (find text_eq hash games) ≡ F (known_of (find text_eq hash games))
    → known_of (find text_eq game games) ≡ (
        if text_eq hash game
        then F (known_of (find text_eq game games))
        else known_of (find text_eq game games))
unchanged hash game games F e =
    sym (if_same (text_eq hash game) (known_of (find text_eq game games)))
    ∙ sym (same_key hash game games known_of (known_of (find text_eq game games)))
    ∙ under_key hash game games F (known_of (find text_eq hash games)) e

handle_launched :
    (hash : Text) (now : ℤ) (game : Text) (games : Games)
    → known_of (find text_eq game (record_launch hash now games))
      ≡ remember game (launched hash now) (known_of (find text_eq game games))
unfolding record_launch
handle_launched hash now game games =
    let g = game_at hash games in
    known_of-assign hash game (record g { last_played_ms = now; launches = suc g.launches }) games
    ∙ under_key hash game games (λ k. some (add_launch now (or_nothing k))) _
        (known_launch now (find text_eq hash games))

handle_played :
    (hash : Text) (start secs : ℤ) (game : Text) (games : Games)
    → known_of (find text_eq game (record_session hash start secs games).0)
      ≡ remember game (played hash start secs) (known_of (find text_eq game games))
unfolding record_session
handle_played hash start secs game games =
    elim (Bool-cases (leb_ℤ secs (pos 30) || leb_ℤ start (pos 0))) [
      | inl r ↦ rw r (sym (if_same (text_eq hash game) (known_of (find text_eq game games))))
      | inr r ↦ rw r (
          known_of-assign hash game
            (with_session (pos_part start) (pos_part secs) (game_at hash games)) games
          ∙ under_key hash game games
              (λ k.
                let s = or_nothing k in
                some (record s { total_secs = s.total_secs + pos_part secs }))
              _ (known_session (pos_part start) (pos_part secs) (find text_eq hash games)))
    ]

known_imported :
    (secs last launches : ℤ)
    → ◌≡◌ {A = Option Summary} (known_of (some (imported secs last launches))) (
        some (record {
          total_secs = pos_part secs;
          last_played_ms = max_ℤ (pos 0) last;
          launches = pos_part launches;
        }))
known_imported secs last launches = ground arith

handle_carried_over :
    (hash : Text) (secs last launches : ℤ) (game : Text) (games : Games)
    → known_of (find text_eq game (import_totals hash secs last launches games))
      ≡ remember game (carried_over hash secs last launches) (known_of (find text_eq game games))
unfolding import_totals
handle_carried_over hash secs last launches game games =
    let empty = leb_ℤ secs (pos 0) && leb_ℤ last (pos 0) && leb_ℤ launches (pos 0) in
    let fresh = if empty then games else assign text_eq hash (imported secs last launches) games in
    elim (Option-cases (find text_eq hash games)) [
      | inr (g, e) ↦
          ap (λ o. known_of (find text_eq game (if is_some o then games else fresh))) e
          ∙ unchanged hash game games (carry secs last launches) (rw e refl)
      | inl e ↦
          ap (λ o. known_of (find text_eq game (if is_some o then games else fresh))) e
          ∙ elim (Bool-cases empty) [
            | inl r ↦ rw r (unchanged hash game games (carry secs last launches) (rw (e, r) refl))
            | inr r ↦ rw r (
                known_of-assign hash game (imported secs last launches) games
                ∙ under_key hash game games (carry secs last launches) _
                    (rw (e, r) (known_imported secs last launches)))
          ]
    ]

handle-remember :
    (e : PlayEvent) (game : Text) (games : Games)
    → known_of (find text_eq game (handle e games))
      ≡ remember game e (known_of (find text_eq game games))
unfolding handle
handle-remember (launched hash now) game games = handle_launched hash now game games
handle-remember (played hash start secs) game games = handle_played hash start secs game games
handle-remember (carried_over hash secs last launches) game games =
    handle_carried_over hash secs last launches game games

replay-remember_all :
    (es : List PlayEvent) (game : Text) (games : Games)
    → known_of (find text_eq game (replay es games))
      ≡ remember_all game es (known_of (find text_eq game games))
unfolding replay
replay-remember_all [] game games = refl
replay-remember_all (e ∷ es) game games =
    replay-remember_all es game (handle e games)
    ∙ ap (remember_all game es) (handle-remember e game games)

summary_lem : (o : Option Game) → summary_of o ≡ or_nothing (known_of o)
summary_lem none = refl
summary_lem (some g) = refl

-- After anything that was recorded, the summary of a game is what the specification remembers: its
-- launches, the time of the last, and the seconds of all its sessions that count, also of those
-- that were folded, with totals carried over only for a game that was new.
pub summary-replay :
    (es : List PlayEvent) (game : Text)
    → summary game (replay es []) ≡ or_nothing (remember_all game es none)
unfolding summary find
summary-replay es game =
    summary_lem (find text_eq game (replay es [])) ∙ ap or_nothing (replay-remember_all es game [])
