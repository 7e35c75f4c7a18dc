-- ===== src/Games/PlayLog.antt =====
-- src/services/games/playlog.h and .cpp: the history of play. The hash of games is an association
-- list. Sums of seconds do not wrap. The calendar is an argument, and so is the file: a save is
-- given as the JSON object that is written, whose numbers are exact.
pub mod Remembered
pub mod History
use batorrent.Base.{
  Bool, List, Option, Text, [], assign, false, find, get_or, if◌then◌else◌, is_some, leb_ℤ, length,
  ltb, ltb_ℤ, max_ℤ, min_ℤ, none, pos, pos_part, replicate, set, some, suc, text_eq, true, ℕ, ℤ,
  ◌&&◌, ◌++◌, ◌+◌, ◌-ℤ◌, ◌-◌, ◌||◌, ◌∷◌,
}

pub record Session : Type 0 where
  pub start_ms : ℕ
  pub secs : ℕ

pub record Summary : Type 0 where
  pub total_secs : ℕ
  pub last_played_ms : ℤ
  pub launches : ℕ

pub record Game : Type 0 where
  pub folded_secs : ℕ
  pub last_played_ms : ℤ
  pub launches : ℕ
  pub sessions : List Session

abbrev pub Games : Type 0
Games = List (Text × Game)

abbrev pub min_session_secs : ℕ
min_session_secs = 30

abbrev pub max_sessions : ℕ
max_sessions = 200

abbrev pub new_game : Game
new_game = record { folded_secs = 0; last_played_ms = pos 0; launches = 0; sessions = [] }

-- m_games[hash], for a key that may be new.
abbrev pub game_or_new : Option Game → Game
game_or_new none = new_game
game_or_new (some g) = g

abbrev pub game_at : Text → Games → Game
game_at hash games = game_or_new (find text_eq hash games)

unfoldable pub record_launch : Text → ℤ → Games → Games
unfolding find assign
record_launch hash now_ms games =
    let g = game_at hash games in
    assign text_eq hash (record g { last_played_ms = now_ms; launches = suc g.launches }) games

-- The loop that folds the oldest sessions into the total.
unfoldable pub fold_oldest : ℕ → List Session → ℕ × List Session
fold_oldest folded [] = (folded, [])
fold_oldest folded (s ∷ ss) =
    let rest = fold_oldest (folded + s.secs) ss in
    if ltb max_sessions (suc (length ss)) then rest else (folded, s ∷ ss)

-- The game with one session more, and the oldest folded.
unfoldable pub with_session : ℕ → ℕ → Game → Game
unfolding fold_oldest
with_session start_ms secs g =
    let (folded, sessions) =
      fold_oldest g.folded_secs (g.sessions ++ record { start_ms = start_ms; secs = secs } ∷ []) in
    record g { folded_secs = folded; sessions = sessions }

unfoldable pub record_session : Text → ℤ → ℤ → Games → Games × Bool
unfolding with_session find assign
record_session hash start_ms secs games =
    if leb_ℤ secs (pos min_session_secs) || leb_ℤ start_ms (pos 0) then (games, false) else (
      assign text_eq hash (with_session (pos_part start_ms) (pos_part secs) (game_at hash games))
          games,
      true,
    )

abbrev pub sum_secs : List Session → ℕ
sum_secs [] = 0
sum_secs (s ∷ ss) = s.secs + sum_secs ss

abbrev pub summary_of : Option Game → Summary
summary_of none = record { total_secs = 0; last_played_ms = pos 0; launches = 0 }
summary_of (some g) = record {
  total_secs = g.folded_secs + sum_secs g.sessions;
  last_played_ms = g.last_played_ms;
  launches = g.launches;
}

unfoldable pub summary : Text → Games → Summary
unfolding find
summary hash games = summary_of (find text_eq hash games)

abbrev pub imported : ℤ → ℤ → ℤ → Game
imported secs last_played_ms launches = record {
  folded_secs = pos_part secs;
  last_played_ms = max_ℤ (pos 0) last_played_ms;
  launches = pos_part launches;
  sessions = [];
}

-- qMax(0, n) is the positive part.
unfoldable pub import_totals : Text → ℤ → ℤ → ℤ → Games → Games
unfolding find assign
import_totals hash secs last_played_ms launches games =
    if is_some (find text_eq hash games)
    then games
    else if leb_ℤ secs (pos 0) && leb_ℤ last_played_ms (pos 0) && leb_ℤ launches (pos 0)
    then games
    else assign text_eq hash (imported secs last_played_ms launches) games

-- The day of a time, by the local calendar.
module _ (day_of : ℤ → ℤ) where
  unfoldable pub add_days : ℕ → ℤ → List Session → List ℕ → List ℕ
  add_days days today [] out = out
  add_days days today (s ∷ ss) out =
      let back = today -ℤ day_of (pos s.start_ms) in
      add_days days today ss (
        if leb_ℤ (pos 0) back && ltb_ℤ back (pos days)
        then (let i = days - 1 - pos_part back in set out i (get_or out i 0 + s.secs))
        else out)

  unfoldable pub daily_of : ℕ → ℤ → Option Game → List ℕ
  unfolding add_days
  daily_of days now_ms none = replicate days 0
  daily_of days now_ms (some g) = add_days days (day_of now_ms) g.sessions (replicate days 0)

  unfoldable pub daily_secs : Text → ℤ → ℤ → Games → List ℕ
  unfolding daily_of find
  daily_secs hash days now_ms games =
      daily_of (pos_part (min_ℤ (pos 366) days)) now_ms (find text_eq hash games)
