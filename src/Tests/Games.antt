-- ===== src/Tests/Games.antt =====
-- Runs of src/services/games at fixed inputs.
use batorrent.Base.{List, Text, [], codes, none, pos, refl, text_eq, ◌-ℤ◌, ◌∷◌, ◌≡◌}
use batorrent.Games.AchievementLedger.{Ledger, fold_games}
use batorrent.Games.AchievementLedger.Folding.{time_at, IsEarliest, IsLedger, time_at-fold_games}
use batorrent.Games.PlayLog.{summary, daily_secs}
use batorrent.Games.PlayLog.Remembered.{
  PlayEvent, launched, played, carried_over, replay, remember_all, or_nothing,
}
use batorrent.Games.PlayLog.History.{summary-replay}

abbrev tetris : Text
tetris = codes "t"

abbrev evenings : List PlayEvent
evenings =
    carried_over tetris (pos 100) (pos 5) (pos 2)
    ∷ launched tetris (pos 9)
    ∷ played tetris (pos 9) (pos 30)
    ∷ played tetris (pos 9) (pos 31)
    ∷ []

played_evenings :
    summary tetris (replay evenings [])
    ≡ record { total_secs = 131; last_played_ms = pos 9; launches = 3 }
unfolding summary replay text_eq
played_evenings = refl

played_days : daily_secs (λ t. t) tetris (pos 3) (pos 10) (replay evenings []) ≡ 0 ∷ 31 ∷ 0 ∷ []
unfolding daily_secs replay text_eq ◌-ℤ◌
played_days = refl

summary-replay_example :
    summary tetris (replay evenings []) ≡ or_nothing (remember_all tetris evenings none)
summary-replay_example = summary-replay evenings tetris

abbrev here_games : Ledger
here_games = (7, record { title = []; unlocks = (codes "a", pos 0) ∷ (codes "b", pos 9) ∷ [] }) ∷ []

abbrev there_games : Ledger
there_games =
    (7, record { title = codes "G"; unlocks = (codes "b", pos 4) ∷ (codes "c", pos 3) ∷ [] }) ∷ []

folds_one : (fold_games here_games there_games).1 ≡ 1
unfolding fold_games text_eq
folds_one = refl

is_ledger : IsLedger there_games
unfolding text_eq
is_ledger = ((tt, tt), (((refl, tt), (tt, tt)), tt))

time_at-fold_games_example :
    IsEarliest
      (time_at 7 (codes "b") here_games)
      (time_at 7 (codes "b") there_games)
      (time_at 7 (codes "b") (fold_games here_games there_games).0)
time_at-fold_games_example = time_at-fold_games here_games there_games 7 (codes "b") is_ledger
