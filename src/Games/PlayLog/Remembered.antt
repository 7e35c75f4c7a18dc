-- ===== src/Games/PlayLog/Remembered.antt =====
-- What may be recorded in src/services/games/playlog.cpp, and a specification of what is remembered.
use batorrent.Base.{
  Bool, List, Option, Text, [], if◌then◌else◌, leb_ℤ, max_ℤ, none, not, pos, pos_part, some, suc,
  text_eq, ℤ, ◌&&◌, ◌+◌, ◌||◌, ◌∷◌,
}
use batorrent.Games.PlayLog.{
  Summary, Game, Games, record_launch, record_session, summary_of, import_totals,
}

-- What is recorded.
pub data PlayEvent : Type 0 where
  launched : Text → ℤ → PlayEvent
  played : Text → ℤ → ℤ → PlayEvent
  carried_over : Text → ℤ → ℤ → ℤ → PlayEvent

unfoldable pub handle : PlayEvent → Games → Games
unfolding record_launch record_session import_totals
handle (launched hash now) games = record_launch hash now games
handle (played hash start secs) games = (record_session hash start secs games).0
handle (carried_over hash secs last launches) games = import_totals hash secs last launches games

unfoldable pub replay : List PlayEvent → Games → Games
unfolding handle
replay [] games = games
replay (e ∷ es) games = replay es (handle e games)

-- The specification: what is remembered of one game, with no sessions in it.
abbrev pub nothing : Summary
nothing = record { total_secs = 0; last_played_ms = pos 0; launches = 0 }

abbrev pub or_nothing : Option Summary → Summary
or_nothing none = nothing
or_nothing (some s) = s

abbrev pub add_launch : ℤ → Summary → Summary
add_launch now s = record s { last_played_ms = now; launches = suc s.launches }

abbrev pub counts : ℤ → ℤ → Bool
counts start secs = not (leb_ℤ secs (pos 30) || leb_ℤ start (pos 0))

abbrev pub add_session : ℤ → ℤ → Option Summary → Option Summary
add_session start secs known =
    let s = or_nothing known in
    if counts start secs
    then some (record s { total_secs = s.total_secs + pos_part secs })
    else known

abbrev pub carry : ℤ → ℤ → ℤ → Option Summary → Option Summary
carry secs last launches (some s) = some s
carry secs last launches none =
    if leb_ℤ secs (pos 0) && leb_ℤ last (pos 0) && leb_ℤ launches (pos 0)
    then none
    else some (record {
      total_secs = pos_part secs;
      last_played_ms = max_ℤ (pos 0) last;
      launches = pos_part launches;
    })

-- A launch counts, a session counts if it is longer than half a minute, and totals are carried over
-- for a game of which nothing is known.
abbrev pub remember : Text → PlayEvent → Option Summary → Option Summary
remember game (launched hash now) known =
    if text_eq hash game then some (add_launch now (or_nothing known)) else known
remember game (played hash start secs) known =
    if text_eq hash game then add_session start secs known else known
remember game (carried_over hash secs last launches) known =
    if text_eq hash game then carry secs last launches known else known

abbrev pub remember_all : Text → List PlayEvent → Option Summary → Option Summary
remember_all game [] known = known
remember_all game (e ∷ es) known = remember_all game es (remember game e known)

-- What the log knows of a game.
abbrev pub known_of : Option Game → Option Summary
known_of none = none
known_of (some g) = some (summary_of (some g))
