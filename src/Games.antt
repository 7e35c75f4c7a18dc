-- ===== src/Games.antt =====
-- src/services/games: the records of games that are kept.
pub mod PlayLog
pub mod AchievementLedger
