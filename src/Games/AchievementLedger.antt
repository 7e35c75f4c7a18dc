-- ===== src/Games/AchievementLedger.antt =====
-- src/services/games/achievementledger.h and .cpp: the record of unlocked achievements. The hashes
-- are association lists; the file's JSON is given by what it parses to.
pub mod Folding
use batorrent.Base.{
  Bool, List, Option, Text, [], assign, false, find, if◌then◌else◌, is_empty, is_some, leb_ℤ, ltb,
  min_ℤ, none, not, pos, pos_part, some, suc, text_eq, true, ℕ, ℤ, ◌&&◌, ◌+◌, ◌==◌, ◌||◌, ◌∷◌,
}

-- AchievementFormats::Unlocks: the times by the names.
abbrev pub Unlocks : Type 0
Unlocks = List (Text × ℤ)

pub record Owned : Type 0 where
  pub title : Text
  pub unlocks : Unlocks

abbrev pub Ledger : Type 0
Ledger = List (ℕ × Owned)

abbrev pub same_app : ℕ → ℕ → Bool
same_app a b = a == b

unfoldable pub earliest : ℤ → ℤ → ℤ
earliest a b = if leb_ℤ a (pos 0) then b else if leb_ℤ b (pos 0) then a else min_ℤ a b

abbrev pub merged_time : Option ℤ → ℤ → ℤ
merged_time none v = v
merged_time (some have) v = earliest have v

-- The loop over the unlocks of a game: what is had then, and how many were new.
unfoldable pub fold_unlocks : Unlocks → Unlocks → Unlocks × ℕ
unfolding find assign earliest
fold_unlocks [] mine = (mine, 0)
fold_unlocks ((k, v) ∷ us) mine =
    let have = find text_eq k mine in
    let (all, added) = fold_unlocks us (assign text_eq k (merged_time have v) mine) in
    (all, if is_some have then added else suc added)

abbrev pub owned_or_new : Option Owned → Owned
owned_or_new none = record { title = []; unlocks = [] }
owned_or_new (some g) = g

abbrev pub merged_game : Owned → Owned → Owned
merged_game g mine = record {
  title = if is_empty mine.title then g.title else mine.title;
  unlocks = (fold_unlocks g.unlocks mine.unlocks).0;
}

unfoldable pub fold_games : Ledger → Ledger → Ledger × ℕ
unfolding fold_unlocks find assign
fold_games into [] = (into, 0)
fold_games into ((app, g) ∷ gs) =
    let mine = owned_or_new (find same_app app into) in
    let (all, added) = fold_games (assign same_app app (merged_game g mine) into) gs in
    (all, (fold_unlocks g.unlocks mine.unlocks).1 + added)

-- The object: whether it has loaded its file, and its record.
pub record AchievementLedger : Type 0 where
  pub has_loaded : Bool
  pub games : Ledger

-- The file's record, if it is there, not too long and is one.
unfoldable pub load_file : Option Ledger → AchievementLedger → AchievementLedger
load_file file l = if l.has_loaded then l else elim file [
  | none ↦ record l { has_loaded = true }
  | some games ↦ record { has_loaded = true; games = games }
]

abbrev pub title_at : ℕ → Ledger → Text
title_at app games = (owned_or_new (find same_app app games)).title

abbrev pub unlocks_at : ℕ → Ledger → Unlocks
unlocks_at app games = (owned_or_new (find same_app app games)).unlocks

-- What the files show, kept: the record, the unlocks, and whether it is saved.
unfoldable pub keep_seen : ℕ → Text → Unlocks → Ledger → Ledger × Unlocks × Bool
unfolding fold_games find
keep_seen app title from_files games =
    let (all, added) =
      fold_games games ((app, record { title = title; unlocks = from_files }) ∷ []) in
    (all, unlocks_at app all, ltb 0 added || not (text_eq (title_at app all) (title_at app games)))

-- The argument before the last is the file, for a load that was not made yet.
unfoldable pub merged :
    ℤ → Text → Unlocks → Option Ledger → AchievementLedger → AchievementLedger × Unlocks × Bool
unfolding load_file keep_seen
merged app_id title from_files file l =
    let l' = load_file file l in
    if leb_ℤ app_id (pos 0)
    then (l', from_files, false)
    else if is_empty from_files && not (is_some (find same_app (pos_part app_id) l'.games))
    then (l', [], false)
    else let (games, unlocks, saves) = keep_seen (pos_part app_id) title from_files l'.games in
      (record l' { games = games }, unlocks, saves)

-- `none` for -1, when the file is not a record; else it is saved, and the new unlocks are counted.
unfoldable pub import_from :
    Option Ledger → Option Ledger → AchievementLedger → AchievementLedger × Option ℕ
unfolding load_file fold_games
import_from theirs file l =
    let l' = load_file file l in
    elim theirs [
      | none ↦ (l', none)
      | some games ↦
          let (all, added) = fold_games l'.games games in (record l' { games = all }, some added)
    ]
