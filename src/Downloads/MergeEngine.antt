-- ===== src/Downloads/MergeEngine.antt =====
-- src/services/downloads/httpmergeengine.cpp: the downloads shown as rows behind the torrents. The
-- engine that is wrapped is a parameter, `Engine`.
pub mod Commands
pub mod Hashes
use batorrent.Base.{
  Bool, Option, Text, [], if◌then◌else◌, leb_ℤ, length, negsuc, none, not, pos, some, ℕ, ℤ, ◌+◌,
  ◌-ℤ◌,
}
use batorrent.Downloads.HttpDownload.Types.{
  State, queued, probing, downloading, paused, completed, failed, Failure, none_yet, HttpDownload,
  Answers, rank, state_is, received_bytes,
}
use batorrent.Downloads.Manager.{
  Manager, http_row_hash, is_http_row_hash, http_row_id, index_of, at, pause_item, resume_item,
  remove_item,
}
use Commands.{
  Command, pause_torrent, resume_torrent, remove_torrent, set_file_priority,
  set_torrent_queue_position, set_sequential_download, prioritize_file_piece_boundaries,
  rename_file, extract_torrent, unmark_completed, stop_seeding_torrent, set_torrent_upload_limit,
  set_torrent_tags, set_torrent_stop_after_download, set_torrent_max_seed_seconds,
  set_torrent_download_limit, set_torrent_category, set_super_seeding, set_force_start,
  replace_trackers, move_storage, mark_completed, force_recheck, force_reannounce, export_torrent,
  add_tracker, stream_set_deadline_window, add_torrent, restore_removed,
  add_torrent_with_priorities, add_magnet, add_torrent_file_with, add_magnet_with, stage_magnet,
  commit_staged, discard_staged, set_alt_speeds_active, save_resume_data, resume_all, pause_all,
  import_from_qbittorrent, clear_removed_history, set_proxy_settings, set_advanced_settings,
  apply_setting,
}

-- The wrapped engine, over states `S`: what a call does and answers, and what a row's queries answer.
pub record Engine (S X : Type 0) : Type 0 where
  pub torrent_count : S → ℕ
  pub hash_at : S → ℤ → Text
  pub index_by_hash : S → Text → ℤ
  pub run : Command X → S → S × ℤ

pub record Merged (S : Type 0) : Type 0 where
  pub inner : S
  pub http : Manager

abbrev pub hash_of : Option HttpDownload → Text
hash_of none = []
hash_of (some d) = http_row_hash d.id

-- The row of the download that was found behind `b` torrents, or -1.
abbrev pub row_behind : ℕ → Option ℕ → ℤ
row_behind b none = negsuc 0
row_behind b (some i) = pos (b + i)

module _ {S X : Type 0} (engine : Engine S X) where
  abbrev pub base : Merged S → ℕ
  base m = engine.torrent_count m.inner

  unfoldable pub is_http : Merged S → ℤ → Bool
  is_http m i = leb_ℤ (pos (base m)) i

  unfoldable pub http_at : Merged S → ℤ → Option HttpDownload
  unfolding at ◌-ℤ◌
  http_at m i = at (i -ℤ pos (base m)) m.http

  unfoldable pub torrent_count : Merged S → ℕ
  torrent_count m = base m + length m.http.items

  unfoldable pub hash_at : Merged S → ℤ → Text
  unfolding is_http http_at
  hash_at m i = if not (is_http m i) then engine.hash_at m.inner i else hash_of (http_at m i)

  unfoldable pub index_by_hash : Merged S → Text → ℤ
  unfolding is_http_row_hash http_row_id index_of
  index_by_hash m h =
      if is_http_row_hash h
      then row_behind (base m) (index_of (http_row_id h) m.http.items)
      else engine.index_by_hash m.inner h

  -- A query of a row that only torrents answer: the default for a direct download.
  unfoldable pub row_query : {A : Type 0} → A → (S → ℤ → A) → Merged S → ℤ → A
  unfolding is_http
  row_query default ask m i = if is_http m i then default else ask m.inner i

  unfoldable pub delegate : Command X → Merged S → Merged S × ℤ
  delegate c m = let (s, result) = engine.run c m.inner in (record m { inner = s }, result)

  -- `if (isHttp(index)) return; m_inner->...`
  unfoldable pub unless_http : ℤ → Command X → Merged S → Merged S × ℤ
  unfolding is_http delegate
  unless_http i c m = if is_http m i then (m, pos 0) else delegate c m

  -- The call on the download of a row; there may be none.
  abbrev pub on_download :
      (HttpDownload → Manager → Manager) → Merged S → Option HttpDownload → Merged S
  on_download f m none = m
  on_download f m (some d) = record m { http = f d m.http }

  unfoldable pub on_row :
      ℤ → (HttpDownload → Manager → Manager) → Command X → Merged S → Merged S × ℤ
  unfolding is_http http_at delegate
  on_row i f c m = if is_http m i then (on_download f m (http_at m i), pos 0) else delegate c m

  -- Each call, with its own guard, if it has one.
  unfoldable pub run : Answers → Command X → Merged S → Merged S × ℤ
  unfolding on_row unless_http delegate pause_item resume_item remove_item
  run env (pause_torrent i) m = on_row i (λ d. pause_item d.id) (pause_torrent i) m
  run env (resume_torrent i) m = on_row i (λ d. resume_item env d.id) (resume_torrent i) m
  run env (remove_torrent i a b) m =
      on_row i (λ d h. (remove_item a d.id h).0) (remove_torrent i a b) m
  run env (set_file_priority i b c) m = unless_http i (set_file_priority i b c) m
  run env (set_torrent_queue_position i b) m = unless_http i (set_torrent_queue_position i b) m
  run env (set_sequential_download i b) m = unless_http i (set_sequential_download i b) m
  run env (prioritize_file_piece_boundaries i b) m =
      unless_http i (prioritize_file_piece_boundaries i b) m
  run env (rename_file i b c) m = unless_http i (rename_file i b c) m
  run env (extract_torrent i b) m = unless_http i (extract_torrent i b) m
  run env (unmark_completed i) m = unless_http i (unmark_completed i) m
  run env (stop_seeding_torrent i) m = unless_http i (stop_seeding_torrent i) m
  run env (set_torrent_upload_limit i b) m = unless_http i (set_torrent_upload_limit i b) m
  run env (set_torrent_tags i b) m = unless_http i (set_torrent_tags i b) m
  run env (set_torrent_stop_after_download i b) m =
      unless_http i (set_torrent_stop_after_download i b) m
  run env (set_torrent_max_seed_seconds i b) m = unless_http i (set_torrent_max_seed_seconds i b) m
  run env (set_torrent_download_limit i b) m = unless_http i (set_torrent_download_limit i b) m
  run env (set_torrent_category i b) m = unless_http i (set_torrent_category i b) m
  run env (set_super_seeding i b) m = unless_http i (set_super_seeding i b) m
  run env (set_force_start i b) m = unless_http i (set_force_start i b) m
  run env (replace_trackers i b) m = unless_http i (replace_trackers i b) m
  run env (move_storage i b) m = unless_http i (move_storage i b) m
  run env (mark_completed i) m = unless_http i (mark_completed i) m
  run env (force_recheck i) m = unless_http i (force_recheck i) m
  run env (force_reannounce i) m = unless_http i (force_reannounce i) m
  run env (export_torrent i b) m = unless_http i (export_torrent i b) m
  run env (add_tracker i b) m = unless_http i (add_tracker i b) m
  run env (stream_set_deadline_window i b c d) m =
      unless_http i (stream_set_deadline_window i b c d) m
  run env (add_torrent a b) m = delegate (add_torrent a b) m
  run env (restore_removed a) m = delegate (restore_removed a) m
  run env (add_torrent_with_priorities a b c) m = delegate (add_torrent_with_priorities a b c) m
  run env (add_magnet a b c d) m = delegate (add_magnet a b c d) m
  run env (add_torrent_file_with a b) m = delegate (add_torrent_file_with a b) m
  run env (add_magnet_with a b) m = delegate (add_magnet_with a b) m
  run env (stage_magnet a) m = delegate (stage_magnet a) m
  run env (commit_staged a b) m = delegate (commit_staged a b) m
  run env (discard_staged a) m = delegate (discard_staged a) m
  run env (set_alt_speeds_active a) m = delegate (set_alt_speeds_active a) m
  run env save_resume_data m = delegate save_resume_data m
  run env resume_all m = delegate resume_all m
  run env pause_all m = delegate pause_all m
  run env (import_from_qbittorrent a) m = delegate (import_from_qbittorrent a) m
  run env clear_removed_history m = delegate clear_removed_history m
  run env (set_proxy_settings a b c d e) m = delegate (set_proxy_settings a b c d e) m
  run env (set_advanced_settings a) m = delegate (set_advanced_settings a) m
  run env (apply_setting a b) m = delegate (apply_setting a b) m
