-- ===== src/Downloads/MergeEngine/Commands.antt =====
-- The calls of IEngine that change something, as HttpMergeEngine passes them on. `X` stands for the
-- option records and variants, which no row test reads.
use batorrent.Base.{Bool, List, Text, ℤ}

pub data Command (X : Type 0) : Type 0 where
  pause_torrent : ℤ → Command X
  resume_torrent : ℤ → Command X
  remove_torrent : ℤ → Bool → Bool → Command X
  set_file_priority : ℤ → ℤ → ℤ → Command X
  set_torrent_queue_position : ℤ → ℤ → Command X
  set_sequential_download : ℤ → Bool → Command X
  prioritize_file_piece_boundaries : ℤ → ℤ → Command X
  rename_file : ℤ → ℤ → Text → Command X
  extract_torrent : ℤ → Text → Command X
  unmark_completed : ℤ → Command X
  stop_seeding_torrent : ℤ → Command X
  set_torrent_upload_limit : ℤ → ℤ → Command X
  set_torrent_tags : ℤ → List Text → Command X
  set_torrent_stop_after_download : ℤ → ℤ → Command X
  set_torrent_max_seed_seconds : ℤ → ℤ → Command X
  set_torrent_download_limit : ℤ → ℤ → Command X
  set_torrent_category : ℤ → Text → Command X
  set_super_seeding : ℤ → Bool → Command X
  set_force_start : ℤ → Bool → Command X
  replace_trackers : ℤ → List Text → Command X
  move_storage : ℤ → Text → Command X
  mark_completed : ℤ → Command X
  force_recheck : ℤ → Command X
  force_reannounce : ℤ → Command X
  export_torrent : ℤ → Text → Command X
  add_tracker : ℤ → Text → Command X
  stream_set_deadline_window : ℤ → ℤ → ℤ → ℤ → Command X
  add_torrent : Text → Text → Command X
  restore_removed : Text → Command X
  add_torrent_with_priorities : Text → Text → List ℤ → Command X
  add_magnet : Text → Text → Text → ℤ → Command X
  add_torrent_file_with : Text → X → Command X
  add_magnet_with : Text → X → Command X
  stage_magnet : Text → Command X
  commit_staged : Text → X → Command X
  discard_staged : Text → Command X
  set_alt_speeds_active : Bool → Command X
  save_resume_data : Command X
  resume_all : Command X
  pause_all : Command X
  import_from_qbittorrent : Text → Command X
  clear_removed_history : Command X
  set_proxy_settings : ℤ → Text → ℤ → Text → Text → Command X
  set_advanced_settings : X → Command X
  apply_setting : Text → X → Command X
