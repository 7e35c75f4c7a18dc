-- ===== src/Tests/Torrent.antt =====
-- Runs of src/torrent at fixed inputs.
use batorrent.Base.{
  All, Bool, List, Text, [], arith, codes, contains, ends_with, false, length, map, pos, pos_part,
  refl, take, text_eq, to_lower, true, ℤ, ◌-◌, ◌||◌, ◌∷◌, ◌≡◌,
}
use batorrent.Torrent.StreamGate.{contiguous_run, run_from, run_loop, needs_tail}
use batorrent.Torrent.Resume.{
  forward_slashes, top_of, top_level_trash_names, top_level_loop, removed_history_hashes_to_prune,
}
use batorrent.Torrent.Resume.Removal.{
  Unique, IsTop, has_top, has_old, top_level_trash_names-Unique, removed_history_lem,
}
use batorrent.Torrent.Limits.{
  Limits, set_download_limit, set_alt_speed_limits, check_bandwidth_schedule,
}
use batorrent.Torrent.Limits.Applied.{IsApplied, Step, Reach, Reach-IsApplied}
use batorrent.Torrent.Limits.Clock.{zero_alt_stays}
use batorrent.Torrent.MagnetTrackers.{
  Trackers, public_trackers, is_among, append_public_trackers, strip_public_trackers,
}
use batorrent.Torrent.MagnetTrackers.Own.{
  IsOwnOf, append_public_trackers-strip, append_public_trackers_again,
}
use batorrent.Torrent.StreamGate.Run.{IsLongest, contiguous_run-IsLongest}

abbrev pieces : List Bool
pieces = true ∷ true ∷ false ∷ true ∷ []

-- The file starts at byte 3; its byte 4 is in the first piece, and the third piece is missing.
run_of_pieces : contiguous_run pieces (pos 10) 3 (pos 35) (pos 4) (pos 100) ≡ 13
unfolding contiguous_run run_from run_loop
run_of_pieces = refl

contiguous_run-IsLongest_example :
    IsLongest pieces 10
      (omega arith)
      7
      38
      100
      (contiguous_run pieces (pos 10) 3 (pos 35) (pos 4) (pos 100))
contiguous_run-IsLongest_example = contiguous_run-IsLongest pieces 10 (omega arith) 3 35 4 100

-- An unfinished MP4 needs its tail, a Matroska file does not.
tails : (needs_tail (codes "A.MP4.!bT") ≡ true) × (needs_tail (codes "a.mkv") ≡ false)
unfolding needs_tail to_lower ends_with text_eq
tails = (refl, refl)

abbrev some_paths : List Text
some_paths = codes "Show\\1.mkv" ∷ codes "Show/2.mkv" ∷ codes "x.nfo" ∷ []

top_level_trash_names-Unique_example :
    Unique (top_level_trash_names some_paths)
    × ((a : Text) → contains (top_level_trash_names some_paths) a ≡ has_top some_paths a)
    × All (λ p. IsTop (forward_slashes p) (top_of p)) some_paths
top_level_trash_names-Unique_example = top_level_trash_names-Unique some_paths

tops_of_paths : top_level_trash_names some_paths ≡ codes "Show" ∷ codes "x.nfo" ∷ []
unfolding top_level_trash_names top_level_loop contains text_eq
tops_of_paths = refl

abbrev removed : List (ℤ × Text)
removed = (pos 10, codes "a") ∷ (pos 90, codes "b") ∷ []

removed_history_lem_example :
    contains (removed_history_hashes_to_prune removed (pos 5) (pos 100) (pos 50)) (codes "a")
    ≡ contains
        (map (λ (e : ℤ × Text). e.1) (take (length removed - pos_part (pos 5)) removed))
        (codes "a")
      || has_old (pos 100) (pos 50) removed (codes "a")
removed_history_lem_example = removed_history_lem removed (pos 5) (pos 100) (pos 50) (codes "a")

abbrev two_modes : Limits
two_modes = record {
  normal_down = pos 100;
  normal_up = pos 50;
  alt_down = pos 10;
  alt_up = pos 0;
  alt_active = false;
  scheduler_enabled = true;
  from_hour = pos 22;
  to_hour = pos 6;
  days_mask = 127;
  applied_down = pos 102400;
  applied_up = pos 51200;
  changes = [];
}

Reach-IsApplied_example :
    IsApplied (set_download_limit (pos 7) (check_bandwidth_schedule (pos 0) (pos 23) two_modes))
Reach-IsApplied_example =
    Reach-IsApplied (refl, refl)
      (Reach.next (Reach.next Reach.here (Step.checks (pos 0) (pos 23) two_modes))
        (Step.downloads (pos 7) (check_bandwidth_schedule (pos 0) (pos 23) two_modes)))

zero_alt_stays_example :
    let z =
      check_bandwidth_schedule
        (pos 0)
        (pos 12)
        (set_alt_speed_limits (pos 0) (pos 0) (record two_modes { alt_active = true })) in
    (z.alt_active ≡ true) × (z.applied_down ≡ pos 0) × (z.applied_up ≡ pos 0)
zero_alt_stays_example =
    zero_alt_stays (pos 0) (pos 12) (record two_modes { alt_active = true }) refl

-- One tracker of its own and one of the public ones, without tiers.
abbrev magnet : Trackers
magnet = record {
  urls = codes "udp://a/announce" ∷ codes "udp://open.stealth.si:80/announce" ∷ [];
  tiers = [];
}

append_public_trackers-strip_example :
    IsOwnOf magnet.urls (strip_public_trackers (append_public_trackers magnet).urls)
    × (length (append_public_trackers magnet).tiers ≡ length (append_public_trackers magnet).urls)
append_public_trackers-strip_example = append_public_trackers-strip magnet

six_tiers :
    (append_public_trackers magnet).tiers ≡ pos 0 ∷ pos 0 ∷ pos 2 ∷ pos 3 ∷ pos 4 ∷ pos 5 ∷ []
unfolding append_public_trackers
six_tiers = refl

its_own : strip_public_trackers magnet.urls ≡ codes "udp://a/announce" ∷ []
unfolding strip_public_trackers
its_own = refl

append_public_trackers_again_example :
    let once = append_public_trackers magnet in
    All (λ t. is_among t once.urls ≡ true) public_trackers × (append_public_trackers once ≡ once)
append_public_trackers_again_example = append_public_trackers_again magnet
