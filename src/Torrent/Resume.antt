-- ===== src/Torrent/Resume.antt =====
-- src/torrent/sessionresume.h and .cpp: what becomes of the files of a torrent that is resumed,
-- removed or finished. The parameters `clean`, `parent` and `child` are QDir::cleanPath, the path of
-- QFileInfo and QDir::filePath, and a file's existence is a test.
pub mod Removal
pub mod Suffix
use batorrent.Base.{
  Bool, List, Option, Text, [], chop, codes, contains, ends_with, eq_ℤ, false, if◌then◌else◌,
  is_empty, length, ltb_ℤ, map, none, not, pos, pos_part, some, suc, take, text_eq, true, zero, ℕ,
  ℤ, ◌&&◌, ◌++◌, ◌-ℤ◌, ◌-◌, ◌==◌, ◌||◌, ◌∷◌,
}
use mathlib.Core.Option

abbrev pub incomplete_suffix : Text
incomplete_suffix = codes ".!bt"

abbrev pub resume_file_name : Text → Text
resume_file_name hash = hash ++ codes ".resume"

abbrev pub corrupt_sidecar_name : Text → Text
corrupt_sidecar_name name = name ++ codes ".corrupt"

abbrev pub parts_sidecar_name : Text → Text
parts_sidecar_name hash = codes "." ++ hash ++ codes ".parts"

unfoldable pub legacy_resume_dir : (clean parent : Text → Text) → (Text → Text → Text) → Text → Text
unfolding text_eq
legacy_resume_dir clean parent child location =
    let p = parent (clean location) in
    if is_empty location || is_empty p || text_eq p (codes ".")
    then []
    else child p (codes "resume")

unfoldable pub should_copy_legacy_resumes : (Text → Text) → Bool → Text → Text → Bool → Bool
unfolding text_eq
should_copy_legacy_resumes clean new_dir_has_resumes legacy_path new_path legacy_has_files =
    if new_dir_has_resumes
      || is_empty legacy_path
      || is_empty new_path
      || text_eq (clean legacy_path) (clean new_path)
    then false
    else legacy_has_files

pub data CorruptResumeAction : Type 0 where
  quarantine recover_recheck : CorruptResumeAction

unfoldable pub corrupt_resume_action : Bool → CorruptResumeAction
corrupt_resume_action has_torrent_info = if has_torrent_info then recover_recheck else quarantine

pub record DiskFilePresence : Type 0 where
  pub plain_is_file : Bool
  pub plain_size : ℤ
  pub bt_is_file : Bool
  pub bt_size : ℤ

pub record SuffixReconcile : Type 0 where
  pub chosen : Text
  pub wanted_full_size : Bool

abbrev pub is_suffixed : Text → Bool
is_suffixed path = ends_with path incomplete_suffix

-- substr(0, size - 4)
abbrev pub base_of : Text → Text
base_of path = if is_suffixed path then chop 4 path else path

unfoldable pub reconcile_incomplete_suffix : Text → ℤ → Bool → DiskFilePresence → SuffixReconcile
unfolding ends_with
reconcile_incomplete_suffix effective want_size wanted disk =
    if disk.plain_is_file && eq_ℤ disk.plain_size want_size
    then record { chosen = base_of effective; wanted_full_size = true }
    else if disk.bt_is_file && eq_ℤ disk.bt_size want_size
    then record { chosen = base_of effective ++ incomplete_suffix; wanted_full_size = true }
    else record { chosen = effective; wanted_full_size = not wanted }

-- The path after the call, and its answer.
unfoldable pub strip_incomplete_suffix : Text → Text × Bool
unfolding ends_with
strip_incomplete_suffix path = if is_suffixed path then (chop 4 path, true) else (path, false)

unfoldable pub with_incomplete_suffix : Text → Text
unfolding ends_with
with_incomplete_suffix path = if is_suffixed path then path else path ++ incomplete_suffix

abbrev pub forward_slashes : Text → Text
forward_slashes = map (λ c. if c == b'\\' then b'/' else c)

-- indexOf('/')
abbrev pub slash_at : Text → Option ℕ
slash_at [] = none
slash_at (c ∷ s) = if c == b'/' then some 0 else Option.map suc (slash_at s)

-- The first segment; a path that starts with a slash is left whole.
abbrev pub first_segment : Text → Option ℕ → Text
first_segment p none = p
first_segment p (some zero) = p
first_segment p (some (suc i)) = take (suc i) p

abbrev pub top_of : Text → Text
top_of path = let p = forward_slashes path in first_segment p (slash_at p)

-- The loop, with the names that it has found so far.
unfoldable pub top_level_loop : List Text → List Text → List Text
unfolding contains
top_level_loop tops [] = tops
top_level_loop tops (p ∷ ps) =
    let top = top_of p in
    top_level_loop (if is_empty top || contains tops top then tops else tops ++ top ∷ []) ps

unfoldable pub top_level_trash_names : List Text → List Text
unfolding top_level_loop
top_level_trash_names paths = top_level_loop [] paths

-- Below the save path, for each name that is not empty.
unfoldable pub targets_of : (Text → Text) → List Text → List Text
unfolding ends_with
targets_of below [] = []
targets_of below (t ∷ ts) =
    let rest = targets_of below ts in
    if is_empty t then rest else below (base_of t) ∷ below (base_of t ++ incomplete_suffix) ∷ rest

unfoldable pub trash_targets_for_removal :
    (Text → Text → Text) → Text → List Text → Text → List Text
unfolding targets_of
trash_targets_for_removal child save_path names hash =
    targets_of (child save_path) names
    ++ (if is_empty hash then [] else child save_path (parts_sidecar_name hash) ∷ [])

abbrev pub should_schedule_file_removal : Bool → List Text → Bool
should_schedule_file_removal delete_files targets = delete_files && not (is_empty targets)

pub data RemovalDisposition : Type 0 where
  keep trash permanent_delete : RemovalDisposition

unfoldable pub removal_disposition : Bool → Bool → List Text → RemovalDisposition
removal_disposition delete_files permanent targets =
    if not (should_schedule_file_removal delete_files targets)
    then keep
    else if permanent
    then permanent_delete
    else trash

unfoldable pub existing_removal_targets : (Text → Bool) → List Text → List Text
existing_removal_targets there [] = []
existing_removal_targets there (p ∷ ps) =
    let rest = existing_removal_targets there ps in if there p then p ∷ rest else rest

abbrev pub downloaded_payload_this_session : ℤ → Bool
downloaded_payload_this_session total = ltb_ℤ (pos 0) total

unfoldable pub finish_move_destination : Text → Bool → Text → Text
finish_move_destination intended auto_move auto_path =
    if not (is_empty intended)
    then intended
    else if auto_move && not (is_empty auto_path)
    then auto_path
    else []

abbrev pub should_emit_torrent_finished : Bool → Bool → Bool
should_emit_torrent_finished downloaded completed_at_startup =
    downloaded && not completed_at_startup

-- The oldest ones, as many as there are more than are kept; entries are a time and a hash.
unfoldable pub prune_by_count : List (ℤ × Text) → ℤ → List Text
prune_by_count entries kept =
    map (λ (e : ℤ × Text). e.1) (take (length entries - pos_part kept) entries)

unfoldable pub prune_old : ℤ → ℤ → List (ℤ × Text) → List Text → List Text
unfolding contains ◌-ℤ◌
prune_old now max_age [] prune = prune
prune_old now max_age (e ∷ es) prune =
    prune_old now max_age es
      (if ltb_ℤ max_age (now -ℤ e.0) && not (contains prune e.1) then prune ++ e.1 ∷ [] else prune)

unfoldable pub removed_history_hashes_to_prune : List (ℤ × Text) → ℤ → ℤ → ℤ → List Text
unfolding prune_by_count prune_old
removed_history_hashes_to_prune entries kept now max_age =
    prune_old now max_age entries (prune_by_count entries kept)
