-- ===== src/Downloads/Manager.antt =====
-- src/services/downloads/httpdownloadmanager.h and .cpp: the list of downloads. The signals that a
-- call makes a download emit are passed on as wire() connects them.
pub mod Saved
use batorrent.Base.{
  Bool, List, Option, Text, [], codes, drop, false, get_elem?, if◌then◌else◌, is_empty, length, map,
  negsuc, none, not, pos, remove_at, reverse, set, some, starts_with, suc, take, text_eq, true, ℕ,
  ℤ, ◌++◌, ◌-◌, ◌||◌, ◌∷◌,
}
use mathlib.Core.Option
use mathlib.Core.List.{foldl}
use batorrent.Downloads.HttpDownload.Types.{
  State, Signal, state_changed, progressed, finished, HttpDownload, Disk, Answers, create,
}
use batorrent.Downloads.HttpDownload.{start}
use batorrent.Downloads.HttpDownload.Events.{pause, resume, cancel}
use batorrent.Downloads.HttpDownload.SavedState.{SavedState, to_state, restore_state}

-- changed() and downloadFinished(id, name, ok), newest first; `save_due` is whether the save timer
-- runs.
pub data Event : Type 0 where
  changed : Event
  download_finished : Text → Text → Bool → Event

pub record Manager : Type 0 where
  pub items : List HttpDownload
  pub default_dir : Text
  pub save_due : Bool
  pub events : List Event

abbrev pub http_row_prefix : Text
http_row_prefix = codes "httpdl-"

unfoldable pub http_row_hash : Text → Text
http_row_hash id = http_row_prefix ++ id

unfoldable pub is_http_row_hash : Text → Bool
is_http_row_hash h = starts_with h http_row_prefix

unfoldable pub http_row_id : Text → Text
http_row_id h = drop 7 h

-- The place of the first download with this id.
unfoldable pub index_of : Text → List HttpDownload → Option ℕ
index_of id [] = none
index_of id (d ∷ ds) = if text_eq d.id id then some 0 else Option.map suc (index_of id ds)

-- at(i), with the index as the C++ int.
unfoldable pub at : ℤ → Manager → Option HttpDownload
at (pos i) m = get_elem? m.items i
at (negsuc i) m = none

unfoldable pub schedule_save : Manager → Manager
schedule_save m = record m { save_due = true }

abbrev emit : Event → Manager → Manager
emit e m = record m { events = e ∷ m.events }

unfoldable pub forward : HttpDownload → Manager → Signal → Manager
unfolding schedule_save
forward d m progressed = emit changed m
forward d m state_changed = emit changed (schedule_save m)
forward d m (finished ok) =
    emit changed (emit (download_finished d.id d.file_name ok) (schedule_save m))

-- What a download emitted since it was `old`, oldest first.
unfoldable pub emitted : HttpDownload → HttpDownload → List Signal
emitted old new = reverse (take (length new.signals - length old.signals) new.signals)

-- Download `i` becomes `new`, and its signals are passed on.
unfoldable pub put : ℕ → HttpDownload → HttpDownload → Manager → Manager
unfolding forward emitted
put i old new m = foldl (forward new) (record m { items = set m.items i new }) (emitted old new)

-- A call on the download with this id, if there is one.
unfoldable pub on_item : (HttpDownload → HttpDownload) → Text → Manager → Manager
unfolding index_of put
on_item f id m = elim (index_of id m.items) [
  | none ↦ m
  | some i ↦ elim (get_elem? m.items i) [ none ↦ m | some d ↦ emit changed (put i d (f d) m) ]
]

unfoldable pub pause_item : Text → Manager → Manager
unfolding on_item
pause_item = on_item pause

unfoldable pub resume_item : Answers → Text → Manager → Manager
unfolding on_item
resume_item env = on_item (resume env)

-- `id` is the new UUID, `path_name` the name in the URL, and `disk` what is on disk under the name.
unfoldable pub add :
    (id url save_dir file_name path_name : Text) → Disk → Answers → Manager → Manager
unfolding put schedule_save create
add id url save_dir file_name path_name disk env m =
    let dir = if is_empty save_dir then m.default_dir else save_dir in
    let d = create id url dir file_name path_name disk in
    let m' : Manager = record m { items = m.items ++ d ∷ [] } in
    emit changed (schedule_save (put (length m.items) d (start env d) m'))

abbrev drop_final : Bool → HttpDownload → HttpDownload
drop_final delete_files d =
    if delete_files then record d { disk = record d.disk { final = none } } else d

-- The manager without the download, and the download as it was left, for what is on disk.
unfoldable pub remove_item : Bool → Text → Manager → Manager × Option HttpDownload
unfolding index_of schedule_save
remove_item delete_files id m = elim (index_of id m.items) [
  | none ↦ (m, none)
  | some i ↦ (
    emit changed (schedule_save (record m { items = remove_at i m.items })),
    Option.map (λ d. drop_final delete_files (cancel delete_files d)) (get_elem? m.items i),
  )
]

-- The sidecar file: not there, no JSON array, or the entries of the array.
pub data Stored : Type 0 where
  missing corrupt : Stored
  entries : List SavedState → Stored

unfoldable pub save : Manager → Stored
save m = entries (map to_state m.items)

-- The download of an entry, made anew; entries without an id or a valid URL are left out.
module _ (url_valid : Text → Bool) (path_name : Text → Text) (disk_of : Text → Text → Disk) where
  unfoldable pub load_entry : SavedState → HttpDownload
  unfolding create restore_state
  load_entry s =
      restore_state s (
        create s.id s.url s.save_dir s.file_name (path_name s.url) (disk_of s.save_dir s.file_name))

  unfoldable pub load_entries : List SavedState → List HttpDownload
  unfolding load_entry
  load_entries [] = []
  load_entries (s ∷ ss) =
      let rest = load_entries ss in
      if is_empty s.id || not (url_valid s.url) then rest else load_entry s ∷ rest

  -- The second component is whether the file was put aside as corrupt.
  unfoldable pub load : Stored → Manager → Manager × Bool
  unfolding load_entries
  load missing m = (m, false)
  load corrupt m = (m, true)
  load (entries ss) m = (record m { items = m.items ++ load_entries ss }, false)
