-- ===== src/Tests/Downloads.antt =====
-- Runs of src/services/downloads at fixed inputs.
use batorrent.Base.{
  Bool, Option, Text, [], ap, arith, codes, false, get_elem?, get_or, if◌then◌else◌, none, pos,
  refl, some, suc, text_eq, trimmed, true, zero, ℕ, ℤ, ◌+◌, ◌<◌, ◌==◌, ◌∙◌, ◌∷◌, ◌≡◌, ◌≢◌, ◌≤ℤ◌,
  ◌⊎◌,
}
use batorrent.Downloads.RangePlan.{size, plan_segments}
use batorrent.Downloads.RangePlan.Tiling.{Tiles, plan_segments-Tiles}
use batorrent.Downloads.HttpDownload.Types.{
  Segment, done, Disk, HttpDownload, Answers, rank, create, downloading, all_done, received_bytes,
}
use batorrent.Downloads.HttpDownload.{spawn_segment, finalize, start, maybe_complete}
use batorrent.Downloads.HttpDownload.Events.{
  ProbeReply, on_probe_finished, on_segment_ready_read, on_segment_finished, probed_total, pause,
  resume,
}
use batorrent.Downloads.HttpDownload.Sizes.{maybe_complete_gate, unknown_size_is_empty}
use batorrent.Downloads.HttpDownload.Integrity.{IsSource}
use batorrent.Downloads.HttpDownload.Integrity.Asked.{asked_from}
use batorrent.Downloads.HttpDownload.Integrity.Receipts.{after}
use batorrent.Downloads.HttpDownload.Integrity.World.{
  Brings, World, opening, starts, pauses, resumes, probes, receives, finishes, Reach, here, next,
}
use batorrent.Downloads.HttpDownload.Integrity.Run.{completed-IsSource}
use batorrent.Downloads.Manager.{Manager}

plan_segments-Tiles_example : Tiles 0 10 (plan_segments (pos 10) (pos 4))
plan_segments-Tiles_example = plan_segments-Tiles 10 (pos 4) (omega arith)

-- A file of two bytes, in two ranges.
abbrev two_bytes : ℕ → ℕ
two_bytes x = if x == 0 then 65 else 66

abbrev no_disk : Disk
no_disk = record { part = none; final = none }

abbrev works : Answers
works = record { open_succeeds = true; remove_succeeds = true; rename_succeeds = true }

abbrev no_number : Text → Option ℤ
no_number t = none

abbrev to_number : Text → Option ℤ
to_number t = if text_eq t (codes "2") then some (pos 2) else none

abbrev whole_file : ProbeReply
whole_file = record {
  error = none;
  status = 206;
  has_disposition = false;
  disposition_name = [];
  content_range = codes "bytes 0-0/2";
  content_length = some (pos 1);
}

abbrev made : HttpDownload
made = create (codes "id") (codes "http://h/f") (codes "d") (codes "f") [] no_disk

abbrev probing_now : HttpDownload
probing_now = start works made

abbrev asked : HttpDownload
asked = on_probe_finished to_number whole_file works probing_now

-- The first byte comes; then the download is paused and resumed, which asks for the second one again.
abbrev half : HttpDownload
half = on_segment_ready_read 0 (65 ∷ []) true asked

abbrev again : HttpDownload
again = resume works (pause half)

abbrev filled : HttpDownload
filled = on_segment_ready_read 1 (66 ∷ []) true again

abbrev over : HttpDownload
over = on_segment_finished 1 3 none works filled

abbrev waiting : ℕ → ℕ → Segment
waiting i h = record {
  range = record { start = pos i; end = pos i };
  received = pos 0;
  reply = some h;
}

abbrev none_sent : ℕ → ℕ → ℕ
none_sent i h = 0

abbrev one_sent : ℕ → ℕ → ℕ
one_sent = after none_sent 0 1 1

abbrev FirstAsked : Type 0
FirstAsked =
    (get_elem? asked.segments 0 ≡ some (waiting 0 1))
    × (rank asked.state ≡ 2)
    × (asked_from 1 asked.requests + none_sent 0 1 ≡ 0)

first_is_asked : FirstAsked
unfolding start create on_probe_finished all_done done size spawn_segment received_bytes text_eq
    trimmed plan_segments
first_is_asked = (refl, refl, refl)

abbrev SecondAsked : Type 0
SecondAsked =
    (get_elem? again.segments 1 ≡ some (waiting 1 3))
    × (rank again.state ≡ 2)
    × (asked_from 3 again.requests + one_sent 1 3 ≡ 1)

second_is_asked : SecondAsked
unfolding start create on_probe_finished on_segment_ready_read pause resume all_done done size
    spawn_segment received_bytes text_eq trimmed plan_segments
second_is_asked = (refl, refl, refl)

single_byte :
    (i b : ℕ)
    → i < 2
    → b ≡ two_bytes i
    → (place : ℕ) → place ≡ i
    → Brings two_bytes 2 place (b ∷ [])
single_byte i b h e place q = record { fits = omega (arith, q); bytes = λ k lt. one_byte k lt }
  where
    one_byte : (k : ℕ) → k < 1 → get_or (b ∷ []) k 0 ≡ two_bytes (place + k)
    one_byte zero lt = e ∙ ap two_bytes (omega (arith, q))
    one_byte (suc k) lt = absurd (omega arith)

abbrev world : HttpDownload → (ℕ → ℕ → ℕ) → World
world d sent = record { download = d; sent = sent }

abbrev ends : World
ends = world over (after one_sent 1 3 1)

over_reached : Reach two_bytes 2 (opening made) ends
unfolding create probed_total text_eq trimmed
over_reached =
    let begun = next here (starts works (opening made) refl) in
    let probed =
      next begun
        (probes to_number whole_file works (world probing_now none_sent) (λ _. (refl, refl))) in
    let read = next probed (
      receives 0 1 (65 ∷ []) true (world asked none_sent) (waiting 0 1) first_is_asked.0 refl
        first_is_asked.1 (single_byte 0 65 (omega arith) refl _ first_is_asked.2)) in
    let resumed =
      next (next read (pauses (world half one_sent)))
        (resumes works (world (pause half) one_sent)) in
    next
      (next resumed (
        receives 1 3 (66 ∷ []) true (world again one_sent) (waiting 1 3) second_is_asked.0 refl
          second_is_asked.1 (single_byte 1 66 (omega arith) refl _ second_is_asked.2)))
      (finishes 1 3 none works (world filled (after one_sent 1 3 1)))

over_completed : rank over.state ≡ 4
unfolding start create on_probe_finished on_segment_ready_read on_segment_finished pause resume
    all_done done size spawn_segment received_bytes finalize text_eq trimmed plan_segments
over_completed = refl

completed-IsSource_example : IsSource two_bytes 2 over.disk.final
completed-IsSource_example =
    completed-IsSource two_bytes 2 (omega arith) (codes "id") (codes "http://h/f") (codes "d")
      (codes "f") [] no_disk ends over_reached over_completed

-- A download whose one byte has arrived.
abbrev arrived : HttpDownload
arrived = record made {
  state = downloading;
  total = pos 1;
  segments =
      record { range = record { start = pos 0; end = pos 0 }; received = pos 1; reply = none } ∷ [];
  disk = record { part = some (record { size_bytes = 1; byte_at = λ x. 65 }); final = none };
}

maybe_complete_gate_example :
    (all_done arrived.segments ≡ true)
    × ((arrived.total ≤ℤ pos 0) ⊎ (received_bytes arrived.segments ≡ arrived.total))
    × (arrived.disk.part ≢ none)
    × ((maybe_complete works arrived).disk.final ≡ arrived.disk.part)
unfolding maybe_complete all_done done size received_bytes finalize create
maybe_complete_gate_example = maybe_complete_gate works arrived (λ e. omega (arith, e)) refl

-- An answer without a size, and one without a body.
abbrev no_size : ProbeReply
no_size = record whole_file { status = 200; content_length = none }

unknown_size_is_empty_example :
    let e = on_probe_finished no_number no_size works probing_now in
    (rank e.state ≡ 4)
    × (e.requests ≡ probing_now.requests)
    × (e.disk.final ≡ some (record { size_bytes = 0; byte_at = λ x. 0 }))
unfolding start create probed_total
unknown_size_is_empty_example =
    unknown_size_is_empty no_number no_size works probing_now 0 refl refl refl refl refl refl refl

abbrev no_downloads : Manager
no_downloads = record { items = []; default_dir = codes "d"; save_due = false; events = [] }

abbrev any_url : Text → Bool
any_url t = true

abbrev no_name : Text → Text
no_name t = []

abbrev nothing_there : Text → Text → Disk
nothing_there dir name = no_disk

abbrev one_download : Manager
one_download = record no_downloads { items = over ∷ [] }
