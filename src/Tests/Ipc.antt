-- ===== src/Tests/Ipc.antt =====
-- Runs of src/ipc at fixed inputs.
use batorrent.Base.{
  All, List, [], arith, drop, pos, refl, suc, sym, take, take-append-drop, zero, ℕ, ◌++◌, ◌∷◌, ◌≡◌,
}
use batorrent.Ipc.Frames.{ping, event, Frame, drain_frames}
use batorrent.Ipc.Frames.Streams.{IsSendable, write_all, drain_frames-write_all}
use batorrent.Ipc.Frames.Chunks.{drain_frames-cut}
use batorrent.Ipc.Bytes.{AreAt}
use batorrent.Ipc.RemoteSource.{
  Source, remote_source, Round, read_round, answer_bytes, copy_cached, pending_covers, find_pending,
  keep, evict, deliver_at, read_missing, ask,
}
use batorrent.Ipc.RemoteSource.Run.{Reach, Step}

abbrev two_frames : List Frame
two_frames =
    record { kind = ping; payload = [] } ∷ record { kind = event; payload = 7 ∷ 8 ∷ [] } ∷ []

sendable : All IsSendable two_frames
sendable = ((tt, omega arith), ((tt, omega arith), tt))

abbrev partial : List ℕ
partial = 0 ∷ 0 ∷ 0 ∷ []

drain_frames-write_all_example :
    drain_frames (write_all two_frames ++ partial)
    ≡ (two_frames ++ (drain_frames partial).0, (drain_frames partial).1)
drain_frames-write_all_example = drain_frames-write_all two_frames partial sendable

abbrev early_bytes : List ℕ
early_bytes = take 7 (write_all two_frames)

drain_frames-cut_example :
    let (early, left) = drain_frames early_bytes in
    (early ++ (drain_frames (left ++ drop 7 (write_all two_frames))).0 ≡ two_frames)
    × ((drain_frames (left ++ drop 7 (write_all two_frames))).1 ≡ [])
drain_frames-cut_example =
    drain_frames-cut two_frames early_bytes (drop 7 (write_all two_frames)) sendable
      (sym (take-append-drop 7 (write_all two_frames)))

-- A file of ten bytes, all 5.
abbrev fives : ℕ → ℕ
fives x = 5

abbrev opened : Source
opened = remote_source (pos 10)

abbrev asked : Source
asked = (read_round 4 2 opened).1

abbrev held : Source
held = answer_bytes 1 4 (5 ∷ 5 ∷ 5 ∷ []) asked

all_fives : AreAt fives 4 (5 ∷ 5 ∷ 5 ∷ [])
all_fives zero h = refl
all_fives (suc zero) h = refl
all_fives (suc (suc zero)) h = refl
all_fives (suc (suc (suc k))) h = absurd (omega arith)

held_reached : Reach fives opened held
held_reached =
    Reach.next (Reach.next Reach.here (Step.reads 4 2 opened))
      (Step.answers 1 4 (5 ∷ 5 ∷ 5 ∷ []) asked all_fives)

-- The answer is in the cache, and serves a read further on.
held_serves : (read_round 5 9 held).0 ≡ Round.returns (5 ∷ 5 ∷ [])
unfolding read_round read_missing ask answer_bytes find_pending deliver_at keep evict copy_cached
    pending_covers remote_source
held_serves = refl
