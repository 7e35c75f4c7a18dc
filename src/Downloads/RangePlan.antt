-- ===== src/Downloads/RangePlan.antt =====
-- src/services/downloads/rangeplan.h: how a file is split into byte ranges.
pub mod Tiling
use batorrent.Base.{
  List, [], if◌then◌else◌, leb_ℤ, ltb, ltb_ℤ, min, pos, pos_part, suc, zero, ℕ, ℤ, ◌%◌, ◌+ℤ◌, ◌+◌,
  ◌-ℤ◌, ◌/◌, ◌∷◌,
}

-- `end` is the last byte of the range, as in an HTTP Range header.
pub record ByteRange : Type 0 where
  pub start : ℤ
  pub end : ℤ

unfoldable pub size : ByteRange → ℤ
unfolding ◌+ℤ◌ ◌-ℤ◌
size r = r.end -ℤ r.start +ℤ pos 1

-- The body of the loop, with `left` rounds to go from round `i` at byte `at`.
unfoldable pub plan_loop : ℕ → ℕ → ℕ → ℕ → ℕ → List ByteRange
unfolding ◌-ℤ◌
plan_loop zero base rem i at = []
plan_loop (suc left) base rem i at =
    let len = base + (if ltb i rem then 1 else 0) in
    record { start = pos at; end = pos (at + len) -ℤ pos 1 }
    ∷ plan_loop left base rem (suc i) (at + len)

-- At most one range for each connection, and at most one for each byte.
abbrev pub segment_count : ℕ → ℤ → ℕ
segment_count total conns = min (if ltb_ℤ conns (pos 1) then 1 else pos_part conns) total

unfoldable pub plan_segments : ℤ → ℤ → List ByteRange
unfolding plan_loop
plan_segments total conns =
    if leb_ℤ total (pos 0)
    then []
    else let t = pos_part total in let n = segment_count t conns in plan_loop n (t / n) (t % n) 0 0
