-- ===== src/Torrent/StreamGate.antt =====
-- src/torrent/streamgate.h: when a file that is still downloading can be played. Sizes that the code
-- tests for being positive are integers; the products stay far below 2^63.
pub mod Run
pub mod Deadlines
use batorrent.Base.{
  Bool, List, Text, chop, codes, ends_with, false, get_or, if◌then◌else◌, leb, leb_ℤ, length, ltb,
  ltb_ℤ, max, min, not, pos, pos_part, suc, to_lower, zero, ℕ, ℤ, ◌&&◌, ◌*◌, ◌+◌, ◌-◌, ◌/◌, ◌||◌,
}

abbrev pub min_head : ℕ
min_head = 3145728

abbrev pub max_head : ℕ
max_head = 10485760

abbrev pub clamp : ℕ → ℕ → ℕ → ℕ
clamp x low high = if ltb x low then low else if ltb high x then high else x

-- The size over half an hour, but at least 256 KiB a second.
unfoldable pub bytes_per_sec : ℤ → ℕ
bytes_per_sec file_size = max (pos_part file_size / 1800) 262144

unfoldable pub deadline_ms : ℤ → ℤ → ℕ
unfolding bytes_per_sec
deadline_ms distance file_size =
    if leb_ℤ distance (pos 0)
    then 0
    else min (pos_part distance * 1000 / bytes_per_sec file_size) 600000

-- The pieces that 30 seconds take.
unfoldable pub window_pieces : ℤ → ℤ → ℕ
unfolding bytes_per_sec
window_pieces piece_size file_size =
    if leb_ℤ piece_size (pos 0)
    then 4
    else let p = pos_part piece_size in clamp ((30 * bytes_per_sec file_size + p - 1) / p) 4 128

unfoldable pub head_bytes : ℤ → ℕ
unfolding bytes_per_sec
head_bytes file_size =
    if leb_ℤ file_size (pos 0)
    then 0
    else min (pos_part file_size) (clamp (3 * bytes_per_sec file_size) min_head max_head)

unfoldable pub needs_tail : Text → Bool
unfolding to_lower ends_with
needs_tail file_name =
    let lower = to_lower file_name in
    let n = if ends_with lower (codes ".!bt") then chop 4 lower else lower in
    ends_with n (codes ".mp4") || ends_with n (codes ".m4v") || ends_with n (codes ".mov")

unfoldable pub ready : ℤ → ℤ → Bool → Bool → Bool
unfolding head_bytes
ready contiguous_head file_size have_tail tail_needed =
    ltb_ℤ (pos 0) file_size
    && (have_tail || not tail_needed)
    && leb_ℤ (pos (head_bytes file_size)) contiguous_head

-- A piece that is not there, or not one of the torrent's.
abbrev pub missing : List Bool → ℕ → Bool
missing have piece = leb (length have) piece || not (get_or have piece false)

-- The while loop with `n` rounds at most, from byte `global` of the torrent: where it stops.
unfoldable pub run_loop : ℕ → List Bool → (piece_size global cap : ℕ) → ℕ → ℕ
run_loop zero have piece_size global cap end = end
run_loop (suc n) have piece_size global cap end =
    let next = end / piece_size in
    let rest = run_loop n have piece_size global cap (suc next * piece_size) in
    if leb cap (end - global) then end else if missing have next then end else rest

-- From a byte in the file; each round takes a piece, so there are no more rounds than pieces.
unfoldable pub run_from : List Bool → (piece_size file_offset file_size from cap : ℕ) → ℕ
unfolding run_loop
run_from have piece_size file_offset file_size from cap =
    let global = file_offset + from in
    let piece = global / piece_size in
    let end = run_loop (length have) have piece_size global cap (suc piece * piece_size) in
    if missing have piece then 0 else min cap (min end (file_offset + file_size) - global)

unfoldable pub contiguous_run : List Bool → ℤ → ℕ → ℤ → ℤ → ℤ → ℕ
unfolding run_from
contiguous_run have piece_size file_offset file_size from_byte cap =
    if leb_ℤ piece_size (pos 0)
      || ltb_ℤ from_byte (pos 0)
      || leb_ℤ file_size from_byte
      || leb_ℤ cap (pos 0)
    then 0
    else run_from have (pos_part piece_size) file_offset (pos_part file_size) (pos_part from_byte)
        (pos_part cap)
