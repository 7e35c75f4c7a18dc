-- ===== src/Ipc/RemoteSource.antt =====
-- src/ipc/remotesource.h and .cpp: the device from which the player's process reads a video, whose
-- bytes come from the interface's process. A read that blocks is a series of rounds. Places in the
-- file are natural numbers: an answer for a negative place matches no request.
pub mod Reads
pub mod Run
use batorrent.Base.{
  Bool, List, Option, [], drop, false, get_elem?, if◌then◌else◌, is_empty, leb, ltb, ltb_ℤ, map,
  max, min, none, not, pos, pos_part, remove_at, some, suc, take, true, zero, ℕ, ℤ, ◌%◌, ◌&&◌, ◌++◌,
  ◌+ℤ◌, ◌+◌, ◌-ℤ◌, ◌-◌, ◌==◌, ◌^◌, ◌||◌, ◌∷◌, length,
}
use mathlib.Core.Option

pub record Chunk : Type 0 where
  pub offset : ℕ
  pub bytes : List ℕ

pub record Pending : Type 0 where
  pub id : ℕ
  pub offset : ℕ
  pub length : ℤ

pub record Source : Type 0 where
  pub size : ℕ
  pub cache : List Chunk
  pub cache_bytes : ℕ
  pub pending : List Pending
  pub next_id : ℕ
  pub aborted : Bool
  pub has_failed : Bool

abbrev pub read_ahead : ℕ
read_ahead = 1048576

abbrev pub max_cache_bytes : ℕ
max_cache_bytes = 33554432

-- A negative size counts as 0.
unfoldable pub remote_source : ℤ → Source
remote_source size = record {
  size = pos_part size;
  cache = [];
  cache_bytes = 0;
  pending = [];
  next_id = 1;
  aborted = false;
  has_failed = false;
}

-- qint32(n) and the 32 bits of the id.
abbrev pub to_qint32 : ℕ → ℤ
to_qint32 n = let w = n % 2 ^ 32 in if ltb w (2 ^ 31) then pos w else pos w -ℤ pos (2 ^ 32)

-- What copyCached() copies, from the first chunk that has the byte.
unfoldable pub copy_cached : ℕ → ℕ → List Chunk → Option (List ℕ)
copy_cached at max_size [] = none
copy_cached at max_size (c ∷ cs) =
    let rest = copy_cached at max_size cs in
    if ltb at c.offset || leb (c.offset + length c.bytes) at
    then rest
    else some (take (min max_size (c.offset + length c.bytes - at)) (drop (at - c.offset) c.bytes))

unfoldable pub pending_covers : ℕ → List Pending → Bool
pending_covers at [] = false
pending_covers at (p ∷ ps) =
    leb p.offset at && ltb_ℤ (pos at) (pos p.offset +ℤ p.length) || pending_covers at ps

-- One round of readData(): 0 or -1 or the bytes are returned, or a request is emitted and the next
-- round follows, or the reader waits to be woken up.
pub data Round : Type 0 where
  returns : List ℕ → Round
  refuses : Round
  asks : Pending → Round
  waits : Round

abbrev pub next_request : ℕ → ℕ → Source → Pending
next_request at max_size s = record {
  id = s.next_id;
  offset = at;
  length = to_qint32 (min (max max_size read_ahead) (s.size - at));
}

unfoldable pub ask : ℕ → ℕ → Source → Round × Source
ask at max_size s =
    let p = next_request at max_size s in
    (asks p, record s { pending = s.pending ++ p ∷ []; next_id = suc s.next_id % 2 ^ 32 })

-- With what the cache has.
unfoldable pub read_missing : ℕ → ℕ → Source → Option (List ℕ) → Round × Source
unfolding ask pending_covers
read_missing at max_size s (some bytes) = (returns bytes, s)
read_missing at max_size s none =
    if pending_covers at s.pending then (waits, s) else ask at max_size s

unfoldable pub read_round : ℕ → ℕ → Source → Round × Source
unfolding read_missing copy_cached
read_round at max_size s =
    if max_size == 0 || leb s.size at
    then (returns [], s)
    else if s.aborted || s.has_failed
    then (refuses, s)
    else read_missing at max_size s (copy_cached at (min max_size (s.size - at)) s.cache)

unfoldable pub find_pending : ℕ → List Pending → Option ℕ
find_pending id [] = none
find_pending id (p ∷ ps) = if p.id == id then some 0 else Option.map suc (find_pending id ps)

abbrev pub first_bytes : List Chunk → ℕ
first_bytes [] = 0
first_bytes (c ∷ cs) = length c.bytes

-- The loop that drops the oldest chunks, with `n` of them at most.
unfoldable pub evict : ℕ → List Chunk → ℕ → List Chunk × ℕ
evict zero cs total = (cs, total)
evict (suc n) cs total =
    let rest = evict n (drop 1 cs) (total - first_bytes cs) in
    if ltb max_cache_bytes total && ltb 1 (length cs) then rest else (cs, total)

unfoldable pub keep : ℕ → ℕ → List ℕ → Source → Source
unfolding evict
keep i offset bytes s =
    let cache = s.cache ++ record { offset = offset; bytes = bytes } ∷ [] in
    let (kept, total) = evict (length cache) cache (s.cache_bytes + length bytes) in
    record s { pending = remove_at i s.pending; cache = kept; cache_bytes = total }

-- Only an answer to a request of this device, at the place that it asked for, and no longer.
abbrev pub unwanted : Pending → ℕ → List ℕ → Source → Bool
unwanted p offset bytes s =
    not (p.offset == offset)
    || is_empty bytes
    || ltb_ℤ p.length (pos (length bytes))
    || ltb s.size (offset + length bytes)

unfoldable pub deliver_at : ℕ → Option Pending → ℕ → List ℕ → Source → Source
unfolding keep
deliver_at i none offset bytes s = s
deliver_at i (some p) offset bytes s =
    if unwanted p offset bytes s then s else keep i offset bytes s

unfoldable pub answer_bytes : ℕ → ℕ → List ℕ → Source → Source
unfolding find_pending deliver_at
answer_bytes id offset bytes s = elim (find_pending id s.pending) [
  | none ↦ s
  | some i ↦ deliver_at i (get_elem? s.pending i) offset bytes s
]

unfoldable pub answer_failure : ℕ → Source → Source
unfolding find_pending
answer_failure id s = elim (find_pending id s.pending) [
  | none ↦ s
  | some i ↦ record s { pending = remove_at i s.pending; has_failed = true }
]

unfoldable pub abort : Source → Source
abort s = record s { aborted = true }
