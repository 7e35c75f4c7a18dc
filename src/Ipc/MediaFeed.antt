-- ===== src/Ipc/MediaFeed.antt =====
-- src/ipc/mediafeed.h and .cpp: the interface's side of the device from which the player's process
-- reads: it answers requests for bytes from a local file or from the local stream server. Places and
-- lengths that passed the guards are natural numbers. Qt's reply is an argument: the server's
-- headers, the bytes that have come and are not read, and whether it has ended. The number that
-- QByteArray::toLongLong reads out of a text is a parameter.
pub mod Requests
pub mod Serving
pub mod Keeping
pub mod Run
pub mod Reader
pub mod Polls
use batorrent.Base.{
  Bool, List, Option, Text, [], drop, false, if◌then◌else◌, is_empty, is_some, leb, leb_ℤ, ltb, map,
  min, negsuc, none, not, pos, some, take, true, ℕ, ℤ, ◌&&◌, ◌++◌, ◌+◌, ◌-◌, ◌/◌, ◌==◌, ◌||◌, ◌∷◌,
  length,
}

abbrev pub window : ℕ
window = 16777216

abbrev pub keep_behind : ℕ
keep_behind = 2097152

abbrev pub near_ahead : ℕ
near_ahead = 4194304

abbrev pub min_answer : ℕ
min_answer = 65536

abbrev pub max_request : ℕ
max_request = 4194304

abbrev pub max_pending : ℕ
max_pending = 16

pub record Pending : Type 0 where
  pub id : ℕ
  pub offset : ℕ
  pub length : ℕ

-- A QNetworkReply. Before the headers have come the status is 0. The place in the file of the first
-- byte available is the server's, and the code does not see it.
pub record Reply : Type 0 where
  pub status : ℕ
  pub content_range : Text
  pub available : List ℕ
  pub available_at : ℕ
  pub is_finished : Bool

-- The feed. The file is open when it is there, with its bytes; `retried_at` is none for -1;
-- `queued` is a call of onHttpData that waits in the event loop.
pub record Feed : Type 0 where
  pub size : ℤ
  pub file : Option (List ℕ)
  pub reply : Option Reply
  pub reply_checked : Bool
  pub retried_at : Option ℕ
  pub pulling : Bool
  pub queued : Bool
  pub buf : List ℕ
  pub buf_start : ℕ
  pub reader_at : ℕ
  pub pending : List Pending

-- The signals.
pub data Signal : Type 0 where
  ready : ℤ → Signal
  failed : Signal
  bytes_at : ℕ → ℕ → List ℕ → Signal
  refused : ℕ → Signal

abbrev pub Answer : Type 0
Answer = Feed × List Signal

unfoldable pub media_feed : Feed
media_feed = record {
  size = negsuc 0;
  file = none;
  reply = none;
  reply_checked = false;
  retried_at = none;
  pulling = false;
  queued = false;
  buf = [];
  buf_start = 0;
  reader_at = 0;
  pending = [];
}

-- What start() does with a local file, if it can be opened.
unfoldable pub start_file : Option (List ℕ) → Feed → Answer
start_file none s = (s, failed ∷ [])
start_file (some content) s =
    let n = pos (length content) in (record s { file = some content; size = n }, ready n ∷ [])

-- The end of the HEAD request: whether it failed, and the length that the server gives.
unfoldable pub head_finished : Bool → ℤ → Feed → Answer
head_finished has_failed len s =
    if has_failed || leb_ℤ len (pos 0)
    then (s, failed ∷ [])
    else (record s { size = len }, ready len ∷ [])

abbrev pub new_reply : Reply
new_reply = record {
  status = 0;
  content_range = [];
  available = [];
  available_at = 0;
  is_finished = false;
}

-- A new request to the server from the place on; the old reply is dropped.
unfoldable pub stream_from : ℕ → Feed → Feed
stream_from offset s = record s {
  buf = [];
  buf_start = offset;
  reader_at = offset;
  reply_checked = false;
  reply = some new_reply;
}

abbrev pub least_offset : ℕ → List Pending → ℕ
least_offset n [] = n
least_offset n (p ∷ ps) = least_offset (min n p.offset) ps

-- A place before the start of the file counts as 0, which drops as little.
unfoldable pub trim_buffer : Feed → Feed
trim_buffer s =
    let keep_from = least_offset (s.reader_at - keep_behind) s.pending in
    let dropped = min (keep_from - s.buf_start) (length s.buf) in
    if ltb dropped (window / 4)
    then s
    else record s { buf = drop dropped s.buf; buf_start = s.buf_start + dropped }

abbrev pub is_drained : Option Reply → Bool
is_drained none = true
is_drained (some r) = r.is_finished && is_empty r.available

abbrev pub buf_end : Feed → ℕ
buf_end s = s.buf_start + length s.buf

abbrev pub in_window : Feed → Pending → Bool
in_window s p = leb s.buf_start p.offset && ltb p.offset (buf_end s)

abbrev pub served_bytes : Feed → Pending → ℕ
served_bytes s p = min p.length (buf_end s - p.offset)

-- Enough to answer with: what was asked for or 64 KiB, or all there will be.
abbrev pub is_enough : Bool → Feed → Pending → Bool
is_enough drained s p =
    leb (min p.length min_answer) (served_bytes s p)
    || drained
    || leb_ℤ s.size (pos (p.offset + served_bytes s p))

-- What the loop does with a request: answer it, ask again from its place, refuse it or leave it.
pub data Verdict : Type 0 where
  serves retries refuses leaves : Verdict

unfoldable pub verdict : Bool → Feed → Pending → Verdict
verdict drained s p =
    if in_window s p
    then if is_enough drained s p then serves else leaves
    else if drained
    then elim s.retried_at [
      | none ↦ retries
      | some at ↦ if at == p.offset then refuses else retries
    ]
    else leaves

abbrev pub answer : Feed → Pending → Signal
answer s p = bytes_at p.id p.offset (take (served_bytes s p) (drop (p.offset - s.buf_start) s.buf))

-- What becomes of a request, with the loop over the others as `go`.
unfoldable pub serve_one :
    Verdict
    → (List Pending → Feed → Feed × List Signal × Bool)
    → List Pending
    → Pending
    → List Pending
    → Feed
    → Feed × List Signal × Bool
unfolding stream_from
serve_one serves go kept p ps s =
    let (s', out, ended) =
      go kept (record s { retried_at = none; reader_at = p.offset + served_bytes s p }) in
    (s', answer s p ∷ out, ended)
serve_one retries go kept p ps s = (
  stream_from p.offset (record s { retried_at = some p.offset; pending = kept ++ p ∷ ps }),
  [],
  false,
)
serve_one refuses go kept p ps s =
    let (s', out, ended) = go kept s in (s', refused p.id ∷ out, ended)
serve_one leaves go kept p ps s = go (kept ++ p ∷ []) s

-- The loop over the requests that it has not come to, with those that it left, in order; the last
-- component is whether it ran to its end.
unfoldable pub serve_loop : Bool → List Pending → List Pending → Feed → Feed × List Signal × Bool
unfolding verdict serve_one
serve_loop drained kept [] s = (record s { pending = kept }, [], true)
serve_loop drained kept (p ∷ ps) s =
    serve_one (verdict drained s p) (λ k t. serve_loop drained k ps t) kept p ps s

abbrev pub has_available : Option Reply → Bool
has_available none = false
has_available (some r) = not (is_empty r.available)

-- What follows the loop: the timer, the trim, and a call that is queued.
unfoldable pub after_serving : Feed → Feed
unfolding trim_buffer
after_serving s =
    let t = trim_buffer (record s { pulling = is_some s.reply && not (is_empty s.pending) }) in
    record t { queued = t.queued || has_available t.reply && ltb (length t.buf) window }

unfoldable pub serve_pending : Feed → Answer
unfolding serve_loop after_serving
serve_pending s =
    let (t, out, ended) = serve_loop (is_drained s.reply) [] s.pending s in
    (if ended then after_serving t else t, out)

abbrev pub refuse_all : List Pending → List Signal
refuse_all = map (λ p. refused p.id)
