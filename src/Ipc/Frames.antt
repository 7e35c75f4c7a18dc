-- ===== src/Ipc/Frames.antt =====
-- src/ipc/ipcprotocol.h: frames on the socket between the engine and the interface. A byte is a
-- number below 256, and the buffer of a connection is a list of bytes.
pub mod Streams
pub mod Chunks
use batorrent.Base.{
  List, Option, [], drop, if◌then◌else◌, length, ltb, none, some, suc, take, zero, ℕ, ◌%◌, ◌*◌,
  ◌++◌, ◌+◌, ◌/◌, ◌==◌, ◌^◌, ◌∷◌,
}

-- An enum over a byte may hold any byte.
pub data Kind : Type 0 where
  hello ping pong request reply event : Kind
  other : ℕ → Kind

abbrev pub kind_code : Kind → ℕ
kind_code hello = 1
kind_code ping = 2
kind_code pong = 3
kind_code request = 4
kind_code reply = 5
kind_code event = 6
kind_code (other n) = n

abbrev pub kind_of : ℕ → Kind
kind_of n =
    if n == 1
    then hello
    else if n == 2
    then ping
    else if n == 3
    then pong
    else if n == 4
    then request
    else if n == 5
    then reply
    else if n == 6
    then event
    else other n

pub record Frame : Type 0 where
  pub kind : Kind
  pub payload : List ℕ

abbrev pub max_frame_bytes : ℕ
max_frame_bytes = 67108864

-- QDataStream writes and reads a quint32 with its high byte first.
unfoldable pub put_u32 : ℕ → List ℕ
put_u32 n = n / 16777216 % 256 ∷ n / 65536 % 256 ∷ n / 256 % 256 ∷ n % 256 ∷ []

abbrev pub get_u32 : ℕ → ℕ → ℕ → ℕ → ℕ
get_u32 a b c d = a * 16777216 + b * 65536 + c * 256 + d

-- The length is the quint32 of the body's size: the kind and the payload.
unfoldable pub write_frame : Frame → List ℕ
unfolding put_u32
write_frame f = let body = kind_code f.kind ∷ f.payload in put_u32 (length body % 2 ^ 32) ++ body

-- The length that is announced, and what follows it, if there are four bytes.
unfoldable pub header : List ℕ → Option (ℕ × List ℕ)
header [] = none
header (a ∷ []) = none
header (a ∷ b ∷ []) = none
header (a ∷ b ∷ c ∷ []) = none
header (a ∷ b ∷ c ∷ d ∷ rest) = some (get_u32 a b c d, rest)

-- The call of the sink for a body; an empty body has none.
unfoldable pub deliver : List ℕ → List Frame → List Frame
deliver [] fs = fs
deliver (k ∷ payload) fs = record { kind = kind_of k; payload = payload } ∷ fs

-- What one round of the loop finds, with what the rounds after it make of the rest.
unfoldable pub drain_with :
    (List ℕ → List Frame × List ℕ) → List ℕ → Option (ℕ × List ℕ) → List Frame × List ℕ
unfolding deliver
drain_with go buf none = ([], buf)
drain_with go buf (some (len, rest)) =
    let (fs, left) = go (drop len rest) in
    if ltb max_frame_bytes len
    then ([], [])
    else if ltb (length rest) len
    then ([], buf)
    else (deliver (take len rest) fs, left)

-- The loop with `n` rounds at most: the frames delivered, and what stays in the buffer.
unfoldable pub drain_loop : ℕ → List ℕ → List Frame × List ℕ
unfolding drain_with header
drain_loop zero buf = ([], buf)
drain_loop (suc n) buf = drain_with (drain_loop n) buf (header buf)

-- Each round takes four bytes or more, so there are fewer rounds than bytes.
unfoldable pub drain_frames : List ℕ → List Frame × List ℕ
unfolding drain_loop
drain_frames buf = drain_loop (suc (length buf)) buf
