-- ===== src/Ipc/Frames/Streams.antt =====
-- src/ipc/ipcprotocol.h: what comes out of the frames that were written, and what stays in the buffer.
use batorrent.Base.{
  All, List, Option, [], ap, append_assoc, arith, drop, false, if_cases, if◌then◌else◌, length,
  length-append, length-drop, ltb, ltb→lt, none, refl, some, suc, take, zero, ℕ, ◌%◌, ◌++◌, ◌+◌,
  ◌/◌, ◌<◌, ◌^◌, ◌∙◌, ◌∷◌, ◌≡◌, ◌≤◌,
}
use mathlib.Core.Option.{some-injective}
use mathlib.Core.Path.{ap₂}
use batorrent.Ipc.Frames.{
  Kind, hello, ping, pong, request, reply, event, other, kind_code, kind_of, Frame, max_frame_bytes,
  get_u32, deliver, drain_with, drain_frames, drain_loop, header, write_frame, put_u32,
}

-- The kinds that the protocol names.
abbrev pub IsNamed : Kind → Type 0
IsNamed (other n) = ⊥
IsNamed _ = Unit

kind_back : (k : Kind) → IsNamed k → kind_of (kind_code k) ≡ k
kind_back hello h = refl
kind_back ping h = refl
kind_back pong h = refl
kind_back request h = refl
kind_back reply h = refl
kind_back event h = refl
kind_back (other n) h = absurd h

-- A frame that may be sent.
abbrev pub IsSendable : Frame → Type 0
IsSendable f = IsNamed f.kind × (length f.payload < max_frame_bytes)

take-length-append : {A : Type 0} (xs ys : List A) → take (length xs) (xs ++ ys) ≡ xs
take-length-append [] ys = refl
take-length-append (x ∷ xs) ys = ap (◌∷◌ x) (take-length-append xs ys)

drop-length-append : {A : Type 0} (xs ys : List A) → drop (length xs) (xs ++ ys) ≡ ys
drop-length-append [] ys = refl
drop-length-append (x ∷ xs) ys = drop-length-append xs ys

-- What the loop makes of a body of `len` bytes that is there in full.
full_round :
    (go : List ℕ → List Frame × List ℕ) (buf rest : List ℕ) (len : ℕ)
    → len ≤ max_frame_bytes
    → len ≤ length rest
    → drain_with go buf (some (len, rest))
      ≡ (deliver (take len rest) (go (drop len rest)).0, (go (drop len rest)).1)
unfolding drain_with
full_round go buf rest len h k =
    rw (not_ltb max_frame_bytes len h, not_ltb (length rest) len k) refl
  where
    not_ltb : (a b : ℕ) → b ≤ a → ltb a b ≡ false
    not_ltb a b h = ground arith

-- The length that is written is the one that is read.
pub announced :
    (k : ℕ)
    → k < max_frame_bytes
    → let n = suc k % 2 ^ 32 in
      get_u32 (n / 16777216 % 256) (n / 65536 % 256) (n / 256 % 256) (n % 256) ≡ suc k
announced k h = omega arith

header-write_frame :
    (f : Frame) (rest : List ℕ)
    → length f.payload < max_frame_bytes
    → header (write_frame f ++ rest)
      ≡ some (suc (length f.payload), kind_code f.kind ∷ f.payload ++ rest)
unfolding header write_frame put_u32
header-write_frame f rest h =
    ap (λ n. some (n, kind_code f.kind ∷ f.payload ++ rest)) (announced (length f.payload) h)

header-length :
    (buf : List ℕ) (len : ℕ) (rest : List ℕ)
    → header buf ≡ some (len, rest)
    → length buf ≡ 4 + length rest
unfolding header
header-length [] len rest e = cc
header-length (a ∷ []) len rest e = cc
header-length (a ∷ b ∷ []) len rest e = cc
header-length (a ∷ b ∷ c ∷ []) len rest e = cc
header-length (a ∷ b ∷ c ∷ d ∷ r) len rest e =
    let same =
      ap (λ (p : ℕ × List ℕ). length p.1) (some-injective (get_u32 a b c d, r) (len, rest) e) in
    omega (arith, same)

-- The round depends on the later rounds only at what is left for them.
drain_with-later :
    (go alt : List ℕ → List Frame × List ℕ) (buf : List ℕ) (o : Option (ℕ × List ℕ))
    → ((len : ℕ) (rest : List ℕ) → o ≡ some (len, rest) → go (drop len rest) ≡ alt (drop len rest))
    → drain_with go buf o ≡ drain_with alt buf o
unfolding drain_with
drain_with-later go alt buf none h = refl
drain_with-later go alt buf (some (len, rest)) h = rw (h len rest refl) refl

-- More rounds than bytes are as good as any larger number.
drain_loop-enough :
    (n m : ℕ) (buf : List ℕ) → length buf < n → length buf < m → drain_loop n buf ≡ drain_loop m buf
unfolding drain_loop
drain_loop-enough zero m buf h k = absurd (omega arith)
drain_loop-enough (suc n) zero buf h k = absurd (omega arith)
drain_loop-enough (suc n) (suc m) buf h k =
    drain_with-later (drain_loop n) (drain_loop m) buf (header buf) (λ len rest e.
      drain_loop-enough n m (drop len rest)
        (omega (arith, header-length buf len rest e, length-drop len rest))
        (omega (arith, header-length buf len rest e, length-drop len rest)))

drain_loop-frames : (n : ℕ) (buf : List ℕ) → length buf < n → drain_loop n buf ≡ drain_frames buf
unfolding drain_frames
drain_loop-frames n buf h = drain_loop-enough n (suc (length buf)) buf h (omega arith)

pub drain-write_frame :
    (f : Frame) (rest : List ℕ)
    → IsSendable f
    → drain_frames (write_frame f ++ rest) ≡ (f ∷ (drain_frames rest).0, (drain_frames rest).1)
unfolding drain_frames drain_loop deliver
drain-write_frame f rest (named, small) =
    let buf = write_frame f ++ rest in
    let body = kind_code f.kind ∷ f.payload in
    let go = drain_loop (length buf) in
    let len : length buf ≡ 4 + length (body ++ rest) =
      header-length buf (length body) (body ++ rest) (header-write_frame f rest small) in
    ap (drain_with go buf) (header-write_frame f rest small)
    ∙ full_round go buf (body ++ rest) (length body) (omega (arith, small))
        (omega (arith, length-append body rest))
    ∙ ap₂ (λ (bs cs : List ℕ). (deliver bs (go cs).0, (go cs).1)) (take-length-append body rest)
        (drop-length-append body rest)
    ∙ ap₂
        (λ (k : Kind) (r : List Frame × List ℕ).
          (record { kind = k; payload = f.payload } ∷ r.0, r.1))
        (kind_back f.kind named)
        (drain_loop-enough (length buf) (suc (length rest)) rest
          (omega (arith, len, length-append body rest)) (omega arith))

-- The bytes of several frames.
abbrev pub write_all : List Frame → List ℕ
write_all [] = []
write_all (f ∷ fs) = write_frame f ++ write_all fs

-- Frames that were written come out of the buffer in their order, with their kinds and payloads, and
-- what follows them is handled as if it stood alone; this holds for frames of a kind that the
-- protocol names, below the size limit.
pub drain_frames-write_all :
    (fs : List Frame) (rest : List ℕ)
    → All IsSendable fs
    → drain_frames (write_all fs ++ rest) ≡ (fs ++ (drain_frames rest).0, (drain_frames rest).1)
drain_frames-write_all [] rest h = refl
drain_frames-write_all (f ∷ fs) rest h =
    ap drain_frames (append_assoc (write_frame f) (write_all fs) rest)
    ∙ drain-write_frame f (write_all fs ++ rest) h.0
    ∙ ap (λ (r : List Frame × List ℕ). (f ∷ r.0, r.1)) (drain_frames-write_all fs rest h.1)

drain_with-bounded :
    (go : List ℕ → List Frame × List ℕ) (buf : List ℕ) (o : Option (ℕ × List ℕ))
    → (o ≡ none → length buf < 4)
    → ((len : ℕ) (rest : List ℕ)
        → o ≡ some (len, rest)
        → (length buf ≡ 4 + length rest) × (length (go (drop len rest)).1 < 4 + max_frame_bytes))
    → length (drain_with go buf o).1 < 4 + max_frame_bytes
unfolding drain_with
drain_with-bounded go buf none h k = omega (arith, h refl)
drain_with-bounded go buf (some (len, rest)) h k =
    if_cases Small (ltb max_frame_bytes len) {x = ([], [])}
      {y = if ltb (length rest) len
        then ([], buf)
        else (deliver (take len rest) (go (drop len rest)).0, (go (drop len rest)).1)}
      (λ _. omega arith)
      (λ q.
        if_cases Small (ltb (length rest) len) {x = ([], buf)}
          {y = (deliver (take len rest) (go (drop len rest)).0, (go (drop len rest)).1)}
          (λ p. omega (
            arith,
            (k len rest refl).0,
            ltb→lt (length rest) len p,
            not_above len max_frame_bytes q,
          ))
          (λ _. (k len rest refl).1))
  where
    Small : List Frame × List ℕ → Type 0
    Small r = length r.1 < 4 + max_frame_bytes

    not_above : (a b : ℕ) → ltb b a ≡ false → a ≤ b
    not_above a b h = ground arith

header-none : (buf : List ℕ) → header buf ≡ none → length buf < 4
unfolding header
header-none [] e = omega arith
header-none (a ∷ []) e = omega arith
header-none (a ∷ b ∷ []) e = omega arith
header-none (a ∷ b ∷ c ∷ []) e = omega arith
header-none (a ∷ b ∷ c ∷ d ∷ r) e = cc

drain_loop-bounded :
    (n : ℕ) (buf : List ℕ) → length buf < n → length (drain_loop n buf).1 < 4 + max_frame_bytes
unfolding drain_loop
drain_loop-bounded zero buf h = absurd (omega arith)
drain_loop-bounded (suc n) buf h =
    drain_with-bounded (drain_loop n) buf (header buf) (header-none buf) (λ len rest e. (
      header-length buf len rest e,
      drain_loop-bounded n (drop len rest)
          (omega (arith, header-length buf len rest e, length-drop len rest)),
    ))

-- Whatever bytes have come in, less than a header and a frame of the greatest size stays in the
-- buffer.
pub drain_frames-bounded : (buf : List ℕ) → length (drain_frames buf).1 < 4 + max_frame_bytes
unfolding drain_frames
drain_frames-bounded buf = drain_loop-bounded (suc (length buf)) buf (omega arith)
