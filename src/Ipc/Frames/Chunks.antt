-- ===== src/Ipc/Frames/Chunks.antt =====
-- src/ipc/ipcprotocol.h: frames whose bytes arrive in parts.
use batorrent.Base.{
  All, Bool-cases, List, [], ap, append-nil, arith, drop, false, get_or, inl, inr, length,
  length-take, ltb, ltb→lt, lt→ltb, refl, some, subst, suc, sym, take, zero, ℕ, ◌++◌, ◌+◌, ◌<◌, ◌∙◌,
  ◌∷◌, ◌≡◌, ◌≤◌,
}
use mathlib.Core.Path.{ap₂}
use batorrent.Ipc.Frames.{
  max_frame_bytes, Frame, kind_code, put_u32, write_frame, header, drain_with, drain_loop,
  drain_frames, max_frame_bytes,
}
use batorrent.Ipc.Frames.Streams.{
  IsSendable, write_all, drain-write_frame, drain_frames-write_all, announced,
}

-- Two ways to cut one list: the shorter first part is where the longer one starts.
head_same : (x y : ℕ) (xs ys : List ℕ) → x ∷ xs ≡ y ∷ ys → x ≡ y
head_same x y xs ys e = ap (λ (l : List ℕ). get_or l 0 x) e

cut_long :
    (xs ys a b : List ℕ)
    → xs ++ ys ≡ a ++ b
    → length xs ≤ length a
    → (a ≡ xs ++ drop (length xs) a) × (ys ≡ drop (length xs) a ++ b)
cut_long [] ys a b e h = (refl, e)
cut_long (x ∷ xs) ys [] b e h = absurd (omega arith)
cut_long (x ∷ xs) ys (y ∷ a) b e h =
    let (p, q) = cut_long xs ys a b (ap (drop 1) e) (omega arith) in
    (ap₂ ◌∷◌ (sym (head_same x y (xs ++ ys) (a ++ b) e)) p, q)

cut_short : (xs ys a b : List ℕ) → xs ++ ys ≡ a ++ b → length a < length xs → a ≡ take (length a) xs
cut_short [] ys a b e h = absurd (omega arith)
cut_short (x ∷ xs) ys [] b e h = refl
cut_short (x ∷ xs) ys (y ∷ a) b e h =
    ap₂ ◌∷◌ (sym (head_same x y (xs ++ ys) (a ++ b) e))
      (cut_short xs ys a b (ap (drop 1) e) (omega arith))

-- A part of a frame stays in the buffer.
waits :
    (go : List ℕ → List Frame × List ℕ) (buf rest : List ℕ) (len : ℕ)
    → len ≤ max_frame_bytes
    → length rest < len
    → drain_with go buf (some (len, rest)) ≡ ([], buf)
unfolding drain_with
waits go buf rest len h k = rw (not_ltb max_frame_bytes len h, lt→ltb (length rest) len k) refl
  where
    not_ltb : (a b : ℕ) → b ≤ a → ltb a b ≡ false
    not_ltb a b h = ground arith

header-part :
    (f : Frame) (k : ℕ)
    → length f.payload < max_frame_bytes
    → header (take (suc (suc (suc (suc k)))) (write_frame f))
      ≡ some (suc (length f.payload), take k (kind_code f.kind ∷ f.payload))
unfolding header write_frame put_u32
header-part f k h =
    ap (λ n. some (n, take k (kind_code f.kind ∷ f.payload))) (announced (length f.payload) h)

length-write_frame : (f : Frame) → length (write_frame f) ≡ 5 + length f.payload
unfolding write_frame put_u32
length-write_frame f = omega arith

drain-part :
    (f : Frame) (k : ℕ)
    → IsSendable f
    → k < length (write_frame f)
    → drain_frames (take k (write_frame f)) ≡ ([], take k (write_frame f))
unfolding drain_frames drain_loop
drain-part f zero s h = unfold header drain_with in refl
drain-part f (suc zero) s h = unfold header drain_with write_frame put_u32 in refl
drain-part f (suc (suc zero)) s h = unfold header drain_with write_frame put_u32 in refl
drain-part f (suc (suc (suc zero))) s h = unfold header drain_with write_frame put_u32 in refl
drain-part f (suc (suc (suc (suc k)))) s h =
    let buf = take (suc (suc (suc (suc k)))) (write_frame f) in
    let body = kind_code f.kind ∷ f.payload in
    ap (drain_with (drain_loop (length buf)) buf) (header-part f k s.1)
    ∙ waits (drain_loop (length buf)) buf (take k body) (suc (length f.payload))
        (omega (arith, s.1)) (omega (arith, h, length-write_frame f, length-take k body))

-- What the second part `b` adds to what the first part came to.
abbrev Completes : List Frame → List ℕ → List Frame × List ℕ → Type 0
Completes fs b (early, left) =
    (early ++ (drain_frames (left ++ b)).0 ≡ fs) × ((drain_frames (left ++ b)).1 ≡ [])

drain-whole : (fs : List Frame) → All IsSendable fs → drain_frames (write_all fs) ≡ (fs, [])
unfolding drain_frames drain_loop header drain_with
drain-whole fs s =
    ap drain_frames (sym (append-nil (write_all fs)))
    ∙ drain_frames-write_all fs [] s
    ∙ ap (λ gs. (gs, [])) (append-nil fs)

-- The frames of a stream that is cut in two, as the socket does, are those of the stream: what the
-- first part leaves in the buffer is completed by the second part.
pub drain_frames-cut :
    (fs : List Frame) (a b : List ℕ)
    → All IsSendable fs
    → write_all fs ≡ a ++ b
    → let (early, left) = drain_frames a in
      (early ++ (drain_frames (left ++ b)).0 ≡ fs) × ((drain_frames (left ++ b)).1 ≡ [])
drain_frames-cut [] [] [] s e = unfold drain_frames drain_loop header drain_with in (refl, refl)
drain_frames-cut [] [] (y ∷ b) s e = cc
drain_frames-cut [] (x ∷ a) b s e = cc
drain_frames-cut (f ∷ fs) a b s e = elim (Bool-cases (ltb (length a) (length (write_frame f)))) [
  | inl h ↦
      let cut = cut_short (write_frame f) (write_all fs) a b e (ltb→lt _ _ h) in
      let kept : drain_frames a ≡ ([], a) =
        subst (λ x. drain_frames x ≡ ([], x)) (sym cut)
          (drain-part f (length a) s.0 (ltb→lt _ _ h)) in
      let all = ap drain_frames (sym e) ∙ drain-whole (f ∷ fs) s in
      subst (Completes (f ∷ fs) b) (sym kept)
        (ap (λ (r : List Frame × List ℕ). r.0) all, ap (λ (r : List Frame × List ℕ). r.1) all)
  | inr h ↦
      let (p, q) = cut_long (write_frame f) (write_all fs) a b e (ground arith) in
      let later = drop (length (write_frame f)) a in
      let rest = drain_frames-cut fs later b s.1 q in
      subst (Completes (f ∷ fs) b) (sym (ap drain_frames p ∙ drain-write_frame f later s.0))
        (ap (◌∷◌ f) rest.0, rest.1)
]
