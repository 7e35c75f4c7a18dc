-- ===== src/Ipc/MediaFeed/Serving.antt =====
-- What the answers of src/ipc/mediafeed.cpp hold, when the server sends the bytes of the file from
-- the place that its headers name.
use batorrent.Base.{
  All, All-append, Bool, Bool-cases, List, Option, Text, [], ap, arith, drop, false, if_cases, inl,
  inr, is_empty, is_some, length, length-append, length-drop, length-take, ltb, min, none, not, pos,
  refl, some, subst, suc, sym, true, zero, ℕ, ℤ, ◌&&◌, ◌++◌, ◌+◌, ◌-◌, ◌/◌, ◌<◌, ◌∙◌, ◌∷◌, ◌≡◌,
  ◌≤ℤ◌, ◌≤◌,
}
use batorrent.Ipc.Bytes.{AreAt, AreAt-take, AreAt-drop, AreAt-nil}
use batorrent.Ipc.MediaFeed.Requests.{range_starts}
use batorrent.Ipc.MediaFeed.{
  Feed, Pending, Reply, Signal, Answer, ready, failed, bytes_at, refused, window, max_request,
  max_pending, stream_from, serve_pending, buf_end, in_window, verdict, Verdict, serves, retries,
  refuses, leaves, serve_one, serve_loop, answer, served_bytes, trim_buffer, after_serving,
  is_drained, least_offset, keep_behind,
}

-- A request is for bytes of the file, and not for too many.
abbrev pub IsWanted : ℤ → Pending → Type 0
IsWanted size p = (pos (p.offset + p.length) ≤ℤ size) × (0 < p.length) × (p.length ≤ max_request)

module _ (source : ℕ → ℕ) where
  -- An answer holds bytes of the file from the place that it names, some, within the file and not
  -- too many.
  abbrev pub IsRight : ℤ → Signal → Type 0
  IsRight size (bytes_at id offset bytes) =
      AreAt source offset bytes
      × (0 < length bytes)
      × (length bytes ≤ max_request)
      × (pos (offset + length bytes) ≤ℤ size)
  IsRight size (ready n) = Unit
  IsRight size failed = Unit
  IsRight size (refused id) = Unit

module _ (source : ℕ → ℕ) (to_long_long : Text → ℤ) where
  -- What is known of the server's reply: the bytes that it sends, and, until the headers are
  -- checked, that nothing is read and that the headers are honest; then, where its bytes go.
  abbrev pub ReplyIsHonest : Feed → Reply → Type 0
  ReplyIsHonest s r =
      AreAt source r.available_at r.available
      × (s.reply_checked ≡ true → r.available_at ≡ buf_end s)
      × (s.reply_checked ≡ false → s.buf ≡ [])
      × (r.status ≡ 200 → s.reply_checked ≡ false → r.available_at ≡ 0)
      × (r.status ≡ 206
          → (start : ℕ) → s.reply_checked ≡ false
          → range_starts to_long_long r.content_range start ≡ true
          → r.available_at ≡ start)

  abbrev pub AllHonest : Feed → Option Reply → Type 0
  AllHonest s none = Unit
  AllHonest s (some r) = ReplyIsHonest s r

  -- What the feed holds are bytes of the file, at the places that it takes them for.
  abbrev pub IsSound : Feed → Type 0
  IsSound s =
      AllHonest s s.reply
      × AreAt source s.buf_start s.buf
      × (length s.buf ≤ window)
      × ((content : List ℕ) → s.file ≡ some content → AreAt source 0 content)

  abbrev pub Inv : Feed → Type 0
  Inv s = IsSound s × All (IsWanted s.size) s.pending × (length s.pending ≤ max_pending)

  pub stream_from-IsSound : (offset : ℕ) (s : Feed) → IsSound s → IsSound (stream_from offset s)
  unfolding stream_from
  stream_from-IsSound offset s (_, _, _, f) = (
    (
      AreAt-nil source 0,
      λ e. cc,
      λ e. refl,
      λ e. absurd (omega (arith, e)),
      λ e. absurd (omega (arith, e)),
    ),
    AreAt-nil source offset,
    omega arith,
    f,
  )

  -- A write to the end of the buffer apart, where the buffer ends stays.
  moved-AllHonest :
      (o : Option Reply) (s t : Feed)
      → t.reply_checked ≡ s.reply_checked
      → buf_end t ≡ buf_end s
      → (s.buf ≡ [] → t.buf ≡ [])
      → AllHonest s o
      → AllHonest t o
  moved-AllHonest none s t c e b h = tt
  moved-AllHonest (some r) s t c e b (a, l, n, z, x) = (
    a,
    λ d. l (sym c ∙ d) ∙ sym e,
    λ d. b (n (sym c ∙ d)),
    λ q d. z q (sym c ∙ d),
    λ q start d. x q start (sym c ∙ d),
  )

  trim_buffer-IsSound : (s : Feed) → IsSound s → IsSound (trim_buffer s)
  unfolding trim_buffer
  trim_buffer-IsSound s (h, a, l, f) =
      let n =
        min (least_offset (s.reader_at - keep_behind) s.pending - s.buf_start) (length s.buf) in
      let t = record s { buf = drop n s.buf; buf_start = s.buf_start + n } in
      let len = length-drop n s.buf in
      if_cases IsSound (ltb n (window / 4)) {x = s} {y = t} (λ _. (h, a, l, f))
        (λ _. (
          moved-AllHonest s.reply s t refl (omega (arith, len)) (λ e. ap (drop n) e ∙ drop-nil n) h,
          AreAt-drop source n s.buf_start s.buf a,
          omega (arith, len),
          f,
        ))
    where
      drop-nil : (n : ℕ) → drop {A = ℕ} n [] ≡ []
      drop-nil zero = refl
      drop-nil (suc n) = refl

  trim_buffer-same :
      (s : Feed) → ((trim_buffer s).size ≡ s.size) × ((trim_buffer s).pending ≡ s.pending)
  unfolding trim_buffer
  trim_buffer-same s =
      let n =
        min (least_offset (s.reader_at - keep_behind) s.pending - s.buf_start) (length s.buf) in
      if_cases (λ (t : Feed). (t.size ≡ s.size) × (t.pending ≡ s.pending)) (ltb n (window / 4))
        (λ _. (refl, refl)) (λ _. (refl, refl))

  in_window-le :
      (s : Feed) (p : Pending)
      → in_window s p ≡ true
      → (s.buf_start ≤ p.offset) × (p.offset < buf_end s)
  in_window-le s p h = (ground arith, ground arith)

  answer-IsRight :
      (s : Feed) (p : Pending)
      → AreAt source s.buf_start s.buf
      → IsWanted s.size p
      → in_window s p ≡ true
      → IsRight source s.size (answer s p)
  answer-IsRight s p a (in_size, some_length, l) w =
      let (from, to) = in_window-le s p w in
      let j = p.offset - s.buf_start in
      let d = drop j s.buf in
      let there : s.buf_start + j ≡ p.offset = omega arith in
      let bytes =
        AreAt-take source (served_bytes s p) p.offset d
          (rw there at (AreAt-drop source j s.buf_start s.buf a)) in
      let len = length-take (served_bytes s p) d in
      let dlen = length-drop j s.buf in
      (bytes, omega (arith, len, dlen), omega (arith, len, dlen), omega (arith, len, dlen))

  verdict-in_window :
      (drained : Bool) (s : Feed) (p : Pending)
      → verdict drained s p ≡ serves
      → in_window s p ≡ true
  unfolding verdict
  verdict-in_window drained s p e = elim (Bool-cases (in_window s p)) [
    | inl w ↦ w
    | inr n ↦ ground arith
  ]

  -- What the loop comes to: a sound feed, requests that are wanted, and right answers.
  abbrev IsServed : ℤ → Feed × List Signal × Bool → Type 0
  IsServed size (s, out, ended) =
      IsSound s
      × (s.size ≡ size)
      × All (IsWanted size) s.pending
      × (length s.pending ≤ max_pending)
      × All (IsRight source size) out

  module _ (size : ℤ) (ps : List Pending) (all : All (IsWanted size) ps) where
    abbrev GoesOn : (List Pending → Feed → Feed × List Signal × Bool) → Type 0
    GoesOn go =
        (kept : List Pending) (s : Feed)
        → IsSound s
        → s.size ≡ size
        → All (IsWanted size) kept
        → length kept + length ps ≤ max_pending
        → IsServed size (go kept s)

    serve_one-IsServed :
        (v : Verdict) (go : List Pending → Feed → Feed × List Signal × Bool) (kept : List Pending)
        (p : Pending) (s : Feed)
        → GoesOn go
        → (v ≡ serves → in_window s p ≡ true)
        → IsSound s
        → s.size ≡ size
        → All (IsWanted size) kept
        → IsWanted size p
        → length kept + suc (length ps) ≤ max_pending
        → IsServed size (serve_one v go kept p ps s)
    unfolding serve_one
    serve_one-IsServed serves go kept p s k i h e a w l =
        let t = record s { retried_at = none; reader_at = p.offset + served_bytes s p } in
        let (h', e', a', l', r') = k kept t h e a (omega arith) in
        (
          h',
          e',
          a',
          l',
          (
            subst (λ n. IsRight source n (answer s p)) e (answer-IsRight s p h.1 (rw e w) (i refl)),
            r',
          ),
        )
    serve_one-IsServed retries go kept p s k i h e a w l =
        let t = record s { retried_at = some p.offset; pending = kept ++ p ∷ ps } in
        (
          stream_from-IsSound p.offset t h,
          e,
          All-append (IsWanted size) kept (p ∷ ps) a (w, all),
          omega (arith, length-append kept (p ∷ ps)),
          tt,
        )
    serve_one-IsServed refuses go kept p s k i h e a w l =
        let (h', e', a', l', r') = k kept s h e a (omega arith) in (h', e', a', l', (tt, r'))
    serve_one-IsServed leaves go kept p s k i h e a w l =
        k (kept ++ p ∷ []) s h e (All-append (IsWanted size) kept (p ∷ []) a (w, tt))
          (omega (arith, length-append kept (p ∷ [])))

  serve_loop-IsServed :
      (size : ℤ) (drained : Bool) (kept ps : List Pending) (s : Feed)
      → IsSound s
      → s.size ≡ size
      → All (IsWanted size) kept
      → All (IsWanted size) ps
      → length kept + length ps ≤ max_pending
      → IsServed size (serve_loop drained kept ps s)
  unfolding serve_loop
  serve_loop-IsServed size drained kept [] s h e a w l = (h, e, a, omega arith, tt)
  serve_loop-IsServed size drained kept (p ∷ ps) s h e a (w, ws) l =
      serve_one-IsServed size ps ws (verdict drained s p) (λ k t. serve_loop drained k ps t) kept p
        s (λ k t h' e' a' l'. serve_loop-IsServed size drained k ps t h' e' a' ws l')
        (verdict-in_window drained s p) h e a w l

  after_serving-Inv : (s : Feed) → Inv s → Inv (after_serving s) × ((after_serving s).size ≡ s.size)
  unfolding after_serving
  after_serving-Inv s (h, a, l) =
      let u = record s { pulling = is_some s.reply && not (is_empty s.pending) } in
      let (e, e') = trim_buffer-same u in ((trim_buffer-IsSound u h, rw (e, e') a, rw e' l), e)

  -- An operation keeps the invariant and the size, and its signals are right.
  abbrev pub Keeps : Feed → Answer → Type 0
  Keeps s (t, out) = Inv t × (t.size ≡ s.size) × All (IsRight source s.size) out

  pub serve_pending-Keeps : (s : Feed) → Inv s → Keeps s (serve_pending s)
  unfolding serve_pending
  serve_pending-Keeps s (h, a, l) =
      let r = serve_loop (is_drained s.reply) [] s.pending s in
      let (h', e, a', l', out) =
        serve_loop-IsServed s.size (is_drained s.reply) [] s.pending s h refl tt a (omega arith) in
      let inv : Inv r.0 = (h', subst (λ z. All (IsWanted z) r.0.pending) (sym e) a', l') in
      if_cases (λ t. Keeps s (t, r.1)) r.2 {x = after_serving r.0} {y = r.0}
        (λ _. let (i, e') = after_serving-Inv r.0 inv in (i, e' ∙ e, out)) (λ _. (inv, e, out))
