-- ===== src/Ipc/MediaFeed/Keeping.antt =====
-- The operations of src/ipc/mediafeed.cpp keep what the feed holds right, and answer right.
use batorrent.Base.{
  &&-left, &&-right, ==_iff, All, All-append, Bool, Bool-cases, List, Option, Text, [], ap, arith,
  drop, false, if_cases, if◌then◌else◌, inl, inr, is_empty, length, length-append, length-take,
  none, refl, some, subst, sym, take, true, ℕ, ℤ, ◌&&◌, ◌++◌, ◌-◌, ◌<◌, ◌==◌, ◌||◌, ◌∙◌, ◌∷◌, ◌≡◌,
  ◌≢◌, ◌≤◌,
}
use batorrent.Ipc.Bytes.{AreAt, AreAt-take, AreAt-drop, AreAt-append, AreAt-rest}
use batorrent.Ipc.MediaFeed.{
  Feed, Pending, Reply, Signal, window, max_pending, serve_pending, refuse_all, buf_end, in_window,
}
use batorrent.Ipc.MediaFeed.Requests.{
  is_refused, accepted, from_file, coming_soon, from_stream, from_source, request, fill,
  is_at_buffer, take_data, on_http_data, on_queued,
}
use batorrent.Ipc.MediaFeed.Serving.{
  IsWanted, IsRight, ReplyIsHonest, AllHonest, IsSound, Inv, Keeps, stream_from-IsSound,
  serve_pending-Keeps,
}

module _ (source : ℕ → ℕ) (to_long_long : Text → ℤ) where
  accepted-IsWanted :
      (id : ℕ) (offset len : ℤ) (s : Feed)
      → is_refused offset len s ≡ false
      → IsWanted s.size (accepted id offset len s) × (length s.pending < max_pending)
  accepted-IsWanted id offset len s h = ((ground arith, ground arith, ground arith), ground arith)

  not_empty : (bs : List ℕ) → is_empty bs ≡ false → 0 < length bs
  not_empty [] h = cc
  not_empty (b ∷ bs) h = omega arith

  from_file-Keeps :
      (content : List ℕ) (p : Pending) (s : Feed)
      → s.file ≡ some content
      → IsWanted s.size p
      → Inv source to_long_long s
      → Keeps source to_long_long s (from_file content p s)
  unfolding from_file
  from_file-Keeps content p s e (w, m, l) i =
      let d = drop p.offset content in
      let bytes = take p.length d in
      (
        i,
        refl,
        (
          if_cases (IsRight source s.size) (is_empty bytes) (λ _. tt)
              (λ n. (
                AreAt-take source p.length p.offset d (λ k h.
                    AreAt-drop source p.offset 0 content (i.0.3 content e) k h
                    ∙ ap source (omega arith)),
                not_empty bytes n,
                omega (arith, length-take p.length d),
                omega (arith, length-take p.length d),
              )),
          tt,
        ),
      )

  from_stream-Keeps :
      (p : Pending) (s : Feed)
      → IsWanted s.size p
      → length s.pending < max_pending
      → Inv source to_long_long s
      → Keeps source to_long_long s (from_stream p s)
  unfolding from_stream
  from_stream-Keeps p s w l (h, a, _) =
      let t = record s { pending = s.pending ++ p ∷ [] } in
      let all = All-append (IsWanted s.size) s.pending (p ∷ []) a (w, tt) in
      let few : length (s.pending ++ p ∷ []) ≤ max_pending =
        omega (arith, length-append s.pending (p ∷ [])) in
      if_cases (Keeps source to_long_long s) (in_window s p || coming_soon s p)
        (λ _. serve_pending-Keeps source to_long_long t (h, all, few))
        (λ _. ((stream_from-IsSound source to_long_long p.offset t h, all, few), refl, tt))

  from_source-Keeps :
      (o : Option (List ℕ)) (p : Pending) (s : Feed)
      → s.file ≡ o
      → IsWanted s.size p
      → length s.pending < max_pending
      → Inv source to_long_long s
      → Keeps source to_long_long s (from_source o p s)
  unfolding from_source
  from_source-Keeps none p s e w l i = from_stream-Keeps p s w l i
  from_source-Keeps (some content) p s e w l i = from_file-Keeps content p s e w i

  pub request-Keeps :
      (id : ℕ) (offset len : ℤ) (s : Feed)
      → Inv source to_long_long s
      → Keeps source to_long_long s (request id offset len s)
  unfolding request
  request-Keeps id offset len s i =
      if_cases (Keeps source to_long_long s) (is_refused offset len s) (λ _. (i, refl, (tt, tt)))
        (λ h.
          let (w, l) = accepted-IsWanted id offset len s h in
          from_source-Keeps s.file (accepted id offset len s) s refl w l i)

  -- Headers that are checked tell where the bytes of the reply go.
  at_buffer :
      (r : Reply) (s : Feed)
      → ReplyIsHonest source to_long_long s r
      → s.reply_checked ≡ false
      → is_at_buffer to_long_long r s.buf_start ≡ true
      → r.available_at ≡ buf_end s
  at_buffer r s (_, _, empty, ok, partial) c h =
      let none_yet : length s.buf ≡ 0 = ap length (empty c) in
      elim (Bool-cases (r.status == 206)) [
        | inl p ↦ omega (
          arith,
          none_yet,
          partial ((==_iff r.status 206).0 p) s.buf_start c (rw (p, is_at_buffer) at h),
        )
        | inr n ↦
            let both : (r.status == 200) && (s.buf_start == 0) ≡ true = rw (n, is_at_buffer) at h in
            omega (
              arith,
              none_yet,
              ok ((==_iff r.status 200).0 (&&-left (r.status == 200) (s.buf_start == 0) both)) c,
              (==_iff s.buf_start 0).0 (&&-right (r.status == 200) (s.buf_start == 0) both),
            )
      ]

  fill-IsSound :
      (r : Reply) (s : Feed)
      → ReplyIsHonest source to_long_long s r
      → s.reply_checked ≡ true
      → AreAt source s.buf_start s.buf
      → length s.buf ≤ window
      → ((content : List ℕ) → s.file ≡ some content → AreAt source 0 content)
      → IsSound source to_long_long (fill r s)
  fill-IsSound r s (sent, there, _, _, _) c held small f =
      let room = window - length s.buf in
      let got = take room r.available in
      let at : r.available_at ≡ buf_end s = there c in
      let len = length-append s.buf got in
      let read = length-take room r.available in
      (
        (
          AreAt-rest source room r.available_at r.available sent,
          λ _. omega (arith, at, len),
          λ e. absurd (true-ne-false (sym c ∙ e)),
          λ _ e. absurd (true-ne-false (sym c ∙ e)),
          λ _ _ e. absurd (true-ne-false (sym c ∙ e)),
        ),
        AreAt-append source s.buf_start s.buf got held (
            subst (λ n. AreAt source n got) at
              (AreAt-take source room r.available_at r.available sent)),
        omega (arith, len, read),
        f,
      )
    where
      true-ne-false : true ≢ false
      true-ne-false e = cc

  refuse_all-IsRight : (size : ℤ) (ps : List Pending) → All (IsRight source size) (refuse_all ps)
  refuse_all-IsRight size [] = tt
  refuse_all-IsRight size (p ∷ ps) = (tt, refuse_all-IsRight size ps)

  take_data-Keeps :
      (o : Option Reply) (s : Feed)
      → s.reply ≡ o
      → Inv source to_long_long s
      → Keeps source to_long_long s (take_data to_long_long o s)
  unfolding take_data
  take_data-Keeps none s e i = (i, refl, tt)
  take_data-Keeps (some r) s e ((h, held, small, f), a, l) =
      let honest : ReplyIsHonest source to_long_long s r =
        subst (AllHonest source to_long_long s) e h in
      let checked = record s { reply_checked = true } in
      if_cases After s.reply_checked
        (λ c.
          serve_pending-Keeps source to_long_long (fill r s)
            (fill-IsSound r s honest c held small f, a, l))
        (λ c.
          if_cases After (is_at_buffer to_long_long r s.buf_start)
            (λ b. serve_pending-Keeps source to_long_long (fill r checked) (
              fill-IsSound r checked (checked-ReplyIsHonest honest (at_buffer r s honest c b)) refl
                  held small f,
              a,
              l,
            ))
            (λ _.
              (((tt, held, small, f), tt, omega arith), refl, refuse_all-IsRight s.size s.pending)))
    where
      After : Bool × Feed × List Signal → Type 0
      After x = Keeps source to_long_long s (if x.0 then serve_pending (fill r x.1) else (x.1, x.2))

      checked-ReplyIsHonest :
          ReplyIsHonest source to_long_long s r
          → r.available_at ≡ buf_end s
          → ReplyIsHonest source to_long_long (record s { reply_checked = true }) r
      checked-ReplyIsHonest (sent, _, _, _, _) at = (sent, λ _. at, λ e. cc, λ _ e. cc, λ _ _ e. cc)

  pub on_http_data-Keeps :
      (s : Feed)
      → Inv source to_long_long s
      → Keeps source to_long_long s (on_http_data to_long_long s)
  unfolding on_http_data
  on_http_data-Keeps s i = take_data-Keeps s.reply s refl i

  pub on_queued-Keeps :
      (s : Feed)
      → Inv source to_long_long s
      → Keeps source to_long_long s (on_queued to_long_long s)
  unfolding on_queued
  on_queued-Keeps s i =
      if_cases (Keeps source to_long_long s) s.queued
        (λ _. on_http_data-Keeps (record s { queued = false }) i) (λ _. (i, refl, tt))
