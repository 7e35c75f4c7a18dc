-- ===== src/Ipc/MediaFeed/Run.antt =====
-- Runs of src/ipc/mediafeed.cpp: requests, the server and the event loop in any order.
use mathlib.Core.Option.{some-injective}
use batorrent.Base.{
  All, List, Text, [], arith, false, if_cases, leb_ℤ, length, pos, refl, some, subst, sym, true, ℕ,
  ℤ, ◌++◌, ◌+◌, ◌∙◌, ◌≡◌, ◌≢◌, ◌≤◌,
}
use batorrent.Ipc.Bytes.{AreAt, AreAt-append, AreAt-nil}
use batorrent.Ipc.MediaFeed.{
  Feed, Reply, Answer, media_feed, start_file, head_finished, window, max_pending,
}
use batorrent.Ipc.MediaFeed.Requests.{request, range_starts, on_http_data, on_queued}
use batorrent.Ipc.MediaFeed.Serving.{IsRight, AllHonest, Inv, Keeps}
use batorrent.Ipc.MediaFeed.Keeping.{request-Keeps, on_http_data-Keeps, on_queued-Keeps}

module _ (source : ℕ → ℕ) (to_long_long : Text → ℤ) where
  -- Headers come before bytes, and name the place from which the server sends.
  abbrev pub IsHonest : ℕ → Text → ℕ → Type 0
  IsHonest status range at =
      (status ≡ 200 → at ≡ 0)
      × (status ≡ 206 → (n : ℕ) → range_starts to_long_long range n ≡ true → at ≡ n)

  -- A request, a poll, a call that was queued, the headers, bytes of the file, or the reply's end.
  pub data Step : Feed → Answer → Type 0 where
    asks : (id : ℕ) (offset len : ℤ) (s : Feed) → Step s (request id offset len s)
    polls : (s : Feed) → Step s (on_http_data to_long_long s)
    goes_on : (s : Feed) → Step s (on_queued to_long_long s)
    headers :
        (s : Feed) (r : Reply) (status at : ℕ) (range : Text)
        → s.reply ≡ some r
        → r.available ≡ []
        → s.reply_checked ≡ false
        → IsHonest status range at
        → Step s (
          record s {
            reply = some (record r { status = status; content_range = range; available_at = at });
          },
          [],
        )
    arrives :
        (s : Feed) (r : Reply) (bytes : List ℕ)
        → s.reply ≡ some r
        → AreAt source (r.available_at + length r.available) bytes
        → Step s (record s { reply = some (record r { available = r.available ++ bytes }) }, [])
    finishes :
        (s : Feed) (r : Reply)
        → s.reply ≡ some r
        → Step s (record s { reply = some (record r { is_finished = true }) }, [])

  true-ne-false : true ≢ false
  true-ne-false e = cc

  pub Step-Keeps :
      {s : Feed} {a : Answer} → Step s a → Inv source to_long_long s → Keeps source to_long_long s a
  Step-Keeps (asks id offset len s) i = request-Keeps source to_long_long id offset len s i
  Step-Keeps (polls s) i = on_http_data-Keeps source to_long_long s i
  Step-Keeps (goes_on s) i = on_queued-Keeps source to_long_long s i
  Step-Keeps (headers s r status at range e n c (ok, partial)) ((h, held, small, f), a, l) =
      let (_, _, empty, _, _) = subst (AllHonest source to_long_long s) e h in
      (
        (
          (
            (
              subst (AreAt source at) (sym n) (AreAt-nil source at),
              λ d. absurd (true-ne-false (sym d ∙ c)),
              empty,
              λ q _. ok q,
              λ q start _ t. partial q start t,
            ),
            held,
            small,
            f,
          ),
          a,
          l,
        ),
        refl,
        tt,
      )
  Step-Keeps (arrives s r bytes e b) ((h, held, small, f), a, l) =
      let (sent, there, none_yet, ok, partial) = subst (AllHonest source to_long_long s) e h in
      let all = AreAt-append source r.available_at r.available bytes sent b in
      ((((all, there, none_yet, ok, partial), held, small, f), a, l), refl, tt)
  Step-Keeps (finishes s r e) ((h, held, small, f), a, l) =
      (((subst (AllHonest source to_long_long s) e h, held, small, f), a, l), refl, tt)

  -- A feed that has its file open, or has been told the size of a stream.
  pub data Opened : Feed → Type 0 where
    file :
        (content : List ℕ)
        → AreAt source 0 content
        → Opened (start_file (some content) media_feed).0
    stream : (len : ℤ) → Opened (head_finished false len media_feed).0

  pub Opened-Inv : {s : Feed} → Opened s → Inv source to_long_long s
  unfolding start_file head_finished media_feed
  Opened-Inv (file content a) = (
    (tt, AreAt-nil source 0, omega arith, λ c e. subst (AreAt source 0) (some-injective _ _ e) a),
    tt,
    omega arith,
  )
  Opened-Inv (stream len) =
      if_cases (λ (x : Answer). Inv source to_long_long x.0) (leb_ℤ len (pos 0))
        (λ _. ((tt, AreAt-nil source 0, omega arith, λ c e. cc), tt, omega arith))
        (λ _. ((tt, AreAt-nil source 0, omega arith, λ c e. cc), tt, omega arith))

  pub data Reach (s : Feed) : Feed → Type 0 where
    here : Reach s s
    next : {t : Feed} {a : Answer} → Reach s t → Step t a → Reach s a.0

  Reach-Inv : {s t : Feed} → Opened s → Reach s t → Inv source to_long_long t
  Reach-Inv o here = Opened-Inv o
  Reach-Inv o (next r st) = (Step-Keeps st (Reach-Inv o r)).0

  -- Whatever the other process asks for, and however the server's bytes come: an answer of the feed
  -- holds bytes of the file from the place that it names, at least one, within the file's size and
  -- 4 MiB at most. The server is taken to send the bytes of the file from the place that its headers name.
  answers-AreRight :
      {s t : Feed} {a : Answer} → Opened s → Reach s t → Step t a → All (IsRight source t.size) a.1
  answers-AreRight o r st = (Step-Keeps st (Reach-Inv o r)).2

  -- Nor does the feed hold more than its window, or more requests than its limit.
  feed-IsSmall :
      {s t : Feed}
      → Opened s
      → Reach s t
      → (length t.buf ≤ window) × (length t.pending ≤ max_pending)
  feed-IsSmall o r = let (h, _, l) = Reach-Inv o r in (h.2, l)
