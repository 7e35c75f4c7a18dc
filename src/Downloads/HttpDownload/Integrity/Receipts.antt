-- ===== src/Downloads/HttpDownload/Integrity/Receipts.antt =====
-- httpdownload.cpp: the answer to the probe, the bytes that come and the restart of the application,
-- against what was asked for.
use mathlib.Core.Option.{some-injective}
use batorrent.Base.{
  ==_iff, Bool, List, Option, Option-cases, Text, [], arith, codes, false, get_elem?, if_cases,
  if◌then◌else◌, inl, inr, is_empty, leb_ℤ, length, ltb_ℤ, map, none, not, pos, refl, set, some,
  starts_with, subst, suc, sym, true, zero, ℕ, ℤ, ◌&&◌, ◌+ℤ◌, ◌+◌, ◌<◌, ◌==◌, ◌||◌, ◌∙◌, ◌∷◌, ◌≡◌,
  ◌≢◌, ◌≤◌,
}
use batorrent.Downloads.RangePlan.{ByteRange, plan_segments}
use batorrent.Downloads.RangePlan.Tiling.{Tiles, plan_segments-Tiles}
use batorrent.Downloads.HttpDownload.Types.{
  Segment, Request, HttpDownload, Answers, state_is, rank, network, Failure, failed, downloading,
  segment_overrun, disk_write_failed,
}
use batorrent.Downloads.HttpDownload.{abort_replies, fail}
use batorrent.Downloads.HttpDownload.Events.{
  ProbeReply, fresh, lay_out, renamed, probed_total, on_probe_finished, is_negative, received_chunk,
  on_segment_ready_read, write_part,
}
use batorrent.Downloads.HttpDownload.Integrity.Asked.{
  Placed, IsLinked, dropped, rewritten_more, resent, add_pos,
}
use batorrent.Downloads.HttpDownload.Integrity.Requests.{
  set_state-IsLinked, fail-IsLinked, begin_segments-IsLinked,
}

-- The answer to the probe: ranges are served, and the size is there.
abbrev pub IsServing : (n : ℕ) (to_long_long : Text → Option ℤ) (r : ProbeReply) → Type 0
IsServing n to_long_long r =
    (r.error ≡ none) → (r.status ≡ 206) × (probed_total to_long_long r ≡ pos n)

module _ (sent : ℕ → ℕ → ℕ) where
  laid_out :
      {next : ℕ} {rs : List Request} (p q : ℕ) (bs : List ByteRange)
      → Tiles p q bs
      → (i : ℕ) (s : Segment) (f : ℕ → ℕ) → get_elem? (map fresh bs) i ≡ some s
      → Placed true f next rs s
  laid_out p q [] t i s f e = cc
  laid_out {next} {rs} p q (b ∷ bs) (m, a, le, c, t) zero s f e =
      subst (Placed true f next rs) (some-injective (fresh b) s e) (record {
        ranged_is = refl;
        ends = rw c (ground arith);
        first = p;
        count = 0;
        at = a;
        got = refl;
        waits = λ h w. cc;
      })
  laid_out p q (b ∷ bs) (m, a, le, c, t) (suc i) s f e = laid_out (suc m) q bs t i s f e

  lay_out-IsLinked :
      (n : ℕ) (d : HttpDownload) → 0 < n → IsLinked sent d → IsLinked sent (lay_out true (pos n) d)
  unfolding lay_out
  lay_out-IsLinked n d h l =
      let known : ltb_ℤ (pos 0) (pos n) ≡ true = ground arith in
      rw known (record {
        unused = l.unused;
        placed = λ i s e.
            laid_out 0 n (plan_segments (pos n) d.conns) (plan_segments-Tiles n d.conns h) i s
              (sent i) e;
      })

  renamed-IsLinked :
      (r : ProbeReply) (d : HttpDownload) → IsLinked sent d → IsLinked sent (renamed r d)
  unfolding renamed
  renamed-IsLinked r d l =
      if_cases (IsLinked sent)
        (r.has_disposition
          && starts_with d.file_name (codes "download-")
          && not (is_empty r.disposition_name))
        {x = record d { file_name = r.disposition_name }} {y = d} (λ _. l) (λ _. l)

  pub on_probe_finished-IsLinked :
      (n : ℕ) (to_long_long : Text → Option ℤ) (r : ProbeReply) (env : Answers) (d : HttpDownload)
      → 0 < n
      → IsServing n to_long_long r
      → IsLinked sent d
      → IsLinked sent (on_probe_finished to_long_long r env d)
  unfolding on_probe_finished
  on_probe_finished-IsLinked n tl r env d h k l = elim (Option-cases d.probe) [
    | inl e ↦ rw (e, on_probe_finished) l
    | inr (p, e) ↦
        let d' : HttpDownload = record d { probe = none } in
        rw (e, on_probe_finished)
          (elim (Option-cases r.error) [
            | inr (why, q) ↦ rw q (fail-IsLinked sent (network why) d' l)
            | inl q ↦
                rw (q, (k q).1, (==_iff r.status 206).1 (k q).0)
                  (begin_segments-IsLinked sent env (lay_out true (pos n) (renamed r d'))
                    (lay_out-IsLinked n (renamed r d') h (renamed-IsLinked r d' l)))
          ])
  ]

  -- What the replies have brought once reply `h` brings `k` more to segment `i`.
  abbrev pub after : (i h k : ℕ) → ℕ → ℕ → ℕ
  after i h k j g = if i == j && h == g then sent j g + k else sent j g

  after_other : (i h k j g : ℕ) → i ≢ j → after i h k j g ≡ sent j g
  after_other i h k j g o = ground arith

  after_unused :
      (i h k next : ℕ)
      → ((j g : ℕ) → next ≤ g → sent j g ≡ 0)
      → h < next
      → (j g : ℕ) → next ≤ g
      → after i h k j g ≡ 0
  after_unused i h k next u lt j g le = grind (arith, u j g le)

  after_same : (i h k g : ℕ) → h ≡ g → after i h k i g ≡ sent i g + k
  after_same i h k g e = grind (arith, (==_iff i i).1 refl, (==_iff h g).1 e)

  failed_dropping :
      {more : ℕ → ℕ → ℕ} (why : Failure) (d : HttpDownload)
      → ((i h : ℕ) → d.next_reply ≤ h → more i h ≡ 0)
      → IsLinked sent d
      → IsLinked more (fail why d)
  unfolding fail abort_replies
  failed_dropping {more} why d u l =
      set_state-IsLinked more failed
        (record (abort_replies d) { error = why; file_open = false; sampling = false })
        (dropped d.segments u l)

  -- The segment has received what its reply has brought.
  grown :
      {a : Bool} {k : ℕ} {rs : List Request} (i h : ℕ) (chunk : List ℕ) (s : Segment)
      → s.reply ≡ some h
      → Placed a (sent i) k rs s
      → Placed a
          (after i h (length chunk) i)
          k
          rs
          (record s { received = s.received +ℤ pos (length chunk) })
  grown {rs = rs} i h chunk s w p = record {
    ranged_is = p.ranged_is;
    ends = p.ends;
    first = p.first;
    count = p.count + length chunk;
    at = p.at;
    got = rw p.got (add_pos p.count (length chunk));
    waits = λ g q.
        let (lt, place) = p.waits g q in
        let same : h ≡ g = some-injective h g (sym w ∙ q) in
        (lt, omega (arith, place, after_same i h (length chunk) g same));
  }

  pub on_segment_ready_read-IsLinked :
      (i h : ℕ) (chunk : List ℕ) (ok : Bool) (d : HttpDownload) (s : Segment)
      → get_elem? d.segments i ≡ some s
      → s.reply ≡ some h
      → rank d.state ≡ 2
      → IsLinked sent d
      → IsLinked (after i h (length chunk)) (on_segment_ready_read i chunk ok d)
  unfolding on_segment_ready_read received_chunk
  on_segment_ready_read-IsLinked i h chunk ok d s e w r l =
      let more = after i h (length chunk) in
      let p = l.placed i s e in
      let u = after_unused i h (length chunk) d.next_reply l.unused (p.waits h w).0 in
      let s' : Segment = record s { received = s.received +ℤ pos (length chunk) } in
      let d' : HttpDownload = record d {
        disk = write_part (s.range.start +ℤ s.received) chunk d.disk;
        segments = set d.segments i s';
      } in
      let l' : IsLinked more d' =
        rewritten_more d.segments i s s' e (λ j g o. after_other i h (length chunk) j g o) u
          (grown i h chunk s w p) l in
      rw (e, on_segment_ready_read)
        (if_cases (IsLinked more) (not (state_is downloading d) || is_empty chunk)
          (λ q. nothing chunk q)
          (λ _.
            if_cases (IsLinked more) (not ok || is_negative (s.range.start +ℤ s.received))
              (λ _. failed_dropping disk_write_failed d u l)
              (λ _.
                if_cases (IsLinked more)
                  (leb_ℤ (pos 0) s.range.end
                    && ltb_ℤ (s.range.end +ℤ pos 1) (s.range.start +ℤ s'.received))
                  (λ _. fail-IsLinked more segment_overrun d' l') (λ _. l'))))
    where
      nothing :
          (chunk : List ℕ)
          → not (rank d.state == 2) || is_empty chunk ≡ true
          → IsLinked (after i h (length chunk)) d
      nothing [] q = record {
        unused = λ j g le. grind (arith, l.unused j g le);
        placed = λ j t there. resent (λ g. ground arith) (l.placed j t there);
      }
      nothing (c ∷ cs) q = absurd (ground (arith, r))
