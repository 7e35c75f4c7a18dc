-- ===== src/Downloads/HttpDownload/Integrity/Transfers.antt =====
-- src/services/downloads/httpdownload.cpp: what the network and the timer do, and the invariant of
-- `Integrity`.
use batorrent.Base.{
  &&-left, &&-right, ==_iff, All-get, All-weaken, Bool, List, Option, Option-cases, ap, arith,
  false, get_elem?, get_or, if_cases, inl, inr, is_empty, leb, leb_ℤ, leb→le, length, ltb, ltb_ℤ,
  ltb→lt, max, none, not, pos, pos_add, refl, set, some, subst, true, within_tests, ℕ, ℤ, ◌&&◌,
  ◌+ℤ◌, ◌+◌, ◌-◌, ◌<◌, ◌==◌, ◌||◌, ◌∙◌, ◌≡◌, ◌≤◌,
}
use native.Mathlib.Decide.{dec_lt}
use batorrent.Downloads.HttpDownload.Types.{
  Segment, File, HttpDownload, stalled, segment_overrun, disk_write_failed, rank, state_is,
  downloading,
}
use batorrent.Downloads.HttpDownload.{opened_part}
use batorrent.Downloads.HttpDownload.Events.{
  write_at, is_negative, received_chunk, on_segment_ready_read, idle, check_stall, sample, sampled,
}
use batorrent.Downloads.HttpDownload.Integrity.{
  IsGood, IsLaid, IsLive, Inv, IsLaid-set, fail-IsLive, spawn_segment-IsLive, spawn_where-keeps,
}

at_place :
    (s : Segment) (a r place : ℕ)
    → s.range.start ≡ pos a
    → s.received ≡ pos r
    → s.range.start +ℤ s.received ≡ pos place
    → a + r ≡ place
unfolding ◌+ℤ◌
at_place s a r place e h g = ground arith

module _ (source : ℕ → ℕ) (place : ℕ) (chunk : List ℕ) where
  -- The bytes of the chunk, at their places in the file.
  written :
      ((k : ℕ) → k < length chunk → get_or chunk k 0 ≡ source (place + k))
      → (x : ℕ) → leb place x && ltb x (place + length chunk) ≡ true
      → get_or chunk (x - place) 0 ≡ source x
  written b x h =
      let lo : place ≤ x =
        leb→le place x (&&-left (leb place x) (ltb x (place + length chunk)) h) in
      let hi : x < place + length chunk =
        ltb→lt x (place + length chunk) (&&-right (leb place x) (ltb x (place + length chunk)) h) in
      b (x - place) (omega arith) ∙ ap source (omega arith)

module _ (source : ℕ → ℕ) (n : ℕ) (positive : 0 < n) where
  -- The chunk is what the source has at the place where segment `s` goes on, and not more of it.
  pub record IsSent (s : Segment) (chunk : List ℕ) : Type 0 where
    pub place : ℕ
    pub goes_on : s.range.start +ℤ s.received ≡ pos place
    pub fits : place + length chunk ≤ n
    pub bytes : (k : ℕ) → k < length chunk → get_or chunk k 0 ≡ source (place + k)

  write_good :
      (f : File) (place : ℕ) (chunk : List ℕ) (s : Segment)
      → ((k : ℕ) → k < length chunk → get_or chunk k 0 ≡ source (place + k))
      → IsGood source n f s
      → IsGood source n (write_at place chunk f) s
  unfolding write_at
  write_good f place chunk s b g = record {
    first = g.first;
    count = g.count;
    at = g.at;
    got = g.got;
    within = g.within;
    same = λ x lo hi. (
      omega (arith, (g.same x lo hi).0),
      if_cases (λ (v : ℕ). v ≡ source x) (leb place x && ltb x (place + length chunk))
          (λ h. written source place chunk b x h) (λ _. (g.same x lo hi).1),
    );
  }

  extended :
      (f : File) (place : ℕ) (chunk : List ℕ) (s : Segment) (r : ℤ)
      → s.range.start +ℤ s.received ≡ pos place
      → place + length chunk ≤ n
      → ((k : ℕ) → k < length chunk → get_or chunk k 0 ≡ source (place + k))
      → IsGood source n f s
      → r ≡ s.received +ℤ pos (length chunk)
      → IsGood source n (write_at place chunk f) (record s { received = r })
  unfolding write_at write_good
  extended f place chunk s r e fits b g h =
      let w = write_good f place chunk s b g in
      let here : g.first + g.count ≡ place = at_place s g.first g.count place g.at g.got e in
      record {
        first = g.first;
        count = g.count + length chunk;
        at = g.at;
        got = h ∙ pos_add s.received g.count (length chunk) g.got;
        within = omega arith;
        same = λ x lo hi. elim (dec_lt x (g.first + g.count)) [
          | yes old ↦ w.same x lo old
          | no new ↦ (
            omega arith,
            rw (within_tests place x (place + length chunk) (omega arith) (omega arith))
                (b (x - place) (omega arith) ∙ ap source (omega arith)),
          )
        ];
      }

  pub IsLive-of : (d : HttpDownload) → rank d.state ≡ 2 → Inv source n d → IsLive source n d
  IsLive-of d r (inl v) = v
  IsLive-of d r (inr o) = absurd (omega (arith, r, o.completed_is))

  is_downloading : (r : ℕ) (b : Bool) → not (r == 2) || b ≡ false → r ≡ 2
  is_downloading r b h = ground arith

  -- A part of the right size is there.
  part_there : (o : Option File) → (opened_part o).size_bytes ≡ n → (f : File) × (o ≡ some f)
  part_there none z = absurd (omega arith)
  part_there (some f) z = (f, refl)

  received_chunk-IsLive :
      (i : ℕ) (chunk : List ℕ) (s : Segment) (d : HttpDownload)
      → IsLive source n d
      → rank d.state ≡ 2
      → get_elem? d.segments i ≡ some s
      → IsSent s chunk
      → IsLive source n (received_chunk i chunk s d)
  unfolding received_chunk
  received_chunk-IsLive i chunk s d v r e k =
      let z = v.sized (v.opened r) in
      let (f, there) = part_there d.disk.part z in
      let f' = write_at k.place chunk f in
      let s' : Segment = record s { received = s.received +ℤ pos (length chunk) } in
      let x : HttpDownload = record d {
        disk = record d.disk { part = some f' };
        segments = set d.segments i s';
      } in
      let laid : IsLaid source n d.total f d.segments =
        subst (λ (o : Option File). IsLaid source n d.total (opened_part o) d.segments) there
          v.laid in
      let z' : f.size_bytes ≡ n =
        subst (λ (o : Option File). (opened_part o).size_bytes ≡ n) there z in
      let l : IsLaid source n x.total f' x.segments =
        IsLaid-set source n d.segments i s s'
          (record {
            good =
                All-weaken (IsGood source n f) (IsGood source n f') d.segments
                  (λ t g. write_good f k.place chunk t k.bytes g) laid.good;
            shape = laid.shape;
          })
          e refl
          (extended f k.place chunk s s'.received k.goes_on k.fits k.bytes
            (All-get (IsGood source n f) d.segments i laid.good e) refl) in
      rw (k.goes_on, there)
        (if_cases (IsLive source n)
          (leb_ℤ (pos 0) s.range.end && ltb_ℤ (s.range.end +ℤ pos 1) (s.range.start +ℤ s'.received))
          {y = x} (λ _. fail-IsLive source n segment_overrun x l)
          (λ _. record {
            laid = l;
            sized = λ _. full f (k.place + length chunk) z' k.fits;
            opened = v.opened;
            asked = v.asked;
            going = v.going;
          }))
    where
      full : (f : File) (m : ℕ) → f.size_bytes ≡ n → m ≤ n → max f.size_bytes m ≡ n
      full f m e h = omega arith

  pub on_segment_ready_read-Inv :
      (i : ℕ) (chunk : List ℕ) (ok : Bool) (d : HttpDownload)
      → ((s : Segment) → get_elem? d.segments i ≡ some s → IsSent s chunk)
      → Inv source n d
      → Inv source n (on_segment_ready_read i chunk ok d)
  unfolding on_segment_ready_read
  on_segment_ready_read-Inv i chunk ok d k v = elim (Option-cases (get_elem? d.segments i)) [
    | inl e ↦ rw (e, on_segment_ready_read) v
    | inr (s, e) ↦
        rw (e, on_segment_ready_read)
          (if_cases (Inv source n) (not (state_is downloading d) || is_empty chunk) (λ _. v)
            (λ here.
              let r : rank d.state ≡ 2 = is_downloading (rank d.state) (is_empty chunk) here in
              let live : IsLive source n d = IsLive-of d r v in
              if_cases (Inv source n) (not ok || is_negative (s.range.start +ℤ s.received))
                (λ _. inl (fail-IsLive source n disk_write_failed d live.laid))
                (λ _. inl (received_chunk-IsLive i chunk s d live r e (k s e)))))
  ]

  pub check_stall-Inv :
      (elapsed : ℕ) (d : HttpDownload) → Inv source n d → Inv source n (check_stall elapsed d)
  unfolding check_stall
  check_stall-Inv elapsed d v =
      if_cases (Inv source n) (state_is downloading d && ltb (d.last_progress + 30000) elapsed)
        (λ here.
          let live = IsLive-of d ((==_iff (rank d.state) 2).0 (&&-left _ _ here)) v in
          if_cases (Inv source n) d.stall_retried
            (λ _. inl (fail-IsLive source n stalled d live.laid))
            (λ _. inl (
              spawn_where-keeps source n (IsLive source n) idle (length d.segments) 0
                (λ j x w. spawn_segment-IsLive source n j w)
                (record {
                  laid = live.laid;
                  sized = live.sized;
                  opened = live.opened;
                  asked = live.asked;
                  going = live.going;
                }))))
        (λ _. v)

  sampled-Inv : (elapsed : ℕ) (d : HttpDownload) → Inv source n d → Inv source n (sampled elapsed d)
  unfolding sampled
  sampled-Inv elapsed d (inl v) = inl (record {
    laid = v.laid;
    sized = v.sized;
    opened = v.opened;
    asked = v.asked;
    going = v.going;
  })
  sampled-Inv elapsed d (inr o) =
      inr (record { completed_is = o.completed_is; no_probe = o.no_probe; result = o.result })

  pub sample-Inv :
      (elapsed : ℕ) (d : HttpDownload) → Inv source n d → Inv source n (sample elapsed d)
  unfolding sample
  sample-Inv elapsed d v = check_stall-Inv elapsed (sampled elapsed d) (sampled-Inv elapsed d v)
