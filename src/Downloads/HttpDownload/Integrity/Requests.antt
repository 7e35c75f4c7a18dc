-- ===== src/Downloads/HttpDownload/Integrity/Requests.antt =====
-- httpdownload.cpp: every call of the download leaves its segments waiting for what they lack.
use batorrent.Base.{
  Bool, Option, Option-cases, Text, arith, eq_ℤ, false, get_elem?, if_cases, if◌then◌else◌, inl,
  inr, is_empty, is_some, leb_ℤ, length, ltb, ltb_ℤ, negsuc, none, not, pos, refl, set, some, true,
  ℕ, ℤ, ◌&&◌, ◌+ℤ◌, ◌+◌, ◌||◌, ◌≡◌,
}
use batorrent.Downloads.HttpDownload.Types.{
  State, Segment, done, HttpDownload, Answers, state_is, Failure, failed, completed, downloading,
  probing, paused, network, all_done, received_bytes, cannot_finalize, size_mismatch, cannot_open,
  stalled, none_yet,
}
use batorrent.Downloads.HttpDownload.{
  set_state, abort_replies, fail, spawn_segment, spawn_where, finalize, maybe_complete, open_part,
  not_done, enter_downloading, begin_opened, begin_segments, ask_probe, start,
}
use batorrent.Downloads.HttpDownload.Events.{
  settle_total, waits_for, idle, on_segment_finished, check_stall, sampled, sample, pause, resume,
}
use batorrent.Downloads.HttpDownload.Integrity.{spawn_where-keeps}
use batorrent.Downloads.HttpDownload.Integrity.Asked.{
  IsLinked, unwaited, dropped, rewritten, asked_more, spawned,
}

module _ (sent : ℕ → ℕ → ℕ) where
  pub set_state-IsLinked :
      (s : State) (d : HttpDownload) → IsLinked sent d → IsLinked sent (set_state s d)
  unfolding set_state
  set_state-IsLinked s d l = if_cases (IsLinked sent) (state_is s d) (λ _. l) (λ _. l)

  pub fail-IsLinked :
      (why : Failure) (d : HttpDownload) → IsLinked sent d → IsLinked sent (fail why d)
  unfolding fail abort_replies
  fail-IsLinked why d l =
      set_state-IsLinked failed
        (record (abort_replies d) { error = why; file_open = false; sampling = false })
        (dropped d.segments l.unused l)

  asks_range :
      (a : Bool) (s : Segment)
      → a ≡ true
      → leb_ℤ (pos 0) s.range.end ≡ true
      → if◌then◌else◌ {A = Option (ℤ × ℤ)}
          (a && leb_ℤ (pos 0) s.range.end)
          (some (s.range.start +ℤ s.received, s.range.end))
          none
        ≡ some (s.range.start +ℤ s.received, s.range.end)
  asks_range a s e h = rw (e, h) refl

  spawn_segment-IsLinked :
      (i : ℕ) (d : HttpDownload) → IsLinked sent d → IsLinked sent (spawn_segment i d)
  unfolding spawn_segment
  spawn_segment-IsLinked i d l = elim (Option-cases (get_elem? d.segments i)) [
    | inl e ↦ rw (e, spawn_segment) l
    | inr (s, e) ↦
        let p = l.placed i s e in
        rw (e, spawn_segment)
          (if_cases (IsLinked sent) (is_some s.reply || done s) (λ _. l)
            (λ _.
              rewritten d.segments i s (record s { reply = some d.next_reply }) e
                (spawned sent i s d p (l.unused i d.next_reply (omega arith)) _
                  (asks_range d.accept_ranges s p.ranged_is p.ends))
                (asked_more _ refl l)))
  ]

  spawn_where-IsLinked :
      (test : Segment → Bool) (left i : ℕ) (d : HttpDownload)
      → IsLinked sent d
      → IsLinked sent (spawn_where test left i d)
  spawn_where-IsLinked test left i d l =
      spawn_where-keeps (λ x. 0) 0 (IsLinked sent) test left i
        (λ j x k. spawn_segment-IsLinked j x k) l

  finalize-IsLinked :
      (env : Answers) (d : HttpDownload) → IsLinked sent d → IsLinked sent (finalize env d)
  unfolding finalize
  finalize-IsLinked env d l =
      if_cases (IsLinked sent) (env.rename_succeeds && is_some d.disk.part)
        (λ _. set_state-IsLinked completed _ l)
        (λ _.
          fail-IsLinked cannot_finalize
            (record d {
              disk = record d.disk { final = if env.remove_succeeds then none else d.disk.final };
            })
            l)

  maybe_complete-IsLinked :
      (env : Answers) (d : HttpDownload) → IsLinked sent d → IsLinked sent (maybe_complete env d)
  unfolding maybe_complete
  maybe_complete-IsLinked env d l =
      let closed : HttpDownload = record d { file_open = false } in
      let got = received_bytes d.segments in
      if_cases (IsLinked sent) (all_done d.segments)
        (λ _.
          if_cases (IsLinked sent) (ltb_ℤ (pos 0) d.total && not (eq_ℤ got d.total))
            (λ _. fail-IsLinked (size_mismatch got d.total) closed l)
            (λ _. finalize-IsLinked env closed l))
        (λ _. l)

  begin_opened-IsLinked :
      (env : Answers) (d : HttpDownload) → IsLinked sent d → IsLinked sent (begin_opened env d)
  unfolding begin_opened enter_downloading
  begin_opened-IsLinked env d l =
      let d' = enter_downloading d in
      maybe_complete-IsLinked env (spawn_where not_done (length d'.segments) 0 d') (
        spawn_where-IsLinked not_done (length d'.segments) 0 d'
          (set_state-IsLinked downloading d l))

  pub begin_segments-IsLinked :
      (env : Answers) (d : HttpDownload) → IsLinked sent d → IsLinked sent (begin_segments env d)
  unfolding begin_segments open_part
  begin_segments-IsLinked env d l =
      if_cases (IsLinked sent) d.file_open (λ _. begin_opened-IsLinked env d l)
        (λ _.
          if_cases (IsLinked sent) env.open_succeeds
            (λ _. begin_opened-IsLinked env (open_part d) l) (λ _. fail-IsLinked cannot_open d l))

  ask_probe-IsLinked : (d : HttpDownload) → IsLinked sent d → IsLinked sent (ask_probe d)
  unfolding ask_probe
  ask_probe-IsLinked d l = asked_more _ refl l

  pub start-IsLinked :
      (env : Answers) (d : HttpDownload) → IsLinked sent d → IsLinked sent (start env d)
  unfolding start
  start-IsLinked env d l =
      let d' : HttpDownload = record d {
        error = none_yet;
        last_progress = 0;
        last_sampled = received_bytes d.segments;
      } in
      if_cases (IsLinked sent) (state_is downloading d || state_is probing d) (λ _. l)
        (λ _.
          if_cases (IsLinked sent) (ltb_ℤ (pos 0) d.total && not (is_empty d.segments))
            (λ _. begin_segments-IsLinked env d' l)
            (λ _. ask_probe-IsLinked (set_state probing d') (set_state-IsLinked probing d' l)))

  pub resume-IsLinked :
      (env : Answers) (d : HttpDownload) → IsLinked sent d → IsLinked sent (resume env d)
  unfolding resume
  resume-IsLinked env d l =
      if_cases (IsLinked sent) (not (state_is paused d) && not (state_is failed d)) (λ _. l)
        (λ _. start-IsLinked env d l)

  pub pause-IsLinked : (d : HttpDownload) → IsLinked sent d → IsLinked sent (pause d)
  unfolding pause abort_replies
  pause-IsLinked d l =
      if_cases (IsLinked sent) (not (state_is downloading d) && not (state_is probing d)) (λ _. l)
        (λ _.
          set_state-IsLinked paused (record (abort_replies d) { sampling = false; rate = pos 0 })
            (dropped d.segments l.unused l))

  pub sample-IsLinked :
      (elapsed : ℕ) (d : HttpDownload) → IsLinked sent d → IsLinked sent (sample elapsed d)
  unfolding sample sampled check_stall
  sample-IsLinked elapsed d l =
      let d' = sampled elapsed d in
      if_cases (IsLinked sent) (state_is downloading d' && ltb (d'.last_progress + 30000) elapsed)
        (λ _.
          if_cases (IsLinked sent) d'.stall_retried (λ _. fail-IsLinked stalled d' l)
            (λ _.
              spawn_where-IsLinked idle (length d'.segments) 0
                (record d' { stall_retried = true; last_progress = elapsed }) l))
        (λ _. l)

  pub on_segment_finished-IsLinked :
      (i r : ℕ) (error : Option Text) (env : Answers) (d : HttpDownload)
      → IsLinked sent d
      → IsLinked sent (on_segment_finished i r error env d)
  unfolding on_segment_finished settle_total
  on_segment_finished-IsLinked i r error env d l = elim (Option-cases (get_elem? d.segments i)) [
    | inl e ↦ rw (e, on_segment_finished) l
    | inr (s, e) ↦
        let p = l.placed i s e in
        let d' : HttpDownload = record d {
          segments = set d.segments i (record s { reply = none });
        } in
        let l' : IsLinked sent d' = rewritten d.segments i s _ e (unwaited s p) l in
        rw (e, on_segment_finished)
          (if_cases (IsLinked sent) (not (waits_for s.reply r)) (λ _. l)
            (λ _.
              if_cases (IsLinked sent) (not (state_is downloading d)) (λ _. l')
                (λ _. elim (Option-cases error) [
                  | inr (why, h) ↦ rw h (fail-IsLinked (network why) d' l')
                  | inl h ↦
                      rw (h, not_open d.total s.range.end p.ends)
                        (maybe_complete-IsLinked env d' l')
                ])))
  ]
    where
      not_open : (t e : ℤ) → leb_ℤ (pos 0) e ≡ true → leb_ℤ t (pos 0) && ltb_ℤ e (pos 0) ≡ false
      not_open t (pos e) h = ground arith
      not_open t (negsuc e) h = ground arith
