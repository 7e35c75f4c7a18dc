-- ===== src/Downloads/HttpDownload/Integrity/Replies.antt =====
-- src/services/downloads/httpdownload.cpp: the ends of the replies, and the invariant of `Integrity`.
use batorrent.Base.{
  All-get, Bool, List, Option, Option-cases, Text, [], arith, codes, false, get_elem?, if_cases,
  inl, inr, is_empty, leb_ℤ, map-set_same, none, not, pos, refl, set, some, starts_with, true, ℕ, ℤ,
  ◌&&◌, ◌<◌, ◌==◌, ◌∷◌, ◌≡◌,
}
use batorrent.Downloads.HttpDownload.Types.{
  HttpDownload, Answers, network, Segment, rank, state_is, downloading,
}
use batorrent.Downloads.HttpDownload.{opened_part, begin_segments}
use batorrent.Downloads.HttpDownload.Events.{
  ProbeReply, renamed, probed_total, lay_out, on_probe_finished, settle_total, on_segment_finished,
  is_negative, waits_for,
}
use batorrent.Downloads.HttpDownload.Integrity.{
  IsLive, Inv, fail-IsLive, IsLaid-set, with_reply, IsReady, IsGood,
}
use batorrent.Downloads.HttpDownload.Integrity.Calls.{begin_segments-Inv, maybe_complete-Inv}
use batorrent.Downloads.HttpDownload.Integrity.Transfers.{IsLive-of}
use batorrent.Downloads.HttpDownload.Integrity.Control.{lay_out-IsPlanned}

module _ (source : ℕ → ℕ) (n : ℕ) (positive : 0 < n) where
  -- The probe fails, or says how large the source is.
  abbrev pub IsTruthful : (Text → Option ℤ) → ProbeReply → Type 0
  IsTruthful to_long_long r = (r.error ≡ none) → probed_total to_long_long r ≡ pos n

  no_probe_left :
      {d : HttpDownload} → IsLive source n d → IsLive source n (record d { probe = none })
  no_probe_left v = record {
    laid = v.laid;
    sized = v.sized;
    opened = v.opened;
    asked = inl refl;
    going = v.going;
  }

  renamed-IsPlanned :
      (ranged : Bool) (r : ProbeReply) (d : HttpDownload)
      → d.probe ≡ none
      → (d.file_open ≡ true → (opened_part d.disk.part).size_bytes ≡ n)
      → (env : Answers) → Inv source n (begin_segments env (lay_out ranged (pos n) (renamed r d)))
  unfolding renamed
  renamed-IsPlanned ranged r d p z env =
      if_cases (λ (x : HttpDownload). Inv source n (begin_segments env (lay_out ranged (pos n) x)))
        (r.has_disposition
          && starts_with d.file_name (codes "download-")
          && not (is_empty r.disposition_name))
        {x = record d { file_name = r.disposition_name }} {y = d}
        (λ _. planned (record d { file_name = r.disposition_name }) p z) (λ _. planned d p z)
    where
      planned :
          (x : HttpDownload)
          → x.probe ≡ none
          → (x.file_open ≡ true → (opened_part x.disk.part).size_bytes ≡ n)
          → Inv source n (begin_segments env (lay_out ranged (pos n) x))
      planned x q w =
          begin_segments-Inv source n positive env (lay_out ranged (pos n) x)
            (lay_out-IsPlanned source n positive ranged x q) (unfold lay_out in w)

  pub on_probe_finished-Inv :
      (to_long_long : Text → Option ℤ) (r : ProbeReply) (env : Answers) (d : HttpDownload)
      → IsTruthful to_long_long r
      → Inv source n d
      → Inv source n (on_probe_finished to_long_long r env d)
  unfolding on_probe_finished
  on_probe_finished-Inv tl r env d h (inr o) = rw (o.no_probe, on_probe_finished) (inr o)
  on_probe_finished-Inv tl r env d h (inl v) = elim (Option-cases d.probe) [
    | inl e ↦ rw (e, on_probe_finished) (inl v)
    | inr (p, e) ↦
        rw (e, on_probe_finished)
          (elim (Option-cases r.error) [
            | inr (why, q) ↦
                rw q (inl (fail-IsLive source n (network why) (record d { probe = none }) v.laid))
            | inl q ↦
                rw (q, h q)
                  (renamed-IsPlanned (r.status == 206) r (record d { probe = none }) refl v.sized
                    env)
          ])
  ]

  -- Segment `i` no longer waits for a reply.
  emptied :
      (i : ℕ) (s : Segment) (d : HttpDownload)
      → get_elem? d.segments i ≡ some s
      → IsLive source n d
      → IsLive source n (record d { segments = set d.segments i (record s { reply = none }) })
  emptied i s d e v = record {
    laid =
        IsLaid-set source n d.segments i s (record s { reply = none }) v.laid e refl
          (with_reply source n none
            (All-get (IsGood source n (opened_part d.disk.part)) d.segments i v.laid.good e));
    sized = v.sized;
    opened = v.opened;
    asked = v.asked;
    going = v.going;
  }

  emptied-Inv :
      (i : ℕ) (s : Segment) (d : HttpDownload)
      → get_elem? d.segments i ≡ some s
      → Inv source n d
      → Inv source n (record d { segments = set d.segments i (record s { reply = none }) })
  emptied-Inv i s d e (inl v) = inl (emptied i s d e v)
  emptied-Inv i s d e (inr o) =
      inr (record { completed_is = o.completed_is; no_probe = o.no_probe; result = o.result })

  not_none : (ss : List Segment) (i : ℕ) (s : Segment) → get_elem? ss i ≡ some s → ss ≡ [] → ⊥
  not_none [] i s e h = cc
  not_none (x ∷ ss) i s e h = cc

  emptied-IsReady :
      (i : ℕ) (s : Segment) (d : HttpDownload)
      → get_elem? d.segments i ≡ some s
      → rank d.state ≡ 2
      → IsLive source n d
      → IsReady source n (record d { segments = set d.segments i (record s { reply = none }) })
  emptied-IsReady i s d e r v = elim v.laid.shape [
    | inl h ↦ absurd (not_none d.segments i s e h)
    | inr h ↦ record {
      live = emptied i s d e v;
      no_probe = elim v.asked [ inl q ↦ q | inr q ↦ absurd (omega (arith, q, r)) ];
      is_open = v.opened r;
      total_is = h.0;
      tiles =
          rw
            (map-set_same (λ (x : Segment). x.range) d.segments i s (record s { reply = none }) e
              refl)
            h.1;
    }
  ]

  known_total : (t : ℤ) (b : Bool) → t ≡ pos n → leb_ℤ t (pos 0) && b ≡ false
  known_total t b e = ground (arith, positive)

  settled : (i : ℕ) (s : Segment) (d : HttpDownload) → d.total ≡ pos n → settle_total i s d ≡ d
  unfolding settle_total
  settled i s d e = rw (known_total d.total (is_negative s.range.end) e)

  pub on_segment_finished-Inv :
      (i r : ℕ) (error : Option Text) (env : Answers) (d : HttpDownload)
      → Inv source n d
      → Inv source n (on_segment_finished i r error env d)
  unfolding on_segment_finished
  on_segment_finished-Inv i r error env d v = elim (Option-cases (get_elem? d.segments i)) [
    | inl e ↦ rw (e, on_segment_finished) v
    | inr (s, e) ↦
        let d' : HttpDownload = record d {
          segments = set d.segments i (record s { reply = none });
        } in
        rw (e, on_segment_finished)
          (if_cases (Inv source n) (not (waits_for s.reply r)) (λ _. v)
            (λ _.
              if_cases (Inv source n) (not (state_is downloading d)) (λ _. emptied-Inv i s d e v)
                (λ here.
                  let q : rank d.state ≡ 2 = in_state (rank d.state) here in
                  let live = IsLive-of source n positive d q v in
                  let ready = emptied-IsReady i s d e q live in
                  elim (Option-cases error) [
                    | inr (why, h) ↦
                        rw h (inl (fail-IsLive source n (network why) d' ready.live.laid))
                    | inl h ↦ rw h (
                        rw (settled i s d' ready.total_is)
                          (maybe_complete-Inv source n positive env d' ready))
                  ])))
  ]
    where
      in_state : (r : ℕ) → not (r == 2) ≡ false → r ≡ 2
      in_state r h = ground arith
