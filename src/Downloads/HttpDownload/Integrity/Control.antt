-- ===== src/Downloads/HttpDownload/Integrity/Control.antt =====
-- src/services/downloads/httpdownload.cpp: what the user does, the plan that follows the probe, and
-- the invariant of `Integrity`.
use batorrent.Base.{
  ==_iff, All, Bool, List, [], ap, arith, false, if_cases, inl, inr, is_empty, ltb_ℤ, lt→ltb, map,
  none, not, pos, refl, suc, true, ||-right, ℕ, ℤ, ◌&&◌, ◌+◌, ◌-ℤ◌, ◌-◌, ◌<◌, ◌==◌, ◌||◌, ◌∷◌, ◌≡◌,
  ◌⊎◌,
}
use batorrent.Downloads.RangePlan.{ByteRange, plan_segments}
use batorrent.Downloads.RangePlan.Tiling.{Tiles, Tiles-le, plan_segments-Tiles}
use batorrent.Downloads.HttpDownload.Types.{
  Segment, File, HttpDownload, Answers, none_yet, state_changed, rank, state_is, received_bytes,
  failed, progressed, downloading, paused, probing,
}
use batorrent.Downloads.HttpDownload.{
  emit, set_state, drop_reply, abort_replies, opened_part, start, ask_probe,
}
use batorrent.Downloads.HttpDownload.Events.{fresh, lay_out, pause, resume}
use batorrent.Downloads.HttpDownload.Integrity.{
  ranges, IsGood, IsLaid, IsLive, Inv, IsLaid-drop, emit-IsLive, set_state-IsLive,
}
use batorrent.Downloads.HttpDownload.Integrity.Calls.{IsPlanned, begin_segments-Inv}

module _ (source : ℕ → ℕ) (n : ℕ) (positive : 0 < n) where
  IsPlanned-of :
      (d : HttpDownload)
      → IsLive source n d
      → d.probe ≡ none
      → ltb_ℤ (pos 0) d.total && not (is_empty d.segments) ≡ true
      → IsPlanned source n positive d
  IsPlanned-of d v p h = elim v.laid.shape [
    | inl e ↦ absurd (not_empty d.segments (ltb_ℤ (pos 0) d.total) e h)
    | inr s ↦ record { laid = v.laid; total_is = s.0; tiles = s.1; no_probe = p }
  ]
    where
      not_empty : (ss : List Segment) (b : Bool) → ss ≡ [] → b && not (is_empty ss) ≡ true → ⊥
      not_empty ss b e h = ground arith

  idle_probe :
      (d : HttpDownload)
      → (d.probe ≡ none) ⊎ (rank d.state ≡ 1)
      → state_is probing d ≡ false
      → d.probe ≡ none
  idle_probe d (inl e) h = e
  idle_probe d (inr e) h = ground arith

  ask_probe-IsLive :
      (x : HttpDownload) → IsLive source n x → IsLive source n (ask_probe (set_state probing x))
  unfolding ask_probe set_state
  ask_probe-IsLive x v =
      if_cases (λ (y : HttpDownload). IsLive source n (ask_probe y)) (state_is probing x) {x = x}
        {y = emit state_changed (record x { state = probing })}
        (λ h. record {
          laid = v.laid;
          sized = v.sized;
          opened = v.opened;
          asked = inr ((==_iff (rank x.state) 1).0 h);
          going = v.going;
        })
        (λ _. record {
          laid = v.laid;
          sized = v.sized;
          opened = λ e. absurd (omega (arith, e));
          asked = inr refl;
          going = λ e. absurd (omega (arith, e));
        })

  pub start-Inv :
      (env : Answers) (d : HttpDownload) → IsLive source n d → Inv source n (start env d)
  unfolding start
  start-Inv env d v =
      let d' : HttpDownload = record d {
        error = none_yet;
        last_progress = 0;
        last_sampled = received_bytes d.segments;
      } in
      if_cases (Inv source n) (state_is downloading d || state_is probing d) (λ _. inl v)
        (λ away.
          let quiet : d.probe ≡ none = idle_probe d v.asked (||-right _ _ away) in
          if_cases (Inv source n) (ltb_ℤ (pos 0) d.total && not (is_empty d.segments))
            (λ h.
              begin_segments-Inv source n positive env d' (IsPlanned-of d' (same_live v) quiet h)
                v.sized)
            (λ _. inl (ask_probe-IsLive d' (same_live v))))
    where
      same_live :
          {l : ℤ}
          → IsLive source n d
          → IsLive source n (record d { error = none_yet; last_progress = 0; last_sampled = l })
      same_live v = record {
        laid = v.laid;
        sized = v.sized;
        opened = v.opened;
        asked = v.asked;
        going = v.going;
      }

  pub resume-Inv : (env : Answers) (d : HttpDownload) → Inv source n d → Inv source n (resume env d)
  unfolding resume
  resume-Inv env d (inl v) =
      if_cases (Inv source n) (not (state_is paused d) && not (state_is failed d)) (λ _. inl v)
        (λ _. start-Inv env d v)
  resume-Inv env d (inr o) =
      if_cases (Inv source n) (not (state_is paused d) && not (state_is failed d)) (λ _. inr o)
        (λ h. absurd (over_is_kept (rank d.state) o.completed_is h))
    where
      over_is_kept : (r : ℕ) → r ≡ 4 → not (r == 3) && not (r == 5) ≡ false → ⊥
      over_is_kept r e h = ground arith

  pub pause-Inv : (d : HttpDownload) → Inv source n d → Inv source n (pause d)
  unfolding pause abort_replies
  pause-Inv d (inl v) =
      if_cases (Inv source n) (not (state_is downloading d) && not (state_is probing d))
        (λ _. inl v)
        (λ _. inl (
          emit-IsLive source n progressed (
            set_state-IsLive source n paused
              (record d {
                probe = none;
                segments = map drop_reply d.segments;
                sampling = false;
                rate = pos 0;
              })
              (IsLaid-drop source n d.segments v.laid) v.sized (λ e. absurd (omega (arith, e)))
              (inl refl) (λ e. absurd (omega (arith, e))))))
  pause-Inv d (inr o) =
      if_cases (Inv source n) (not (state_is downloading d) && not (state_is probing d))
        (λ _. inr o) (λ h. absurd (over_is_kept (rank d.state) o.completed_is h))
    where
      over_is_kept : (r : ℕ) → r ≡ 4 → not (r == 2) && not (r == 1) ≡ false → ⊥
      over_is_kept r e h = ground arith

  -- Fresh segments have received nothing, so whatever the part holds they are good.
  fresh_good :
      (f : File) (p : ℕ) (rs : List ByteRange)
      → Tiles p n rs
      → All (IsGood source n f) (map fresh rs)
  fresh_good f p [] t = tt
  fresh_good f p (r ∷ rs) (m, a, le, b, t) = (
    record {
      first = p;
      count = 0;
      at = a;
      got = refl;
      within = omega (arith, Tiles-le (suc m) n rs t);
      same = λ x lo hi. absurd (omega arith);
    },
    fresh_good f (suc m) rs t,
  )

  ranges-fresh : (rs : List ByteRange) → ranges (map fresh rs) ≡ rs
  ranges-fresh [] = refl
  ranges-fresh (r ∷ rs) = ap (◌∷◌ r) (ranges-fresh rs)

  IsLaid-fresh :
      (f : File) (rs : List ByteRange) → Tiles 0 n rs → IsLaid source n (pos n) f (map fresh rs)
  IsLaid-fresh f rs t = record {
    good = fresh_good f 0 rs t;
    shape = inr (refl, rw (ranges-fresh rs) t);
  }

  one_range : ℤ → List ByteRange
  one_range total = record { start = pos 0; end = total } ∷ []

  one_stream-Tiles : Tiles 0 n (one_range (pos n -ℤ pos 1))
  unfolding one_range ◌-ℤ◌
  one_stream-Tiles = (n - 1, refl, omega arith, ground (arith, positive), omega (arith, positive))

  pub lay_out-IsPlanned :
      (ranged : Bool) (d : HttpDownload)
      → d.probe ≡ none
      → IsPlanned source n positive (lay_out ranged (pos n) d)
  unfolding lay_out one_range
  lay_out-IsPlanned ranged d p =
      let f = opened_part d.disk.part in
      if_cases
        (λ (ss : List Segment).
          IsPlanned source n positive
            (record d { accept_ranges = ranged; total = pos n; segments = ss }))
        (ranged && ltb_ℤ (pos 0) (pos n))
        (λ _. over (plan_segments (pos n) d.conns) (plan_segments-Tiles n d.conns positive))
        (λ _.
          rw (lt→ltb 0 (n + 0) (omega (arith, positive)))
            (over (one_range (pos n -ℤ pos 1)) one_stream-Tiles))
    where
      over :
          (rs : List ByteRange)
          → Tiles 0 n rs
          → IsPlanned source n positive
              (record d { accept_ranges = ranged; total = pos n; segments = map fresh rs })
      over rs t = record {
        laid = IsLaid-fresh (opened_part d.disk.part) rs t;
        total_is = refl;
        tiles = rw (ranges-fresh rs) t;
        no_probe = p;
      }
