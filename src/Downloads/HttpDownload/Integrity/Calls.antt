-- ===== src/Downloads/HttpDownload/Integrity/Calls.antt =====
-- src/services/downloads/httpdownload.cpp: the helpers of the calls, and the invariant of `Integrity`.
use batorrent.Base.{
  ==_iff, All, All-weaken, Bool, List, Option, Option-cases, ap, arith, eq_ℤ, false, if_cases,
  if◌then◌else◌, inl, inr, is_some, length, ltb_ℤ, lt→ltb, negsuc, none, not, pos, pos_part, refl,
  some, subst, true, ℕ, ℤ, ◌&&◌, ◌<◌, ◌∷◌, ◌≡◌, ◌≢◌,
}
use batorrent.Downloads.HttpDownload.Types.{
  File, HttpDownload, Answers, finished, state_is, received_bytes, all_done, completed, progressed,
  cannot_finalize, downloading, Signal, state_changed,
}
use batorrent.Downloads.HttpDownload.{
  emit, set_state, finalize, maybe_complete, opened_part, begin_segments, resize, begin_opened,
  open_part, Segment, State, cannot_open, rank, not_done, enter_downloading,
}
use batorrent.Downloads.HttpDownload.Integrity.{
  IsGood, IsSource, Inv, IsReady, IsOver, fail-IsLive, covered, IsLaid, Tiles, ranges,
  spawn_where-keeps, spawn_segment-IsReady, spawn_where,
}

module _ (source : ℕ → ℕ) (n : ℕ) (positive : 0 < n) where
  -- A part that the segments cover is the source.
  part-IsSource :
      (f : File) (d : HttpDownload)
      → opened_part d.disk.part ≡ f
      → d.disk.part ≡ some f
      → IsReady source n d
      → all_done d.segments ≡ true
      → IsSource source n d.disk.part
  part-IsSource f d o e r h = record {
    file = f;
    there = e;
    length_is = subst (λ (g : File). g.size_bytes ≡ n) o (r.live.sized r.is_open);
    bytes_are = λ x lt.
        (covered source n f d.segments 0 n r.tiles
          (subst (λ g. All (IsGood source n g) d.segments) o r.live.laid.good) h x (omega arith)
          lt).1;
  }

  no_part : {A : Type 0} (o : Option A) (b : Bool) → o ≡ none → b && is_some o ≡ true → ⊥
  no_part o b p e = ground arith

  IsOver-now :
      (d : HttpDownload)
      → d.probe ≡ none
      → IsSource source n d.disk.final
      → IsOver source n (emit (finished true) (emit progressed (set_state completed d)))
  unfolding set_state
  IsOver-now d p r =
      if_cases (λ (x : HttpDownload). IsOver source n (emit (finished true) (emit progressed x)))
        (state_is completed d)
        (λ h. record { completed_is = (==_iff _ _).0 h; no_probe = p; result = r })
        (λ h. record { completed_is = refl; no_probe = p; result = r })

  finalize-Inv :
      (env : Answers) (d : HttpDownload)
      → IsReady source n d
      → all_done d.segments ≡ true
      → Inv source n (finalize env (record d { file_open = false }))
  unfolding finalize
  finalize-Inv env d r h =
      if_cases (Inv source n) (env.rename_succeeds && is_some d.disk.part)
        (λ e. elim (Option-cases d.disk.part) [
          | inl p ↦ absurd (no_part d.disk.part env.rename_succeeds p e)
          | inr (f, p) ↦ inr (
              IsOver-now
                (record d {
                  file_open = false;
                  sampling = false;
                  rate = pos 0;
                  disk = record { part = none; final = d.disk.part };
                })
                r.no_probe (part-IsSource f d (ap opened_part p) p r h))
        ])
        (λ _. inl (
          fail-IsLive source n cannot_finalize
            (record d {
              disk = record d.disk { final = if env.remove_succeeds then none else d.disk.final };
              file_open = false;
            })
            r.live.laid))

  pub maybe_complete-Inv :
      (env : Answers) (d : HttpDownload) → IsReady source n d → Inv source n (maybe_complete env d)
  unfolding maybe_complete
  maybe_complete-Inv env d r =
      if_cases (Inv source n) (all_done d.segments)
        (λ h.
          if_cases (Inv source n)
            (ltb_ℤ (pos 0) d.total && not (eq_ℤ (received_bytes d.segments) d.total))
            (λ _. inl (fail-IsLive source n _ (record d { file_open = false }) r.live.laid))
            (λ _. finalize-Inv env d r h))
        (λ _. inl r.live)

  -- What `begin_segments` starts from: segments over the whole file, and no probe.
  pub record IsPlanned (d : HttpDownload) : Type 0 where
    pub laid : IsLaid source n d.total (opened_part d.disk.part) d.segments
    pub total_is : d.total ≡ pos n
    pub tiles : Tiles 0 n (ranges d.segments)
    pub no_probe : d.probe ≡ none

  enter_downloading-IsReady :
      (d : HttpDownload)
      → IsPlanned d
      → d.file_open ≡ true
      → (opened_part d.disk.part).size_bytes ≡ n
      → IsReady source n (enter_downloading d)
  unfolding enter_downloading set_state
  enter_downloading-IsReady d p o z =
      if_cases
        (λ (x : HttpDownload).
          IsReady source n (record x { stall_retried = false; sampling = true }))
        (state_is downloading d) {x = d} {y = emit state_changed (record d { state = downloading })}
        (λ h.
          let e : rank d.state ≡ 2 = (==_iff (rank d.state) 2).0 h in
          ready d.state d.signals (λ g. absurd (omega (arith, e, g))))
        (λ _. ready downloading (state_changed ∷ d.signals) (λ g. absurd (omega (arith, g))))
    where
      ready :
          (s : State) (l : List Signal)
          → rank s ≢ 4
          → IsReady source n
              (record d { state = s; signals = l; stall_retried = false; sampling = true })
      ready s l g = record {
        live = record {
          laid = p.laid;
          sized = λ _. z;
          opened = λ _. o;
          asked = inl p.no_probe;
          going = g;
        };
        no_probe = p.no_probe;
        is_open = o;
        total_is = p.total_is;
        tiles = p.tiles;
      }

  begin_opened-Inv :
      (env : Answers) (d : HttpDownload)
      → IsPlanned d
      → d.file_open ≡ true
      → (opened_part d.disk.part).size_bytes ≡ n
      → Inv source n (begin_opened env d)
  unfolding begin_opened
  begin_opened-Inv env d p o z =
      let d' = enter_downloading d in
      maybe_complete-Inv env (spawn_where not_done (length d'.segments) 0 d') (
        spawn_where-keeps source n (IsReady source n) not_done (length d'.segments) 0
          (λ j x r. spawn_segment-IsReady source n j r) (enter_downloading-IsReady d p o z))

  resize_good :
      (f : File) (m : ℕ) (s : Segment)
      → m ≡ n
      → IsGood source n f s
      → IsGood source n (resize m f) s
  unfolding resize
  resize_good f m s e g = record {
    first = g.first;
    count = g.count;
    at = g.at;
    got = g.got;
    within = g.within;
    same = λ x lo hi.
        (omega (arith, g.within), rw (lt→ltb x f.size_bytes (g.same x lo hi).0) (g.same x lo hi).1);
  }

  resized :
      (d : HttpDownload) (m : ℕ)
      → m ≡ n
      → IsPlanned d
      → IsPlanned (record d {
        file_open = true;
        disk = record d.disk { part = some (resize m (opened_part d.disk.part)) };
      })
  resized d m e p =
      let f = opened_part d.disk.part in
      record {
        laid = record {
          good =
              All-weaken (IsGood source n f) (IsGood source n (resize m f)) d.segments
                (λ s g. resize_good f m s e g) p.laid.good;
          shape = p.laid.shape;
        };
        total_is = p.total_is;
        tiles = p.tiles;
        no_probe = p.no_probe;
      }

  right_size : (t : ℤ) (m : ℕ) → t ≡ pos n → ltb_ℤ (pos 0) t && not (eq_ℤ (pos m) t) ≡ false → m ≡ n
  right_size (pos t) m e h = ground (arith, positive)
  right_size (negsuc t) m e h = cc

  open_part-IsPlanned :
      (d : HttpDownload)
      → IsPlanned d
      → IsPlanned (open_part d) × ((opened_part (open_part d).disk.part).size_bytes ≡ n)
  unfolding open_part
  open_part-IsPlanned d p =
      let f = opened_part d.disk.part in
      let e : pos_part d.total ≡ n = ap pos_part p.total_is in
      if_cases
        (λ (g : File).
          IsPlanned (record d { file_open = true; disk = record d.disk { part = some g } })
          × (g.size_bytes ≡ n))
        (ltb_ℤ (pos 0) d.total && not (eq_ℤ (pos f.size_bytes) d.total))
        (λ _. (resized d (pos_part d.total) e p, unfold resize in e))
        (λ h. (
          record { laid = p.laid; total_is = p.total_is; tiles = p.tiles; no_probe = p.no_probe },
          right_size d.total f.size_bytes p.total_is h,
        ))

  pub begin_segments-Inv :
      (env : Answers) (d : HttpDownload)
      → IsPlanned d
      → (d.file_open ≡ true → (opened_part d.disk.part).size_bytes ≡ n)
      → Inv source n (begin_segments env d)
  unfolding begin_segments
  begin_segments-Inv env d p z =
      if_cases (Inv source n) d.file_open (λ h. begin_opened-Inv env d p h (z h))
        (λ _.
          if_cases (Inv source n) env.open_succeeds
            (λ _.
              let (q, e) = open_part-IsPlanned d p in
              begin_opened-Inv env (open_part d) q (unfold open_part in refl) e)
            (λ _. inl (fail-IsLive source n cannot_open d p.laid)))
