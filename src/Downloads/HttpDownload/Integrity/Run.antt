-- ===== src/Downloads/HttpDownload/Integrity/Run.antt =====
-- The runs of a download against a server that reports the size of the source and serves its ranges,
-- from its making to its last call, restarts of the application included. A cancelled download is
-- deleted by the manager, so no call follows.
use batorrent.Base.{
  All, Bool, List, Option-cases, Text, [], ap, arith, false, get_elem?, if◌then◌else◌, inl, inr,
  map, pos, refl, some, subst, sym, ℕ, ◌+◌, ◌<◌, ◌==◌, ◌∙◌, ◌∷◌, ◌≡◌, ◌≢◌, ◌⊎◌,
}
use batorrent.Downloads.RangePlan.Tiling.{Tiles}
use batorrent.Downloads.HttpDownload.Types.{
  State, Segment, Disk, HttpDownload, Answers, rank, state_is, create, completed, paused,
}
use batorrent.Downloads.HttpDownload.{drop_reply, opened_part, start}
use batorrent.Downloads.HttpDownload.Events.{on_segment_ready_read}
use batorrent.Downloads.HttpDownload.SavedState.{
  save_segment, load_segment, to_state, restore_state,
}
use batorrent.Downloads.HttpDownload.Integrity.{ranges, IsGood, IsSource, Inv, IsLaid-drop}
use batorrent.Downloads.HttpDownload.Integrity.Control.{start-Inv, pause-Inv, resume-Inv}
use batorrent.Downloads.HttpDownload.Integrity.Transfers.{
  IsSent, on_segment_ready_read-Inv, sample-Inv,
}
use batorrent.Downloads.HttpDownload.Integrity.Replies.{
  on_probe_finished-Inv, on_segment_finished-Inv,
}
use batorrent.Downloads.HttpDownload.Integrity.Asked.{
  Linked, IsLinked, asked_from, dropped, add_pos,
}
use batorrent.Downloads.HttpDownload.Integrity.Requests.{
  start-IsLinked, resume-IsLinked, pause-IsLinked, sample-IsLinked, on_segment_finished-IsLinked,
}
use batorrent.Downloads.HttpDownload.Integrity.World.{
  Brings, World, opening, reopened, Step, Reach, starts, pauses, resumes, probes, receives, ignores,
  finishes, samples, restarts, here, next,
}
use batorrent.Downloads.HttpDownload.Integrity.Receipts.{
  on_probe_finished-IsLinked, on_segment_ready_read-IsLinked,
}
use mathlib.Core.Option.{some-injective}

module _ (source : ℕ → ℕ) (n : ℕ) (positive : 0 < n) where
  restored-drop : (ss : List Segment) → map load_segment (map save_segment ss) ≡ map drop_reply ss
  restored-drop [] = refl
  restored-drop (s ∷ ss) = ap (◌∷◌ (drop_reply s)) (restored-drop ss)

  abbrev kept_state : HttpDownload → State
  kept_state d = if state_is completed d then completed else paused

  kept_paused : (r : ℕ) → r ≢ 4 → rank (if r == 4 then completed else paused) ≡ 3
  kept_paused r h = ground arith

  reopened-Inv :
      (path_name : Text) (d : HttpDownload) → Inv source n d → Inv source n (reopened path_name d)
  unfolding to_state restore_state create
  reopened-Inv path_name d (inl v) =
      let going : rank (kept_state d) ≡ 3 = kept_paused (rank d.state) v.going in
      inl (record {
        laid = record {
          good =
              subst (All (IsGood source n (opened_part d.disk.part)))
                (sym (restored-drop d.segments)) (IsLaid-drop source n d.segments v.laid).good;
          shape =
              subst (λ (ss : List Segment). (ss ≡ []) ⊎ ((d.total ≡ pos n) × Tiles 0 n (ranges ss)))
                (sym (restored-drop d.segments)) (IsLaid-drop source n d.segments v.laid).shape;
        };
        sized = λ e. cc;
        opened = λ e. absurd (omega (arith, e, going));
        asked = inl refl;
        going = λ e. omega (arith, e, going);
      })
  reopened-Inv path_name d (inr o) =
      inr (record {
        completed_is = ground (arith, o.completed_is);
        no_probe = refl;
        result = o.result;
      })

  abbrev Whole : World → Type 0
  Whole w = Inv source n w.download × IsLinked w.sent w.download

  -- What a queued download becomes with its first call is live.
  starts-Inv :
      (env : Answers) (d : HttpDownload)
      → rank d.state ≡ 0
      → Inv source n d
      → Inv source n (start env d)
  starts-Inv env d q (inl v) = start-Inv source n positive env d v
  starts-Inv env d q (inr o) = absurd (omega (arith, q, o.completed_is))

  reopened-IsLinked :
      (path_name : Text) (w : World)
      → IsLinked w.sent w.download
      → IsLinked (λ i h. 0) (reopened path_name w.download)
  unfolding to_state restore_state create
  reopened-IsLinked path_name w l =
      subst (Linked (λ i h. 0) w.download.accept_ranges 0 [])
        (sym (restored-drop w.download.segments)) (dropped w.download.segments (λ i h le. refl) l)

  -- What a reply brings is what the segment goes on with.
  Brings-IsSent :
      (i h : ℕ) (chunk : List ℕ) (w : World) (s : Segment)
      → get_elem? w.download.segments i ≡ some s
      → s.reply ≡ some h
      → IsLinked w.sent w.download
      → Brings source n (asked_from h w.download.requests + w.sent i h) chunk
      → IsSent source n positive s chunk
  Brings-IsSent i h chunk w s e q l b =
      let p = l.placed i s e in
      record {
        place = asked_from h w.download.requests + w.sent i h;
        goes_on = rw (p.at, p.got) (add_pos p.first p.count ∙ ap pos (p.waits h q).1);
        fits = b.fits;
        bytes = b.bytes;
      }

  unread :
      (i : ℕ) (chunk : List ℕ) (ok : Bool) (d : HttpDownload)
      → rank d.state ≢ 2
      → on_segment_ready_read i chunk ok d ≡ d
  unfolding on_segment_ready_read
  unread i chunk ok d h = elim (Option-cases (get_elem? d.segments i)) [
    | inl e ↦ rw (e, on_segment_ready_read) refl
    | inr (s, e) ↦ rw (e, on_segment_ready_read, away (rank d.state) h) refl
  ]
    where
      away : (r : ℕ) → r ≢ 2 → (r == 2) ≡ false
      away r h = ground arith

  Step-Whole : {w v : World} → Step source n w v → Whole w → Whole v
  Step-Whole (starts env w q) (v, l) =
      (starts-Inv env w.download q v, start-IsLinked w.sent env w.download l)
  Step-Whole (pauses w) (v, l) =
      (pause-Inv source n positive w.download v, pause-IsLinked w.sent w.download l)
  Step-Whole (resumes env w) (v, l) =
      (resume-Inv source n positive env w.download v, resume-IsLinked w.sent env w.download l)
  Step-Whole (probes tl r env w h) (v, l) = (
    on_probe_finished-Inv source n positive tl r env w.download (λ e. (h e).1) v,
    on_probe_finished-IsLinked w.sent n tl r env w.download positive h l,
  )
  Step-Whole (receives i h chunk ok w s e q r b) (v, l) = (
    on_segment_ready_read-Inv source n positive i chunk ok w.download
        (λ t there.
          subst (λ x. IsSent source n positive x chunk) (some-injective s t (sym e ∙ there))
            (Brings-IsSent i h chunk w s e q l b))
        v,
    on_segment_ready_read-IsLinked w.sent i h chunk ok w.download s e q r l,
  )
  Step-Whole (ignores i chunk ok w h) (v, l) =
      subst (λ d. Inv source n d × IsLinked w.sent d) (sym (unread i chunk ok w.download h)) (v, l)
  Step-Whole (finishes i r error env w) (v, l) = (
    on_segment_finished-Inv source n positive i r error env w.download v,
    on_segment_finished-IsLinked w.sent i r error env w.download l,
  )
  Step-Whole (samples elapsed w) (v, l) = (
    sample-Inv source n positive elapsed w.download v,
    sample-IsLinked w.sent elapsed w.download l,
  )
  Step-Whole (restarts path_name w) (v, l) =
      (reopened-Inv path_name w.download v, reopened-IsLinked path_name w l)

  Reach-Whole : {w v : World} → Whole w → Reach source n w v → Whole v
  Reach-Whole k here = k
  Reach-Whole k (next r s) = Step-Whole s (Reach-Whole k r)

  create-Whole :
      (id url save_dir file_name path_name : Text) (disk : Disk)
      → Whole (opening (create id url save_dir file_name path_name disk))
  unfolding create
  create-Whole id url save_dir file_name path_name disk = (
    inl (record {
      laid = record { good = tt; shape = inl refl };
      sized = λ e. cc;
      opened = λ e. absurd (omega (arith, e));
      asked = inl refl;
      going = λ e. absurd (omega (arith, e));
    }),
    record { unused = λ i h le. refl; placed = λ i s e. cc },
  )

  -- A download that a new object has led to, by any sequence of starts, pauses, resumptions, timer
  -- ticks, restarts of the application, failures of the disk and failures of the network, has the
  -- source under its final name once its state is Completed: the file has the length and the bytes
  -- of the source. The server is taken to answer the probe with a status of 206 and the length of the
  -- source, which is not 0, and each request with the bytes of the source from the place on that its
  -- Range header asks for, or from the first on if it has none.
  pub completed-IsSource :
      (id url save_dir file_name path_name : Text) (disk : Disk) (w : World)
      → Reach source n (opening (create id url save_dir file_name path_name disk)) w
      → rank w.download.state ≡ 4
      → IsSource source n w.download.disk.final
  completed-IsSource id url save_dir file_name path_name disk w r q =
      elim (Reach-Whole (create-Whole id url save_dir file_name path_name disk) r).0 [
        | inl v ↦ absurd (v.going q)
        | inr o ↦ o.result
      ]
