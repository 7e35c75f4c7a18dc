-- ===== src/Downloads/HttpDownload/Integrity/World.antt =====
-- The calls of a download, of src/services/downloads/httpdownload.cpp, as steps of one with its server:
-- the server reports the size of the source and serves its ranges.
use batorrent.Base.{
  Bool, List, Option, Text, get_elem?, get_or, length, some, ℕ, ℤ, ◌+◌, ◌<◌, ◌≡◌, ◌≢◌, ◌≤◌,
}
use batorrent.Downloads.HttpDownload.Types.{Segment, HttpDownload, Answers, rank, create}
use batorrent.Downloads.HttpDownload.{start}
use batorrent.Downloads.HttpDownload.Events.{
  ProbeReply, on_probe_finished, on_segment_ready_read, on_segment_finished, sample, pause, resume,
}
use batorrent.Downloads.HttpDownload.SavedState.{to_state, restore_state}
use batorrent.Downloads.HttpDownload.Integrity.Asked.{asked_from}
use batorrent.Downloads.HttpDownload.Integrity.Receipts.{IsServing, after}

-- The application ends and starts again: the download is made anew from what was saved.
abbrev pub reopened : Text → HttpDownload → HttpDownload
reopened path_name d =
    let m = to_state d in
    restore_state m (create m.id m.url m.save_dir m.file_name path_name d.disk)

-- The download, and what each reply has brought to each segment.
pub record World : Type 0 where
  pub download : HttpDownload
  pub sent : ℕ → ℕ → ℕ

abbrev pub opening : HttpDownload → World
opening d = record { download = d; sent = λ i h. 0 }

module _ (source : ℕ → ℕ) (n : ℕ) where
  -- What reply `h` of segment `i` brings next: the source from the place on that its request asked for,
  -- less what it has brought before.
  pub record Brings (from : ℕ) (chunk : List ℕ) : Type 0 where
    pub fits : from + length chunk ≤ n
    pub bytes : (k : ℕ) → k < length chunk → get_or chunk k 0 ≡ source (from + k)

  -- One call, of the user, the timer, the network or a restart. The network is held to the size and
  -- the bytes of the source, and to what it is asked for; the disk is held to nothing: it may refuse
  -- any opening, write, removal or renaming. The bytes of a download that is not Downloading are not
  -- read, and a reply that was aborted brings nothing.
  pub data Step : World → World → Type 0 where
    starts :
        (env : Answers) (w : World)
        → rank w.download.state ≡ 0
        → Step w (record w { download = start env w.download })
    pauses : (w : World) → Step w (record w { download = pause w.download })
    resumes : (env : Answers) (w : World) → Step w (record w { download = resume env w.download })
    probes :
        (to_long_long : Text → Option ℤ) (r : ProbeReply) (env : Answers) (w : World)
        → IsServing n to_long_long r
        → Step w (record w { download = on_probe_finished to_long_long r env w.download })
    receives :
        (i h : ℕ) (chunk : List ℕ) (ok : Bool) (w : World) (s : Segment)
        → get_elem? w.download.segments i ≡ some s
        → s.reply ≡ some h
        → rank w.download.state ≡ 2
        → Brings (asked_from h w.download.requests + w.sent i h) chunk
        → Step w (record {
          download = on_segment_ready_read i chunk ok w.download;
          sent = after w.sent i h (length chunk);
        })
    ignores :
        (i : ℕ) (chunk : List ℕ) (ok : Bool) (w : World)
        → rank w.download.state ≢ 2
        → Step w (record w { download = on_segment_ready_read i chunk ok w.download })
    finishes :
        (i r : ℕ) (error : Option Text) (env : Answers) (w : World)
        → Step w (record w { download = on_segment_finished i r error env w.download })
    samples : (elapsed : ℕ) (w : World) → Step w (record w { download = sample elapsed w.download })
    restarts : (path_name : Text) (w : World) → Step w (opening (reopened path_name w.download))

  pub data Reach (w : World) : World → Type 0 where
    here : Reach w w
    next : {x y : World} → Reach w x → Step x y → Reach w y
