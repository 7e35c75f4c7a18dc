-- ===== src/Downloads/HttpDownload/Sizes.antt =====
-- What a download does about sizes: the gate before the file gets its final name, and the servers
-- that report no size.
use batorrent.Base.{
  ==_iff, Bool, Option, Text, [], ap, arith, codes, eq_ℤ, false, if_cases, if◌then◌else◌, is_empty,
  is_some, length, ltb_ℤ, negsuc, none, not, pos, refl, some, starts_with, true, ℕ, ℤ, ◌&&◌, ◌+ℤ◌,
  ◌-ℤ◌, ◌==◌, ◌∙◌, ◌∷◌, ◌≡◌, ◌≢◌, ◌≤ℤ◌, ◌⊎◌,
}
use batorrent.Downloads.RangePlan.{size}
use batorrent.Downloads.HttpDownload.Types.{
  State, Segment, done, File, Disk, HttpDownload, Answers, rank, state_is, received_bytes, all_done,
  completed, failed, Failure, state_changed, size_mismatch, cannot_finalize, downloading,
}
use batorrent.Downloads.HttpDownload.{
  abort_replies, emit, set_state, fail, spawn_where, finalize, maybe_complete, begin_segments,
  enter_downloading, not_done, opened_part, begin_opened, open_part,
}
use batorrent.Downloads.HttpDownload.Events.{
  ProbeReply, probed_total, on_probe_finished, lay_out, one_stream,
}

rank-fail : (why : Failure) (d : HttpDownload) → rank (fail why d).state ≡ 5
unfolding fail set_state
rank-fail why d =
    if_cases (λ (x : HttpDownload). rank x.state ≡ 5) (state_is failed (abort_replies d))
      {x = record (abort_replies d) { error = why; file_open = false; sampling = false }}
      {y = emit state_changed (record (abort_replies d) {
        error = why;
        file_open = false;
        sampling = false;
        state = failed;
      })}
      (λ h. unfold abort_replies in (==_iff _ 5).0 h) (λ _. refl)

disk-set_state : (s : State) (d : HttpDownload) → (set_state s d).disk ≡ d.disk
unfolding set_state
disk-set_state s d =
    if_cases (λ (x : HttpDownload). x.disk ≡ d.disk) (state_is s d) {x = d}
      {y = emit state_changed (record d { state = s })} (λ _. refl) (λ _. refl)

gate_passed :
    (total got : ℤ)
    → ltb_ℤ (pos 0) total && not (eq_ℤ got total) ≡ false
    → (total ≤ℤ pos 0) ⊎ (got ≡ total)
gate_passed total got h = ground arith

present : {A : Type 0} (o : Option A) (b : Bool) → b && is_some o ≡ true → o ≢ none
present o b h e = ground arith

-- A download that is not completed becomes so only with all its segments done; if its size is known,
-- it has received exactly that many bytes; there is a part, and it has taken the final name.
pub maybe_complete_gate :
    (env : Answers) (d : HttpDownload)
    → rank d.state ≢ 4
    → rank (maybe_complete env d).state ≡ 4
    → (all_done d.segments ≡ true)
      × ((d.total ≤ℤ pos 0) ⊎ (received_bytes d.segments ≡ d.total))
      × (d.disk.part ≢ none)
      × ((maybe_complete env d).disk.final ≡ d.disk.part)
unfolding maybe_complete finalize
maybe_complete_gate env d h =
    let c : HttpDownload = record d { file_open = false } in
    if_cases Gate (all_done d.segments)
      (λ a.
        if_cases Gate (ltb_ℤ (pos 0) d.total && not (eq_ℤ (received_bytes d.segments) d.total))
          (λ _ e.
            absurd
              (omega (arith, e, rank-fail (size_mismatch (received_bytes d.segments) d.total) c)))
          (λ b.
            if_cases Gate (env.rename_succeeds && is_some d.disk.part)
              (λ f e. (
                a,
                gate_passed d.total _ b,
                present d.disk.part env.rename_succeeds f,
                ap (λ (k : Disk). k.final)
                    (disk-set_state completed (record c {
                      sampling = false;
                      rate = pos 0;
                      disk = record { part = none; final = d.disk.part };
                    })),
              ))
              (λ _ e. absurd (
                omega (
                  arith,
                  e,
                  rank-fail cannot_finalize (record c {
                    disk = record d.disk {
                      final = if env.remove_succeeds then none else d.disk.final;
                    };
                  }),
                )))))
      (λ _ e. absurd (h e))
  where
    Gate : HttpDownload → Type 0
    Gate x =
        rank x.state ≡ 4
        → (all_done d.segments ≡ true)
          × ((d.total ≤ℤ pos 0) ⊎ (received_bytes d.segments ≡ d.total))
          × (d.disk.part ≢ none)
          × (x.disk.final ≡ d.disk.part)

abbrev pub sentinel : Segment
sentinel = one_stream (negsuc 0)

sentinel-done : (done sentinel ≡ true) × (received_bytes (sentinel ∷ []) ≡ pos 0)
unfolding done size received_bytes ◌-ℤ◌ ◌+ℤ◌
sentinel-done = (refl, refl)

finalize_now :
    (env : Answers) (d : HttpDownload) (f : File)
    → d.disk.part ≡ some f
    → env.rename_succeeds ≡ true
    → (rank (finalize env d).state ≡ 4)
      × ((finalize env d).requests ≡ d.requests)
      × ((finalize env d).disk.final ≡ some f)
unfolding finalize set_state
finalize_now env d f e h =
    let c : HttpDownload = record d {
      sampling = false;
      rate = pos 0;
      disk = record { part = none; final = d.disk.part };
    } in
    rw (h, ap is_some e)
      (if_cases
        (λ (x : HttpDownload).
          (rank x.state ≡ 4) × (x.requests ≡ d.requests) × (x.disk.final ≡ some f))
        (state_is completed c) {x = c} {y = emit state_changed (record c { state = completed })}
        (λ q. ((==_iff (rank d.state) 4).0 q, refl, e)) (λ _. (refl, refl, e)))

complete_now :
    (env : Answers) (d : HttpDownload) (f : File)
    → d.segments ≡ sentinel ∷ []
    → d.total ≡ negsuc 0
    → d.disk.part ≡ some f
    → env.rename_succeeds ≡ true
    → let e = maybe_complete env (spawn_where not_done (length d.segments) 0 d) in
      (rank e.state ≡ 4) × (e.requests ≡ d.requests) × (e.disk.final ≡ some f)
unfolding maybe_complete spawn_where all_done
complete_now env d f e t h r =
    rw (e, sentinel-done.0, t)
      (rw sentinel-done.0 (
        finalize_now env
          (record d { total = negsuc 0; file_open = false; segments = sentinel ∷ [] }) f h r))

-- What entering the state leaves alone.
enter_downloading-same :
    (d : HttpDownload)
    → let e = enter_downloading d in
      (e.segments ≡ d.segments)
      × (e.total ≡ d.total)
      × (e.requests ≡ d.requests)
      × (e.disk ≡ d.disk)
unfolding enter_downloading set_state
enter_downloading-same d =
    if_cases
      (λ (e : HttpDownload).
        (e.segments ≡ d.segments)
        × (e.total ≡ d.total)
        × (e.requests ≡ d.requests)
        × (e.disk ≡ d.disk))
      (state_is downloading d) {x = d} {y = emit state_changed (record d { state = downloading })}
      (λ _. (refl, refl, refl, refl)) (λ _. (refl, refl, refl, refl))

abbrev pub empty_file : File
empty_file = opened_part none

begin_unknown :
    (env : Answers) (d : HttpDownload)
    → d.segments ≡ sentinel ∷ []
    → d.total ≡ negsuc 0
    → d.file_open ≡ false
    → d.disk.part ≡ none
    → env.open_succeeds ≡ true
    → env.rename_succeeds ≡ true
    → let e = begin_segments env d in
      (rank e.state ≡ 4) × (e.requests ≡ d.requests) × (e.disk.final ≡ some empty_file)
unfolding begin_segments begin_opened open_part
begin_unknown env d g t o q s r =
    let x = open_part d in
    let same = enter_downloading-same x in
    let opened : x.disk.part ≡ some empty_file = rw (t, q) refl in
    let done_now =
      complete_now env (enter_downloading x) empty_file (same.0 ∙ g) (same.1 ∙ t)
        (ap (λ (k : Disk). k.part) same.3 ∙ opened) r in
    if_cases Emptied d.file_open (λ h. absurd (clash d.file_open h o))
      (λ _.
        if_cases Emptied env.open_succeeds (λ _. (done_now.0, done_now.1 ∙ same.2, done_now.2))
          (λ h. absurd (clash env.open_succeeds s h)))
  where
    Emptied : HttpDownload → Type 0
    Emptied e = (rank e.state ≡ 4) × (e.requests ≡ d.requests) × (e.disk.final ≡ some empty_file)

    clash : (b : Bool) → b ≡ true → b ≡ false → ⊥
    clash b h k = cc

one_only :
    (ranged : Bool) (d : HttpDownload) → (lay_out ranged (negsuc 0) d).segments ≡ sentinel ∷ []
unfolding lay_out
one_only true d = refl
one_only false d = refl

-- A server that reports no size gets no request for the content: when the probe has been answered
-- without an error and without a usable size, the part is not there yet, and the disk does what it
-- is asked, the download is at once Completed, with an empty file under the final name.
pub unknown_size_is_empty :
    (to_long_long : Text → Option ℤ) (r : ProbeReply) (env : Answers) (d : HttpDownload) (p : ℕ)
    → d.probe ≡ some p
    → r.error ≡ none
    → probed_total to_long_long r ≡ negsuc 0
    → d.file_open ≡ false
    → d.disk.part ≡ none
    → env.open_succeeds ≡ true
    → env.rename_succeeds ≡ true
    → let e = on_probe_finished to_long_long r env d in
      (rank e.state ≡ 4) × (e.requests ≡ d.requests) × (e.disk.final ≡ some empty_file)
unfolding on_probe_finished
unknown_size_is_empty tl r env d p a b c o q s t =
    rw (a, on_probe_finished)
      (rw (b, c)
        (if_cases
          (λ (x : HttpDownload).
            let e = begin_segments env (lay_out (r.status == 206) (negsuc 0) x) in
            (rank e.state ≡ 4) × (e.requests ≡ d.requests) × (e.disk.final ≡ some empty_file))
          (r.has_disposition
            && starts_with d.file_name (codes "download-")
            && not (is_empty r.disposition_name))
          {x = record d { probe = none; file_name = r.disposition_name }}
          {y = record d { probe = none }}
          (λ _. unknown (record d { probe = none; file_name = r.disposition_name }) o q)
          (λ _. unknown (record d { probe = none }) o q)))
  where
    unknown :
        (x : HttpDownload)
        → x.file_open ≡ false
        → x.disk.part ≡ none
        → let e = begin_segments env (lay_out (r.status == 206) (negsuc 0) x) in
          (rank e.state ≡ 4) × (e.requests ≡ x.requests) × (e.disk.final ≡ some empty_file)
    unknown x o q =
        begin_unknown env (lay_out (r.status == 206) (negsuc 0) x) (one_only (r.status == 206) x)
          (unfold lay_out in refl) (unfold lay_out in o) (unfold lay_out in q) s t
