-- ===== src/Vpn/Userspace/Ends.antt =====
-- Runs of src/services/vpn/wgtunnel_userspace.cpp: every request is answered once, and nothing of an
-- ended process is kept.
use batorrent.Base.{
  Bool, List, Option, Text, [], ap, arith, codes, elim_cases, eq_ℤ, false, if_cases, if◌then◌else◌,
  is_some, ltb_ℤ, none, not, pos, refl, some, text_eq, trimmed, true, ℕ, ◌&&◌, ◌++◌, ◌+◌, ◌==◌, ◌∷◌,
  ◌≡◌,
}
use batorrent.Vpn.Userspace.{
  Tunnel, HelperEvent, Emitted, tunnel_failed_with, tunnel_disconnected, port_forwarded, Effect,
  emits, userspace_tunnel, on_event, on_ready, on_forwarded, read_lines, read_events, end_process,
  last_words, on_process_finished, on_failed_to_start, bring_up, on_backstop, take_down,
  on_stop_timeout, on_deferred, is_proc, fails_later, spawn,
}
use batorrent.Vpn.Userspace.Run.{
  Event, asked_up, asked_down, wrote, finished, not_started, backstop, stop_timeout, at_once,
  handle, run,
}

-- The signals that end a request.
abbrev pub is_end : Emitted → ℕ
is_end (tunnel_failed_with why) = 1
is_end tunnel_disconnected = 1
is_end _ = 0

abbrev pub ends_in : List Emitted → ℕ
ends_in [] = 0
ends_in (e ∷ es) = is_end e + ends_in es

abbrev pub ends_logged : List Effect → ℕ
ends_logged [] = 0
ends_logged (emits e ∷ es) = is_end e + ends_logged es
ends_logged (_ ∷ es) = ends_logged es

abbrev pub processes : Option ℕ → ℕ
processes none = 0
processes (some p) = 1

-- The ends that were emitted, and those that a timer or the process still owes.
abbrev pub ends : Tunnel → ℕ
ends s = ends_logged s.log + ends_in s.deferred + processes s.proc

-- Whether an event is a request to a tunnel without a process. A running one ignores a request to
-- come up, and one to stop ends the process that is there.
abbrev pub requests : Event → Option ℕ → ℕ
requests (asked_up has_helper conf) none = 1
requests asked_down none = 1
requests _ _ = 0

-- What holds of the two a step leads between.
abbrev Answers : ℕ → Tunnel → Tunnel → Type 0
Answers n s t = ends t ≡ n + ends s

ends_in-append : (es : List Emitted) (e : Emitted) → ends_in (es ++ e ∷ []) ≡ is_end e + ends_in es
ends_in-append [] e = refl
ends_in-append (d ∷ es) e = omega (arith, ends_in-append es e)

on_event-Answers : (e : HelperEvent) (s : Tunnel) → Answers 0 s (on_event e s)
unfolding on_event on_ready on_forwarded
on_event-Answers e s =
    let P = Answers 0 s in
    if_cases P (text_eq e.ev (codes "ready"))
      (λ _.
        if_cases P (ltb_ℤ (pos 0) e.port && not s.stopping) (λ _. omega arith) (λ _. omega arith))
      (λ _.
        if_cases P (text_eq e.ev (codes "fwd"))
          (λ _. if_cases P s.ready (λ _. omega arith) (λ _. omega arith))
          (λ _.
            if_cases P (text_eq e.ev (codes "error")) (λ _. omega arith)
              (λ _.
                if_cases P (text_eq e.ev (codes "stale")) (λ _. omega arith) (λ _. omega arith))))

last_is_end :
    (b : Bool) (why : Text) → is_end (if b then tunnel_disconnected else tunnel_failed_with why) ≡ 1
last_is_end true why = refl
last_is_end false why = refl

no_end_more :
    (b : Bool) (es : List Effect)
    → ends_logged (if b then es else emits (port_forwarded (pos 0)) ∷ es) ≡ ends_logged es
no_end_more true es = refl
no_end_more false es = omega arith

end_process-Answers : (why : Text) (s : Tunnel) → Answers 0 s (end_process why s)
unfolding end_process
end_process-Answers why s =
    elim s.proc
      as (λ o. Answers 0 (record s { proc = o }) (end_process why (record s { proc = o }))) [
        | none ↦ omega arith
        | some p ↦ omega (arith, last_is_end s.stopping why, no_end_more (eq_ℤ s.fwd (pos 0)) s.log)
      ]

fails_later-Answers : (why : Text) (s : Tunnel) → Answers 1 s (fails_later why s)
fails_later-Answers why s = omega (arith, ends_in-append s.deferred (tunnel_failed_with why))

spawn-Answers :
    (has_helper : Bool) (conf : Option Text) (s : Tunnel)
    → s.proc ≡ none
    → Answers 1 s (spawn has_helper conf s)
spawn-Answers false conf s h =
    fails_later-Answers (codes "The VPN component is missing from this install.") s
spawn-Answers true none s h = fails_later-Answers (codes "config missing on disk") s
spawn-Answers true (some text) s h = omega (arith, ap processes h)

bring_up-Answers :
    (has_helper : Bool) (conf : Option Text) (s : Tunnel)
    → Answers (requests (asked_up has_helper conf) s.proc) s (bring_up has_helper conf s)
unfolding bring_up
bring_up-Answers has_helper conf s =
    elim s.proc
      as (λ o.
        let t = record s { proc = o } in
        Answers (requests (asked_up has_helper conf) o) t (bring_up has_helper conf t)) [
          | none ↦ spawn-Answers has_helper conf (record s { proc = none }) refl
          | some p ↦ omega arith
        ]

take_down-Answers : (s : Tunnel) → Answers (requests asked_down s.proc) s (take_down s)
unfolding take_down
take_down-Answers s =
    elim s.proc
      as (λ o. let t = record s { proc = o } in Answers (requests asked_down o) t (take_down t)) [
        | none ↦ omega (arith, ends_in-append s.deferred tunnel_disconnected)
        | some p ↦ omega arith
      ]

on_backstop-Answers : (p : ℕ) (s : Tunnel) → Answers 0 s (on_backstop p s)
unfolding on_backstop
on_backstop-Answers p s =
    if_cases (Answers 0 s) (is_proc s.proc p && not s.ready && not s.stopping) (λ _. omega arith)
      (λ _. omega arith)

on_stop_timeout-Answers : (p : ℕ) (s : Tunnel) → Answers 0 s (on_stop_timeout p s)
unfolding on_stop_timeout
on_stop_timeout-Answers p s =
    if_cases (Answers 0 s) (is_proc s.proc p) (λ _. omega arith) (λ _. omega arith)

on_deferred-Answers : (s : Tunnel) → Answers 0 s (on_deferred s)
unfolding on_deferred
on_deferred-Answers s =
    elim s.deferred
      as (λ es. Answers 0 (record s { deferred = es }) (on_deferred (record s { deferred = es }))) [
        | [] ↦ omega arith
        | e ∷ es ↦ omega arith
      ]

module _ (event_of : Text → HelperEvent) where
  read_lines-Answers : (line cs : Text) (s : Tunnel) → Answers 0 s (read_lines event_of line cs s)
  unfolding read_lines
  read_lines-Answers line [] s = omega arith
  read_lines-Answers line (c ∷ cs) s =
      let e = event_of (trimmed line) in
      elim_cases (Answers 0 s) (c == 10)
        (λ _. omega (arith, read_lines-Answers [] cs (on_event e s), on_event-Answers e s))
        (λ _. read_lines-Answers (line ++ c ∷ []) cs s)

  read_events-Answers : (out : Text) (s : Tunnel) → Answers 0 s (read_events event_of out s)
  unfolding read_events
  read_events-Answers out s =
      if_cases (Answers 0 s) (is_some s.proc) (λ _. read_lines-Answers [] (s.buf ++ out) s)
        (λ _. omega arith)

  on_process_finished-Answers :
      (out : Text) (s : Tunnel) → Answers 0 s (on_process_finished event_of out s)
  unfolding on_process_finished
  on_process_finished-Answers out s =
      let t = read_events event_of out s in
      omega (arith, read_events-Answers out s, end_process-Answers (last_words event_of t) t)

  -- The requests that such events make of a tunnel without a process.
  unfoldable pub requests_in : List Event → Tunnel → ℕ
  unfolding handle
  requests_in [] s = 0
  requests_in (e ∷ es) s = requests e s.proc + requests_in es (handle event_of e s)

  handle-Answers : (e : Event) (s : Tunnel) → Answers (requests e s.proc) s (handle event_of e s)
  unfolding handle on_failed_to_start
  handle-Answers (asked_up has_helper conf) s = bring_up-Answers has_helper conf s
  handle-Answers asked_down s = take_down-Answers s
  handle-Answers (wrote out) s = read_events-Answers out s
  handle-Answers (finished out) s = on_process_finished-Answers out s
  handle-Answers not_started s = end_process-Answers (codes "The VPN component could not start.") s
  handle-Answers (backstop p) s = on_backstop-Answers p s
  handle-Answers (stop_timeout p) s = on_stop_timeout-Answers p s
  handle-Answers at_once s = on_deferred-Answers s

  run-Answers : (es : List Event) (s : Tunnel) → Answers (requests_in es s) s (run event_of es s)
  unfolding run requests_in
  run-Answers [] s = omega arith
  run-Answers (e ∷ es) s = omega (arith, handle-Answers e s, run-Answers es (handle event_of e s))

  -- Whatever happens to a tunnel from its spawn, each request that found no process is answered by
  -- one `failed` or `disconnected`: those that were emitted, with those that a timer of 0 ms will
  -- emit and the one that a process there still owes, are as many as such requests.
  pub run-EndsOnce :
      (es : List Event) → ends (run event_of es userspace_tunnel) ≡ requests_in es userspace_tunnel
  unfolding userspace_tunnel
  run-EndsOnce es = omega (arith, run-Answers es userspace_tunnel)
