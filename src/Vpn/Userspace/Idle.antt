-- ===== src/Vpn/Userspace/Idle.antt =====
-- src/services/vpn/wgtunnel_userspace.cpp while no process runs: nothing of an ended one is kept.
use batorrent.Base.{
  Bool, List, Option, Text, [], ap, codes, false, if_cases, inl, inr, is_some, none, not, pos, refl,
  some, sym, true, ℕ, ◌&&◌, ◌++◌, ◌∙◌, ◌∷◌, ◌≡◌, ◌⊎◌,
}
use batorrent.Vpn.Userspace.{
  Tunnel, HelperEvent, userspace_tunnel, socks_settings, read_events, end_process, last_words,
  on_process_finished, on_failed_to_start, bring_up, spawn, on_backstop, take_down, on_stop_timeout,
  on_deferred, is_proc,
}
use batorrent.Vpn.Userspace.Lines.{read_lines-proc}
use batorrent.Vpn.Userspace.Run.{
  Event, asked_up, asked_down, wrote, finished, not_started, backstop, stop_timeout, at_once,
  handle, run,
}

-- Neither up nor stopping, with no port and no password.
abbrev IsIdle : Tunnel → Type 0
IsIdle s =
    (s.ready ≡ false)
    × (s.stopping ≡ false)
    × (s.fwd ≡ pos 0)
    × (s.port ≡ pos 0)
    × (s.user ≡ [])
    × (s.pass ≡ [])

abbrev IsTidy : Tunnel → Type 0
IsTidy s = (is_some s.proc ≡ true) ⊎ IsIdle s

end_process-IsTidy : (why : Text) (s : Tunnel) → IsTidy s → IsTidy (end_process why s)
unfolding end_process
end_process-IsTidy why s i =
    if_cases IsTidy (not (is_some s.proc)) (λ _. i) (λ _. inr (refl, refl, refl, refl, refl, refl))

spawn-IsTidy :
    (has_helper : Bool) (conf : Option Text) (s : Tunnel)
    → IsTidy s
    → IsTidy (spawn has_helper conf s)
spawn-IsTidy false conf s i = i
spawn-IsTidy true none s i = i
spawn-IsTidy true (some text) s i = inl refl

bring_up-IsTidy :
    (has_helper : Bool) (conf : Option Text) (s : Tunnel)
    → IsTidy s
    → IsTidy (bring_up has_helper conf s)
unfolding bring_up
bring_up-IsTidy has_helper conf s i =
    if_cases IsTidy (is_some s.proc) (λ _. i) (λ _. spawn-IsTidy has_helper conf s i)

take_down-IsTidy : (s : Tunnel) → IsTidy s → IsTidy (take_down s)
unfolding take_down
take_down-IsTidy s i = if_cases IsTidy (is_some s.proc) (λ h. inl h) (λ _. i)

on_backstop-IsTidy : (p : ℕ) (s : Tunnel) → IsTidy s → IsTidy (on_backstop p s)
unfolding on_backstop
on_backstop-IsTidy p s i =
    if_cases IsTidy (is_proc s.proc p && not s.ready && not s.stopping) (λ _. i) (λ _. i)

on_stop_timeout-IsTidy : (p : ℕ) (s : Tunnel) → IsTidy s → IsTidy (on_stop_timeout p s)
unfolding on_stop_timeout
on_stop_timeout-IsTidy p s i = if_cases IsTidy (is_proc s.proc p) (λ _. i) (λ _. i)

on_deferred-IsTidy : (s : Tunnel) → IsTidy s → IsTidy (on_deferred s)
unfolding on_deferred
on_deferred-IsTidy s i =
    elim s.deferred as (λ es. IsTidy (on_deferred (record s { deferred = es }))) [
      | [] ↦ i
      | e ∷ es ↦ i
    ]

module _ (event_of : Text → HelperEvent) where
  read_events-IsTidy : (out : Text) (s : Tunnel) → IsTidy s → IsTidy (read_events event_of out s)
  unfolding read_events
  read_events-IsTidy out s i =
      if_cases IsTidy (is_some s.proc)
        (λ h. inl (ap is_some (read_lines-proc event_of [] (s.buf ++ out) s) ∙ h)) (λ _. i)

  on_process_finished-IsTidy :
      (out : Text) (s : Tunnel) → IsTidy s → IsTidy (on_process_finished event_of out s)
  unfolding on_process_finished
  on_process_finished-IsTidy out s i =
      let t = read_events event_of out s in
      end_process-IsTidy (last_words event_of t) t (read_events-IsTidy out s i)

  handle-IsTidy : (e : Event) (s : Tunnel) → IsTidy s → IsTidy (handle event_of e s)
  unfolding handle on_failed_to_start
  handle-IsTidy (asked_up has_helper conf) s i = bring_up-IsTidy has_helper conf s i
  handle-IsTidy asked_down s i = take_down-IsTidy s i
  handle-IsTidy (wrote out) s i = read_events-IsTidy out s i
  handle-IsTidy (finished out) s i = on_process_finished-IsTidy out s i
  handle-IsTidy not_started s i =
      end_process-IsTidy (codes "The VPN component could not start.") s i
  handle-IsTidy (backstop p) s i = on_backstop-IsTidy p s i
  handle-IsTidy (stop_timeout p) s i = on_stop_timeout-IsTidy p s i
  handle-IsTidy at_once s i = on_deferred-IsTidy s i

  run-IsTidy : (es : List Event) (s : Tunnel) → IsTidy s → IsTidy (run event_of es s)
  unfolding run
  run-IsTidy [] s i = i
  run-IsTidy (e ∷ es) s i = run-IsTidy es (handle event_of e s) (handle-IsTidy e s i)

  -- Whatever happens to a tunnel from its spawn, when no process runs it gives no proxy, is not
  -- stopping, and holds no forwarded port, no port, no user and no password of a process before.
  pub no_process-Idle :
      (es : List Event)
      → (run event_of es userspace_tunnel).proc ≡ none
      → (let t = run event_of es userspace_tunnel in
          (socks_settings t ≡ none)
          × (t.stopping ≡ false)
          × (t.fwd ≡ pos 0)
          × (t.port ≡ pos 0)
          × (t.user ≡ [])
          × (t.pass ≡ []))
  unfolding socks_settings userspace_tunnel
  no_process-Idle es h =
      elim (run-IsTidy es userspace_tunnel (inr (refl, refl, refl, refl, refl, refl))) [
        | inl t ↦ let none_is_some = sym (ap is_some h) ∙ t in cc
        | inr (r, q, f, n, u, w) ↦ (rw r, q, f, n, u, w)
      ]
