-- ===== src/Vpn/Userspace/Run.antt =====
-- What can happen to src/services/vpn/wgtunnel_userspace.cpp, and runs of it.
use batorrent.Base.{Bool, List, Option, Text, [], ℕ, ◌∷◌}
use batorrent.Vpn.Userspace.{
  Tunnel, HelperEvent, bring_up, take_down, read_events, on_process_finished, on_failed_to_start,
  on_backstop, on_stop_timeout, on_deferred,
}

-- What a tunnel can be asked, and what its process and its timers can do.
pub data Event : Type 0 where
  asked_up : Bool → Option Text → Event
  asked_down : Event
  wrote : Text → Event
  finished : Text → Event
  not_started : Event
  backstop : ℕ → Event
  stop_timeout : ℕ → Event
  at_once : Event

module _ (event_of : Text → HelperEvent) where
  unfoldable pub handle : Event → Tunnel → Tunnel
  unfolding bring_up take_down read_events on_process_finished on_failed_to_start on_backstop
      on_stop_timeout on_deferred
  handle (asked_up has_helper conf) s = bring_up has_helper conf s
  handle asked_down s = take_down s
  handle (wrote out) s = read_events event_of out s
  handle (finished out) s = on_process_finished event_of out s
  handle not_started s = on_failed_to_start s
  handle (backstop p) s = on_backstop p s
  handle (stop_timeout p) s = on_stop_timeout p s
  handle at_once s = on_deferred s

  unfoldable pub run : List Event → Tunnel → Tunnel
  unfolding handle
  run [] s = s
  run (e ∷ es) s = run es (handle e s)
