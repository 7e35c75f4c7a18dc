-- ===== src/Tests/Vpn.antt =====
-- Runs of src/services/vpn/vpnmanager.cpp and src/app/vpnwiring.cpp at fixed inputs.
use batorrent.Base.{
  List, Text, [], arith, codes, false, none, pos, refl, some, text_eq, true, ◌++◌, ◌∷◌, ◌≡◌,
}
use batorrent.Vpn.Manager.{
  Vpn, disconnected, no_error, vpn_rank, Configs, ConfRead, profile_index, on_connected,
  on_disconnected, on_failed, connect_profile, on_retry_timeout, disconnect_vpn, schedule_retry,
  set_vpn_state, stop_retry, clear_active_tunnel, connect_read, save_active_tunnel,
}
use batorrent.Vpn.Retry.{RetryInv, Off}
use batorrent.Vpn.Retry.Run.{
  comes_up, goes_down, fails, fires, connects, at_rest, answer, call, none_given, answered,
  Run-RetryInv, ups, disconnect_vpn_is_final, connected_after_cancel,
}
use batorrent.Vpn.Userspace.{HelperEvent, userspace_tunnel, socks_settings, read_events}
use batorrent.Vpn.Userspace.Run.{Event, asked_up, asked_down, wrote, finished, at_once, run}
use batorrent.Vpn.Userspace.Ends.{ends, ends_logged, requests_in, run-EndsOnce}
use batorrent.Vpn.Userspace.Idle.{no_process-Idle}
use batorrent.Vpn.Userspace.Lines.{read_events-append}
use batorrent.Vpn.Wiring.{Wired, Socks, bound_up, bound_down}
use batorrent.Vpn.Wiring.KillSwitch.{IsHeld, dispatch}
use batorrent.Vpn.Wiring.KillSwitch.Run.{Stays, Step, Reach, kill_switch-IsHeld}
use batorrent.Vpn.Wiring.Bound.{Chain, Holds, bound_down-restores}

abbrev home : Text
home = codes "home"

abbrev fresh_vpn : Vpn
fresh_vpn = record {
  profiles = record { id = home; name = home; endpoint = []; cc = []; pending_ip = [] } ∷ [];
  state = disconnected;
  active_id = [];
  iface = [];
  error = no_error;
  last_conf = [];
  user_down = false;
  retry_timer = false;
  tick = false;
  retry_at = 0;
  retries = 0;
  keep_up = false;
  retry_id = [];
  forwarded_port = pos 0;
  last_profile = [];
  active = none;
  index = [];
  outputs = [];
}

abbrev configs : Configs
configs = record {
  conf_path = λ id. id;
  conf_of = λ id. ConfRead.valid (codes "h:1");
  is_real = true;
}

abbrev connecting_now : Vpn
connecting_now = connect_profile configs home fresh_vpn

abbrev connected_now : Vpn
connected_now = on_connected true (codes "wg0") connecting_now

abbrev dropped_now : Vpn
dropped_now = on_failed true false 1000 (codes "gone") connected_now

-- A drop after a connection is followed by a new try, 5 seconds later.
dropped_is_due : (dropped_now.retry_timer ≡ true) × (dropped_now.retry_at ≡ 6000)
unfolding connect_profile connect_read on_connected on_failed stop_retry set_vpn_state
    schedule_retry clear_active_tunnel save_active_tunnel profile_index text_eq
dropped_is_due = (refl, refl)

Run-RetryInv_example : RetryInv (on_retry_timeout configs dropped_now)
unfolding connect_profile connect_read on_connected on_failed stop_retry set_vpn_state
    schedule_retry clear_active_tunnel save_active_tunnel profile_index text_eq
Run-RetryInv_example =
    Run-RetryInv (λ e. cc)
      (answer
        (answer
          (answer (call at_rest (connects configs home fresh_vpn))
            (comes_up true (codes "wg0") connecting_now))
          (fails true false 1000 (codes "gone") connected_now))
        (fires configs dropped_now refl))

disconnect_vpn_is_final_example :
    let w = on_failed true false 1000 [] (on_disconnected true (disconnect_vpn connected_now)) in
    Off w × (ups w.outputs ≡ ups (disconnect_vpn connected_now).outputs)
unfolding connect_profile connect_read on_connected stop_retry set_vpn_state profile_index text_eq
    save_active_tunnel
disconnect_vpn_is_final_example =
    disconnect_vpn_is_final connected_now (λ e. omega (arith, e))
      (answered (answered none_given (goes_down true (disconnect_vpn connected_now)))
        (fails true false 1000 [] (on_disconnected true (disconnect_vpn connected_now))))

connected_after_cancel_example :
    let w = on_connected true (codes "wg0") (disconnect_vpn connecting_now) in
    (vpn_rank w.state ≡ 2) × (w.keep_up ≡ true) × (w.user_down ≡ true)
unfolding connect_profile connect_read stop_retry set_vpn_state profile_index text_eq
connected_after_cancel_example = connected_after_cancel true (codes "wg0") connecting_now refl

abbrev no_wiring : Wired
no_wiring = record {
  settings = record {
    kill_switch = none;
    vpn_hold = false;
    auto_connect = false;
    outgoing_interface = codes "eth0";
    pre_vpn_interface = none;
  };
  session = record {
    proxy_port = pos 0;
    proxy_user = [];
    proxy_pass = [];
    announce_port = pos 0;
    bound_to = codes "eth0";
  };
}

abbrev socks : Socks
socks = record { port = pos 1080; user = codes "u"; pass = codes "p" }

abbrev up_now : Vpn × Wired
up_now = dispatch socks (on_connected true (codes "wg0")) (connecting_now, no_wiring)

-- The one answer of socks() is `socks`.
abbrev IsSocks : Socks → Type 0
IsSocks s = s ≡ socks

kill_switch-IsHeld_example :
    IsHeld IsSocks (dispatch socks (on_failed true false 1000 (codes "gone")) up_now).1
unfolding connect_profile connect_read stop_retry set_vpn_state profile_index text_eq
kill_switch-IsHeld_example =
    kill_switch-IsHeld IsSocks socks true (codes "wg0") connecting_now no_wiring refl refl refl
      (omega arith) refl
      (Reach.next Reach.here
        (Step.calls socks refl (Stays.fails true false 1000 (codes "gone")) up_now))

bound_down-restores_example :
    let y =
      bound_down true true (bound_up true (codes "wg1") (bound_up true (codes "wg0") no_wiring)) in
    (y.session.bound_to ≡ codes "eth0")
    × (y.settings.outgoing_interface ≡ codes "eth0")
    × (y.settings.pre_vpn_interface ≡ none)
bound_down-restores_example =
    bound_down-restores (codes "wg0") no_wiring refl
      (Chain.next Chain.here (Holds.ups (codes "wg1") (bound_up true (codes "wg0") no_wiring)))

-- A line of this helper is an event and, for the port, 1080.
abbrev event_of : Text → HelperEvent
event_of line = record {
  ev = line;
  port = pos 1080;
  user = codes "u";
  pass = codes "p";
  ip = codes "10.0.0.2";
  code = codes "conf";
  msg = codes "line 3";
}

abbrev a_life : List Event
a_life =
    asked_down
    ∷ asked_up true (some (codes "[Interface]"))
    ∷ wrote (codes "rea")
    ∷ wrote (codes "dy\nfwd\n")
    ∷ asked_down
    ∷ at_once
    ∷ finished []
    ∷ []

run-EndsOnce_example :
    ends (run event_of a_life userspace_tunnel) ≡ requests_in event_of a_life userspace_tunnel
run-EndsOnce_example = run-EndsOnce event_of a_life

two_ends : ends_logged ((run event_of a_life userspace_tunnel).log) ≡ 2
unfolding run userspace_tunnel
two_ends = refl

no_process-Idle_example :
    let t = run event_of a_life userspace_tunnel in
    (socks_settings t ≡ none)
    × (t.stopping ≡ false)
    × (t.fwd ≡ pos 0)
    × (t.port ≡ pos 0)
    × (t.user ≡ [])
    × (t.pass ≡ [])
unfolding run userspace_tunnel
no_process-Idle_example = no_process-Idle event_of a_life refl

read_events-append_example :
    let s = run event_of (asked_up true (some []) ∷ []) userspace_tunnel in
    read_events event_of (codes "rea" ++ codes "dy\n") s
    ≡ read_events event_of (codes "dy\n") (read_events event_of (codes "rea") s)
read_events-append_example =
    read_events-append event_of (codes "rea") (codes "dy\n")
      (run event_of (asked_up true (some []) ∷ []) userspace_tunnel)
