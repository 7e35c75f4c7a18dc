-- ===== src/Vpn/Quiet.antt =====
-- What is said by the VPN while the user does not disconnect it.
use batorrent.Base.{
  All, Bool, Text, [], eq_ℤ, false, if_cases, if◌then◌else◌, is_empty, is_some, not, refl, true, ℕ,
  ℤ, ◌&&◌, ◌||◌, ◌≡◌,
}
use batorrent.Vpn.Manager.{
  VpnState, Vpn, Output, tunnel_down, interface_up, interface_down, forwarded_port_changed,
  disconnected, failed, connecting, connected, tunnel_failed, no_error, config_missing, bad_config,
  unknown_profile, state_of, output, fail_with, Configs, ConfRead, profile_index, set_vpn_state,
  stop_retry, schedule_retry, clear_active_tunnel, save_active_tunnel, on_connected,
  on_disconnected, on_failed, on_forwarded_port, connect_profile, connect_read, on_retry_timeout,
  connect_last_used,
}
use batorrent.Vpn.Retry.{
  set_vpn_state_lem, stop_retry_lem, save_active_tunnel_lem, clear_active_tunnel_lem, due, fired,
}

-- A tunnel that goes down is not said to do so on purpose.
abbrev pub IsDrop : Output → Type 0
IsDrop (interface_down deliberate) = deliberate ≡ false
IsDrop _ = Unit

-- The user has not asked to go down, and no signal says so.
abbrev pub IsQuiet : Vpn → Type 0
IsQuiet v = (v.user_down ≡ false) × All IsDrop v.outputs

pub set_vpn_state-IsQuiet : (s : VpnState) (v : Vpn) → IsQuiet v → IsQuiet (set_vpn_state s v)
set_vpn_state-IsQuiet s v q = set_vpn_state_lem IsQuiet s v (λ _. q) (q.0, (tt, q.1))

pub stop_retry-IsQuiet : (v : Vpn) → IsQuiet v → IsQuiet (stop_retry v)
stop_retry-IsQuiet v q = stop_retry_lem IsQuiet v (λ _. q) (q.0, (tt, q.1))

pub on_connected-IsQuiet :
    (real : Bool) (i : Text) (v : Vpn) → IsQuiet v → IsQuiet (on_connected real i v)
unfolding on_connected
on_connected-IsQuiet real i v q =
    let up : Vpn = record v { iface = i; keep_up = true; retries = 0 } in
    let x = set_vpn_state connected (stop_retry up) in
    let quiet = set_vpn_state-IsQuiet connected (stop_retry up) (stop_retry-IsQuiet up q) in
    let saved = save_active_tunnel_lem IsQuiet real i x quiet quiet in
    if_cases IsQuiet (not (state_of connecting v)) {x = output tunnel_down v}
      {y = output (interface_up i) (save_active_tunnel real i x)} (λ _. (q.0, (tt, q.1)))
      (λ _. (saved.0, (tt, saved.1)))

pub cleared-IsQuiet :
    (real : Bool) (s : VpnState) (v : Vpn)
    → IsQuiet v
    → IsQuiet (clear_active_tunnel real (set_vpn_state s v))
cleared-IsQuiet real s v q =
    let p = set_vpn_state-IsQuiet s v q in
    clear_active_tunnel_lem IsQuiet real (set_vpn_state s v) p p

pub on_disconnected-IsQuiet : (real : Bool) (v : Vpn) → IsQuiet v → IsQuiet (on_disconnected real v)
unfolding on_disconnected
on_disconnected-IsQuiet real v q =
    (refl, (q.0, (cleared-IsQuiet real disconnected (record v { iface = [] }) q).1))

pub on_failed-IsQuiet :
    (real final : Bool) (now : ℕ) (why : Text) (v : Vpn)
    → IsQuiet v
    → IsQuiet (on_failed real final now why v)
unfolding on_failed schedule_retry
on_failed-IsQuiet real final now why v q =
    let d : Vpn = record v { error = tunnel_failed why; iface = [] } in
    if_cases
      (λ (e : Vpn). IsQuiet (
        output (interface_down false)
          (record (clear_active_tunnel real (set_vpn_state failed e)) { user_down = false })))
      (v.keep_up && not final) {x = schedule_retry now d} {y = d}
      (λ _. (refl, (refl, (cleared-IsQuiet real failed (schedule_retry now d) (q.0, (tt, q.1))).1)))
      (λ _. (refl, (refl, (cleared-IsQuiet real failed d q).1)))

pub on_forwarded_port-IsQuiet :
    (port : ℤ) (v : Vpn) → IsQuiet v → IsQuiet (on_forwarded_port port v)
unfolding on_forwarded_port
on_forwarded_port-IsQuiet port v q =
    if_cases IsQuiet (eq_ℤ v.forwarded_port port) {x = v}
      {y = output forwarded_port_changed (record v { forwarded_port = port })} (λ _. q)
      (λ _. (q.0, (tt, q.1)))

pub connect_read-IsQuiet :
    (env : Configs) (id : Text) (c : ConfRead) (v : Vpn)
    → IsQuiet v
    → IsQuiet (connect_read env id c v)
unfolding connect_read
connect_read-IsQuiet env id ConfRead.cannot_open v q =
    set_vpn_state-IsQuiet failed (record v { error = config_missing }) q
connect_read-IsQuiet env id (ConfRead.invalid why) v q =
    set_vpn_state-IsQuiet failed (record v { error = bad_config why }) q
connect_read-IsQuiet env id (ConfRead.valid endpoint) v q =
    let c : Vpn = record v {
      active_id = id;
      error = no_error;
      last_conf = env.conf_path id;
      last_profile = id;
    } in
    let p = set_vpn_state-IsQuiet connecting c q in (p.0, (tt, p.1))

pub connect_profile-IsQuiet :
    (env : Configs) (id : Text) (v : Vpn) → IsQuiet v → IsQuiet (connect_profile env id v)
unfolding connect_profile
connect_profile-IsQuiet env id v q =
    let d : Vpn = record (stop_retry v) { retry_id = id } in
    let refused = fail_with unknown_profile d in
    let read = connect_read env id (env.conf_of id) d in
    let p : IsQuiet d = stop_retry-IsQuiet v q in
    if_cases IsQuiet (state_of connecting v || state_of connected v) {x = v}
      {y = if not (is_some (profile_index id v.profiles)) then refused else read} (λ _. q)
      (λ _.
        if_cases IsQuiet (not (is_some (profile_index id v.profiles))) {x = refused} {y = read}
          (λ _. set_vpn_state-IsQuiet failed (record d { error = unknown_profile }) p)
          (λ _. connect_read-IsQuiet env id (env.conf_of id) d p))

pub on_retry_timeout-IsQuiet :
    (env : Configs) (v : Vpn) → IsQuiet v → IsQuiet (on_retry_timeout env v)
unfolding on_retry_timeout
on_retry_timeout-IsQuiet env v q =
    if_cases IsQuiet (due v) {x = connect_profile env v.retry_id (fired v)} {y = fired v}
      (λ _. connect_profile-IsQuiet env v.retry_id (fired v) (q.0, (tt, q.1)))
      (λ _. (q.0, (tt, q.1)))

pub connect_last_used-IsQuiet :
    (env : Configs) (v : Vpn) → IsQuiet v → IsQuiet (connect_last_used env v)
unfolding connect_last_used
connect_last_used-IsQuiet env v q =
    if_cases IsQuiet
      (is_empty v.last_profile || not (is_some (profile_index v.last_profile v.profiles))) {x = v}
      {y = connect_profile env v.last_profile (record v { keep_up = true })} (λ _. q)
      (λ _. connect_profile-IsQuiet env v.last_profile (record v { keep_up = true }) q)
