-- ===== src/Vpn/Manager.antt =====
-- src/services/vpn/vpnmanager.h and .cpp: the profiles and the state of the tunnel. The tunnel is
-- another object: what it is asked is part of `outputs`, newest first, with the signals emitted, and
-- what it answers are the calls on_connected, on_disconnected, on_failed and on_forwarded_port.
use batorrent.Base.{
  Bool, List, Option, Text, [], eq_ℤ, false, get_or, if◌then◌else◌, is_empty, is_some, ltb, min,
  none, not, some, suc, text_eq, true, ℕ, ℤ, ◌&&◌, ◌*◌, ◌+◌, ◌-◌, ◌/◌, ◌==◌, ◌||◌, ◌∷◌,
}
use mathlib.Core.Option

pub data VpnState : Type 0 where
  disconnected connecting connected failed : VpnState

-- int(state)
abbrev pub vpn_rank : VpnState → ℕ
vpn_rank disconnected = 0
vpn_rank connecting = 1
vpn_rank connected = 2
vpn_rank failed = 3

pub data Output : Type 0 where
  state_changed profiles_changed forwarded_port_changed retry_changed : Output
  interface_up : Text → Output
  interface_down : Bool → Output
  tunnel_up : Text → Output
  tunnel_down : Output

pub data VpnError : Type 0 where
  no_error unknown_profile config_missing cannot_write cannot_save : VpnError
  bad_config : Text → VpnError
  tunnel_failed : Text → VpnError

pub record Profile : Type 0 where
  pub id : Text
  pub name : Text
  pub endpoint : Text
  pub cc : Text
  pub pending_ip : Text

-- The record in the settings that makes a running tunnel adoptable.
pub record ActiveTunnel : Type 0 where
  pub iface : Text
  pub conf : Text
  pub profile : Text

-- `last_profile` and `active` stand in the settings; `index` is profiles.json, which keeps ids and
-- names. `retry_timer` is whether the timer of a new try runs, `tick` whether its countdown does.
pub record Vpn : Type 0 where
  pub profiles : List Profile
  pub state : VpnState
  pub active_id : Text
  pub iface : Text
  pub error : VpnError
  pub last_conf : Text
  pub user_down : Bool
  pub retry_timer : Bool
  pub tick : Bool
  pub retry_at : ℕ
  pub retries : ℕ
  pub keep_up : Bool
  pub retry_id : Text
  pub forwarded_port : ℤ
  pub last_profile : Text
  pub active : Option ActiveTunnel
  pub index : List (Text × Text)
  pub outputs : List Output

-- A .conf, as reading and parsing it goes: the text parsed has the endpoint of its first peer.
pub data ConfRead : Type 0 where
  cannot_open : ConfRead
  invalid : Text → ConfRead
  valid : Text → ConfRead

-- Where the .conf of an id is, what is in it, and whether the tunnel protects traffic.
pub record Configs : Type 0 where
  pub conf_path : Text → Text
  pub conf_of : Text → ConfRead
  pub is_real : Bool

abbrev pub state_of : VpnState → Vpn → Bool
state_of s v = vpn_rank v.state == vpn_rank s

abbrev pub output : Output → Vpn → Vpn
output o v = record v { outputs = o ∷ v.outputs }

unfoldable pub profile_index : Text → List Profile → Option ℕ
profile_index id [] = none
profile_index id (p ∷ ps) = if text_eq p.id id then some 0 else Option.map suc (profile_index id ps)

unfoldable pub set_vpn_state : VpnState → Vpn → Vpn
set_vpn_state s v = if state_of s v then v else output state_changed (record v { state = s })

unfoldable pub stop_retry : Vpn → Vpn
stop_retry v =
    if v.retry_at == 0 && not v.retry_timer
    then v
    else output retry_changed (record v { retry_timer = false; tick = false; retry_at = 0 })

-- Seconds before try number `n`, from 0.
abbrev pub retry_delay : ℕ → ℕ
retry_delay n = get_or (5 ∷ 10 ∷ 30 ∷ 60 ∷ 120 ∷ []) (min n 4) 120

-- `now` is the time in ms since the epoch.
unfoldable pub schedule_retry : ℕ → Vpn → Vpn
schedule_retry now v = output retry_changed (record v {
  retries = suc v.retries;
  retry_at = now + retry_delay v.retries * 1000;
  retry_timer = true;
  tick = true;
})

unfoldable pub retry_in : ℕ → Vpn → ℕ
retry_in now v =
    if v.retry_at == 0 then 0 else if ltb now v.retry_at then (v.retry_at - now + 999) / 1000 else 0

unfoldable pub save_active_tunnel : Bool → Text → Vpn → Vpn
save_active_tunnel is_real iface v =
    if is_real
    then record v {
      active = some (record { iface = iface; conf = v.last_conf; profile = v.active_id });
    }
    else v

unfoldable pub clear_active_tunnel : Bool → Vpn → Vpn
clear_active_tunnel is_real v = if is_real then record v { active = none } else v

unfoldable pub on_connected : Bool → Text → Vpn → Vpn
unfolding stop_retry set_vpn_state save_active_tunnel
on_connected is_real iface v =
    if not (state_of connecting v)
    then output tunnel_down v
    else output (interface_up iface) (
        save_active_tunnel is_real iface (
          set_vpn_state connected
            (stop_retry (record v { iface = iface; keep_up = true; retries = 0 }))))

unfoldable pub on_disconnected : Bool → Vpn → Vpn
unfolding set_vpn_state clear_active_tunnel
on_disconnected is_real v =
    output (interface_down v.user_down)
      (record (clear_active_tunnel is_real (set_vpn_state disconnected (record v { iface = [] }))) {
        user_down = false;
      })

-- `final` is failureIsFinal().
unfoldable pub on_failed : Bool → Bool → ℕ → Text → Vpn → Vpn
unfolding schedule_retry set_vpn_state clear_active_tunnel
on_failed is_real final now why v =
    let d : Vpn = record v { error = tunnel_failed why; iface = [] } in
    let e : Vpn = if v.keep_up && not final then schedule_retry now d else d in
    output (interface_down false)
      (record (clear_active_tunnel is_real (set_vpn_state failed e)) { user_down = false })

unfoldable pub on_forwarded_port : ℤ → Vpn → Vpn
on_forwarded_port port v =
    if eq_ℤ v.forwarded_port port
    then v
    else output forwarded_port_changed (record v { forwarded_port = port })

abbrev pub fail_with : VpnError → Vpn → Vpn
fail_with why v = set_vpn_state failed (record v { error = why })

-- With the .conf as it was read.
unfoldable pub connect_read : Configs → Text → ConfRead → Vpn → Vpn
unfolding set_vpn_state
connect_read env id cannot_open v = fail_with config_missing v
connect_read env id (invalid why) v = fail_with (bad_config why) v
connect_read env id (valid endpoint) v = output (tunnel_up (env.conf_path id)) (
    set_vpn_state connecting (record v {
      active_id = id;
      error = no_error;
      last_conf = env.conf_path id;
      last_profile = id;
    }))

unfoldable pub connect_profile : Configs → Text → Vpn → Vpn
unfolding stop_retry profile_index connect_read set_vpn_state
connect_profile env id v =
    let d : Vpn = record (stop_retry v) { retry_id = id } in
    if state_of connecting v || state_of connected v
    then v
    else if not (is_some (profile_index id v.profiles))
    then fail_with unknown_profile d
    else connect_read env id (env.conf_of id) d

unfoldable pub on_retry_timeout : Configs → Vpn → Vpn
unfolding profile_index connect_profile
on_retry_timeout env v =
    let d = output retry_changed (record v { retry_timer = false; tick = false; retry_at = 0 }) in
    if v.keep_up
      && (state_of failed v || state_of disconnected v)
      && is_some (profile_index v.retry_id v.profiles)
    then connect_profile env v.retry_id d
    else d

unfoldable pub connect_last_used : Configs → Vpn → Vpn
unfolding profile_index connect_profile
connect_last_used env v =
    if is_empty v.last_profile || not (is_some (profile_index v.last_profile v.profiles))
    then v
    else connect_profile env v.last_profile (record v { keep_up = true })

-- The tunnel answers disconnected() later; after a failure there is nothing to wait for.
unfoldable pub disconnect_vpn : Vpn → Vpn
unfolding stop_retry set_vpn_state
disconnect_vpn v =
    let d = stop_retry (record v { keep_up = false; retries = 0 }) in
    let e = output tunnel_down (record d { active_id = []; user_down = true }) in
    if state_of disconnected v
    then d
    else if state_of failed v
    then output (interface_down true) (set_vpn_state disconnected (record e { iface = [] }))
    else e
