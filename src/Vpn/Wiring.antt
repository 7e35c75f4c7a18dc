-- ===== src/Vpn/Wiring.antt =====
-- src/app/vpnwiring.cpp: how the VPN's signals steer the session's traffic, for a tunnel that is a
-- SOCKS proxy (`socks_…`) and for one that is an interface (`bound_…`).
pub mod KillSwitch
pub mod Bound
use batorrent.Base.{
  Bool, Option, Text, [], false, if◌then◌else◌, is_some, leb_ℤ, ltb_ℤ, none, not, pos, some, true,
  ℤ, ◌&&◌, ◌||◌,
}
use batorrent.Vpn.Manager.{
  Vpn, VpnState, connected, Output, interface_up, interface_down, forwarded_port_changed, state_of,
}

-- The settings read: unset reads as on for the SOCKS proxy, and as off for an interface.
pub record Settings : Type 0 where
  pub kill_switch : Option Bool
  pub vpn_hold : Bool
  pub auto_connect : Bool
  pub outgoing_interface : Text
  pub pre_vpn_interface : Option Text

-- socks(), while the tunnel is ready.
pub record Socks : Type 0 where
  pub port : ℤ
  pub user : Text
  pub pass : Text

-- What the session is told: the proxy on 127.0.0.1 (0: none, 1: one that is not there), the port to
-- announce, and the interface to bind to.
pub record Session : Type 0 where
  pub proxy_port : ℤ
  pub proxy_user : Text
  pub proxy_pass : Text
  pub announce_port : ℤ
  pub bound_to : Text

pub record Wired : Type 0 where
  pub settings : Settings
  pub session : Session

abbrev pub or_else : Option Bool → Bool → Bool
or_else none d = d
or_else (some b) d = b

unfoldable pub send_proxy : ℤ → Text → Text → Wired → Wired
send_proxy port user pass w = record w {
  session = record w.session { proxy_port = port; proxy_user = user; proxy_pass = pass };
}

unfoldable pub announce : ℤ → Wired → Wired
announce port w =
    if ltb_ℤ (pos 0) port
    then record w { session = record w.session { announce_port = port } }
    else w

abbrev pub hold : Bool → Wired → Wired
hold b w = record w { settings = record w.settings { vpn_hold = b } }

unfoldable pub socks_up : Socks → ℤ → Wired → Wired
unfolding send_proxy announce
socks_up s forwarded w =
    if leb_ℤ s.port (pos 0)
    then w
    else hold true (announce forwarded (send_proxy s.port s.user s.pass w))

unfoldable pub socks_down : Bool → Wired → Wired
unfolding send_proxy
socks_down deliberate w =
    if not deliberate && or_else w.settings.kill_switch true
    then send_proxy (pos 1) [] [] w
    else hold false (send_proxy (pos 0) [] [] w)

-- One signal, with what the VPN answers at that time.
unfoldable pub socks_signal : Socks → Vpn → Output → Wired → Wired
unfolding socks_up socks_down
socks_signal s v (interface_up iface) w = socks_up s v.forwarded_port w
socks_signal s v (interface_down deliberate) w = socks_down deliberate w
socks_signal s v forwarded_port_changed w =
    if state_of connected v
    then record w { session = record w.session { announce_port = v.forwarded_port } }
    else w
socks_signal s v _ w = w

unfoldable pub resync : Socks → Vpn → Wired → Wired
unfolding send_proxy announce
resync s v w =
    if state_of connected v && ltb_ℤ (pos 0) s.port
    then announce v.forwarded_port (send_proxy s.port s.user s.pass w)
    else send_proxy
        (if w.settings.vpn_hold && or_else w.settings.kill_switch true then pos 1 else pos 0) [] []
        w

-- At the start: `known` is whether the profile used last is still there. The answer is whether the
-- VPN is to be connected.
unfoldable pub socks_start : (known is_real : Bool) → Wired → Wired × Bool
unfolding send_proxy
socks_start known is_real w =
    if w.settings.vpn_hold && (not known || not is_real)
    then (hold false (send_proxy (pos 0) [] [] w), false)
    else (w, known && is_real && (w.settings.vpn_hold || w.settings.auto_connect))

abbrev pub bind : Text → Wired → Wired
bind iface w = record {
  settings = record w.settings { outgoing_interface = iface };
  session = record w.session { bound_to = iface };
}

abbrev pub before_vpn : Option Text → Wired → Wired
before_vpn p w = record w { settings = record w.settings { pre_vpn_interface = p } }

unfoldable pub bound_up : Bool → Text → Wired → Wired
bound_up is_real iface w =
    if not is_real
    then w
    else bind iface (
        if is_some w.settings.pre_vpn_interface
        then w
        else before_vpn (some w.settings.outgoing_interface) w)

-- Back to the interface from before; without one there is nothing to undo.
unfoldable pub restore_interface : Wired → Wired
restore_interface w = elim w.settings.pre_vpn_interface [
  | none ↦ w
  | some p ↦ before_vpn none (bind p w)
]

unfoldable pub bound_down : Bool → Bool → Wired → Wired
unfolding restore_interface
bound_down is_real deliberate w =
    if not is_real || not deliberate && or_else w.settings.kill_switch false
    then w
    else restore_interface w

-- At the start, after the adoption of a running tunnel.
unfoldable pub bound_start : Bool → Vpn → Wired → Wired × Bool
unfolding restore_interface
bound_start is_real v w = (
  if not (state_of connected v) && not (or_else w.settings.kill_switch false)
      then restore_interface w
      else w,
  is_real && w.settings.auto_connect,
)
