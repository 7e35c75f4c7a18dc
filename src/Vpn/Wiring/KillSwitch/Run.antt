-- ===== src/Vpn/Wiring/KillSwitch/Run.antt =====
-- The runs of the VPN with its wiring in which the user does not disconnect.
use batorrent.Base.{
  &&-right, Bool, List, Text, [], arith, false, if_cases, if◌then◌else◌, inl, inr, leb_ℤ, ltb_ℤ,
  not, pos, refl, true, ℕ, ℤ, ◌&&◌, ◌<ℤ◌, ◌==◌, ◌∷◌, ◌≡◌,
}
use batorrent.Vpn.Manager.{
  Vpn, Output, state_changed, profiles_changed, retry_changed, tunnel_up, tunnel_down, interface_up,
  interface_down, forwarded_port_changed, connecting, connected, state_of, output, Configs,
  set_vpn_state, stop_retry, save_active_tunnel, on_connected, on_disconnected, on_failed,
  on_forwarded_port, connect_profile, on_retry_timeout, connect_last_used, vpn_rank,
}
use batorrent.Vpn.Quiet.{
  IsQuiet, on_connected-IsQuiet, on_disconnected-IsQuiet, on_failed-IsQuiet,
  on_forwarded_port-IsQuiet, connect_profile-IsQuiet, on_retry_timeout-IsQuiet,
  connect_last_used-IsQuiet,
}
use batorrent.Vpn.Wiring.{
  Wired, Socks, or_else, hold, announce, send_proxy, socks_up, socks_down, socks_signal, resync,
}
use batorrent.Vpn.Wiring.KillSwitch.{
  KillOn, IsHeld, wire_all, App, silent, dispatch, announce-IsHeld, socks_up-holds, wire_all-IsHeld,
}

-- The calls that do not disconnect: of the tunnel, the timer and the user.
pub data Stays : (Vpn → Vpn) → Type 0 where
  comes_up : (real : Bool) (i : Text) → Stays (on_connected real i)
  goes_down : (real : Bool) → Stays (on_disconnected real)
  fails : (real final : Bool) (now : ℕ) (why : Text) → Stays (on_failed real final now why)
  forwards : (port : ℤ) → Stays (on_forwarded_port port)
  fires : (env : Configs) → Stays (on_retry_timeout env)
  connects : (env : Configs) (id : Text) → Stays (connect_profile env id)
  reconnects : (env : Configs) → Stays (connect_last_used env)

Stays-IsQuiet : {f : Vpn → Vpn} → Stays f → (v : Vpn) → IsQuiet v → IsQuiet (f v)
Stays-IsQuiet (comes_up real i) v q = on_connected-IsQuiet real i v q
Stays-IsQuiet (goes_down real) v q = on_disconnected-IsQuiet real v q
Stays-IsQuiet (fails real final now why) v q = on_failed-IsQuiet real final now why v q
Stays-IsQuiet (forwards port) v q = on_forwarded_port-IsQuiet port v q
Stays-IsQuiet (fires env) v q = on_retry_timeout-IsQuiet env v q
Stays-IsQuiet (connects env id) v q = connect_profile-IsQuiet env id v q
Stays-IsQuiet (reconnects env) v q = connect_last_used-IsQuiet env v q

-- No signal changes the kill switch.
socks_up-KillOn : (s : Socks) (f : ℤ) (w : Wired) → KillOn w → KillOn (socks_up s f w)
unfolding socks_up announce send_proxy
socks_up-KillOn s f w k =
    if_cases KillOn (leb_ℤ s.port (pos 0)) {x = w}
      {y = hold true (announce f (send_proxy s.port s.user s.pass w))} (λ _. k)
      (λ _.
        if_cases (λ (x : Wired). KillOn (hold true x)) (ltb_ℤ (pos 0) f)
          {x = record (send_proxy s.port s.user s.pass w) {
            session = record (send_proxy s.port s.user s.pass w).session { announce_port = f };
          }}
          {y = send_proxy s.port s.user s.pass w} (λ _. k) (λ _. k))

socks_signal-KillOn :
    (s : Socks) (v : Vpn) (o : Output) (w : Wired) → KillOn w → KillOn (socks_signal s v o w)
unfolding socks_signal socks_down send_proxy
socks_signal-KillOn s v (interface_up i) w k = socks_up-KillOn s v.forwarded_port w k
socks_signal-KillOn s v (interface_down deliberate) w k =
    if_cases KillOn (not deliberate && or_else w.settings.kill_switch true)
      {x = send_proxy (pos 1) [] [] w} {y = hold false (send_proxy (pos 0) [] [] w)} (λ _. k)
      (λ _. k)
socks_signal-KillOn s v forwarded_port_changed w k =
    if_cases KillOn (state_of connected v)
      {x = record w { session = record w.session { announce_port = v.forwarded_port } }} {y = w}
      (λ _. k) (λ _. k)
socks_signal-KillOn s v state_changed w k = k
socks_signal-KillOn s v profiles_changed w k = k
socks_signal-KillOn s v retry_changed w k = k
socks_signal-KillOn s v (tunnel_up c) w k = k
socks_signal-KillOn s v tunnel_down w k = k

wire_all-KillOn :
    (s : Socks) (v : Vpn) (os : List Output) (w : Wired) → KillOn w → KillOn (wire_all s v os w)
unfolding wire_all
wire_all-KillOn s v [] w k = k
wire_all-KillOn s v (o ∷ os) w k =
    socks_signal-KillOn s v o (wire_all s v os w) (wire_all-KillOn s v os w k)

module _ (Answered : Socks → Type 0) where
  -- One call, with what socks() answers at the time, or the engine that has started anew.
  pub data Step : App → App → Type 0 where
    calls :
        (s : Socks) → Answered s → {f : Vpn → Vpn} → Stays f → (a : App) → Step a (dispatch s f a)
    resyncs : (s : Socks) → Answered s → (v : Vpn) (w : Wired) → Step (v, w) (v, resync s v w)

  pub data Reach (a : App) : App → Type 0 where
    here : Reach a a
    next : {x y : App} → Reach a x → Step x y → Reach a y

  -- No request of the user is under way, and the traffic is held.
  abbrev Guarded : App → Type 0
  Guarded a = (a.0.user_down ≡ false) × IsHeld Answered a.1

  resync-IsHeld :
      (s : Socks) (v : Vpn) (w : Wired)
      → Answered s
      → IsHeld Answered w
      → IsHeld Answered (resync s v w)
  unfolding resync send_proxy
  resync-IsHeld s v w o h =
      if_cases (IsHeld Answered) (state_of connected v && ltb_ℤ (pos 0) s.port)
        {x = announce v.forwarded_port (send_proxy s.port s.user s.pass w)}
        {y = send_proxy
          (if w.settings.vpn_hold && or_else w.settings.kill_switch true then pos 1 else pos 0) []
          [] w}
        (λ q.
          let real = real_port s.port (&&-right (state_of connected v) (ltb_ℤ (pos 0) s.port) q) in
          announce-IsHeld Answered v.forwarded_port (send_proxy s.port s.user s.pass w)
            (h.0, inr (s, o, real, refl, refl, refl), h.2))
        (λ _. (h.0, inl (rw (h.0, h.2) refl), h.2))
    where
      real_port : (p : ℤ) → ltb_ℤ (pos 0) p ≡ true → leb_ℤ p (pos 0) ≡ false
      real_port p h = ground arith

  Step-Guarded : {a b : App} → Step a b → Guarded a → Guarded b
  unfolding dispatch
  Step-Guarded (calls s o {f} c a) (u, h) =
      let x = f (silent a.0) in
      let q = Stays-IsQuiet c (silent a.0) (u, tt) in
      (q.0, wire_all-IsHeld Answered s x x.outputs a.1 o q.1 h)
  Step-Guarded (resyncs s o v w) (u, h) = (u, resync-IsHeld s v w o h)

  Reach-Guarded : {a b : App} → Guarded a → Reach a b → Guarded b
  Reach-Guarded g here = g
  Reach-Guarded g (next r s) = Step-Guarded s (Reach-Guarded g r)

  comes_up-Guarded :
      (s : Socks) (real : Bool) (i : Text) (v : Vpn) (w : Wired)
      → vpn_rank v.state ≡ 1
      → v.user_down ≡ false
      → KillOn w
      → pos 0 <ℤ s.port
      → Answered s
      → Guarded (dispatch s (on_connected real i) (v, w))
  unfolding dispatch on_connected wire_all socks_signal
  comes_up-Guarded s real i v w k u o p a =
      let up : Vpn = record (silent v) { iface = i; keep_up = true; retries = 0 } in
      let x = set_vpn_state connected (stop_retry up) in
      let y = save_active_tunnel real i x in
      let said = output (interface_up i) y in
      let calm = (on_connected-IsQuiet real i (silent v) (u, tt)).0 in
      if_cases (λ (z : Vpn). z.user_down ≡ false → Guarded (z, wire_all s z z.outputs w))
        (not (state_of connecting (silent v))) {x = output tunnel_down (silent v)} {y = said}
        (λ q. absurd (going_up (vpn_rank v.state) k q))
        (λ _ e. (
          e,
          socks_up-holds Answered s said.forwarded_port (wire_all s said y.outputs w) a
              (wire_all-KillOn s said y.outputs w o) (positive s.port p),
        ))
        calm
    where
      going_up : (a : ℕ) → a ≡ 1 → not (a == 1) ≡ true → ⊥
      going_up a h k = ground arith

      positive : (p : ℤ) → pos 0 <ℤ p → leb_ℤ p (pos 0) ≡ false
      positive p h = ground arith

  -- When a tunnel with a port comes up for a VPN that was connecting, the traffic is held from then
  -- on, as long as the kill switch stays on: after any sequence of drops, failures, retries, new
  -- connections, forwarded ports and restarts of the engine, and as long as the user does not
  -- disconnect, the session's proxy is at port 1, where there is none, or is one that socks()
  -- answered, with its port, user and password and a port above 0; that the traffic is held stays
  -- noted in the settings, and the kill switch stays on.
  pub kill_switch-IsHeld :
      (s : Socks) (real : Bool) (i : Text) (v : Vpn) (w : Wired) {b : App}
      → vpn_rank v.state ≡ 1
      → v.user_down ≡ false
      → KillOn w
      → pos 0 <ℤ s.port
      → Answered s
      → Reach (dispatch s (on_connected real i) (v, w)) b
      → IsHeld Answered b.1
  kill_switch-IsHeld s real i v w k u o p a r =
      (Reach-Guarded (comes_up-Guarded s real i v w k u o p a) r).1
