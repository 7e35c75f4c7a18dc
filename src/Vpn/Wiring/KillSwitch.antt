-- ===== src/Vpn/Wiring/KillSwitch.antt =====
-- src/app/vpnwiring.cpp: the handlers for a SOCKS tunnel with the kill switch on.
pub mod Run
use batorrent.Base.{
  All, Bool, Bool-cases, List, [], arith, false, if_cases, inl, inr, leb_ℤ, ltb_ℤ, not, pos, refl,
  subst, sym, true, ℤ, ◌&&◌, ◌∙◌, ◌∷◌, ◌≡◌, ◌⊎◌,
}
use batorrent.Vpn.Manager.{
  Vpn, Output, state_changed, profiles_changed, retry_changed, tunnel_up, tunnel_down, interface_up,
  interface_down, forwarded_port_changed, connecting, connected, state_of, output, Configs,
  set_vpn_state, stop_retry, save_active_tunnel, on_connected, on_disconnected, on_failed,
  on_forwarded_port, connect_profile, on_retry_timeout, connect_last_used, vpn_rank,
}
use batorrent.Vpn.Quiet.{
  IsDrop, IsQuiet, on_connected-IsQuiet, on_disconnected-IsQuiet, on_failed-IsQuiet,
  on_forwarded_port-IsQuiet, connect_profile-IsQuiet, on_retry_timeout-IsQuiet,
  connect_last_used-IsQuiet,
}
use batorrent.Vpn.Wiring.{
  Wired, Socks, or_else, hold, announce, send_proxy, socks_up, socks_down, socks_signal, resync,
}

-- The kill switch is on: it is not set, or set to on.
abbrev pub KillOn : Wired → Type 0
KillOn w = or_else w.settings.kill_switch true ≡ true

-- What is sent goes to the proxy of a tunnel: one that socks() answered, with a port.
abbrev pub OwnProxy : (Socks → Type 0) → Wired → Type 0
OwnProxy Answered w =
    (s : Socks) × Answered s
    × (leb_ℤ s.port (pos 0) ≡ false)
    × (w.session.proxy_port ≡ s.port)
    × (w.session.proxy_user ≡ s.user)
    × (w.session.proxy_pass ≡ s.pass)

-- The traffic is held: it goes to the port 1, where no proxy is, or to one that socks() answered.
abbrev pub IsHeld : (Socks → Type 0) → Wired → Type 0
IsHeld Answered w =
    (w.settings.vpn_hold ≡ true) × ((w.session.proxy_port ≡ pos 1) ⊎ OwnProxy Answered w) × KillOn w

-- The VPN and the wiring after the signals since `outputs` was empty, oldest first.
unfoldable pub wire_all : Socks → Vpn → List Output → Wired → Wired
unfolding socks_signal
wire_all s v [] w = w
wire_all s v (o ∷ os) w = socks_signal s v o (wire_all s v os w)

-- A call of the VPN with the handlers that its signals reach.
abbrev pub App : Type 0
App = Vpn × Wired

abbrev pub silent : Vpn → Vpn
silent v = record v { outputs = [] }

unfoldable pub dispatch : Socks → (Vpn → Vpn) → App → App
unfolding wire_all
dispatch s f (v, w) = let x = f (silent v) in (x, wire_all s x x.outputs w)

module _ (Answered : Socks → Type 0) where
  pub announce-IsHeld : (p : ℤ) (w : Wired) → IsHeld Answered w → IsHeld Answered (announce p w)
  unfolding announce
  announce-IsHeld p w h =
      if_cases (IsHeld Answered) (ltb_ℤ (pos 0) p)
        {x = record w { session = record w.session { announce_port = p } }} {y = w} (λ _. h)
        (λ _. h)

  -- With a port to send it to, a tunnel that has come up holds the traffic.
  pub socks_up-holds :
      (s : Socks) (f : ℤ) (w : Wired)
      → Answered s
      → KillOn w
      → leb_ℤ s.port (pos 0) ≡ false
      → IsHeld Answered (socks_up s f w)
  unfolding socks_up announce send_proxy
  socks_up-holds s f w o k h =
      if_cases (IsHeld Answered) (leb_ℤ s.port (pos 0)) {x = w}
        {y = hold true (announce f (send_proxy s.port s.user s.pass w))}
        (λ q. let both = sym h ∙ q in cc)
        (λ _.
          if_cases (λ (x : Wired). IsHeld Answered (hold true x)) (ltb_ℤ (pos 0) f)
            {x = record (send_proxy s.port s.user s.pass w) {
              session = record (send_proxy s.port s.user s.pass w).session { announce_port = f };
            }}
            {y = send_proxy s.port s.user s.pass w}
            (λ _. (refl, inr (s, o, h, refl, refl, refl), k))
            (λ _. (refl, inr (s, o, h, refl, refl, refl), k)))

  socks_up-IsHeld :
      (s : Socks) (f : ℤ) (w : Wired)
      → Answered s
      → IsHeld Answered w
      → IsHeld Answered (socks_up s f w)
  socks_up-IsHeld s f w o h = elim (Bool-cases (leb_ℤ s.port (pos 0))) [
    | inl e ↦ subst (IsHeld Answered) (sym (skipped e)) h
    | inr e ↦ socks_up-holds s f w o h.2 e
  ]
    where
      skipped : leb_ℤ s.port (pos 0) ≡ true → socks_up s f w ≡ w
      skipped e = unfold socks_up in rw e refl

  socks_signal-IsHeld :
      (s : Socks) (v : Vpn) (o : Output) (w : Wired)
      → Answered s
      → IsDrop o
      → IsHeld Answered w
      → IsHeld Answered (socks_signal s v o w)
  unfolding socks_signal socks_down send_proxy
  socks_signal-IsHeld s v (interface_up i) w a d h = socks_up-IsHeld s v.forwarded_port w a h
  socks_signal-IsHeld s v (interface_down deliberate) w a d h =
      if_cases (IsHeld Answered) (not deliberate && or_else w.settings.kill_switch true)
        {x = send_proxy (pos 1) [] [] w} {y = hold false (send_proxy (pos 0) [] [] w)}
        (λ _. (h.0, inl refl, h.2))
        (λ q. absurd (killed deliberate (or_else w.settings.kill_switch true) d h.2 q))
    where
      killed : (a b : Bool) → a ≡ false → b ≡ true → not a && b ≡ false → ⊥
      killed a b h k q = ground arith
  socks_signal-IsHeld s v forwarded_port_changed w a d h =
      if_cases (IsHeld Answered) (state_of connected v)
        {x = record w { session = record w.session { announce_port = v.forwarded_port } }} {y = w}
        (λ _. h) (λ _. h)
  socks_signal-IsHeld s v state_changed w a d h = h
  socks_signal-IsHeld s v profiles_changed w a d h = h
  socks_signal-IsHeld s v retry_changed w a d h = h
  socks_signal-IsHeld s v (tunnel_up c) w a d h = h
  socks_signal-IsHeld s v tunnel_down w a d h = h

  pub wire_all-IsHeld :
      (s : Socks) (v : Vpn) (os : List Output) (w : Wired)
      → Answered s
      → All IsDrop os
      → IsHeld Answered w
      → IsHeld Answered (wire_all s v os w)
  unfolding wire_all
  wire_all-IsHeld s v [] w a d h = h
  wire_all-IsHeld s v (o ∷ os) w a d h =
      socks_signal-IsHeld s v o (wire_all s v os w) a d.0 (wire_all-IsHeld s v os w a d.1 h)
