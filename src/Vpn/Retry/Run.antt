-- ===== src/Vpn/Retry/Run.antt =====
-- The runs of the VPN: the calls of the user, the answers of the tunnel, and the timer.
use batorrent.Base.{
  ==_iff, Bool, List, Text, [], arith, eq_ℤ, false, if_cases, if◌then◌else◌, is_some, not, refl,
  suc, true, ℕ, ℤ, ◌&&◌, ◌==◌, ◌||◌, ◌∷◌, ◌≡◌, ◌≢◌,
}
use batorrent.Vpn.Manager.{
  VpnState, Vpn, Output, tunnel_up, tunnel_down, interface_up, interface_down,
  forwarded_port_changed, disconnected, failed, connecting, connected, tunnel_failed, vpn_rank,
  state_of, output, Configs, profile_index, set_vpn_state, stop_retry, schedule_retry,
  clear_active_tunnel, save_active_tunnel, on_connected, on_disconnected, on_failed,
  on_forwarded_port, connect_profile, on_retry_timeout, connect_last_used, disconnect_vpn,
}
use batorrent.Vpn.Retry.{
  RetryInv, Off, on_connected-RetryInv, on_failed-RetryInv, connect_profile-RetryInv,
  on_retry_timeout-RetryInv, connect_last_used-RetryInv, disconnect_vpn-Off, disconnect_vpn-timer,
  idle-RetryInv, on_disconnected-Ends, down-RetryInv, due, fired, set_vpn_state_lem,
  clear_active_tunnel_lem, stop_retry_lem, save_active_tunnel_lem,
}

-- What the tunnel and the timer do; the timer fires only while it runs.
pub data Answer : Vpn → Vpn → Type 0 where
  comes_up : (real : Bool) (i : Text) (v : Vpn) → Answer v (on_connected real i v)
  goes_down : (real : Bool) (v : Vpn) → Answer v (on_disconnected real v)
  fails :
      (real final : Bool) (now : ℕ) (why : Text) (v : Vpn)
      → Answer v (on_failed real final now why v)
  forwards : (port : ℤ) (v : Vpn) → Answer v (on_forwarded_port port v)
  fires : (env : Configs) (v : Vpn) → v.retry_timer ≡ true → Answer v (on_retry_timeout env v)

-- What the user does.
pub data Call : Vpn → Vpn → Type 0 where
  connects : (env : Configs) (id : Text) (v : Vpn) → Call v (connect_profile env id v)
  reconnects : (env : Configs) (v : Vpn) → Call v (connect_last_used env v)
  disconnects : (v : Vpn) → Call v (disconnect_vpn v)

pub data Answers (v : Vpn) : Vpn → Type 0 where
  none_given : Answers v v
  answered : {x y : Vpn} → Answers v x → Answer x y → Answers v y

pub data Run (v : Vpn) : Vpn → Type 0 where
  at_rest : Run v v
  answer : {x y : Vpn} → Run v x → Answer x y → Run v y
  call : {x y : Vpn} → Run v x → Call x y → Run v y

Answer-RetryInv : {x y : Vpn} → Answer x y → RetryInv x → RetryInv y
unfolding on_forwarded_port
Answer-RetryInv (comes_up real i v) inv = on_connected-RetryInv real i v inv
Answer-RetryInv (goes_down real v) inv =
    down-RetryInv disconnected v (on_disconnected real v) (λ q. omega (arith, q))
      (λ q. omega (arith, q)) (on_disconnected-Ends real v) (λ t. (inv t).0)
Answer-RetryInv (fails real final now why v) inv = on_failed-RetryInv real final now why v inv
Answer-RetryInv (forwards port v) inv =
    if_cases RetryInv (eq_ℤ v.forwarded_port port) {x = v}
      {y = output forwarded_port_changed (record v { forwarded_port = port })} (λ _. inv) (λ _. inv)
Answer-RetryInv (fires env v t) inv = on_retry_timeout-RetryInv env v

Call-RetryInv : {x y : Vpn} → Call x y → RetryInv x → RetryInv y
Call-RetryInv (connects env id v) inv = connect_profile-RetryInv env id v inv
Call-RetryInv (reconnects env v) inv = connect_last_used-RetryInv env v inv
Call-RetryInv (disconnects v) inv = idle-RetryInv (disconnect_vpn v) (disconnect_vpn-timer v)

-- After any sequence of connecting, disconnecting, answers of the tunnel and firings of the timer, a
-- new try is due only if the VPN is to be kept up and is neither connecting nor connected, as long
-- as this was so before.
pub Run-RetryInv : {v w : Vpn} → RetryInv v → Run v w → RetryInv w
Run-RetryInv inv at_rest = inv
Run-RetryInv inv (answer r a) = Answer-RetryInv a (Run-RetryInv inv r)
Run-RetryInv inv (call r c) = Call-RetryInv c (Run-RetryInv inv r)

-- How often the tunnel has been asked to come up.
abbrev pub ups : List Output → ℕ
ups [] = 0
ups (tunnel_up conf ∷ os) = suc (ups os)
ups (o ∷ os) = ups os

-- The VPN is off, and the tunnel has been asked to come up `n` times.
abbrev OffAfter : ℕ → Vpn → Type 0
OffAfter n v = Off v × (ups v.outputs ≡ n)

set_vpn_state-OffAfter :
    (n : ℕ) (s : VpnState) (v : Vpn)
    → vpn_rank s ≢ 1
    → OffAfter n v
    → OffAfter n (set_vpn_state s v)
set_vpn_state-OffAfter n s v h o =
    set_vpn_state_lem (OffAfter n) s v (λ _. o) ((o.0.0, o.0.1, h), o.1)

not_both : (a b : Bool) → a ≡ false → a && b ≡ true → ⊥
not_both a b h k = ground arith

not_test : (a : ℕ) → a ≢ 1 → not (a == 1) ≡ false → ⊥
not_test a h k = ground arith

not_due : (a b c : Bool) → a ≡ false → a && b && c ≡ true → ⊥
not_due a b c h k = ground arith

Answer-OffAfter : (n : ℕ) {x y : Vpn} → Answer x y → OffAfter n x → OffAfter n y
unfolding on_connected on_disconnected on_failed on_forwarded_port on_retry_timeout
Answer-OffAfter n (comes_up real i v) o =
    if_cases (OffAfter n) (not (state_of connecting v)) {x = output tunnel_down v}
      {y = output (interface_up i) (
        save_active_tunnel real i (
          set_vpn_state connected
            (stop_retry (record v { iface = i; keep_up = true; retries = 0 }))))}
      (λ _. o) (λ h. absurd (not_test (vpn_rank v.state) o.0.2 h))
Answer-OffAfter n (goes_down real v) o =
    let d : Vpn = record v { iface = [] } in
    let p = set_vpn_state-OffAfter n disconnected d (λ q. omega (arith, q)) o in
    clear_active_tunnel_lem (OffAfter n) real (set_vpn_state disconnected d) p p
Answer-OffAfter n (fails real final now why v) o =
    let d : Vpn = record v { error = tunnel_failed why; iface = [] } in
    let p = set_vpn_state-OffAfter n failed d (λ q. omega (arith, q)) o in
    if_cases
      (λ (e : Vpn). OffAfter n (
        output (interface_down false)
          (record (clear_active_tunnel real (set_vpn_state failed e)) { user_down = false })))
      (v.keep_up && not final) {x = schedule_retry now d} {y = d}
      (λ h. absurd (not_both v.keep_up (not final) o.0.0 h))
      (λ _. clear_active_tunnel_lem (OffAfter n) real (set_vpn_state failed d) p p)
Answer-OffAfter n (forwards port v) o =
    if_cases (OffAfter n) (eq_ℤ v.forwarded_port port) {x = v}
      {y = output forwarded_port_changed (record v { forwarded_port = port })} (λ _. o) (λ _. o)
Answer-OffAfter n (fires env v t) o =
    if_cases (OffAfter n) (due v) {x = connect_profile env v.retry_id (fired v)} {y = fired v}
      (λ h. absurd (
        not_due v.keep_up (state_of failed v || state_of disconnected v)
          (is_some (profile_index v.retry_id v.profiles)) o.0.0 h))
      (λ _. ((o.0.0, refl, o.0.2), o.1))

Answers-OffAfter : (n : ℕ) {v w : Vpn} → OffAfter n v → Answers v w → OffAfter n w
Answers-OffAfter n o none_given = o
Answers-OffAfter n o (answered r a) = Answer-OffAfter n a (Answers-OffAfter n o r)

-- When the user disconnects a VPN that is not on its way up, no sequence of answers of the tunnel
-- and firings of the timer brings it back: it is not kept up, no try is due, it is not connecting,
-- and the tunnel is not asked to come up again.
pub disconnect_vpn_is_final :
    (v : Vpn) {w : Vpn}
    → vpn_rank v.state ≢ 1
    → Answers (disconnect_vpn v) w
    → Off w × (ups w.outputs ≡ ups (disconnect_vpn v).outputs)
disconnect_vpn_is_final v h r = Answers-OffAfter _ (disconnect_vpn-Off v h, refl) r

not_equal : (a b : ℕ) → a ≡ 1 → b ≢ 1 → a == b ≡ true → ⊥
not_equal a b h k e = ground arith

-- Disconnecting on the way up leaves the state to the tunnel's answer.
cancelled :
    (v : Vpn)
    → vpn_rank v.state ≡ 1
    → (vpn_rank (disconnect_vpn v).state ≡ 1) × ((disconnect_vpn v).user_down ≡ true)
unfolding disconnect_vpn
cancelled v h =
    let c : Vpn = record v { keep_up = false; retries = 0 } in
    let d = stop_retry c in
    let e = output tunnel_down (record d { active_id = []; user_down = true }) in
    let down = set_vpn_state disconnected (record e { iface = [] }) in
    let same : vpn_rank d.state ≡ 1 =
      stop_retry_lem (λ (x : Vpn). vpn_rank x.state ≡ 1) c (λ _. h) h in
    if_cases Waiting (state_of disconnected v) {x = d}
      {y = if state_of failed v then output (interface_down true) down else e}
      (λ q. absurd (not_equal (vpn_rank v.state) 0 h (λ k. omega (arith, k)) q))
      (λ _.
        if_cases Waiting (state_of failed v) {x = output (interface_down true) down} {y = e}
          (λ q. absurd (not_equal (vpn_rank v.state) 3 h (λ k. omega (arith, k)) q))
          (λ _. (same, refl)))
  where
    Waiting : Vpn → Type 0
    Waiting x = (vpn_rank x.state ≡ 1) × (x.user_down ≡ true)

-- When the user disconnects while the VPN is on its way up and the tunnel comes up after that, the
-- VPN is connected and is kept up from then on, with the wish to disconnect still noted.
pub connected_after_cancel :
    (real : Bool) (i : Text) (v : Vpn)
    → vpn_rank v.state ≡ 1
    → let w = on_connected real i (disconnect_vpn v) in
      (vpn_rank w.state ≡ 2) × (w.keep_up ≡ true) × (w.user_down ≡ true)
unfolding on_connected
connected_after_cancel real i v h =
    let d = disconnect_vpn v in
    let up : Vpn = record d { iface = i; keep_up = true; retries = 0 } in
    let stopped : (stop_retry up).keep_up ≡ true =
      stop_retry_lem (λ (x : Vpn). x.keep_up ≡ true) up (λ _. refl) refl in
    let noted : (stop_retry up).user_down ≡ true =
      stop_retry_lem (λ (x : Vpn). x.user_down ≡ true) up (λ _. (cancelled v h).1)
        (cancelled v h).1 in
    let x = set_vpn_state connected (stop_retry up) in
    let came : Came x =
      set_vpn_state_lem Came connected (stop_retry up)
        (λ q. ((==_iff (vpn_rank (stop_retry up).state) 2).0 q, stopped, noted))
        (refl, stopped, noted) in
    if_cases Came (not (state_of connecting d)) {x = output tunnel_down d}
      {y = output (interface_up i) (save_active_tunnel real i x)}
      (λ q. absurd (not_other (vpn_rank d.state) (cancelled v h).0 q))
      (λ _. save_active_tunnel_lem Came real i x came came)
  where
    Came : Vpn → Type 0
    Came y = (vpn_rank y.state ≡ 2) × (y.keep_up ≡ true) × (y.user_down ≡ true)

    not_other : (a : ℕ) → a ≡ 1 → not (a == 1) ≡ true → ⊥
    not_other a h k = ground arith
