-- ===== src/Vpn/Retry.antt =====
-- When the VPN tries again, and when it does not.
pub mod Run
use batorrent.Base.{
  &&-left, ==_iff, Bool, Text, [], arith, false, if_cases, if◌then◌else◌, inl, inr, is_empty,
  is_some, none, not, refl, some, subst, sym, true, ℕ, ◌&&◌, ◌==◌, ◌||◌, ◌∙◌, ◌≡◌, ◌≢◌, ◌⊎◌,
}
use batorrent.Vpn.Manager.{
  VpnState, Vpn, state_changed, retry_changed, vpn_rank, state_of, output, set_vpn_state,
  stop_retry, save_active_tunnel, clear_active_tunnel, connect_read, on_failed, on_disconnected,
  on_connected, schedule_retry, connected, disconnected, Configs, connecting, ConfRead,
  tunnel_failed, failed, tunnel_down, interface_down, interface_up, on_retry_timeout,
  connect_profile, disconnect_vpn, profile_index, connect_last_used, fail_with, unknown_profile,
}

-- What the helpers make of a state, one case for each branch.
module _ {ℓ} (P : Vpn → Type ℓ) where
  pub set_vpn_state_lem :
      (s : VpnState) (v : Vpn)
      → (state_of s v ≡ true → P v)
      → P (output state_changed (record v { state = s }))
      → P (set_vpn_state s v)
  unfolding set_vpn_state
  set_vpn_state_lem s v same new =
      if_cases P (state_of s v) {x = v} {y = output state_changed (record v { state = s })} same
        (λ _. new)

  pub stop_retry_lem :
      (v : Vpn)
      → (v.retry_at == 0 && not v.retry_timer ≡ true → P v)
      → P (output retry_changed (record v { retry_timer = false; tick = false; retry_at = 0 }))
      → P (stop_retry v)
  unfolding stop_retry
  stop_retry_lem v idle new =
      if_cases P (v.retry_at == 0 && not v.retry_timer) {x = v}
        {y = output retry_changed (record v { retry_timer = false; tick = false; retry_at = 0 })}
        idle (λ _. new)

  pub save_active_tunnel_lem :
      (real : Bool) (i : Text) (v : Vpn)
      → P (record v {
        active = some (record { iface = i; conf = v.last_conf; profile = v.active_id });
      })
      → P v
      → P (save_active_tunnel real i v)
  unfolding save_active_tunnel
  save_active_tunnel_lem true i v p q = p
  save_active_tunnel_lem false i v p q = q

  pub clear_active_tunnel_lem :
      (real : Bool) (v : Vpn)
      → P (record v { active = none })
      → P v
      → P (clear_active_tunnel real v)
  unfolding clear_active_tunnel
  clear_active_tunnel_lem true v p q = p
  clear_active_tunnel_lem false v p q = q

-- A new try is due only for a tunnel that is to be kept up, and only while it is down.
abbrev pub RetryInv : Vpn → Type 0
RetryInv v =
    v.retry_timer ≡ true → (v.keep_up ≡ true) × (vpn_rank v.state ≢ 1) × (vpn_rank v.state ≢ 2)

-- The VPN is off for good: it is not coming up, is not kept up, and nothing is due.
abbrev pub Off : Vpn → Type 0
Off v = (v.keep_up ≡ false) × (v.retry_timer ≡ false) × (vpn_rank v.state ≢ 1)

idle_timer : (at : ℕ) (timer : Bool) → at == 0 && not timer ≡ true → timer ≡ false
idle_timer at timer h = ground arith

false≢true : {b : Bool} → b ≡ false → b ≡ true → ⊥
false≢true h k = cc

-- No timer, no try: what stopping makes of any state.
stopped : (v : Vpn) → (stop_retry v).retry_timer ≡ false
stopped v =
    stop_retry_lem (λ (x : Vpn). x.retry_timer ≡ false) v (idle_timer v.retry_at v.retry_timer) refl

-- Setting the state changes no other field that the invariants read.
pub set_vpn_state-timer : (s : VpnState) (v : Vpn) → (set_vpn_state s v).retry_timer ≡ v.retry_timer
set_vpn_state-timer s v =
    set_vpn_state_lem (λ (x : Vpn). x.retry_timer ≡ v.retry_timer) s v (λ _. refl) refl

pub set_vpn_state-keep : (s : VpnState) (v : Vpn) → (set_vpn_state s v).keep_up ≡ v.keep_up
set_vpn_state-keep s v = set_vpn_state_lem (λ (x : Vpn). x.keep_up ≡ v.keep_up) s v (λ _. refl) refl

pub set_vpn_state-state : (s : VpnState) (v : Vpn) → vpn_rank (set_vpn_state s v).state ≡ vpn_rank s
set_vpn_state-state s v =
    set_vpn_state_lem (λ (x : Vpn). vpn_rank x.state ≡ vpn_rank s) s v
      (λ h. (==_iff (vpn_rank v.state) (vpn_rank s)).0 h) refl

pub idle-RetryInv : (v : Vpn) → v.retry_timer ≡ false → RetryInv v
idle-RetryInv v h e = absurd (false≢true h e)

pub on_connected-RetryInv :
    (real : Bool) (i : Text) (v : Vpn) → RetryInv v → RetryInv (on_connected real i v)
unfolding on_connected
on_connected-RetryInv real i v inv =
    let up : Vpn = record v { iface = i; keep_up = true; retries = 0 } in
    let x = set_vpn_state connected (stop_retry up) in
    let idle : x.retry_timer ≡ false = set_vpn_state-timer connected (stop_retry up) ∙ stopped up in
    if_cases RetryInv (not (state_of connecting v)) {x = output tunnel_down v}
      {y = output (interface_up i) (save_active_tunnel real i x)} (λ _. inv)
      (λ _.
        idle-RetryInv (output (interface_up i) (save_active_tunnel real i x))
          (save_active_tunnel_lem (λ (y : Vpn). y.retry_timer ≡ false) real i x idle idle))

-- What on_disconnected and on_failed come to, for the fields that matter here.
abbrev pub Ends : VpnState → Vpn → Vpn → Type 0
Ends s v x =
    (x.keep_up ≡ v.keep_up) × (x.retry_timer ≡ v.retry_timer) × (vpn_rank x.state ≡ vpn_rank s)

ended :
    (real : Bool) (s : VpnState) (v : Vpn) → Ends s v (clear_active_tunnel real (set_vpn_state s v))
ended real s v =
    let e : Ends s v (set_vpn_state s v) =
      (set_vpn_state-keep s v, set_vpn_state-timer s v, set_vpn_state-state s v) in
    clear_active_tunnel_lem (Ends s v) real (set_vpn_state s v) e e

pub on_disconnected-Ends : (real : Bool) (v : Vpn) → Ends disconnected v (on_disconnected real v)
unfolding on_disconnected
on_disconnected-Ends real v = ended real disconnected (record v { iface = [] })

pub down-RetryInv :
    (s : VpnState) (v x : Vpn)
    → (vpn_rank s ≢ 1)
    → (vpn_rank s ≢ 2)
    → Ends s v x
    → (v.retry_timer ≡ true → v.keep_up ≡ true)
    → RetryInv x
down-RetryInv s v x a b e k t = (e.0 ∙ k (sym e.1 ∙ t), λ q. a (sym e.2 ∙ q), λ q. b (sym e.2 ∙ q))

pub on_failed-RetryInv :
    (real final : Bool) (now : ℕ) (why : Text) (v : Vpn)
    → RetryInv v
    → RetryInv (on_failed real final now why v)
unfolding on_failed schedule_retry
on_failed-RetryInv real final now why v inv =
    let d : Vpn = record v { error = tunnel_failed why; iface = [] } in
    if_cases
      (λ (e : Vpn). RetryInv (
        output (interface_down false)
          (record (clear_active_tunnel real (set_vpn_state failed e)) { user_down = false })))
      (v.keep_up && not final) {x = schedule_retry now d} {y = d}
      (λ h.
        down-RetryInv failed (schedule_retry now d)
          (clear_active_tunnel real (set_vpn_state failed (schedule_retry now d)))
          (λ q. omega (arith, q)) (λ q. omega (arith, q)) (ended real failed (schedule_retry now d))
          (λ _. &&-left v.keep_up (not final) h))
      (λ _.
        down-RetryInv failed d (clear_active_tunnel real (set_vpn_state failed d))
          (λ q. omega (arith, q)) (λ q. omega (arith, q)) (ended real failed d) (λ t. (inv t).0))

connect_read-timer :
    (env : Configs) (id : Text) (c : ConfRead) (v : Vpn)
    → (connect_read env id c v).retry_timer ≡ v.retry_timer
unfolding connect_read
connect_read-timer env id ConfRead.cannot_open v = set_vpn_state-timer failed _
connect_read-timer env id (ConfRead.invalid why) v = set_vpn_state-timer failed _
connect_read-timer env id (ConfRead.valid endpoint) v = set_vpn_state-timer connecting _

-- Connecting leaves no try due, unless it is refused because the VPN is up already.
connect_profile-timer :
    (env : Configs) (id : Text) (v : Vpn)
    → ((connect_profile env id v) ≡ v) ⊎ ((connect_profile env id v).retry_timer ≡ false)
unfolding connect_profile
connect_profile-timer env id v =
    let d : Vpn = record (stop_retry v) { retry_id = id } in
    let refused = fail_with unknown_profile d in
    let read = connect_read env id (env.conf_of id) d in
    if_cases (λ (x : Vpn). (x ≡ v) ⊎ (x.retry_timer ≡ false))
      (state_of connecting v || state_of connected v) {x = v}
      {y = if not (is_some (profile_index id v.profiles)) then refused else read} (λ _. inl refl)
      (λ _. inr (
        if_cases (λ (x : Vpn). x.retry_timer ≡ false) (not (is_some (profile_index id v.profiles)))
          {x = refused} {y = read}
          (λ _. set_vpn_state-timer failed (record d { error = unknown_profile }) ∙ stopped v)
          (λ _. connect_read-timer env id (env.conf_of id) d ∙ stopped v)))

pub connect_profile-RetryInv :
    (env : Configs) (id : Text) (v : Vpn) → RetryInv v → RetryInv (connect_profile env id v)
connect_profile-RetryInv env id v inv = elim (connect_profile-timer env id v) [
  | inl e ↦ subst RetryInv (sym e) inv
  | inr t ↦ idle-RetryInv (connect_profile env id v) t
]

-- The state in which the timer's slot looks at the VPN.
abbrev pub fired : Vpn → Vpn
fired v = output retry_changed (record v { retry_timer = false; tick = false; retry_at = 0 })

abbrev pub due : Vpn → Bool
due v =
    v.keep_up
    && (state_of failed v || state_of disconnected v)
    && is_some (profile_index v.retry_id v.profiles)

pub on_retry_timeout-RetryInv : (env : Configs) (v : Vpn) → RetryInv (on_retry_timeout env v)
unfolding on_retry_timeout
on_retry_timeout-RetryInv env v =
    let idle = idle-RetryInv (fired v) refl in
    if_cases RetryInv (due v) {x = connect_profile env v.retry_id (fired v)} {y = fired v}
      (λ _. connect_profile-RetryInv env v.retry_id (fired v) idle) (λ _. idle)

pub connect_last_used-RetryInv :
    (env : Configs) (v : Vpn) → RetryInv v → RetryInv (connect_last_used env v)
unfolding connect_last_used
connect_last_used-RetryInv env v inv =
    if_cases RetryInv
      (is_empty v.last_profile || not (is_some (profile_index v.last_profile v.profiles))) {x = v}
      {y = connect_profile env v.last_profile (record v { keep_up = true })} (λ _. inv)
      (λ _.
        connect_profile-RetryInv env v.last_profile (record v { keep_up = true })
          (λ t. (refl, (inv t).1, (inv t).2)))

-- What disconnecting comes to when the VPN is not on its way up.
pub disconnect_vpn-Off : (v : Vpn) → vpn_rank v.state ≢ 1 → Off (disconnect_vpn v)
unfolding disconnect_vpn
disconnect_vpn-Off v h =
    let c : Vpn = record v { keep_up = false; retries = 0 } in
    let d = stop_retry c in
    let e = output tunnel_down (record d { active_id = []; user_down = true }) in
    let down = set_vpn_state disconnected (record e { iface = [] }) in
    let off : Off d =
      stop_retry_lem Off c (λ q. (refl, idle_timer v.retry_at v.retry_timer q, h))
        (refl, refl, h) in
    if_cases Off (state_of disconnected v) {x = d}
      {y = if state_of failed v then output (interface_down true) down else e} (λ _. off)
      (λ _.
        if_cases Off (state_of failed v) {x = output (interface_down true) down} {y = e}
          (λ _. (
            set_vpn_state-keep disconnected (record e { iface = [] }) ∙ off.0,
            set_vpn_state-timer disconnected (record e { iface = [] }) ∙ off.1,
            λ q. omega (arith, q, set_vpn_state-state disconnected (record e { iface = [] })),
          ))
          (λ _. off))

pub disconnect_vpn-timer : (v : Vpn) → (disconnect_vpn v).retry_timer ≡ false
unfolding disconnect_vpn
disconnect_vpn-timer v =
    let d = stop_retry (record v { keep_up = false; retries = 0 }) in
    let e = output tunnel_down (record d { active_id = []; user_down = true }) in
    let down = set_vpn_state disconnected (record e { iface = [] }) in
    let idle : d.retry_timer ≡ false = stopped (record v { keep_up = false; retries = 0 }) in
    if_cases Idle (state_of disconnected v) {x = d}
      {y = if state_of failed v then output (interface_down true) down else e} (λ _. idle)
      (λ _.
        if_cases Idle (state_of failed v) {x = output (interface_down true) down} {y = e}
          (λ _. set_vpn_state-timer disconnected (record e { iface = [] }) ∙ idle) (λ _. idle))
  where
    Idle : Vpn → Type 0
    Idle x = x.retry_timer ≡ false
