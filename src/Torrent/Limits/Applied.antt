-- ===== src/Torrent/Limits/Applied.antt =====
-- src/torrent/sessionmanager_limits.cpp and sessionmanager_scheduler.cpp: the runs of the limits.
use batorrent.Base.{
  Bool, eq_ℤ, false, if_cases, if◌then◌else◌, not, pos, refl, subst, sym, true, ℕ, ℤ, ◌&&◌, ◌||◌,
  ◌∷◌, ◌≡◌,
}
use batorrent.Torrent.Limits.{
  Limits, rate_bytes, apply_limits, same_bool, set_download_limit, set_upload_limit,
  set_alt_speed_limits, set_scheduler_enabled, set_schedule, set_alt_speeds_active,
  in_bandwidth_schedule, check_bandwidth_schedule,
}

abbrev pub IsApplied : Limits → Type 0
IsApplied s =
    (s.applied_down ≡ rate_bytes (if s.alt_active then s.alt_down else s.normal_down))
    × (s.applied_up ≡ rate_bytes (if s.alt_active then s.alt_up else s.normal_up))

-- A call of the user, or of the timer that looks at the clock.
pub data Step : Limits → Limits → Type 0 where
  downloads : (kbps : ℤ) (s : Limits) → Step s (set_download_limit kbps s)
  uploads : (kbps : ℤ) (s : Limits) → Step s (set_upload_limit kbps s)
  alternates : (down up : ℤ) (s : Limits) → Step s (set_alt_speed_limits down up s)
  enables : (enabled : Bool) (s : Limits) → Step s (set_scheduler_enabled enabled s)
  schedules : (from to : ℤ) (days : ℕ) (s : Limits) → Step s (set_schedule from to days s)
  switches : (active : Bool) (s : Limits) → Step s (set_alt_speeds_active active s)
  checks : (weekday hour : ℤ) (s : Limits) → Step s (check_bandwidth_schedule weekday hour s)

pub data Reach (s : Limits) : Limits → Type 0 where
  here : Reach s s
  next : {x y : Limits} → Reach s x → Step x y → Reach s y

-- The limits of a mode that is known.
on_mode :
    (b c : Bool) (x y z : ℤ)
    → b ≡ c
    → x ≡ rate_bytes (if b then y else z)
    → x ≡ rate_bytes (if c then y else z)
on_mode b c x y z e h = subst (λ d. x ≡ rate_bytes (if d then y else z)) e h

set_download_limit-IsApplied :
    (k : ℤ) (s : Limits) → IsApplied s → IsApplied (set_download_limit k s)
unfolding set_download_limit
set_download_limit-IsApplied k s h =
    if_cases IsApplied s.alt_active {x = record s { normal_down = k }}
      {y = record s { normal_down = k; applied_down = rate_bytes k }}
      (λ e. (
        on_mode true s.alt_active s.applied_down s.alt_down k (sym e)
            (on_mode s.alt_active true s.applied_down s.alt_down s.normal_down e h.0),
        h.1,
      ))
      (λ e. (on_mode false s.alt_active (rate_bytes k) s.alt_down k (sym e) refl, h.1))

set_upload_limit-IsApplied : (k : ℤ) (s : Limits) → IsApplied s → IsApplied (set_upload_limit k s)
unfolding set_upload_limit
set_upload_limit-IsApplied k s h =
    if_cases IsApplied s.alt_active {x = record s { normal_up = k }}
      {y = record s { normal_up = k; applied_up = rate_bytes k }}
      (λ e. (
        h.0,
        on_mode true s.alt_active s.applied_up s.alt_up k (sym e)
            (on_mode s.alt_active true s.applied_up s.alt_up s.normal_up e h.1),
      ))
      (λ e. (h.0, on_mode false s.alt_active (rate_bytes k) s.alt_up k (sym e) refl))

set_alt_speed_limits-IsApplied :
    (d u : ℤ) (s : Limits) → IsApplied s → IsApplied (set_alt_speed_limits d u s)
unfolding set_alt_speed_limits
set_alt_speed_limits-IsApplied d u s h =
    let c : Limits = record s { alt_down = d; alt_up = u } in
    if_cases IsApplied s.alt_active {x = apply_limits d u c} {y = c}
      (λ e. (
        on_mode true s.alt_active (rate_bytes d) d s.normal_down (sym e) refl,
        on_mode true s.alt_active (rate_bytes u) u s.normal_up (sym e) refl,
      ))
      (λ e. (
        on_mode false s.alt_active s.applied_down d s.normal_down (sym e)
            (on_mode s.alt_active false s.applied_down s.alt_down s.normal_down e h.0),
        on_mode false s.alt_active s.applied_up u s.normal_up (sym e)
            (on_mode s.alt_active false s.applied_up s.alt_up s.normal_up e h.1),
      ))

set_scheduler_enabled-IsApplied :
    (b : Bool) (s : Limits) → IsApplied s → IsApplied (set_scheduler_enabled b s)
unfolding set_scheduler_enabled set_download_limit set_upload_limit
set_scheduler_enabled-IsApplied b s h =
    let d : Limits = record s { scheduler_enabled = b } in
    if_cases IsApplied (not b && s.alt_active)
      {x = set_upload_limit s.normal_up
        (set_download_limit s.normal_down (record d { alt_active = false }))}
      {y = d} (λ _. (refl, refl)) (λ _. h)

set_alt_speeds_active-IsApplied :
    (b : Bool) (s : Limits) → IsApplied s → IsApplied (set_alt_speeds_active b s)
unfolding set_alt_speeds_active
set_alt_speeds_active-IsApplied b s h =
    if_cases IsApplied (same_bool b s.alt_active) {x = s}
      {y = apply_limits (if b then s.alt_down else s.normal_down)
        (if b then s.alt_up else s.normal_up)
        (record s { alt_active = b; changes = b ∷ s.changes })}
      (λ _. h) (λ _. (refl, refl))

check_bandwidth_schedule-IsApplied :
    (w t : ℤ) (s : Limits) → IsApplied s → IsApplied (check_bandwidth_schedule w t s)
unfolding check_bandwidth_schedule
check_bandwidth_schedule-IsApplied w t s h =
    let inside = in_bandwidth_schedule w t s.days_mask s.from_hour s.to_hour in
    let on = apply_limits s.alt_down s.alt_up (record s { alt_active = true }) in
    let off = apply_limits s.normal_down s.normal_up (record s { alt_active = false }) in
    if_cases IsApplied (not s.scheduler_enabled || eq_ℤ s.alt_down (pos 0) && eq_ℤ s.alt_up (pos 0))
      {x = s}
      {y = if inside && not s.alt_active then on else if not inside && s.alt_active then off else s}
      (λ _. h)
      (λ _.
        if_cases IsApplied (inside && not s.alt_active) {x = on}
          {y = if not inside && s.alt_active then off else s} (λ _. (refl, refl))
          (λ _.
            if_cases IsApplied (not inside && s.alt_active) {x = off} {y = s} (λ _. (refl, refl))
              (λ _. h)))

Step-IsApplied : {x y : Limits} → Step x y → IsApplied x → IsApplied y
Step-IsApplied (downloads kbps s) h = set_download_limit-IsApplied kbps s h
Step-IsApplied (uploads kbps s) h = set_upload_limit-IsApplied kbps s h
Step-IsApplied (alternates down up s) h = set_alt_speed_limits-IsApplied down up s h
Step-IsApplied (enables enabled s) h = set_scheduler_enabled-IsApplied enabled s h
Step-IsApplied (schedules from to days s) h = h
Step-IsApplied (switches active s) h = set_alt_speeds_active-IsApplied active s h
Step-IsApplied (checks weekday hour s) h = check_bandwidth_schedule-IsApplied weekday hour s h

-- After any sequence of changes of the limits, of the schedule and of the mode, and of looks at the
-- clock, the limits that are applied are the alternative ones if these are on, and the normal ones if
-- not, as long as this was so before.
pub Reach-IsApplied : {s t : Limits} → IsApplied s → Reach s t → IsApplied t
Reach-IsApplied h here = h
Reach-IsApplied h (next r s) = Step-IsApplied s (Reach-IsApplied h r)
