-- ===== src/Torrent/Limits.antt =====
-- src/torrent/sessionmanager_limits.cpp, sessionmanager_scheduler.cpp and bandwidthschedule.h: the
-- rate limits of the session, its alternative limits and their schedule. Limits are in KiB a second;
-- their bytes stay below 2^31.
pub mod Applied
pub mod Clock
use batorrent.Base.{
  Bool, List, eq_ℤ, false, if◌then◌else◌, leb_ℤ, ltb_ℤ, negsuc, not, pos, pos_part, true, ℕ, ℤ, ◌%◌,
  ◌&&◌, ◌*◌, ◌+◌, ◌/◌, ◌==◌, ◌^◌, ◌||◌, ◌∷◌,
}

-- The fields of the session, the limits that it has applied last, in bytes, and the signals of
-- altSpeedsActiveChanged, newest first.
pub record Limits : Type 0 where
  pub normal_down : ℤ
  pub normal_up : ℤ
  pub alt_down : ℤ
  pub alt_up : ℤ
  pub alt_active : Bool
  pub scheduler_enabled : Bool
  pub from_hour : ℤ
  pub to_hour : ℤ
  pub days_mask : ℕ
  pub applied_down : ℤ
  pub applied_up : ℤ
  pub changes : List Bool

abbrev pub times_1024 : ℤ → ℤ
times_1024 (pos n) = pos (n * 1024)
times_1024 (negsuc n) = negsuc (n * 1024 + 1023)

-- kbps > 0 ? kbps * 1024 : 0
abbrev pub rate_bytes : ℤ → ℤ
rate_bytes kbps = if ltb_ℤ (pos 0) kbps then times_1024 kbps else pos 0

abbrev pub apply_limits : ℤ → ℤ → Limits → Limits
apply_limits down up s = record s { applied_down = rate_bytes down; applied_up = rate_bytes up }

-- The new normal limit takes hold at once unless the alternative limits do.
unfoldable pub set_download_limit : ℤ → Limits → Limits
set_download_limit kbps s =
    if s.alt_active
    then record s { normal_down = kbps }
    else record s { normal_down = kbps; applied_down = rate_bytes kbps }

unfoldable pub set_upload_limit : ℤ → Limits → Limits
set_upload_limit kbps s =
    if s.alt_active
    then record s { normal_up = kbps }
    else record s { normal_up = kbps; applied_up = rate_bytes kbps }

unfoldable pub set_alt_speed_limits : ℤ → ℤ → Limits → Limits
set_alt_speed_limits down up s =
    let d : Limits = record s { alt_down = down; alt_up = up } in
    if s.alt_active then apply_limits down up d else d

unfoldable pub set_scheduler_enabled : Bool → Limits → Limits
unfolding set_download_limit set_upload_limit
set_scheduler_enabled enabled s =
    let d : Limits = record s { scheduler_enabled = enabled } in
    if not enabled && s.alt_active
    then set_upload_limit s.normal_up
        (set_download_limit s.normal_down (record d { alt_active = false }))
    else d

abbrev pub set_schedule : ℤ → ℤ → ℕ → Limits → Limits
set_schedule from to days s = record s { from_hour = from; to_hour = to; days_mask = days }

-- active == m_altSpeedsActive
abbrev pub same_bool : Bool → Bool → Bool
same_bool a b = if a then b else not b

unfoldable pub set_alt_speeds_active : Bool → Limits → Limits
set_alt_speeds_active active s =
    if same_bool active s.alt_active
    then s
    else apply_limits (if active then s.alt_down else s.normal_down)
        (if active then s.alt_up else s.normal_up)
        (record s { alt_active = active; changes = active ∷ s.changes })

-- weekday: Monday is 0; a day counts if its bit is set.
abbrev pub day_enabled : ℤ → ℕ → Bool
day_enabled weekday days = not (days / 2 ^ pos_part weekday % 2 == 0)

unfoldable pub in_bandwidth_schedule : ℤ → ℤ → ℕ → ℤ → ℤ → Bool
in_bandwidth_schedule weekday hour days from to =
    if ltb_ℤ weekday (pos 0) || ltb_ℤ (pos 6) weekday
    then false
    else if not (day_enabled weekday days)
    then false
    else if leb_ℤ from to
    then leb_ℤ from hour && ltb_ℤ hour to
    else leb_ℤ from hour || ltb_ℤ hour to

-- `weekday` and `hour` are those of the clock.
unfoldable pub check_bandwidth_schedule : ℤ → ℤ → Limits → Limits
unfolding in_bandwidth_schedule
check_bandwidth_schedule weekday hour s =
    let inside = in_bandwidth_schedule weekday hour s.days_mask s.from_hour s.to_hour in
    if not s.scheduler_enabled || eq_ℤ s.alt_down (pos 0) && eq_ℤ s.alt_up (pos 0)
    then s
    else if inside && not s.alt_active
    then apply_limits s.alt_down s.alt_up (record s { alt_active = true })
    else if not inside && s.alt_active
    then apply_limits s.normal_down s.normal_up (record s { alt_active = false })
    else s
