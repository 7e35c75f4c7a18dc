-- ===== src/Torrent/Limits/Clock.antt =====
-- What the clock does to the limits.
use batorrent.Base.{
  &&-left, Bool, ap, arith, eq_of_parts, eq_ℤ, false, if_cases, if◌then◌else◌, leb_ℤ, ltb_ℤ,
  neg_part, not, pos, pos_part, refl, subst, sym, true, ℕ, ℤ, ◌&&◌, ◌+◌, ◌||◌, ◌∙◌, ◌≡◌, ◌≢◌, ◌≤ℤ◌,
}
use batorrent.Torrent.Limits.{
  Limits, apply_limits, set_alt_speed_limits, day_enabled, in_bandwidth_schedule,
  check_bandwidth_schedule,
}

-- A look at the clock turns the alternative limits on inside the schedule and off outside it; this
-- holds if the scheduler is enabled and one of the alternative limits is not 0.
check_bandwidth_schedule-follows :
    (weekday hour : ℤ) (s : Limits)
    → s.scheduler_enabled ≡ true
    → eq_ℤ s.alt_down (pos 0) && eq_ℤ s.alt_up (pos 0) ≡ false
    → (check_bandwidth_schedule weekday hour s).alt_active
      ≡ in_bandwidth_schedule weekday hour s.days_mask s.from_hour s.to_hour
unfolding check_bandwidth_schedule
check_bandwidth_schedule-follows w t s e z =
    let inside = in_bandwidth_schedule w t s.days_mask s.from_hour s.to_hour in
    let on = apply_limits s.alt_down s.alt_up (record s { alt_active = true }) in
    let off = apply_limits s.normal_down s.normal_up (record s { alt_active = false }) in
    if_cases (λ (x : Limits). x.alt_active ≡ inside)
      (not s.scheduler_enabled || eq_ℤ s.alt_down (pos 0) && eq_ℤ s.alt_up (pos 0)) {x = s}
      {y = if inside && not s.alt_active then on else if not inside && s.alt_active then off else s}
      (λ h.
        absurd
          (skipped s.scheduler_enabled (eq_ℤ s.alt_down (pos 0) && eq_ℤ s.alt_up (pos 0)) e z h))
      (λ _.
        if_cases (λ (x : Limits). x.alt_active ≡ inside) (inside && not s.alt_active) {x = on}
          {y = if not inside && s.alt_active then off else s}
          (λ h. sym (&&-left inside (not s.alt_active) h))
          (λ h.
            if_cases (λ (x : Limits). x.alt_active ≡ inside) (not inside && s.alt_active) {x = off}
              {y = s} (λ k. outside inside s.alt_active k) (λ k. agrees inside s.alt_active h k)))
  where
    skipped : (a b : Bool) → a ≡ true → b ≡ false → not a || b ≡ true → ⊥
    skipped a b h k q = ground arith

    outside : (i a : Bool) → not i && a ≡ true → false ≡ i
    outside i a h = ground arith

    agrees : (i a : Bool) → i && not a ≡ false → not i && a ≡ false → a ≡ i
    agrees i a h k = ground arith

-- On a day that counts, the hours from one hour to another and those from the other to the one are
-- each other's complement, whichever of them goes past midnight.
pub in_bandwidth_schedule-complement :
    (weekday hour : ℤ) (days : ℕ) (from to : ℤ)
    → pos 0 ≤ℤ weekday
    → weekday ≤ℤ pos 6
    → day_enabled weekday days ≡ true
    → from ≢ to
    → in_bandwidth_schedule weekday hour days from to
      ≡ not (in_bandwidth_schedule weekday hour days to from)
unfolding in_bandwidth_schedule
in_bandwidth_schedule-complement w hour days from to a b d n =
    rw (on_day w a b, d) (other_hours hour from to n)
  where
    on_day : (w : ℤ) → pos 0 ≤ℤ w → w ≤ℤ pos 6 → ltb_ℤ w (pos 0) || ltb_ℤ (pos 6) w ≡ false
    on_day w a b = ground arith

    other_hours :
        (h f t : ℤ)
        → f ≢ t
        → (if leb_ℤ f t then leb_ℤ f h && ltb_ℤ h t else leb_ℤ f h || ltb_ℤ h t)
          ≡ not (if leb_ℤ t f then leb_ℤ t h && ltb_ℤ h f else leb_ℤ t h || ltb_ℤ h f)
    other_hours h f t n =
        let apart : pos_part f + neg_part t ≢ pos_part t + neg_part f =
          λ e. n (eq_of_parts f t e) in
        ground arith

kept :
    (w t : ℤ) (s : Limits)
    → s.alt_down ≡ pos 0
    → s.alt_up ≡ pos 0
    → check_bandwidth_schedule w t s ≡ s
unfolding check_bandwidth_schedule
kept w t s d u =
    let inside = in_bandwidth_schedule w t s.days_mask s.from_hour s.to_hour in
    let on = apply_limits s.alt_down s.alt_up (record s { alt_active = true }) in
    let off = apply_limits s.normal_down s.normal_up (record s { alt_active = false }) in
    if_cases (λ (x : Limits). x ≡ s)
      (not s.scheduler_enabled || eq_ℤ s.alt_down (pos 0) && eq_ℤ s.alt_up (pos 0)) {x = s}
      {y = if inside && not s.alt_active then on else if not inside && s.alt_active then off else s}
      (λ _. refl) (λ h. absurd (zeros (not s.scheduler_enabled) s.alt_down s.alt_up d u h))
  where
    zeros_at : (b : Bool) → b || true ≡ false → ⊥
    zeros_at b h = ground arith

    zeros :
        (b : Bool) (x y : ℤ)
        → x ≡ pos 0
        → y ≡ pos 0
        → b || eq_ℤ x (pos 0) && eq_ℤ y (pos 0) ≡ false
        → ⊥
    zeros b x y d u h = zeros_at b (
        subst (λ v. b || eq_ℤ v (pos 0) && eq_ℤ (pos 0) (pos 0) ≡ false) d
          (subst (λ v. b || eq_ℤ x (pos 0) && eq_ℤ v (pos 0) ≡ false) u h))

-- With both alternative limits at 0, which is no limit at all, the clock no longer turns them off:
-- a session in which they are on stays without limits outside the schedule too.
pub zero_alt_stays :
    (weekday hour : ℤ) (s : Limits)
    → s.alt_active ≡ true
    → let z = check_bandwidth_schedule weekday hour (set_alt_speed_limits (pos 0) (pos 0) s) in
      (z.alt_active ≡ true) × (z.applied_down ≡ pos 0) × (z.applied_up ≡ pos 0)
unfolding check_bandwidth_schedule set_alt_speed_limits
zero_alt_stays w t s h =
    let c : Limits = record s { alt_down = pos 0; alt_up = pos 0 } in
    let z = set_alt_speed_limits (pos 0) (pos 0) s in
    let at_zero : z ≡ apply_limits (pos 0) (pos 0) c =
      chosen (apply_limits (pos 0) (pos 0) c) c s.alt_active h in
    let idle = kept w t (apply_limits (pos 0) (pos 0) c) refl refl in
    subst Unlimited (sym (ap (check_bandwidth_schedule w t) at_zero ∙ idle)) (h, refl, refl)
  where
    Unlimited : Limits → Type 0
    Unlimited x = (x.alt_active ≡ true) × (x.applied_down ≡ pos 0) × (x.applied_up ≡ pos 0)

    chosen : (x y : Limits) (b : Bool) → b ≡ true → (if b then x else y) ≡ x
    chosen x y b h = rw h refl
