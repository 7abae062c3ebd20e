-- ===== src/Schedule/Ranges.antt =====
-- internal/schedule/schedule.go: which ranges are accepted, and which instants a schedule contains.
use mathlib.Core.Path.{ap₂}
use gdns_server.Base.{
  ℕ, ◌+◌, ◌*◌, ◌/◌, ◌%◌, ◌<◌, ◌≤◌, ◌≡◌, refl, sym, ap, subst, ◌↔◌, ◌⊎◌, inl, inr, true, false, none,
  arith, Bool-cases,
}
use gdns_server.Base.Int.{
  ℤ, pos, negsuc, pos_part, neg_part, ◌+ℤ◌, ◌-ℤ◌, ◌≤ℤ◌, +ℤ_parts, -ℤ_parts, eq_of_parts,
}
use gdns_server.Schedule.{
  Weekday, Weekly, at, DayRange, empty_range, full_weekly, empty_weekly, full_day, everyday, minute,
  max_day_range, is_empty, truncate, range_validate, rounding, validate, range_contains, contains,
}

-- The minutes of a day: from `a` to `b`, as nanoseconds.
abbrev pub minutes : ℕ → ℕ → DayRange
minutes a b = record { start = pos (a * minute); end = pos (b * minute) }

-- No range, or one of whole minutes within a day, the last of which is 24:00.
pub IsWholeMinutes : DayRange → Type 0
IsWholeMinutes r =
    (r ≡ empty_range) ⊎ ((a : ℕ) × (b : ℕ) × (a < b) × (b ≤ 1440) × (r ≡ minutes a b))

validate_empty : validate empty_range ≡ none
unfolding validate range_validate rounding truncate
validate_empty = refl

range_ext : (r : DayRange) {s e : ℤ} → r.start ≡ s → r.end ≡ e → r ≡ record { start = s; end = e }
range_ext r p q = ap₂ (λ s e. record { start = s; end = e }) p q

-- A range that passes and is not empty has its ends in order, within a day.
bounds_of_validate :
    (s e : ℤ)
    → range_validate (record { start = s; end = e }) ≡ none
    → is_empty (record { start = s; end = e }) ≡ false
    → (a : ℕ) × (b : ℕ) × (s ≡ pos a) × (e ≡ pos b) × (a < b) × (b ≤ max_day_range)
unfolding range_validate
bounds_of_validate (pos a) (pos b) h k = (a, b, refl, refl, ground arith, ground arith)
bounds_of_validate (pos a) (negsuc b) h k = ground arith
bounds_of_validate (negsuc a) e h k = ground arith

pub empty_of_is_empty : (r : DayRange) → is_empty r ≡ true → r ≡ empty_range
empty_of_is_empty r h = grind (arith, eq_of_parts)

rounding_minutes :
    (a b : ℕ)
    → (rounding (record { start = pos a; end = pos b }) ≡ none)
      ↔ ((a % minute ≡ 0) × (b % minute ≡ 0))
unfolding rounding truncate
rounding_minutes a b = ground arith

validate-minutes : (a b : ℕ) → a < b → b ≤ 1440 → validate (minutes a b) ≡ none
unfolding validate range_validate
validate-minutes a b h k = ground (arith, (rounding_minutes (a * minute) (b * minute)))

whole_of_rounding :
    (a b : ℕ)
    → a < b
    → b ≤ max_day_range
    → rounding (record { start = pos a; end = pos b }) ≡ none
    → IsWholeMinutes (record { start = pos a; end = pos b })
unfolding IsWholeMinutes
whole_of_rounding a b h k e =
    let (p, q) = (rounding_minutes a b).0 e in
    inr (
      a / minute,
      b / minute,
      omega arith,
      omega arith,
      range_ext _ (ap pos (omega arith)) (ap pos (omega arith)),
    )

range_of_validate : (r : DayRange) → validate r ≡ none → range_validate r ≡ none
unfolding validate
range_of_validate r h = ground arith

rounding_of_validate : (r : DayRange) → validate r ≡ none → rounding r ≡ none
unfolding validate
rounding_of_validate r h = ground (arith, range_of_validate r h)

minutes_of_bounds : (r : DayRange) → validate r ≡ none → is_empty r ≡ false → IsWholeMinutes r
minutes_of_bounds r h k =
    let (a, b, p, q, lt, le) = bounds_of_validate r.start r.end (range_of_validate r h) k in
    let e = range_ext r p q in
    subst IsWholeMinutes (sym e)
      (whole_of_rounding a b lt le (subst (λ x. rounding x ≡ none) e (rounding_of_validate r h)))

minutes_of_validate : (r : DayRange) → validate r ≡ none → IsWholeMinutes r
unfolding IsWholeMinutes
minutes_of_validate r h = elim (Bool-cases (is_empty r)) [
  | inl e ↦ inl (empty_of_is_empty r e)
  | inr e ↦ minutes_of_bounds r h e
]

validate_of_minutes : (r : DayRange) → IsWholeMinutes r → validate r ≡ none
unfolding IsWholeMinutes
validate_of_minutes r (inl e) = subst (λ x. validate x ≡ none) (sym e) validate_empty
validate_of_minutes r (inr (a, b, h, k, e)) =
    subst (λ x. validate x ≡ none) (sym e) (validate-minutes a b h k)

-- The validation of a day accepts the zero range and the ranges of whole minutes, from the minute
-- `a` to a later minute `b` of the same day, 24:00 included, and no other.
pub validate_iff : (r : DayRange) → (validate r ≡ none) ↔ IsWholeMinutes r
validate_iff r = (minutes_of_validate r, validate_of_minutes r)

-- `t` is within the range of whole minutes from `a` to `b`, counted from the instant `day`.
abbrev pub Within : ℤ → ℕ → ℕ → ℤ → Type 0
Within day a b t =
    (day +ℤ pos (a * minute) ≤ℤ t)
    × (pos_part t + neg_part (day +ℤ pos (b * minute))
        < pos_part (day +ℤ pos (b * minute)) + neg_part t)

range_contains_iff :
    (a b : ℕ) (day t : ℤ) → (range_contains (minutes a b) (t -ℤ day) ≡ true) ↔ Within day a b t
unfolding range_contains
range_contains_iff a b day t =
    ground (
      arith,
      (-ℤ_parts t day),
      (+ℤ_parts day (pos (a * minute))),
      (+ℤ_parts day (pos (b * minute))),
    )

range_contains_empty : (x : ℤ) → range_contains empty_range x ≡ false
unfolding range_contains
range_contains_empty x = ground arith

minutes_of_contains :
    (r : DayRange) (day t : ℤ)
    → IsWholeMinutes r
    → range_contains r (t -ℤ day) ≡ true
    → (a : ℕ) × (b : ℕ) × (a < b) × (b ≤ 1440) × (r ≡ minutes a b) × Within day a b t
unfolding IsWholeMinutes
minutes_of_contains r day t (inl e) h =
    let f = subst (λ x. range_contains x (t -ℤ day) ≡ true) e h in
    cc (f, range_contains_empty (t -ℤ day))
minutes_of_contains r day t (inr (a, b, lt, le, e)) h = (
  a,
  b,
  lt,
  le,
  e,
  (range_contains_iff a b day t).0 (subst (λ x. range_contains x (t -ℤ day) ≡ true) e h),
)

module _ {L : Type 0} (weekday : L → ℤ → Weekday) (midnight : L → ℤ → ℤ) where
  -- An instant is in a schedule whose days are valid only when the day's range in the location of
  -- the schedule is one of whole minutes, and the instant is at its first minute or later and
  -- before its last, counted from the midnight of that day.
  contains-Within :
      (w : Weekly L) (t : ℤ)
      → validate (at w.days (weekday w.location t)) ≡ none
      → contains weekday midnight w t ≡ true
      → (a : ℕ) × (b : ℕ) × (a < b)
        × (b ≤ 1440)
        × (at w.days (weekday w.location t) ≡ minutes a b)
        × Within (midnight w.location t) a b t
  unfolding contains
  contains-Within w t v h = minutes_of_contains _ _ t ((validate_iff _).0 v) h

  at-everyday : {A : Type 0} (d : A) (i : Weekday) → at (everyday d) i ≡ d
  unfolding at everyday
  at-everyday d i = ground arith

  -- The full schedule contains exactly the instants of the first 24 hours after the midnight of
  -- their day: on a day of 25 hours it leaves the last one out. The empty schedule contains none.
  pub contains-full_weekly :
      (loc : L) (t : ℤ)
      → ((contains weekday midnight (full_weekly loc) t ≡ true) ↔ Within (midnight loc t) 0 1440 t)
        × (contains weekday midnight (empty_weekly loc) t ≡ false)
  unfolding contains full_weekly empty_weekly
  contains-full_weekly loc t =
      rw (at-everyday full_day (weekday loc t), at-everyday empty_range (weekday loc t))
        (range_contains_iff 0 1440 (midnight loc t) t, range_contains_empty (t -ℤ midnight loc t))
