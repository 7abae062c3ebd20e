-- ===== src/Schedule.antt =====
-- internal/schedule/schedule.go: the weekly schedule of pauses. A `time.Duration` is a number of
-- nanoseconds, with its sign. `[7]dayRange` and the seven fields of a configuration are a `Week`.
-- The codecs of JSON and YAML, `time.LoadLocation`, `Location.String` and the calendar of a
-- location are parameters.
pub mod Codec
pub mod Ranges
use gdns_server.Base.{
  ℕ, ◌+◌, ◌-◌, ◌*◌, ◌%◌, Bool, not, ◌&&◌, Option, none, some, if◌then◌else◌, ltb, ◌==◌,
}
use gdns_server.Base.Int.{ℤ, pos, negsuc, pos_part, neg_part, sub_ℕ, ◌-ℤ◌, ltb_ℤ}

-- The values of `time.Weekday`.
pub data Weekday : Type 0 where
  sunday : Weekday
  monday : Weekday
  tuesday : Weekday
  wednesday : Weekday
  thursday : Weekday
  friday : Weekday
  saturday : Weekday

pub record Week (A : Type 0) : Type 0 where
  pub sun : A
  pub mon : A
  pub tue : A
  pub wed : A
  pub thu : A
  pub fri : A
  pub sat : A

unfoldable pub at : {A : Type 0} → Week A → Weekday → A
at w sunday = w.sun
at w monday = w.mon
at w tuesday = w.tue
at w wednesday = w.wed
at w thursday = w.thu
at w friday = w.fri
at w saturday = w.sat

pub record DayRange : Type 0 where
  pub start : ℤ
  pub end : ℤ

pub record Weekly (L : Type 0) : Type 0 where
  pub location : L
  pub days : Week DayRange

abbrev pub minute : ℕ
minute = 60000000000

abbrev pub max_day_range : ℕ
max_day_range = 1440 * minute

abbrev pub empty_range : DayRange
empty_range = record { start = pos 0; end = pos 0 }

abbrev pub full_day : DayRange
full_day = record { start = pos 0; end = pos max_day_range }

abbrev pub eq_ℤ : ℤ → ℤ → Bool
eq_ℤ a b = pos_part a + neg_part b == pos_part b + neg_part a

-- `r == dayRange{}`
abbrev pub is_empty : DayRange → Bool
is_empty r = eq_ℤ r.start (pos 0) && eq_ℤ r.end (pos 0)

pub everyday : {A : Type 0} → A → Week A
everyday d = record { sun = d; mon = d; tue = d; wed = d; thu = d; fri = d; sat = d }

-- `local` is `time.Local`.
pub empty_weekly : {L : Type 0} → L → Weekly L
unfolding everyday
empty_weekly local = record { location = local; days = everyday empty_range }

pub full_weekly : {L : Type 0} → L → Weekly L
unfolding everyday
full_weekly local = record { location = local; days = everyday full_day }

-- `w == nil` is `none`.
clone : {L : Type 0} → Option (Weekly L) → Option (Weekly L)
clone none = none
clone (some w) = some (record { location = w.location; days = w.days })

-- `Duration.Truncate`: towards zero.
pub truncate : ℤ → ℕ → ℤ
truncate (pos n) m = pos (n - n % m)
truncate (negsuc n) m = sub_ℕ 0 (n + 1 - (n + 1) % m)

-- The branches of the two `validate` functions that return an error.
pub data RangeError : Type 0 where
  start_negative : RangeError
  end_negative : RangeError
  start_not_before_end : RangeError
  start_too_large : RangeError
  end_too_large : RangeError
  start_not_rounded : RangeError
  end_not_rounded : RangeError

-- `dayRange.validate`
pub range_validate : DayRange → Option RangeError
range_validate r =
    if is_empty r
    then none
    else if ltb_ℤ r.start (pos 0)
    then some start_negative
    else if ltb_ℤ r.end (pos 0)
    then some end_negative
    else if not (ltb_ℤ r.start r.end)
    then some start_not_before_end
    else if not (ltb_ℤ r.start (pos max_day_range))
    then some start_too_large
    else if ltb_ℤ (pos max_day_range) r.end
    then some end_too_large
    else none

rounding : DayRange → Option RangeError
unfolding truncate
rounding r =
    if not (eq_ℤ (truncate r.start minute) r.start)
    then some start_not_rounded
    else if not (eq_ℤ (truncate r.end minute) r.end)
    then some end_not_rounded
    else none

-- `Weekly.validate`
unfoldable pub validate : DayRange → Option RangeError
unfolding range_validate rounding
validate r = elim (range_validate r) [ some e ↦ some e | none ↦ rounding r ]

pub range_contains : DayRange → ℤ → Bool
range_contains r offset = not (ltb_ℤ offset r.start) && ltb_ℤ offset r.end

-- `weekday` and `midnight` are `t.In(loc).Weekday()` and `time.Date(y, m, d, 0, 0, 0, 0, loc)` for
-- the date of `t.In(loc)`.
module _ {L : Type 0} (weekday : L → ℤ → Weekday) (midnight : L → ℤ → ℤ) where
  unfoldable pub contains : Weekly L → ℤ → Bool
  unfolding at range_contains
  contains w t =
      let dr = at w.days (weekday w.location t) in range_contains dr (t -ℤ midnight w.location t)
