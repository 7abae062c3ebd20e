-- ===== src/Schedule/Codec.antt =====
-- internal/schedule/schedule.go: reading a schedule from JSON and from YAML, and writing it. The
-- decoders give a configuration or fail; a schedule that fails leaves the receiver as it was.
pub mod RoundTrip
pub mod Errors
use gdns_server.Base.{Bool, Option, none, some, List, [], ◌∷◌, if◌then◌else◌}
use gdns_server.Base.Dict.{Text}
use gdns_server.Base.Int.{ℤ}
use gdns_server.Schedule.{
  Weekday, Weekday.sunday, Weekday.monday, Weekday.tuesday, Weekday.wednesday, Weekday.thursday,
  Weekday.friday, Weekday.saturday, Week, at, DayRange, Weekly, empty_range, is_empty, RangeError,
  validate,
}

-- `dayConfigJSON` and `dayConfigYAML` have the same fields.
pub record DayConfig : Type 0 where
  pub start : ℤ
  pub end : ℤ

pub record WeeklyConfigJson : Type 0 where
  pub days : Week (Option DayConfig)
  pub time_zone : Text

pub record WeeklyConfigYaml : Type 0 where
  pub time_zone : Text
  pub days : Week DayConfig

pub data ScheduleError : Type 0 where
  bad_data : ScheduleError
  bad_location : ScheduleError
  bad_day : Weekday → RangeError → ScheduleError

pub map_week : {A B : Type 0} → (A → B) → Week A → Week B
map_week f w = record {
  sun = f w.sun;
  mon = f w.mon;
  tue = f w.tue;
  wed = f w.wed;
  thu = f w.thu;
  fri = f w.fri;
  sat = f w.sat;
}

pub range_of_config : DayConfig → DayRange
range_of_config d = record { start = d.start; end = d.end }

-- The body of the loop of `UnmarshalJSON`: a day that is missing has the zero range.
pub range_of_json : Option DayConfig → DayRange
unfolding range_of_config
range_of_json none = empty_range
range_of_json (some d) = range_of_config d

pub to_config : DayRange → DayConfig
to_config r = record { start = r.start; end = r.end }

pub to_day_config_json : DayRange → Option DayConfig
unfolding to_config
to_day_config_json r = if is_empty r then none else some (to_config r)

abbrev pub weekdays : List Weekday
weekdays = sunday ∷ monday ∷ tuesday ∷ wednesday ∷ thursday ∷ friday ∷ saturday ∷ []

-- The loop over the days: the error of the first bad one.
pub check_days : Week DayRange → List Weekday → Option ScheduleError
unfolding at validate
check_days days [] = none
check_days days (i ∷ is) =
    let rest = check_days days is in
    elim (validate (at days i)) [ some e ↦ some (bad_day i e) | none ↦ rest ]

module _ {L : Type 0} (load_location : Text → Option L) where
  -- What both decoders do with the location and the ranges: the receiver and the error.
  unfoldable pub finish : Weekly L → Text → Week DayRange → Weekly L × Option ScheduleError
  unfolding check_days
  finish w time_zone days = elim (load_location time_zone) [
    | none ↦ (w, some bad_location)
    | some loc ↦ elim (check_days days weekdays) [
      | some e ↦ (w, some e)
      | none ↦ (record { location = loc; days = days }, none)
    ]
  ]

module _ {L : Type 0} (load_location : Text → Option L)
    (json_decode : Text → Option WeeklyConfigJson) where
  pub unmarshal_json : Weekly L → Text → Weekly L × Option ScheduleError
  unfolding finish map_week range_of_json
  unmarshal_json w text = elim (json_decode text) [
    | none ↦ (w, some bad_data)
    | some conf ↦ finish load_location w conf.time_zone (map_week range_of_json conf.days)
  ]

module _ {L : Type 0} (load_location : Text → Option L)
    (yaml_decode : Text → Option WeeklyConfigYaml) where
  pub unmarshal_yaml : Weekly L → Text → Weekly L × Option ScheduleError
  unfolding finish map_week range_of_config
  unmarshal_yaml w value = elim (yaml_decode value) [
    | none ↦ (w, some bad_data)
    | some conf ↦ finish load_location w conf.time_zone (map_week range_of_config conf.days)
  ]

module _ {L : Type 0} (location_string : L → Text) where
  pub json_config : Weekly L → WeeklyConfigJson
  unfolding map_week to_day_config_json
  json_config w = record {
    days = map_week to_day_config_json w.days;
    time_zone = location_string w.location;
  }

  pub yaml_config : Weekly L → WeeklyConfigYaml
  unfolding map_week to_config
  yaml_config w = record {
    time_zone = location_string w.location;
    days = map_week to_config w.days;
  }

  pub marshal_json : (WeeklyConfigJson → Text) → Weekly L → Text
  unfolding json_config
  marshal_json json_encode w = json_encode (json_config w)

  pub marshal_yaml : (WeeklyConfigYaml → Text) → Weekly L → Text
  unfolding yaml_config
  marshal_yaml yaml_encode w = yaml_encode (yaml_config w)
