-- ===== src/Tests/Schedules.antt =====
-- Runs of internal/schedule/schedule.go: a schedule of working hours on Mondays.
use gdns_server.Base.{◌≡◌, refl, ◌↔◌, true, false, Option, none, some, [], ◌∷◌}
use gdns_server.Base.Dict.{Text}
use gdns_server.Base.Int.{ℤ, pos}
use gdns_server.Schedule.{
  Weekday, Weekday.monday, Week, DayRange, Weekly, empty_range, everyday, validate, contains,
  full_weekly, empty_weekly,
}
use gdns_server.Schedule.Ranges.{
  minutes, IsWholeMinutes, validate_iff, Within, contains-full_weekly,
}
use gdns_server.Schedule.Codec.{
  WeeklyConfigJson, WeeklyConfigYaml, json_config, yaml_config, marshal_json, marshal_yaml,
  unmarshal_json, unmarshal_yaml,
}
use gdns_server.Schedule.Codec.Errors.{Outcome, json_read, yaml_read, unmarshal-Outcome}
use gdns_server.Schedule.Codec.RoundTrip.{unmarshal-marshal}

abbrev utc : Text
utc = b'U' ∷ b'T' ∷ b'C' ∷ []

abbrev working : Weekly Text
working = record {
  location = utc;
  days = record {
    sun = empty_range;
    mon = minutes 540 1020;
    tue = empty_range;
    wed = empty_range;
    thu = empty_range;
    fri = empty_range;
    sat = empty_range;
  };
}

abbrev nowhere : Weekly Text
nowhere = record { location = []; days = everyday empty_range }

abbrev name_of : Text → Text
name_of l = l

-- The codecs of one schedule.
abbrev json_decode : Text → Option WeeklyConfigJson
json_decode [] = none
json_decode (c ∷ cs) = some (json_config name_of working)

abbrev json_encode : WeeklyConfigJson → Text
json_encode conf = b'{' ∷ conf.time_zone

abbrev yaml_decode : Text → Option WeeklyConfigYaml
yaml_decode [] = none
yaml_decode (c ∷ cs) = some (yaml_config name_of working)

abbrev yaml_encode : WeeklyConfigYaml → Text
yaml_encode conf = b't' ∷ conf.time_zone

validate_iff_example : (validate (minutes 540 1020) ≡ none) ↔ IsWholeMinutes (minutes 540 1020)
validate_iff_example = validate_iff (minutes 540 1020)

unmarshal-marshal_example :
    (unmarshal_json some json_decode nowhere (marshal_json name_of json_encode working)
      ≡ (working, none))
    × (unmarshal_yaml some yaml_decode nowhere (marshal_yaml name_of yaml_encode working)
        ≡ (working, none))
unfolding validate gdns_server.Schedule.at
unmarshal-marshal_example =
    unmarshal-marshal some name_of json_decode json_encode yaml_decode yaml_encode working nowhere
      refl refl refl (refl, (refl, (refl, (refl, (refl, (refl, (refl, tt)))))))

unmarshal-Outcome_example :
    Outcome some nowhere
      (json_read some (json_decode utc))
      (unmarshal_json some json_decode nowhere utc)
    × Outcome some nowhere
        (yaml_read some (yaml_decode utc))
        (unmarshal_yaml some yaml_decode nowhere utc)
unmarshal-Outcome_example = unmarshal-Outcome some json_decode yaml_decode nowhere utc

abbrev day_of : Text → ℤ → Weekday
day_of loc t = monday

abbrev midnight_of : Text → ℤ → ℤ
midnight_of loc t = pos 0

-- The last nanosecond before 24:00, and 24:00.
contains-full_weekly_example :
    ((contains day_of midnight_of (full_weekly utc) (pos 86400000000000) ≡ true)
      ↔ Within (pos 0) 0 1440 (pos 86400000000000))
    × (contains day_of midnight_of (empty_weekly utc) (pos 86400000000000) ≡ false)
contains-full_weekly_example = contains-full_weekly day_of midnight_of utc (pos 86400000000000)
