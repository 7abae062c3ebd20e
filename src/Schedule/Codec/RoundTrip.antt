-- ===== src/Schedule/Codec/RoundTrip.antt =====
-- internal/schedule/schedule.go: a schedule that is written and read again.
use gdns_server.Base.{
  ◌≡◌, List, [], ◌∷◌, subst, refl, sym, ap, inl, inr, Option, none, some, Bool-cases,
}
use gdns_server.Base.Dict.{Text}
use gdns_server.Schedule.{Weekday, Week, DayRange, Weekly, is_empty}
use gdns_server.Schedule.Ranges.{empty_of_is_empty}
use gdns_server.Schedule.Codec.{
  WeeklyConfigJson, WeeklyConfigYaml, weekdays, map_week, range_of_config, range_of_json, to_config,
  to_day_config_json, check_days, finish, unmarshal_json, unmarshal_yaml, marshal_json,
  marshal_yaml, json_config, yaml_config,
}
use gdns_server.Schedule.Codec.Errors.{ValidDays}

check_days_valid :
    (days : Week DayRange) (is : List Weekday) → ValidDays days is → check_days days is ≡ none
unfolding check_days
check_days_valid days [] h = refl
check_days_valid days (i ∷ is) h = rw (check_days, h.0) (check_days_valid days is h.1)

range_of_json-to_day : (r : DayRange) → range_of_json (to_day_config_json r) ≡ r
unfolding range_of_json to_day_config_json range_of_config to_config
range_of_json-to_day r = elim (Bool-cases (is_empty r)) [
  | inl e ↦ rw e (sym (empty_of_is_empty r e))
  | inr e ↦ rw e refl
]

week_ext :
    (f : DayRange → DayRange) → ((r : DayRange) → f r ≡ r) → (w : Week DayRange) → map_week f w ≡ w
unfolding map_week
week_ext f h w = ap (λ g. map_week g w) (λ i r. h r i)

finish_valid :
    {L : Type 0} (load_location : Text → Option L) (w v : Weekly L) (time_zone : Text)
    → load_location time_zone ≡ some w.location
    → ValidDays w.days weekdays
    → finish load_location v time_zone w.days ≡ (w, none)
unfolding finish
finish_valid load_location w v time_zone h k =
    rw (finish, h, check_days_valid w.days weekdays k) refl

module _ {L : Type 0} (load_location : Text → Option L) (location_string : L → Text) where
  finish_json :
      (w v : Weekly L)
      → load_location (location_string w.location) ≡ some w.location
      → ValidDays w.days weekdays
      → let conf = json_config location_string w in
        finish load_location v conf.time_zone (map_week range_of_json conf.days) ≡ (w, none)
  unfolding json_config
  finish_json w v h k =
      subst (λ d. finish load_location v (location_string w.location) d ≡ (w, none))
        (sym (week_ext (λ r. range_of_json (to_day_config_json r)) range_of_json-to_day w.days))
        (finish_valid load_location w v (location_string w.location) h k)

  finish_yaml :
      (w v : Weekly L)
      → load_location (location_string w.location) ≡ some w.location
      → ValidDays w.days weekdays
      → let conf = yaml_config location_string w in
        finish load_location v conf.time_zone (map_week range_of_config conf.days) ≡ (w, none)
  unfolding yaml_config range_of_config to_config
  finish_yaml w v h k = finish_valid load_location w v (location_string w.location) h k

module _ {L : Type 0} (load_location : Text → Option L) (location_string : L → Text)
    (json_decode : Text → Option WeeklyConfigJson) (json_encode : WeeklyConfigJson → Text)
    (yaml_decode : Text → Option WeeklyConfigYaml) (yaml_encode : WeeklyConfigYaml → Text) where
  -- A schedule with valid days in a location that `time.LoadLocation` finds by its name, written as
  -- JSON or as YAML and read into any receiver, comes back as it was, with no error, if the codecs
  -- read back the configurations that are written of it.
  pub unmarshal-marshal :
      (w v : Weekly L)
      → load_location (location_string w.location) ≡ some w.location
      → json_decode (json_encode (json_config location_string w))
        ≡ some (json_config location_string w)
      → yaml_decode (yaml_encode (yaml_config location_string w))
        ≡ some (yaml_config location_string w)
      → ValidDays w.days weekdays
      → (unmarshal_json load_location json_decode v (marshal_json location_string json_encode w)
          ≡ (w, none))
        × (unmarshal_yaml load_location yaml_decode v (marshal_yaml location_string yaml_encode w)
            ≡ (w, none))
  unfolding unmarshal_json unmarshal_yaml marshal_json marshal_yaml
  unmarshal-marshal w v h j y k = (
    rw (unmarshal_json, j) (finish_json load_location location_string w v h k),
    rw (unmarshal_yaml, y) (finish_yaml load_location location_string w v h k),
  )
