-- ===== src/Schedule/Codec/Errors.antt =====
-- internal/schedule/schedule.go: the branches of reading a schedule.
use mathlib.Core.Option
use gdns_server.Base.{
  ◌≡◌, refl, ap, ◌⊎◌, inl, inr, Option, none, some, List, [], ◌∷◌, ◌++◌, All, Option-cases,
}
use gdns_server.Base.Dict.{Text}
use gdns_server.Schedule.{Weekday, Week, at, DayRange, Weekly, RangeError, validate}
use gdns_server.Schedule.Codec.{
  WeeklyConfigYaml, ScheduleError, bad_data, bad_location, bad_day, weekdays, map_week,
  range_of_config, range_of_json, WeeklyConfigJson, unmarshal_json, check_days, finish,
  unmarshal_yaml,
}

-- Every day of the list passes the validation.
abbrev pub ValidDays : Week DayRange → List Weekday → Type 0
ValidDays days is = All (λ i. validate (at days i) ≡ none) is

-- `i` is the first bad day of the list, and `e` its error.
abbrev FirstBad : Week DayRange → List Weekday → Weekday → RangeError → Type 0
FirstBad days is i e =
    (before : List Weekday) × (after : List Weekday) × (is ≡ before ++ i ∷ after)
    × ValidDays days before
    × (validate (at days i) ≡ some e)

-- The loop finds no error in valid days, or the error of the first bad one.
check_days-cases :
    (days : Week DayRange) (is : List Weekday)
    → (ValidDays days is × (check_days days is ≡ none))
      ⊎ ((i : Weekday) × (e : RangeError) × FirstBad days is i e
          × (check_days days is ≡ some (bad_day i e)))
unfolding check_days
check_days-cases days [] = inl (tt, refl)
check_days-cases days (i ∷ is) = elim (Option-cases (validate (at days i))) [
  | inr (e, h) ↦ inr (i, e, ([], is, refl, tt, h), rw (check_days, h) refl)
  | inl h ↦ elim (check_days-cases days is) [
    | inl (v, c) ↦ inl ((h, v), rw (check_days, h) c)
    | inr (j, e, (before, after, q, v, f), c) ↦
        inr (j, e, (i ∷ before, after, ap (λ l. i ∷ l) q, (h, v), f), rw (check_days, h) c)
  ]
]

module _ {L : Type 0} (load_location : Text → Option L) where
  -- The outcome of reading a text into the receiver `w`, from the time zone and the ranges that the
  -- text decodes to: the schedule that is left, and the error.
  pub data Outcome (w : Weekly L) (read : Option (Text × Week DayRange))
      : Weekly L × Option ScheduleError → Type 0 where
    not_read : read ≡ none → Outcome w read (w, some bad_data)
    no_location :
        (time_zone : Text) (days : Week DayRange)
        → read ≡ some (time_zone, days)
        → load_location time_zone ≡ none
        → Outcome w read (w, some bad_location)
    bad_range :
        (time_zone : Text) (days : Week DayRange) (loc : L) (i : Weekday) (e : RangeError)
        → read ≡ some (time_zone, days)
        → load_location time_zone ≡ some loc
        → FirstBad days weekdays i e
        → Outcome w read (w, some (bad_day i e))
    good :
        (time_zone : Text) (days : Week DayRange) (loc : L)
        → read ≡ some (time_zone, days)
        → load_location time_zone ≡ some loc
        → ValidDays days weekdays
        → Outcome w read (record { location = loc; days = days }, none)

  finish-Outcome :
      (w : Weekly L) (time_zone : Text) (days : Week DayRange)
      → Outcome w (some (time_zone, days)) (finish load_location w time_zone days)
  unfolding finish
  finish-Outcome w time_zone days = elim (Option-cases (load_location time_zone)) [
    | inl h ↦ rw (finish, h) (no_location time_zone days refl h)
    | inr (loc, h) ↦ elim (check_days-cases days weekdays) [
      | inl (v, c) ↦ rw (finish, h, c) (good time_zone days loc refl h v)
      | inr (i, e, f, c) ↦ rw (finish, h, c) (bad_range time_zone days loc i e refl h f)
    ]
  ]

  -- What a configuration says, in either format.
  abbrev pub json_read : Option WeeklyConfigJson → Option (Text × Week DayRange)
  json_read o = Option.map (λ conf. (conf.time_zone, map_week range_of_json conf.days)) o

  abbrev pub yaml_read : Option WeeklyConfigYaml → Option (Text × Week DayRange)
  yaml_read o = Option.map (λ conf. (conf.time_zone, map_week range_of_config conf.days)) o

  -- Reading a text as JSON or as YAML has one of four outcomes: the text does not decode, the time
  -- zone is not known, or a day is bad, and in these the schedule stays as it was and the error says
  -- which, with the first bad day of the week; or all seven days are valid, and the schedule has the
  -- location and the days of the text.
  pub unmarshal-Outcome :
      (json_decode : Text → Option WeeklyConfigJson) (yaml_decode : Text → Option WeeklyConfigYaml)
      (w : Weekly L) (text : Text)
      → Outcome w (json_read (json_decode text)) (unmarshal_json load_location json_decode w text)
        × Outcome w (yaml_read (yaml_decode text)) (unmarshal_yaml load_location yaml_decode w text)
  unfolding unmarshal_json unmarshal_yaml
  unmarshal-Outcome json_decode yaml_decode w text = (
    elim (Option-cases (json_decode text)) [
      | inl h ↦ rw (unmarshal_json, h) (not_read refl)
      | inr (conf, h) ↦
          rw (unmarshal_json, h)
            (finish-Outcome w conf.time_zone (map_week range_of_json conf.days))
    ],
    elim (Option-cases (yaml_decode text)) [
      | inl h ↦ rw (unmarshal_yaml, h) (not_read refl)
      | inr (conf, h) ↦
          rw (unmarshal_yaml, h)
            (finish-Outcome w conf.time_zone (map_week range_of_config conf.days))
    ],
  )
