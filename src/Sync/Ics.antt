-- ===== src/Sync/Ics.antt =====
-- pkg/ics/parse.go, and icsEventToGoogle of internal/service/ics_import_service.go. The calendar that
-- golang-ical reads is given: `Calendar` holds what its methods answer.
pub mod Import
pub mod Times
pub mod Counts
use goreminder.Prelude.{
  ℕ, ◌+◌, ◌*◌, suc, Bool, true, false, not, ◌&&◌, ◌||◌, Option, none, some, List, [], ◌∷◌, ◌++◌,
  any, null, ltb, ◌==◌, if◌then◌else◌,
}
use goreminder.Text.{Text, codes, text_eq, to_lower, to_upper, trim_space, has_prefix, contains_any}
use goreminder.Clock.{Time, day}
use goreminder.Calendar.Rule.{rrule_prefix}
use goreminder.Sync.Event.{Event, EventDateTime, at_utc}

pub record VProperty : Type 0 where
  pub value : Text
  pub parameters : List (Text × List Text)

-- a time with its location: the instant, and the date in the location as days since 0001-01-01
pub record LocalTime : Type 0 where
  pub instant : Time
  pub date : ℕ

-- the answers of GetProperty, GetProperties, GetStartAt and GetEndAt; none is nil or an error
pub record VEvent : Type 0 where
  pub uid : Option VProperty
  pub dtstart : Option VProperty
  pub dtend : Option VProperty
  pub summary : Option VProperty
  pub description : Option VProperty
  pub rrules : List VProperty
  pub start_at : Option LocalTime
  pub end_at : Option LocalTime

pub record Calendar : Type 0 where
  pub todos : ℕ
  pub events : List VEvent

pub record IcsEvent : Type 0 where
  pub uid : Text
  pub summary : Text
  pub description : Text
  pub start : Time
  pub end : Option Time
  pub all_day : Bool
  pub recurrence : List Text

-- the text of an error is left out
pub record ParseError : Type 0 where
  pub index : ℕ
  pub uid : Text

pub record ParseResult : Type 0 where
  pub events : List IcsEvent
  pub skipped_todo : ℕ
  pub errors : List ParseError

-- the two layouts of package time that are used for dates
pub record DateLayouts : Type 0 where
  -- time.ParseInLocation("20060102", _, time.UTC)
  pub parse_compact : Text → Option Time
  -- t.Format("2006-01-02")
  pub format_date : Time → Text

-- len(s), in bytes of UTF-8
unfoldable pub byte_length : Text → ℕ
byte_length [] = 0
byte_length (c ∷ s) =
    (if ltb c 128 then 1 else if ltb c 2048 then 2 else if ltb c 65536 then 3 else 4)
    + byte_length s

abbrev first_eight : Text → Text
first_eight (a ∷ b ∷ c ∷ d ∷ e ∷ f ∷ g ∷ h ∷ s) = a ∷ b ∷ c ∷ d ∷ e ∷ f ∷ g ∷ h ∷ []
first_eight s = s

-- strings.EqualFold, for ASCII
abbrev equal_fold : Text → Text → Bool
equal_fold s t = text_eq (to_lower s) (to_lower t)

abbrev is_date_type : Text × List Text → Bool
is_date_type (k, vals) = equal_fold k (codes "VALUE") && any (λ v. equal_fold v (codes "DATE")) vals

abbrev is_date_value : Text → Bool
is_date_value val = (byte_length val == 8) && not (contains_any val (codes "T:"))

abbrev is_date_property : Option VProperty → Bool
is_date_property none = false
is_date_property (some p) = any is_date_type p.parameters || is_date_value (trim_space p.value)

-- isAllDayDTStart
unfoldable pub is_all_day_dt_start : VEvent → Bool
is_all_day_dt_start v = is_date_property v.dtstart

abbrev value_or_empty : Option VProperty → Text
value_or_empty none = []
value_or_empty (some p) = p.value

-- the first RRULE that is not blank
unfoldable pub first_recurrence : List VProperty → List Text
first_recurrence [] = []
first_recurrence (p ∷ ps) =
    let rest = first_recurrence ps in
    let val = trim_space p.value in
    if null val
    then rest
    else if has_prefix (to_upper val) rrule_prefix
    then val ∷ []
    else (rrule_prefix ++ val) ∷ []

abbrev instant_of : Option LocalTime → Option Time
instant_of none = none
instant_of (some t) = some t.instant

-- midnight in UTC of the date that a time has in its own location
abbrev pub pinned : Option LocalTime → Option Time
pinned none = none
pinned (some t) = some (t.date * day)

abbrev pub first_of : Option Time → Option Time → Option Time
first_of none fallback = fallback
first_of (some t) fallback = some t

pub data Parsed : Type 0 where
  mapped : IcsEvent → Parsed
  broken : ParseError → Parsed

module _ (lib : DateLayouts) where
  abbrev date_in_utc : Text → Option Time
  date_in_utc val = if ltb (byte_length val) 8 then none else lib.parse_compact (first_eight val)

  -- allDayDateUTC
  unfoldable pub all_day_date_utc : Option VProperty → Option Time
  all_day_date_utc none = none
  all_day_date_utc (some p) = date_in_utc (trim_space p.value)

  unfoldable pub start_of : Bool → VEvent → Option Time
  start_of true v = first_of (all_day_date_utc v.dtstart) (pinned v.start_at)
  start_of false v = instant_of v.start_at

  unfoldable pub end_of : Bool → VEvent → Option Time
  end_of true v = all_day_date_utc v.dtend
  end_of false v = instant_of v.end_at

  abbrev pub started_event : ℕ → VEvent → Bool → Option Time → Parsed
  started_event index v all_day none =
      broken (record { index = index; uid = trim_space (value_or_empty v.uid) })
  started_event index v all_day (some start) = mapped (record {
    uid = trim_space (value_or_empty v.uid);
    summary = value_or_empty v.summary;
    description = value_or_empty v.description;
    start = start;
    end = end_of all_day v;
    all_day = all_day;
    recurrence = first_recurrence v.rrules;
  })

  -- mapVEvent
  unfoldable pub map_v_event : ℕ → VEvent → Parsed
  map_v_event index v =
      let all_day = is_all_day_dt_start v in started_event index v all_day (start_of all_day v)

  abbrev pub add_parsed : Parsed → ParseResult → ParseResult
  add_parsed (mapped ev) r = record r { events = ev ∷ r.events }
  add_parsed (broken x) r = record r { errors = x ∷ r.errors }

  -- the loop of Parse, from the index of the first event
  unfoldable pub parse_events : ℕ → ℕ → List VEvent → ParseResult
  parse_events todos index [] = record { events = []; skipped_todo = todos; errors = [] }
  parse_events todos index (v ∷ vs) =
      add_parsed (map_v_event index v) (parse_events todos (suc index) vs)

  -- Parse, after ical.ParseCalendar
  unfoldable pub parse : Calendar → ParseResult
  parse cal = parse_events cal.todos 0 cal.events

  abbrev pub google_time : Bool → Time → EventDateTime
  google_time true t = record { date_time = none; date = lib.format_date t; time_zone = [] }
  google_time false t = at_utc t

  abbrev pub google_end : Bool → Option Time → EventDateTime
  google_end all_day none = record { date_time = none; date = []; time_zone = [] }
  google_end all_day (some t) = google_time all_day t

  -- icsEventToGoogle
  unfoldable pub ics_event_to_google : IcsEvent → Event
  ics_event_to_google ev = record {
    id = ev.uid;
    summary = ev.summary;
    description = ev.description;
    start = google_time ev.all_day ev.start;
    end = google_end ev.all_day ev.end;
    status = [];
    etag = [];
    updated = 0;
    recurrence = ev.recurrence;
    task_id_property = none;
  }
