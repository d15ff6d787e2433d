-- ===== src/Examples/Imports.antt =====
-- Examples of the import of a calendar file.
use goreminder.Prelude.{
  ℕ, ◌*◌, ◌%◌, ◌≡◌, refl, true, Option, none, some, [], ◌∷◌, if◌then◌else◌, arith,
}
use goreminder.Text.{Text, codes, text_eq, to_lower, trim_space}
use goreminder.Clock.{Time, day}
use goreminder.Errors.{ok}
use goreminder.Sync.Event.{event_start_time, event_end_time}
use goreminder.Sync.Ics.{
  VEvent, Calendar, IcsEvent, mapped, DateLayouts, map_v_event, start_of, is_all_day_dt_start,
  all_day_date_utc, byte_length, end_of, first_recurrence, ics_event_to_google,
}
use goreminder.Sync.Ics.Import.{
  IcsImportOptions, import_ics, check_options, check_group, check_related,
}
use goreminder.Sync.Ics.Times.{map_v_event-times}
use goreminder.Sync.Ics.Counts.{Counts, Answers, import_ics-Counts}
use goreminder.Service.World.{◌>>=◌, pure, map_err, outside}
use goreminder.Service.Create.{get_user}
use goreminder.Examples.{world}
use goreminder.Examples.Syncs.{sync_env}

abbrev parse_compact : Text → Option Time
parse_compact s = if text_eq s (codes "00010111") then some (10 * day) else none

-- a date as one code point
abbrev layouts : DateLayouts
layouts = record { parse_compact = parse_compact; format_date = λ t. t ∷ [] }

abbrev parse_date : Text → Option Time
parse_date [] = none
parse_date (c ∷ s) = some c

parse_compact-date : (s : Text) (t : Time) → parse_compact s ≡ some t → t % day ≡ 0
parse_compact-date s t h = ground arith

abbrev holiday : VEvent
holiday = record {
  uid = some (record { value = codes "h1"; parameters = [] });
  dtstart =
      some
        (record { value = codes "00010111"; parameters = (codes "value", codes "date" ∷ []) ∷ [] });
  dtend = none;
  summary = some (record { value = codes "holiday"; parameters = [] });
  description = none;
  rrules = [];
  start_at = none;
  end_at = none;
}

abbrev broken_one : VEvent
broken_one = record holiday { dtstart = none }

abbrev holiday_event : IcsEvent
holiday_event = record {
  uid = codes "h1";
  summary = codes "holiday";
  description = [];
  start = 10 * day;
  end = none;
  all_day = true;
  recurrence = [];
}

read_holiday : map_v_event layouts 0 holiday ≡ mapped holiday_event
unfolding map_v_event start_of is_all_day_dt_start to_lower all_day_date_utc byte_length trim_space
    end_of first_recurrence
read_holiday = refl

map_v_event-times_example :
    (event_start_time parse_date (ics_event_to_google layouts holiday_event) ≡ some (10 * day))
    × (event_end_time parse_date (ics_event_to_google layouts holiday_event) ≡ none)
map_v_event-times_example =
    map_v_event-times layouts parse_date parse_compact-date (λ t h. refl) (λ t h. refl) 0 holiday
      holiday_event read_holiday

abbrev options : IcsImportOptions
options = record { user_id = 7; group_id = some 4; messenger_related_user_id = none }

abbrev file : Calendar
file = record { todos = 1; events = holiday ∷ broken_one ∷ [] }

abbrev group_owner : ℕ → Option ℕ
group_owner id = some 7

accepted : (check_options sync_env layouts group_owner options world).0 ≡ ok tt
unfolding check_options ◌>>=◌ pure map_err get_user outside check_group check_related
accepted = refl

import_ics-Counts_example :
    Answers (Counts 2 1) (import_ics sync_env layouts group_owner options (some file) world).0
import_ics-Counts_example =
    import_ics-Counts sync_env layouts group_owner options file world accepted
