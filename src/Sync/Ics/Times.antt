-- ===== src/Sync/Ics/Times.antt =====
-- The times of an imported file on their way through mapVEvent (pkg/ics/parse.go) and
-- icsEventToGoogle (internal/service/ics_import_service.go).
use goreminder.Prelude.{
  ℕ, ◌%◌, ◌≡◌, refl, Bool, true, false, Option, none, some, ltb, arith, Bool-cases, Option-cases,
  inl, inr, null,
}
use mathlib.Core.Path.{subst}
use goreminder.Text.{Text, trim_space}
use goreminder.Clock.{Time, day}
use goreminder.Sync.Event.{EventDateTime, time_or, event_start_time, event_end_time}
use goreminder.Sync.Ics.{
  VProperty, VEvent, IcsEvent, Parsed, mapped, broken, DateLayouts, all_day_date_utc, byte_length,
  LocalTime, first_of, pinned, start_of, end_of, started_event, map_v_event, google_time,
  google_end, ics_event_to_google,
}

abbrev IsMidnight : Time → Type 0
IsMidnight t = t % day ≡ 0

abbrev IsDate : Bool → Time → Type 0
IsDate true t = IsMidnight t
IsDate false t = Unit

abbrev AreDates : Bool → Option Time → Type 0
AreDates all_day none = Unit
AreDates all_day (some t) = IsDate all_day t

-- the times of an event that lasts whole days are midnights
abbrev AreTimes : Parsed → Type 0
AreTimes (mapped ev) = IsDate ev.all_day ev.start × AreDates ev.all_day ev.end
AreTimes (broken x) = Unit

module _ (lib : DateLayouts) (parse_date : Text → Option Time)
    (dates : (s : Text) (t : Time) → lib.parse_compact s ≡ some t → IsMidnight t)
    (given : (t : Time) → IsMidnight t → null (lib.format_date t) ≡ false)
    (reads : (t : Time) → IsMidnight t → parse_date (lib.format_date t) ≡ some t) where
  compact-AreDates : (s : Text) → AreDates true (lib.parse_compact s)
  compact-AreDates s = elim (Option-cases (lib.parse_compact s)) [
    | inl f ↦ rw f tt
    | inr (t, f) ↦ rw f (dates s t f)
  ]

  all_day_date_utc-AreDates : (p : Option VProperty) → AreDates true (all_day_date_utc lib p)
  unfolding all_day_date_utc
  all_day_date_utc-AreDates none = tt
  all_day_date_utc-AreDates (some p) =
      elim (Bool-cases (ltb (byte_length (trim_space p.value)) 8)) [
        | inl f ↦ rw f tt
        | inr f ↦ rw f (compact-AreDates _)
      ]

  first_of-AreDates :
      (o fallback : Option Time)
      → AreDates true o
      → AreDates true fallback
      → AreDates true (first_of o fallback)
  first_of-AreDates none fallback h k = k
  first_of-AreDates (some t) fallback h k = h

  pinned-AreDates : (o : Option LocalTime) → AreDates true (pinned o)
  pinned-AreDates none = tt
  pinned-AreDates (some t) = omega arith

  timed-AreDates : (o : Option Time) → AreDates false o
  timed-AreDates none = tt
  timed-AreDates (some t) = tt

  start_of-AreDates : (all_day : Bool) (v : VEvent) → AreDates all_day (start_of lib all_day v)
  unfolding start_of
  start_of-AreDates true v =
      first_of-AreDates _ _ (all_day_date_utc-AreDates v.dtstart) (pinned-AreDates v.start_at)
  start_of-AreDates false v = timed-AreDates _

  end_of-AreDates : (all_day : Bool) (v : VEvent) → AreDates all_day (end_of lib all_day v)
  unfolding end_of
  end_of-AreDates true v = all_day_date_utc-AreDates v.dtend
  end_of-AreDates false v = timed-AreDates _

  started_event-AreTimes :
      (i : ℕ) (v : VEvent) (all_day : Bool) (start : Option Time)
      → AreDates all_day start
      → AreTimes (started_event lib i v all_day start)
  started_event-AreTimes i v all_day none h = tt
  started_event-AreTimes i v all_day (some t) h = (h, end_of-AreDates all_day v)

  map_v_event-AreTimes : (i : ℕ) (v : VEvent) → AreTimes (map_v_event lib i v)
  unfolding map_v_event
  map_v_event-AreTimes i v = started_event-AreTimes i v _ _ (start_of-AreDates _ v)

  abbrev read_back : EventDateTime → Option Time
  read_back at = time_or parse_date at at.date_time

  read_back-google_time :
      (all_day : Bool) (t : Time)
      → IsDate all_day t
      → read_back (google_time lib all_day t) ≡ some t
  read_back-google_time true t h = rw (given t h) (reads t h)
  read_back-google_time false t h = refl

  read_back-google_end :
      (all_day : Bool) (end : Option Time)
      → AreDates all_day end
      → read_back (google_end lib all_day end) ≡ end
  read_back-google_end all_day none h = refl
  read_back-google_end all_day (some t) h = read_back-google_time all_day t h

  -- An event that Parse reads from a file keeps its start and its end, or has none of the latter,
  -- when it is turned into a Google event and read again, also where its times are dates, if
  -- package time reads the dates that it writes.
  pub map_v_event-times :
      (i : ℕ) (v : VEvent) (ev : IcsEvent)
      → map_v_event lib i v ≡ mapped ev
      → (event_start_time parse_date (ics_event_to_google lib ev) ≡ some ev.start)
        × (event_end_time parse_date (ics_event_to_google lib ev) ≡ ev.end)
  unfolding event_start_time event_end_time ics_event_to_google
  map_v_event-times i v ev h =
      let (starts, ends) = subst AreTimes h (map_v_event-AreTimes i v) in
      (
        read_back-google_time ev.all_day ev.start starts,
        read_back-google_end ev.all_day ev.end ends,
      )
