-- ===== src/Dashboard/Stream.antt =====
-- The event stream of the dashboard (contexts/SSEContext.tsx) as a state machine. The browser's
-- `EventSource`s and timers are part of the state: a source that is closed delivers nothing more.
pub mod Single
use microservices_practice.Common.{
  ℕ, suc, ◌-◌, String, Bool, true, false, Option, none, some, List, [], ◌∷◌, ◌++◌, length, ltb,
  str_eq, ◌==◌, if◌then◌else◌,
}
use microservices_practice.Dashboard.Auth.{before_dot}

pub record SseEvent : Type 0 where
  pub event_type : String
  pub source_service : String
  pub payload : String  -- the JSON text
  pub timestamp : String

pub data QueryKey : Type 0 where
  flights upcoming_arrivals turnarounds crew equipment events alerts : QueryKey

pub record EventSource : Type 0 where
  pub id : ℕ
  pub token : Option String  -- of the address that it was opened with
  pub closed : Bool

-- `sources` has every source that was opened, the last one first; `timers` counts the reconnections
-- that `setTimeout` still holds.
pub record Stream : Type 0 where
  pub is_authenticated : Bool
  pub stored_token : Option String
  pub sources : List EventSource
  pub event_source_ref : Option ℕ
  pub connected : Bool
  pub timers : ℕ
  pub last_event : Option SseEvent
  pub invalidated : List QueryKey

unfoldable pub close : ℕ → List EventSource → List EventSource
close id [] = []
close id (x ∷ xs) = (if x.id == id then record x { closed = true } else x) ∷ close id xs

-- `eventSourceRef.current?.close()`
abbrev pub close_ref : Option ℕ → List EventSource → List EventSource
close_ref none xs = xs
close_ref (some id) xs = close id xs

unfoldable pub close_current : Stream → Stream
unfolding close
close_current s = record s { sources = close_ref s.event_source_ref s.sources }

abbrev opened : Stream → Stream
opened s = record s {
  sources = record { id = length s.sources; token = s.stored_token; closed = false } ∷ s.sources;
  event_source_ref = some (length s.sources);
}

unfoldable pub connect : Stream → Stream
unfolding close_current
connect s = opened (close_current s)

-- The queries that a message makes stale, by the part of its type before the first dot.
unfoldable pub invalidated_by : String → List QueryKey
unfolding before_dot
invalidated_by event_type =
    let prefix = before_dot event_type in
    (if str_eq prefix "flight"
      then QueryKey.flights ∷ QueryKey.upcoming_arrivals ∷ []
      else if str_eq prefix "turnaround"
      then QueryKey.turnarounds ∷ []
      else if str_eq prefix "crew"
      then QueryKey.crew ∷ []
      else if str_eq prefix "equipment"
      then QueryKey.equipment ∷ []
      else [])
    ++ QueryKey.events ∷ QueryKey.alerts ∷ []

-- `es.onmessage`; a message that does not parse is ignored.
unfoldable pub on_message : Option SseEvent → Stream → Stream
unfolding invalidated_by
on_message none s = s
on_message (some event) s = record s {
  last_event = some event;
  invalidated = s.invalidated ++ invalidated_by event.event_type;
}

unfoldable pub on_open : Stream → Stream
on_open s = record s { connected = true }

unfoldable pub on_error : ℕ → Stream → Stream
unfolding close
on_error id s = record s { connected = false; sources = close id s.sources; timers = suc s.timers }

-- The effect on `isAuthenticated`: the clean-up of the last run, then the effect itself.
unfoldable pub authenticate : Bool → Option String → Stream → Stream
unfolding close_current connect
authenticate authenticated token s =
    let s' = record (close_current s) { is_authenticated = authenticated; stored_token = token } in
    if authenticated then connect s' else s'

-- A timer runs out.
unfoldable pub reconnect : Stream → Stream
unfolding connect
reconnect s = connect (record s { timers = s.timers - 1 })

pub data Happening : Type 0 where
  source_opened : ℕ → Happening
  source_message : ℕ → Option SseEvent → Happening
  source_failed : ℕ → Happening
  timer_ran_out : Happening
  authentication_changed : Bool → Option String → Happening

-- Whether a source is there and not closed.
unfoldable pub is_live : ℕ → List EventSource → Bool
is_live id [] = false
is_live id (x ∷ xs) =
    let rest = is_live id xs in if x.id == id then (if x.closed then rest else true) else rest

unfoldable pub handle : Happening → Stream → Stream
unfolding is_live on_open on_message on_error reconnect authenticate
handle (source_opened id) s = if is_live id s.sources then on_open s else s
handle (source_message id event) s = if is_live id s.sources then on_message event s else s
handle (source_failed id) s = if is_live id s.sources then on_error id s else s
handle timer_ran_out s = if ltb 0 s.timers then reconnect s else s
handle (authentication_changed authenticated token) s = authenticate authenticated token s

unfoldable pub run : List Happening → Stream → Stream
unfolding handle
run [] s = s
run (happening ∷ rest) s = run rest (handle happening s)
