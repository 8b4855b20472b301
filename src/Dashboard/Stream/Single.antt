-- ===== src/Dashboard/Stream/Single.antt =====
-- How many sources of the stream are open.
use microservices_practice.Common.{
  ℕ, ◌-◌, ◌≤◌, ◌<◌, ◌≡◌, refl, Bool, true, false, not, Option, none, some, List, [], ◌∷◌, count_if,
  ltb, arith, Bool-cases, inl, inr,
}
use mathlib.Core.Path.{subst, sym}
use microservices_practice.Dashboard.Stream.{
  EventSource, Stream, Happening, source_opened, source_message, source_failed, timer_ran_out,
  authentication_changed, close, close_ref, close_current, connect, on_message, on_open, on_error,
  authenticate, reconnect, is_live, handle, run,
}

abbrev pub is_open : EventSource → Bool
is_open x = not x.closed

abbrev pub open_sources : Stream → ℕ
open_sources s = count_if is_open s.sources

-- At most the last source is open, and it is the one that the reference holds.
abbrev IsLast : Option ℕ → List EventSource → Type 0
IsLast ref [] = Unit {0}
IsLast ref (x ∷ xs) = (ref ≡ some x.id) × (count_if is_open xs ≡ 0)

abbrev pub IsSingle : Stream → Type 0
IsSingle s = IsLast s.event_source_ref s.sources

close-none :
    (id : ℕ) (xs : List EventSource) → count_if is_open xs ≡ 0 → count_if is_open (close id xs) ≡ 0
unfolding close
close-none id [] h = refl
close-none id (x ∷ xs) h = ground (arith, close-none id xs)

close-IsLast :
    (id : ℕ) (ref : Option ℕ) (xs : List EventSource) → IsLast ref xs → IsLast ref (close id xs)
unfolding close
close-IsLast id ref [] h = tt
close-IsLast id ref (x ∷ xs) h = (ground arith, close-none id xs h.1)

close-last :
    (id : ℕ) (xs : List EventSource) → IsLast (some id) xs → count_if is_open (close id xs) ≡ 0
unfolding close
close-last id [] h = refl
close-last id (x ∷ xs) h = ground (arith, close-none id xs)

no_last : (xs : List EventSource) → IsLast none xs → count_if is_open xs ≡ 0
no_last [] h = refl
no_last (x ∷ xs) h = cc h.0

close_ref-open :
    (ref : Option ℕ) (xs : List EventSource)
    → IsLast ref xs
    → count_if is_open (close_ref ref xs) ≡ 0
close_ref-open none xs h = no_last xs h
close_ref-open (some id) xs h = close-last id xs h

close_ref-IsLast :
    (other ref : Option ℕ) (xs : List EventSource) → IsLast ref xs → IsLast ref (close_ref other xs)
close_ref-IsLast none ref xs h = h
close_ref-IsLast (some id) ref xs h = close-IsLast id ref xs h

-- Closing the current source closes every source.
close_current-open : (s : Stream) → IsSingle s → open_sources (close_current s) ≡ 0
unfolding close_current
close_current-open s h = close_ref-open s.event_source_ref s.sources h

connect-IsSingle : (s : Stream) → IsSingle s → IsSingle (connect s)
unfolding connect
connect-IsSingle s h = (refl, close_current-open s h)

closed-IsSingle : (s : Stream) → IsSingle s → IsSingle (close_current s)
unfolding close_current
closed-IsSingle s h = close_ref-IsLast s.event_source_ref s.event_source_ref s.sources h

handle-IsSingle : (happening : Happening) (s : Stream) → IsSingle s → IsSingle (handle happening s)
unfolding handle on_open on_error reconnect authenticate on_message
handle-IsSingle (source_opened id) s h = elim (Bool-cases (is_live id s.sources)) [
  | inl live ↦ rw live h
  | inr dead ↦ rw dead h
]
handle-IsSingle (source_message id none) s h = elim (Bool-cases (is_live id s.sources)) [
  | inl live ↦ rw live h
  | inr dead ↦ rw dead h
]
handle-IsSingle (source_message id (some event)) s h = elim (Bool-cases (is_live id s.sources)) [
  | inl live ↦ rw live h
  | inr dead ↦ rw dead h
]
handle-IsSingle (source_failed id) s h = elim (Bool-cases (is_live id s.sources)) [
  | inl live ↦ rw live (close-IsLast id s.event_source_ref s.sources h)
  | inr dead ↦ rw dead h
]
handle-IsSingle timer_ran_out s h = elim (Bool-cases (ltb 0 s.timers)) [
  | inl waiting ↦ rw waiting (connect-IsSingle (record s { timers = s.timers - 1 }) h)
  | inr none_left ↦ rw none_left h
]
handle-IsSingle (authentication_changed true token) s h =
    connect-IsSingle (record (close_current s) { is_authenticated = true; stored_token = token })
      (closed-IsSingle s h)
handle-IsSingle (authentication_changed false token) s h = closed-IsSingle s h

IsSingle-le : (s : Stream) → IsSingle s → open_sources s ≤ 1
IsSingle-le s h = go s.sources h
  where
    go : (xs : List EventSource) → IsLast s.event_source_ref xs → count_if is_open xs ≤ 1
    go [] h = omega arith
    go (x ∷ xs) h = ground arith

run-IsSingle : (happenings : List Happening) (s : Stream) → IsSingle s → IsSingle (run happenings s)
unfolding run
run-IsSingle [] s h = h
run-IsSingle (happening ∷ rest) s h =
    run-IsSingle rest (handle happening s) (handle-IsSingle happening s h)

-- Whatever happens, in whatever order, to a stream with no source at first, at most one of its
-- sources is open.
pub run-open_sources :
    (happenings : List Happening) (s : Stream)
    → s.sources ≡ []
    → open_sources (run happenings s) ≤ 1
run-open_sources happenings s empty =
    let start : IsSingle s = subst (IsLast s.event_source_ref) (sym empty) tt in
    IsSingle-le (run happenings s) (run-IsSingle happenings s start)

-- After whatever run, signing out closes every source, and leaves `connected` and the waiting
-- timers as they are.
open_sources_signed_out :
    (happenings : List Happening) (s : Stream)
    → s.sources ≡ []
    → let before = run happenings s in
      let after = handle (authentication_changed false none) before in
      (open_sources after ≡ 0)
      × (after.connected ≡ before.connected)
      × (after.timers ≡ before.timers)
unfolding handle authenticate close_current
open_sources_signed_out happenings s empty =
    let start : IsSingle s = subst (IsLast s.event_source_ref) (sym empty) tt in
    let n = close_current-open (run happenings s) (run-IsSingle happenings s start) in
    (n, refl, refl)

-- Where at most the last source is open and a timer is waiting when the user signs out, one source
-- is open again, with nobody signed in, once the timer runs out.
pub run_signed_out :
    (s : Stream)
    → 0 < s.timers
    → IsSingle s
    → let after = run (authentication_changed false none ∷ timer_ran_out ∷ []) s in
      (after.is_authenticated ≡ false) × (open_sources after ≡ 1)
unfolding run handle authenticate reconnect connect close_current
run_signed_out s waiting h =
    let out : Stream = record (close_current s) {
      is_authenticated = false;
      stored_token = none;
      timers = s.timers - 1;
    } in
    let n = close_current-open out (closed-IsSingle s h) in (ground (arith, n), ground (arith, n))
