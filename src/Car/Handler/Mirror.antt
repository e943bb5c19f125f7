-- ===== src/Car/Handler/Mirror.antt =====
-- The dashboard shows what the worker read: MyCarUI/SerialHandler.cpp with MyCarUI/SerialWorker.cpp.
use learningproject.Common.{
  ℕ, ◌+◌, ◌≡◌, refl, ◌∙◌, Bool, false, List, [], ◌∷◌, ◌++◌, Option, none, some, ◌>>=◌, arith,
  length, inl, inr, Option-cases,
}
use learningproject.Car.Frame.Stream.{parse_rounds-Parses}
use learningproject.Car.Worker.{
  Signal, Readings, SerialWorker, parse_packet, on_ready_read, stop_work, start_work,
  on_error_occurred, request_weather_data,
}
use learningproject.Car.Worker.Feeding.{handle_packets, on_ready_read-rounds, after, sent}
use learningproject.Car.Handler.{SerialHandler, on_signal, on_signals}

-- What can happen to the worker: data, the timer, a request to open the port or to close it, and an error
-- of the port.
pub data Event : Type 0 where
  ready_read : List ℕ → Event
  timeout stop : Event
  start port_error : Bool → Event

unfoldable pub on_event : Event → SerialWorker → Option (SerialWorker × List Signal)
on_event (ready_read bytes) w = on_ready_read bytes w
on_event timeout w = some ((request_weather_data w).0, [])
on_event stop w = some (stop_work w)
on_event (start opened) w = some (start_work opened w)
on_event (port_error no_error) w = some (w, on_error_occurred no_error)

-- some events, each with the handler's work after it
unfoldable pub run :
    List Event → SerialWorker → SerialHandler → Option (SerialWorker × SerialHandler)
run [] w h = some (w, h)
run (e ∷ es) w h = do (w', signals) ← on_event e w; run es w' (on_signals signals h).0

abbrev pub is_open : Option Bool → Bool
is_open none = false
is_open (some open?) = open?

-- The handler has what was read last.
pub record Shows (r : Readings) (h : SerialHandler) : Type 0 where
  pub weather : h.weather ≡ r.weather
  pub car : h.car ≡ r.car
  pub reversing : h.is_reversing ≡ r.last_reverse_state

-- And it says whether the port is open.
pub record Mirrors (w : SerialWorker) (h : SerialHandler) : Type 0 where
  pub shows : Shows w.readings h
  pub linked : h.is_connected ≡ is_open w.serial

on_signals-append :
    (ss ts : List Signal) (h : SerialHandler)
    → (on_signals (ss ++ ts) h).0 ≡ (on_signals ts (on_signals ss h).0).0
unfolding on_signals
on_signals-append [] ts h = refl
on_signals-append (s ∷ ss) ts h = on_signals-append ss ts (on_signal s h).0

-- A packet changes readings and display alike, and not the state of the link.
parse_packet-Shows :
    (p : List ℕ) (r : Readings) (h : SerialHandler)
    → Shows r h
    → let (r', signals, _) = parse_packet p r in
      let h' = (on_signals signals h).0 in Shows r' h' × (h'.is_connected ≡ h.is_connected)
unfolding parse_packet on_signals on_signal
parse_packet-Shows p r h shown = ground arith

handle_packets-Shows :
    (ps : List (List ℕ)) (r : Readings) (h : SerialHandler)
    → Shows r h
    → let (r', signals) = handle_packets ps r in
      let h' = (on_signals signals h).0 in Shows r' h' × (h'.is_connected ≡ h.is_connected)
unfolding handle_packets on_signals
handle_packets-Shows [] r h shown = (shown, refl)
handle_packets-Shows (p ∷ ps) r h shown =
    let one = parse_packet-Shows p r h shown in
    let (all, link) =
      handle_packets-Shows ps (parse_packet p r).0 (on_signals (parse_packet p r).1 h).0 one.0 in
    rw (on_signals-append (parse_packet p r).1 (handle_packets ps (parse_packet p r).0).1 h)
      (all, link ∙ one.1)

-- What an event promises: the worker gets through it, and the display keeps up.
abbrev pub KeepsUp : Event → SerialWorker → SerialHandler → Type 0
KeepsUp e w h =
    (w' : SerialWorker) × (signals : List Signal) × (on_event e w ≡ some (w', signals))
    × Mirrors w' (on_signals signals h).0

ready_read-KeepsUp :
    (bytes : List ℕ) (w : SerialWorker) (h : SerialHandler)
    → Mirrors w h
    → KeepsUp (ready_read bytes) w h
unfolding on_event on_ready_read on_signals
ready_read-KeepsUp bytes w h m = elim (Option-cases w.serial) [
  | inl unplugged ↦ (w, [], rw (unplugged, on_ready_read) (ground (arith, unplugged)), m)
  | inr (open?, port) ↦
      let (ps, left, p) =
        parse_rounds-Parses (length (w.buffer ++ bytes) + 1) (w.buffer ++ bytes) (omega arith) in
      let (all, link) = handle_packets-Shows ps w.readings h m.shows in
      (
        after ps left w,
        sent ps w,
        on_ready_read-rounds bytes w open? ps left port p.ends,
        record { shows = all; linked = link ∙ m.linked },
      )
]

on_event-KeepsUp : (e : Event) (w : SerialWorker) (h : SerialHandler) → Mirrors w h → KeepsUp e w h
unfolding on_event on_signals on_signal stop_work start_work on_error_occurred request_weather_data
on_event-KeepsUp (ready_read bytes) w h m = ready_read-KeepsUp bytes w h m
on_event-KeepsUp timeout w h m = ((request_weather_data w).0, [], refl, ground arith)
on_event-KeepsUp stop w h m = ((stop_work w).0, (stop_work w).1, refl, ground arith)
on_event-KeepsUp (start opened) w h m =
    ((start_work opened w).0, (start_work opened w).1, refl, ground arith)
on_event-KeepsUp (port_error no_error) w h m = (w, on_error_occurred no_error, refl, ground arith)

-- Whatever happens on the serial line, in any order, the worker never fails to come to an end, and once
-- the handler has taken the signals of an event the dashboard shows the weather, the car's data and the
-- reverse state that were read last, and whether the port is open, if it did so at the start.
pub run-Mirrors :
    (es : List Event) (w : SerialWorker) (h : SerialHandler)
    → Mirrors w h
    → (w' : SerialWorker) × (h' : SerialHandler) × (run es w h ≡ some (w', h')) × Mirrors w' h'
unfolding run
run-Mirrors [] w h m = (w, h, refl, m)
run-Mirrors (e ∷ es) w h m =
    let (w', signals, runs, m') = on_event-KeepsUp e w h m in
    let (w'', h'', rest, m'') = run-Mirrors es w' (on_signals signals h).0 m' in
    (w'', h'', ground (arith, runs, rest), m'')
