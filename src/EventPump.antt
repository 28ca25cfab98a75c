-- ===== src/EventPump.antt =====
-- event.go and the goroutines that NewTerminalFromPipes of terminal.go starts, as steps of one state. The
-- world is what hooks change; `line_in` is the printer's stack of middlewares over its line out.
pub mod Kept
pub mod Delivers
pub mod Ends
mod Tests
use telnet.Prelude.{
  ℕ, suc, ◌+◌, ◌<◌, ◌≡◌, ◌⊎◌, Bool, true, false, Option, none, some, List, [], ◌∷◌, ◌++◌, length,
}
use telnet.TerminalData.{TerminalData}
use telnet.Hooks.{EventPublisher, fire}

-- `eventType` with the field that it stands for.
pub data EventsTransport (E : Type 0) : Type 0 where
  event_unknown : EventsTransport E
  event_error : E → EventsTransport E
  event_printer_output : TerminalData → EventsTransport E
  event_outbound_data : TerminalData → EventsTransport E

-- The terminal loop, its cleanup, and behind it.
pub data Phase : Type 0 where
  looping draining finished : Phase

-- The capacity of `events`.
abbrev pub events_capacity : ℕ
events_capacity = 100

module _ (W E : Type 0) where
  -- The publishers of a terminal that the pump uses.
  pub record TerminalHooks : Type 0 where
    pub printer_output_hooks : EventPublisher W TerminalData
    pub outbound_data_hooks : EventPublisher W TerminalData
    pub encountered_error_hooks : EventPublisher W E

  -- `events` is the channel of the pump, `closed` whether it is closed, and `complete` whether there
  -- is something in the other channel. `printer_exited` and `keyboard_exited` are the `complete` of
  -- the two loops, `cancelled` is the context of the terminal loop.
  pub record Goroutines : Type 0 where
    pub events : List (EventsTransport E)
    pub closed : Bool
    pub complete : Bool
    pub phase : Phase
    pub printer_exited : Bool
    pub keyboard_exited : Bool
    pub cancelled : Bool
    pub panicked : Bool
    pub world : W

  unfoldable pub new_goroutines : W → Goroutines
  new_goroutines w = record {
    events = [];
    closed = false;
    complete = false;
    phase = looping;
    printer_exited = false;
    keyboard_exited = false;
    cancelled = false;
    panicked = false;
    world = w;
  }

  -- To send to a channel that is closed panics.
  unfoldable pub send : EventsTransport E → Goroutines → Goroutines
  send ev g = elim g.closed [
    | true ↦ record g { panicked = true }
    | false ↦ record g { events = g.events ++ (ev ∷ []) }
  ]

  unfoldable pub encountered_error : E → Goroutines → Goroutines
  unfolding send
  encountered_error err g = send (event_error err) g

  unfoldable pub encountered_printer_output : TerminalData → Goroutines → Goroutines
  unfolding send
  encountered_printer_output output g = send (event_printer_output output) g

  unfoldable pub encountered_outbound_data : TerminalData → Goroutines → Goroutines
  unfolding send
  encountered_outbound_data output g = send (event_outbound_data output) g

  -- A send waits for room, unless the channel is closed.
  abbrev pub CanSend : Goroutines → Type 0
  CanSend g = (length g.events < events_capacity) ⊎ (g.closed ≡ true)

  -- `close(p.events)`, with which the cleanup begins.
  unfoldable pub close_events : Goroutines → Goroutines
  close_events g = record g { closed = true; phase = draining }

  unfoldable pub complete_pump : Goroutines → Goroutines
  complete_pump g = record g { complete = true; phase = finished }

  module _ (line_in : (TerminalData → W → W) → TerminalData → W → W) (h : TerminalHooks) where
    -- `none` is a panic.
    unfoldable pub process_event : EventsTransport E → W → Option W
    unfolding fire
    process_event event_unknown w = none
    process_event (event_error err) w = some (fire W E h.encountered_error_hooks err w)
    process_event (event_printer_output output) w =
        some (line_in (fire W TerminalData h.printer_output_hooks) output w)
    process_event (event_outbound_data output) w =
        some (fire W TerminalData h.outbound_data_hooks output w)

    -- An event is taken out of the channel, with those that are left, and processed.
    unfoldable pub receive_event :
        EventsTransport E → List (EventsTransport E) → Goroutines → Goroutines
    unfolding process_event
    receive_event ev rest g = elim (process_event ev g.world) [
      | none ↦ record g { events = rest; panicked = true }
      | some w ↦ record g { events = rest; world = w }
    ]

    -- One step of one goroutine, with what it sends. A loop may exit at any time.
    pub data Step (g : Goroutines) : List (EventsTransport E) → Goroutines → Type 0 where
      printer_error :
          (err : E)
          → g.printer_exited ≡ false
          → CanSend g
          → Step g (event_error err ∷ []) (encountered_error err g)
      printer_output :
          (output : TerminalData)
          → g.printer_exited ≡ false
          → CanSend g
          → Step g (event_printer_output output ∷ []) (encountered_printer_output output g)
      keyboard_error :
          (err : E)
          → g.keyboard_exited ≡ false
          → CanSend g
          → Step g (event_error err ∷ []) (encountered_error err g)
      keyboard_outbound :
          (output : TerminalData)
          → g.keyboard_exited ≡ false
          → CanSend g
          → Step g (event_outbound_data output ∷ []) (encountered_outbound_data output g)
      printer_exits : g.printer_exited ≡ false → Step g [] (record g { printer_exited = true })
      keyboard_exits : g.keyboard_exited ≡ false → Step g [] (record g { keyboard_exited = true })
      cancels :
          g.printer_exited ≡ true
          → g.keyboard_exited ≡ true
          → g.cancelled ≡ false
          → Step g [] (record g { cancelled = true })
      receives :
          (ev : EventsTransport E) (rest : List (EventsTransport E))
          → g.phase ≡ looping
          → g.events ≡ ev ∷ rest
          → Step g [] (receive_event ev rest g)
      stops : g.phase ≡ looping → g.cancelled ≡ true → Step g [] (close_events g)
      drains :
          (ev : EventsTransport E) (rest : List (EventsTransport E))
          → g.phase ≡ draining
          → g.events ≡ ev ∷ rest
          → Step g [] (receive_event ev rest g)
      completes : g.phase ≡ draining → g.events ≡ [] → Step g [] (complete_pump g)

    -- Any steps of the goroutines, with how many there are and what has been sent.
    pub data Run (g : Goroutines) : ℕ → List (EventsTransport E) → Goroutines → Type 0 where
      here : Run g 0 [] g
      next :
          {n : ℕ} {sent ev : List (EventsTransport E)} {k l : Goroutines}
          → Run g n sent k
          → Step k ev l
          → Run g (suc n) (sent ++ ev) l
