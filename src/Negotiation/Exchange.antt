-- ===== src/Negotiation/Exchange.antt =====
-- telopts/NAWS.go at both ends: a size that one terminal sends, and the size that the other stores.
use telnet.Prelude.{
  Option, Bool, ◌∷◌, Bytes, ℕ, ◌+◌, ◌*◌, ◌/◌, ◌%◌, ◌^◌, ◌<◌, none, some, ◌≡◌, refl, ap₂, ap, ◌∙◌,
  arith,
}
use telnet.Opcode.{sb}
use telnet.Command.{Command}
use telnet.Keyboard.{command_bytes}
use telnet.Scanner.Frames.{IsClean}
use telnet.Keyboard.Wire.{ReadsAs, subnegotiates, command_bytes-ReadsAs}
use telnet.TerminalData.{TelOptState, unknown, inactive, requested, active}
use telnet.Terminal.{
  Terminal, Naws, naws, TelOpt, find_option, put_option, raise, naws_remote_size_changed,
}
use telnet.TelOpts.{
  Subnegotiated, SubnegotiationError, unexpected_subnegotiation, base_subnegotiate,
}
use telnet.TelOpts.Location.{send_location_code, send_location_subnegotiate}
use telnet.Terminal.{SendLocation, send_location, send_location_remote_updated, TelOptEvent}
use telnet.TelOpts.NawsSize.{naws_code, size_bytes, naws_subnegotiate}
use telnet.TelOpts.Dispatch.{subnegotiate, subnegotiate_kind}
use telnet.Negotiation.{process_subnegotiation}
use telnet.Negotiation.Options.{find_option-put_option}

two_bytes : (n : ℕ) → n < 2 ^ 16 → n / 2 ^ 8 % 2 ^ 8 * 2 ^ 8 + n % 2 ^ 8 ≡ n
two_bytes n h = omega arith

-- NAWS on a terminal whose remote side is active.
abbrev pub active_naws : ℕ → ℕ → TelOptState → Naws → TelOpt
active_naws code usage s m = record {
  base = record { code = code; local_state = s; remote_state = active; usage = usage };
  kind = naws m;
}

-- What a subnegotiation leaves, once it is put back in the terminal.
arrived :
    (code : ℕ) (event : TelOptEvent) (t : Terminal) {r : Subnegotiated} {o p : TelOpt}
    {failure : Option SubnegotiationError}
    → r ≡ record { option = p; terminal = raise event t; failure = failure }
    → find_option code t.options ≡ some o
    → (r.failure ≡ failure)
      × (find_option code (put_option code r.option r.terminal.options) ≡ some p)
unfolding raise
arrived code event t {o = o} {p = p} e f = (
  ap (λ x. x.failure) e,
  ap (λ x. find_option code (put_option code x.option x.terminal.options)) e
      ∙ find_option-put_option code o p t.options f,
)

-- What SetLocalSize and a transition write.
abbrev pub size_command : ℕ → ℕ → Command
size_command width height = record {
  op_code = sb;
  option = naws_code;
  subnegotiation = size_bytes width height;
}

module _ (width height code usage : ℕ) (n : Naws) where
  size_is_read :
      (s : TelOptState) (t : Terminal)
      → width < 2 ^ 16
      → height < 2 ^ 16
      → subnegotiate (size_bytes width height) (active_naws code usage s n) t ≡ record {
        option =
            active_naws code usage s (record n { remote_width = width; remote_height = height });
        terminal = raise (naws_remote_size_changed width height) t;
        failure = none;
      }
  unfolding subnegotiate subnegotiate_kind naws_subnegotiate size_bytes
  size_is_read s t hw hh =
      ap₂
        (λ w h. record {
          option = active_naws code usage s (record n { remote_width = w; remote_height = h });
          terminal = raise (naws_remote_size_changed w h) t;
          failure = none;
        })
        (two_bytes width hw) (two_bytes height hh)

  size_is_processed :
      (s : TelOptState) (t : Terminal)
      → width < 2 ^ 16
      → height < 2 ^ 16
      → find_option naws_code t.options ≡ some (active_naws code usage s n)
      → let r = process_subnegotiation (size_command width height) t in
        (r.1 ≡ none)
        × (find_option naws_code r.0.options
            ≡ some (
                active_naws code usage s
                  (record n { remote_width = width; remote_height = height })))
  unfolding process_subnegotiation
  size_is_processed active t hw hh e =
      rw (e, process_subnegotiation) (arrived naws_code _ t (size_is_read active t hw hh) e)
  size_is_processed inactive t hw hh e =
      rw (e, process_subnegotiation) (arrived naws_code _ t (size_is_read inactive t hw hh) e)
  size_is_processed requested t hw hh e =
      rw (e, process_subnegotiation) (arrived naws_code _ t (size_is_read requested t hw hh) e)
  size_is_processed unknown t hw hh e =
      rw (e, process_subnegotiation) (arrived naws_code _ t (size_is_read unknown t hw hh) e)

  -- For a width and height below 65536 in whose bytes no 255 stands before a 255 or 240, or at the
  -- end, what writeCommand writes for the subnegotiation is cut out whole by the scanner, whatever
  -- follows, and parses back to it; and a terminal whose remote side of NAWS is active, processing
  -- it, reports no error and stores that size, and the rest of the telopt is as it was.
  pub naws_size_arrives :
      (s : TelOptState) (t : Terminal) (rest : Bytes) (at_eof : Bool)
      → width < 2 ^ 16
      → height < 2 ^ 16
      → IsClean (naws_code ∷ size_bytes width height)
      → find_option naws_code t.options ≡ some (active_naws code usage s n)
      → let c = size_command width height in
        let r = process_subnegotiation c t in
        ReadsAs c (command_bytes c) rest at_eof
        × (r.1 ≡ none)
        × (find_option naws_code r.0.options
            ≡ some (
                active_naws code usage s
                  (record n { remote_width = width; remote_height = height })))
  naws_size_arrives s t rest at_eof hw hh clean e =
      let (ok_, stored) = size_is_processed s t hw hh e in
      (
        command_bytes-ReadsAs rest at_eof (subnegotiates naws_code (size_bytes width height) clean),
        ok_,
        stored,
      )

-- SEND-LOCATION on a terminal whose remote side is active.
abbrev pub active_location : ℕ → ℕ → TelOptState → SendLocation → TelOpt
active_location code usage s l = record {
  base = record { code = code; local_state = s; remote_state = active; usage = usage };
  kind = send_location l;
}

module _ (location : Bytes) (code usage : ℕ) (l : SendLocation) where
  location_is_read :
      (s : TelOptState) (t : Terminal)
      → subnegotiate location (active_location code usage s l) t ≡ record {
        option = active_location code usage s (record l { remote_location = location });
        terminal = raise (send_location_remote_updated location) t;
        failure = some (unexpected_subnegotiation location);
      }
  unfolding subnegotiate subnegotiate_kind send_location_subnegotiate base_subnegotiate
  location_is_read s t = refl

  -- A terminal whose remote side of SEND-LOCATION is active, reading a subnegotiation of it, stores
  -- the location, leaves the rest of the telopt as it was, and returns the error for an unexpected
  -- subnegotiation.
  location_arrives_with_error :
      (s : TelOptState) (t : Terminal)
      → find_option send_location_code t.options ≡ some (active_location code usage s l)
      → let r =
          process_subnegotiation
            (record { op_code = sb; option = send_location_code; subnegotiation = location })
            t in
        (r.1 ≡ some (unexpected_subnegotiation location))
        × (find_option send_location_code r.0.options
            ≡ some (active_location code usage s (record l { remote_location = location })))
  unfolding process_subnegotiation
  location_arrives_with_error active t e =
      rw (e, process_subnegotiation) (arrived send_location_code _ t (location_is_read active t) e)
  location_arrives_with_error inactive t e =
      rw (e, process_subnegotiation)
        (arrived send_location_code _ t (location_is_read inactive t) e)
  location_arrives_with_error requested t e =
      rw (e, process_subnegotiation)
        (arrived send_location_code _ t (location_is_read requested t) e)
  location_arrives_with_error unknown t e =
      rw (e, process_subnegotiation) (arrived send_location_code _ t (location_is_read unknown t) e)
