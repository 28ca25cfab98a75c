-- ===== src/Printer/Arrives.antt =====
-- keyboard.go, and all of the way in of the other side: commands from keyboard to telopts.
use telnet.Prelude.{
  ℕ, suc, map, ap₂, ◌+◌, ◌≤◌, ◌<◌, ◌≡◌, refl, sym, ap, ◌∙◌, subst, Bool, Option, List, [], ◌∷◌,
  ◌++◌, Bytes, arith, length,
}
use telnet.Command.{Command}
use telnet.TerminalData.{TerminalData, command_data, PostSend}
use telnet.Terminal.{Terminal}
use telnet.Keyboard.{command_bytes}
use telnet.Keyboard.Wire.{IsSendable}
use telnet.Keyboard.Loop.{keyboard_loop, new_keyboard_loop}
use telnet.Keyboard.Write.{KeyboardWorld, KeyboardError}
use telnet.Keyboard.Sends.{command_events, AreUnsuppressed, bytes_of, write_to, loop_sends}
use telnet.Charset.Decode.{EncodingState, Decoded}
use telnet.DataParser.{Ansi}
use telnet.DataParser.Pieces.{IsDecoder, Position}
use telnet.TelnetScanner.{ScanError}
use telnet.Printer.Delivers.{delivered, Leaves}
use telnet.Printer.Messages.{Message, flat, commands, wire, out}
use telnet.Printer.Wire.{AreSent, Apart, AreReads, calls, arrivals, print, print-wire}

-- What was written, one behind the other.
abbrev pub joined : List Bytes → Bytes
joined [] = []
joined (b ∷ bs) = b ++ joined bs

abbrev messages : List (Bool × Command) → List Message
messages [] = []
messages ((locked, c) ∷ cs) = commands c ∷ messages cs

-- The prompts and commands that are to be processed.
abbrev pub outputs : List (Bool × Command) → List TerminalData
outputs [] = []
outputs ((locked, c) ∷ cs) = out c ∷ outputs cs

abbrev pub AreSendable : List (Bool × Command) → Type 0
AreSendable [] = Unit {0}
AreSendable ((locked, c) ∷ cs) = IsSendable c × AreSendable cs

joined-bytes_of : (cs : List (Bool × Command)) → joined (bytes_of cs) ≡ wire (messages cs)
joined-bytes_of [] = refl
joined-bytes_of ((locked, c) ∷ cs) = ap (λ b. command_bytes c ++ b) (joined-bytes_of cs)

messages-append : (cs ds : List (Bool × Command)) → messages (cs ++ ds) ≡ messages cs ++ messages ds
messages-append [] ds = refl
messages-append ((locked, c) ∷ cs) ds = ap (◌∷◌ (commands c)) (messages-append cs ds)

messages-flat :
    (reads : List (List (Bool × Command))) → flat (map messages reads) ≡ messages (flat reads)
messages-flat [] = refl
messages-flat (cs ∷ reads) =
    ap (λ ms. messages cs ++ ms) (messages-flat reads) ∙ sym (messages-append cs (flat reads))

bytes_of-append : (cs ds : List (Bool × Command)) → bytes_of (cs ++ ds) ≡ bytes_of cs ++ bytes_of ds
bytes_of-append [] ds = refl
bytes_of-append ((locked, c) ∷ cs) ds = ap (◌∷◌ (command_bytes c)) (bytes_of-append cs ds)

-- What one read brings of the writes of these commands.
abbrev pub read_of : List (Bool × Command) → Bytes
read_of cs = joined (bytes_of cs)

reads-wire :
    (reads : List (List (Bool × Command))) → map read_of reads ≡ map wire (map messages reads)
reads-wire [] = refl
reads-wire (cs ∷ reads) = ap₂ (λ b bs. b ∷ bs) (joined-bytes_of cs) (reads-wire reads)

-- Each read brings the bytes of one command or more.
abbrev pub AreReadWhole : List (List (Bool × Command)) → Type 0
AreReadWhole [] = Unit {0}
AreReadWhole (cs ∷ reads) = (1 ≤ length cs) × AreReadWhole reads

bytes_of-flat :
    (reads : List (List (Bool × Command))) → bytes_of (flat reads) ≡ flat (map bytes_of reads)
bytes_of-flat [] = refl
bytes_of-flat (cs ∷ reads) =
    bytes_of-append cs (flat reads) ∙ ap (λ bs. bytes_of cs ++ bs) (bytes_of-flat reads)

length-messages : (cs : List (Bool × Command)) → length (messages cs) ≡ length cs
length-messages [] = refl
length-messages ((locked, c) ∷ cs) = omega (arith, length-messages cs)

length-outputs : (cs : List (Bool × Command)) → length (outputs cs) ≡ length cs
length-outputs [] = refl
length-outputs ((locked, c) ∷ cs) = omega (arith, length-outputs cs)

-- The fuel: a read and its commands, and the end.
abbrev pub calls_for : List (List (Bool × Command)) → ℕ
calls_for [] = 2
calls_for (cs ∷ reads) = suc (length cs + calls_for reads)

module _ (decode : ℕ → Bytes → EncodingState → Decoded) (a : Ansi) where
  open a use {Parser}

  messages-AreSent : (cs : List (Bool × Command)) → AreSendable cs → AreSent decode a (messages cs)
  messages-AreSent [] h = tt
  messages-AreSent ((locked, c) ∷ cs) h = (h.0, messages-AreSent cs h.1)

  messages-Apart : (cs : List (Bool × Command)) → Apart decode a (messages cs)
  messages-Apart [] = tt
  messages-Apart ((locked, c) ∷ cs) = messages-Apart cs

  AreSendable-left :
      (cs ds : List (Bool × Command)) → AreSendable (cs ++ ds) → AreSendable cs × AreSendable ds
  AreSendable-left [] ds h = (tt, h)
  AreSendable-left ((locked, c) ∷ cs) ds h =
      let (l, r) = AreSendable-left cs ds h.1 in ((h.0, l), r)

  messages-AreReads :
      (reads : List (List (Bool × Command)))
      → AreReadWhole reads
      → AreSendable (flat reads)
      → AreReads decode a (map messages reads)
  messages-AreReads [] w h = tt
  messages-AreReads (cs ∷ reads) w h =
      let (l, r) = AreSendable-left cs (flat reads) h in
      (
        omega (arith, w.0, length-messages cs),
        messages-AreSent cs l,
        messages-Apart cs,
        messages-AreReads reads w.1 r,
      )

  calls-messages :
      (reads : List (List (Bool × Command))) → calls decode a (map messages reads) ≡ calls_for reads
  calls-messages [] = refl
  calls-messages (cs ∷ reads) = omega (arith, length-messages cs, calls-messages reads)

  arrivals-outputs :
      (p : Position Parser) (cs : List (Bool × Command))
      → arrivals decode a p (messages cs) ≡ outputs cs
  arrivals-outputs p [] = refl
  arrivals-outputs p ((locked, c) ∷ cs) = ap (◌∷◌ (out c)) (arrivals-outputs p cs)

  module _ (parse : Bytes → List TerminalData) (through : TerminalData → List TerminalData)
      (encode : Bytes → Option Bytes) (data_string : TerminalData → Bytes)
      (run_callback : PostSend → KeyboardWorld → KeyboardWorld × Option KeyboardError) where
    -- Commands that can be sent and are not suppressed, and that the middlewares hand on, go from
    -- one terminal to the other: the loop of the keyboard writes each of them, locked or not, to a
    -- stream that takes everything and has nothing in it; and where each read on the other side
    -- brings the bytes of one command or more, whole, its printer, with fuel for each read and
    -- command, more rounds than commands, and a sequence decoder as IsDecoder has it, ends with the
    -- error of the stream, unless that is closed, and has processed and pumped them, in the order
    -- in which they were handed to the keyboard.
    pub keyboard_loop-print :
        (reads : List (List (Bool × Command))) (w : KeyboardWorld) (m n : ℕ) (e : Option ScanError)
        (p : Position Parser) (t : Terminal)
        → ((c : Command) → through (command_data c) ≡ command_data c ∷ [])
        → AreUnsuppressed w.prompts (flat reads)
        → AreSendable (flat reads)
        → AreReadWhole reads
        → w.answers ≡ []
        → w.wire ≡ []
        → IsDecoder a
        → calls_for reads ≤ m
        → length (flat reads) < n
        → let sent =
            (keyboard_loop KeyboardWorld
              (write_to parse through encode data_string run_callback)
              (command_events (flat reads))
              (new_keyboard_loop KeyboardWorld w)).world.wire in
          (sent ≡ flat (map bytes_of reads))
          × Leaves decode a
              (print decode a m n e p t (map read_of reads))
              (delivered (outputs (flat reads)) t).0
              (delivered (outputs (flat reads)) t).1
              e
    unfolding new_keyboard_loop
    keyboard_loop-print reads w m n e p t passes goes can whole takes empty d fuel turns =
        let cs : List (Bool × Command) = flat reads in
        let arrive : arrivals decode a p (flat (map messages reads)) ≡ outputs cs =
          ap (arrivals decode a p) (messages-flat reads) ∙ arrivals-outputs p cs in
        (
          loop_sends parse through encode data_string run_callback cs [] w passes goes takes
              ∙ (ap (λ v. v ++ bytes_of cs) empty ∙ bytes_of-flat reads),
          subst
              (λ bs.
                Leaves decode a (print decode a m n e p t bs) (delivered (outputs cs) t).0
                  (delivered (outputs cs) t).1 e)
              (sym (reads-wire reads))
              (subst
                (λ ds.
                  Leaves decode a (print decode a m n e p t (map wire (map messages reads)))
                    (delivered ds t).0 (delivered ds t).1 e)
                arrive
                (print-wire decode a m n e p t (map messages reads) d
                  (messages-AreReads reads whole can) (omega (arith, calls-messages reads))
                  (omega (arith, length-outputs cs, ap length arrive)))),
        )
