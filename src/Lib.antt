-- ===== src/Lib.antt =====
-- A verification library for the telnet terminal of this repository.
--
-- The program reads a telnet stream in the printer, writes one in the keyboard, and negotiates telopts
-- between the two: `ScanTelnet` (printer_scan.go) cuts the stream into text and commands, `parseCommand`
-- (command.go) reads a command, `processTelOptCommand` (terminal_telopts.go) answers it and moves the
-- telopt (telopts/), which may lock the keyboard (keyboard_lock.go) and queue commands in it
-- (keyboard.go), and the keyboard writes them out. The models, by file:
-- Opcode and Command: command.go. The data of a subnegotiation is a list; the two indices of the
--   compaction loop are the two lists that begin at them, and bounds out of range are panics.
-- Scanner: `scanTelnetWithoutEOF` and `ScanTelnet` of printer_scan.go. A token is optional, so that nil
--   and an empty slice differ. The loop that looks for IAC SE has fuel for each byte and one more,
--   since each round passes at least a byte.
-- TelnetScanner: the rest of printer_scan.go. The tokens that a `bufio.Scanner` cuts out of a stream are
--   listed, with the error behind them; a context that is done ends them too. TelnetScanner/Reads makes
--   them of the data of each read, as `bufio.Scanner` does; its fuel is for each read and each call of
--   the split function. The decoder and the data parser are parameters; decoding has fuel for each
--   byte.
-- DataParser: tdata_builder.go over the charmbracelet/x/ansi package, which is a parameter (`Ansi`) of
--   which IsDecoder states what the loop needs to end. Its queues are lists; its loop has fuel for two
--   rounds for each byte and one more, since a round that consumes nothing gives a sequence up that
--   was begun before, and the next one consumes a byte at least.
-- Printer: printer.go, over TelnetScanner and Negotiation. Printer/Wire puts the ways out and in
--   together: writeCommand, the split function, Scan, the parsers, the loop and the telopts.
--   Printer/Arrives puts the loop of the keyboard in front (Keyboard/Sends).
-- Hooks and EventPump: hooks.go, event.go, and the goroutines that `NewTerminalFromPipes` of terminal.go
--   starts. Each step is one goroutine's, in any order; the hooks and the middlewares change a world
--   that is a parameter, and a call that holds a mutex is one step.
-- Keyboard and PromptCommands: `writeCommand` of keyboard.go, and promptcommands.go. Keyboard/Loop is
--   `keyboardLoop` over any `write`: what the loop receives is a list of events, each with whether the
--   keyboard is locked when the loop looks. Keyboard/Write is `write` with keyboard_decoder.go; the
--   output stream answers from a list, and the data parser, the middlewares, the charset and the
--   callbacks are parameters.
-- KeyboardLock: keyboard_lock.go. The clock is an argument; a method is one step, since it holds the
--   mutex; the timer, its function and the receiver of the channel are steps too.
-- LineFeed: utils/linefeed.go. A string is the list of its runes, each with its bytes; `none` is a
--   panic; what is echoed and sent is listed. Zipper is what the editor promises: a line of shown and
--   hidden cells with a cursor in it, which Represents, Insert, Limit, Moves, Holds and Edit show it
--   to be, key by key.
-- Middleware: middleware.go. A wrapper is the closure that the stack keeps, by what it has captured, and
--   reads the stack when it is called; calls have fuel, of which one for each middleware is enough on
--   a stack that is in order. `Handle` is a parameter.
-- Charset: charset.go over an index of names that is a parameter; Charset/Decode is `Decode`, over the
--   decoders' Transform, which keeps no state; Charset/Fallback calls it text by text.
-- Cp437: charset/cp437.go with what it uses of Go's unicode/utf8. The encoder has fuel for each byte,
--   and its search 9 rounds, since each one halves a range of 256.
-- CharacterMode: utils/charmode.go, and `telOptEvents` of utils/keyboardfeed.go.
-- Queue: queue.go. The retry of `Queue` has two rounds for each element; the second one finds room,
--   since the first one made it.
-- TerminalData and Terminal: the state that telopts share (terminal.go, keyboard.go, telopt.go), passed
--   along. The keyboard's channel is a list that is never full, and the events that consumers would
--   get are listed. A telopt is a record with a base and the data of its kind.
-- TelOpts: the telopts. Prompts is EOR.go, SUPPRESSGOAHEAD.go and TRANSMITBINARY.go; NawsSize is
--   NAWS.go; Location is SENDLOCATION.go; TerminalType is TTYPE.go, with
--   the turns of two sides in TerminalType/Exchange; Mode is LINEMODE.go; EnvironText,
--   Environ and EnvironVars are NEWENVIRON.go; Register makes a telopt of each; Dispatch is the
--   interface of telopt.go. ECHO.go has its base's methods. CharsetNames and CharsetOption are
--   CHARSET.go, apart from the other telopts: the telopt holds the parts of the terminal that it uses.
--   The loop of `subnegotiationLoadValues` has fuel for each byte of its data, since a round takes at
--   least its token. Go's maps are association lists, and what Go does in the order of a map is done
--   in the list's, but for `writeTelOptRequests`.
-- Negotiation: terminal_telopts.go. The order in which `writeTelOptRequests` ranges over the map is an
--   argument.
-- Prelude: Boolean tests, lists over the native numbers, association lists.
-- A byte is a number; the places where a number becomes a byte or a word keep the remainder. No
-- transition of these telopts returns an error, so that result is left out; messages of errors are
-- the data they show. Not modelled: the transformers of golang.org/x/text and the parser of ansi (third
-- party), String methods (they make messages), and the debug log and
-- `FeedLoop` of utils (input and output).
pub mod Prelude
pub mod Opcode
pub mod Command
pub mod Scanner
pub mod PromptCommands
pub mod Keyboard
pub mod Queue
pub mod KeyboardLock
pub mod TerminalData
pub mod Terminal
pub mod TelOpts
pub mod Negotiation
pub mod LineFeed
pub mod Middleware
pub mod Charset
pub mod Cp437
pub mod CharacterMode
pub mod DataParser
pub mod TelnetScanner
pub mod Printer
pub mod Hooks
pub mod EventPump
