-- ===== src/TelnetScanner/Scan.antt =====
-- printer_scan.go: `Scan`.
use telnet.Prelude.{
  ℕ, zero, suc, Bool, true, false, ◌||◌, Option, none, some, List, [], ◌∷◌, ◌++◌, if◌then◌else◌,
  Bytes, length, ltb, ok, err, panic,
}
use telnet.Command.{of_op, parse_command}
use telnet.TerminalData.{TerminalData}
use telnet.Charset.Decode.{EncodingState, Decoded}
use telnet.DataParser.{Ansi}
use telnet.TelnetScanner.{
  ScanError, parse_error, Stream, TelnetScanner, is_command_token, is_some, is_end_of_file,
  push_error, push_command,
}
use telnet.TelnetScanner.Dangling.{process_dangling}

module _ (decode : ℕ → Bytes → EncodingState → Decoded) (a : Ansi) where
  open a use {Parser}

  abbrev pub has_result : TelnetScanner Parser → Bool
  has_result s = is_some s.next_output || is_some s.failure

  -- Behind the last token: `bytesToDecode` is left, or the base stream gets a chance, or that is all.
  -- `go` is the loop over the tokens of the base stream.
  unfoldable pub scan_end :
      (Stream → TelnetScanner Parser → Option (Bool × TelnetScanner Parser))
      → Option ScanError
      → TelnetScanner Parser
      → Option (Bool × TelnetScanner Parser)
  scan_end go e s =
      let t : TelnetScanner Parser = record s { at_eof = true; failure = e } in
      if ltb 0 (length s.bytes_to_decode) then some (true, t) else elim s.base [
        | none ↦ some (false, t)
        | some base ↦
            if is_end_of_file e
            then go base (record t { at_eof = false; failure = none; base = none })
            else some (false, t)
      ]

  -- A token that is no command, or that parsed as none; the result tells whether `Scan` returns behind it.
  unfoldable pub scan_text : Bytes → TelnetScanner Parser → Option (Bool × TelnetScanner Parser)
  unfolding process_dangling
  scan_text token s =
      elim (process_dangling decode a (record s { bytes_to_decode = s.bytes_to_decode ++ token })) [
        | none ↦ none
        | some t ↦ some (has_result t, t)
      ]

  -- A token that is not empty; a parser that panics, which it does on no such token, is `none` too.
  unfoldable pub scan_token : Bytes → TelnetScanner Parser → Option (Bool × TelnetScanner Parser)
  unfolding push_command push_error scan_text parse_command
  scan_token token s = elim (is_command_token token) [
    | false ↦ scan_text token s
    | true ↦ elim (parse_command token) [
      | ok c ↦ some (true, push_command (record s { out_command = c; bytes_to_decode = [] }))
      | err e ↦ scan_text token (push_error (parse_error e) (record s { out_command = of_op 0 }))
      | panic ↦ none
    ]
  ]

  -- The loop of `Scan` over the tokens of a stream.
  unfoldable pub scan_tokens :
      (Stream → TelnetScanner Parser → Option (Bool × TelnetScanner Parser))
      → List Bytes
      → Option ScanError
      → TelnetScanner Parser
      → Option (Bool × TelnetScanner Parser)
  unfolding scan_end scan_token
  scan_tokens go [] e s = scan_end go e (record s { stream = record { tokens = []; error = e } })
  scan_tokens go ([] ∷ tokens) e s =
      scan_tokens go tokens e (record s { at_eof = false; failure = none })
  scan_tokens go ((x ∷ token) ∷ tokens) e s =
      elim (scan_token (x ∷ token) (record s {
        at_eof = false;
        failure = none;
        stream = record { tokens = tokens; error = e };
      })) [
        | none ↦ none
        | some (true, t) ↦ some (true, t)
        | some (false, t) ↦ scan_tokens go tokens e t
      ]

  -- The base stream is read last.
  abbrev pub scan_base : Stream → TelnetScanner Parser → Option (Bool × TelnetScanner Parser)
  scan_base base = scan_tokens (λ _ s. some (false, s)) base.tokens base.error

  -- `none` means that fuel ran out.
  unfoldable pub scan : TelnetScanner Parser → Option (Bool × TelnetScanner Parser)
  unfolding push_command process_dangling scan_tokens
  scan s =
      let pushed : TelnetScanner Parser =
        push_command (record s { failure = none; next_output = none }) in
      if has_result pushed then some (true, pushed) else elim (process_dangling decode a pushed) [
        | none ↦ none
        | some t ↦
            if has_result t
            then some (true, t)
            else scan_tokens scan_base t.stream.tokens t.stream.error t
      ]

  -- The outputs and errors of so many calls, as long as each returns true.
  unfoldable pub scan_all :
      ℕ → TelnetScanner Parser → Option (List (Option TerminalData × Option ScanError))
  unfolding scan
  scan_all zero s = some []
  scan_all (suc n) s = elim (scan s) [
    | none ↦ none
    | some (false, t) ↦ some []
    | some (true, t) ↦ elim (scan_all n t) [
      | none ↦ none
      | some rest ↦ some ((t.next_output, t.failure) ∷ rest)
    ]
  ]
