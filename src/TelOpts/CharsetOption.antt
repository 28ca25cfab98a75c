-- ===== src/TelOpts/CharsetOption.antt =====
-- telopts/CHARSET.go: the telopt with the parts of the terminal that it uses: the charset, its lock of the
-- keyboard, the side and what it sends. The callback of an accepting is pending until it is written.
mod Tests
use telnet.Prelude.{
  ℕ, zero, suc, Bool, true, false, not, ◌&&◌, ◌||◌, Option, none, some, List, [], ◌∷◌, ◌++◌, ◌==◌,
  if◌then◌else◌, Bytes, same_bytes, text,
}
use telnet.Command.{Command}
use telnet.Opcode.{sb}
use telnet.TerminalData.{TelOptState, unknown, inactive, requested, active}
use telnet.Charset.{
  IanaEncoding, invalid, Charset, promote_default_charset, set_negotiated_encoding_charset,
  set_negotiated_decoding_charset, encoding_name, decoding_name,
}
use telnet.TelOpts.CharsetNames.{spaced, names_in}

abbrev pub charset_code : ℕ
charset_code = 42

abbrev pub charset_request : ℕ
charset_request = 1

abbrev pub charset_accepted : ℕ
charset_accepted = 2

abbrev pub charset_rejected : ℕ
charset_rejected = 3

pub data CharsetEvent : Type 0 where
  negotiation_success default_changed : Bytes → CharsetEvent

pub data CharsetError : Type 0 where
  empty_subnegotiation invalid_accepted set_failed unexpected : CharsetError

pub record CharsetOption : Type 0 where
  pub preferred_charsets : List Bytes
  pub allow_any_charset : Bool
  pub best_remote_encoding : Bytes
  pub local_state : TelOptState
  pub remote_state : TelOptState
  pub server : Bool
  pub locked : Bool
  pub charset : Charset
  pub sent : List Bytes
  pub callbacks : ℕ
  pub events : List CharsetEvent

-- `none` is a panic.
abbrev pub Answered : Type 0
Answered = Option (CharsetOption × Option CharsetError)

-- The data of a subnegotiation that is handed to the keyboard.
unfoldable pub send : Bytes → CharsetOption → CharsetOption
send bs o = record o { sent = o.sent ++ (bs ∷ []) }

unfoldable pub write_request : List Bytes → CharsetOption → CharsetOption
unfolding send
write_request names o = send (charset_request ∷ spaced names) o

unfoldable pub write_accept : Bytes → CharsetOption → CharsetOption
unfolding send
write_accept name o = record (send (charset_accepted ∷ name) o) { callbacks = suc o.callbacks }

unfoldable pub write_reject : CharsetOption → CharsetOption
unfolding send
write_reject o = send (charset_rejected ∷ []) o

abbrev pub set_lock : Bool → CharsetOption → CharsetOption
set_lock locked o = record o { locked = locked }

-- It sets the local state of its base, as the local transition does.
unfoldable pub transition_remote_state : TelOptState → CharsetOption → CharsetOption
transition_remote_state inactive o = record o { local_state = inactive; best_remote_encoding = [] }
transition_remote_state s o = record o { local_state = s }

unfoldable pub transition_local_state : TelOptState → CharsetOption → CharsetOption
unfolding write_request
transition_local_state inactive o = set_lock false (record o { local_state = inactive })
transition_local_state active o =
    let a : CharsetOption = record o { local_state = active } in
    elim o.preferred_charsets [
      | [] ↦ a
      | name ∷ names ↦ write_request (name ∷ names) (set_lock true a)
    ]
transition_local_state s o = record o { local_state = s }

unfoldable pub is_listed : Bytes → List Bytes → Bool
is_listed name [] = false
is_listed name (x ∷ names) = same_bytes name x || is_listed name names

module _ (lower : Bytes → Bytes) (iana : Bytes → IanaEncoding) where
  abbrev pub is_known : Bytes → Bool
  is_known name = elim (iana name) [ invalid ↦ false | _ ↦ true ]

  unfoldable pub is_acceptable_charset : Bytes → CharsetOption → Bool
  unfolding is_listed
  is_acceptable_charset name o =
      is_known name && (o.allow_any_charset || is_listed name o.preferred_charsets)

  unfoldable pub promote : Bytes → CharsetOption → CharsetOption
  unfolding promote_default_charset
  promote name o =
      if same_bytes name (text "UTF-8")
      then (if (promote_default_charset lower iana (text "US-ASCII") (text "UTF-8") o.charset).1
          then record o {
            charset =
                (promote_default_charset lower iana (text "US-ASCII") (text "UTF-8") o.charset).0;
            events = o.events ++ (default_changed (text "UTF-8") ∷ []);
          }
          else o)
      else o

  -- The loop over the names: the first that is acceptable, or an empty string.
  unfoldable pub choose : List Bytes → CharsetOption → CharsetOption × Bytes
  unfolding promote is_acceptable_charset
  choose [] o = (o, [])
  choose (name ∷ names) o =
      let rest = choose names (promote name o) in
      if is_acceptable_charset name (promote name o) then (promote name o, name) else rest

  unfoldable pub accept_request : Bytes → CharsetOption → CharsetOption × Option CharsetError
  unfolding write_accept write_reject set_negotiated_decoding_charset
  accept_request best o =
      let chosen : CharsetOption = record o { best_remote_encoding = best } in
      if o.server && o.locked
      then (set_lock false (write_reject chosen), none)
      else elim (set_negotiated_decoding_charset lower iana best o.charset) [
        | none ↦ (set_lock false chosen, some set_failed)
        | some c ↦
            let accepting : CharsetOption = write_accept best (record chosen { charset = c }) in
            (record accepting { events = o.events ++ (negotiation_success best ∷ []) }, none)
      ]

  unfoldable pub reject_or_accept : CharsetOption × Bytes → CharsetOption × Option CharsetError
  unfolding write_reject accept_request
  reject_or_accept (o, []) = (set_lock false (write_reject o), none)
  reject_or_accept (o, b ∷ bs) = accept_request (b ∷ bs) o

  unfoldable pub subnegotiate_request : Bytes → CharsetOption → Answered
  unfolding choose reject_or_accept
  subnegotiate_request names o = elim (names_in names) [
    | none ↦ none
    | some list ↦ some (reject_or_accept (choose list (record o { best_remote_encoding = [] })))
  ]

  -- What was pending when the accepting was written.
  unfoldable pub accept_sent : CharsetOption → CharsetOption × Option CharsetError
  unfolding set_negotiated_encoding_charset
  accept_sent o =
      elim (set_negotiated_encoding_charset lower iana o.best_remote_encoding o.charset) [
        | none ↦ (set_lock false o, some set_failed)
        | some c ↦ (set_lock false (record o { charset = c }), none)
      ]

  unfoldable pub subnegotiate_rejected : CharsetOption → CharsetOption
  unfolding write_request
  subnegotiate_rejected o = elim o.local_state [
    | active ↦ elim o.best_remote_encoding [
      | [] ↦ set_lock false o
      | b ∷ bs ↦
          if o.server
            && (not (same_bytes (encoding_name o.charset) (b ∷ bs))
                || not (same_bytes (decoding_name o.charset) (b ∷ bs)))
          then write_request ((b ∷ bs) ∷ []) (set_lock true o)
          else set_lock false o
    ]
    | _ ↦ o
  ]

  unfoldable pub subnegotiate_accepted : Bytes → CharsetOption → CharsetOption × Option CharsetError
  unfolding is_acceptable_charset set_negotiated_decoding_charset set_negotiated_encoding_charset
  subnegotiate_accepted name o = elim o.local_state [
    | active ↦
        if not (is_acceptable_charset name o)
        then (set_lock false o, some invalid_accepted)
        else let chosen : CharsetOption = record o { best_remote_encoding = name } in
          elim (set_negotiated_decoding_charset lower iana name o.charset) [
            | none ↦ (set_lock false chosen, some set_failed)
            | some c ↦ elim (set_negotiated_encoding_charset lower iana name c) [
              | none ↦ (set_lock false (record chosen { charset = c }), some set_failed)
              | some d ↦ (
                set_lock false (record chosen {
                  charset = d;
                  events = o.events ++ (negotiation_success name ∷ []);
                }),
                none,
              )
            ]
          ]
    | _ ↦ (o, none)
  ]

  unfoldable pub subnegotiate : Bytes → CharsetOption → Answered
  unfolding subnegotiate_request subnegotiate_rejected subnegotiate_accepted
  subnegotiate [] o = some (o, some empty_subnegotiation)
  subnegotiate (b ∷ bs) o =
      if b == charset_request
      then subnegotiate_request bs o
      else if b == charset_rejected
      then some (subnegotiate_rejected o, none)
      else if b == charset_accepted
      then some (subnegotiate_accepted bs o)
      else some (o, some unexpected)
