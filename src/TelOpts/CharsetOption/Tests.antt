-- ===== src/TelOpts/CharsetOption/Tests.antt =====
-- The negotiation of a charset between two concrete telopts.
use telnet.Prelude.{
  ◌≡◌, refl, Bool, true, false, none, some, List, [], ◌∷◌, Bytes, same_bytes, arith, if◌then◌else◌,
  ◌==◌,
}
use telnet.TerminalData.{inactive, active}
use telnet.Charset.{IanaEncoding, invalid, unsupported, named, CurrentCharset, page, build_charset}
use telnet.TelOpts.CharsetNames.{spaced, names_in}
use telnet.TelOpts.CharsetOption.{
  CharsetOption, charset_request, charset_accepted, choose, subnegotiate, transition_local_state,
}
use telnet.TelOpts.CharsetAgreement.{Accepts, Agrees, charset_agreement}

-- The index knows all names but the empty one, and has no encoding for `c`.
abbrev known_pages : Bytes → IanaEncoding
known_pages [] = invalid
known_pages (c ∷ name) = if c == 99 then unsupported else named (c ∷ name)

abbrev page_b : CurrentCharset
page_b = record { name = 98 ∷ []; coding = page (98 ∷ []) }

abbrev page_z : CurrentCharset
page_z = record { name = 122 ∷ []; coding = page (122 ∷ []) }

abbrev new_option : List Bytes → Bool → CharsetOption
new_option names server = record {
  preferred_charsets = names;
  allow_any_charset = false;
  best_remote_encoding = [];
  local_state = inactive;
  remote_state = inactive;
  server = server;
  locked = false;
  charset = record {
    usage_always = true;
    binary_encode = false;
    binary_decode = false;
    default_charset = page_z;
    negotiated_encoding = page_z;
    negotiated_decoding = page_z;
    fallback = none;
  };
  sent = [];
  callbacks = 0;
  events = [];
}

-- The server asks for `a` or `b`, of which the client knows `b`.
charset_agreement_example :
    ((transition_local_state active (new_option ((97 ∷ []) ∷ (98 ∷ []) ∷ []) true)).sent
      ≡ (charset_request ∷ spaced ((97 ∷ []) ∷ (98 ∷ []) ∷ [])) ∷ [])
    × Accepts
        (λ s. s)
        known_pages
        (98 ∷ [])
        page_b
        []
        (subnegotiate
          (λ s. s)
          known_pages
          (charset_request ∷ spaced ((97 ∷ []) ∷ (98 ∷ []) ∷ []))
          (new_option ((98 ∷ []) ∷ []) false))
    × Agrees
        (λ s. s)
        known_pages
        page_b
        (subnegotiate
          (λ s. s)
          known_pages
          (charset_accepted ∷ 98 ∷ [])
          (transition_local_state active (new_option ((97 ∷ []) ∷ (98 ∷ []) ∷ []) true)))
unfolding choose build_charset same_bytes
charset_agreement_example =
    charset_agreement (λ s. s) known_pages (new_option ((97 ∷ []) ∷ (98 ∷ []) ∷ []) true)
      (new_option ((98 ∷ []) ∷ []) false) (97 ∷ []) ((98 ∷ []) ∷ []) 98 [] page_b refl
      ((omega arith, tt), ((omega arith, tt), tt)) refl refl refl

-- A REQUEST with no names.
empty_request_test :
    subnegotiate (λ s. s) known_pages (charset_request ∷ []) (new_option [] false) ≡ none
unfolding subnegotiate names_in
empty_request_test = refl

-- A name that the index knows and has no encoding for is taken, and the REQUEST is not answered.
unanswered_test :
    elim (subnegotiate
      (λ s. s)
      known_pages
      (charset_request ∷ spaced ((99 ∷ []) ∷ []))
      (new_option ((99 ∷ []) ∷ []) false)) [ none ↦ [] | some r ↦ r.0.sent ]
    ≡ []
unfolding subnegotiate spaced same_bytes names_in
unanswered_test = refl
