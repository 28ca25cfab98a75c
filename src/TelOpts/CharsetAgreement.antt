-- ===== src/TelOpts/CharsetAgreement.antt =====
-- telopts/CHARSET.go: a request and its answer.
use telnet.Prelude.{
  ℕ, ◌≡◌, refl, sym, ap, ap₂, ◌∙◌, subst, Bool, true, false, ◌&&◌, ◌||◌, if◌then◌else◌, Option,
  none, some, List, [], ◌∷◌, ◌++◌, Bytes, arith,
}
use telnet.TerminalData.{active}
use telnet.Charset.{
  IanaEncoding, Charset, CurrentCharset, build_charset, set_negotiated_encoding_charset,
  set_negotiated_decoding_charset, load_encoding_charset, load_decoding_charset,
}
use telnet.TelOpts.CharsetNames.{spaced, AllNoSpace, names_in-spaced}
use telnet.TelOpts.CharsetOption.{
  CharsetOption, CharsetError, charset_request, charset_accepted, send, set_lock,
  transition_local_state, is_listed, is_known, is_acceptable_charset, choose, accept_request,
  reject_or_accept, subnegotiate_request, accept_sent, subnegotiate_accepted, subnegotiate,
  write_request, write_accept,
}
use telnet.TelOpts.CharsetChoice.{Untouched, choose-Untouched, choose-listed, or_right}

and_true : (b c : Bool) → b ≡ true → c ≡ true → b && c ≡ true
and_true b c e f = ground arith

module _ (lower : Bytes → Bytes) (iana : Bytes → IanaEncoding) where
  set_decoding :
      (name : Bytes) (c : Charset) (cs : CurrentCharset)
      → build_charset lower iana name ≡ some cs
      → set_negotiated_decoding_charset lower iana name c
        ≡ some (record c { negotiated_decoding = cs })
  unfolding set_negotiated_decoding_charset
  set_decoding name c cs e = rw (e, set_negotiated_decoding_charset) refl

  set_encoding :
      (name : Bytes) (c : Charset) (cs : CurrentCharset)
      → build_charset lower iana name ≡ some cs
      → set_negotiated_encoding_charset lower iana name c
        ≡ some (record c { negotiated_encoding = cs })
  unfolding set_negotiated_encoding_charset
  set_encoding name c cs e = rw (e, set_negotiated_encoding_charset) refl

  -- Both ways of the negotiated charset are that one, which is used with CharsetUsageAlways or in binary
  -- mode, and the default else; and the keyboard is not locked.
  abbrev pub Negotiated : CurrentCharset → CharsetOption → Type 0
  Negotiated cs o =
      (o.charset.negotiated_encoding ≡ cs)
      × (o.charset.negotiated_decoding ≡ cs)
      × (load_encoding_charset o.charset ≡ (
          if o.charset.usage_always || o.charset.binary_encode
          then cs
          else o.charset.default_charset))
      × (load_decoding_charset o.charset ≡ (
          if o.charset.usage_always || o.charset.binary_decode
          then cs
          else o.charset.default_charset))
      × (o.locked ≡ false)

  -- The answer is that name, there is no error, and once the answer is written the charset is set.
  abbrev pub Accepts :
      Bytes → CurrentCharset → List Bytes → Option (CharsetOption × Option CharsetError) → Type 0
  Accepts name cs sent none = ⊥
  Accepts name cs sent (some r) =
      (r.0.sent ≡ sent ++ ((charset_accepted ∷ name) ∷ []))
      × (r.1 ≡ none)
      × ((accept_sent lower iana r.0).1 ≡ none)
      × Negotiated cs (accept_sent lower iana r.0).0

  accept_request-Accepts :
      (name : Bytes) (o : CharsetOption) (cs : CurrentCharset)
      → o.server && o.locked ≡ false
      → build_charset lower iana name ≡ some cs
      → Accepts name cs o.sent (some (accept_request lower iana name o))
  unfolding accept_request write_accept send accept_sent load_encoding_charset load_decoding_charset
  accept_request-Accepts name o cs free e =
      rw (free, set_decoding name o.charset cs e, accept_request)
        (let set : set_negotiated_encoding_charset lower iana name
                (record o.charset { negotiated_decoding = cs })
              ≡ some (record o.charset { negotiated_decoding = cs; negotiated_encoding = cs }) =
            set_encoding name (record o.charset { negotiated_decoding = cs }) cs e in
          rw (set, accept_sent) (refl, refl, refl, (refl, refl, refl, refl, refl)))

  subnegotiate-Accepts :
      (o : CharsetOption) (first : Bytes) (names : List Bytes) (x : ℕ) (xs : Bytes)
      (cs : CurrentCharset)
      → AllNoSpace (first ∷ names)
      → o.server && o.locked ≡ false
      → (choose lower iana (first ∷ names) (record o { best_remote_encoding = [] })).1 ≡ x ∷ xs
      → build_charset lower iana (x ∷ xs) ≡ some cs
      → Accepts
          (x ∷ xs)
          cs
          o.sent
          (subnegotiate lower iana (charset_request ∷ spaced (first ∷ names)) o)
  unfolding subnegotiate subnegotiate_request reject_or_accept
  subnegotiate-Accepts o first names x xs cs s free chosen e =
      let p : CharsetOption × Bytes =
        choose lower iana (first ∷ names) (record o { best_remote_encoding = [] }) in
      let u : Untouched (record o { best_remote_encoding = [] }) p.0 =
        choose-Untouched lower iana (first ∷ names) (record o { best_remote_encoding = [] }) in
      let still_free : p.0.server && p.0.locked ≡ false =
        ap₂ (λ a b. a && b) u.same_server u.same_lock ∙ free in
      let answered : subnegotiate lower iana (charset_request ∷ spaced (first ∷ names)) o
          ≡ some (accept_request lower iana (x ∷ xs) p.0) =
        ap
          (λ list. elim list [
            | none ↦ none
            | some list ↦ some (
                reject_or_accept lower iana
                  (choose lower iana list (record o { best_remote_encoding = [] })))
          ])
          (names_in-spaced first names s)
        ∙ ap (λ best. some (reject_or_accept lower iana (p.0, best))) chosen in
      subst (Accepts (x ∷ xs) cs o.sent) (sym answered) (
        subst (λ sent. Accepts (x ∷ xs) cs sent (some (accept_request lower iana (x ∷ xs) p.0)))
          u.same_sent (accept_request-Accepts (x ∷ xs) p.0 cs still_free e))

  -- The requester that gets the answer.
  abbrev pub Agrees : CurrentCharset → Option (CharsetOption × Option CharsetError) → Type 0
  Agrees cs none = ⊥
  Agrees cs (some r) = (r.1 ≡ none) × Negotiated cs r.0

  request_sent :
      (o : CharsetOption) (first : Bytes) (names : List Bytes)
      → o.preferred_charsets ≡ first ∷ names
      → transition_local_state active o ≡ record o {
        local_state = active;
        locked = true;
        sent = o.sent ++ ((charset_request ∷ spaced (first ∷ names)) ∷ []);
      }
  unfolding transition_local_state write_request send
  request_sent o first names e =
      let a : CharsetOption = record o { local_state = active } in
      ap
        (λ list. elim list [
          | [] ↦ a
          | name ∷ names ↦ write_request (name ∷ names) (set_lock true a)
        ])
        e

  is_acceptable-listed :
      (name : Bytes) (names : List Bytes) (o : CharsetOption)
      → is_known lower iana name ≡ true
      → is_listed name names ≡ true
      → o.preferred_charsets ≡ names
      → is_acceptable_charset lower iana name o ≡ true
  unfolding is_acceptable_charset
  is_acceptable-listed name names o known listed prefers =
      let mine : is_listed name o.preferred_charsets ≡ true =
        ap (is_listed name) prefers ∙ listed in
      and_true (is_known lower iana name)
        (o.allow_any_charset || is_listed name o.preferred_charsets) known
        (or_right o.allow_any_charset (is_listed name o.preferred_charsets) mine)

  accepted-Agrees :
      (name : Bytes) (o : CharsetOption) (cs : CurrentCharset)
      → is_acceptable_charset lower iana name o ≡ true
      → build_charset lower iana name ≡ some cs
      → o.local_state ≡ active
      → Agrees cs (some (subnegotiate_accepted lower iana name o))
  unfolding subnegotiate_accepted load_encoding_charset load_decoding_charset
  accepted-Agrees name o cs fine e state =
      let set : set_negotiated_encoding_charset lower iana name
            (record o.charset { negotiated_decoding = cs })
          ≡ some (record o.charset { negotiated_decoding = cs; negotiated_encoding = cs }) =
        set_encoding name (record o.charset { negotiated_decoding = cs }) cs e in
      rw (state, fine, set_decoding name o.charset cs e, set, subnegotiate_accepted)
        (refl, (refl, refl, refl, refl, refl))

  request_accepted :
      (o p : CharsetOption) (first : Bytes) (names : List Bytes) (x : ℕ) (xs : Bytes)
      (cs : CurrentCharset)
      → o.preferred_charsets ≡ first ∷ names
      → (choose lower iana (first ∷ names) p).1 ≡ x ∷ xs
      → build_charset lower iana (x ∷ xs) ≡ some cs
      → Agrees cs
          (subnegotiate lower iana (charset_accepted ∷ (x ∷ xs)) (transition_local_state active o))
  unfolding subnegotiate subnegotiate_accepted
  request_accepted o p first names x xs cs prefers chosen e =
      let a : CharsetOption = record o {
        local_state = active;
        locked = true;
        sent = o.sent ++ ((charset_request ∷ spaced (first ∷ names)) ∷ []);
      } in
      let listed : (is_known lower iana (x ∷ xs) ≡ true)
          × (is_listed (x ∷ xs) (first ∷ names) ≡ true) =
        choose-listed lower iana (first ∷ names) p x xs chosen in
      subst (λ o. Agrees cs (subnegotiate lower iana (charset_accepted ∷ (x ∷ xs)) o))
        (sym (request_sent o first names prefers))
        (accepted-Agrees (x ∷ xs) a cs
          (is_acceptable-listed (x ∷ xs) (first ∷ names) a listed.0 listed.1 prefers) e refl)

  -- A telopt that becomes active with preferred charsets, whose names have no spaces, sends a
  -- REQUEST with them; when the other telopt, unless it is a server's with the charset lock held,
  -- chooses one of them that both can build, it sends an ACCEPTED with that name and no error, and
  -- once that is written, and the first telopt has read it, both have that charset as the
  -- negotiated one, neither holds the lock, and each encodes and decodes with it if its usage is
  -- Always or that way is binary, and with its default otherwise.
  pub charset_agreement :
      (a b : CharsetOption) (first : Bytes) (names : List Bytes) (x : ℕ) (xs : Bytes)
      (cs : CurrentCharset)
      → a.preferred_charsets ≡ first ∷ names
      → AllNoSpace (first ∷ names)
      → b.server && b.locked ≡ false
      → (choose lower iana (first ∷ names) (record b { best_remote_encoding = [] })).1 ≡ x ∷ xs
      → build_charset lower iana (x ∷ xs) ≡ some cs
      → ((transition_local_state active a).sent
          ≡ a.sent ++ ((charset_request ∷ spaced (first ∷ names)) ∷ []))
        × Accepts
            (x ∷ xs)
            cs
            b.sent
            (subnegotiate lower iana (charset_request ∷ spaced (first ∷ names)) b)
        × Agrees cs (
            subnegotiate lower iana (charset_accepted ∷ (x ∷ xs)) (transition_local_state active a))
  charset_agreement a b first names x xs cs prefers s free chosen e = (
    ap (λ o. o.sent) (request_sent a first names prefers),
    subnegotiate-Accepts b first names x xs cs s free chosen e,
    request_accepted a (record b { best_remote_encoding = [] }) first names x xs cs prefers chosen
        e,
  )
