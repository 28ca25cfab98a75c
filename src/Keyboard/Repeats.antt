-- ===== src/Keyboard/Repeats.antt =====
-- keyboard.go and keyboard_decoder.go: what is written for strings in a row.
use telnet.Prelude.{
  ℕ, ◌≡◌, refl, sym, ap, ap₂, ◌∙◌, Bool, true, Option, none, some, List, [], ◌∷◌, ◌++◌, map,
  append-nil, append_assoc, Bytes, arith, subst,
}
use telnet.TerminalData.{TerminalData, text_data, KeyboardTransport, PostSend}
use telnet.Keyboard.Write.{
  KeyboardWorld, KeyboardError, encode_error, outbound, take_answer, write_output, decode,
  through_all, write_text, write_data, write_decoded, call_back, handle_error, write,
}

-- `WriteString`
abbrev pub string_transport : Bytes → KeyboardTransport
string_transport s = record { unparsed_string = s; transported = none; post_send = none }

map-append : (a b : List Bytes) → map text_data (a ++ b) ≡ map text_data a ++ map text_data b
map-append [] b = refl
map-append (x ∷ a) b = ap (◌∷◌ (text_data x)) (map-append a b)

module _ (parse : Bytes → List TerminalData) (through : TerminalData → List TerminalData)
    (encode : Bytes → Option Bytes) (data_string : TerminalData → Bytes)
    (run_callback : PostSend → KeyboardWorld → KeyboardWorld × Option KeyboardError) where
  -- These are the encodings of the texts.
  abbrev pub Encoded : List Bytes → List Bytes → Type 0
  Encoded [] [] = Unit {0}
  Encoded (s ∷ ss) (b ∷ bs) = (encode (data_string (text_data s)) ≡ some b) × Encoded ss bs
  Encoded _ _ = ⊥

  Encoded-append :
      (ss ts : List Bytes) (bs cs : List Bytes)
      → Encoded ss bs
      → Encoded ts cs
      → Encoded (ss ++ ts) (bs ++ cs)
  Encoded-append [] ts [] cs p q = q
  Encoded-append [] ts (b ∷ bs) cs p q = absurd p
  Encoded-append (s ∷ ss) ts [] cs p q = absurd p
  Encoded-append (s ∷ ss) ts (b ∷ bs) cs p q = (p.0, Encoded-append ss ts bs cs p.1 q)

  -- A stream that takes everything gets them in order.
  Accepted : List Bytes → List Bytes → KeyboardWorld → KeyboardWorld × Option KeyboardError → Type 0
  Accepted ss bs w r =
      (r.0.wire ≡ w.wire ++ bs) × (r.0.decoded ≡ w.decoded) × (r.0.answers ≡ []) × (r.1 ≡ none)

  text_written :
      (s b : Bytes) (w : KeyboardWorld)
      → encode (data_string (text_data s)) ≡ some b
      → w.answers ≡ []
      → write_data parse through encode data_string run_callback (text_data s) w
        ≡ some (record w { answers = []; wire = w.wire ++ (b ∷ []) }, none)
  unfolding write_data write_text write_output take_answer
  text_written s b w p e = ap some (
      ap (λ o. elim o [ none ↦ (w, some encode_error) | some c ↦ write_output c w ]) p
      ∙ ap
          (λ r. elim r.0 [
            | none ↦ (record w { answers = r.1; wire = w.wire ++ (b ∷ []) }, none)
            | some x ↦ (record w { answers = r.1 }, some x)
          ])
          (ap take_answer e))

  write_decoded_texts :
      (ss bs : List Bytes) (w : KeyboardWorld)
      → Encoded ss bs
      → w.answers ≡ []
      → Accepted ss bs w
          (write_decoded parse through encode data_string run_callback (map text_data ss) w)
  unfolding write_decoded Accepted
  write_decoded_texts [] [] w p e = (sym (append-nil w.wire), refl, e, refl)
  write_decoded_texts [] (b ∷ bs) w p e = absurd p
  write_decoded_texts (s ∷ ss) [] w p e = absurd p
  write_decoded_texts (s ∷ ss) (b ∷ bs) w p e =
      let w1 : KeyboardWorld = record w {
        answers = [];
        wire = w.wire ++ (b ∷ []);
        events = w.events ++ (outbound (text_data s) ∷ []);
      } in
      let rest : Accepted ss bs w1
          (write_decoded parse through encode data_string run_callback (map text_data ss) w1) =
        write_decoded_texts ss bs w1 p.1 refl in
      let on : write_decoded parse through encode data_string run_callback
            (text_data s ∷ map text_data ss) w
          ≡ write_decoded parse through encode data_string run_callback (map text_data ss) w1 =
        ap
          (λ o. elim o [
            | none ↦
                write_decoded parse through encode data_string run_callback (map text_data ss) w
            | some (v, some x) ↦ (v, some x)
            | some (v, none) ↦
                write_decoded parse through encode data_string run_callback (map text_data ss)
                  (record v { events = v.events ++ (outbound (text_data s) ∷ []) })
          ])
          (text_written s b w p.0 e) in
      subst (Accepted (s ∷ ss) (b ∷ bs) w) (sym on)
        (rest.0 ∙ append_assoc w.wire (b ∷ []) bs, rest.1, rest.2, rest.3)

  no_error :
      (r : KeyboardWorld × Option KeyboardError)
      → r.1 ≡ none
      → handle_error (call_back parse through encode data_string run_callback none r) ≡ (r.0, true)
  unfolding handle_error call_back
  no_error (w, none) e = refl
  no_error (w, some x) e = absurd (ground arith)

  -- A string is written behind what is still decoded.
  Wrote : List Bytes → List Bytes → KeyboardWorld → KeyboardWorld × Bool → Type 0
  Wrote ss bs w r =
      (r.0.wire ≡ w.wire ++ bs)
      × (r.0.decoded ≡ map text_data ss)
      × (r.0.answers ≡ [])
      × (r.1 ≡ true)

  string_written :
      (x : ℕ) (a : Bytes) (old ss bs : List Bytes) (w : KeyboardWorld)
      → w.decoded ≡ map text_data old
      → through_all parse through encode data_string run_callback (parse (x ∷ a)) ≡ map text_data ss
      → Encoded (old ++ ss) bs
      → w.answers ≡ []
      → Wrote
          (old ++ ss)
          bs
          w
          (write parse through encode data_string run_callback (string_transport (x ∷ a)) w)
  unfolding write decode Wrote Accepted
  string_written x a old ss bs w d e p answers =
      let ds : w.decoded
            ++ through_all parse through encode data_string run_callback (parse (x ∷ a))
          ≡ map text_data (old ++ ss) =
        ap₂ ◌++◌ d e ∙ sym (map-append old ss) in
      let w1 : KeyboardWorld = record w { decoded = map text_data (old ++ ss) } in
      let r : Accepted (old ++ ss) bs w1 (
          write_decoded parse through encode data_string run_callback (map text_data (old ++ ss))
            w1) =
        write_decoded_texts (old ++ ss) bs w1 p answers in
      let out : write parse through encode data_string run_callback (string_transport (x ∷ a)) w ≡ (
        (write_decoded parse through encode data_string run_callback (map text_data (old ++ ss))
            w1).0,
        true,
      ) =
        ap
          (λ ds. handle_error (
            call_back parse through encode data_string run_callback none (
              write_decoded parse through encode data_string run_callback ds
                (record w { decoded = ds }))))
          ds
        ∙ no_error
            (write_decoded parse through encode data_string run_callback (map text_data (old ++ ss))
              w1)
            r.3 in
      subst (Wrote (old ++ ss) bs w) (sym out) (r.0, r.1, r.2, refl)

  -- When nothing is decoded yet and the output stream takes everything, the writes of two strings
  -- that are decoded to texts put the texts of the first on the wire, and then the texts of the
  -- first again and those of the second.
  pub write_string_repeats :
      (x y : ℕ) (a b : Bytes) (ss ts bs cs : List Bytes) (w : KeyboardWorld)
      → w.decoded ≡ []
      → w.answers ≡ []
      → through_all parse through encode data_string run_callback (parse (x ∷ a)) ≡ map text_data ss
      → through_all parse through encode data_string run_callback (parse (y ∷ b)) ≡ map text_data ts
      → Encoded ss bs
      → Encoded ts cs
      → (write parse through encode data_string run_callback
          (string_transport (y ∷ b))
          (write parse through encode data_string run_callback
            (string_transport (x ∷ a))
            w).0).0.wire
        ≡ w.wire ++ (bs ++ (bs ++ cs))
  unfolding Wrote
  write_string_repeats x y a b ss ts bs cs w d answers e f p q =
      let w1 : KeyboardWorld =
        (write parse through encode data_string run_callback (string_transport (x ∷ a)) w).0 in
      let first : Wrote ss bs w
          (write parse through encode data_string run_callback (string_transport (x ∷ a)) w) =
        string_written x a [] ss bs w d e p answers in
      let second : Wrote (ss ++ ts) (bs ++ cs) w1
          (write parse through encode data_string run_callback (string_transport (y ∷ b)) w1) =
        string_written y b ss ts (bs ++ cs) w1 first.1 f (Encoded-append ss ts bs cs p q) first.2 in
      second.0 ∙ (ap (λ v. v ++ (bs ++ cs)) first.0 ∙ append_assoc w.wire bs (bs ++ cs))
