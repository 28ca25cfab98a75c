-- ===== src/DataParser/Fired.antt =====
-- tdata_builder.go: what `FireAll` fires.
use telnet.Prelude.{
  ℕ, zero, suc, ◌≤◌, ◌+◌, ◌<◌, if◌then◌else◌, true, false, Option, some, List, [], ◌∷◌, ◌++◌, ◌==◌,
  ◌≡◌, refl, sym, ◌∙◌, ap, Bytes, length, drop, length-drop, length-append, append_assoc, arith,
  Bool-cases, inl, inr, ==_iff, subst,
}
use telnet.TerminalData.{TerminalData}
use telnet.DataParser.{
  rounds, Ansi, TerminalDataParser, text_if, dequeue, flush, sequence_data, round, parse_loop,
  next_output, fire_all,
}
use telnet.DataParser.Pieces.{Piece, shown, whole, merge, IsDecoder, pieces, Position, position}

pub drop-all : (n : ℕ) (b : Bytes) → length b ≤ n → drop n b ≡ []
drop-all zero [] h = refl
drop-all zero (x ∷ b) h = absurd (omega arith)
drop-all (suc n) [] h = refl
drop-all (suc n) (x ∷ b) h = drop-all n b (omega arith)

ne_zero : (n : ℕ) → (n == 0) ≡ false → 1 ≤ n
ne_zero n e = ground arith

rounds-most : (b : Bytes) (n : ℕ) → n ≤ 1 → length b + length b + n ≤ rounds b
rounds-most b n h = omega arith

module _ (a : Ansi) where
  open a use {Parser, normal_state, decode_sequence}

  abbrev pub at : Bytes → Parser → ℕ → Bytes → List TerminalData → Bytes → TerminalDataParser Parser
  at begun q state built queued b = record {
    parsed_bytes = begun;
    parser = q;
    parser_state = state;
    builder = built;
    terminal_data = queued;
    bytes = b;
  }

  -- All bytes are parsed, and what waits then is what waited and what the pieces make.
  pub record Parsed (built : Bytes) (queued : List TerminalData) (ps : List Piece)
      (to : Position Parser) (o : Option (Option TerminalData × TerminalDataParser Parser))
      : Type 0 where
    pub rest : TerminalDataParser Parser
    pub is : o ≡ some (dequeue rest)
    pub at_end : rest.bytes ≡ []
    pub same : rest.terminal_data ++ text_if rest.builder ≡ queued ++ merge built ps
    pub stands :
        record { state = rest.parser_state; parser = rest.parser; begun = rest.parsed_bytes } ≡ to

  -- A round more that a sequence begun before may need.
  abbrev pending : ℕ → ℕ
  pending state = if state == normal_state then 0 else 1

  pending-most : (state : ℕ) → pending state ≤ 1
  pending-most state = ground arith

  pending-normal : (state : ℕ) → state ≡ normal_state → pending state ≡ 0
  pending-normal state e = ground (arith, e)

  pending-other : (state : ℕ) → (state == normal_state) ≡ false → pending state ≡ 1
  pending-other state e = ground (arith, e)

  consumed_from_normal :
      (x : ℕ) (b : Bytes) (state : ℕ) (q : Parser)
      → IsDecoder a
      → state ≡ normal_state
      → 1 ≤ (decode_sequence (x ∷ b) state q).consumed
  consumed_from_normal x b state q d e =
      subst (λ s. 1 ≤ (decode_sequence (x ∷ b) s q).consumed) (sym e)
        (d.advances (x ∷ b) q (λ f. ground arith))

  -- Nothing is consumed only in a sequence that was begun before.
  round-pending :
      (x : ℕ) (b : Bytes) (state : ℕ) (q : Parser)
      → IsDecoder a
      → (decode_sequence (x ∷ b) state q).consumed ≡ 0
      → (pending state ≡ 1) × (pending (decode_sequence (x ∷ b) state q).state ≡ 0)
  round-pending x b state q d e = (
    elim (Bool-cases (state == normal_state)) [
      | inl same ↦ absurd (
          omega (arith, e, consumed_from_normal x b state q d ((==_iff state normal_state).0 same)))
      | inr other ↦ pending-other state other
    ],
    pending-normal _ (d.gives_up (x ∷ b) state q (λ f. ground arith) e),
  )

  round-fewer :
      (x : ℕ) (b : Bytes) (state : ℕ) (q : Parser) (n : ℕ)
      → IsDecoder a
      → length (x ∷ b) + length (x ∷ b) + pending state ≤ suc n
      → let s = decode_sequence (x ∷ b) state q in
        length (drop s.consumed (x ∷ b)) + length (drop s.consumed (x ∷ b)) + pending s.state ≤ n
  round-fewer x b state q n d h =
      let s = decode_sequence (x ∷ b) state q in
      let left = length-drop {0} s.consumed (x ∷ b) in
      elim (Bool-cases (s.consumed == 0)) [
        | inr more ↦ omega (arith, left, pending-most s.state, ne_zero s.consumed more)
        | inl zero_consumed ↦ omega (
          arith,
          left,
          (==_iff s.consumed 0).0 zero_consumed,
          round-pending x b state q d ((==_iff s.consumed 0).0 zero_consumed),
        )
      ]

  parse_loop-Parsed :
      (n : ℕ) (begun : Bytes) (q : Parser) (state : ℕ) (built : Bytes) (queued : List TerminalData)
      (b : Bytes)
      → IsDecoder a
      → length b + length b + pending state ≤ n
      → Parsed built queued
          (pieces a n b state q begun)
          (position a n b state q begun)
          (parse_loop a n (at begun q state built queued b))
  unfolding parse_loop round
  parse_loop-Parsed zero begun q state built queued [] d h = record {
    rest = at begun q state built queued [];
    is = refl;
    at_end = refl;
    same = refl;
    stands = refl;
  }
  parse_loop-Parsed zero begun q state built queued (x ∷ b) d h = absurd (omega arith)
  parse_loop-Parsed (suc n) begun q state built queued [] d h = record {
    rest = at begun q state built queued [];
    is = refl;
    at_end = refl;
    same = refl;
    stands = refl;
  }
  parse_loop-Parsed (suc n) begun q state built queued (x ∷ b) d h =
      let s = decode_sequence (x ∷ b) state q in
      let left : Bytes = drop s.consumed (x ∷ b) in
      let fewer : length left + length left + pending s.state ≤ n = round-fewer x b state q n d h in
      elim (Bool-cases (s.width == 0)) [
        | inr text ↦
            let r : Parsed (built ++ s.parsed) queued (pieces a n left s.state s.parser begun)
                (position a n left s.state s.parser begun)
                (parse_loop a n (at begun s.parser s.state (built ++ s.parsed) queued left)) =
              parse_loop-Parsed n begun s.parser s.state (built ++ s.parsed) queued left d fewer in
            let to : round a (at begun q state built queued (x ∷ b))
                ≡ (false, at begun s.parser s.state (built ++ s.parsed) queued left) =
              rw (text, round) refl in
            let w : Parsed built queued (shown s.parsed ∷ pieces a n left s.state s.parser begun)
                (position a n left s.state s.parser begun)
                (parse_loop a n (at begun s.parser s.state (built ++ s.parsed) queued left)) =
              record {
                rest = r.rest;
                is = r.is;
                at_end = r.at_end;
                same = r.same;
                stands = r.stands;
              } in
            rw (to, text, parse_loop, pieces, position) w
        | inl zero_width ↦ elim (Bool-cases (s.state == normal_state)) [
          | inr waits ↦
              let to : round a (at begun q state built queued (x ∷ b))
                  ≡ (true, at (begun ++ s.parsed) s.parser s.state built queued left) =
                rw (zero_width, waits, round) refl in
              let w : Parsed built queued []
                  (record { state = s.state; parser = s.parser; begun = begun ++ s.parsed })
                  (some (dequeue (at (begun ++ s.parsed) s.parser s.state built queued left))) =
                record {
                  rest = at (begun ++ s.parsed) s.parser s.state built queued left;
                  is = refl;
                  at_end = drop-all s.consumed (x ∷ b) (
                      d.waits_at_end (x ∷ b) state q ((==_iff s.width 0).0 zero_width)
                        (λ e. ground arith));
                  same = refl;
                  stands = refl;
                } in
              rw (to, zero_width, waits, parse_loop, pieces, position) w
          | inl ends ↦
              let made : List TerminalData =
                text_if built ++ sequence_data a s.parser (begun ++ s.parsed) in
              let r : Parsed [] (queued ++ made) (pieces a n left s.state s.parser [])
                  (position a n left s.state s.parser [])
                  (parse_loop a n (at [] s.parser s.state [] (queued ++ made) left)) =
                parse_loop-Parsed n [] s.parser s.state [] (queued ++ made) left d fewer in
              let w : Parsed built queued
                  (whole (sequence_data a s.parser (begun ++ s.parsed))
                    ∷ pieces a n left s.state s.parser [])
                  (position a n left s.state s.parser [])
                  (parse_loop a n (at [] s.parser s.state [] (queued ++ made) left)) =
                record {
                  rest = r.rest;
                  is = r.is;
                  at_end = r.at_end;
                  same =
                      r.same
                      ∙ (append_assoc queued made _
                          ∙ ap (◌++◌ queued) (append_assoc (text_if built) _ _));
                  stands = r.stands;
                } in
              let to : round a (at begun q state built queued (x ∷ b))
                  ≡ (false, at [] s.parser s.state [] (queued ++ made) left) =
                rw (zero_width, ends, round) refl in
              rw (to, zero_width, ends, parse_loop, pieces, position) w
        ]
      ]

  pub parse_loop-rounds :
      (begun : Bytes) (q : Parser) (state : ℕ) (built : Bytes) (queued : List TerminalData)
      (b : Bytes)
      → IsDecoder a
      → Parsed built queued
          (pieces a (rounds b) b state q begun)
          (position a (rounds b) b state q begun)
          (parse_loop a (rounds b) (at begun q state built queued b))
  parse_loop-rounds begun q state built queued b d =
      parse_loop-Parsed (rounds b) begun q state built queued b d
        (rounds-most b (pending state) (pending-most state))

  -- What is fired for nothing new.
  fire_all-rest :
      (n : ℕ) (begun : Bytes) (q : Parser) (state : ℕ) (built : Bytes) (queued : List TerminalData)
      → length queued < n
      → (p : TerminalDataParser Parser) × (fire_all a n [] (at begun q state built queued [])
          ≡ some (queued ++ text_if built, p))
  unfolding fire_all next_output parse_loop flush
  fire_all-rest zero begun q state built queued h = absurd (omega arith)
  fire_all-rest (suc n) begun q state [] [] h = (_, refl)
  fire_all-rest (suc n) begun q state (x ∷ built) [] h = (_, refl)
  fire_all-rest (suc n) begun q state built (t ∷ queued) h =
      let (p, r) = fire_all-rest n begun q state built queued (omega arith) in (p, rw r refl)

  -- FireAll goes on from where the loop ends.
  fire_all_step :
      (n : ℕ) (input : Bytes) (p : TerminalDataParser Parser) (begun : Bytes) (q : Parser)
      (state : ℕ) (built : Bytes) (queued : List TerminalData)
      → next_output a input p ≡ some (dequeue (at begun q state built queued []))
      → length (queued ++ text_if built) < suc n
      → (r : TerminalDataParser Parser) × (fire_all a (suc n) input p
          ≡ some (queued ++ text_if built, r))
  unfolding fire_all flush
  fire_all_step n input p begun q state [] [] e fuel =
      (at begun q state [] [] [], rw (e, fire_all) refl)
  fire_all_step n input p begun q state (x ∷ built) [] e fuel =
      (at begun q state [] [] [], rw (e, fire_all) refl)
  fire_all_step n input p begun q state built (t ∷ queued) e fuel =
      let (r, f) =
        fire_all-rest n begun q state built queued
          (omega (arith, length-append {0} queued (text_if built))) in
      (r, rw (e, f, fire_all) refl)

  -- From a state in which nothing waits to be fired, be it behind the beginning of a sequence, and
  -- with a sequence decoder as IsDecoder has it, FireAll, with fuel for what it fires and one more,
  -- ends, and fires what the pieces of the bytes make: each run of text as one, in front of the
  -- sequence that follows it, and each complete sequence.
  pub fire_all-merge :
      (m : ℕ) (p : TerminalDataParser Parser) (input : Bytes)
      → IsDecoder a
      → p.terminal_data ≡ []
      → length (
          merge p.builder (
            pieces a
              (rounds (p.bytes ++ input))
              (p.bytes ++ input)
              p.parser_state
              p.parser
              p.parsed_bytes))
        < m
      → (q : TerminalDataParser Parser) × (fire_all a m input p
          ≡ some (
            merge p.builder (
                pieces a
                  (rounds (p.bytes ++ input))
                  (p.bytes ++ input)
                  p.parser_state
                  p.parser
                  p.parsed_bytes),
            q,
          ))
  unfolding next_output
  fire_all-merge zero p input d e fuel = absurd (omega arith)
  fire_all-merge (suc m) p input d e fuel =
      let b : Bytes = p.bytes ++ input in
      let r : Parsed p.builder [] (pieces a (rounds b) b p.parser_state p.parser p.parsed_bytes)
          (position a (rounds b) b p.parser_state p.parser p.parsed_bytes)
          (parse_loop a (rounds b) (at p.parsed_bytes p.parser p.parser_state p.builder [] b)) =
        parse_loop-rounds p.parsed_bytes p.parser p.parser_state p.builder [] b d in
      let is : next_output a input (at p.parsed_bytes p.parser p.parser_state p.builder [] p.bytes)
          ≡ some (dequeue r.rest) =
        r.is in
      let (q, f) =
        fire_all_step m input (at p.parsed_bytes p.parser p.parser_state p.builder [] p.bytes)
          r.rest.parsed_bytes r.rest.parser r.rest.parser_state r.rest.builder r.rest.terminal_data
          (is
            ∙ ap
                (λ bs. some (
                  dequeue (
                    at r.rest.parsed_bytes r.rest.parser r.rest.parser_state r.rest.builder
                      r.rest.terminal_data bs)))
                r.at_end)
          (subst (λ ds. length ds < suc m) (sym r.same) fuel) in
      (
        q,
        subst
            (λ ds.
              fire_all a (suc m) input
                (at p.parsed_bytes p.parser p.parser_state p.builder ds p.bytes)
              ≡ some (
                merge p.builder (pieces a (rounds b) b p.parser_state p.parser p.parsed_bytes),
                q,
              ))
            (sym e) (f ∙ ap (λ ds. some (ds, q)) r.same),
      )
