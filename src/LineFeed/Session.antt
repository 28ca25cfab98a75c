-- ===== src/LineFeed/Session.antt =====
-- utils/linefeed.go: keys in a row, from a new editor on.
use telnet.Prelude.{
  get_elem?-append, ℕ, suc, ◌≡◌, refl, sym, ap, ap₂, ◌∙◌, Bool, true, false, Option, none, some,
  List, [], ◌∷◌, ◌++◌, length, length-append, get_elem?, append_assoc, arith,
}
use telnet.LineFeed.{FeedData, Out, LineFeed, LineFeedConfig, new_line_feed, line_text, text_at}
use telnet.LineFeed.Keys.{line_in}
use telnet.LineFeed.Cells.{
  Cells, runes, shown, positions, length-runes, positions-cong, runes-append,
}
use telnet.LineFeed.Holds.{Holds, BecomesLine, Typed}
use telnet.LineFeed.Edit.{line_in-BecomesLine}
use telnet.LineFeed.Zipper.{Line, whole, press_line}

abbrev pub empty_line : Line
empty_line = record { before = []; after = []; after_return = false; outs = [] }

abbrev pub press_lines : ℕ → List FeedData → Line → Line
press_lines max_length [] z = z
press_lines max_length (d ∷ ds) z = press_lines max_length ds (press_line max_length d z)

abbrev pub AllTyped : List FeedData → Type 0
AllTyped [] = Unit {0}
AllTyped (d ∷ ds) = Typed d × AllTyped ds

-- The same line and indices, with one cell more in front.
text_at-behind :
    (front : Cells) (r : ℕ) (b : Bool) (back : Cells)
    → text_at (runes front ++ (r ∷ runes back)) (positions (suc (length front)) back)
      ≡ text_at
          (runes (front ++ ((r, b) ∷ [])) ++ runes back)
          (positions (length (front ++ ((r, b) ∷ []))) back)
text_at-behind front r b back =
    ap₂ text_at
      (sym (
        ap (λ line. line ++ runes back) (runes-append front ((r, b) ∷ []))
        ∙ append_assoc (runes front) (r ∷ []) (runes back)))
      (positions-cong back (omega (arith, length-append front ((r, b) ∷ []))))

-- The visible text of a line, the rest of which is `back`.
text_at-positions :
    (front back : Cells)
    → text_at (runes front ++ runes back) (positions (length front) back) ≡ some (shown back)
unfolding text_at
text_at-positions front [] = refl
text_at-positions front ((r, true) ∷ back) =
    let found : get_elem? (runes front ++ (r ∷ runes back)) (length front) ≡ some r =
      get_elem?-append (runes front) (r ∷ runes back) (length front) 0
        (omega (arith, length-runes front)) in
    let rest : text_at (runes front ++ (r ∷ runes back)) (positions (suc (length front)) back)
        ≡ some (shown back) =
      text_at-behind front r true back ∙ text_at-positions (front ++ ((r, true) ∷ [])) back in
    rw (found, rest, text_at) refl
text_at-positions front ((r, false) ∷ back) =
    text_at-behind front r false back ∙ text_at-positions (front ++ ((r, false) ∷ [])) back

pub line_text_lem :
    (config : LineFeedConfig) (z : Line) (l : LineFeed)
    → Holds config z l
    → line_text l ≡ some (shown (whole z))
unfolding line_text
line_text_lem config z l r = ap₂ text_at r.line r.indices ∙ text_at-positions [] (whole z)

pub new_line_feed-Holds : (config : LineFeedConfig) → Holds config empty_line (new_line_feed config)
unfolding new_line_feed
new_line_feed-Holds config = record {
  line = refl;
  indices = refl;
  cursor = refl;
  starts = tt;
  kept = refl;
}

-- What an editor shows and has sent.
abbrev pub Shows : List ℕ → List Out → Option LineFeed → Type 0
Shows seen outs none = ⊥
Shows seen outs (some l) = (line_text l ≡ some seen) × (l.sent ≡ outs)

shows :
    (config : LineFeedConfig) (z : Line) (o : Option LineFeed)
    → BecomesLine config z o
    → Shows (shown (whole z)) z.outs o
shows config z none absent = absent
shows config z (some l) r = (line_text_lem config z l r, ap (λ k. k.1.1) r.kept)

module _ (itoa : ℕ → List ℕ) where
  abbrev pub line_ins : List FeedData → LineFeed → Option LineFeed
  line_ins [] l = some l
  line_ins (d ∷ ds) l = elim (line_in itoa d l) [ none ↦ none | some m ↦ line_ins ds m ]

  step-BecomesLine :
      (config : LineFeedConfig) (z : Line) (ds : List FeedData) (o : Option LineFeed)
      → BecomesLine config z o
      → ((l : LineFeed)
          → Holds config z l
          → BecomesLine config (press_lines config.max_length ds z) (line_ins ds l))
      → BecomesLine config
          (press_lines config.max_length ds z)
          (elim o [ none ↦ none | some m ↦ line_ins ds m ])
  step-BecomesLine config z ds none absent next = absurd absent
  step-BecomesLine config z ds (some l) r next = next l r

  pub line_ins-BecomesLine :
      (config : LineFeedConfig) (z : Line) (l : LineFeed) (ds : List FeedData)
      → Holds config z l
      → AllTyped ds
      → config.character_mode ≡ false
      → BecomesLine config (press_lines config.max_length ds z) (line_ins ds l)
  line_ins-BecomesLine config z l [] r typed lines = r
  line_ins-BecomesLine config z l (d ∷ ds) r typed lines =
      step-BecomesLine config (press_line config.max_length d z) ds (line_in itoa d l)
        (line_in-BecomesLine itoa config z l d r typed.0 lines)
        (λ m held.
          line_ins-BecomesLine config (press_line config.max_length d z) m ds held typed.1 lines)

  -- After any such keys from a new editor that is not in character mode, Text returns the shown
  -- cells of the line that the keys make, and the lines sent are those of the keys.
  line_ins-Shows :
      (config : LineFeedConfig) (ds : List FeedData)
      → AllTyped ds
      → config.character_mode ≡ false
      → Shows
          (shown (whole (press_lines config.max_length ds empty_line)))
          (press_lines config.max_length ds empty_line).outs
          (line_ins ds (new_line_feed config))
  line_ins-Shows config ds typed lines =
      shows config (press_lines config.max_length ds empty_line)
        (line_ins ds (new_line_feed config))
        (line_ins-BecomesLine config empty_line (new_line_feed config) ds
          (new_line_feed-Holds config) typed lines)
