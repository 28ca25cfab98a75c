-- ===== src/LineFeed.antt =====
-- utils/linefeed.go: the line editor. A string is the list of its runes with the bytes that each takes,
-- what `range` walks over. `none` is a run-time panic: an index or a slice out of range. What is handed to
-- `EchoOut` and `LineOut` is listed.
pub mod Keys
pub mod Cells
pub mod Zipper
pub mod Represents
pub mod Insert
pub mod Limit
pub mod Moves
pub mod Holds
pub mod Edit
pub mod Session
pub mod Bound
mod Tests
use telnet.Prelude.{
  ℕ, zero, suc, ◌+◌, ◌-◌, Bool, true, false, not, ◌&&◌, ◌||◌, Option, none, some, List, [], ◌∷◌,
  ◌++◌, ◌==◌, map, min, if◌then◌else◌, length, get_elem?, take, drop, replicate, ltb, leb,
}

abbrev pub Runes : Type 0
Runes = List (ℕ × ℕ)

pub data FeedData : Type 0 where
  text_in : Runes → FeedData
  control_in : ℕ → FeedData
  -- The command, the first parameter if there is one, and the sequence as a string.
  csi_in : ℕ → Option ℕ → Runes → FeedData
  other_in : Runes → FeedData

-- What is echoed: text or a control code.
pub data Echo : Type 0 where
  echo_text : List ℕ → Echo
  echo_control : ℕ → Echo

-- What goes out: a line, which the parser takes apart, or data passed on.
pub data Out : Type 0 where
  line_out : List ℕ → Out
  passed_out : FeedData → Out

-- A length of 0 is no limit.
pub record LineFeedConfig : Type 0 where
  pub max_length : ℕ
  pub character_mode : Bool
  pub suppress_local_echo : Bool

pub record LineFeed : Type 0 where
  pub config : LineFeedConfig
  pub just_pushed_cr : Bool
  pub cursor_pos : ℕ
  pub current_line : List ℕ
  pub visible_indices : List ℕ
  pub echoed : List Echo
  pub sent : List Out

unfoldable pub new_line_feed : LineFeedConfig → LineFeed
new_line_feed config = record {
  config = config;
  just_pushed_cr = false;
  cursor_pos = 0;
  current_line = [];
  visible_indices = [];
  echoed = [];
  sent = [];
}

unfoldable pub echo : Echo → LineFeed → LineFeed
echo e l =
    if not l.config.character_mode && not l.config.suppress_local_echo
    then record l { echoed = l.echoed ++ (e ∷ []) }
    else l

-- `len` of a string.
unfoldable pub byte_length : Runes → ℕ
byte_length [] = 0
byte_length ((r, width) ∷ rs) = width + byte_length rs

-- `newRunes[:n]`: each byte of a rune that is cut apart is read as the replacement character.
unfoldable pub cut : ℕ → Runes → Runes
cut n [] = []
cut n ((r, width) ∷ rs) =
    let rest = cut (n - width) rs in
    if leb width n then (r, width) ∷ rest else replicate n (65533, 1)

module _ {ℓ} {A : Type ℓ} where
  -- `slices.Insert` of one element.
  unfoldable pub insert_at : ℕ → A → List A → Option (List A)
  insert_at zero y xs = some (y ∷ xs)
  insert_at (suc n) y [] = none
  insert_at (suc n) y (x ∷ xs) = elim (insert_at n y xs) [ none ↦ none | some zs ↦ some (x ∷ zs) ]

-- The loop of step 1; `idx` is the byte offset.
unfoldable pub insert_runes : ℕ → ℕ → Runes → List ℕ → Option (List ℕ)
unfolding insert_at
insert_runes location idx [] line = some line
insert_runes location idx ((r, width) ∷ rs) line = elim (insert_at (location + idx) r line) [
  | none ↦ none
  | some longer ↦ insert_runes location (idx + width) rs longer
]

-- The loop of step 2.
unfoldable pub raise_from : ℕ → ℕ → List ℕ → List ℕ
raise_from cursor n indices = take cursor indices ++ map (λ i. i + n) (drop cursor indices)

-- The loop of steps 3 and 4.
unfoldable pub insert_indices : ℕ → ℕ → ℕ → List ℕ → Option (List ℕ)
unfolding insert_at
insert_indices zero cursor location indices = some indices
insert_indices (suc n) cursor location indices = elim (insert_at cursor location indices) [
  | none ↦ none
  | some longer ↦ insert_indices n (cursor + 1) (location + 1) longer
]

-- Where the visible rune of that number stands in the line, or the line's end if there is none.
unfoldable pub position : ℕ → LineFeed → ℕ
position i l = elim (get_elem? l.visible_indices i) [ none ↦ length l.current_line | some p ↦ p ]

abbrev pub bel : List ℕ
bel = 7 ∷ []

-- `\x1b[K`
abbrev pub clear_rest : List ℕ
clear_rest = 27 ∷ b'[' ∷ b'K' ∷ []

module _ (itoa : ℕ → List ℕ) where
  -- `\x1b[`, a number and a letter.
  abbrev pub cursor_sequence : ℕ → ℕ → List ℕ
  cursor_sequence n letter = 27 ∷ b'[' ∷ (itoa n ++ (letter ∷ []))

  -- The echo of visible text, once it is inserted.
  unfoldable pub echo_inserted : Runes → LineFeed → Option LineFeed
  unfolding echo
  echo_inserted new_runes l =
      if leb (length l.visible_indices) l.cursor_pos
      then some (echo (echo_text (map (λ r. r.0) new_runes)) l)
      else elim l.cursor_pos [
        | zero ↦ none
        | suc before ↦ elim (get_elem? l.visible_indices before) [
          | none ↦ none
          | some text_pos ↦ some (
              echo
                (echo_text (
                  clear_rest
                  ++ (drop text_pos l.current_line
                      ++ cursor_sequence (length l.visible_indices - l.cursor_pos) b'D')))
                l)
        ]
      ]

  -- Steps 1 to 4 and the echo, behind the tests of the length.
  unfoldable pub insert_runes_in : Runes → Bool → LineFeed → Option LineFeed
  unfolding insert_runes raise_from insert_indices position echo_inserted
  insert_runes_in new_runes visible l =
      let location = position l.cursor_pos l in
      let count = length new_runes in
      elim (insert_runes location 0 new_runes l.current_line) [
        | none ↦ none
        | some line ↦
            let raised : LineFeed = record l {
              current_line = line;
              visible_indices = raise_from l.cursor_pos count l.visible_indices;
            } in
            if not visible
            then some raised
            else elim (insert_indices count l.cursor_pos location raised.visible_indices) [
              | none ↦ none
              | some indices ↦
                  echo_inserted new_runes
                    (record raised { visible_indices = indices; cursor_pos = l.cursor_pos + count })
            ]
      ]

  unfoldable pub insert_data : Runes → Bool → LineFeed → Option LineFeed
  unfolding echo byte_length cut insert_runes_in
  insert_data new_runes visible l =
      let shown = length l.visible_indices in
      if ltb 0 l.config.max_length && leb l.config.max_length shown
      then some (echo (echo_text bel) l)
      else if ltb 0 l.config.max_length
          && visible
          && ltb l.config.max_length (shown + byte_length new_runes)
      then insert_runes_in (cut (l.config.max_length - shown) new_runes) visible
          (echo (echo_text bel) l)
      else insert_runes_in new_runes visible l

unfoldable pub set_character_mode : Bool → LineFeed → LineFeed
set_character_mode mode l = record l { config = record l.config { character_mode = mode } }

unfoldable pub set_suppress_local_echo : Bool → LineFeed → LineFeed
set_suppress_local_echo suppress l = record l {
  config = record l.config { suppress_local_echo = suppress };
}

-- `Text`
unfoldable pub text_at : List ℕ → List ℕ → Option (List ℕ)
text_at line [] = some []
text_at line (i ∷ indices) = elim (get_elem? line i) [
  | none ↦ none
  | some r ↦ elim (text_at line indices) [ none ↦ none | some rs ↦ some (r ∷ rs) ]
]

unfoldable pub line_text : LineFeed → Option (List ℕ)
unfolding text_at
line_text l = text_at l.current_line l.visible_indices
