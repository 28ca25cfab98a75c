-- ===== src/TelnetScanner/Reads.antt =====
-- printer_scan.go: the `bufio.Scanner` over `ScanTelnet`, read by read.
use telnet.Prelude.{
  ℕ, zero, suc, ◌≤◌, ◌≡◌, refl, ap, ◌∙◌, Bool, true, false, Option, none, some, List, [], ◌∷◌, ◌++◌,
  Bytes, drop, arith,
}
use telnet.Scanner.{Split, scan_telnet}
use telnet.Scanner.Waits.{IsIncomplete, scan_telnet_waits_iff}

-- A token in front of those that follow, if the fuel, one for each call of the split function and each
-- read, does not run out.
abbrev pub with_token : Bytes → Option (List Bytes) → Option (List Bytes)
with_token token none = none
with_token token (some ts) = some (token ∷ ts)

-- The end of the stream has been read, or another read follows: its data stand behind what is buffered.
abbrev read_more :
    (Bool → Bytes → List Bytes → Option (List Bytes))
    → Bool
    → Bytes
    → List Bytes
    → Option (List Bytes)
read_more go true buffer reads = some []
read_more go false buffer [] = go true buffer []
read_more go false buffer (incoming ∷ reads) = go false (buffer ++ incoming) reads

-- What becomes of a call of the split function: a token, be it empty, ends a call of `Scan`, and the next
-- one begins with what is left in the buffer.
abbrev after_split :
    (Bool → Bytes → List Bytes → Option (List Bytes))
    → Bool
    → Bytes
    → List Bytes
    → Option Split
    → Option (List Bytes)
after_split go ended buffer reads none = none
after_split go ended buffer reads (some r) = elim r.token [
  | none ↦ read_more go ended (drop r.advance buffer) reads
  | some token ↦ with_token token (go ended (drop r.advance buffer) reads)
]

-- The tokens of a stream, of which the data of each read are listed; `ended` is whether its error has
-- been read. The split function is called where something is buffered or the stream has ended.
unfoldable pub read_tokens : ℕ → Bool → Bytes → List Bytes → Option (List Bytes)
read_tokens zero ended buffer reads = none
read_tokens (suc n) false [] reads = read_more (read_tokens n) false [] reads
read_tokens (suc n) false (x ∷ s) reads =
    after_split (read_tokens n) false (x ∷ s) reads (scan_telnet (x ∷ s) false)
read_tokens (suc n) true buffer reads =
    after_split (read_tokens n) true buffer reads (scan_telnet buffer true)

incomplete_read_no_end :
    (n x : ℕ) (s : Bytes) (reads : List Bytes)
    → IsIncomplete (x ∷ s)
    → read_tokens n false (x ∷ s) reads ≡ none
unfolding read_tokens
incomplete_read_no_end zero x s reads h = refl
incomplete_read_no_end (suc n) x s reads h =
    ap (after_split (read_tokens n) false (x ∷ s) reads) ((scan_telnet_waits_iff x s).1 h)
    ∙ ap (with_token []) (incomplete_read_no_end n x s reads h)

-- When a read ends within a command, so that the buffer of the bufio.Scanner begins with an
-- incomplete one, the split function advances by nothing and returns an empty token that is not
-- nil, and with any fuel the scanner does not come to the end of the stream, whatever is still to
-- be read.
pub incomplete_read_spins :
    (n x : ℕ) (s : Bytes) (reads : List Bytes)
    → IsIncomplete (x ∷ s)
    → (scan_telnet (x ∷ s) false ≡ some (record { advance = 0; token = some [] }))
      × (read_tokens n false (x ∷ s) reads ≡ none)
incomplete_read_spins n x s reads h =
    ((scan_telnet_waits_iff x s).1 h, incomplete_read_no_end n x s reads h)

-- The stream ends.
pub read_tokens-end : (n : ℕ) → 2 ≤ n → read_tokens n false [] [] ≡ some []
unfolding read_tokens scan_telnet
read_tokens-end zero h = absurd (omega arith)
read_tokens-end (suc zero) h = absurd (omega arith)
read_tokens-end (suc (suc n)) h = refl

pub read_tokens_step :
    (n x : ℕ) (s token : Bytes) (reads : List Bytes) (advance : ℕ)
    → scan_telnet (x ∷ s) false ≡ some (record { advance = advance; token = some token })
    → read_tokens (suc n) false (x ∷ s) reads
      ≡ with_token token (read_tokens n false (drop advance (x ∷ s)) reads)
unfolding read_tokens
read_tokens_step n x s token reads advance e =
    ap (after_split (read_tokens n) false (x ∷ s) reads) e

pub read_tokens_next :
    (n : ℕ) (incoming : Bytes) (reads : List Bytes)
    → read_tokens (suc n) false [] (incoming ∷ reads) ≡ read_tokens n false incoming reads
unfolding read_tokens
read_tokens_next n incoming reads = refl
