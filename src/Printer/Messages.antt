-- ===== src/Printer/Messages.antt =====
-- keyboard.go and printer_scan.go: messages on the wire, and the tokens that they are cut into.
use telnet.Prelude.{
  ℕ, ◌≡◌, ◌≢◌, ◌⊎◌, refl, sym, ap, ◌∙◌, subst, Bool, true, false, none, some, List, [], ◌∷◌, ◌++◌,
  append-nil, ◌==◌, if◌then◌else◌, Bytes, length, drop, take-append, arith, inl, inr,
}
use telnet.Opcode.{iac, eor, ga}
use telnet.Command.{Command}
use telnet.TerminalData.{TerminalData, command_data, prompt_data}
use telnet.Scanner.{index, scan_telnet}
use telnet.Keyboard.{command_bytes}
use telnet.Scanner.Doubling.{scan-no-iac, scan-to-iac}
use telnet.PromptCommands.{prompt_command_ga, prompt_command_eor}
use telnet.Keyboard.Wire.{IsSendable, prompts, negotiates, subnegotiates}
use telnet.TelnetScanner.{output_of}

pub data Message : Type 0 where
  says : Bytes → Message
  commands : Command → Message

abbrev pub message_bytes : Message → Bytes
message_bytes (says b) = b
message_bytes (commands c) = command_bytes c

abbrev pub wire : List Message → Bytes
wire [] = []
wire (m ∷ ms) = message_bytes m ++ wire ms

-- The messages of all reads.
abbrev pub flat {ℓ} : {A : Type ℓ} → List (List A) → List A
flat [] = []
flat (xs ∷ rest) = xs ++ flat rest

abbrev pub no_text_first : List Message → Bool
no_text_first (says b ∷ ms) = false
no_text_first _ = true

pub drop-append : (b c : Bytes) → drop (length b) (b ++ c) ≡ c
drop-append [] c = refl
drop-append (x ∷ b) c = drop-append b c

pub bytes-iac : (c : Command) → (b : Bytes) × (command_bytes c ≡ iac ∷ b)
unfolding command_bytes
bytes-iac c = (_, refl)

index-append : (b c : Bytes) → index iac b ≡ none → index iac (b ++ (iac ∷ c)) ≡ some (length b)
unfolding index
index-append [] c h = refl
index-append (x ∷ b) c h = ground (arith, index-append b c)

ne-iac : (x : ℕ) (b : Bytes) → index iac (x ∷ b) ≡ none → x ≢ iac
unfolding index
ne-iac x b h e = ground arith

-- Text without an IAC is cut out up to the IAC that follows it, or to the end.
pub scan_telnet-text :
    (x : ℕ) (b rest : Bytes) (at_eof : Bool)
    → index iac (x ∷ b) ≡ none
    → (rest ≡ []) ⊎ ((c : Bytes) × (rest ≡ iac ∷ c))
    → scan_telnet (x ∷ (b ++ rest)) at_eof
      ≡ some (record { advance = length (x ∷ b); token = some (x ∷ b) })
scan_telnet-text x b rest at_eof h (inl e) =
    subst
      (λ r.
        scan_telnet (x ∷ (b ++ r)) at_eof
        ≡ some (record { advance = length (x ∷ b); token = some (x ∷ b) }))
      (sym e)
      (subst
        (λ s.
          scan_telnet (x ∷ s) at_eof
          ≡ some (record { advance = length (x ∷ b); token = some (x ∷ b) }))
        (sym (append-nil b)) (scan-no-iac x b at_eof (ne-iac x b h) h))
scan_telnet-text x b rest at_eof h (inr (c, e)) =
    subst
      (λ r.
        scan_telnet (x ∷ (b ++ r)) at_eof
        ≡ some (record { advance = length (x ∷ b); token = some (x ∷ b) }))
      (sym e)
      (scan-to-iac x (length b) (b ++ (iac ∷ c)) at_eof (ne-iac x b h) (index-append (x ∷ b) c h)
        ∙ ap (λ s. some (record { advance = length (x ∷ b); token = some s }))
            (take-append (x ∷ b) (iac ∷ c)))

unfoldable pub out : Command → TerminalData
out c =
    if c.op_code == ga
    then prompt_data prompt_command_ga
    else if c.op_code == eor
    then prompt_data prompt_command_eor
    else command_data c

pub sendable_output : (c : Command) → IsSendable c → output_of c ≡ some (out c)
unfolding out
sendable_output c (prompts op h) = ground arith
sendable_output c (negotiates op option h) = ground arith
sendable_output c (subnegotiates option s h) = refl
