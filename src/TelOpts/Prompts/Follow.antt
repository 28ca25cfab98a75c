-- ===== src/TelOpts/Prompts/Follow.antt =====
-- telopts/EOR.go and SUPPRESSGOAHEAD.go with `writeCommand` of keyboard.go: which prompt commands the
-- keyboard writes, once the callback of a telopt has run.
use telnet.Prelude.{ℕ, zero, suc, ◌<◌, ◌≡◌, refl, none, some, [], ◌∷◌, arith}
use telnet.Opcode.{eor, ga, iac}
use telnet.Command.{of_op}
use telnet.TerminalData.{active, inactive}
use telnet.Terminal.{Terminal}
use telnet.PromptCommands.{
  prompt_command_eor, prompt_command_ga, set_prompt_command, clear_prompt_command,
}
use telnet.Keyboard
use telnet.TelOpts.Prompts.{eor_post_send, suppress_go_ahead_post_send}

-- What holds of the four sets of the two flags holds of each of them.
four_sets {ℓ} : (P : ℕ → Type ℓ) → P 0 → P 1 → P 2 → P 3 → (n : ℕ) → n < 4 → P n
four_sets P a b c d zero h = a
four_sets P a b c d (suc zero) h = b
four_sets P a b c d (suc (suc zero)) h = c
four_sets P a b c d (suc (suc (suc zero))) h = d
four_sets P a b c d (suc (suc (suc (suc n)))) h = absurd (omega arith)

-- With the flag of `op` set the command is written, and the other one is treated as before; without
-- it, it is not written.
abbrev pub Switches : ℕ → ℕ → ℕ → ℕ → ℕ → Type 0
Switches op other on off before =
    (Keyboard.write_command on (of_op op) ≡ some (iac ∷ op ∷ []))
    × (Keyboard.write_command off (of_op op) ≡ none)
    × (Keyboard.write_command on (of_op other) ≡ Keyboard.write_command before (of_op other))
    × (Keyboard.write_command off (of_op other) ≡ Keyboard.write_command before (of_op other))

eor-Switches :
    (p : ℕ)
    → p < 4
    → Switches eor ga
        (set_prompt_command prompt_command_eor p)
        (clear_prompt_command prompt_command_eor p)
        p
unfolding Keyboard.write_command set_prompt_command clear_prompt_command
eor-Switches =
    four_sets
      (λ p.
        Switches eor ga (set_prompt_command prompt_command_eor p)
          (clear_prompt_command prompt_command_eor p) p)
      (refl, refl, refl, refl) (refl, refl, refl, refl) (refl, refl, refl, refl)
      (refl, refl, refl, refl)

ga-Switches :
    (p : ℕ)
    → p < 4
    → Switches ga eor
        (set_prompt_command prompt_command_ga p)
        (clear_prompt_command prompt_command_ga p)
        p
unfolding Keyboard.write_command set_prompt_command clear_prompt_command
ga-Switches =
    four_sets
      (λ p.
        Switches ga eor (set_prompt_command prompt_command_ga p)
          (clear_prompt_command prompt_command_ga p) p)
      (refl, refl, refl, refl) (refl, refl, refl, refl) (refl, refl, refl, refl)
      (refl, refl, refl, refl)

-- For a keyboard with some set of the flags GA and EOR, the callback of EOR run for active makes
-- writeCommand write IAC EOR, run for inactive makes it suppress EOR, and neither changes what it
-- does with GA; the callback of SUPPRESS-GO-AHEAD run for inactive makes it write IAC GA, run for
-- active makes it suppress GA, and neither changes what it does with EOR.
pub prompt_commands_follow :
    (t : Terminal)
    → t.keyboard_prompts < 4
    → Switches eor ga
        (eor_post_send active t).keyboard_prompts
        (eor_post_send inactive t).keyboard_prompts
        t.keyboard_prompts
      × Switches ga eor
          (suppress_go_ahead_post_send inactive t).keyboard_prompts
          (suppress_go_ahead_post_send active t).keyboard_prompts
          t.keyboard_prompts
unfolding eor_post_send suppress_go_ahead_post_send
prompt_commands_follow t h = (eor-Switches t.keyboard_prompts h, ga-Switches t.keyboard_prompts h)
