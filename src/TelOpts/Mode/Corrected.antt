-- ===== src/TelOpts/Mode/Corrected.antt =====
-- telopts/LINEMODE.go: the mask that the server side answers with.
use telnet.Prelude.{ℕ, ◌<◌, Bool, true, ◌&&◌, ◌==◌, ◌≡◌, refl, bit_and, bit_or, arith}
use telnet.Prelude.Table.{passes, passes-lt}
use telnet.TelOpts.Mode.{corrected_mask, edit, trapsig, ack}

-- Only flags of the current mode, all of EDIT and TRAPSIG that it has, and of the flags that are
-- asked for, but ACK, all that it has.
abbrev is_corrected : ℕ → ℕ → Bool
is_corrected mask mode =
    let corrected = corrected_mask mask mode in
    bit_and corrected mode == corrected
    && bit_and corrected 3 == bit_and mode 3
    && bit_and corrected 24 == bit_and (bit_and mask mode) 24
    && bit_and corrected 4 == 0

all_four :
    {a b c d e f g : ℕ}
    → (a == b && c == d && e == f && g == 0) ≡ true
    → (a ≡ b) × (c ≡ d) × (e ≡ f) × (g ≡ 0)
all_four h = (ground arith, ground arith, ground arith, ground arith)

corrected_table : passes (λ mask. passes (is_corrected mask) 32) 32 ≡ true
unfolding passes corrected_mask
corrected_table = refl

-- For a mask and a mode of five flags, the mask that the server side answers with has only flags of
-- the current mode, as many of EDIT and TRAPSIG as that has, of the two flags above ACK those that
-- are both in the mode and asked for, and never ACK.
corrected_mask_lem :
    (mask mode : ℕ)
    → mask < 32
    → mode < 32
    → let corrected = corrected_mask mask mode in
      (bit_and corrected mode ≡ corrected)
      × (bit_and corrected (bit_or edit trapsig) ≡ bit_and mode (bit_or edit trapsig))
      × (bit_and corrected 24 ≡ bit_and (bit_and mask mode) 24)
      × (bit_and corrected ack ≡ 0)
corrected_mask_lem mask mode hm hc =
    let row = passes-lt (λ m. passes (is_corrected m) 32) mask 32 hm corrected_table in
    let cell = passes-lt (is_corrected mask) mode 32 hc row in all_four cell
