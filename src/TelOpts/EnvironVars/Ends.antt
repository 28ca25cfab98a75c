-- ===== src/TelOpts/EnvironVars/Ends.antt =====
-- telopts/NEWENVIRON.go: the loop of `subnegotiationLoadValues` ends.
use telnet.Prelude.{
  ℕ, zero, suc, ◌≤◌, ◌≢◌, inl, inr, ◌||◌, [], ◌∷◌, ◌==◌, Bytes, length, length-drop, drop, arith,
  Bool-cases,
}
use telnet.TelOpts.EnvironText.{
  decode_text, new_environ_var, new_environ_value, new_environ_uservar,
}
use telnet.TelOpts.EnvironVars.{Loaded, loaded, no_key, out_of_fuel, store, read_value, load_values}

read_value-le : (s : Bytes) → length (read_value s).1 ≤ length s
unfolding read_value
read_value-le [] = omega arith
read_value-le (b ∷ s) = elim (Bool-cases (b == new_environ_value)) [
  | inl v ↦ rw (v, read_value) (omega (arith, length-drop (decode_text s).0 s))
  | inr v ↦ rw (v, read_value) (omega arith)
]

loaded-ne : (l : Loaded) → loaded l ≢ out_of_fuel
loaded-ne l e = cc

no_key-ne : (l : Loaded) → no_key l ≢ out_of_fuel
no_key-ne l e = cc

-- With fuel for each byte the loop that loads an IS or INFO does not run out of it, whatever the
-- bytes are.
load_values-ends :
    (fuel : ℕ) (s : Bytes) (l : Loaded) → length s ≤ fuel → load_values fuel s l ≢ out_of_fuel
unfolding load_values
load_values-ends fuel [] l h = loaded-ne l
load_values-ends zero (token ∷ rest) l h = absurd (omega arith)
load_values-ends (suc fuel) (token ∷ rest) l h =
    elim (Bool-cases (token == new_environ_uservar || token == new_environ_var)) [
      | inr w ↦ rw (w, load_values) (load_values-ends fuel rest l (omega arith))
      | inl w ↦ elim (Bool-cases ((decode_text rest).0 == 0)) [
        | inl z ↦ rw (w, load_values, z) (no_key-ne l)
        | inr z ↦
            rw (w, load_values, z)
              (load_values-ends fuel (read_value (drop (decode_text rest).0 rest)).1
                (store token (decode_text rest).1 (read_value (drop (decode_text rest).0 rest)).0 l)
                (omega (
                  arith,
                  read_value-le (drop (decode_text rest).0 rest),
                  length-drop (decode_text rest).0 rest,
                )))
      ]
    ]
