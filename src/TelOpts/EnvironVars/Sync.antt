-- ===== src/TelOpts/EnvironVars/Sync.antt =====
-- telopts/NEWENVIRON.go: the INFO that one side sends keeps the other side's copy of its variables.
use telnet.Prelude.{
  ℕ, zero, suc, ◌≤◌, ◌≡◌, ◌≢◌, ◌⊎◌, inl, inr, refl, ap, ◌∙◌, true, false, Option, none, some, List,
  [], ◌∷◌, ◌++◌, ◌==◌, ◌||◌, Bytes, length, drop, map, arith, Bool-cases, append_assoc,
}
use telnet.Prelude.ByteMap.{lookup, lookup-insert, lookup-delete}
use telnet.Terminal.{NewEnviron}
use telnet.TelOpts.EnvironText.{
  encode_text, new_environ_var, new_environ_value, new_environ_uservar,
}
use telnet.TelOpts.EnvironText.RoundTrip.{EndsText, decode_text-encode_text}
use telnet.TelOpts.Environ.{has_key, var_bytes}
use telnet.TelOpts.EnvironVars.{
  Loaded, loaded, store, keep_or_delete, read_value, load_values, set_var, clear_var, token_of,
  set_all, clear_all,
}

-- Nothing, or a variable.
abbrev pub StartsVar : Bytes → Type 0
StartsVar [] = Unit {0}
StartsVar (b ∷ rest) = (b ≡ new_environ_var) ⊎ (b ≡ new_environ_uservar)

StartsVar-EndsText : (rest : Bytes) → StartsVar rest → EndsText rest
StartsVar-EndsText [] h = tt
StartsVar-EndsText (b ∷ rest) h = ground arith

drop-append : (a b : Bytes) → drop (length a) (a ++ b) ≡ b
drop-append [] b = refl
drop-append (x ∷ a) b = drop-append a b

encode_text-ne-nil : (key : Bytes) → key ≢ [] → (length (encode_text key) == 0) ≡ false
unfolding encode_text
encode_text-ne-nil [] h = absurd (h refl)
encode_text-ne-nil (b ∷ key) h = ground arith

-- What stands behind the key of a variable.
abbrev value_part : Option Bytes → Bytes
value_part none = []
value_part (some v) = new_environ_value ∷ encode_text v

value_part-EndsText :
    (value : Option Bytes) (rest : Bytes) → StartsVar rest → EndsText (value_part value ++ rest)
value_part-EndsText none rest h = StartsVar-EndsText rest h
value_part-EndsText (some v) rest h = ground arith

read_value-part :
    (value : Option Bytes) (rest : Bytes)
    → StartsVar rest
    → read_value (value_part value ++ rest) ≡ (value, rest)
unfolding read_value
read_value-part none [] h = refl
read_value-part none (b ∷ rest) h = ground arith
read_value-part (some v) rest h =
    rw
      (decode_text-encode_text v rest (StartsVar-EndsText rest h), drop-append (encode_text v) rest)

var_bytes-append :
    (token : ℕ) (key : Bytes) (value : Option Bytes) (rest : Bytes)
    → var_bytes token key value ++ rest ≡ token ∷ (encode_text key ++ (value_part value ++ rest))
unfolding var_bytes
var_bytes-append token key none rest = ap (◌∷◌ token) (append_assoc (encode_text key) [] rest)
var_bytes-append token key (some v) rest =
    ap (◌∷◌ token) (append_assoc (encode_text key) (value_part (some v)) rest)

-- One round of the loop takes one variable.
load_values-var :
    (fuel token : ℕ) (key : Bytes) (value : Option Bytes) (rest : Bytes) (l : Loaded)
    → (token == new_environ_uservar || token == new_environ_var) ≡ true
    → key ≢ []
    → StartsVar rest
    → load_values (suc fuel) (var_bytes token key value ++ rest) l
      ≡ load_values fuel rest (store token key value l)
unfolding load_values
load_values-var fuel token key value rest l t ne h =
    let read =
      decode_text-encode_text key (value_part value ++ rest) (value_part-EndsText value rest h) in
    rw (
      var_bytes-append,
      load_values,
      t,
      read,
      encode_text-ne-nil key ne,
      read,
      drop-append,
      read_value-part value rest h,
    )

-- One side's copy of the other's variables answers each lookup as they do.
pub record IsSynced (e r : NewEnviron) : Type 0 where
  pub user : (k : Bytes) → lookup k r.remote_user_vars ≡ lookup k e.local_user_vars
  pub well_known :
      (k : Bytes) → lookup k r.remote_well_known_vars ≡ lookup k e.local_well_known_vars

keep-IsSynced :
    (key k : Bytes) (value : Option Bytes) (m n : List (Bytes × Bytes))
    → lookup k m ≡ lookup k n
    → lookup k (keep_or_delete key value m) ≡ lookup k (keep_or_delete key value n)
unfolding keep_or_delete
keep-IsSynced key k none m n h = rw (lookup-delete, lookup-delete, h)
keep-IsSynced key k (some v) m n h = rw (lookup-insert, lookup-insert, h)

store-set_var :
    (key value : Bytes) (e : NewEnviron) (l : Loaded)
    → IsSynced e l.environ
    → IsSynced (set_var key value e) (store (token_of key e) key (some value) l).environ
unfolding store set_var token_of keep_or_delete
store-set_var key value e l s = elim (Bool-cases (has_key key e.well_known_vars)) [
  | inl w ↦ rw w (record {
    user = s.user;
    well_known = λ k. keep-IsSynced key k (some value) _ _ (s.well_known k);
  })
  | inr u ↦ rw u (record {
    user = λ k. keep-IsSynced key k (some value) _ _ (s.user k);
    well_known = s.well_known;
  })
]

store-clear_var :
    (key : Bytes) (e : NewEnviron) (l : Loaded)
    → IsSynced e l.environ
    → IsSynced (clear_var key e) (store (token_of key e) key none l).environ
unfolding store clear_var token_of keep_or_delete
store-clear_var key e l s = elim (Bool-cases (has_key key e.well_known_vars)) [
  | inl w ↦
      rw w
        (record { user = s.user; well_known = λ k. keep-IsSynced key k none _ _ (s.well_known k) })
  | inr u ↦
      rw u
        (record { user = λ k. keep-IsSynced key k none _ _ (s.user k); well_known = s.well_known })
]

token_of-is-var :
    (key : Bytes) (e : NewEnviron)
    → ((token_of key e ≡ new_environ_var) ⊎ (token_of key e ≡ new_environ_uservar))
      × ((token_of key e == new_environ_uservar || token_of key e == new_environ_var) ≡ true)
unfolding token_of
token_of-is-var key e = elim (Bool-cases (has_key key e.well_known_vars)) [
  | inl w ↦ rw w (inl refl, refl)
  | inr u ↦ rw u (inr refl, refl)
]

-- Each key has a byte at least.
abbrev pub HasKeys : List Bytes → Type 0
HasKeys [] = Unit {0}
HasKeys (k ∷ ks) = (k ≢ []) × HasKeys ks

set_all-StartsVar : (vars : List (Bytes × Bytes)) (e : NewEnviron) → StartsVar (set_all vars e).1
unfolding set_all var_bytes
set_all-StartsVar [] e = tt
set_all-StartsVar ((key, value) ∷ vars) e = (token_of-is-var key e).0

clear_all-StartsVar : (ks : List Bytes) (e : NewEnviron) → StartsVar (clear_all ks e).1
unfolding clear_all var_bytes
clear_all-StartsVar [] e = tt
clear_all-StartsVar (key ∷ ks) e = (token_of-is-var key e).0

load_values-nil : (fuel : ℕ) (l : Loaded) → load_values fuel [] l ≡ loaded l
unfolding load_values
load_values-nil zero l = refl
load_values-nil (suc fuel) l = refl

-- What SetVars sends for keys that are not empty, loaded with fuel for each variable by a side
-- whose copy was in step, leaves that side in step with the variables as they were set.
pub load_values-set_all :
    (vars : List (Bytes × Bytes)) (fuel : ℕ) (e : NewEnviron) (l : Loaded)
    → HasKeys (map (λ v. v.0) vars)
    → length vars ≤ fuel
    → IsSynced e l.environ
    → (m : Loaded) × (load_values fuel (set_all vars e).1 l ≡ loaded m)
      × IsSynced (set_all vars e).0 m.environ
unfolding set_all
load_values-set_all [] fuel e l h f s = (l, load_values-nil fuel l, s)
load_values-set_all ((key, value) ∷ vars) zero e l h f s = absurd (omega arith)
load_values-set_all ((key, value) ∷ vars) (suc fuel) e l h f s =
    let (m, more, synced) =
      load_values-set_all vars fuel (set_var key value e)
        (store (token_of key e) key (some value) l) h.1 (omega arith)
        (store-set_var key value e l s) in
    (
      m,
      load_values-var fuel (token_of key e) key (some value) (set_all vars (set_var key value e)).1
            l (token_of-is-var key e).1 h.0 (set_all-StartsVar vars (set_var key value e))
          ∙ more,
      synced,
    )

-- What ClearVars sends for keys that are not empty, loaded with fuel for each key by a side whose
-- copy was in step, leaves that side in step with the variables as they are then.
load_values-clear_all :
    (ks : List Bytes) (fuel : ℕ) (e : NewEnviron) (l : Loaded)
    → HasKeys ks
    → length ks ≤ fuel
    → IsSynced e l.environ
    → (m : Loaded) × (load_values fuel (clear_all ks e).1 l ≡ loaded m)
      × IsSynced (clear_all ks e).0 m.environ
unfolding clear_all
load_values-clear_all [] fuel e l h f s = (l, load_values-nil fuel l, s)
load_values-clear_all (key ∷ ks) zero e l h f s = absurd (omega arith)
load_values-clear_all (key ∷ ks) (suc fuel) e l h f s =
    let (m, more, synced) =
      load_values-clear_all ks fuel (clear_var key e) (store (token_of key e) key none l) h.1
        (omega arith) (store-clear_var key e l s) in
    (
      m,
      load_values-var fuel (token_of key e) key none (clear_all ks (clear_var key e)).1 l
            (token_of-is-var key e).1 h.0 (clear_all-StartsVar ks (clear_var key e))
          ∙ more,
      synced,
    )
