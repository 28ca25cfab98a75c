-- ===== src/KeyboardLock/Relock.antt =====
-- keyboard_lock.go: when `SetLock` takes hold, and when it does not.
use telnet.Prelude.{
  ℕ, ◌+◌, ◌<◌, ◌≤◌, ◌≡◌, refl, true, false, none, some, List, [], ◌∷◌, Bytes, arith, same_bytes_iff,
}
use telnet.Prelude.ByteMap.{lookup, insert, delete, lookup-insert}
use telnet.KeyboardLock.{
  KeyboardLock, new_keyboard_lock, new_next_expiry, set_lock, clear_lock, has_active_lock, latest,
}

lookup-insert_self : (k : Bytes) (v : ℕ) (m : List (Bytes × ℕ)) → lookup k (insert k v m) ≡ some v
lookup-insert_self k v m = ground (arith, lookup-insert k k v m, same_bytes_iff k k)

-- SetLock with an expiry behind nextExpiryTime and still to come locks the keyboard until then, and
-- records the named lock with that expiry.
set_lock_locks :
    (now later : ℕ) (name : Bytes) (d : ℕ) (l : KeyboardLock)
    → l.next_expiry_time < now + d
    → later ≤ now + d
    → let r = set_lock now later name d l in
      (r.locked ≡ true)
      × (r.timer ≡ some (now + d))
      × (r.next_expiry_time ≡ now + d)
      × (lookup name r.locks ≡ some (now + d))
unfolding set_lock new_next_expiry
set_lock_locks now later name d l h k = ground (arith, lookup-insert_self name (now + d) l.locks)

-- A new lock after `SetLock`.
abbrev held : Bytes → ℕ → KeyboardLock
held a e = record new_keyboard_lock {
  locks = (a, e) ∷ [];
  next_expiry_time = e;
  timer = some e;
  locked = true;
}

set_lock-new :
    (t : ℕ) (a : Bytes) (d : ℕ) → 0 < t + d → set_lock t t a d new_keyboard_lock ≡ held a (t + d)
unfolding set_lock new_next_expiry new_keyboard_lock insert
set_lock-new t a d h = ground arith

delete-only : (a : Bytes) (e : ℕ) → delete a ((a, e) ∷ []) ≡ []
unfolding delete
delete-only a e = ground (arith, same_bytes_iff a a)

lookup-only : (a : Bytes) (e : ℕ) → lookup a ((a, e) ∷ []) ≡ some e
unfolding lookup
lookup-only a e = ground (arith, same_bytes_iff a a)

clear_lock-only :
    (t : ℕ) (a : Bytes) (l : KeyboardLock) (e : ℕ)
    → l.locks ≡ (a, e) ∷ []
    → l.next_expiry_time ≡ e
    → l.timer ≡ some e
    → clear_lock t a l ≡ record l { locks = []; timer = none; locked = false; signal = true }
unfolding clear_lock new_next_expiry latest
clear_lock-only t a l e p q r = ground (arith, lookup-only a e, delete-only a e)

set_lock-later :
    (t : ℕ) (b : Bytes) (d : ℕ) (l : KeyboardLock)
    → 0 < d
    → t + d ≤ l.next_expiry_time
    → ((set_lock t t b d l).locked ≡ l.locked) × (has_active_lock t b (set_lock t t b d l) ≡ true)
unfolding set_lock has_active_lock
set_lock-later t b d l p q = ground (arith, lookup-insert_self b (t + d) l.locks)

-- On a new lock, after SetLock and ClearLock of one name, a SetLock whose expiry is still to come
-- and not behind that of the first is recorded as active, and does not lock the keyboard.
pub relock_does_not_lock :
    (a b : Bytes) (t₀ d₀ t₁ t₂ d₂ : ℕ)
    → 0 < t₀ + d₀
    → 0 < d₂
    → t₂ + d₂ ≤ t₀ + d₀
    → let r = set_lock t₂ t₂ b d₂ (clear_lock t₁ a (set_lock t₀ t₀ a d₀ new_keyboard_lock)) in
      (r.locked ≡ false) × (has_active_lock t₂ b r ≡ true)
relock_does_not_lock a b t₀ d₀ t₁ t₂ d₂ p q k =
    rw (set_lock-new t₀ a d₀ p, clear_lock-only t₁ a (held a (t₀ + d₀)) (t₀ + d₀) refl refl refl)
      (set_lock-later t₂ b d₂
        (record (held a (t₀ + d₀)) { locks = []; timer = none; locked = false; signal = true }) q k)
