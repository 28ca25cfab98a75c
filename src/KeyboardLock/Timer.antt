-- ===== src/KeyboardLock/Timer.antt =====
-- keyboard_lock.go: a lock never holds for good, and no unlock goes unannounced.
use telnet.Prelude.{
  ℕ, ◌+◌, ◌≤◌, ◌≡◌, ◌≢◌, ◌⊎◌, inl, inr, true, false, none, some, List, Bytes, arith, Bool-cases,
  Option-cases, ltb, ◌==◌,
}
use telnet.KeyboardLock.{
  KeyboardLock, new_keyboard_lock, new_next_expiry, set_lock, clear_lock, latest, fire, run_timer,
  receive,
}
use telnet.Prelude.ByteMap.{lookup, insert, delete}

-- One step of the lock, by a method, by the timer or by the keyboard.
pub data Step : KeyboardLock → KeyboardLock → Type 0 where
  sets :
      (now later : ℕ) (name : Bytes) (d : ℕ) (l : KeyboardLock)
      → Step l (set_lock now later name d l)
  clears : (now : ℕ) (name : Bytes) (l : KeyboardLock) → Step l (clear_lock now name l)
  fires : (now : ℕ) (l : KeyboardLock) → Step l (fire now l)
  runs_timer : (l : KeyboardLock) → Step l (run_timer l)
  receives : (l : KeyboardLock) → Step l (receive l)

pub data Reach (l : KeyboardLock) : KeyboardLock → Type 0 where
  here : Reach l l
  next : {m n : KeyboardLock} → Reach l m → Step m n → Reach l n

-- A lock that holds is one that the timer is still to end.
pub record WillUnlock (l : KeyboardLock) : Type 0 where
  pub watched : l.locked ≡ true → (l.timer ≢ none) ⊎ (l.pending ≡ true)
  pub at_expiry : (t : ℕ) → l.timer ≡ some t → t ≡ l.next_expiry_time

new_next_expiry-WillUnlock :
    (now expiry : ℕ) (l : KeyboardLock) → WillUnlock l → WillUnlock (new_next_expiry now expiry l)
unfolding new_next_expiry
new_next_expiry-WillUnlock now expiry l v = record {
  watched = ground (arith, v.watched);
  at_expiry = λ t. ground (arith, v.at_expiry t);
}

WillUnlock-locks :
    (m : List (Bytes × ℕ)) (l : KeyboardLock) → WillUnlock l → WillUnlock (record l { locks = m })
WillUnlock-locks m l v = record { watched = v.watched; at_expiry = v.at_expiry }

set_lock-WillUnlock :
    (now later : ℕ) (name : Bytes) (d : ℕ) (l : KeyboardLock)
    → WillUnlock l
    → WillUnlock (set_lock now later name d l)
unfolding set_lock
set_lock-WillUnlock now later name d l v =
    let r : KeyboardLock = record l { locks = insert name (now + d) l.locks } in
    elim (Bool-cases (ltb l.next_expiry_time (now + d))) [
      | inl e ↦ rw e (new_next_expiry-WillUnlock later (now + d) r (WillUnlock-locks _ l v))
      | inr e ↦ rw e (WillUnlock-locks _ l v)
    ]

clear_lock-WillUnlock :
    (now : ℕ) (name : Bytes) (l : KeyboardLock) → WillUnlock l → WillUnlock (clear_lock now name l)
unfolding clear_lock
clear_lock-WillUnlock now name l v = elim (Option-cases (lookup name l.locks)) [
  | inl e ↦ rw (e, clear_lock) v
  | inr (old, e) ↦ elim (Bool-cases (l.next_expiry_time == old)) [
    | inl f ↦ rw (e, clear_lock, f) (new_next_expiry-WillUnlock now _ _ (WillUnlock-locks _ l v))
    | inr f ↦ rw (e, clear_lock, f) (WillUnlock-locks _ l v)
  ]
]

Step-WillUnlock : {l m : KeyboardLock} → Step l m → WillUnlock l → WillUnlock m
unfolding fire run_timer receive
Step-WillUnlock (sets now later name d l) v = set_lock-WillUnlock now later name d l v
Step-WillUnlock (clears now name l) v = clear_lock-WillUnlock now name l v
Step-WillUnlock (fires now l) v = record {
  watched = ground (arith, v.watched);
  at_expiry = λ t. ground (arith, v.at_expiry t);
}
Step-WillUnlock (runs_timer l) v = record {
  watched = ground (arith, v.watched);
  at_expiry = λ t. ground (arith, v.at_expiry t);
}
Step-WillUnlock (receives l) v = record { watched = v.watched; at_expiry = v.at_expiry }

-- In every state that a new lock can come to, a lock that holds is watched by the timer or by the
-- timer's function, and a timer that runs is set for nextExpiryTime.
pub Reach-WillUnlock : {l : KeyboardLock} → Reach new_keyboard_lock l → WillUnlock l
unfolding new_keyboard_lock
Reach-WillUnlock here = record { watched = λ e. ground arith; at_expiry = λ t e. ground arith }
Reach-WillUnlock (next r s) = Step-WillUnlock s (Reach-WillUnlock r)

-- In any state that a new lock can come to and that is locked, once nextExpiryTime has come, the
-- timer and its function end the lock, and the keyboard is told.
pub run_timer-fire :
    {l : KeyboardLock} (now : ℕ)
    → Reach new_keyboard_lock l
    → l.locked ≡ true
    → l.next_expiry_time ≤ now
    → ((run_timer (fire now l)).locked ≡ false) × ((run_timer (fire now l)).signal ≡ true)
unfolding run_timer fire
run_timer-fire {l} now r h le =
    let v = Reach-WillUnlock r in
    elim (Option-cases l.timer) [
      | inl e ↦ ground (arith, v.watched h)
      | inr (t, e) ↦ ground (arith, v.at_expiry t e)
    ]

new_next_expiry_unlocks :
    (now expiry : ℕ) (l : KeyboardLock)
    → l.locked ≡ true
    → (new_next_expiry now expiry l).locked ≡ false
    → (new_next_expiry now expiry l).signal ≡ true
unfolding new_next_expiry
new_next_expiry_unlocks now expiry l h e = ground arith

clear_lock_unlocks :
    (now : ℕ) (name : Bytes) (l : KeyboardLock)
    → l.locked ≡ true
    → (clear_lock now name l).locked ≡ false
    → (clear_lock now name l).signal ≡ true
unfolding clear_lock
clear_lock_unlocks now name l h e = elim (Option-cases (lookup name l.locks)) [
  | inl n ↦ ground arith
  | inr (old, n) ↦ ground (
    arith,
    new_next_expiry_unlocks now (latest (delete name l.locks) 0)
        (record l { locks = delete name l.locks }),
  )
]

-- Whatever step ends a lock, it leaves a value in the channel.
unlock_signals :
    {l m : KeyboardLock} → Step l m → l.locked ≡ true → m.locked ≡ false → m.signal ≡ true
unfolding set_lock fire run_timer receive
unlock_signals (sets now later name d l) h e = ground (
  arith,
  new_next_expiry_unlocks later (now + d) (record l { locks = insert name (now + d) l.locks }),
)
unlock_signals (clears now name l) h e = clear_lock_unlocks now name l h e
unlock_signals (fires now l) h e = ground arith
unlock_signals (runs_timer l) h e = ground arith
unlock_signals (receives l) h e = ground arith
