-- ===== src/KeyboardLock.antt =====
-- keyboard_lock.go: named locks with an expiry, one timer for all of them, and a channel that tells the
-- keyboard of an unlock. A method that reads the clock takes the time as an argument; time 0 is Go's
-- zero time. The methods hold the mutex, so that each is one step.
pub mod Timer
pub mod Relock
mod Tests
use telnet.Prelude.{
  ℕ, ◌+◌, Bool, true, false, ◌&&◌, ◌||◌, Option, none, some, List, [], ◌∷◌, ◌==◌, if◌then◌else◌,
  Bytes, ltb,
}
use telnet.Prelude.ByteMap.{lookup, insert, delete}

-- `timer` is when the timer fires, if it runs. `pending` is that it has fired and its function waits
-- for the mutex. `signal` is that the channel `C`, of capacity 1, holds a value.
pub record KeyboardLock : Type 0 where
  pub locks : List (Bytes × ℕ)
  pub next_expiry_time : ℕ
  pub timer : Option ℕ
  pub pending : Bool
  pub locked : Bool
  pub signal : Bool

-- The timer's function is taken not to start between `AfterFunc` and the `Stop` behind it.
unfoldable pub new_keyboard_lock : KeyboardLock
new_keyboard_lock = record {
  locks = [];
  next_expiry_time = 0;
  timer = none;
  pending = false;
  locked = false;
  signal = false;
}

-- The send does not block: on a full channel it does nothing.
unfoldable pub timer_expire : KeyboardLock → KeyboardLock
timer_expire l = record l { locked = false; signal = true }

-- `expiry.IsZero() || time.Now().After(expiry)`
abbrev expired : ℕ → ℕ → Bool
expired now expiry = expiry == 0 || ltb expiry now

-- `timer.Stop()` is true if the timer ran.
unfoldable pub new_next_expiry : ℕ → ℕ → KeyboardLock → KeyboardLock
unfolding timer_expire
new_next_expiry now expiry l =
    let stopped : KeyboardLock = record l { timer = none } in
    if expired now expiry
    then elim l.timer [ none ↦ stopped | some t ↦ timer_expire stopped ]
    else record stopped { locked = true; next_expiry_time = expiry; timer = some expiry }

-- `later` is the clock once the mutex is held.
unfoldable pub set_lock : ℕ → ℕ → Bytes → ℕ → KeyboardLock → KeyboardLock
unfolding new_next_expiry
set_lock now later name duration l =
    let expiry = now + duration in
    let r : KeyboardLock = record l { locks = insert name expiry l.locks } in
    if ltb l.next_expiry_time expiry then new_next_expiry later expiry r else r

-- The latest expiry, from the zero time on.
unfoldable pub latest : List (Bytes × ℕ) → ℕ → ℕ
latest [] found = found
latest ((name, expiry) ∷ locks) found = latest locks (if ltb found expiry then expiry else found)

unfoldable pub clear_lock : ℕ → Bytes → KeyboardLock → KeyboardLock
unfolding new_next_expiry
clear_lock now name l = elim (lookup name l.locks) [
  | none ↦ l
  | some old_expiry ↦
      let rest = delete name l.locks in
      let r : KeyboardLock = record l { locks = rest } in
      if l.next_expiry_time == old_expiry then new_next_expiry now (latest rest 0) r else r
]

unfoldable pub has_active_lock : ℕ → Bytes → KeyboardLock → Bool
has_active_lock now name l = elim (lookup name l.locks) [
  | none ↦ false
  | some expiry ↦ ltb now expiry
]

abbrev pub is_locked : KeyboardLock → Bool
is_locked l = l.locked

-- What goes on around the methods: the timer fires, its function gets the mutex, and the keyboard
-- takes the value out of the channel.
unfoldable pub fire : ℕ → KeyboardLock → KeyboardLock
fire now l = elim l.timer [
  | none ↦ l
  | some t ↦ if ltb now t then l else record l { timer = none; pending = true }
]

unfoldable pub run_timer : KeyboardLock → KeyboardLock
unfolding timer_expire
run_timer l = if l.pending then timer_expire (record l { pending = false }) else l

unfoldable pub receive : KeyboardLock → KeyboardLock
receive l = record l { signal = false }
