-- ===== src/KeyboardLock/Tests.antt =====
-- Runs of keyboard_lock.go.
use telnet.Prelude.{◌≡◌, refl, true, false, Bytes, text, arith}
use telnet.KeyboardLock.{
  KeyboardLock, new_keyboard_lock, new_next_expiry, set_lock, clear_lock, has_active_lock, fire,
  run_timer,
}
use telnet.KeyboardLock.Timer.{
  sets, Reach, here, next, WillUnlock, Reach-WillUnlock, run_timer-fire,
}
use telnet.KeyboardLock.Relock.{relock_does_not_lock}

abbrev lock_name : Bytes
lock_name = text "lock.eor"

-- A new lock, set at time 100 for 5.
abbrev locked_once : KeyboardLock
locked_once = set_lock 100 100 lock_name 5 new_keyboard_lock

locked_once-Reach : Reach new_keyboard_lock locked_once
locked_once-Reach = next here (sets 100 100 lock_name 5 new_keyboard_lock)

Reach-WillUnlock_example : WillUnlock locked_once
Reach-WillUnlock_example = Reach-WillUnlock locked_once-Reach

run_timer-fire_example :
    ((run_timer (fire 105 locked_once)).locked ≡ false)
    × ((run_timer (fire 105 locked_once)).signal ≡ true)
run_timer-fire_example =
    run_timer-fire 105 locked_once-Reach (unfold set_lock new_next_expiry new_keyboard_lock in refl)
      (unfold set_lock new_next_expiry new_keyboard_lock in omega arith)

relock_does_not_lock_example :
    let r =
      set_lock 103 103 lock_name 2
        (clear_lock 102 (text "a") (set_lock 100 100 (text "a") 5 new_keyboard_lock)) in
    (r.locked ≡ false) × (has_active_lock 103 lock_name r ≡ true)
relock_does_not_lock_example =
    relock_does_not_lock (text "a") lock_name 100 5 102 103 2 (omega arith) (omega arith)
      (omega arith)
