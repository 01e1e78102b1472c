-- ===== src/Pbft/Timer.antt =====
-- consensus/pbft/timer.go. `uint` is 64 bits wide.
use b7s.Common.{ℕ, ◌+◌, ◌%◌, Bool, none, some, if◌then◌else◌, not, ◌&&◌}
use b7s.Common.Map.{has}
use b7s.Pbft.State.{Replica, timer_started}
use b7s.Pbft.Messaging.{log_event}

abbrev pub uint_mod : ℕ
uint_mod = 18446744073709551616

unfoldable pub increment : ℕ → ℕ
increment x = (x + 1) % uint_mod

unfoldable pub start_request_timer : Bool → Replica → Replica
start_request_timer override_existing r =
    if has r.request_timer && not override_existing
    then r
    else let target_view = increment r.view in
      log_event (timer_started target_view) (record r { request_timer = some target_view })

unfoldable pub stop_request_timer : Replica → Replica
stop_request_timer r = record r { request_timer = none }
