-- ===== src/Examples/Dispatching.antt =====
-- The theorems on internal/storage/callbacks at concrete inputs.
use flowguard_lite.Prelude.{refl, []}
use flowguard_lite.Alert.{Anomaly, new_anomaly, ddos_attack, high}
use flowguard_lite.Callbacks.{Dispatcher, new_dispatcher, dispatch, dispatches, Reach, start, next}
use flowguard_lite.Callbacks.Slots.{IsBounded, Reach-IsBounded}
use flowguard_lite.Examples.{printer, noon}

abbrev attack_seen : Anomaly
attack_seen = new_anomaly printer [] ddos_attack [] high noon

abbrev busy : Dispatcher
busy = dispatch 2 attack_seen new_dispatcher

busy_reached : Reach new_dispatcher busy
busy_reached = next start (dispatches 2 attack_seen refl)

Reach-IsBounded_example : IsBounded busy
Reach-IsBounded_example = Reach-IsBounded busy_reached
