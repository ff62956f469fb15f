-- ===== src/Examples/Requests.antt =====
-- The theorems on internal/suricata and internal/api at concrete inputs.
use flowguard_lite.Prelude.{Option, none, some, List, [], ◌∷◌, arith, All, if◌then◌else◌, ◌==◌}
use flowguard_lite.Prelude.Ints.{pos}
use flowguard_lite.Prelude.Text.{Text, codes, text_keys, text_eq}
use flowguard_lite.Prelude.Clock.{Time}
use flowguard_lite.Net.{Subnet, net4}
use flowguard_lite.Alert.Dedup.{Spaced, Covered}
use flowguard_lite.Alert.Runs.{due_list, run_calls}
use flowguard_lite.Suricata.{EveEvent, window}
use flowguard_lite.Suricata.Spacing.{run_lines-Spaced, stamp, process_at, due}
use flowguard_lite.Examples.{parsers, laptop, resolver}

abbrev sweep : EveEvent
sweep = record {
  event_type = codes "alert";
  src_ip = resolver;
  dest_ip = laptop;
  alert = some (record {
    signature_id = 2001219;
    signature = codes "SSH sweep";
    category = codes "Attempted Information Leak";
    severity = pos 2;
  });
}

-- A decoder that knows one line.
unfoldable read_sweep : Text → Option EveEvent
unfolding text_eq
read_sweep line = if line == codes "{}" then some sweep else none

abbrev lines : List (Time × Text)
lines =
    (63900000000000000000, codes "{}")
    ∷ (63900000060000000000, codes "{")
    ∷ (63900000900000000000, codes "{}")
    ∷ []

abbrev watched : List Subnet
watched = net4 3232235776 24 ∷ []

run_lines-Spaced_example :
    Spaced window
      (run_calls
        (stamp read_sweep parsers watched)
        (process_at read_sweep parsers watched)
        lines
        []
        []).1
    × All
        (Covered window
          (run_calls
            (stamp read_sweep parsers watched)
            (process_at read_sweep parsers watched)
            lines
            []
            []).1)
        (due_list (due read_sweep parsers watched) lines)
run_lines-Spaced_example = run_lines-Spaced read_sweep parsers watched lines (ground arith)
