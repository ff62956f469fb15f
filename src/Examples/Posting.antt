-- ===== src/Examples/Posting.antt =====
-- Settings that are posted, at concrete inputs.
use flowguard_lite.Prelude.{◌≡◌, ◌≢◌, ◌⊎◌, refl, true, List, [], ◌∷◌, any, keep}
use flowguard_lite.Prelude.Ints.{pos, is_below, is_above}
use flowguard_lite.Prelude.Maps.{contains}
use flowguard_lite.Prelude.Decimal.{value}
use flowguard_lite.Prelude.Atoi.{atoi, read_digits, all_digits}
use flowguard_lite.Prelude.Text.{codes, text_eq, trim_space, trim_left, is_space}
use flowguard_lite.Flow.{is_empty}
use flowguard_lite.Config.{
  validate, first_error, validate_tcp_port, validate_udp_port, is_zero_int,
  validate_collector_port_conflicts, has_conflict, same_port, enabled_ports,
  validate_anomaly_type_list, validate_types_from, is_known_anomaly_type, validate_cidr_list,
  validate_cidr_entries, validate_local_subnets, is_bad_allowed_ip, has_control,
}
use flowguard_lite.Auth.Password.{Crypto, ok, failed}
use flowguard_lite.Api.Settings.{merge_token, normalize_allowed_sources, normalize_string_list}
use flowguard_lite.Api.Posting.{
  SettingsPayload, Daemon, done, fill_defaults, merged, propagate, post_settings,
}
use flowguard_lite.Api.Posting.Copies.{Post, IsSound, post_all, post_all-IsSound}
use flowguard_lite.Examples.{parsers, read_network, read_address}
use flowguard_lite.Examples.Settings.{defaults}

abbrev keyless : Crypto
keyless = record { hmac = λ key message. message; encode = λ b. []; decode = λ t. ok [] }

-- A format that no check of the handler looks at.
abbrev for_teams : SettingsPayload
for_teams = record {
  posted = record defaults { webhook_format = codes "teams"; ddos_threshold_pps = pos 20000 };
  has_disabled_types = true;
  has_muted_subnets = true;
  has_allowed_subnets = true;
  has_suppressed_types = true;
  capture_interface = [];
  capture_bpf_filter = [];
  admin_password = [];
}

abbrev longer_kept : SettingsPayload
longer_kept = record for_teams { posted = record defaults { retention_days = pos 30 } }

abbrev started : Daemon
started = record {
  memory = defaults;
  disk = defaults;
  engines = propagate defaults;
  admin_password_hash = [];
  has_file = true;
}

loadable : IsSound parsers started
unfolding atoi read_digits all_digits value is_below is_above is_zero_int has_conflict same_port
    enabled_ports any keep has_control contains text_eq trim_space trim_left is_space is_empty
    is_known_anomaly_type read_network read_address fill_defaults normalize_allowed_sources
    normalize_string_list validate first_error validate_tcp_port validate_udp_port
    validate_collector_port_conflicts validate_anomaly_type_list validate_types_from
    validate_cidr_list validate_cidr_entries validate_local_subnets is_bad_allowed_ip merged
    merge_token
loadable = record { kept = refl; loadable = refl; followed = refl }

abbrev teams_first : List Post
teams_first = record { random = failed []; written = true; payload = for_teams } ∷ []

abbrev then_kept : Post
then_kept = record { random = failed []; written = true; payload = longer_kept }

post_all-IsSound_example :
    IsSound parsers (post_all parsers keyless teams_first started)
    × (((post_settings parsers keyless
            (failed [])
            true
            longer_kept
            (post_all parsers keyless teams_first started)).1
          ≢ done)
        ⊎ ((post_settings parsers keyless
              (failed [])
              true
              longer_kept
              (post_all parsers keyless teams_first started)).0.disk
            ≡ (post_settings parsers keyless
                (failed [])
                true
                longer_kept
                (post_all parsers keyless teams_first started)).0.memory))
post_all-IsSound_example = post_all-IsSound parsers keyless teams_first started then_kept loadable
