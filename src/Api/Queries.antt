-- ===== src/Api/Queries.antt =====
-- internal/api/http_helpers.go: the bounds of a query. The layout RFC3339 of package time is a
-- parameter, and an error is named by the parameter of the request.
use flowguard_lite.Prelude.{ℕ, zero, suc, ◌-◌, ◌||◌, Option, none, some, ltb, eqb, if◌then◌else◌}
use flowguard_lite.Prelude.Ints.{ℤ, pos, negsuc}
use flowguard_lite.Prelude.Text.{Text}
use flowguard_lite.Prelude.Atoi.{atoi}
use flowguard_lite.Prelude.Clock.{Time, Duration, hour}
use flowguard_lite.Flow.{is_empty}

pub record QueryWindow : Type 0 where
  pub start : Time
  pub end : Time
  pub limit : ℕ

pub data QueryError : Type 0 where
  bad_limit bad_end bad_start start_after_end range_too_long bad_bucket : QueryError

pub data Read {ℓ} (A : Type ℓ) : Type ℓ where
  read : A → Read A
  unread : QueryError → Read A

abbrev pub default_query_limit : ℕ
default_query_limit = 10

abbrev pub max_query_limit : ℕ
max_query_limit = 100

abbrev pub max_query_range : Duration
max_query_range = 604800000000000

abbrev pub bounded_int : ℕ → Option ℤ → Read ℕ
bounded_int max none = unread bad_limit
bounded_int max (some (negsuc n)) = unread bad_limit
bounded_int max (some (pos zero)) = unread bad_limit
bounded_int max (some (pos (suc n))) = read (if ltb max (suc n) then max else suc n)

unfoldable pub parse_bounded_positive_int : Text → ℕ → ℕ → Read ℕ
parse_bounded_positive_int raw default max =
    if is_empty raw then read default else bounded_int max (atoi raw)

unfoldable pub parse_limit : Text → ℕ → ℕ → Read ℕ
parse_limit = parse_bounded_positive_int

-- A timestamp, or what stands for one that is not given.
abbrev pub read_time : (Text → Option Time) → Text → Time → QueryError → Read Time
read_time parse raw missing e =
    if is_empty raw then read missing else elim (parse raw) [ none ↦ unread e | some t ↦ read t ]

unfoldable pub check_window : ℕ → Time → Time → Read QueryWindow
check_window limit start end =
    if ltb end start
    then unread start_after_end
    else if ltb max_query_range (end - start)
    then unread range_too_long
    else read (record { start = start; end = end; limit = limit })

-- The three parameters of the request, and the clock.
unfoldable pub parse_query_window :
    (Text → Option Time) → Time → Text → Text → Text → Read QueryWindow
parse_query_window parse now limit end start =
    elim (parse_bounded_positive_int limit default_query_limit max_query_limit) [
      | unread e ↦ unread e
      | read n ↦ elim (read_time parse end now bad_end) [
        | unread e ↦ unread e
        | read last ↦ elim (read_time parse start (last - hour) bad_start) [
          | unread e ↦ unread e
          | read first ↦ check_window n first last
        ]
      ]
    ]

abbrev pub bucket_of : Option ℤ → Read ℕ
bucket_of none = unread bad_bucket
bucket_of (some (negsuc n)) = unread bad_bucket
bucket_of (some (pos n)) =
    if eqb n 60 || eqb n 300 || eqb n 900 || eqb n 3600 then read n else unread bad_bucket

unfoldable pub parse_bucket_seconds : Text → Read ℕ
parse_bucket_seconds raw = if is_empty raw then read 300 else bucket_of (atoi raw)
