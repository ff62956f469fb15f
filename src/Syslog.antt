-- ===== src/Syslog.antt =====
-- internal/collector/unifi_syslog.go: reading a UniFi syslog message. A text is its code points, so
-- the slices of the code, which cut behind ASCII characters, are by characters here. Package time
-- is a parameter: the layouts RFC3339Nano and, with the year of a reading of the clock, Jan _2
-- 15:04:05. Times are in UTC.
pub mod Category
pub mod Receiver
pub mod Trimming
pub mod RoundTrip
pub mod Alarms
use flowguard_lite.Prelude.{
  ℕ, zero, suc, ◌+◌, ◌-◌, ◌/◌, ◌%◌, Bool, true, false, not, ◌&&◌, ◌||◌, Option, none, some, List,
  [], ◌∷◌, ltb, leb, eqb, length, any, drop, if◌then◌else◌, ◌==◌,
}
use mathlib.Core.List.{reverse}
use flowguard_lite.Prelude.Ints.{ℤ, pos, negsuc}
use flowguard_lite.Prelude.Text.{Text, codes, text_keys, trim_space, is_space}
use flowguard_lite.Prelude.Atoi.{atoi}
use flowguard_lite.Prelude.Split.{cut, cons_head}
use flowguard_lite.Prelude.Clock.{Time}
use flowguard_lite.Flow.{is_empty}
use flowguard_lite.Policies.{byte_length}

pub record UnifiSyslogEvent : Type 0 where
  pub timestamp : Time
  pub host : Text
  pub app_name : Text
  pub proc_id : Text
  pub msg_id : Text
  pub facility : ℕ
  pub severity : ℕ
  pub message : Text

pub data SyslogError : Type 0 where
  empty_message too_large blank_message no_priority bad_priority_prefix bad_priority_value :
      SyslogError
  no_body bad_rfc5424_time empty_rfc5424_body : SyslogError
  short_rfc3164 bad_rfc3164_time empty_rfc3164_body no_rfc3164_message : SyslogError

pub data Parsed : Type 0 where
  parsed : UnifiSyslogEvent → Parsed
  malformed : SyslogError → Parsed

pub record TimeParsers : Type 0 where
  pub parse_rfc3339 : Text → Option Time
  pub parse_stamp : Time → Text → Option Time

abbrev pub max_unifi_syslog_datagram_bytes : ℕ
max_unifi_syslog_datagram_bytes = 4096

-- `\x00\r\n`.
abbrev pub is_line_end : ℕ → Bool
is_line_end c = eqb c 0 || eqb c 13 || eqb c 10

unfoldable pub drop_while : (ℕ → Bool) → Text → Text
drop_while p [] = []
drop_while p (c ∷ s) = let rest = drop_while p s in if p c then rest else c ∷ s

-- `strings.TrimRight` by a set of characters.
unfoldable pub trim_right : (ℕ → Bool) → Text → Text
trim_right p s = reverse (drop_while p (reverse s))

-- The rest of a text behind a prefix.
unfoldable pub after_prefix : Text → Text → Option Text
after_prefix [] s = some s
after_prefix (c ∷ p) [] = none
after_prefix (c ∷ p) (d ∷ s) = let rest = after_prefix p s in if eqb c d then rest else none

-- `strings.SplitN(s, sep, n + 1)`.
unfoldable pub split_n : ℕ → ℕ → Text → List Text
split_n sep zero s = s ∷ []
split_n sep (suc n) s = elim (cut sep s) [
  | none ↦ s ∷ []
  | some (front, back) ↦ front ∷ split_n sep n back
]

unfoldable pub dash_to_empty : Text → Text
dash_to_empty v = if v == codes "-" then [] else v

abbrev pub in_priority_range : Option ℤ → Option ℕ
in_priority_range none = none
in_priority_range (some (negsuc n)) = none
in_priority_range (some (pos n)) = if ltb 191 n then none else some n

pub data Priority : Type 0 where
  priority : ℕ → Text → Priority
  no_priority_for : SyslogError → Priority

-- Where `>` is counted from the start of the text, where `<` stands.
abbrev pub read_priority : Text → Text → Priority
read_priority number rest =
    if ltb (byte_length number) 1 || ltb 3 (byte_length number)
    then no_priority_for bad_priority_prefix
    else elim (in_priority_range (atoi number)) [
      | none ↦ no_priority_for bad_priority_value
      | some n ↦ priority n rest
    ]

unfoldable pub parse_syslog_priority : Text → Priority
parse_syslog_priority text = elim (after_prefix (codes "<") text) [
  | none ↦ no_priority_for no_priority
  | some body ↦ elim (cut b'>' body) [
    | none ↦ no_priority_for bad_priority_prefix
    | some (number, rest) ↦ read_priority number rest
  ]
]

-- What stands behind the bracket that closes the first one, `depth` brackets being open.
unfoldable pub after_brackets : ℕ → Text → Text
after_brackets depth [] = []
after_brackets depth (c ∷ s) =
    let deeper = after_brackets (suc depth) s in
    let shallower = after_brackets (depth - 1) s in
    let same = after_brackets depth s in
    if eqb c b'['
    then deeper
    else if eqb c b']'
    then (if leb depth 1 then trim_space s else shallower)
    else same

-- What is left of a text without spaces around it.
unfoldable pub strip_trimmed : Text → Text
strip_trimmed text =
    if is_empty text || text == codes "-" then [] else elim (after_prefix (codes "[") text) [
      | some inside ↦ after_brackets 1 inside
      | none ↦ elim (after_prefix (codes "- ") text) [
        | some message ↦ trim_space message
        | none ↦ text
      ]
    ]

unfoldable pub strip_structured_data : Text → Text
strip_structured_data rest = strip_trimmed (trim_space rest)

-- `none` where the body is not of this form.
unfoldable pub parse_rfc5424_fields :
    TimeParsers → UnifiSyslogEvent → Text → Text → Text → Text → Text → Text → Parsed
parse_rfc5424_fields z base time host app proc msg rest = elim (z.parse_rfc3339 time) [
  | none ↦ malformed bad_rfc5424_time
  | some t ↦
      let message = trim_space (strip_structured_data rest) in
      if is_empty message
      then malformed empty_rfc5424_body
      else parsed (record base {
        timestamp = t;
        host = dash_to_empty host;
        app_name = dash_to_empty app;
        proc_id = dash_to_empty proc;
        msg_id = dash_to_empty msg;
        message = message;
      })
]

unfoldable pub rfc5424_of : TimeParsers → UnifiSyslogEvent → List Text → Option Parsed
rfc5424_of z base (version ∷ time ∷ host ∷ app ∷ proc ∷ msg ∷ rest ∷ []) =
    if version == codes "1"
    then some (parse_rfc5424_fields z base time host app proc msg rest)
    else none
rfc5424_of z base _ = none

unfoldable pub parse_rfc5424_syslog : TimeParsers → Text → UnifiSyslogEvent → Option Parsed
parse_rfc5424_syslog z body base = rfc5424_of z base (split_n b' ' 6 body)

-- `tag[pid]` as its two parts.
abbrev pub split_tag : Text → Text × Text
split_tag tag = elim (cut b'[' tag) [
  | none ↦ (tag, [])
  | some (name, inside) ↦ elim (after_prefix (codes "]") (reverse inside)) [
    | none ↦ (tag, [])
    | some pid ↦ (name, reverse pid)
  ]
]

-- The application, the process and the message.
unfoldable pub split_rfc3164_tag : Text → Text × Text × Text
split_rfc3164_tag message = elim (cut b':' message) [
  | none ↦ ([], [], trim_space message)
  | some (tag, body) ↦
      if any is_space tag
      then ([], [], trim_space message)
      else if is_empty tag
      then ([], [], trim_space body)
      else (let (name, pid) = split_tag tag in (name, pid, trim_space body))
]

unfoldable pub rfc3164_message : UnifiSyslogEvent → Time → Text → Text → Parsed
rfc3164_message base t host message =
    let (app, proc, text) = split_rfc3164_tag (trim_space message) in
    if is_empty text
    then malformed empty_rfc3164_body
    else parsed
        (record base { timestamp = t; host = host; app_name = app; proc_id = proc; message = text })

abbrev pub take_text : ℕ → Text → Text
take_text zero s = []
take_text (suc n) [] = []
take_text (suc n) (c ∷ s) = c ∷ take_text n s

unfoldable pub parse_rfc3164_syslog : TimeParsers → Time → Text → UnifiSyslogEvent → Parsed
parse_rfc3164_syslog z now body base =
    if ltb (byte_length body) 16
    then malformed short_rfc3164
    else elim (z.parse_stamp now (take_text 15 body)) [
      | none ↦ malformed bad_rfc3164_time
      | some t ↦
          let rest = trim_space (drop 15 body) in
          if is_empty rest then malformed empty_rfc3164_body else elim (cut b' ' rest) [
            | none ↦ malformed no_rfc3164_message
            | some (host, message) ↦
                if is_empty (trim_space message)
                then malformed no_rfc3164_message
                else rfc3164_message base t host message
          ]
    ]

abbrev pub base_event : Time → ℕ → UnifiSyslogEvent
base_event now n = record {
  timestamp = now;
  host = [];
  app_name = [];
  proc_id = [];
  msg_id = [];
  facility = n / 8;
  severity = n % 8;
  message = [];
}

-- A body without spaces around it, behind the priority.
unfoldable pub parse_body : TimeParsers → Time → ℕ → Text → Parsed
parse_body z now n body =
    if is_empty body
    then malformed no_body
    else elim (parse_rfc5424_syslog z body (base_event now n)) [
      | some result ↦ result
      | none ↦ parse_rfc3164_syslog z now body (base_event now n)
    ]

-- A text without line ends behind it.
unfoldable pub parse_text : TimeParsers → Time → Text → Parsed
parse_text z now text =
    if is_empty (trim_space text)
    then malformed blank_message
    else elim (parse_syslog_priority text) [
      | no_priority_for e ↦ malformed e
      | priority n rest ↦ parse_body z now n (trim_space rest)
    ]

unfoldable pub parse_unifi_syslog : TimeParsers → Text → Time → Parsed
parse_unifi_syslog z packet now =
    if is_empty packet
    then malformed empty_message
    else if ltb max_unifi_syslog_datagram_bytes (byte_length packet)
    then malformed too_large
    else parse_text z now (trim_right is_line_end packet)
