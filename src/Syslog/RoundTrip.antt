-- ===== src/Syslog/RoundTrip.antt =====
-- A message as RFC 5424 prints it is read back by internal/collector/unifi_syslog.go.
use flowguard_lite.Prelude.{
  ℕ, suc, ◌/◌, ◌%◌, ◌≤◌, ◌<◌, ◌≡◌, refl, ap, ◌∙◌, false, some, [], ◌∷◌, ◌++◌, arith, ltb,
}
use flowguard_lite.Prelude.Text.{Text, codes, text_keys, text_eq, is_space, trim_space}
use flowguard_lite.Prelude.Decimal.{itoa}
use flowguard_lite.Prelude.Atoi.{atoi-itoa}
use flowguard_lite.Prelude.Split.{Lacks, cut-append}
use flowguard_lite.Prelude.Clock.{Time}
use flowguard_lite.Flow.{is_empty}
use flowguard_lite.Policies.{byte_length}
use flowguard_lite.Syslog.{
  UnifiSyslogEvent, parsed, TimeParsers, base_event, dash_to_empty, split_n, strip_structured_data,
  strip_trimmed, parse_text, parse_rfc5424_fields, rfc5424_of, parse_rfc5424_syslog,
  parse_syslog_priority, priority, parse_body, parse_unifi_syslog, max_unifi_syslog_datagram_bytes,
  is_line_end, after_prefix,
}
use flowguard_lite.Syslog.Trimming.{
  EndsIn, EndsIn-append, trim_right_keeps, trim_space_keeps, byte_length-itoa, itoa-Lacks,
}

-- The header fields after the version, each without a space.
pub record Header : Type 0 where
  pub time : Text
  pub host : Text
  pub app : Text
  pub proc : Text
  pub msg : Text

pub record HasFields (h : Header) : Type 0 where
  pub time_lacks : Lacks b' ' h.time
  pub host_lacks : Lacks b' ' h.host
  pub app_lacks : Lacks b' ' h.app
  pub proc_lacks : Lacks b' ' h.proc
  pub msg_lacks : Lacks b' ' h.msg

-- The body, and the whole message with its priority; no structured data.
abbrev pub print_fields : Header → Text → Text
print_fields h message =
    h.time
    ++ b' '
      ∷ (h.host
          ++ b' ' ∷ (h.app ++ b' ' ∷ (h.proc ++ b' ' ∷ (h.msg ++ b' ' ∷ (codes "- " ++ message)))))

unfoldable pub print_body : Header → Text → Text
print_body h message = codes "1 " ++ print_fields h message

unfoldable pub print_rfc5424 : ℕ → Header → Text → Text
print_rfc5424 n h message = codes "<" ++ (itoa n ++ b'>' ∷ print_body h message)

-- A message that starts and ends with a character that is neither a space nor NUL.
pub record IsTidy (c z : ℕ) (s : Text) : Type 0 where
  pub front : is_space c ≡ false
  pub back : is_space z ≡ false
  pub no_nul : is_line_end z ≡ false
  pub ends : EndsIn z (c ∷ s)

split_n-append :
    (sep n : ℕ) (s t : Text)
    → Lacks sep s
    → split_n sep (suc n) (s ++ sep ∷ t) ≡ s ∷ split_n sep n t
unfolding split_n
split_n-append sep n s t h = rw (cut-append sep s t h, split_n) refl

split-print_body :
    (h : Header) (message : Text)
    → HasFields h
    → split_n b' ' 6 (print_body h message)
      ≡ codes "1" ∷ h.time ∷ h.host ∷ h.app ∷ h.proc ∷ h.msg ∷ (codes "- " ++ message) ∷ []
unfolding print_body split_n
split-print_body h message v =
    let after_msg = codes "- " ++ message in
    let after_proc = h.msg ++ b' ' ∷ after_msg in
    let after_app = h.proc ++ b' ' ∷ after_proc in
    let after_host = h.app ++ b' ' ∷ after_app in
    let after_time = h.host ++ b' ' ∷ after_host in
    split_n-append b' ' 5 (codes "1") (h.time ++ b' ' ∷ after_time) (ground arith)
    ∙ ap (λ l. codes "1" ∷ l)
        (split_n-append b' ' 4 h.time after_time v.time_lacks
          ∙ ap (λ l. h.time ∷ l)
              (split_n-append b' ' 3 h.host after_host v.host_lacks
                ∙ ap (λ l. h.host ∷ l)
                    (split_n-append b' ' 2 h.app after_app v.app_lacks
                      ∙ ap (λ l. h.app ∷ l)
                          (split_n-append b' ' 1 h.proc after_proc v.proc_lacks
                            ∙ ap (λ l. h.proc ∷ l)
                                (split_n-append b' ' 0 h.msg after_msg v.msg_lacks)))))

strip_dash :
    (c z : ℕ) (s : Text)
    → IsTidy c z s
    → trim_space (strip_structured_data (codes "- " ++ c ∷ s)) ≡ c ∷ s
unfolding strip_structured_data strip_trimmed is_empty text_eq after_prefix is_space
strip_dash c z s v =
    let inner = trim_space_keeps c z s v.front v.back v.ends in
    let outer =
      trim_space_keeps b'-' z (b' ' ∷ c ∷ s) refl v.back
        (EndsIn-append z (codes "- ") (c ∷ s) v.ends) in
    ap (λ t. trim_space (strip_trimmed t)) outer ∙ ap trim_space inner ∙ inner

module _ (z : TimeParsers) (now t : Time) (n : ℕ) (h : Header) (v : HasFields h)
    (timed : z.parse_rfc3339 h.time ≡ some t) (first last : ℕ) (text : Text)
    (tidy : IsTidy first last text) where
  abbrev pub event_of : UnifiSyslogEvent
  event_of = record {
    timestamp = t;
    host = dash_to_empty h.host;
    app_name = dash_to_empty h.app;
    proc_id = dash_to_empty h.proc;
    msg_id = dash_to_empty h.msg;
    facility = n / 8;
    severity = n % 8;
    message = first ∷ text;
  }

  fields_print :
      parse_rfc5424_fields z
        (base_event now n)
        h.time
        h.host
        h.app
        h.proc
        h.msg
        (codes "- " ++ first ∷ text)
      ≡ parsed event_of
  unfolding parse_rfc5424_fields is_empty
  fields_print = rw (timed, strip_dash first last text tidy, parse_rfc5424_fields) refl

  rfc5424_print :
      parse_rfc5424_syslog z (print_body h (first ∷ text)) (base_event now n)
      ≡ some (parsed event_of)
  unfolding parse_rfc5424_syslog rfc5424_of text_eq
  rfc5424_print =
      ap (rfc5424_of z (base_event now n)) (split-print_body h (first ∷ text) v)
      ∙ ap (λ p. some p) fields_print

  -- The last character of the message is that of all that holds it.
  body_ends : EndsIn last (print_body h (first ∷ text))
  unfolding print_body
  body_ends =
      let space = λ (s : Text) (e : EndsIn last s). EndsIn-append last (b' ' ∷ []) s e in
      let after_msg =
        space (codes "- " ++ first ∷ text)
          (EndsIn-append last (codes "- ") (first ∷ text) tidy.ends) in
      let after_proc = space (h.msg ++ _) (EndsIn-append last h.msg _ after_msg) in
      let after_app = space (h.proc ++ _) (EndsIn-append last h.proc _ after_proc) in
      let after_host = space (h.app ++ _) (EndsIn-append last h.app _ after_app) in
      let after_time = space (h.host ++ _) (EndsIn-append last h.host _ after_host) in
      EndsIn-append last (codes "1 ") (print_fields h (first ∷ text))
        (EndsIn-append last h.time _ after_time)

  parse_body_print : parse_body z now n (trim_space (print_body h (first ∷ text))) ≡ parsed event_of
  unfolding parse_body is_empty is_space print_body
  parse_body_print =
      ap (parse_body z now n)
        (trim_space_keeps b'1' last (b' ' ∷ print_fields h (first ∷ text)) refl tidy.back body_ends)
      ∙ rw (rfc5424_print, parse_body) refl

  parse_syslog_priority_print :
      n < 192
      → parse_syslog_priority (print_rfc5424 n h (first ∷ text))
        ≡ priority n (print_body h (first ∷ text))
  unfolding parse_syslog_priority print_rfc5424 after_prefix
  parse_syslog_priority_print small =
      let (one, three) = byte_length-itoa n (omega arith) in
      rw
        (
          cut-append b'>' (itoa n) (print_body h (first ∷ text)) (itoa-Lacks n),
          parse_syslog_priority,
        )
        (rw (atoi-itoa n (omega arith)) (ground (arith, one, three)))

  packet_ends : EndsIn last (print_rfc5424 n h (first ∷ text))
  unfolding print_rfc5424
  packet_ends = EndsIn-append last (codes "<") (itoa n ++ b'>' ∷ print_body h (first ∷ text)) (
      EndsIn-append last (itoa n) (b'>' ∷ print_body h (first ∷ text))
        (EndsIn-append last (b'>' ∷ []) (print_body h (first ∷ text)) body_ends))

  not_blank : is_empty (trim_space (print_rfc5424 n h (first ∷ text))) ≡ false
  unfolding is_empty print_rfc5424 is_space
  not_blank = ap is_empty (
      trim_space_keeps b'<' last (itoa n ++ b'>' ∷ print_body h (first ∷ text)) refl tidy.back
        packet_ends)

  parse_text_print : n < 192 → parse_text z now (print_rfc5424 n h (first ∷ text)) ≡ parsed event_of
  unfolding parse_text
  parse_text_print small =
      rw (parse_syslog_priority_print small, not_blank, parse_text) parse_body_print

  not_empty : is_empty (print_rfc5424 n h (first ∷ text)) ≡ false
  unfolding is_empty print_rfc5424
  not_empty = refl

  -- If the timestamp of the header reads as `t`, the header's fields hold no space, and the message
  -- starts and ends with a character that is no space and ends with none that is trimmed as a line
  -- end: what RFC 5424 prints for a priority below 192, without structured data and within the size
  -- limit, is read back as that time, those fields, with `-` for an empty one, that facility,
  -- severity and message.
  pub parse_unifi_syslog-print_rfc5424 :
      n < 192
      → byte_length (print_rfc5424 n h (first ∷ text)) ≤ 4096
      → parse_unifi_syslog z (print_rfc5424 n h (first ∷ text)) now ≡ parsed event_of
  unfolding parse_unifi_syslog
  parse_unifi_syslog-print_rfc5424 small fits =
      let room : ltb max_unifi_syslog_datagram_bytes
            (byte_length (print_rfc5424 n h (first ∷ text)))
          ≡ false =
        ground arith in
      let whole =
        trim_right_keeps is_line_end last (print_rfc5424 n h (first ∷ text)) packet_ends
          tidy.no_nul in
      rw (not_empty, room, whole, parse_unifi_syslog) (parse_text_print small)
