-- ===== src/Aggregator/KeyText.antt =====
-- The aggregation key of internal/storage/aggregator.go: what two flows with one key share.
use mathlib.Core.List.{append_assoc}
use flowguard_lite.Prelude.{ℕ, ◌<◌, ◌≡◌, ◌≢◌, refl, sym, ◌∙◌, [], ◌∷◌, ◌++◌, arith, All}
use flowguard_lite.Prelude.Text.{Text, to_lower, trim_space}
use flowguard_lite.Prelude.Decimal.{itoa, itoa-injective, itoa_bound}
use flowguard_lite.Flow.{
  CollectorKind, FlowEvent, unknown, netflow, sflow, pcap, suricata, unifi_syslog, snmp, kind_name,
  read_kind, normalize_collector_kind,
}
use flowguard_lite.Aggregator.{bar, join_key, kind_of, id_of, flow_key}

abbrev pub HasNoBar : Text → Type 0
HasNoBar = All (λ c. c ≢ bar)

no_bar_inside : (s t : Text) → HasNoBar (s ++ bar ∷ t) → ⊥
no_bar_inside [] t h = h.0 refl
no_bar_inside (c ∷ s) t h = no_bar_inside s t h.1

pub split_first :
    (s t : Text) {x y : Text}
    → HasNoBar s
    → HasNoBar t
    → s ++ bar ∷ x ≡ t ++ bar ∷ y
    → (s ≡ t) × (x ≡ y)
split_first [] [] hs ht e = (refl, cc)
split_first [] (d ∷ t) hs ht e = absurd (ht.0 (cc))
split_first (c ∷ s) [] hs ht e = absurd (hs.0 (cc))
split_first (c ∷ s) (d ∷ t) {x} {y} hs ht e =
    let tails : s ++ bar ∷ x ≡ t ++ bar ∷ y = cc in
    let heads : c ≡ d = cc in let (p, q) = split_first s t hs.1 ht.1 tails in (cc (heads, p), q)

pub split_last :
    (s t : Text) {x y : Text}
    → HasNoBar x
    → HasNoBar y
    → s ++ bar ∷ x ≡ t ++ bar ∷ y
    → (s ≡ t) × (x ≡ y)
split_last [] [] hx hy e = (refl, cc)
split_last [] (d ∷ t) {x} {y} hx hy e =
    let tail : x ≡ t ++ bar ∷ y = cc in absurd (no_bar_inside t y (rw tail at hx))
split_last (c ∷ s) [] {x} {y} hx hy e =
    let tail : y ≡ s ++ bar ∷ x = cc in absurd (no_bar_inside s x (rw tail at hy))
split_last (c ∷ s) (d ∷ t) {x} {y} hx hy e =
    let tails : s ++ bar ∷ x ≡ t ++ bar ∷ y = cc in
    let heads : c ≡ d = cc in let (p, q) = split_last s t hx hy tails in (cc (heads, p), q)

digits-HasNoBar : (s : Text) → All (λ c. c < 58) s → HasNoBar s
digits-HasNoBar [] h = tt
digits-HasNoBar (c ∷ s) h = (omega arith, digits-HasNoBar s h.1)

pub itoa-HasNoBar : (n : ℕ) → HasNoBar (itoa n)
itoa-HasNoBar n = digits-HasNoBar (itoa n) (itoa_bound n)

kind_name-HasNoBar : (k : CollectorKind) → HasNoBar (kind_name k)
unfolding kind_name
kind_name-HasNoBar unknown = omega arith
kind_name-HasNoBar netflow = omega arith
kind_name-HasNoBar sflow = omega arith
kind_name-HasNoBar pcap = omega arith
kind_name-HasNoBar suricata = omega arith
kind_name-HasNoBar unifi_syslog = omega arith
kind_name-HasNoBar snmp = omega arith

kind_of-HasNoBar : (e : FlowEvent) → HasNoBar (kind_of e)
unfolding normalize_collector_kind
kind_of-HasNoBar e = kind_name-HasNoBar (read_kind (to_lower (trim_space e.collector_kind)))

regroup :
    (id src dst port protocol : Text)
    → id ++ bar ∷ (src ++ bar ∷ (dst ++ bar ∷ (port ++ bar ∷ protocol)))
      ≡ (((id ++ bar ∷ src) ++ bar ∷ dst) ++ bar ∷ port) ++ bar ∷ protocol
regroup id src dst port protocol = simp append_assoc

-- Two flows that the buffer merges agree in collector kind, collector id, source, destination,
-- destination port and protocol, if no address holds the separator `|`. The collector id
-- may hold it.
pub flow_key-injective :
    (a b : FlowEvent)
    → HasNoBar a.src_ip × HasNoBar a.dst_ip
    → HasNoBar b.src_ip × HasNoBar b.dst_ip
    → flow_key a ≡ flow_key b
    → (kind_of a ≡ kind_of b)
      × (id_of a ≡ id_of b)
      × (a.src_ip ≡ b.src_ip)
      × (a.dst_ip ≡ b.dst_ip)
      × (a.dst_port ≡ b.dst_port)
      × (a.protocol ≡ b.protocol)
unfolding flow_key join_key
flow_key-injective a b ha hb e =
    let (kinds, rest) =
      split_first (kind_of a) (kind_of b) (kind_of-HasNoBar a) (kind_of-HasNoBar b) e in
    let grouped =
      sym (regroup (id_of a) a.src_ip a.dst_ip (itoa a.dst_port) (itoa a.protocol))
      ∙ rest
      ∙ regroup (id_of b) b.src_ip b.dst_ip (itoa b.dst_port) (itoa b.protocol) in
    let (r1, protocols) =
      split_last _ _ (itoa-HasNoBar a.protocol) (itoa-HasNoBar b.protocol) grouped in
    let (r2, ports) = split_last _ _ (itoa-HasNoBar a.dst_port) (itoa-HasNoBar b.dst_port) r1 in
    let (r3, dsts) = split_last _ _ ha.1 hb.1 r2 in
    let (ids, srcs) = split_last _ _ ha.0 hb.0 r3 in
    (kinds, ids, srcs, dsts, itoa-injective ports, itoa-injective protocols)
