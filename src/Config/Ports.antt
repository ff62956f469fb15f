-- ===== src/Config/Ports.antt =====
-- Numbers within bounds and ports of internal/config/config.go that differ.
use flowguard_lite.Prelude.{
  ℕ, zero, suc, ◌≤◌, ◌≡◌, ◌≢◌, ◌⊎◌, ◌&&◌, any, inl, inr, refl, Bool, true, false, none, [], arith,
}
use flowguard_lite.Prelude.Ints.{ℤ, pos, negsuc, is_below, is_above}
use flowguard_lite.Config.{
  is_outside, reject, Config, ConfigError, has_conflict, same_port, if_enabled, enabled_ports,
}

pub reject-none : (b : Bool) (e : ConfigError) → reject b e ≡ none → b ≡ false
reject-none true e h = absurd (ground (arith, h))
reject-none false e h = refl

-- A number of the source within bounds.
abbrev pub InRange : ℕ → ℕ → ℤ → Type 0
InRange lo hi x = (n : ℕ) × (x ≡ pos n) × (lo ≤ n) × (n ≤ hi)

pub outside-InRange : (lo hi : ℕ) (x : ℤ) → is_outside lo hi x ≡ false → InRange lo hi x
unfolding is_below is_above
outside-InRange lo hi (pos n) h = (n, refl, ground (arith, h), ground (arith, h))
outside-InRange lo hi (negsuc n) h = absurd (ground (arith, h))

pub rejected-InRange :
    (lo hi : ℕ) (x : ℤ) (e : ConfigError) → reject (is_outside lo hi x) e ≡ none → InRange lo hi x
rejected-InRange lo hi x e h = outside-InRange lo hi x (reject-none (is_outside lo hi x) e h)

-- Two collectors do not listen on one port; a port of 0 stands for none.
abbrev pub Apart : ℤ → ℤ → Type 0
Apart x y = (x ≡ pos 0) ⊎ ((y ≡ pos 0) ⊎ (x ≢ y))

-- The same if the second one can be turned off.
abbrev pub ApartIf : Bool → ℤ → ℤ → Type 0
ApartIf on x y = (on ≡ false) ⊎ Apart x y

same_port_differ : (a b : ℕ) → same_port (pos a) (pos b) ≡ false → pos a ≢ pos b
unfolding same_port
same_port_differ a b h e = ground (arith, h, e)

ports-Apart :
    (a b u : ℕ) (on : Bool)
    → has_conflict (
        if_enabled (is_above (pos a) 0) (pos a) (
          if_enabled
            (is_above (pos b) 0)
            (pos b)
            (if_enabled (on && is_above (pos u) 0) (pos u) [])))
      ≡ false
    → Apart (pos a) (pos b) × ApartIf on (pos a) (pos u) × ApartIf on (pos b) (pos u)
unfolding has_conflict same_port any is_above
ports-Apart zero zero u on h = (inl refl, inr (inl refl), inr (inl refl))
ports-Apart zero (suc b) zero on h = (inl refl, inr (inl refl), inr (inr (inl refl)))
ports-Apart zero (suc b) (suc u) false h = (inl refl, inl refl, inl refl)
ports-Apart zero (suc b) (suc u) true h =
    (inl refl, inr (inl refl), inr (inr (inr (same_port_differ _ _ (ground (arith, h))))))
ports-Apart (suc a) zero zero on h = (inr (inl refl), inr (inr (inl refl)), inr (inl refl))
ports-Apart (suc a) zero (suc u) false h = (inr (inl refl), inl refl, inl refl)
ports-Apart (suc a) zero (suc u) true h =
    (inr (inl refl), inr (inr (inr (same_port_differ _ _ (ground (arith, h))))), inr (inl refl))
ports-Apart (suc a) (suc b) zero false h =
    (inr (inr (same_port_differ _ _ (ground (arith, h)))), inl refl, inl refl)
ports-Apart (suc a) (suc b) zero true h = (
  inr (inr (same_port_differ _ _ (ground (arith, h)))),
  inr (inr (inl refl)),
  inr (inr (inl refl)),
)
ports-Apart (suc a) (suc b) (suc u) false h =
    (inr (inr (same_port_differ _ _ (ground (arith, h)))), inl refl, inl refl)
ports-Apart (suc a) (suc b) (suc u) true h = (
  inr (inr (same_port_differ _ _ (ground (arith, h)))),
  inr (inr (inr (same_port_differ _ _ (ground (arith, h))))),
  inr (inr (inr (same_port_differ _ _ (ground (arith, h))))),
)

pub ports_separate :
    (c : Config)
    → InRange 0 65535 c.netflow_port
    → InRange 0 65535 c.sflow_port
    → InRange 0 65535 c.unifi_syslog_port
    → has_conflict (enabled_ports c) ≡ false
    → Apart c.netflow_port c.sflow_port
      × ApartIf c.unifi_syslog_enabled c.netflow_port c.unifi_syslog_port
      × ApartIf c.unifi_syslog_enabled c.sflow_port c.unifi_syslog_port
unfolding enabled_ports
ports_separate c (a, ea, _, _) (b, eb, _, _) (u, eu, _, _) h =
    rw (ea, eb, eu) (ports-Apart a b u c.unifi_syslog_enabled (rw (ea, eb, eu) at h))
