-- ===== src/Host/Pinned.antt =====
-- crates/host/src/main.rs: the direct route to the agent, from its look-up to the routes that a start
-- leaves.
use vpn_bridge.Host.Config.{HostConfig, captures, excludes}
use vpn_bridge.Host.Route.{add_all, add_to_dev, install, installed, pin_all, pin_direct}
use vpn_bridge.Host.Startup.{exclude_pins, pin_for, server_pin, start_agent, start_with}
use vpn_bridge.Io.{Result, err, ok}
use vpn_bridge.Net.{IpAddr, ip_of}
use vpn_bridge.Prelude.{
  All, Bool, Bool-cases, List, [], false, if◌then◌else◌, inl, inr, not, refl, some, true, ℕ, ◌&&◌,
  ◌∷◌, ◌≡◌, ◌≢◌, ◌⊎◌,
}
use vpn_bridge.Routing.{HasRoutes, Kernel, Managed, NextHop, Way, through}

module _ {IpNet : Type 0} {K : Kernel IpNet} (L : HasRoutes K) where
  open L use {route, exists_route, add_via_route, add_via_keeps, replace_dev_keeps}

  kept_by :
      (net p : IpNet) (w : Way) (m : Managed K) (answer : Bool × K.Table)
      → route answer.1 p ≡ some w
      → route (installed K m net answer).0.0 p ≡ some w
  kept_by net p w (t, added) (true, u) h = h
  kept_by net p w (t, added) (false, u) h = h

  pin_direct_keeps :
      (p : IpNet) (w : Way) (m : Managed K) (pin : IpNet × NextHop)
      → route m.0 p ≡ some w
      → route (pin_direct K m pin).0.0 p ≡ some w
  unfolding pin_direct
  pin_direct_keeps p w m (net, hop) h = elim (Bool-cases (K.exists net m.0)) [
    | inl there ↦ rw there h
    | inr missing ↦
        let answer = K.add_via net hop m.0 in
        rw missing
          (kept_by net p w m answer (add_via_keeps net p hop m.0 answer.1 w answer.0 refl h))
  ]

  pin_all_keeps :
      (p : IpNet) (w : Way) (m : Managed K) (pins : List (IpNet × NextHop))
      → route m.0 p ≡ some w
      → route (pin_all K m pins).0 p ≡ some w
  unfolding pin_all
  pin_all_keeps p w m [] h = h
  pin_all_keeps p w m (pin ∷ pins) h =
      pin_all_keeps p w (pin_direct K m pin).0 pins (pin_direct_keeps p w m pin h)

  add_all_keeps :
      (device : List ℕ) (p : IpNet) (w : Way) (m : Managed K) (nets : List IpNet)
      → All (λ net. p ≢ net) nets
      → route m.0 p ≡ some w
      → route (add_all K device m nets).0.0 p ≡ some w
  unfolding add_all add_to_dev
  add_all_keeps device p w m [] others h = h
  add_all_keeps device p w m (net ∷ nets) (other, others) h =
      let first = add_to_dev K device m net in
      let answer = K.replace_dev net device m.0 in
      let here =
        kept_by net p w m answer
          (replace_dev_keeps net p device m.0 answer.1 w answer.0 refl other h) in
      elim (Bool-cases first.1) [
        | inl went ↦ rw went (add_all_keeps device p w first.0 nets others here)
        | inr refusal ↦ rw refusal here
      ]

  -- What stands for the prefix `p` in the table `u` behind a pin to `hop`: the route that it had in the
  -- table `t` before, if it had one, and the direct route otherwise.
  abbrev pub Holds : K.Table → K.Table → IpNet → NextHop → Type 0
  Holds t u p hop =
      ((w : Way) × (K.exists p t ≡ true) × (route t p ≡ some w) × (route u p ≡ some w))
      ⊎ ((K.exists p t ≡ false) × (route u p ≡ some (through hop)))

  Holds-kept :
      (t u v : K.Table) (p : IpNet) (hop : NextHop)
      → ((w : Way) → route u p ≡ some w → route v p ≡ some w)
      → Holds t u p hop
      → Holds t v p hop
  Holds-kept t u v p hop keeps (inl (w, there, before, now)) = inl (w, there, before, keeps w now)
  Holds-kept t u v p hop keeps (inr (missing, now)) = inr (missing, keeps (through hop) now)

  installed-Holds :
      (t : K.Table) (p : IpNet) (hop : NextHop) (answer : Bool × K.Table)
      → K.exists p t ≡ false
      → K.add_via p hop t ≡ answer
      → (installed K (t, []) p answer).1 ≡ true
      → Holds t (installed K (t, []) p answer).0.0 p hop
  installed-Holds t p hop (true, u) missing e h = inr (missing, add_via_route p hop t u e)
  installed-Holds t p hop (false, u) missing e h = cc

  pin_direct-Holds :
      (t : K.Table) (p : IpNet) (hop : NextHop)
      → (pin_direct K (t, []) (p, hop)).1 ≡ true
      → Holds t (pin_direct K (t, []) (p, hop)).0.0 p hop
  unfolding pin_direct
  pin_direct-Holds t p hop h = by_exists (K.exists p t) refl h
    where
      by_exists :
          (there : Bool)
          → K.exists p t ≡ there
          → (if there then ((t, []), true) else installed K (t, []) p (K.add_via p hop t)).1 ≡ true
          → Holds t
              (if there then ((t, []), true) else installed K (t, []) p (K.add_via p hop t)).0.0
              p
              hop
      by_exists true e k = let (w, has) = exists_route p t e in inl (w, e, has, has)
      by_exists false e k = installed-Holds t p hop (K.add_via p hop t) e refl k

  install-Holds :
      (device : List ℕ) (t : K.Table) (p : IpNet) (hop : NextHop) (pins : List (IpNet × NextHop))
      (routes : List IpNet)
      → All (λ net. p ≢ net) routes
      → (install K device t (some (p, hop)) pins routes).1 ≡ true
      → Holds t (install K device t (some (p, hop)) pins routes).0.0 p hop
  unfolding install
  install-Holds device t p hop pins routes others h =
      let first = pin_direct K (t, []) (p, hop) in
      elim (Bool-cases first.1) [
        | inl went ↦
            let keeps : (w : Way)
                → route first.0.0 p ≡ some w
                → route (add_all K device (pin_all K first.0 pins) routes).0.0 p ≡ some w =
              λ w now.
                add_all_keeps device p w (pin_all K first.0 pins) routes others
                  (pin_all_keeps p w first.0 pins now) in
            rw went (
              Holds-kept t first.0.0 (add_all K device (pin_all K first.0 pins) routes).0.0 p hop
                keeps (pin_direct-Holds t p hop went))
        | inr refusal ↦ cc (rw refusal at h)
      ]

  module _ (contains : IpNet → IpAddr → Bool) (network : IpNet → IpAddr)
      (host_net : IpAddr → IpNet) where
    -- In the table `u`, the address has the direct route to the hop that was looked up in `t`, or the
    -- one that it had in `t`.
    abbrev pub IsPinned : K.Table → K.Table → IpAddr → Type 0
    IsPinned t u addr = (hop : NextHop) × (K.lookup t addr ≡ ok hop) × Holds t u (host_net addr) hop

    start_with-IsPinned :
        (t : K.Table) (cfg : HostConfig IpNet) (auto : Bool) (looked : Result NextHop)
        → K.lookup t (ip_of cfg.server.address) ≡ looked
        → auto ≡ true
        → cfg.tun.auto_route ≡ auto
        → All (λ net. host_net (ip_of cfg.server.address) ≢ net) cfg.routes
        → (start_with K contains network host_net t cfg
            (pin_for K contains network host_net (ip_of cfg.server.address) looked)).1
          ≡ true
        → IsPinned t
            (start_with K contains network host_net t cfg
              (pin_for K contains network host_net (ip_of cfg.server.address) looked)).0.0
            (ip_of cfg.server.address)
    start_with-IsPinned t cfg false looked e never auto others h = cc
    start_with-IsPinned t cfg true (err e') e refl_auto auto others h = cc
    start_with-IsPinned t cfg true (ok hop) e refl_auto auto others h = rw auto (
      hop,
      e,
      install-Holds cfg.tun.name t (host_net (ip_of cfg.server.address)) hop
          (exclude_pins K contains network host_net t cfg.exclude) cfg.routes others (rw auto at h),
    )

    both_true : {a b : Bool} → a ≡ true → b ≡ false → (a && not b) ≡ true
    both_true ha hb = rw (ha, hb) refl

    -- A start that succeeds leaves the agent's own address out of the tunnel: where the routes capture
    -- it and no exclusion covers it, the table at the end holds a route for exactly that address, the
    -- one that it had before, or else one towards the next hop that the table named before anything
    -- was installed. Conditions: routes are installed automatically, none of them is for exactly that
    -- address, and the start succeeds.
    pub start_agent-IsPinned :
        (t : K.Table) (cfg : HostConfig IpNet)
        → captures contains cfg (ip_of cfg.server.address) ≡ true
        → excludes contains cfg (ip_of cfg.server.address) ≡ false
        → cfg.tun.auto_route ≡ true
        → All (λ net. host_net (ip_of cfg.server.address) ≢ net) cfg.routes
        → (start_agent K contains network host_net t cfg).1 ≡ true
        → IsPinned t (start_agent K contains network host_net t cfg).0.0 (ip_of cfg.server.address)
    unfolding start_agent server_pin
    start_agent-IsPinned t cfg captured free auto others h =
        let pinned = both_true captured free in
        rw pinned (
          start_with-IsPinned t cfg true (K.lookup t (ip_of cfg.server.address)) refl refl auto
            others (rw pinned at h))
