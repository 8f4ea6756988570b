-- ===== src/Host/Route.antt =====
-- crates/host/src/route.rs: `RouteManager`, and crates/host/src/main.rs: the order in which `main`
-- looks up next hops and installs routes.
use vpn_bridge.Prelude.{
  Bool, Bool-cases, List, Option, [], false, if◌then◌else◌, inl, inr, none, refl, some, subst, sym,
  true, ℕ, ◌++◌, ◌∷◌, ◌≡◌,
}
use vpn_bridge.Routing.{
  IsKernel, Kernel, Managed, NextHop, UndoneTo, UndoneTo-added, UndoneTo-start, cleanup,
}

module _ {IpNet : Type 0} (K : Kernel IpNet) where
  abbrev pub installed : Managed K → IpNet → Bool × K.Table → Managed K × Bool
  installed (t, added) net (false, u) = ((u, added), false)
  installed (t, added) net (true, u) = ((u, added ++ (net ∷ [])), true)

  -- The manager after `add_to_dev`, and whether the command succeeded.
  unfoldable pub add_to_dev : List ℕ → Managed K → IpNet → Managed K × Bool
  add_to_dev dev m net = installed m net (K.replace_dev net dev m.0)

  -- A prefix that has a route is left alone.
  unfoldable pub pin_direct : Managed K → IpNet × NextHop → Managed K × Bool
  pin_direct m (net, hop) =
      if K.exists net m.0 then (m, true) else installed m net (K.add_via net hop m.0)

  -- Pins of excluded networks: a failure is a warning.
  unfoldable pub pin_all : Managed K → List (IpNet × NextHop) → Managed K
  unfolding pin_direct
  pin_all m [] = m
  pin_all m (pin ∷ pins) = pin_all (pin_direct m pin).0 pins

  -- The routes into the tunnel: a failure ends the start.
  unfoldable pub add_all : List ℕ → Managed K → List IpNet → Managed K × Bool
  unfolding add_to_dev
  add_all dev m [] = (m, true)
  add_all dev m (net ∷ nets) =
      let (m', went) = add_to_dev dev m net in
      let rest = add_all dev m' nets in if went then rest else (m', false)

  abbrev pub pin_server : Managed K → Option (IpNet × NextHop) → Managed K × Bool
  pin_server m none = (m, true)
  pin_server m (some pin) = pin_direct m pin

  -- What `main` installs with `auto_route`: the direct route to the agent, the excluded networks, and
  -- then the routes into the tunnel.
  unfoldable pub install :
      List ℕ
      → K.Table
      → Option (IpNet × NextHop)
      → List (IpNet × NextHop)
      → List IpNet
      → Managed K × Bool
  unfolding pin_direct pin_all add_all
  install dev t server_pin exclude_pins routes =
      let (m, went) = pin_server (t, []) server_pin in
      let rest = add_all dev (pin_all m exclude_pins) routes in if went then rest else (m, false)

  -- No route is replaced that was there: none of the prefixes has one when its turn comes.
  abbrev pub Unrouted : List ℕ → Managed K → List IpNet → Type 0
  Unrouted dev m [] = Unit {0}
  Unrouted dev m (net ∷ nets) =
      (K.exists net m.0 ≡ false) × Unrouted dev (add_to_dev dev m net).0 nets

module _ {IpNet : Type 0} {K : Kernel IpNet} (L : IsKernel K) where
  open L use {add_via_del, add_via_fails, replace_dev_del, replace_dev_fails}

  installed-undone :
      (t : K.Table) (m : Managed K) (net : IpNet) (answer : Bool × K.Table)
      → ((u : K.Table) → answer ≡ (true, u) → K.del net u ≡ (true, m.0))
      → ((u : K.Table) → answer ≡ (false, u) → u ≡ m.0)
      → UndoneTo K t m
      → UndoneTo K t (installed K m net answer).0
  installed-undone t (now, added) net (false, u) removal same undone =
      subst (λ v. UndoneTo K t (v, added)) (sym (same u refl)) undone
  installed-undone t (now, added) net (true, u) removal same undone =
      UndoneTo-added K t now u added net (removal u refl) undone

  pin_direct-undone :
      (t : K.Table) (m : Managed K) (pin : IpNet × NextHop)
      → UndoneTo K t m
      → UndoneTo K t (pin_direct K m pin).0
  unfolding pin_direct
  pin_direct-undone t m (net, hop) undone = elim (Bool-cases (K.exists net m.0)) [
    | inl there ↦ rw there undone
    | inr missing ↦ rw missing (
        installed-undone t m net (K.add_via net hop m.0) (λ u. add_via_del net hop m.0 u)
          (λ u. add_via_fails net hop m.0 u) undone)
  ]

  pin_all-undone :
      (t : K.Table) (m : Managed K) (pins : List (IpNet × NextHop))
      → UndoneTo K t m
      → UndoneTo K t (pin_all K m pins)
  unfolding pin_all
  pin_all-undone t m [] undone = undone
  pin_all-undone t m (pin ∷ pins) undone =
      pin_all-undone t (pin_direct K m pin).0 pins (pin_direct-undone t m pin undone)

  add_all-undone :
      (dev : List ℕ) (t : K.Table) (m : Managed K) (nets : List IpNet)
      → Unrouted K dev m nets
      → UndoneTo K t m
      → UndoneTo K t (add_all K dev m nets).0
  unfolding add_all add_to_dev
  add_all-undone dev t m [] free undone = undone
  add_all-undone dev t m (net ∷ nets) (free, later) undone =
      let first = add_to_dev K dev m net in
      let here =
        installed-undone t m net (K.replace_dev net dev m.0)
          (λ u. replace_dev_del net dev m.0 u free) (λ u. replace_dev_fails net dev m.0 u) undone in
      elim (Bool-cases first.1) [
        | inl went ↦ rw went (add_all-undone dev t first.0 nets later here)
        | inr refusal ↦ rw refusal here
      ]

  pin_server-undone :
      (t : K.Table) (m : Managed K) (pin : Option (IpNet × NextHop))
      → UndoneTo K t m
      → UndoneTo K t (pin_server K m pin).0
  pin_server-undone t m none undone = undone
  pin_server-undone t m (some pin) undone = pin_direct-undone t m pin undone

  -- Whatever part of the start succeeds, the cleanup leaves the table as it was before. Condition:
  -- no prefix that is routed into the tunnel has a route of its own when its turn comes.
  pub cleanup-install :
      (dev : List ℕ) (t : K.Table) (server_pin : Option (IpNet × NextHop))
      (exclude_pins : List (IpNet × NextHop)) (routes : List IpNet)
      → Unrouted K dev (pin_all K (pin_server K (t, []) server_pin).0 exclude_pins) routes
      → (cleanup K (install K dev t server_pin exclude_pins routes).0).0 ≡ t
  unfolding install
  cleanup-install dev t server_pin exclude_pins routes free =
      let first = pin_server K (t, []) server_pin in
      let here = pin_server-undone t (t, []) server_pin (UndoneTo-start K t) in
      elim (Bool-cases first.1) [
        | inl went ↦ rw went (
            add_all-undone dev t (pin_all K first.0 exclude_pins) routes free
              (pin_all-undone t first.0 exclude_pins here))
        | inr refusal ↦ rw refusal here
      ]
