-- ===== src/Client/Route.antt =====
-- crates/proxy-client/src/route.rs: `RouteManager` with `add` and `cleanup` (Routing.antt), and the
-- loop of `main` that adds the routes and stops at one that cannot be added.
use vpn_bridge.Prelude.{
  Bool, Bool-cases, List, [], false, if◌then◌else◌, inl, inr, refl, subst, sym, true, ℕ, ◌++◌, ◌∷◌,
  ◌≡◌,
}
use vpn_bridge.Routing.{
  IsKernel, Kernel, Managed, UndoneTo, UndoneTo-added, UndoneTo-start, cleanup,
}

module _ {IpNet : Type 0} (K : Kernel IpNet) (device : List ℕ) where
  abbrev pub added_to : Managed K → IpNet → Bool × K.Table → Managed K × Bool
  added_to (t, added) net (false, u) = ((u, added), false)
  added_to (t, added) net (true, u) = ((u, added ++ (net ∷ [])), true)

  -- The manager after `add`, and whether the route was added.
  unfoldable pub add : Managed K → IpNet → Managed K × Bool
  add m net = added_to m net (K.add_dev net device m.0)

  unfoldable pub add_all : Managed K → List IpNet → Managed K × Bool
  unfolding add
  add_all m [] = (m, true)
  add_all m (net ∷ nets) =
      let (m', added) = add m net in
      let rest = add_all m' nets in if added then rest else (m', false)

module _ {IpNet : Type 0} {K : Kernel IpNet} (L : IsKernel K) (device : List ℕ) where
  open L use {add_dev_del, add_dev_fails}

  added_to-undone :
      (t : K.Table) (m : Managed K) (net : IpNet) (answer : Bool × K.Table)
      → K.add_dev net device m.0 ≡ answer
      → UndoneTo K t m
      → UndoneTo K t (added_to K device m net answer).0
  added_to-undone t (now, added) net (false, u) e undone =
      subst (λ v. UndoneTo K t (v, added)) (sym (add_dev_fails net device now u e)) undone
  added_to-undone t (now, added) net (true, u) e undone =
      UndoneTo-added K t now u added net (add_dev_del net device now u e) undone

  add_all-undone :
      (t : K.Table) (m : Managed K) (nets : List IpNet)
      → UndoneTo K t m
      → UndoneTo K t (add_all K device m nets).0
  unfolding add_all add
  add_all-undone t m [] undone = undone
  add_all-undone t m (net ∷ nets) undone =
      let first = add K device m net in
      let here = added_to-undone t m net (K.add_dev net device m.0) refl undone in
      elim (Bool-cases first.1) [
        | inl went ↦ rw went (add_all-undone t first.0 nets here)
        | inr refusal ↦ rw refusal here
      ]

  -- However many of the routes could be added, the cleanup leaves the table as it was before the
  -- first of them.
  pub cleanup-add_all :
      (t : K.Table) (nets : List IpNet) → (cleanup K (add_all K device (t, []) nets).0).0 ≡ t
  cleanup-add_all t nets = add_all-undone t (t, []) nets (UndoneTo-start K t)
