-- ===== src/Routing.antt =====
-- The operating system's routing table, as both route managers (crates/host/src/route.rs and
-- crates/proxy-client/src/route.rs) rely on it through `ip route`, and the removal of routes in the
-- opposite order of their addition, which both hold.
use vpn_bridge.Io.{Result}
use vpn_bridge.Net.{IpAddr}
use vpn_bridge.Prelude.{
  Bool, List, Option, [], ap, false, refl, some, true, ℕ, ◌++◌, ◌∙◌, ◌∷◌, ◌≡◌, ◌≢◌,
}
use mathlib.Core.List.{reverse, reverse_aux}

-- Where the kernel sends the traffic for an address.
pub record NextHop : Type 0 where
  pub dev : List ℕ
  pub gateway : Option IpAddr
  pub src : Option IpAddr

-- The commands, on a table: whether the command succeeded, and the table behind it.
pub record Kernel (IpNet : Type 0) : Type 1 where
  pub Table : Type 0
  pub exists : IpNet → Table → Bool
  pub add_via : IpNet → NextHop → Table → Bool × Table
  pub add_dev : IpNet → List ℕ → Table → Bool × Table
  pub replace_dev : IpNet → List ℕ → Table → Bool × Table
  pub del : IpNet → Table → Bool × Table
  pub lookup : Table → IpAddr → Result NextHop

-- `ip route add` refuses a prefix that has a route; `ip route replace` adds a route for one that has
-- none; `ip route del` takes off what was added last for the prefix; and an addition that fails leaves
-- the table as it is.
pub record IsKernel {IpNet : Type 0} (K : Kernel IpNet) : Type 0 where
  pub add_via_del :
      (net : IpNet) (hop : NextHop) (t u : K.Table)
      → K.add_via net hop t ≡ (true, u)
      → K.del net u ≡ (true, t)
  pub add_dev_del :
      (net : IpNet) (dev : List ℕ) (t u : K.Table)
      → K.add_dev net dev t ≡ (true, u)
      → K.del net u ≡ (true, t)
  pub replace_dev_del :
      (net : IpNet) (dev : List ℕ) (t u : K.Table)
      → K.exists net t ≡ false
      → K.replace_dev net dev t ≡ (true, u)
      → K.del net u ≡ (true, t)
  pub add_via_fails :
      (net : IpNet) (hop : NextHop) (t u : K.Table) → K.add_via net hop t ≡ (false, u) → u ≡ t
  pub add_dev_fails :
      (net : IpNet) (dev : List ℕ) (t u : K.Table) → K.add_dev net dev t ≡ (false, u) → u ≡ t
  pub replace_dev_fails :
      (net : IpNet) (dev : List ℕ) (t u : K.Table) → K.replace_dev net dev t ≡ (false, u) → u ≡ t

-- What a route does with the traffic for its prefix.
pub data Way : Type 0 where
  through : NextHop → Way
  into : List ℕ → Way

-- `route` reads the route of exactly a prefix off the table. An addition gives its prefix a route, no
-- addition takes another prefix's route away, and `ip route replace` none of a prefix that is not its
-- own.
pub record HasRoutes {IpNet : Type 0} (K : Kernel IpNet) : Type 0 where
  pub route : K.Table → IpNet → Option Way
  pub exists_route :
      (net : IpNet) (t : K.Table) → K.exists net t ≡ true → (w : Way) × (route t net ≡ some w)
  pub add_via_route :
      (net : IpNet) (hop : NextHop) (t u : K.Table)
      → K.add_via net hop t ≡ (true, u)
      → route u net ≡ some (through hop)
  pub add_via_keeps :
      (net other : IpNet) (hop : NextHop) (t u : K.Table) (w : Way) (went : Bool)
      → K.add_via net hop t ≡ (went, u)
      → route t other ≡ some w
      → route u other ≡ some w
  pub replace_dev_keeps :
      (net other : IpNet) (dev : List ℕ) (t u : K.Table) (w : Way) (went : Bool)
      → K.replace_dev net dev t ≡ (went, u)
      → other ≢ net
      → route t other ≡ some w
      → route u other ≡ some w

reverse_aux-last :
    {A : Type 0} (xs : List A) (y : A) (r : List A)
    → reverse_aux (xs ++ (y ∷ [])) r ≡ y ∷ reverse_aux xs r
reverse_aux-last [] y r = refl
reverse_aux-last (x ∷ xs) y r = reverse_aux-last xs y (x ∷ r)

module _ {IpNet : Type 0} (K : Kernel IpNet) where
  -- The table, and the routes that the manager added, the oldest first.
  abbrev pub Managed : Type 0
  Managed = K.Table × List IpNet

  -- A removal that fails is passed over.
  abbrev pub remove_all : List IpNet → K.Table → K.Table
  remove_all [] t = t
  remove_all (net ∷ nets) t = remove_all nets (K.del net t).1

  -- `cleanup`: `added.drain(..).rev()`
  unfoldable pub cleanup : Managed → Managed
  cleanup (t, added) = (remove_all (reverse added) t, [])

  -- A cleanup would lead to the table `t`.
  abbrev pub UndoneTo : K.Table → Managed → Type 0
  UndoneTo t m = (cleanup m).0 ≡ t

  pub UndoneTo-start : (t : K.Table) → UndoneTo t (t, [])
  unfolding cleanup
  UndoneTo-start t = refl

  -- One more route, which its removal takes off again.
  pub UndoneTo-added :
      (t u u' : K.Table) (added : List IpNet) (net : IpNet)
      → K.del net u' ≡ (true, u)
      → UndoneTo t (u, added)
      → UndoneTo t (u', added ++ (net ∷ []))
  unfolding cleanup
  UndoneTo-added t u u' added net removed undone =
      rw (reverse_aux-last added net [])
        (ap (λ o. remove_all (reverse_aux added []) o.1) removed ∙ undone)
