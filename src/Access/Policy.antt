-- ===== src/Access/Policy.antt =====
-- `permits`: the deny list is checked before the allow list, and an empty allow list allows all.
use vpn_bridge.Prelude.{
  ◌≡◌, ◌↔◌, ◌⊎◌, Bool, true, false, ◌||◌, List, [], ◌∷◌, any, any_iff, any-false_iff, is_empty, All,
  Any, arith, if◌then◌else◌,
}
use vpn_bridge.Net.{IpAddr}

-- `ipnet::IpNet` with `contains` is not part of the repository.
module _ {IpNet : Type 0} (contains : IpNet → IpAddr → Bool) where
  unfoldable pub permits_by : List IpNet → List IpNet → IpAddr → Bool
  permits_by deny allow ip =
      if any (λ net. contains net ip) deny
      then false
      else is_empty allow || any (λ net. contains net ip) allow

  -- An address is permitted exactly when no denied network holds it, and the allow list is empty or
  -- one of its networks does.
  permits_by_iff :
      (deny allow : List IpNet) (ip : IpAddr)
      → (permits_by deny allow ip ≡ true) ↔ (
          All (λ net. contains net ip ≡ false) deny
          × ((allow ≡ []) ⊎ Any (λ net. contains net ip ≡ true) allow))
  unfolding permits_by
  permits_by_iff deny [] ip = ground (arith, any-false_iff (λ net. contains net ip) deny)
  permits_by_iff deny (n ∷ allow) ip = ground (
    arith,
    any-false_iff (λ net. contains net ip) deny,
    any_iff (λ net. contains net ip) (n ∷ allow),
  )
