-- ===== src/Vm/Config.antt =====
-- crates/vm/src/config.rs: the configuration of the agent in the VM.
use vpn_bridge.Access.Policy.{permits_by}
use vpn_bridge.Access.Token.{token_difference, token_difference-same, token_difference_iff}
use vpn_bridge.Checks.{bail}
use vpn_bridge.Io.{Result, ok}
use vpn_bridge.Io.Text.{text}
use vpn_bridge.Net.{IpAddr, SocketAddr, ip_of, is_loopback, same_family}
use vpn_bridge.Prelude.{
  ==_iff, Bool, List, Option, [], arith, false, if◌then◌else◌, is_empty, length, ltb, none, not,
  same_bytes, some, true, ℕ, ◌&&◌, ◌++◌, ◌<◌, ◌==◌, ◌↔◌, ◌∷◌, ◌≡◌,
}

pub record VmConfig (IpNet : Type 0) : Type 0 where
  pub listen : SocketAddr
  pub token : List ℕ
  pub allow : List IpNet
  pub deny : List IpNet
  pub bind_ip : Option IpAddr
  pub connect_timeout_ms : ℕ
  pub udp_timeout_secs : ℕ
  pub tcp_nodelay : Bool

pub data Warning : Type 0 where
  no_token bind_family : Warning

abbrev warn : Bool → Warning → List Warning
warn test w = if test then w ∷ [] else []

abbrev foreign_bind : Option IpAddr → SocketAddr → Bool
foreign_bind none listen = false
foreign_bind (some bind) listen = not (same_family bind (ip_of listen))

module _ {IpNet : Type 0} where
  -- The warnings logged, and the outcome: a token that is too long ends the check.
  unfoldable pub validate : VmConfig IpNet → List Warning × Result (Unit {0})
  validate cfg =
      let first = warn (is_empty cfg.token && not (is_loopback (ip_of cfg.listen))) no_token in
      if ltb 255 (length cfg.token)
      then (first, bail (text "token must be at most 255 bytes"))
      else (first ++ warn (foreign_bind cfg.bind_ip cfg.listen) bind_family, ok tt)

  unfoldable pub permits : (IpNet → IpAddr → Bool) → VmConfig IpNet → IpAddr → Bool
  unfolding permits_by
  permits contains cfg = permits_by contains cfg.deny cfg.allow

  -- A configuration is accepted exactly when its token has at most 255 bytes, as the length byte of a
  -- request can count.
  pub vm_validate_iff :
      (cfg : VmConfig IpNet) → ((validate cfg).1 ≡ ok tt) ↔ (length cfg.token < 256)
  unfolding validate
  vm_validate_iff cfg = ground arith

unfoldable pub token_matches : List ℕ → List ℕ → Bool
token_matches expected got = token_difference expected got == 0

-- The comparison is equality of tokens. Condition: both have at most 255 bytes, as the configuration
-- and the wire ensure.
pub token_matches_iff :
    (expected got : List ℕ)
    → length expected < 256
    → length got < 256
    → (token_matches expected got ≡ true) ↔ (expected ≡ got)
unfolding token_matches
token_matches_iff expected got he hg = (
  λ h. (token_difference_iff expected got he hg).0 ((==_iff _ 0).0 h),
  λ e. (==_iff _ 0).1 ((token_difference_iff expected got he hg).1 e),
)

-- The comparison in the form of a Boolean test.
pub token_matches-same :
    (expected got : List ℕ)
    → length expected < 256
    → length got < 256
    → token_matches expected got ≡ same_bytes expected got
unfolding token_matches
token_matches-same = token_difference-same
