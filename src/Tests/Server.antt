-- ===== src/Tests/Server.antt =====
-- The proxy server, on one request.

use vpn_bridge.Io.{Result, err, ok}
use vpn_bridge.Io.Text.{text}
use vpn_bridge.Prelude.{
  Bool, List, [], any, arith, false, if◌then◌else◌, refl, same_bytes, same_bytes_iff, true, ℕ, ◌||◌,
  ◌∷◌, ◌≡◌, ◌⊎◌,
}
use vpn_bridge.Server.Certificate.{Files, Generated, IsFiles, ensure_exists, ensure_exists-both}
use vpn_bridge.Server.Handler.Defs.{handle_request}
use vpn_bridge.Server.Handler.Verdict.{decide, handle_request-Answers}
use vpn_bridge.Session.Relay.{Relay, Step, from_socket, from_tunnel, idle_passed}
use vpn_bridge.Session.Verdict.{Answers}
use vpn_bridge.Tests.Data.{failure, in_prefix, net, request, server_config}

-- The outer address is not permitted, and the inner one answers.
handle_request-Answers_example :
    Answers net
      (decide net in_prefix server_config true request)
      (handle_request net in_prefix server_config request)
handle_request-Answers_example =
    handle_request-Answers net in_prefix server_config request (omega arith) (omega arith)

-- A disk is the paths of its files.
abbrev holds : List ℕ → List (List ℕ) → Bool
holds path d = any (λ p. same_bytes path p) d

abbrev created : Bool → List ℕ → List (List ℕ) → List (List ℕ) × Result (Unit {0})
created there path d = if there then (d, err failure) else (path ∷ d, ok tt)

abbrev files : Files
files = record {
  Disk = List (List ℕ);
  exists = holds;
  create_parent = λ path d. (d, ok tt);
  write = λ path contents d. (path ∷ d, ok tt);
  create_new = λ path contents d. created (holds path d) path d;
}

holds_first : (path : List ℕ) (d : List (List ℕ)) → holds path (path ∷ d) ≡ true
holds_first path d = rw ((same_bytes_iff path path).1 refl) refl

created-holds :
    (there : Bool) (path : List ℕ) (d : List (List ℕ))
    → (created there path d).1 ≡ ok tt
    → holds path (created there path d).0 ≡ true
created-holds true path d h = cc
created-holds false path d h = holds_first path d

created_keeps :
    (there : Bool) (path kept : List ℕ) (d : List (List ℕ))
    → holds kept d ≡ true
    → holds kept (created there path d).0 ≡ true
created_keeps true path kept d h = h
created_keeps false path kept d h = one_more (same_bytes kept path) (holds kept d) h
  where
    one_more : (a b : Bool) → b ≡ true → (a || b) ≡ true
    one_more true b hb = refl
    one_more false b hb = hb

files-IsFiles : IsFiles files
files-IsFiles = record {
  write_exists = λ path contents d h. holds_first path d;
  create_new_exists = λ path contents d h. created-holds (holds path d) path d h;
  create_new_keeps = λ path kept contents d h. created_keeps (holds path d) path kept d h;
}

abbrev identity : Generated
identity = ok (text "cert", text "key")

ensure_exists-both_example :
    ((ensure_exists files (text "cert.pem") (text "key.pem") identity []).1 ≡ ok tt
      → (holds
            (text "cert.pem")
            (ensure_exists files (text "cert.pem") (text "key.pem") identity []).0
          ≡ true)
        × (holds
              (text "key.pem")
              (ensure_exists files (text "cert.pem") (text "key.pem") identity []).0
            ≡ true))
    × ((holds (text "cert.pem") [] ≡ true) ⊎ (holds (text "key.pem") [] ≡ true)
        → (ensure_exists files (text "cert.pem") (text "key.pem") identity []).0 ≡ [])
ensure_exists-both_example =
    ensure_exists-both files-IsFiles (text "cert.pem") (text "key.pem") identity []

abbrev one_way : List Step
one_way =
    from_tunnel (ok (1 ∷ [])) (ok tt)
    ∷ idle_passed
    ∷ from_socket (ok (2 ∷ [])) (ok tt)
    ∷ from_tunnel (ok (3 ∷ [])) (err failure)
    ∷ idle_passed
    ∷ []

abbrev new_relay : Relay
new_relay = record { activity = 0; seen = 0; to_socket = []; to_tunnel = []; tunnel_shut = false }
