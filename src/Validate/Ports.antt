-- ===== src/Validate/Ports.antt =====
-- The port checks of `Validate` (mihomotui/config_validate.go): 0 turns a port off, an enabled port
-- lies in 1 to 65535, and no two enabled ports are equal.
use mihomo_tui.Base.{
  String, ◌≡◌, refl, ◌↔◌, Bool, false, ◌||◌, Option, none, some, List, [], ◌∷◌, ◌++◌, arith,
  if◌then◌else◌,
}
use mihomo_tui.Base.Int.{ℤ, pos, int_eq, int_lt, int_eq_iff}
use mihomo_tui.Config.{MihomoConfig}
use mihomo_tui.Validate.Problem.{Problem, port_out_of_range, port_conflict}

-- `seenPorts[port]`
unfoldable pub port_owner : ℤ → List (ℤ × String) → Option String
port_owner port [] = none
port_owner port ((p, name) ∷ seen) = if int_eq p port then some name else port_owner port seen

-- One round of the loop: its problems, and `seenPorts` after it.
unfoldable pub check_port : String → ℤ → List (ℤ × String) → List Problem × List (ℤ × String)
unfolding port_owner
check_port name port seen =
    if int_eq port (pos 0)
    then ([], seen)
    else if int_lt port (pos 1) || int_lt (pos 65535) port
    then (port_out_of_range name port ∷ [], seen)
    else elim (port_owner port seen) [
      | some prev ↦ (port_conflict name prev port ∷ [], seen)
      | none ↦ ([], (port, name) ∷ seen)
    ]

unfoldable pub check_ports : List (String × ℤ) → List (ℤ × String) → List Problem
unfolding check_port
check_ports [] seen = []
check_ports ((name, port) ∷ ports) seen =
    let (problems, seen') = check_port name port seen in problems ++ check_ports ports seen'

abbrev pub port_table : MihomoConfig → List (String × ℤ)
port_table m =
    ("http_port", m.http_port)
    ∷ ("socks5_port", m.socks5_port)
    ∷ ("mixed_port", m.mixed_port)
    ∷ ("redir_port", m.redir_port)
    ∷ ("tproxy_port", m.tproxy_port)
    ∷ []

-- The specification: the ports that are on.
abbrev pub enabled_ports : List (String × ℤ) → List ℤ
enabled_ports [] = []
enabled_ports ((name, port) ∷ ports) =
    let rest = enabled_ports ports in if int_eq port (pos 0) then rest else port ∷ rest

abbrev pub InRange : ℤ → Type 0
InRange port = (int_lt port (pos 1) ≡ false) × (int_lt (pos 65535) port ≡ false)

abbrev pub has_port : List ℤ → ℤ → Bool
has_port [] port = false
has_port (p ∷ ps) port = int_eq p port || has_port ps port

-- Every enabled port is a TCP port, and no two are equal.
abbrev pub ArePorts : List ℤ → Type 0
ArePorts [] = Unit
ArePorts (p ∷ ps) = InRange p × (has_port ps p ≡ false) × ArePorts ps

-- None of the ports is taken.
abbrev AreFree : List ℤ → List (ℤ × String) → Type 0
AreFree [] seen = Unit
AreFree (p ∷ ps) seen = (port_owner p seen ≡ none) × AreFree ps seen

AreFree-cons :
    (ps : List ℤ) (p : ℤ) (name : String) (seen : List (ℤ × String))
    → AreFree ps ((p, name) ∷ seen) ↔ ((has_port ps p ≡ false) × AreFree ps seen)
unfolding port_owner
AreFree-cons [] p name seen = ground arith
AreFree-cons (q ∷ ps) p name seen =
    ground (arith, int_eq_iff p q, int_eq_iff q p, AreFree-cons ps p name seen)

AreFree-nil : (ps : List ℤ) → AreFree ps []
unfolding port_owner
AreFree-nil [] = tt
AreFree-nil (p ∷ ps) = (refl, AreFree-nil ps)

check_ports_from :
    (ports : List (String × ℤ)) (seen : List (ℤ × String))
    → (check_ports ports seen ≡ [])
      ↔ (ArePorts (enabled_ports ports) × AreFree (enabled_ports ports) seen)
unfolding check_ports
check_ports_from [] seen = ground arith
check_ports_from ((name, port) ∷ ports) seen = ground (
  arith,
  check_ports_from ports seen,
  check_ports_from ports ((port, name) ∷ seen),
  AreFree-cons (enabled_ports ports) port name seen,
)

-- The port checks report nothing exactly when every enabled port lies in 1 to 65535 and no two
-- enabled ports are equal.
pub check_ports_iff :
    (m : MihomoConfig)
    → (check_ports (port_table m) [] ≡ []) ↔ ArePorts (enabled_ports (port_table m))
check_ports_iff m =
    let both = check_ports_from (port_table m) [] in
    (λ h. (both.0 h).0, λ h. both.1 (h, AreFree-nil (enabled_ports (port_table m))))
