-- ===== src/Auth/Gate.antt =====
-- The gate in front of the handlers (mihomotui/ipc_auth.go) and the order of the roles.
use mathlib.Core.Path.{subst}
use mihomo_tui.Base.{
  ℕ, ◌≤◌, ◌≡◌, refl, inl, inr, true, false, arith, String, ◌==◌, eq_iff, All, contains, Bool-cases,
  List, [], ◌∷◌,
}
use mihomo_tui.Auth.{
  Role, denied, read_only, operator, admin, Accounts, HttpRequest, is_read_only_request,
  is_root_only_request, is_kernel_command, status_paths, permits,
}

abbrev pub rank : Role → ℕ
rank denied = 0
rank read_only = 1
rank operator = 2
rank admin = 3

All-contains :
    (P : String → Type 0) (xs : List String) (key : String)
    → All P xs
    → contains xs key ≡ true
    → P key
unfolding contains
All-contains P [] key all m = cc
All-contains P (x ∷ xs) key all m = elim (Bool-cases (x == key)) [
  | inl same ↦ subst P ((eq_iff x key).0 same) all.0
  | inr other ↦ All-contains P xs key all.1 (ground (arith, m, other))
]

-- No path of a status query is one of a command that only root may give.
abbrev IsHarmless : String → Type 0
IsHarmless p = (is_kernel_command p ≡ false) × ((p == "/api/v1/daemon/shutdown") ≡ false)

status_paths-IsHarmless : All IsHarmless status_paths
unfolding is_kernel_command
status_paths-IsHarmless = (
  (refl, refl),
  (
    (refl, refl),
    ((refl, refl), ((refl, refl), ((refl, refl), ((refl, refl), ((refl, refl), tt))))),
  ),
)

module _ (sys : Accounts) where
  read_only-not_root_only :
      (r : HttpRequest) → is_read_only_request sys r ≡ true → is_root_only_request sys r ≡ false
  unfolding is_read_only_request is_root_only_request
  read_only-not_root_only r h =
      let p = sys.clean r.path in
      let safe =
        All-contains IsHarmless status_paths p status_paths-IsHarmless (ground (arith, h)) in
      ground (arith, h, safe.0, safe.1)

  -- What one role may call, every higher role may call.
  pub permits-rank :
      (role role' : Role) (r : HttpRequest)
      → rank role ≤ rank role'
      → permits sys role r ≡ true
      → permits sys role' r ≡ true
  unfolding permits
  permits-rank role role' r h p = ground (arith, read_only-not_root_only r)
