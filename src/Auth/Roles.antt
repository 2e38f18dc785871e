-- ===== src/Auth/Roles.antt =====
-- The role of a peer (mihomotui/ipc_auth.go), on every kind of daemon.
use mihomo_tui.Base.{
  inr, inl, Bool-cases, Option-cases, List, String, ℕ, ◌≡◌, ◌≢◌, ◌↔◌, ◌⊎◌, true, none, some, arith,
  nat_eq,
}
use mihomo_tui.Base.Among.{IsAmong, contains-IsAmong, IsAmong-contains}
use mihomo_tui.Base.Result.{ok}
use mihomo_tui.Auth.{
  denied, read_only, operator, admin, PeerCredentials, Authorizer, Accounts, new_authorizer,
  is_group_member, role_for_request, conn_context, lookup_group_gid, access_group, operator_group,
}

-- The peer is root or the user that runs the daemon.
abbrev pub IsOwner : Authorizer → PeerCredentials → Type 0
IsOwner a peer = (peer.uid ≡ 0) ⊎ (peer.uid ≡ a.owner_uid)

-- The daemon has looked the groups up, and the peer is in one: it is the group of the peer's process,
-- or the account data base lists it among the groups of the peer's user.
abbrev pub IsMember : Accounts → Authorizer → PeerCredentials → ℕ → Type 0
IsMember sys a peer gid =
    (a.has_groups ≡ true)
    × ((peer.gid ≡ gid)
        ⊎ ((groups : List String) × (sys.group_ids peer.uid ≡ some groups)
            × IsAmong (sys.format_gid gid) groups))

module _ (sys : Accounts) (a : Authorizer) (peer : PeerCredentials) where
  is_group_member-IsMember :
      (gid : ℕ) → is_group_member sys a peer gid ≡ true → IsMember sys a peer gid
  unfolding is_group_member
  is_group_member-IsMember gid h = elim (Bool-cases (nat_eq peer.gid gid)) [
    | inl e ↦ (ground (arith, h), inl (ground (arith, e)))
    | inr e ↦ elim (Option-cases (sys.group_ids peer.uid)) [
      | inl nobody ↦ absurd (ground (arith, h, e, nobody))
      | inr (groups, listed) ↦ (
        ground (arith, h),
        inr (
          groups,
          listed,
          contains-IsAmong groups (sys.format_gid gid) (ground (arith, h, e, listed)),
        ),
      )
    ]
  ]

  IsMember-is_group_member :
      (gid : ℕ) → IsMember sys a peer gid → is_group_member sys a peer gid ≡ true
  unfolding is_group_member
  IsMember-is_group_member gid (looked_up, inl e) = ground (arith, looked_up, e)
  IsMember-is_group_member gid (looked_up, inr (groups, listed, among)) =
      ground (arith, looked_up, listed, IsAmong-contains groups (sys.format_gid gid) among)

  -- A peer has the role of an administrator exactly when it is root or the daemon's own user; it is an
  -- operator exactly when it is neither, the daemon runs as root, and the peer is in both groups; it
  -- may only read exactly when it is neither, the daemon runs as root, and the peer is in the first
  -- group and not in the second.
  pub role_for_request_iff :
      ((role_for_request sys a (some peer) ≡ admin) ↔ IsOwner a peer)
      × ((role_for_request sys a (some peer) ≡ operator) ↔ (
          ¬ (IsOwner a peer)
          × (a.runs_as_root ≡ true)
          × IsMember sys a peer a.access_gid
          × IsMember sys a peer a.operator_gid))
      × ((role_for_request sys a (some peer) ≡ read_only) ↔ (
          ¬ (IsOwner a peer)
          × (a.runs_as_root ≡ true)
          × IsMember sys a peer a.access_gid
          × ¬ (IsMember sys a peer a.operator_gid)))
  unfolding role_for_request
  role_for_request_iff =
      let access = is_group_member-IsMember a.access_gid in
      let access' = IsMember-is_group_member a.access_gid in
      let operators = is_group_member-IsMember a.operator_gid in
      let operators' = IsMember-is_group_member a.operator_gid in
      (
        ground arith,
        (
          λ h. (
            ground (arith, h),
            ground (arith, h),
            access (ground (arith, h)),
            operators (ground (arith, h)),
          ),
          λ (other, root, m, n). ground (arith, other, root, access' m, operators' n),
        ),
        (
          λ h. (
            ground (arith, h),
            ground (arith, h),
            access (ground (arith, h)),
            λ n. let inside = operators' n in ground (arith, h, inside),
          ),
          λ (other, root, m, n). elim (Bool-cases (is_group_member sys a peer a.operator_gid)) [
            | inl inside ↦ absurd (n (operators inside))
            | inr outside ↦ ground (arith, other, root, access' m, outside)
          ],
        ),
      )

-- The account data base has a group of that name, with that identifier.
abbrev pub IsGroup : Accounts → String → ℕ → Type 0
IsGroup sys name gid =
    (text : String) × (sys.group_gid name ≡ some text) × (sys.parse_gid text ≡ some gid)

lookup_group_gid-IsGroup :
    (sys : Accounts) (name : String) (gid : ℕ)
    → lookup_group_gid sys name ≡ ok gid
    → IsGroup sys name gid
unfolding lookup_group_gid
lookup_group_gid-IsGroup sys name gid h = elim (Option-cases (sys.group_gid name)) [
  | inl missing ↦ absurd (ground (arith, h, missing))
  | inr (text, found) ↦ elim (Option-cases (sys.parse_gid text)) [
    | inl bad ↦ absurd (ground (arith, h, found, bad))
    | inr (n, good) ↦ (text, found, ground (arith, h, found, good))
  ]
]

-- A daemon that root starts has looked both groups up, and serves no peer whose credentials it
-- cannot read. A daemon that another user starts takes such a peer for its own user; it makes root and
-- its own user administrators, and denies every other peer.
pub new_authorizer_lem :
    (sys : Accounts) (euid : ℕ) (a : Authorizer)
    → new_authorizer sys euid ≡ ok a
    → ((euid ≡ 0)
        × (a.runs_as_root ≡ true)
        × (a.has_groups ≡ true)
        × IsGroup sys access_group a.access_gid
        × IsGroup sys operator_group a.operator_gid
        × (role_for_request sys a (conn_context sys a none) ≡ denied))
      ⊎ ((euid ≢ 0)
          × (role_for_request sys a (conn_context sys a none) ≡ admin)
          × ((peer : PeerCredentials)
              → (((peer.uid ≡ 0) ⊎ (peer.uid ≡ euid))
                  × (role_for_request sys a (some peer) ≡ admin))
                ⊎ ((peer.uid ≢ 0)
                    × (peer.uid ≢ euid)
                    × (role_for_request sys a (some peer) ≡ denied))))
unfolding new_authorizer conn_context role_for_request
new_authorizer_lem sys euid a h = elim (Bool-cases (nat_eq euid 0)) [
  | inl root ↦ inl (
    ground (arith, h, root),
    ground (arith, h, root),
    ground (arith, h, root),
    lookup_group_gid-IsGroup sys access_group a.access_gid (ground (arith, h, root)),
    lookup_group_gid-IsGroup sys operator_group a.operator_gid (ground (arith, h, root)),
    ground (arith, h, root),
  )
  | inr user ↦
      inr (ground (arith, h, user), ground (arith, h, user), λ peer. ground (arith, h, user))
]
