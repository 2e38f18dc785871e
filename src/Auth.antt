-- ===== src/Auth.antt =====
-- Who may call the daemon over its socket (mihomotui/ipc_auth.go): the groups the daemon looks up at
-- its start, the role of a peer, and the gate in front of every handler. Package `os/user`,
-- `path.Clean` and the conversions of package `strconv` are parameters.
pub mod Roles
pub mod Gate
use mihomo_tui.Base.{
  ℕ, String, Bool, true, false, ◌||◌, ◌&&◌, not, Option, none, some, List, [], ◌∷◌, ◌==◌,
  starts_with, contains, nat_eq, if◌then◌else◌,
}
use mihomo_tui.Base.Int.{ℤ, pos}
use mihomo_tui.Base.Result.{Result, ok, err, ◌>>=◌}

abbrev pub access_group : String
access_group = "mihomo-tui"

abbrev pub operator_group : String
operator_group = "mihomo-tui-operator"

pub data Role : Type 0 where
  denied read_only operator admin : Role

pub record PeerCredentials : Type 0 where
  pub pid : ℤ
  pub uid : ℕ
  pub gid : ℕ

pub record Authorizer : Type 0 where
  pub runs_as_root : Bool
  pub owner_uid : ℕ
  pub access_gid : ℕ
  pub operator_gid : ℕ
  pub has_groups : Bool

-- What the gate reads of an `http.Request`.
pub record HttpRequest : Type 0 where
  pub method : String
  pub path : String

-- The account data base and the conversions.
pub record Accounts : Type 0 where
  pub group_gid : String → Option String  -- user.LookupGroup
  pub group_ids : ℕ → Option (List String)  -- user.LookupId and GroupIds
  pub parse_gid : String → Option ℕ  -- strconv.ParseUint on 32 bits
  pub format_gid : ℕ → String  -- strconv.FormatUint
  pub clean : String → String  -- path.Clean

pub data GroupError : Type 0 where
  no_group : String → GroupError
  bad_gid : String → GroupError

abbrev pub method_get : String
method_get = "GET"

-- The cases of the `switch` in `isIPCReadOnlyRequest`.
abbrev pub status_paths : List String
status_paths =
    "/api/v1/ping" ∷ "/api/v1/daemon/info" ∷ "/api/v1/mihomo/status" ∷ "/api/v1/mihomo/version"
    ∷ "/api/v1/mihomo/latest-version" ∷ "/api/v1/mihomo/upgrade/progress"
    ∷ "/api/v1/mihomo/versions" ∷ []

-- The prefix tests on the commands that start and stop the kernel.
unfoldable pub is_kernel_command : String → Bool
is_kernel_command p =
    starts_with p "/api/v1/mihomo/start"
    || starts_with p "/api/v1/mihomo/stop"
    || starts_with p "/api/v1/mihomo/restart"

module _ (sys : Accounts) where
  -- `lookupIPCGroupGID`
  unfoldable pub lookup_group_gid : String → Result GroupError ℕ
  lookup_group_gid name = elim (sys.group_gid name) [
    | none ↦ err (no_group name)
    | some text ↦ elim (sys.parse_gid text) [ none ↦ err (bad_gid name) | some gid ↦ ok gid ]
  ]

  -- `newIPCAuthorizer`, for the effective user identifier of the daemon
  unfoldable pub new_authorizer : ℕ → Result GroupError Authorizer
  unfolding lookup_group_gid
  new_authorizer euid =
      if not (nat_eq euid 0)
      then ok (record {
        runs_as_root = false;
        owner_uid = euid;
        access_gid = 0;
        operator_gid = 0;
        has_groups = false;
      })
      else (do
        access ← lookup_group_gid access_group
        operators ← lookup_group_gid operator_group
        ok (record {
          runs_as_root = true;
          owner_uid = euid;
          access_gid = access;
          operator_gid = operators;
          has_groups = true;
        }))

  -- `connContext`: the credentials that a connection's requests carry, from those of the socket.
  unfoldable pub conn_context : Authorizer → Option PeerCredentials → Option PeerCredentials
  conn_context a (some peer) = some peer
  conn_context a none =
      if not a.runs_as_root then some (record { pid = pos 0; uid = a.owner_uid; gid = 0 }) else none

  -- `isGroupMember`
  unfoldable pub is_group_member : Authorizer → PeerCredentials → ℕ → Bool
  unfolding contains
  is_group_member a peer expected =
      if not a.has_groups
      then false
      else if nat_eq peer.gid expected
      then true
      else elim (sys.group_ids peer.uid) [
        | none ↦ false
        | some groups ↦ contains groups (sys.format_gid expected)
      ]

  -- `roleForRequest`
  unfoldable pub role_for_request : Authorizer → Option PeerCredentials → Role
  unfolding is_group_member
  role_for_request a none = denied
  role_for_request a (some peer) =
      if nat_eq peer.uid 0 || nat_eq peer.uid a.owner_uid
      then admin
      else if not a.runs_as_root || not (is_group_member a peer a.access_gid)
      then denied
      else if is_group_member a peer a.operator_gid
      then operator
      else read_only

  -- `isIPCReadOnlyRequest`
  unfoldable pub is_read_only_request : HttpRequest → Bool
  unfolding contains
  is_read_only_request r =
      if not (r.method == method_get) then false else contains status_paths (sys.clean r.path)

  -- `isIPCRootOnlyRequest`
  unfoldable pub is_root_only_request : HttpRequest → Bool
  unfolding is_kernel_command
  is_root_only_request r =
      let p = sys.clean r.path in
      let writes = not (r.method == method_get) in
      if p == "/api/v1/config" && writes
      then true
      else if is_kernel_command p
      then true
      else if starts_with p "/api/v1/mihomo/versions" && writes
      then true
      else if p == "/api/v1/mihomo/upgrade" && writes
      then true
      else p == "/api/v1/daemon/shutdown"

  -- The tests of `middleware` behind the role: whether the next handler is called.
  unfoldable pub permits : Role → HttpRequest → Bool
  unfolding is_read_only_request is_root_only_request
  permits denied r = false
  permits read_only r = is_read_only_request r
  permits operator r = not (is_root_only_request r)
  permits admin r = true

  -- `middleware`: the role that the next handler finds in its request, or none for a refusal (403).
  unfoldable pub middleware : Authorizer → Option PeerCredentials → HttpRequest → Option Role
  unfolding role_for_request permits
  middleware a peer r =
      let role = role_for_request a peer in if permits role r then some role else none
