-- ===== src/Examples/Access.antt =====
-- The theorems about access to the socket, for one set of accounts.
use mihomo_tui.Auth.{
  denied, read_only, operator, admin, PeerCredentials, Authorizer, Accounts, HttpRequest,
  new_authorizer, role_for_request, conn_context, access_group, operator_group, permits,
}
use mihomo_tui.Auth.Gate.{permits-rank}
use mihomo_tui.Auth.Roles.{IsOwner, IsMember, IsGroup, role_for_request_iff, new_authorizer_lem}
use mihomo_tui.Base.{true, none, some, [], ◌∷◌, ◌≡◌, ◌≢◌, refl, ◌↔◌, ◌⊎◌, arith, contains}
use mihomo_tui.Base.Int.{pos}

-- Both group names have one identifier, and every account is in the group.
abbrev accounts : Accounts
accounts = record {
  group_gid = λ name. some name;
  group_ids = λ uid. some (access_group ∷ operator_group ∷ []);
  parse_gid = λ text. some 5;
  format_gid = λ gid. access_group;
  clean = λ p. p;
}

abbrev authorizer : Authorizer
authorizer = record {
  runs_as_root = true;
  owner_uid = 0;
  access_gid = 5;
  operator_gid = 5;
  has_groups = true;
}

abbrev peer : PeerCredentials
peer = record { pid = pos 7; uid = 1000; gid = 100 }

role_for_request_iff_example :
    ((role_for_request accounts authorizer (some peer) ≡ admin) ↔ IsOwner authorizer peer)
    × ((role_for_request accounts authorizer (some peer) ≡ operator) ↔ (
        ¬ (IsOwner authorizer peer)
        × (true ≡ true)
        × IsMember accounts authorizer peer 5
        × IsMember accounts authorizer peer 5))
    × ((role_for_request accounts authorizer (some peer) ≡ read_only) ↔ (
        ¬ (IsOwner authorizer peer)
        × (true ≡ true)
        × IsMember accounts authorizer peer 5
        × ¬ (IsMember accounts authorizer peer 5)))
role_for_request_iff_example = role_for_request_iff accounts authorizer peer

new_authorizer_lem_example :
    ((authorizer.owner_uid ≡ 0)
      × (true ≡ true)
      × (true ≡ true)
      × IsGroup accounts access_group 5
      × IsGroup accounts operator_group 5
      × (role_for_request accounts authorizer (conn_context accounts authorizer none) ≡ denied))
    ⊎ ((authorizer.owner_uid ≢ 0)
        × (role_for_request accounts authorizer (conn_context accounts authorizer none) ≡ admin)
        × ((p : PeerCredentials)
            → (((p.uid ≡ 0) ⊎ (p.uid ≡ 0))
                × (role_for_request accounts authorizer (some p) ≡ admin))
              ⊎ ((p.uid ≢ 0)
                  × (p.uid ≢ 0)
                  × (role_for_request accounts authorizer (some p) ≡ denied))))
unfolding new_authorizer
new_authorizer_lem_example = new_authorizer_lem accounts 0 authorizer refl

abbrev status_request : HttpRequest
status_request = record { method = "GET"; path = "/api/v1/mihomo/status" }

permits-rank_example : permits accounts operator status_request ≡ true
unfolding permits contains
permits-rank_example = permits-rank accounts read_only operator status_request (omega arith) refl
