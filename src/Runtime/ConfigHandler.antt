-- ===== src/Runtime/ConfigHandler.antt =====
-- `handleConfig` (mihomotui/daemon_handlers_config.go): reading and replacing the configuration over
-- the socket. A body that is no JSON is refused before the handler looks at the configuration, and
-- is left out.
use mihomo_tui.Base.{
  ◌∙◌, Option-cases, String, Bool, true, false, not, Option, none, some, List, [], if◌then◌else◌,
  ◌≡◌, refl, arith, ◌⊎◌, inl, inr, Bool-cases, ◌==◌,
}
use mihomo_tui.Base.Int.{int_eq}
use mihomo_tui.Base.Result.{Result, ok, err}
use mihomo_tui.Config.{Config}
use mihomo_tui.Config.Edit.{EditError, is_empty}
use mihomo_tui.Validate.{validate, check_levels, check_urls, check_modes}
use mihomo_tui.Validate.Problem.{Problem}
use mihomo_tui.Validate.Spec.{IsValid, validate_iff}
use mihomo_tui.Validate.Subscriptions.{check_active}
use mihomo_tui.Store.{
  persisted, chmod_failed, rename_failed, write_failed, marshal_failed, Host, FlushOutcome,
  FlushError, Store, CommitError, conflict, flush_failed, commit_config, replace_global_config,
  merge_request,
}
use mihomo_tui.Store.Commit.{versioned}
use mihomo_tui.Runtime.Reconcile.{
  ApplyReport, Outcomes, ReconcileRequest, run_reconcile, config_change,
}

-- `submitReconcile`: the report, or none if it does not come in time.
abbrev pub submit_reconcile : Outcomes → Bool → ReconcileRequest → Option ApplyReport
submit_reconcile out in_time req = if in_time then some ((run_reconcile out req).1) else none

pub data Reply : Type 0 where
  found : Config → Reply
  bad_request : List Problem → Reply  -- 400
  version_conflict : Reply  -- 409
  server_error : CommitError EditError → Reply  -- 500
  updated : Config → Option ApplyReport → Reply

-- `cfg.Mihomo.Secret = ""`
abbrev pub hide_secret : Config → Config
hide_secret c = record c { mihomo = record c.mihomo { secret = "" } }

-- `GET /api/v1/config`
unfoldable pub get_config : Store → Reply
get_config s = found (hide_secret s.memory)

module _ (host : Host) (flushed : FlushOutcome) (out : Outcomes) (in_time : Bool) where
  abbrev reply_to_commit : Bool → Store × Result (CommitError EditError) Config → Store × Reply
  reply_to_commit old_tun (s, err (conflict a b)) = (s, version_conflict)
  reply_to_commit old_tun (s, err e) = (s, server_error e)
  reply_to_commit old_tun (s, ok committed) = (
    s,
    updated (hide_secret committed)
        (submit_reconcile out in_time (config_change old_tun committed.system.tun)),
  )

  -- `POST /api/v1/config`
  unfoldable pub post_config : Config → Store → Store × Reply
  unfolding replace_global_config
  post_config req s =
      let problems = validate host.net req in
      if not (is_empty problems)
      then (s, bad_request problems)
      else reply_to_commit s.memory.system.tun (replace_global_config host flushed req s)

-- What a replacement keeps of the current configuration does not count for validity.
validate-merge_request :
    (host : Host) (current req : Config)
    → validate host.net (merge_request host current req) ≡ validate host.net req
unfolding validate check_levels check_urls check_modes check_active
validate-merge_request host current req = elim (Bool-cases (req.mihomo.secret == "")) [
  | inl kept ↦ elim (Bool-cases host.runs_as_root) [
    | inl root ↦ rw (kept, root) refl
    | inr user ↦ rw (kept, user) refl
  ]
  | inr own ↦ elim (Bool-cases host.runs_as_root) [
    | inl root ↦ rw (own, root) refl
    | inr user ↦ rw (own, user) refl
  ]
]

-- The first step of a flush that fails.
abbrev pub first_failure : FlushOutcome → Option FlushError
first_failure out =
    if not out.marshals
    then some marshal_failed
    else if not out.writes
    then some write_failed
    else if not out.renames
    then some rename_failed
    else if not out.chmods
    then some chmod_failed
    else none

module _ (host : Host) (flushed : FlushOutcome) (s : Store) (next : Config) where
  commit_config_valid :
      validate host.net next ≡ []
      → let (s', result) = commit_config {E = EditError} host flushed s next in
        ((e : FlushError) × (first_failure flushed ≡ some e)
          × (s'.memory ≡ s.memory)
          × (result ≡ err (flush_failed e)))
        ⊎ ((first_failure flushed ≡ none)
            × (s' ≡ record { memory = versioned s next; disk = persisted host (versioned s next) })
            × (result ≡ ok (versioned s next)))
  unfolding commit_config
  commit_config_valid valid = elim (Option-cases (first_failure flushed)) [
    | inl succeeds ↦
        inr (succeeds, ground (arith, valid, succeeds), ground (arith, valid, succeeds))
    | inr (e, fails) ↦ inl (e, fails, ground (arith, valid, fails), ground (arith, valid, fails))
  ]

-- A posted configuration has one of four replies. It is refused as a bad request, with its problems,
-- exactly if it is not valid. A valid one is refused as a conflict if it is not based on the current
-- version. Else it is stored in memory and in the file with the next version, and the reply tells how it
-- was applied, unless a step of the flush fails: then the memory stays and the reply is an error of the server, which is
-- never that the configuration is not valid.
pub post_config-cases :
    (host : Host) (flushed : FlushOutcome) (out : Outcomes) (in_time : Bool) (req : Config)
    (s : Store)
    → let (s', reply) = post_config host flushed out in_time req s in
      (¬ (IsValid host.net req) × (s' ≡ s) × (reply ≡ bad_request (validate host.net req)))
      ⊎ (IsValid host.net req
          × (((int_eq req.version s.memory.version ≡ false) × (s' ≡ s) × (reply ≡ version_conflict))
              ⊎ ((int_eq req.version s.memory.version ≡ true)
                  × (((e : FlushError) × (first_failure flushed ≡ some e)
                        × (s'.memory ≡ s.memory)
                        × (reply ≡ server_error (flush_failed e)))
                      ⊎ ((first_failure flushed ≡ none)
                          × (s'.memory ≡ versioned s (merge_request host s.memory req))
                          × (s'.disk ≡ persisted host s'.memory)
                          × (reply
                              ≡ updated (hide_secret s'.memory) (
                                  submit_reconcile out in_time
                                    (config_change s.memory.system.tun s'.memory.system.tun))))))))
unfolding post_config replace_global_config
post_config-cases host flushed out in_time req s =
    elim (Bool-cases (is_empty (validate host.net req))) [
      | inr problems ↦ inl (
        λ v. ground (arith, problems, (validate_iff host.net req).1 v),
        ground (arith, problems),
        ground (arith, problems),
      )
      | inl empty ↦
          let valid : validate host.net req ≡ [] = ground (arith, empty) in
          let merged = validate-merge_request host s.memory req ∙ valid in
          inr (
            (validate_iff host.net req).0 valid,
            elim (Bool-cases (int_eq req.version s.memory.version)) [
              | inr older ↦ inl (older, ground (arith, empty, older), ground (arith, empty, older))
              | inl current ↦ inr (
                current,
                elim (commit_config_valid host flushed s (merge_request host s.memory req) merged) [
                  | inl (e, fails, memory, result) ↦ inl (
                    e,
                    fails,
                    ground (arith, empty, current, memory, result),
                    ground (arith, empty, current, memory, result),
                  )
                  | inr (succeeds, memory, result) ↦ inr (
                    succeeds,
                    ground (arith, empty, current, memory, result),
                    ground (arith, empty, current, memory, result),
                    ground (arith, empty, current, memory, result),
                  )
                ],
              )
            ],
          )
    ]

-- A text that a reply shows as the secret.
abbrev pub shown_secret : Reply → String
shown_secret (found c) = c.mihomo.secret
shown_secret (updated c report) = c.mihomo.secret
shown_secret reply = ""

-- Neither the reading nor the replacement of the configuration shows the secret.
pub shown_secret-empty :
    (host : Host) (flushed : FlushOutcome) (out : Outcomes) (in_time : Bool) (req : Config)
    (s : Store)
    → (shown_secret (get_config s) ≡ "")
      × (shown_secret (post_config host flushed out in_time req s).1 ≡ "")
unfolding get_config
shown_secret-empty host flushed out in_time req s = (
  refl,
  elim (post_config-cases host flushed out in_time req s) [
    | inl (bad, same, reply) ↦ rw reply refl
    | inr (valid, inl (older, same, reply)) ↦ rw reply refl
    | inr (valid, inr (current, inl (e, fails, memory, reply))) ↦ rw reply refl
    | inr (valid, inr (current, inr (succeeds, memory, disk, reply))) ↦ rw reply refl
  ],
)
