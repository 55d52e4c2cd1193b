-- ===== src/Worker/PushTokens/Reports.antt =====
-- What the report says, in whatever order the pushes end.
use managed_tokens.Base.{
  ℕ, suc, ◌+◌, ◌≡◌, refl, ◌∙◌, String, Bool, true, false, not, ◌&&◌, ◌||◌, arith,
}
use managed_tokens.Base.{none, some, List, [], ◌∷◌, ◌++◌, if◌then◌else◌, ◌==◌, contains}
use managed_tokens.Base.{string_comparable}
use managed_tokens.Base.Dict.{lookup, lookup-insert, lookup-erase}
use managed_tokens.Notifications.{Notification, setup_error, push_error}
use managed_tokens.Worker.PushToNode.{PushError}
use managed_tokens.Worker.PushTokens.{
  Ended, Shared, start, counts_as_failure, end_push, end_pushes, push_service,
}

-- Some push failed in a way that counts; some push to the node did.
abbrev pub any_failed : List Ended → Bool
any_failed [] = false
any_failed (e ∷ es) = counts_as_failure e || any_failed es

abbrev pub node_failed : String → List Ended → Bool
node_failed node [] = false
node_failed node (e ∷ es) = (counts_as_failure e && node == e.config.node) || node_failed node es

-- The number of push errors about a node.
abbrev pub about : String → List Notification → ℕ
about node [] = 0
about node (setup_error _ _ ∷ ns) = about node ns
about node (push_error _ _ n ∷ ns) =
    let rest = about node ns in if node == n then suc rest else rest

abbrev pub one_if : Bool → ℕ
one_if true = 1
one_if false = 0

module _ (message : PushError → String) (service : String) where
  group_failed-end_pushes :
      (es : List Ended) (s : Shared)
      → (end_pushes message service s es).group_failed ≡ (s.group_failed || any_failed es)
  unfolding end_pushes end_push
  group_failed-end_pushes [] s = ground arith
  group_failed-end_pushes (e ∷ es) s =
      ground (arith, group_failed-end_pushes es (end_push message service s e))

  notifiable-end_push :
      (s : Shared) (e : Ended) → (end_push message service s e).notifiable ≡ s.notifiable
  unfolding end_push
  notifiable-end_push s e = ground arith

  module _ (node : String) where
    about-snoc :
        (ns : List Notification) (m v n : String)
        → about node (ns ++ (push_error m v n ∷ [])) ≡ about node ns + one_if (node == n)
    about-snoc [] m v n = ground arith
    about-snoc (setup_error _ _ ∷ ns) m v n = about-snoc ns m v n
    about-snoc (push_error _ _ k ∷ ns) m v n = ground (arith, about-snoc ns m v n)

    notified-end_push :
        (s : Shared) (e : Ended)
        → contains (end_push message service s e).notified node ≡ (
            contains s.notified node
            || (counts_as_failure e && node == e.config.node && contains s.notifiable node))
    unfolding end_push
    notified-end_push s e = ground arith

    about-end_push :
        (s : Shared) (e : Ended)
        → about node s.notifications ≡ one_if (contains s.notified node)
        → about node (end_push message service s e).notifications
          ≡ one_if (contains (end_push message service s e).notified node)
    unfolding end_push
    about-end_push s e h = grind (arith, about-snoc)

    notified-end_pushes :
        (es : List Ended) (s : Shared)
        → contains (end_pushes message service s es).notified node
          ≡ (contains s.notified node || (node_failed node es && contains s.notifiable node))
    unfolding end_pushes
    notified-end_pushes [] s = ground arith
    notified-end_pushes (e ∷ es) s = ground (
      arith,
      notified-end_pushes es (end_push message service s e),
      notified-end_push s e,
      notifiable-end_push s e,
    )

    about-end_pushes :
        (es : List Ended) (s : Shared)
        → about node s.notifications ≡ one_if (contains s.notified node)
        → about node (end_pushes message service s es).notifications
          ≡ one_if (contains (end_pushes message service s es).notified node)
    unfolding end_pushes
    about-end_pushes [] s h = h
    about-end_pushes (e ∷ es) s h =
        about-end_pushes es (end_push message service s e) (about-end_push s e h)

    nodes-end_push :
        (s : Shared) (e : Ended)
        → let failed = counts_as_failure e && node == e.config.node in
          let s' = end_push message service s e in
          (lookup s'.success_nodes node ≡ (if failed then none else lookup s.success_nodes node))
          × (lookup s'.fail_nodes node ≡ (if failed then some true else lookup s.fail_nodes node))
    unfolding end_push
    nodes-end_push s e = grind (arith, lookup-insert, lookup-erase)

    -- A node ends among the failed ones exactly when a push to it failed in a way that counts, and
    -- then it is no longer among the successful ones; the other nodes stay as they were.
    pub nodes-end_pushes :
        (es : List Ended) (s : Shared)
        → let s' = end_pushes message service s es in
          (lookup s'.success_nodes node
            ≡ (if node_failed node es then none else lookup s.success_nodes node))
          × (lookup s'.fail_nodes node
              ≡ (if node_failed node es then some true else lookup s.fail_nodes node))
    unfolding end_pushes
    nodes-end_pushes [] s = (refl, refl)
    nodes-end_pushes (e ∷ es) s =
        ground (arith, nodes-end_pushes es (end_push message service s e), nodes-end_push s e)

  -- In whatever order the pushes end: the service is a success exactly when no push failed in a way
  -- that counts, and a node of the service gets one push error if such a push to it failed, however
  -- many did, and none if none did.
  pub push_service_report :
      (service_name : String) (nodes : List String) (es : List Ended) (node : String)
      → let report = push_service message service_name service nodes (some es) in
        (report.success ≡ not (any_failed es))
        × (about node report.notifications ≡ one_if (node_failed node es && contains nodes node))
  unfolding push_service start
  push_service_report service_name nodes es node =
      let s = start nodes in
      (
        rw (group_failed-end_pushes es s) refl,
        about-end_pushes node es s refl ∙ rw (notified-end_pushes node es s) refl,
      )
