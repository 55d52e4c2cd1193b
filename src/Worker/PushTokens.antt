-- ===== src/Worker/PushTokens.antt =====
-- internal/worker/pushTokensWorker.go: what the push worker does for the configuration of one
-- service. The pushes run side by side; here they are the list of them in the order in which they
-- end.
pub mod Reports
pub mod Values
use managed_tokens.Base.{
  ℕ, String, ◌<>◌, Bool, true, false, not, ◌&&◌, Option, none, some, List, [],
}
use managed_tokens.Base.{◌∷◌, ◌++◌, if◌then◌else◌, contains, string_comparable}
use managed_tokens.Base.Dict.{Dict, insert, erase}
use managed_tokens.Notifications.{Notification, setup_error, push_error}
use managed_tokens.Worker.PushToNode.{PushError, context_error, deadline_exceeded}

pub record PushTokensConfig : Type 0 where
  pub source_path : String
  pub node : String
  pub account : String
  pub destination_path : String
  pub unpingable : Bool
  pub file_copier_options : List String
  pub ssh_options : List String
  pub error_on_fail : Bool
  pub num_retries : ℕ
  pub retry_sleep_duration : ℕ
  -- removes the file of the default role
  pub cleanup : Bool

-- A push that has ended.
pub record Ended : Type 0 where
  pub config : PushTokensConfig
  pub error : Option PushError

-- What the pushes of one service share.
pub record Shared : Type 0 where
  -- the keys of `nodesNotifyOnce`
  pub notifiable : List String
  -- the nodes whose `sync.Once` has been used
  pub notified : List String
  pub success_nodes : Dict String Bool
  pub fail_nodes : Dict String Bool
  pub notifications : List Notification
  -- whether the errgroup has an error
  pub group_failed : Bool

add_nodes : List String → Dict String Bool → Dict String Bool
add_nodes [] m = m
add_nodes (node ∷ nodes) m = add_nodes nodes (insert m node true)

-- The maps as they are made for the nodes of a service.
unfoldable pub start : List String → Shared
unfolding add_nodes
start nodes = record {
  notifiable = nodes;
  notified = [];
  success_nodes = add_nodes nodes [];
  fail_nodes = [];
  notifications = [];
  group_failed = false;
}

-- A push that ended with an error which counts.
abbrev pub counts_as_failure : Ended → Bool
counts_as_failure e = elim e.error [ none ↦ false | some _ ↦ e.config.error_on_fail ]

-- The text of an error is `message`, but for a deadline.
abbrev pub notification_text : (PushError → String) → String → PushError → String
notification_text message node (context_error deadline_exceeded) =
    "Error pushing vault tokens to destination node " <> (node <> ": (timeout error)")
notification_text message node e =
    "Error pushing vault tokens to destination node " <> (node <> (": " <> message e))

module _ (message : PushError → String) (service : String) where
  -- The body of `once.Do`, under its locks: only a known node, and only once.
  abbrev pub notify : Shared → String → PushError → Shared
  notify s node e =
      if contains s.notifiable node && not (contains s.notified node)
      then record s {
        notified = node ∷ s.notified;
        notifications =
            s.notifications ++ (push_error (notification_text message node e) service node ∷ []);
      }
      else s

  abbrev pub fail : Shared → String → PushError → Shared
  fail s node e =
      notify
        (record s {
          fail_nodes = insert s.fail_nodes node true;
          success_nodes = erase s.success_nodes node;
          group_failed = true;
        })
        node e

  -- The function that is given to `g.Go`, after pushToNode.
  unfoldable pub end_push : Shared → Ended → Shared
  end_push s e = elim e.error [
    | none ↦ s
    | some error ↦ if e.config.error_on_fail then fail s e.config.node error else s
  ]

  unfoldable pub end_pushes : Shared → List Ended → Shared
  end_pushes s [] = s
  end_pushes s (e ∷ es) = end_pushes (end_push s e) es

-- The report on the success channel, and the notifications.
pub record Report : Type 0 where
  pub success : Bool
  pub notifications : List Notification

-- The worker for one service. Without push configurations it reports a setup error.
unfoldable pub push_service :
    (PushError → String) → String → String → List String → Option (List Ended) → Report
push_service message service_name service nodes none = record {
  success = false;
  notifications =
      setup_error "Error retrieving one or more values from the configuration to push tokens"
        service_name
      ∷ [];
}
push_service message service_name service nodes (some es) =
    let s = end_pushes message service (start nodes) es in
    record { success = not s.group_failed; notifications = s.notifications }
