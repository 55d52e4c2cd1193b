-- ===== src/Notifications/ServiceEmail/Forwarding.antt =====
-- What the handler of a service forwards, saves and mails.
use managed_tokens.Base.{ℕ, ◌≡◌, refl, ◌∙◌, String, Bool, true, false, arith}
use managed_tokens.Base.{Option, none, some, List, [], ◌∷◌, ◌++◌, if◌then◌else◌, ◌==◌}
use managed_tokens.Base.{string_comparable, Bool-cases, inl, inr, is_none, not, ◌||◌}
use managed_tokens.Base.Dict.{Dict, lookup, insert, lookup-insert}
use managed_tokens.Notifications.{Notification, setup_error, push_error}
use managed_tokens.Notifications.ErrorCounts.{ServiceErrorCounts, adjust_error_counts}
use managed_tokens.Notifications.ErrorCounts.Runs.{adjust_all}
use managed_tokens.Notifications.ServiceEmail.{
  Event, received, closed, done, ServiceEmailManager, add_to_table, receive,
  send_service_email_if_errors, run_handler,
}
use mathlib.Core.List.{append-nil, append_assoc}

-- The counts and the sent notifications by the specification, tracked or not.
abbrev pub sent_of :
    ServiceEmailManager → List Notification → ServiceErrorCounts × List Notification
sent_of em ns =
    if em.track_error_counts
    then adjust_all em.notification_minimum em.error_counts ns
    else (em.error_counts, ns)

unfoldable pub table_of : Dict String String → List Notification → Dict String String
table_of table [] = table
table_of table (n ∷ ns) = table_of (add_to_table n table) ns

unfoldable pub receive_all : ServiceEmailManager → List Notification → ServiceEmailManager
receive_all em [] = em
receive_all em (n ∷ ns) = receive_all (receive em n) ns

abbrev pub settled :
    ServiceEmailManager → ServiceErrorCounts × List Notification → ServiceEmailManager
settled em (ec, sent) = record em {
  error_counts = ec;
  service_errors_table = table_of em.service_errors_table sent;
  admin_notifications = em.admin_notifications ++ sent;
}

abbrev pub manager :
    ℕ → Bool → ServiceErrorCounts → List Notification → Dict String String → ServiceEmailManager
manager minimum track ec sent table = record {
  notification_minimum = minimum;
  track_error_counts = track;
  error_counts = ec;
  admin_notifications = sent;
  service_errors_table = table;
}

receive_all_tracked :
    (ns : List Notification) (minimum : ℕ) (ec : ServiceErrorCounts) (old : List Notification)
    (table : Dict String String)
    → let em = manager minimum true ec old table in
      receive_all em ns ≡ settled em (adjust_all minimum ec ns)
unfolding receive_all table_of adjust_all receive
receive_all_tracked [] minimum ec old table = rw append-nil
receive_all_tracked (n ∷ ns) minimum ec old table =
    let (ec', send) = adjust_error_counts n ec minimum in
    elim (Bool-cases send) [
      | inl yes_send ↦ rw yes_send (
          receive_all_tracked ns minimum ec' (old ++ (n ∷ [])) (add_to_table n table)
          ∙ rw append_assoc)
      | inr no_send ↦ rw no_send (receive_all_tracked ns minimum ec' old table)
    ]

receive_all_untracked :
    (ns : List Notification) (minimum : ℕ) (ec : ServiceErrorCounts) (old : List Notification)
    (table : Dict String String)
    → let em = manager minimum false ec old table in receive_all em ns ≡ settled em (ec, ns)
unfolding receive_all table_of receive
receive_all_untracked [] minimum ec old table = rw append-nil
receive_all_untracked (n ∷ ns) minimum ec old table =
    receive_all_untracked ns minimum ec (old ++ (n ∷ [])) (add_to_table n table) ∙ rw append_assoc

settled_by :
    (track : Bool) (ns : List Notification) (minimum : ℕ) (ec : ServiceErrorCounts)
    (old : List Notification) (table : Dict String String)
    → let em = manager minimum track ec old table in receive_all em ns ≡ settled em (sent_of em ns)
settled_by true ns minimum ec old table = receive_all_tracked ns minimum ec old table
settled_by false ns minimum ec old table = receive_all_untracked ns minimum ec old table

receive_all-settled :
    (em : ServiceEmailManager) (ns : List Notification)
    → receive_all em ns ≡ settled em (sent_of em ns)
receive_all-settled em ns =
    settled_by em.track_error_counts ns em.notification_minimum em.error_counts
      em.admin_notifications em.service_errors_table

-- The message of the last push error for the node.
abbrev pub last_message : String → List Notification → Option String
last_message node [] = none
last_message node (setup_error _ _ ∷ ns) = last_message node ns
last_message node (push_error message _ n ∷ ns) = elim (last_message node ns) [
  | some later ↦ some later
  | none ↦ if node == n then some message else none
]

abbrev pub or_else : Option String → Option String → Option String
or_else (some m) old = some m
or_else none old = old

lookup-table_of :
    (node : String) (ns : List Notification) (table : Dict String String)
    → lookup (table_of table ns) node ≡ or_else (last_message node ns) (lookup table node)
unfolding table_of add_to_table
lookup-table_of node [] table = refl
lookup-table_of node (setup_error m s ∷ ns) table = lookup-table_of node ns table
lookup-table_of node (push_error m s n ∷ ns) table =
    ground (arith, lookup-table_of node ns (insert table n m), lookup-insert table n node m)

abbrev pub has_push_error : List Notification → Bool
has_push_error [] = false
has_push_error (setup_error _ _ ∷ ns) = has_push_error ns
has_push_error (push_error _ _ _ ∷ ns) = true

abbrev pub has_entries : Dict String String → Bool
has_entries [] = false
has_entries (_ ∷ _) = true

table_of_cons :
    (ns : List Notification) (e : String × String) (table : Dict String String)
    → (f : String × String) × (more : Dict String String) × (table_of (e ∷ table) ns ≡ f ∷ more)
unfolding table_of add_to_table insert
table_of_cons [] e table = (e, table, refl)
table_of_cons (setup_error m s ∷ ns) e table = table_of_cons ns e table
table_of_cons (push_error m s n ∷ ns) (j, w) table = elim (Bool-cases (n == j)) [
  | inl same ↦ rw same (table_of_cons ns (j, m) table)
  | inr other ↦ rw other (table_of_cons ns (j, w) (insert table n m))
]

unfoldable pub received_then : List Notification → List Event → List Event
received_then [] rest = rest
received_then (n ∷ ns) rest = received n ∷ received_then ns rest

module _ (prepare : Dict String String → Option String) where
  run_handler-received :
      (ns : List Notification) (em : ServiceEmailManager) (rest : List Event)
      → run_handler prepare em (received_then ns rest)
        ≡ run_handler prepare (receive_all em ns) rest
  unfolding run_handler receive_all received_then
  run_handler-received [] em rest = refl
  run_handler-received (n ∷ ns) em rest = run_handler-received ns (receive em n) rest

  abbrev pub mail_text : Option String → String
  mail_text none = ""
  mail_text (some message) = message

  -- The mail for a table with entries, or to which entries were added: the message of the template,
  -- or an empty one if it cannot be made.
  abbrev pub mail_of : Dict String String → List Notification → Option String
  mail_of table ns =
      if has_entries table || has_push_error ns
      then some (mail_text (prepare (table_of table ns)))
      else none

  email-cons :
      (table : Dict String String) (e : String × String)
      → send_service_email_if_errors prepare (e ∷ table) ≡ some (mail_text (prepare (e ∷ table)))
  unfolding send_service_email_if_errors
  email-cons table e = ground arith

  email_of_entries :
      (ns : List Notification) (e : String × String) (table : Dict String String)
      → send_service_email_if_errors prepare (table_of (e ∷ table) ns)
        ≡ some (mail_text (prepare (table_of (e ∷ table) ns)))
  email_of_entries ns e table =
      let (f, more, same) = table_of_cons ns e table in rw same (email-cons more f)

  email-table_of :
      (ns : List Notification) (table : Dict String String)
      → send_service_email_if_errors prepare (table_of table ns) ≡ mail_of table ns
  unfolding send_service_email_if_errors table_of add_to_table insert
  email-table_of ns (e ∷ table) = email_of_entries ns e table
  email-table_of [] [] = refl
  email-table_of (setup_error m s ∷ ns) [] = email-table_of ns []
  email-table_of (push_error m s n ∷ ns) [] = email_of_entries ns (n, m) []

  -- Once its channel is closed, the handler has forwarded to the administrators exactly the
  -- notifications that the error counts let through (all of them where counts are not tracked), in
  -- their order, and saves the counts if it tracks them. Its table has for each node the message of
  -- the last push error that was let through, or what it had before. Where the table had entries or a
  -- push error was let through, it mails the table, or an empty mail if the message cannot be made,
  -- and otherwise it mails nothing.
  pub run_handler_closed :
      (em : ServiceEmailManager) (ns : List Notification) (rest : List Event) (node : String)
      → let (ec, sent) = sent_of em ns in
        (run_handler prepare em (received_then ns (closed ∷ rest))
          ≡ some (record {
            manager = settled em (ec, sent);
            saved = if em.track_error_counts then some ec else none;
            email = mail_of em.service_errors_table sent;
          }))
        × (lookup (settled em (ec, sent)).service_errors_table node
            ≡ or_else (last_message node sent) (lookup em.service_errors_table node))
  unfolding run_handler
  run_handler_closed em ns rest node = (
    run_handler-received ns em (closed ∷ rest)
        ∙ rw (receive_all-settled em ns, email-table_of (sent_of em ns).1 em.service_errors_table),
    lookup-table_of node (sent_of em ns).1 em.service_errors_table,
  )

  -- At the end of the context the handler has forwarded the same, but saves and mails nothing.
  pub run_handler_done :
      (em : ServiceEmailManager) (ns : List Notification) (rest : List Event)
      → run_handler prepare em (received_then ns (done ∷ rest))
        ≡ some (record { manager = settled em (sent_of em ns); saved = none; email = none })
  unfolding run_handler
  run_handler_done em ns rest =
      run_handler-received ns em (done ∷ rest) ∙ rw (receive_all-settled em ns)

  -- From an empty table a mail is attempted exactly when a push error was let through, whether or
  -- not the message can be prepared.
  pub email_attempted :
      (ns : List Notification)
      → is_none (send_service_email_if_errors prepare (table_of [] ns)) ≡ not (has_push_error ns)
  unfolding send_service_email_if_errors table_of add_to_table insert
  email_attempted [] = refl
  email_attempted (setup_error m s ∷ ns) = email_attempted ns
  email_attempted (push_error m s n ∷ ns) =
      let (f, more, e) = table_of_cons ns (n, m) [] in rw e (ground arith)
