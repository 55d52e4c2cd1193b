-- ===== src/Notifications/AdminErrors/Report.antt =====
-- What the administrators are told, by service and node, from all that was added.
use managed_tokens.Base.{◌≡◌, refl, ◌∙◌, String, true, arith, ap, Option, none}
use managed_tokens.Base.{some, List, [], ◌∷◌, if◌then◌else◌, ◌==◌, string_comparable}
use managed_tokens.Base.Dict.{Dict, lookup, lookup-insert, lookup-nil, NodupKeys}
use managed_tokens.Notifications.{Notification}
use managed_tokens.Notifications.AdminErrors.{
  AdminData, or_made, is_zero, is_empty, copy_push_errors, unsync,
  admin_errors_to_admin_data_unsync, add_all,
}
use managed_tokens.Base.Lists.{length}
use managed_tokens.Notifications.AdminErrors.Adding.{
  setup_messages, last_push_message, setup_of, push_of, setup_of-add_all, push_of-add_all,
  add_all-NodupKeys, NodupNodes, add_all-NodupNodes,
}

abbrev pub nonempty : Option String → Option String
nonempty none = none
nonempty (some m) = if m == "" then none else some m

lookup-copy_push_errors :
    (m : Dict String String) (node : String)
    → NodupKeys m
    → lookup (copy_push_errors m) node ≡ nonempty (lookup m node)
unfolding copy_push_errors lookup
lookup-copy_push_errors [] node u = refl
lookup-copy_push_errors ((n, e) ∷ m) node (new, u) =
    ground (arith, lookup-copy_push_errors m node u, lookup-insert (copy_push_errors m) n node e)

is_empty_push :
    (m : Dict String String) (node : String) → is_zero (length m) ≡ true → lookup m node ≡ none
is_empty_push [] node h = lookup-nil node
is_empty_push (e ∷ m) node h = cc

setup_of-unsync :
    (m : Dict String AdminData) (service : String)
    → NodupKeys m
    → setup_of (lookup (admin_errors_to_admin_data_unsync m) service) ≡ setup_of (lookup m service)
unfolding admin_errors_to_admin_data_unsync lookup is_empty
setup_of-unsync [] service u = refl
setup_of-unsync ((s, a) ∷ m) service (new, u) = ground (
  arith,
  setup_of-unsync m service u,
  lookup-insert (admin_errors_to_admin_data_unsync m) s service (unsync a),
)

NodupNodes-tail :
    (s : String) (a : AdminData) (m : Dict String AdminData)
    → lookup m s ≡ none
    → NodupNodes (some ((s, a) ∷ m))
    → NodupKeys a.push_errors × NodupNodes (some m)
unfolding lookup
NodupNodes-tail s a m new v = (ground (arith, v s), λ k. ground (arith, v k))

push_of-unsync :
    (m : Dict String AdminData) (service node : String)
    → NodupKeys m
    → NodupNodes (some m)
    → push_of node (lookup (admin_errors_to_admin_data_unsync m) service)
      ≡ nonempty (push_of node (lookup m service))
unfolding admin_errors_to_admin_data_unsync lookup is_empty
push_of-unsync [] service node u v = refl
push_of-unsync ((s, a) ∷ m) service node (new, u) v =
    let (v', w) = NodupNodes-tail s a m new v in
    ground (
      arith,
      push_of-unsync m service node u w,
      lookup-insert (admin_errors_to_admin_data_unsync m) s service (unsync a),
      lookup-copy_push_errors a.push_errors node v',
      is_empty_push a.push_errors node,
    )

-- What the administrators are told of a service: the messages of its setup errors in order, and for
-- each node the last message, unless it is empty.
pub reported :
    (ns : List Notification) (service node : String)
    → let told = lookup (admin_errors_to_admin_data_unsync (or_made (add_all none ns))) service in
      (setup_of told ≡ setup_messages service ns)
      × (push_of node told ≡ nonempty (last_push_message service node none ns))
reported ns service node =
    let u = add_all-NodupKeys ns none tt in
    let v = add_all-NodupNodes ns none (λ s. rw lookup-nil tt) in
    (
      setup_of-unsync (or_made (add_all none ns)) service u
          ∙ setup_of-add_all service ns none
          ∙ rw lookup-nil,
      push_of-unsync _ service node u v
          ∙ ap nonempty (push_of-add_all service node ns none)
          ∙ rw lookup-nil,
    )
