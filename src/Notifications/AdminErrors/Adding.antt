-- ===== src/Notifications/AdminErrors/Adding.antt =====
-- What the map holds, by service and node, after any additions.
use managed_tokens.Base.{◌≡◌, refl, sym, ◌∙◌, String, arith, ap, Option, none}
use managed_tokens.Base.{some, List, [], ◌∷◌, ◌++◌, if◌then◌else◌, ◌==◌, string_comparable}
use managed_tokens.Base.Dict.{
  Dict, lookup, insert, lookup-insert, lookup-nil, NodupKeys, insert-NodupKeys,
}
use managed_tokens.Notifications.{Notification, setup_error, push_error}
use managed_tokens.Notifications.AdminErrors.{
  AdminData, ErrorsMap, or_made, with_setup_error, with_push_error, add_error_to_admin_errors,
  add_all,
}
use mathlib.Core.List.{append-nil, append_assoc}

-- The messages of the setup errors of a service, in order.
abbrev pub setup_messages : String → List Notification → List String
setup_messages service [] = []
setup_messages service (setup_error message s ∷ ns) =
    let rest = setup_messages service ns in if service == s then message ∷ rest else rest
setup_messages service (push_error _ _ _ ∷ ns) = setup_messages service ns

-- The message of the last push error of a service at a node, or what was there before.
abbrev pub last_push_message : String → String → Option String → List Notification → Option String
last_push_message service node old [] = old
last_push_message service node old (setup_error _ _ ∷ ns) = last_push_message service node old ns
last_push_message service node old (push_error message s n ∷ ns) =
    last_push_message service node
      (if service == s then (if node == n then some message else old) else old) ns

abbrev pub setup_of : Option AdminData → List String
setup_of none = []
setup_of (some a) = a.setup_errors

abbrev pub push_of : String → Option AdminData → Option String
push_of node none = none
push_of node (some a) = lookup a.push_errors node

abbrev pub data_of : ErrorsMap → String → Option AdminData
data_of e service = lookup (or_made e) service

module _ (service : String) where
  setup_of-add_error :
      (e : ErrorsMap) (n : Notification)
      → setup_of (data_of (add_error_to_admin_errors e n) service)
        ≡ setup_of (data_of e service) ++ setup_messages service (n ∷ [])
  unfolding add_error_to_admin_errors
  setup_of-add_error e (setup_error m s) = ground (
    arith,
    lookup-insert (or_made e) s service (with_setup_error m (lookup (or_made e) s)),
    append-nil (setup_of (data_of e service)),
  )
  setup_of-add_error e (push_error m s node) = ground (
    arith,
    lookup-insert (or_made e) s service (with_push_error node m (lookup (or_made e) s)),
    append-nil (setup_of (data_of e service)),
  )

  push_of-add_error :
      (node : String) (e : ErrorsMap) (n : Notification)
      → push_of node (data_of (add_error_to_admin_errors e n) service)
        ≡ last_push_message service node (push_of node (data_of e service)) (n ∷ [])
  unfolding add_error_to_admin_errors
  push_of-add_error k e (setup_error m s) = ground (
    arith,
    lookup-insert (or_made e) s service (with_setup_error m (lookup (or_made e) s)),
    lookup-nil {V = String} k,
  )
  push_of-add_error k e (push_error m s node) =
      grind (arith, lookup-insert, lookup-nil {V = String} k)

  setup_messages-append :
      (xs ys : List Notification)
      → setup_messages service (xs ++ ys) ≡ setup_messages service xs ++ setup_messages service ys
  setup_messages-append [] ys = refl
  setup_messages-append (setup_error m s ∷ xs) ys = ground (arith, setup_messages-append xs ys)
  setup_messages-append (push_error m s n ∷ xs) ys = setup_messages-append xs ys

  pub setup_of-add_all :
      (ns : List Notification) (e : ErrorsMap)
      → setup_of (data_of (add_all e ns) service)
        ≡ setup_of (data_of e service) ++ setup_messages service ns
  unfolding add_all
  setup_of-add_all [] e = rw append-nil
  setup_of-add_all (n ∷ ns) e =
      setup_of-add_all ns (add_error_to_admin_errors e n)
      ∙ rw (setup_of-add_error e n, append_assoc)
          (ap (λ x. setup_of (data_of e service) ++ x) (sym (setup_messages-append (n ∷ []) ns)))

  last_push_cons :
      (node : String) (old : Option String) (n : Notification) (ns : List Notification)
      → last_push_message service node (last_push_message service node old (n ∷ [])) ns
        ≡ last_push_message service node old (n ∷ ns)
  last_push_cons node old (setup_error m s) ns = refl
  last_push_cons node old (push_error m s k) ns = refl

  pub push_of-add_all :
      (node : String) (ns : List Notification) (e : ErrorsMap)
      → push_of node (data_of (add_all e ns) service)
        ≡ last_push_message service node (push_of node (data_of e service)) ns
  unfolding add_all
  push_of-add_all node [] e = refl
  push_of-add_all node (n ∷ ns) e =
      push_of-add_all node ns (add_error_to_admin_errors e n)
      ∙ ap (λ o. last_push_message service node o ns) (push_of-add_error node e n)
      ∙ last_push_cons node _ n ns

add_error-NodupKeys :
    (e : ErrorsMap) (n : Notification)
    → NodupKeys (or_made e)
    → NodupKeys (or_made (add_error_to_admin_errors e n))
unfolding add_error_to_admin_errors
add_error-NodupKeys e (setup_error m s) u = insert-NodupKeys (or_made e) s _ u
add_error-NodupKeys e (push_error m s n) u = insert-NodupKeys (or_made e) s _ u

pub add_all-NodupKeys :
    (ns : List Notification) (e : ErrorsMap)
    → NodupKeys (or_made e)
    → NodupKeys (or_made (add_all e ns))
unfolding add_all
add_all-NodupKeys [] e u = u
add_all-NodupKeys (n ∷ ns) e u =
    add_all-NodupKeys ns (add_error_to_admin_errors e n) (add_error-NodupKeys e n u)

abbrev pub pushes_of : Option AdminData → Dict String String
pushes_of none = []
pushes_of (some a) = a.push_errors

-- No node is listed twice, whatever the service.
abbrev pub NodupNodes : ErrorsMap → Type 0
NodupNodes e = (service : String) → NodupKeys (pushes_of (data_of e service))

with_setup_error-NodupKeys :
    (m : String) (o : Option AdminData)
    → NodupKeys (pushes_of o)
    → NodupKeys (with_setup_error m o).push_errors
with_setup_error-NodupKeys m none u = tt
with_setup_error-NodupKeys m (some a) u = u

with_push_error-NodupKeys :
    (node m : String) (o : Option AdminData)
    → NodupKeys (pushes_of o)
    → NodupKeys (with_push_error node m o).push_errors
with_push_error-NodupKeys node m none u = insert-NodupKeys [] node m tt
with_push_error-NodupKeys node m (some a) u = insert-NodupKeys a.push_errors node m u

insert-NodupNodes :
    (m : Dict String AdminData) (s : String) (a : AdminData)
    → NodupNodes (some m)
    → NodupKeys a.push_errors
    → NodupNodes (some (insert m s a))
insert-NodupNodes m s a u v service = ground (arith, lookup-insert m s service a, u service, v)

pub add_all-NodupNodes :
    (ns : List Notification) (e : ErrorsMap) → NodupNodes e → NodupNodes (add_all e ns)
unfolding add_all add_error_to_admin_errors
add_all-NodupNodes [] e u = u
add_all-NodupNodes (setup_error m s ∷ ns) e u =
    add_all-NodupNodes ns _
      (insert-NodupNodes (or_made e) s _ u (with_setup_error-NodupKeys m (data_of e s) (u s)))
add_all-NodupNodes (push_error m s n ∷ ns) e u =
    add_all-NodupNodes ns _
      (insert-NodupNodes (or_made e) s _ u (with_push_error-NodupKeys n m (data_of e s) (u s)))
