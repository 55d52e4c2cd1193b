-- ===== src/Worker/GetToken/Storage.antt =====
-- Where the vault token of a service is after it was obtained.
use managed_tokens.Base.{◌≡◌, ◌≢◌, ◌∙◌, refl, sym, String, Bool, true, none, some, arith}
use managed_tokens.Base.{if◌then◌else◌, ◌==◌, string_comparable, Option-cases, Bool-cases, inl, inr}
use managed_tokens.Base.Dict.{lookup, insert, lookup-erase}
use managed_tokens.Worker.CreddStore.{Files, remove, move_file_cross_device}
use managed_tokens.Worker.CreddStore.Moves.{MoveWorks, move_works}
use managed_tokens.Worker.GetToken.{
  GetCalls, Ending, token_obtained, get_failed, get_and_move, get_vault_token,
}

-- Every call of GetToken succeeds, with these temporary files.
abbrev pub GetWorks : GetCalls → String → String → Type 0
GetWorks calls temp bearer =
    (calls.stats ≡ true)
    × (calls.temp ≡ some temp)
    × (calls.bearer ≡ some bearer)
    × (calls.client ≡ true)
    × MoveWorks calls.move
    × (calls.removes_bearer ≡ true)

remove_keeps :
    (works : Bool) (files : Files) (path q : String)
    → q ≢ path
    → lookup (remove works files path).0 q ≡ lookup files q
unfolding remove
remove_keeps works files path q d = grind (arith, lookup-erase)

remove_gone : (files : Files) (path : String) → lookup (remove true files path).0 path ≡ none
unfolding remove
remove_gone files path = grind (arith, lookup-erase)

-- The path that the client is given: the vault token's if there is one, otherwise a temporary file.
abbrev pub client_path : Files → String → String → String
client_path files path temp = elim (lookup files path) [ none ↦ temp | some _ ↦ path ]

-- The files when the client is called: the temporary ones are made, and empty.
abbrev pub client_files : Files → String → String → String → Files
client_files files path temp bearer =
    insert (elim (lookup files path) [ none ↦ insert files temp "" | some _ ↦ files ]) bearer ""

given_missing :
    (files : Files) (path temp bearer : String)
    → lookup files path ≡ none
    → (client_path files path temp ≡ temp)
      × (client_files files path temp bearer ≡ insert (insert files temp "") bearer "")
given_missing files path temp bearer h = (rw (client_path, h) refl, rw (client_files, h) refl)

given_there :
    (files : Files) (path temp bearer old : String)
    → lookup files path ≡ some old
    → (client_path files path temp ≡ path)
      × (client_files files path temp bearer ≡ insert files bearer "")
given_there files path temp bearer old h = (rw (client_path, h) refl, rw (client_files, h) refl)

-- How GetToken ends after a call of the client, and where the tokens are then.
abbrev pub Ended : Files × Ending → Files × Bool → String → String → String → Type 0
Ended (files', ending) (gotten, ok) path use_path bearer =
    (ending ≡ (if ok then token_obtained else get_failed))
    × (lookup files' path ≡ (if ok then lookup gotten use_path else lookup gotten path))
    × (lookup files' bearer ≡ none)

module _ (get_token : String → String → Files → Files × Bool)
    (leaves : (p b : String) (f : Files)
      → (get_token p b f).1 ≡ true
      → (token : String) × (lookup (get_token p b f).0 p ≡ some token)) where
  moved_to :
      (calls : GetCalls) (gotten : Files) (path use_path token : String)
      → MoveWorks calls.move
      → lookup gotten use_path ≡ some token
      → lookup
          (if use_path == path
            then gotten
            else (move_file_cross_device calls.move gotten use_path path).0)
          path
        ≡ some token
  moved_to calls gotten path use_path token m left = elim (Bool-cases (use_path == path)) [
    | inl same ↦ ground arith
    | inr other ↦
        let different : use_path ≢ path = ground arith in
        let (_, _, kept, _) = move_works calls.move gotten use_path path token m different left in
        rw other kept
  ]

  get_and_move-Ended :
      (calls : GetCalls) (files : Files) (path use_path bearer : String)
      → calls.client ≡ true
      → MoveWorks calls.move
      → calls.removes_bearer ≡ true
      → bearer ≢ path
      → Ended
          (get_and_move get_token calls files path use_path bearer)
          (get_token use_path bearer (insert files bearer ""))
          path
          use_path
          bearer
  unfolding get_and_move
  get_and_move-Ended calls files path use_path bearer c m r d =
      let created = insert files bearer "" in
      let gotten = (get_token use_path bearer created).0 in
      let moved =
        if use_path == path
        then gotten
        else (move_file_cross_device calls.move gotten use_path path).0 in
      let pb : path ≢ bearer = λ x. d (sym x) in
      elim (Bool-cases (get_token use_path bearer created).1) [
        | inl good ↦
            let (token, left) = leaves use_path bearer created good in
            rw (c, good, r)
              (
                refl,
                remove_keeps true moved bearer path pb
                    ∙ moved_to calls gotten path use_path token m left
                    ∙ sym left,
                remove_gone moved bearer,
              )
        | inr bad ↦
            rw (c, bad, r)
              (refl, remove_keeps true gotten bearer path pb, remove_gone gotten bearer)
      ]

  without_token :
      (calls : GetCalls) (files : Files) (path temp bearer : String)
      → GetWorks calls temp bearer
      → lookup files path ≡ none
      → let (files', ending) =
          get_and_move get_token calls (insert files temp "") path temp bearer in
        get_vault_token get_token calls files path
        ≡ ((remove calls.removes_temp files' temp).0, ending)
  unfolding get_vault_token
  without_token calls files path temp bearer (st, te, be, cl, mo, re) missing =
      rw (get_vault_token, st, missing, te, be) refl

  with_token :
      (calls : GetCalls) (files : Files) (path temp bearer old : String)
      → GetWorks calls temp bearer
      → lookup files path ≡ some old
      → get_vault_token get_token calls files path
        ≡ get_and_move get_token calls files path path bearer
  unfolding get_vault_token
  with_token calls files path temp bearer old (st, te, be, cl, mo, re) there =
      rw (get_vault_token, st, there, be) refl

  -- For three different paths, where the calls on the files succeed, and for a client that leaves some
  -- token at the path that it is given whenever it returns no error: the client is given the vault
  -- token of the service if there is one, and otherwise an empty temporary file. The end of GetToken is
  -- that of the client. Where the client returns no error, the vault token of the service is what the
  -- client left at the path that it was given, and otherwise it is what the client left at its place.
  -- The bearer token is removed.
  pub vault_token_stored :
      (calls : GetCalls) (files : Files) (path temp bearer : String)
      → GetWorks calls temp bearer
      → bearer ≢ path
      → temp ≢ path
      → temp ≢ bearer
      → Ended
          (get_vault_token get_token calls files path)
          (get_token (client_path files path temp) bearer (client_files files path temp bearer))
          path
          (client_path files path temp)
          bearer
  vault_token_stored calls files path temp bearer works d td tb =
      let (st, te, be, cl, mo, re) = works in
      let fresh = insert files temp "" in
      let (ending, stored, gone) = get_and_move-Ended calls fresh path temp bearer cl mo re d in
      let at_place = get_and_move-Ended calls files path path bearer cl mo re d in
      let after = (get_and_move get_token calls fresh path temp bearer).0 in
      let on_path = remove_keeps calls.removes_temp after temp path (λ x. td (sym x)) in
      let on_bearer = remove_keeps calls.removes_temp after temp bearer (λ x. tb (sym x)) in
      elim (Option-cases (lookup files path)) [
        | inl missing ↦
            let (p, f) = given_missing files path temp bearer missing in
            rw (p, f, without_token calls files path temp bearer works missing)
              (ending, on_path ∙ stored, on_bearer ∙ gone)
        | inr (old, there) ↦
            let (p, f) = given_there files path temp bearer old there in
            rw (p, f, with_token calls files path temp bearer old works there) at_place
      ]
