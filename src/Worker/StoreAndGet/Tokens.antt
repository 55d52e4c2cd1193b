-- ===== src/Worker/StoreAndGet/Tokens.antt =====
-- Where the vault tokens are after a run for one credd.
use managed_tokens.Base.{◌≡◌, ◌≢◌, ◌∙◌, refl, sym, String, Bool, true, none, some, arith}
use managed_tokens.Base.{string_comparable, Option-cases, inl, inr}
use managed_tokens.Base.Dict.{lookup, insert, lookup-insert}
use managed_tokens.Worker.PushToNode.{ContextError}
use managed_tokens.Worker.CreddStore.{
  Files, Restore, from_file, BackupCalls, back_up_to, backup_condor_vault_token, StageCalls,
  stage_stored_token_file, StoreCalls, store_service_token_for_credd_file, RestoreCalls,
  restore_prior_token,
}
use managed_tokens.Worker.CreddStore.Moves.{MoveWorks, Keeps, move_works}
use managed_tokens.Worker.StoreAndGet.{
  Calls, context_ended, may_store, stage_and_store, store_and_get_tokens_for_schedd,
}

-- Every call on the files succeeds, with a temporary file for the backup.
abbrev pub CallsWork : Calls → String → Type 0
CallsWork calls temp =
    (calls.before ≡ none)
    × (calls.backup.stats ≡ true)
    × (calls.backup.temp ≡ some temp)
    × MoveWorks calls.backup.move
    × (calls.stage.stats ≡ true)
    × MoveWorks calls.stage.move
    × MoveWorks calls.store.move
    × MoveWorks calls.restore.move_back

back_up_works :
    (calls : BackupCalls) (files : Files) (location temp prior : String)
    → calls.stats ≡ true
    → calls.temp ≡ some temp
    → MoveWorks calls.move
    → location ≢ temp
    → lookup files location ≡ some prior
    → let (files', (restore, _)) = backup_condor_vault_token calls files location in
      (restore ≡ from_file temp)
      × (lookup files' location ≡ none)
      × (lookup files' temp ≡ some prior)
      × Keeps location temp files files'
unfolding backup_condor_vault_token back_up_to
back_up_works calls files location temp prior s t w d h =
    let before = insert files temp "" in
    let there : lookup before location ≡ some prior = grind (arith, lookup-insert) in
    let (e, gone, kept, same) = move_works calls.move before location temp prior w d there in
    (
      ground arith,
      ground arith,
      ground arith,
      λ q ql qt. ground (arith, same q ql qt, lookup-insert files temp q ""),
    )

stage_works :
    (calls : StageCalls) (files : Files) (location stored : String)
    → calls.stats ≡ true
    → MoveWorks calls.move
    → location ≢ stored
    → let (files', e) = stage_stored_token_file calls files location stored in
      (may_store e ≡ true) × Keeps location stored files files'
unfolding stage_stored_token_file
stage_works calls files location stored s w d = elim (Option-cases (lookup files stored)) [
  | inl missing ↦ (ground arith, λ q ql qs. ground arith)
  | inr (old, there) ↦
      let (e, gone, kept, same) =
        move_works calls.move files stored location old w (λ x. d (sym x)) there in
      (ground arith, λ q ql qs. ground (arith, same q qs ql))
]

-- What is at the place of HTCondor after the staging there, where nothing was before.
stage_gives :
    (calls : StageCalls) (files : Files) (location stored : String)
    → calls.stats ≡ true
    → MoveWorks calls.move
    → location ≢ stored
    → lookup files location ≡ none
    → lookup (stage_stored_token_file calls files location stored).0 location ≡ lookup files stored
unfolding stage_stored_token_file
stage_gives calls files location stored s w d h = elim (Option-cases (lookup files stored)) [
  | inl missing ↦ ground arith
  | inr (old, there) ↦
      let (e, gone, kept, same) =
        move_works calls.move files stored location old w (λ x. d (sym x)) there in
      ground arith
]

stage_takes :
    (calls : StageCalls) (files : Files) (location stored old : String)
    → calls.stats ≡ true
    → MoveWorks calls.move
    → location ≢ stored
    → lookup files stored ≡ some old
    → lookup (stage_stored_token_file calls files location stored).0 stored ≡ none
unfolding stage_stored_token_file
stage_takes calls files location stored old s w d h =
    let (e, gone, kept, same) =
      move_works calls.move files stored location old w (λ x. d (sym x)) h in
    ground arith

store_works :
    (calls : StoreCalls) (files : Files) (location stored new : String)
    → MoveWorks calls.move
    → location ≢ stored
    → lookup files location ≡ some new
    → let files' = (store_service_token_for_credd_file calls files location stored).0 in
      (lookup files' stored ≡ some new) × Keeps location stored files files'
unfolding store_service_token_for_credd_file
store_works calls files location stored new w d h =
    let (e, gone, kept, same) = move_works calls.move files location stored new w d h in
    (ground arith, λ q ql qs. ground (arith, same q ql qs))

restore_works :
    (calls : RestoreCalls) (files : Files) (location temp prior : String)
    → MoveWorks calls.move_back
    → location ≢ temp
    → lookup files temp ≡ some prior
    → let files' = (restore_prior_token calls files location (from_file temp)).0 in
      (lookup files' location ≡ some prior)
      × (lookup files' temp ≡ none)
      × Keeps location temp files files'
unfolding restore_prior_token
restore_works calls files location temp prior w d h =
    let (e, gone, kept, same) =
      move_works calls.move_back files temp location prior w (λ x. d (sym x)) h in
    (ground arith, ground arith, λ q ql qt. ground (arith, same q qt ql))

-- The files when the storer is called: after the backup and the staging.
abbrev pub given_files : Calls → Files → String → String → Files
given_files calls files location stored =
    (stage_stored_token_file calls.stage (backup_condor_vault_token calls.backup files location).0
      location stored).0

module _ (get_and_store : Files → Files × Bool) (calls : Calls) (files : Files)
    (location stored temp prior : String) where
  -- After the backup, with the token at its place again at the end.
  stored_and_restored :
      (new : String) (prior' : Restore) (backed_up gotten : Files)
      → CallsWork calls temp
      → calls.between ≡ none
      → location ≢ stored
      → location ≢ temp
      → stored ≢ temp
      → let staged = (stage_stored_token_file calls.stage backed_up location stored).0 in
        get_and_store staged ≡ (gotten, true)
        → lookup gotten location ≡ some new
        → lookup gotten temp ≡ lookup staged temp
        → prior' ≡ from_file temp
        → lookup backed_up temp ≡ some prior
        → let (files', e) = stage_and_store get_and_store calls backed_up location stored prior' in
          (e ≡ none)
          × (lookup files' location ≡ some prior)
          × (lookup files' stored ≡ some new)
          × (lookup files' temp ≡ none)
  stored_and_restored new prior' backed_up gotten (_, _, _, _, st, sm, tm, rm) live ls lt s_t good
        leaves keeps r h =
      let kept = (store_service_token_for_credd_file calls.store gotten location stored).0 in
      let (may, same) = stage_works calls.stage backed_up location stored st sm ls in
      let (there, same') = store_works calls.store gotten location stored new tm ls leaves in
      let tl : temp ≢ location = λ x. lt (sym x) in
      let ts : temp ≢ stored = λ x. s_t (sym x) in
      let in_temp : lookup kept temp ≡ some prior =
        same' temp tl ts ∙ keeps ∙ same temp tl ts ∙ h in
      let (back, gone, same'') =
        restore_works calls.restore kept location temp prior rm lt in_temp in
      let sl : stored ≢ location = λ x. ls (sym x) in
      rw (r, live, may, good) (refl, back, same'' stored sl s_t ∙ there, gone)

  -- For three different paths, where every call on the files succeeds and the context does not end,
  -- and there is a token at the place of HTCondor: the storer finds there the token of the credd, if
  -- there is one, and no token otherwise. If the storer then returns no error, leaves some token there
  -- and does not touch the temporary file, there is no error, the prior token is at the place of
  -- HTCondor again, the token that the storer left is at the place of the credd, and the temporary
  -- file is gone.
  pub prior_token_restored :
      (new : String) (gotten : Files)
      → CallsWork calls temp
      → calls.between ≡ none
      → location ≢ stored
      → location ≢ temp
      → stored ≢ temp
      → lookup files location ≡ some prior
      → get_and_store (given_files calls files location stored) ≡ (gotten, true)
      → lookup gotten location ≡ some new
      → lookup gotten temp ≡ lookup (given_files calls files location stored) temp
      → let (files', e) =
          store_and_get_tokens_for_schedd get_and_store calls files location stored in
        (lookup (given_files calls files location stored) location ≡ lookup files stored)
        × (e ≡ none)
        × (lookup files' location ≡ some prior)
        × (lookup files' stored ≡ some new)
        × (lookup files' temp ≡ none)
  unfolding store_and_get_tokens_for_schedd
  prior_token_restored new gotten works live ls lt s_t h good leaves keeps =
      let (start, bs, bt, bm, st, sm, _, _) = works in
      let (restore, gone, in_temp, same) =
        back_up_works calls.backup files location temp prior bs bt bm lt h in
      let backed_up = (backup_condor_vault_token calls.backup files location).0 in
      let (no_error, back, there, empty) =
        stored_and_restored new _ backed_up gotten works live ls lt s_t good leaves keeps restore
          in_temp in
      (
        stage_gives calls.stage backed_up location stored st sm ls gone
            ∙ same stored (λ x. ls (sym x)) s_t,
        rw start no_error,
        rw start back,
        rw start there,
        rw start empty,
      )

  -- For three different paths, where every call on the files succeeds, but the context ends between
  -- the staging and the storing, and there are a prior token and one for the credd: the end of the
  -- context is the error, the prior token is at its place again, and the place of the credd and the
  -- temporary file are empty, so that the token of the credd is lost.
  pub staged_token_lost :
      (old : String) (ended : ContextError)
      → CallsWork calls temp
      → calls.between ≡ some ended
      → location ≢ stored
      → location ≢ temp
      → stored ≢ temp
      → lookup files location ≡ some prior
      → lookup files stored ≡ some old
      → let (files', e) =
          store_and_get_tokens_for_schedd get_and_store calls files location stored in
        (e ≡ some (context_ended ended))
        × (lookup files' location ≡ some prior)
        × (lookup files' stored ≡ none)
        × (lookup files' temp ≡ none)
  unfolding store_and_get_tokens_for_schedd
  staged_token_lost old ended (start, bs, bt, bm, st, sm, tm, rm) over ls lt s_t h was =
      let (restore, gone, in_temp, same) =
        back_up_works calls.backup files location temp prior bs bt bm lt h in
      let backed_up = (backup_condor_vault_token calls.backup files location).0 in
      let staged = (stage_stored_token_file calls.stage backed_up location stored).0 in
      let tl : temp ≢ location = λ x. lt (sym x) in
      let ts : temp ≢ stored = λ x. s_t (sym x) in
      let sl : stored ≢ location = λ x. ls (sym x) in
      let (may, same') = stage_works calls.stage backed_up location stored st sm ls in
      let taken =
        stage_takes calls.stage backed_up location stored old st sm ls (same stored sl s_t ∙ was) in
      let (back, empty, same'') =
        restore_works calls.restore staged location temp prior rm lt (same' temp tl ts ∙ in_temp) in
      rw (start, restore, over) (refl, back, same'' stored sl s_t ∙ taken, empty)
