-- ===== src/Worker/CreddStore.antt =====
-- internal/worker/creddVaultTokenStore.go: the moves of vault tokens between the place of HTCondor
-- and the places of the credds. The files are a map of paths to contents; which system calls fail is
-- an argument of each function.
pub mod Moves
use managed_tokens.Base.{String, ◌<>◌, Bool, true, false, Option, none, some, if◌then◌else◌, ◌==◌}
use managed_tokens.Base.{string_comparable}
use managed_tokens.Base.Dict.{Dict, lookup, insert, erase}

abbrev pub Files : Type 0
Files = Dict String String

-- `errCannotRemoveFile`, or another error.
pub data MoveError : Type 0 where
  cannot_remove_file move_failed : MoveError

-- The calls of one move: whether the source can be opened, the destination created and the source
-- removed, and what a failed copy wrote.
pub record MoveCalls : Type 0 where
  pub opens : Bool
  pub creates : Bool
  pub partial_copy : Option String
  pub removes : Bool

abbrev pub contents : Option String → String
contents none = ""
contents (some c) = c

-- The copy into the created file, and the removal of the source.
abbrev pub copy_and_remove : MoveCalls → Files → String → String → Files × Option MoveError
copy_and_remove calls files src dst = elim calls.partial_copy [
  | some written ↦ (insert files dst written, some move_failed)
  | none ↦
      let copied = insert files dst (contents (lookup files src)) in
      if calls.removes then (erase copied src, none) else (copied, some cannot_remove_file)
]

-- moveFileCrossDevice. `os.Create` empties a file that exists.
unfoldable pub move_file_cross_device :
    MoveCalls → Files → String → String → Files × Option MoveError
move_file_cross_device calls files src dst = elim (lookup files src) [
  | none ↦ (files, some move_failed)
  | some _ ↦
      if calls.opens
      then if calls.creates
        then copy_and_remove calls (insert files dst "") src dst
        else (files, some move_failed)
      else (files, some move_failed)
]

-- `os.Remove`, with whether it succeeds on a file that exists.
unfoldable pub remove : Bool → Files → String → Files × Bool
remove works files path = elim (lookup files path) [
  | none ↦ (files, false)
  | some _ ↦ if works then (erase files path, true) else (files, false)
]

-- `os.Stat`
pub data Stat : Type 0 where
  found not_exist stat_failed : Stat

abbrev pub stat : Bool → Files → String → Stat
stat works files path =
    if works then elim (lookup files path) [ none ↦ not_exist | some _ ↦ found ] else stat_failed

-- getServiceTokenForCreddLocation, where `join` is `path.Join`.
abbrev pub get_service_token_for_credd_location :
    (String → String → String) → Option String → String → String → String → String
get_service_token_for_credd_location join uid token_root_path service_name credd =
    let user : String = elim uid [ none ↦ "000" | some u ↦ u ] in
    if credd == ""
    then join token_root_path ("vt_u" <> (user <> ("-" <> service_name)))
    else join token_root_path ("vt_u" <> (user <> ("-" <> (credd <> ("-" <> service_name)))))

-- The function that backupCondorVaultToken returns: one that does nothing, or one that restores from
-- the temporary file.
pub data Restore : Type 0 where
  nothing : Restore
  from_file : String → Restore

pub record BackupCalls : Type 0 where
  pub stats : Bool
  -- the name that `os.CreateTemp` found
  pub temp : Option String
  pub move : MoveCalls
  pub removes : Bool

-- The default case of backupCondorVaultToken, with the temporary file made. The flag is whether
-- there was no error. After a removal that was forced the error of the move is returned all the same.
unfoldable pub back_up_to : BackupCalls → Files → String → String → Files × (Restore × Bool)
unfolding move_file_cross_device remove
back_up_to calls files location temp =
    let (files', e) = move_file_cross_device calls.move (insert files temp "") location temp in
    elim e [
      | none ↦ (files', (from_file temp, true))
      | some cannot_remove_file ↦ ((remove calls.removes files' location).0, (nothing, false))
      | some move_failed ↦ (files', (nothing, false))
    ]

-- backupCondorVaultToken, where `location` is what GetCondorVaultTokenLocation returns.
unfoldable pub backup_condor_vault_token : BackupCalls → Files → String → Files × (Restore × Bool)
unfolding back_up_to
backup_condor_vault_token calls files location = elim (stat calls.stats files location) [
  | not_exist ↦ (files, (nothing, true))
  | stat_failed ↦ (files, (nothing, false))
  | found ↦ elim calls.temp [
    | none ↦ (files, (nothing, false))
    | some temp ↦ back_up_to calls files location temp
  ]
]

pub record RestoreCalls : Type 0 where
  pub move_back : MoveCalls
  -- the stamped place for a token that cannot be moved back, and the move there
  pub final_location : String
  pub move_away : MoveCalls

-- The function `restorePriorTokenFunc`.
unfoldable pub restore_prior_token : RestoreCalls → Files → String → Restore → Files × Bool
unfolding move_file_cross_device
restore_prior_token calls files location nothing = (files, true)
restore_prior_token calls files location (from_file temp) =
    let (files', e) = move_file_cross_device calls.move_back files temp location in
    elim e [
      | none ↦ (files', true)
      | some cannot_remove_file ↦ (files', true)
      | some move_failed ↦
          ((move_file_cross_device calls.move_away files' temp calls.final_location).0, false)
    ]

pub record StageCalls : Type 0 where
  pub stats : Bool
  pub move : MoveCalls
  pub removes : Bool

-- The errors of stageStoredTokenFile.
pub data StageError : Type 0 where
  no_service_credd_token move_service_credd_token remove_failed : StageError

-- stageStoredTokenFile from the place `stored` of the service and credd.
unfoldable pub stage_stored_token_file :
    StageCalls → Files → String → String → Files × Option StageError
unfolding move_file_cross_device remove
stage_stored_token_file calls files location stored =
    let (files', e) = move_file_cross_device calls.move files stored location in
    let (removed, ok) = remove calls.removes files' location in
    let moved : Files × Option StageError = elim e [
      | none ↦ (files', none)
      | some cannot_remove_file ↦ (files', none)
      | some move_failed ↦
          if ok then (removed, some move_service_credd_token) else (files', some remove_failed)
    ] in
    elim (stat calls.stats files stored) [
      | not_exist ↦ (files, some no_service_credd_token)
      | stat_failed ↦ moved
      | found ↦ moved
    ]

pub record StoreCalls : Type 0 where
  pub move : MoveCalls
  pub removes : Bool

-- storeServiceTokenForCreddFile; the flag is whether there was no error. After a removal that was
-- forced the error of the move is returned all the same.
unfoldable pub store_service_token_for_credd_file :
    StoreCalls → Files → String → String → Files × Bool
unfolding move_file_cross_device remove
store_service_token_for_credd_file calls files location stored =
    let (files', e) = move_file_cross_device calls.move files location stored in
    elim e [
      | none ↦ (files', true)
      | some cannot_remove_file ↦ ((remove calls.removes files' location).0, false)
      | some move_failed ↦ (files', false)
    ]
