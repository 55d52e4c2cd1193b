-- ===== src/Worker/CreddStore/Moves.antt =====
-- Where a token is after a move.
use managed_tokens.Base.{◌≡◌, ◌≢◌, String, true, Option, none, some, arith}
use managed_tokens.Base.{string_comparable}
use managed_tokens.Base.Dict.{lookup, lookup-insert, lookup-erase}
use managed_tokens.Worker.CreddStore.{
  Files, MoveError, cannot_remove_file, move_failed, MoveCalls, move_file_cross_device,
}

-- By the error of a move: the token at the source and at the destination.
abbrev pub IsMoved : Option MoveError → String → Option String → Option String → Type 0
IsMoved none c source destination = (source ≡ none) × (destination ≡ some c)
IsMoved (some cannot_remove_file) c source destination = (source ≡ some c) × (destination ≡ some c)
IsMoved (some move_failed) c source destination = source ≡ some c

-- A move of a token to another path: without an error the token is at the destination only; with the
-- error that the source cannot be removed it is at both places; with any other error it is still at
-- the source. No other file is touched.
pub move_file_outcome :
    (calls : MoveCalls) (files : Files) (src dst c p : String)
    → src ≢ dst
    → lookup files src ≡ some c
    → p ≢ src
    → p ≢ dst
    → let (files', e) = move_file_cross_device calls files src dst in
      IsMoved e c (lookup files' src) (lookup files' dst) × (lookup files' p ≡ lookup files p)
unfolding move_file_cross_device
move_file_outcome calls files src dst c p d h ps pd = grind (arith, lookup-insert, lookup-erase)

-- Every call of the move succeeds.
abbrev pub MoveWorks : MoveCalls → Type 0
MoveWorks m = (m.opens ≡ true) × (m.creates ≡ true) × (m.partial_copy ≡ none) × (m.removes ≡ true)

-- All files but two are as they were.
abbrev pub Keeps : String → String → Files → Files → Type 0
Keeps a b files files' = (q : String) → q ≢ a → q ≢ b → lookup files' q ≡ lookup files q

pub move_works :
    (m : MoveCalls) (files : Files) (src dst c : String)
    → MoveWorks m
    → src ≢ dst
    → lookup files src ≡ some c
    → let (files', e) = move_file_cross_device m files src dst in
      (e ≡ none)
      × (lookup files' src ≡ none)
      × (lookup files' dst ≡ some c)
      × Keeps src dst files files'
unfolding move_file_cross_device
move_works m files src dst c w d h = (
  grind (arith, lookup-insert, lookup-erase),
  grind (arith, lookup-insert, lookup-erase),
  grind (arith, lookup-insert, lookup-erase),
  λ q qs qd. grind (arith, lookup-insert, lookup-erase),
)
