-- ===== src/Worker/Config/Options/Readback.antt =====
-- Options are read back by their getters, and a failed NewConfig keeps what came before the failure.
use managed_tokens.Base.{ℕ, ◌≡◌, refl, ap, ◌∙◌, Bool, true, arith, Option, none, some}
use managed_tokens.Base.{List, [], ◌∷◌, ◌++◌, if◌then◌else◌, ◌==◌, nat_comparable, contains, ◌&&◌}
use mathlib.Core.Path.{subst}
use managed_tokens.Base.Lists.{All}
use managed_tokens.Base.Dict.{lookup, insert, lookup-insert, lookup-nil}
use managed_tokens.Worker.Config.{
  WorkerType, push_tokens, num_retries_option, uint, int, bool, interactive_token_getter_option,
  WorkerSpecificConfigOption, Value, Service, Config, is_valid_worker_type,
  is_valid_worker_specific_config_option, initialize_worker_specific_config_defaults,
}
use managed_tokens.Worker.Config.Specific.{
  Error, wrong_type, ok, err, set_worker_specific_config_option, set_num_retries_option,
  set_interactive_token_getter_option, get_worker_num_retries_value_from_config,
  get_interactive_token_getter_option_from_config, valid_token_getter_worker_types,
}
use managed_tokens.Worker.Config.Options.{ConfigOption, initial_config, apply_options, new_config}

-- The value of an option for a worker, as the getters find it.
abbrev pub option_at : Config → WorkerType → WorkerSpecificConfigOption → Option Value
option_at c w o = elim (lookup c.worker_specific_config w) [ none ↦ none | some m ↦ lookup m o ]

-- SetWorkerSpecificConfigOption succeeds only at a valid worker and a valid option, and then it sets
-- that option of that worker and no other option of any worker.
pub option_at-set :
    (w v : WorkerType) (o p : WorkerSpecificConfigOption) (x : Value) (c c' : Config)
    → set_worker_specific_config_option w o x c ≡ ok c'
    → ((is_valid_worker_type w && is_valid_worker_specific_config_option o) ≡ true)
      × (option_at c' v p ≡ (if v == w && p == o then some x else option_at c v p))
unfolding set_worker_specific_config_option
option_at-set w v o p x c c' h = grind (arith, lookup-insert, lookup-nil)

num_retries-option_at :
    (c : Config) (n : ℕ)
    → option_at c push_tokens num_retries_option ≡ some (uint n)
    → get_worker_num_retries_value_from_config c push_tokens ≡ ok n
unfolding get_worker_num_retries_value_from_config
num_retries-option_at c n h = grind arith

-- A number of retries that was set for the push worker is read back.
pub num_retries_read_back :
    (n : ℕ) (c c' : Config)
    → set_num_retries_option push_tokens n c ≡ ok c'
    → get_worker_num_retries_value_from_config c' push_tokens ≡ ok n
num_retries_read_back n c c' h = num_retries-option_at c' n (
    ground (
      arith,
      option_at-set push_tokens push_tokens num_retries_option num_retries_option (uint n) c c' h,
    ))

interactive-option_at :
    (c : Config) (w : WorkerType) (b : Bool)
    → contains valid_token_getter_worker_types w ≡ true
    → is_valid_worker_type w ≡ true
    → option_at c w interactive_token_getter_option ≡ some (bool b)
    → get_interactive_token_getter_option_from_config c w ≡ ok b
unfolding get_interactive_token_getter_option_from_config
interactive-option_at c w b h v e = grind arith

-- Whether to be interactive is read back for the two workers that get tokens.
pub interactive_read_back :
    (w : WorkerType) (b : Bool) (c c' : Config)
    → contains valid_token_getter_worker_types w ≡ true
    → set_interactive_token_getter_option w b c ≡ ok c'
    → get_interactive_token_getter_option_from_config c' w ≡ ok b
interactive_read_back w b c c' valid h =
    let o = interactive_token_getter_option in
    let (both, found) = option_at-set w w o o (bool b) c c' (ground arith) in
    interactive-option_at c' w b valid (ground arith) (ground arith)

-- An option that succeeds and leaves the retries of the push worker alone.
abbrev pub KeepsRetries : ConfigOption → Type 0
KeepsRetries option =
    (c : Config)
    → ((option c).error ≡ none)
      × (option_at (option c).config push_tokens num_retries_option
          ≡ option_at c push_tokens num_retries_option)

apply_options_next :
    (option : ConfigOption) (options : List ConfigOption) (c : Config)
    → (option c).error ≡ none
    → apply_options c (option ∷ options) ≡ apply_options (option c).config options
unfolding apply_options
apply_options_next option options c h = rw (h, apply_options)

apply_options_error :
    (option : ConfigOption) (options : List ConfigOption) (c : Config) (e : Error)
    → (option c).error ≡ some e
    → apply_options c (option ∷ options) ≡ (
      record c {
        extras = (option c).old_extras;
        worker_specific_config = (option c).old_worker_specific_config;
      },
      some e,
    )
unfolding apply_options
apply_options_error option options c e h = rw (h, apply_options)

retries_of-apply_options :
    (options : List ConfigOption) (c : Config)
    → All KeepsRetries options
    → option_at (apply_options c options).0 push_tokens num_retries_option
      ≡ option_at c push_tokens num_retries_option
unfolding apply_options
retries_of-apply_options [] c h = refl
retries_of-apply_options (option ∷ options) c (keeps, h) =
    ap (λ r. option_at r.0 push_tokens num_retries_option)
      (apply_options_next option options c (keeps c).0)
    ∙ retries_of-apply_options options (option c).config h
    ∙ (keeps c).1

wrong_type-option_at :
    (c : Config) (n : ℕ)
    → option_at c push_tokens num_retries_option ≡ some (int n)
    → get_worker_num_retries_value_from_config c push_tokens ≡ err wrong_type
unfolding get_worker_num_retries_value_from_config
wrong_type-option_at c n h = grind arith

initial_retries :
    (service : Service)
    → option_at (initial_config service) push_tokens num_retries_option ≡ some (int 0)
unfolding initial_config initialize_worker_specific_config_defaults lookup insert nat_comparable
initial_retries service = refl

-- A configuration whose options all succeed and set no retries for the push worker has a default
-- number of retries that its getter refuses, as being of the wrong type.
pub default_retries_refused :
    (service : Service) (options : List ConfigOption)
    → All KeepsRetries options
    → get_worker_num_retries_value_from_config (new_config service options).0 push_tokens
      ≡ err wrong_type
unfolding new_config
default_retries_refused service options h =
    wrong_type-option_at (apply_options (initial_config service) options).0 0
      (retries_of-apply_options options (initial_config service) h ∙ initial_retries service)

-- The configuration after options that all succeed, before the end of NewConfig.
abbrev pub Runs : Config → List ConfigOption → Config → Type 0
Runs c [] d = c ≡ d
Runs c (option ∷ options) d = ((option c).error ≡ none) × Runs (option c).config options d

pub new_config_failed :
    (options : List ConfigOption) (bad : ConfigOption) (rest : List ConfigOption) (c d : Config)
    (e : Error)
    → Runs c options d
    → (bad d).error ≡ some e
    → apply_options c (options ++ (bad ∷ rest)) ≡ (
      record d {
        extras = (bad d).old_extras;
        worker_specific_config = (bad d).old_worker_specific_config;
      },
      some e,
    )
new_config_failed [] bad rest c d e r h =
    subst
      (λ x.
        (bad x).error ≡ some e
        → apply_options c (bad ∷ rest) ≡ (
          record x {
            extras = (bad x).old_extras;
            worker_specific_config = (bad x).old_worker_specific_config;
          },
          some e,
        ))
      r (apply_options_error bad rest c e) h
new_config_failed (option ∷ options) bad rest c d e (fine, r) h =
    apply_options_next option (options ++ (bad ∷ rest)) c fine
    ∙ new_config_failed options bad rest (option c).config d e r h
