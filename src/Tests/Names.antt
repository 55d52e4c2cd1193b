-- ===== src/Tests/Names.antt =====
-- The names of services.
use managed_tokens.Base.{◌≡◌, refl, ◌<>◌}
use managed_tokens.ServiceName.{
  lines_of, match_line, match_first, alnum_prefix, last_split,
  extract_experiment_and_role_from_service_name,
}
use managed_tokens.ServiceName.Roundtrip.{extract_experiment_and_role}
use managed_tokens.Base.{nat_comparable}

with_underscores :
    extract_experiment_and_role_from_service_name "dune_fd_pro1" ≡ ("dune_fd", "pro1")
unfolding extract_experiment_and_role_from_service_name match_first match_line lines_of last_split
    alnum_prefix nat_comparable
with_underscores = refl

without_role : extract_experiment_and_role_from_service_name "dune" ≡ ("dune", "Analysis")
unfolding extract_experiment_and_role_from_service_name match_first match_line lines_of last_split
    alnum_prefix nat_comparable
without_role = refl

-- What follows the letters and digits of the role is dropped.
cut_role : extract_experiment_and_role_from_service_name "dune_pro-1" ≡ ("dune", "pro")
unfolding extract_experiment_and_role_from_service_name match_first match_line lines_of last_split
    alnum_prefix nat_comparable
cut_role = refl

-- The dot does not match a line break.
first_line_with_role : extract_experiment_and_role_from_service_name "du\nne_pro" ≡ ("ne", "pro")
unfolding extract_experiment_and_role_from_service_name match_first match_line lines_of last_split
    alnum_prefix nat_comparable
first_line_with_role = refl

extract_experiment_and_role_example :
    extract_experiment_and_role_from_service_name ("dune_fd" <> ("_" <> "pro1"))
    ≡ ("dune_fd", "pro1")
unfolding nat_comparable
extract_experiment_and_role_example = extract_experiment_and_role "d" "une_fd" "p" "ro1" refl refl
