-- ===== src/Worker/Config/Extras.antt =====
-- internal/worker/supportedExtrasKey.go: the extra values, and their getters. A getter returns its
-- value and whether the stored value has the expected type.
use managed_tokens.Base.{String, Bool, true, false, Option, none, some, List, [], ◌∷◌}
use managed_tokens.Worker.Config.{
  SupportedExtrasKey, default_role_file_destination_template, file_copier_options, ping_options,
  ssh_options, Value, text, texts, Config,
}

same_key : SupportedExtrasKey → SupportedExtrasKey → Bool
same_key default_role_file_destination_template default_role_file_destination_template = true
same_key file_copier_options file_copier_options = true
same_key ping_options ping_options = true
same_key ssh_options ssh_options = true
same_key _ _ = false

-- The option of SetSupportedExtrasKeyValue.
unfoldable pub set_supported_extras_key_value : SupportedExtrasKey → Value → Config → Config
unfolding same_key
set_supported_extras_key_value key v c = record c {
  extras = λ k. elim (same_key k key) [ true ↦ some v | false ↦ c.extras k ];
}

abbrev as_text : Option Value → String × Bool
as_text (some (text s)) = (s, true)
as_text _ = ("", false)

abbrev as_texts : List String → Option Value → List String × Bool
as_texts default none = (default, true)
as_texts default (some (texts l)) = (l, true)
as_texts default (some _) = ([], false)

-- GetDefaultRoleFileDestinationTemplateValueFromExtras
abbrev pub get_default_role_file_destination_template : Config → String × Bool
get_default_role_file_destination_template c =
    as_text (c.extras default_role_file_destination_template)

abbrev pub default_file_copier_opts : List String
default_file_copier_opts = "--perms" ∷ "--chmod=u=r,go=" ∷ []

-- GetFileCopierOptionsFromExtras
abbrev pub get_file_copier_options_from_extras : Config → List String × Bool
get_file_copier_options_from_extras c =
    as_texts default_file_copier_opts (c.extras file_copier_options)

-- GetPingOptionsFromExtras
abbrev pub get_ping_options_from_extras : Config → List String × Bool
get_ping_options_from_extras c = as_texts [] (c.extras ping_options)

-- GetSSHOptionsFromExtras
abbrev pub get_ssh_options_from_extras : Config → List String × Bool
get_ssh_options_from_extras c = as_texts [] (c.extras ssh_options)
