-- ===== src/Examples/Version.antt =====
-- What is said of a build with settings from version control and no value from the linker.
use arkiv_storage_service.Base.{◌≡◌, true, List, [], ◌∷◌, some}
use arkiv_storage_service.Bytes.{codes, beq}
use arkiv_storage_service.Version.{
  Strings, Ldflags, Setting, BuildInfo, unknown, current, clean, parse_bool, short_commit,
  with_setting,
}
use arkiv_storage_service.Version.Preference.{current-first_known}
use arkiv_storage_service.Version.Short.{Shortens, current-Shortens}

-- for texts with nothing to trim and in lower case
abbrev plain_strings : Strings
plain_strings = record { trim_space = λ s. s; to_lower = λ s. s }

abbrev no_flags : Ldflags
no_flags = record { tag = unknown; commit = []; dirty = unknown; build_time = unknown }

abbrev vcs_settings : List Setting
vcs_settings =
    record { key = codes "vcs"; value = codes "git" }
    ∷ record { key = codes "vcs.revision"; value = codes "0123456789abcdef" }
    ∷ record { key = codes "vcs.modified"; value = codes "true" }
    ∷ []

abbrev vcs_build : BuildInfo
vcs_build = record { main_version = codes "(devel)"; settings = vcs_settings }

current-first_known_example :
    ((current plain_strings [] no_flags (some vcs_build)).commit ≡ codes "0123456789abcdef")
    × ((current plain_strings [] no_flags (some vcs_build)).build_time ≡ [])
    × ((current plain_strings [] no_flags (some vcs_build)).vcs_revision ≡ codes "0123456789abcdef")
    × ((current plain_strings [] no_flags (some vcs_build)).vcs_time ≡ [])
    × ((current plain_strings [] no_flags (some vcs_build)).dirty ≡ some true)
    × ((current plain_strings [] no_flags (some vcs_build)).vcs_modified ≡ some true)
unfolding clean parse_bool beq
current-first_known_example = current-first_known plain_strings [] no_flags (some vcs_build)

current-Shortens_example : Shortens (codes "0123456789ab") (codes "0123456789abcdef")
unfolding current with_setting clean parse_bool short_commit beq
current-Shortens_example = current-Shortens plain_strings [] no_flags (some vcs_build)
