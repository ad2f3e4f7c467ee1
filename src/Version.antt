-- ===== src/Version.antt =====
-- version/version.go: what the service says of the build that runs. Trimming and lower case are
-- the operations of Go's `strings`.
pub mod Settings
pub mod Preference
pub mod Short
use arkiv_storage_service.Base.{
  ℕ, Bool, true, false, ◌||◌, ◌&&◌, not, List, [], ◌∷◌, foldl, Option, none, some, if◌then◌else◌,
  leb, length, take,
}
use arkiv_storage_service.Bytes.{Bytes, codes, beq}

-- `strings.TrimSpace` and `strings.ToLower`
pub record Strings : Type 0 where
  pub trim_space : Bytes → Bytes
  pub to_lower : Bytes → Bytes

abbrev pub unknown : Bytes
unknown = codes "unknown"

-- the variables that the linker sets
pub record Ldflags : Type 0 where
  pub tag : Bytes
  pub commit : Bytes
  pub dirty : Bytes
  pub build_time : Bytes

-- A field that is omitted from the JSON when empty is the empty text.
pub record Info : Type 0 where
  pub tag : Bytes
  pub commit : Bytes
  pub commit_short : Bytes
  pub dirty : Option Bool
  pub build_time : Bytes
  pub go_version : Bytes
  pub module_version : Bytes
  pub vcs_revision : Bytes
  pub vcs_time : Bytes
  pub vcs_modified : Option Bool

-- `debug.BuildSetting`
pub record Setting : Type 0 where
  pub key : Bytes
  pub value : Bytes

-- `debug.BuildInfo`
pub record BuildInfo : Type 0 where
  pub main_version : Bytes
  pub settings : List Setting

abbrev pub or_unknown : Bytes → Bytes
or_unknown [] = unknown
or_unknown (c ∷ s) = c ∷ s

unfoldable pub clean : Strings → Bytes → Bytes
clean S value = or_unknown (S.trim_space value)

abbrev pub bool_word : Bytes → Option Bool
bool_word w =
    if beq w (codes "true") || beq w (codes "1") || beq w (codes "yes") || beq w (codes "dirty")
    then some true
    else if beq w (codes "false")
        || beq w (codes "0")
        || beq w (codes "no")
        || beq w (codes "clean")
    then some false
    else none

unfoldable pub parse_bool : Strings → Bytes → Option Bool
parse_bool S value = bool_word (S.to_lower (S.trim_space value))

abbrev pub first_twelve : Bytes → Bytes
first_twelve commit =
    if beq commit unknown
    then unknown
    else if leb (length commit) 12
    then commit
    else take 12 commit

unfoldable pub short_commit : Strings → Bytes → Bytes
short_commit S commit = first_twelve (clean S commit)

-- `if info.X == unknown { info.X = v }`
abbrev pub known_or : Bytes → Bytes → Bytes
known_or old v = if beq old unknown then v else old

abbrev pub set_or : Option Bool → Option Bool → Option Bool
set_or none v = v
set_or (some b) v = some b

-- the case "vcs.modified"
abbrev pub with_modified : Info → Option Bool → Info
with_modified info none = info
with_modified info (some modified) = record info {
  vcs_modified = some modified;
  dirty = set_or info.dirty (some modified);
}

unfoldable pub with_setting : Strings → Info → Setting → Info
with_setting S info s =
    if beq s.key (codes "vcs.revision")
    then record info { vcs_revision = s.value; commit = known_or info.commit s.value }
    else if beq s.key (codes "vcs.time")
    then record info { vcs_time = s.value; build_time = known_or info.build_time s.value }
    else if beq s.key (codes "vcs.modified")
    then with_modified info (parse_bool S s.value)
    else info

abbrev pub with_module : Info → Bytes → Info
with_module info v =
    if not (beq v []) && not (beq v (codes "(devel)"))
    then record info { module_version = v; tag = known_or info.tag v }
    else info

-- `debug.ReadBuildInfo` may have nothing to say.
abbrev pub with_build : Strings → Info → Option BuildInfo → Info
with_build S info none = info
with_build S info (some b) = foldl (with_setting S) (with_module info b.main_version) b.settings

abbrev pub empty_if_unknown : Bytes → Bytes
empty_if_unknown s = if beq s unknown then [] else s

abbrev pub finished : Strings → Info → Info
finished S info = record info {
  commit_short = empty_if_unknown (short_commit S info.commit);
  build_time = empty_if_unknown info.build_time;
}

abbrev pub from_flags : Strings → Bytes → Ldflags → Info
from_flags S runtime_version l = record {
  tag = clean S l.tag;
  commit = clean S l.commit;
  commit_short = [];
  dirty = parse_bool S l.dirty;
  build_time = clean S l.build_time;
  go_version = runtime_version;
  module_version = [];
  vcs_revision = [];
  vcs_time = [];
  vcs_modified = none;
}

-- `runtime_version` is what `runtime.Version` returns.
unfoldable pub current : Strings → Bytes → Ldflags → Option BuildInfo → Info
current S runtime_version l b = finished S (with_build S (from_flags S runtime_version l) b)
