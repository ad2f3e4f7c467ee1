-- ===== src/Version/Preference.antt =====
-- The build's description, against a description of each field on its own.
use arkiv_storage_service.Base.{
  ◌≡◌, refl, ap, ◌∙◌, inl, inr, List, [], ◌∷◌, Option, none, some, Bool-cases, not, ◌&&◌,
}
use arkiv_storage_service.Bytes.{Bytes, codes, beq}
use arkiv_storage_service.Version.{
  Strings, Setting, Info, BuildInfo, Ldflags, known_or, set_or, current, clean, with_build,
  with_module, from_flags, empty_if_unknown,
}
use arkiv_storage_service.Version.Settings.{
  values_of, first_known, last_or, first_bool, last_bool, set_or-none, foldl-texts, foldl-truths,
}

with_module-others :
    (info : Info) (v : Bytes)
    → ((with_module info v).commit ≡ info.commit)
      × ((with_module info v).build_time ≡ info.build_time)
      × ((with_module info v).vcs_revision ≡ info.vcs_revision)
      × ((with_module info v).vcs_time ≡ info.vcs_time)
      × ((with_module info v).dirty ≡ info.dirty)
      × ((with_module info v).vcs_modified ≡ info.vcs_modified)
with_module-others info v = elim (Bool-cases (not (beq v []) && not (beq v (codes "(devel)")))) [
  | inl e ↦ rw e (refl, refl, refl, refl, refl, refl)
  | inr e ↦ rw e (refl, refl, refl, refl, refl, refl)
]

abbrev pub settings_of : Option BuildInfo → List Setting
settings_of none = []
settings_of (some b) = b.settings

with_build-fields :
    (S : Strings) (info : Info) (b : Option BuildInfo)
    → ((with_build S info b).commit
        ≡ known_or info.commit (first_known (values_of (codes "vcs.revision") (settings_of b))))
      × ((with_build S info b).build_time
          ≡ known_or info.build_time (first_known (values_of (codes "vcs.time") (settings_of b))))
      × ((with_build S info b).vcs_revision
          ≡ last_or info.vcs_revision (values_of (codes "vcs.revision") (settings_of b)))
      × ((with_build S info b).vcs_time
          ≡ last_or info.vcs_time (values_of (codes "vcs.time") (settings_of b)))
      × ((with_build S info b).dirty
          ≡ set_or info.dirty (first_bool S (values_of (codes "vcs.modified") (settings_of b))))
      × ((with_build S info b).vcs_modified
          ≡ set_or
              (last_bool S (values_of (codes "vcs.modified") (settings_of b)))
              info.vcs_modified)
with_build-fields S info none =
    let (c, b, r, t) = foldl-texts S info [] in
    let (d, m) = foldl-truths S info [] in (c, b, r, t, d, m)
with_build-fields S info (some b) =
    let (c, u, r, t) = foldl-texts S (with_module info b.main_version) b.settings in
    let (d, m) = foldl-truths S (with_module info b.main_version) b.settings in
    let (c₁, u₁, r₁, t₁, d₁, m₁) = with_module-others info b.main_version in
    let truths = values_of (codes "vcs.modified") b.settings in
    (
      c ∙ ap (λ o. known_or o (first_known (values_of (codes "vcs.revision") b.settings))) c₁,
      u ∙ ap (λ o. known_or o (first_known (values_of (codes "vcs.time") b.settings))) u₁,
      r ∙ ap (λ o. last_or o (values_of (codes "vcs.revision") b.settings)) r₁,
      t ∙ ap (λ o. last_or o (values_of (codes "vcs.time") b.settings)) t₁,
      d ∙ ap (λ o. set_or o (first_bool S truths)) d₁,
      m ∙ ap (set_or (last_bool S truths)) m₁,
    )

-- The commit and the time of the build are the first known among the linker's value and the
-- build's settings of the matching key, in their order, and an unknown time is left out. The
-- revision and the time from version control are the last such settings. The mark of a dirty
-- build is the first that reads as a truth value among the linker's value and the settings, and
-- that from version control is the last of the settings that does.
pub current-first_known :
    (S : Strings) (runtime_version : Bytes) (l : Ldflags) (b : Option BuildInfo)
    → ((current S runtime_version l b).commit
        ≡ first_known (clean S l.commit ∷ values_of (codes "vcs.revision") (settings_of b)))
      × ((current S runtime_version l b).build_time
          ≡ empty_if_unknown
              (first_known (clean S l.build_time ∷ values_of (codes "vcs.time") (settings_of b))))
      × ((current S runtime_version l b).vcs_revision
          ≡ last_or [] (values_of (codes "vcs.revision") (settings_of b)))
      × ((current S runtime_version l b).vcs_time
          ≡ last_or [] (values_of (codes "vcs.time") (settings_of b)))
      × ((current S runtime_version l b).dirty
          ≡ first_bool S (l.dirty ∷ values_of (codes "vcs.modified") (settings_of b)))
      × ((current S runtime_version l b).vcs_modified
          ≡ last_bool S (values_of (codes "vcs.modified") (settings_of b)))
unfolding current
current-first_known S runtime_version l b =
    let (c, u, r, t, d, m) = with_build-fields S (from_flags S runtime_version l) b in
    (c, ap empty_if_unknown u, r, t, d, m ∙ set_or-none _)
