-- ===== src/Extensions/Themes.antt =====
-- `themeOverrides` and `applyThemeVersion` of
-- backend/src/platform/extension-installations.service.ts. `style` is the text of the version's
-- style sheet in the object store, or empty where it has none.
pub mod Overriding
use wattanman.Base.{String, Option, none, some, str_eq, if◌then◌else◌, or_else}
use wattanman.Extensions.Types.{Theme, Overrides, Version}

abbrev pub no_overrides : Overrides
no_overrides = record {
  mode = none;
  primary_color = none;
  secondary_color = none;
  font = none;
  radius = none;
  custom_css = none;
}

abbrev override : String → String → Option String
override current applied = if str_eq current applied then none else some current

unfoldable pub theme_overrides : Option Theme → Option Theme → Overrides
theme_overrides (some current) (some applied) = record {
  mode = override current.mode applied.mode;
  primary_color = override current.primary_color applied.primary_color;
  secondary_color = override current.secondary_color applied.secondary_color;
  font = override current.font applied.font;
  radius = override current.radius applied.radius;
  custom_css = override current.custom_css applied.custom_css;
}
theme_overrides _ _ = no_overrides

-- `{ ...appliedTheme, ...overrides }`
unfoldable pub merge : Theme → Overrides → Theme
merge theme o = record {
  mode = or_else o.mode theme.mode;
  primary_color = or_else o.primary_color theme.primary_color;
  secondary_color = or_else o.secondary_color theme.secondary_color;
  font = or_else o.font theme.font;
  radius = or_else o.radius theme.radius;
  custom_css = or_else o.custom_css theme.custom_css;
}

-- The theme that is recorded as applied, and the site settings that are written.
unfoldable pub apply_theme_version :
    (style : Version → String) → Version → Overrides → Theme × Theme
apply_theme_version style version overrides =
    let applied = record version.theme { custom_css = style version } in
    (applied, merge applied overrides)
