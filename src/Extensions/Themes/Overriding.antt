-- ===== src/Extensions/Themes/Overriding.antt =====
-- A school's own theme settings survive a change of the theme's version.
use wattanman.Base.{String, ◌≡◌, some, arith, eq_iff, str_eq, if◌then◌else◌}
use wattanman.Extensions.Types.{Theme, Version}
use wattanman.Extensions.Themes.{theme_overrides, merge, apply_theme_version}

-- What becomes of a setting: the school's own value where it differs from the applied theme's.
abbrev pub carried : String → String → String → String
carried current applied new = if str_eq current applied then new else current

-- Applying a new version with the overrides of the current settings keeps each setting that the
-- school has changed, and takes each other from the new version.
pub apply_theme_version-theme_overrides :
    (style : Version → String) (current applied : Theme) (version : Version)
    → let (new, site) =
        apply_theme_version style version (theme_overrides (some current) (some applied)) in
      site ≡ record {
        mode = carried current.mode applied.mode new.mode;
        primary_color = carried current.primary_color applied.primary_color new.primary_color;
        secondary_color =
            carried current.secondary_color applied.secondary_color new.secondary_color;
        font = carried current.font applied.font new.font;
        radius = carried current.radius applied.radius new.radius;
        custom_css = carried current.custom_css applied.custom_css new.custom_css;
      }
unfolding apply_theme_version merge theme_overrides
apply_theme_version-theme_overrides style current applied version = ground arith

-- Merged into the theme that they were taken from, the overrides give the current settings back.
pub merge-theme_overrides :
    (current applied : Theme)
    → merge applied (theme_overrides (some current) (some applied)) ≡ current
unfolding merge theme_overrides
merge-theme_overrides current applied = ground (
  arith,
  eq_iff current.mode applied.mode,
  eq_iff current.primary_color applied.primary_color,
  eq_iff current.secondary_color applied.secondary_color,
  eq_iff current.font applied.font,
  eq_iff current.radius applied.radius,
  eq_iff current.custom_css applied.custom_css,
)
