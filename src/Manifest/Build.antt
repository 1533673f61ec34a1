-- ===== src/Manifest/Build.antt =====
-- `ResolveClickHouseBuild` of internal/manifest/manifest.go: the ClickHouse builds a job may name.
use partforge.Base.{Text, [], codes, text_eq, Result, ok, err, if◌then◌else◌, ◌||◌}

-- The messages of the type `Error` that the resolver returns.
pub data BuildError : Type 0 where
  unknown_build : BuildError

abbrev pub default_build : Text
default_build = codes "26.6"

abbrev pub posthog_build : Text
posthog_build = codes "26.9-posthog"

unfoldable pub resolve_click_house_build : Text → Result BuildError Text
resolve_click_house_build build =
    if text_eq build [] || text_eq build default_build
    then ok default_build
    else if text_eq build posthog_build
    then ok build
    else err unknown_build
