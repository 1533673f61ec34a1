-- ===== src/State/Import.antt =====
-- The import stage of internal/state/postgres.go: finished parts are attached on the destination,
-- `transition` with its uses, and the release of an import.
use partforge.Base.{Text, ℕ, [], Bool, Option, none, some, Result, err}
use partforge.State.Part.{Part, Clock, Error, Status, is, cause_required, set_status}
use partforge.State.Table.{Table, update_part}

abbrev pub has_status : Status → Part → Bool
has_status s p = is p.status s

unfoldable pub importing_part : Clock → ℕ → Part → Part
unfolding set_status
importing_part c now current =
    let p = set_status c current Status.importing now in
    record p { importing_at = c.format now; error = [] }

unfoldable pub mark_importing : Clock → Part → ℕ → Table → Result Error Table
mark_importing c p now t =
    update_part c p.job_id p.part_id (has_status Status.finished) (importing_part c now) t

unfoldable pub imported_part : Clock → ℕ → Part → Part
unfolding set_status
imported_part c now current =
    let p = set_status c current Status.imported now in
    record p { imported_at = c.format now; error = [] }

unfoldable pub mark_imported : Clock → Part → ℕ → Table → Result Error Table
mark_imported c p now t =
    update_part c p.job_id p.part_id (has_status Status.importing) (imported_part c now) t

unfoldable pub unimported_part : Clock → ℕ → Part → Part
unfolding set_status
unimported_part c now current =
    let p = set_status c current Status.finished now in record p { importing_at = []; error = [] }

unfoldable pub release_import : Clock → Part → ℕ → Table → Result Error Table
release_import c p now t =
    update_part c p.job_id p.part_id (has_status Status.importing) (unimported_part c now) t

unfoldable pub import_failed_part : Clock → Text → ℕ → Part → Part
unfolding set_status
import_failed_part c cause now current =
    let p = set_status c current Status.failed now in
    record p { failed_at = c.format now; error = cause }

unfoldable pub mark_import_failed : Clock → Part → Option Text → ℕ → Table → Result Error Table
mark_import_failed c p none now t = err cause_required
mark_import_failed c p (some cause) now t =
    update_part c p.job_id p.part_id (has_status Status.importing) (import_failed_part c cause now)
      t
