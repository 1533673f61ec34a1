-- ===== src/State/Table.antt =====
-- The table of parts with its primary key, and the statements that the transactions of
-- internal/state/postgres.go share: `insertPartTx`, `savePartTx`, `readPartTx` and `updatePart`.
-- A transaction that returns an error has no effect; see `commit`.
pub mod Laws
pub mod Find
pub mod Rows
pub mod Update
use partforge.Base.{
  Text, ℕ, suc, ◌+◌, List, [], ◌∷◌, ◌++◌, Bool, true, false, ◌&&◌, Option, none, some, ◌==◌,
  if◌then◌else◌, text_eq, Result, ok, err, ◌>>=◌, ◌>>◌, guard, or_fail,
}
use partforge.State.Part.{Part, Clock, Error, conditional, duplicate_key, validate_part}
use partforge.State.Row.{Row, part_write_values}

abbrev pub Table : Type 0
Table = List Row

unfoldable pub same_key : Text → Text → Row → Bool
same_key job part r = text_eq r.job_id job && text_eq r.part_id part

-- `WHERE job_id = … AND part_id = …`
unfoldable pub find : Text → Text → Table → Option Row
find job part [] = none
find job part (r ∷ t) = if same_key job part r then some r else find job part t

-- How many rows an update of one key touches.
unfoldable pub affected : Text → Text → Table → ℕ
affected job part [] = 0
affected job part (r ∷ t) = (if same_key job part r then 1 else 0) + affected job part t

-- Every row of the key of `r` becomes `r`.
unfoldable pub replace : Row → Table → Table
replace r [] = []
replace r (s ∷ t) = (if same_key r.job_id r.part_id s then r else s) ∷ replace r t

unfoldable pub insert_part : Clock → Part → Table → Result Error Table
insert_part c p t = do
  r ← part_write_values c p
  guard (affected r.job_id r.part_id t == 0) duplicate_key
  ok (t ++ (r ∷ []))

unfoldable pub save_part : Clock → Part → Table → Result Error Table
save_part c p t = do
  r ← part_write_values c p
  guard (affected r.job_id r.part_id t == 1) conditional
  ok (replace r t)

unfoldable pub read_part : Text → Text → Table → Result Error Part
read_part job part t = do
  r ← or_fail (find job part t) conditional
  validate_part r.data_part
  ok r.data_part

-- Reads the row, tests it, changes it and writes it back.
unfoldable pub update_part :
    Clock → Text → Text → (Part → Bool) → (Part → Part) → Table → Result Error Table
update_part c job part condition mutate t = do
  current ← read_part job part t
  guard (condition current) conditional
  save_part c (mutate current) t

-- A failed transaction is rolled back.
abbrev pub commit : Table → Result Error Table → Table
commit t (ok t') = t'
commit t (err _) = t
