-- ===== src/Insert/Tests.antt =====
-- The theorems about inserts at concrete numbers.
use partforge.Base.{suc, ◌≤◌}
use partforge.Insert.Chunks.{insert_ranges, Tiles, insert_ranges-Tiles}
use partforge.Insert.Retries.{insert_select_retry_backoff, insert_select_retry_backoff-bounds}

insert_ranges-Tiles_example : Tiles 0 (insert_ranges 35 10).0 35
insert_ranges-Tiles_example = insert_ranges-Tiles 35 10

insert_select_retry_backoff-bounds_example :
    (1 ≤ insert_select_retry_backoff 3)
    × (insert_select_retry_backoff 3 ≤ 10)
    × (insert_select_retry_backoff 3 ≤ insert_select_retry_backoff (suc 3))
insert_select_retry_backoff-bounds_example = insert_select_retry_backoff-bounds 3
