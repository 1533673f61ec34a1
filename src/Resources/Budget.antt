-- ===== src/Resources/Budget.antt =====
-- internal/resources/tuning.go: the settings of inserts and merges that follow from the limits.
pub mod Bounds
use partforge.Base.{
  guard-ok, Text, ℕ, true, Result, ok, ◌>>◌, guard, >>-eq-ok, if◌then◌else◌, not, ltb, ◌==◌, ◌+◌,
  ◌*◌, ◌/◌, ◌%◌, ◌^◌, ◌≤◌, ◌<◌, codes, ◌≡◌, ◌∙◌, sym, subst, ap, arith, some,
}
use partforge.Base.Strconv.{
  format_uint, parse_uint, parse_uint-format_uint, not_positive, word_size,
}
use partforge.Resources.Cgroup.{TuningError, no_cpus, no_memory, derived_zero}
use partforge.Resources.Host.{Limits}

-- The map of `chhttp.QuerySettings` by its three keys.
pub record InsertSettings : Type 0 where
  pub max_threads : Text
  pub max_insert_threads : Text
  pub max_memory_usage : Text

unfoldable pub insert_thread_count : ℕ → ℕ
insert_thread_count cpus = if ltb (cpus / 2) 1 then 1 else cpus / 2

-- `limits.MemoryBytes * percent / 100` on `uint64`.
unfoldable pub percent_of : ℕ → ℕ → ℕ
percent_of percent memory = (memory * percent) % word_size / 100

-- The two checks that both settings begin with.
unfoldable pub check_limits : Limits → Result TuningError (Unit {0})
check_limits limits =
    guard (not (not_positive limits.cpus)) no_cpus
    >> guard (not (limits.memory_bytes == 0)) no_memory

unfoldable pub insert_select_settings : Limits → Result TuningError InsertSettings
unfolding check_limits percent_of insert_thread_count
insert_select_settings limits =
    let usage = percent_of 70 limits.memory_bytes in
    let threads = format_uint (insert_thread_count limits.cpus) in
    check_limits limits
    >> guard (not (usage == 0)) derived_zero
    >> ok (record {
      max_threads = threads;
      max_insert_threads = threads;
      max_memory_usage = format_uint usage;
    })

unfoldable pub clamp_uint_64 : ℕ → ℕ → ℕ → ℕ
clamp_uint_64 value low high = if ltb value low then low else if ltb high value then high else value

unfoldable pub round_down_to_multiple : ℕ → ℕ → ℕ
round_down_to_multiple value multiple =
    let rounded = value / multiple * multiple in
    if multiple == 0 then value else if rounded == 0 then multiple else rounded

pub record MergeTreeSettings : Type 0 where
  pub merge_max_block_size : ℕ
  pub merge_max_block_size_bytes : ℕ
  pub merge_selecting_sleep_ms : ℕ
  pub merge_scheduling_policy : Text
  pub default_compression_codec : Text
  pub pool_free_entries_threshold : ℕ

abbrev pub mebibyte : ℕ
mebibyte = 1024 * 1024

unfoldable pub least : ℕ → ℕ → ℕ
least a b = if ltb a b then a else b

-- The bytes of a merged block before the default caps them.
unfoldable pub block_bytes : ℕ → ℕ
unfolding clamp_uint_64 round_down_to_multiple
block_bytes share =
    round_down_to_multiple (clamp_uint_64 share (4 * mebibyte) (256 * mebibyte)) mebibyte

unfoldable pub block_rows : ℕ → ℕ
unfolding clamp_uint_64 round_down_to_multiple
block_rows bytes = round_down_to_multiple (clamp_uint_64 (bytes / 1024) 8192 262144) 8192

-- The share of one of the eight concurrent merges of a CPU in the budget of the merges.
unfoldable pub merge_share : Limits → ℕ
unfolding percent_of
merge_share limits = percent_of 60 limits.memory_bytes / limits.cpus / 8

unfoldable pub merge_tree_settings : ℕ → MergeTreeSettings
unfolding block_rows least
merge_tree_settings bytes = record {
  merge_max_block_size = block_rows bytes;
  merge_max_block_size_bytes = least bytes (10 * mebibyte);
  merge_selecting_sleep_ms = 1000;
  merge_scheduling_policy = codes "round_robin";
  default_compression_codec = codes "ZSTD(5)";
  pool_free_entries_threshold = 1;
}

unfoldable pub merge_tree_settings_for_limits : Limits → Result TuningError MergeTreeSettings
unfolding check_limits merge_share block_bytes merge_tree_settings
merge_tree_settings_for_limits limits =
    check_limits limits
    >> guard (not (merge_share limits == 0)) derived_zero
    >> ok (merge_tree_settings (block_bytes (merge_share limits)))
