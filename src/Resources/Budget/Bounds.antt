-- ===== src/Resources/Budget/Bounds.antt =====
-- internal/resources/tuning.go: the bounds of the derived settings.
use partforge.Base.{
  guard-ok, ℕ, true, ok, ◌>>◌, guard, >>-eq-ok, not, ◌==◌, ◌*◌, ◌/◌, ◌%◌, ◌^◌, ◌≤◌, ◌<◌, ◌≡◌, ◌∙◌,
  sym, refl, ◌⊎◌, inl, inr, ltb, Bool-cases, subst, ap, arith, some,
}
use partforge.Base.Strconv.{format_uint, parse_uint, parse_uint-format_uint}
use partforge.Resources.Cgroup.{derived_zero}
use partforge.Resources.Host.{Limits}
use partforge.Resources.Budget.{
  InsertSettings, insert_thread_count, percent_of, check_limits, insert_select_settings,
  clamp_uint_64, round_down_to_multiple, MergeTreeSettings, mebibyte, least, block_bytes,
  block_rows, merge_share, merge_tree_settings, merge_tree_settings_for_limits,
}

clamp-bounds :
    (value low high : ℕ)
    → low ≤ high
    → (low ≤ clamp_uint_64 value low high) × (clamp_uint_64 value low high ≤ high)
unfolding clamp_uint_64
clamp-bounds value low high order = ground arith

round_down_mebibytes :
    (value : ℕ)
    → 4 * mebibyte ≤ value
    → value ≤ 256 * mebibyte
    → let rounded = round_down_to_multiple value mebibyte in
      (4 * mebibyte ≤ rounded) × (rounded ≤ 256 * mebibyte) × (rounded % mebibyte ≡ 0)
unfolding round_down_to_multiple
round_down_mebibytes value low high = ground arith

round_down_rows :
    (value : ℕ)
    → 8192 ≤ value
    → value ≤ 262144
    → let rounded = round_down_to_multiple value 8192 in
      (8192 ≤ rounded) × (rounded ≤ 262144) × (rounded % 8192 ≡ 0)
unfolding round_down_to_multiple
round_down_rows value low high = ground arith

block_bytes-bounds :
    (share : ℕ)
    → (4 * mebibyte ≤ block_bytes share)
      × (block_bytes share ≤ 256 * mebibyte)
      × (block_bytes share % mebibyte ≡ 0)
unfolding block_bytes
block_bytes-bounds share =
    let (low, high) = clamp-bounds share (4 * mebibyte) (256 * mebibyte) (omega arith) in
    round_down_mebibytes (clamp_uint_64 share (4 * mebibyte) (256 * mebibyte)) low high

block_rows-bounds :
    (bytes : ℕ)
    → (8192 ≤ block_rows bytes) × (block_rows bytes ≤ 262144) × (block_rows bytes % 8192 ≡ 0)
unfolding block_rows
block_rows-bounds bytes =
    let (low, high) = clamp-bounds (bytes / 1024) 8192 262144 (omega arith) in
    round_down_rows (clamp_uint_64 (bytes / 1024) 8192 262144) low high

-- From 4 to 10 MiB in whole MiB, and from 8192 to 262144 rows in multiples of 8192.
abbrev pub MergeBounds : MergeTreeSettings → Type 0
MergeBounds s =
    (4 * mebibyte ≤ s.merge_max_block_size_bytes)
    × (s.merge_max_block_size_bytes ≤ 10 * mebibyte)
    × (s.merge_max_block_size_bytes % mebibyte ≡ 0)
    × (8192 ≤ s.merge_max_block_size)
    × (s.merge_max_block_size ≤ 262144)
    × (s.merge_max_block_size % 8192 ≡ 0)

merge_tree_settings-bounds :
    (bytes : ℕ)
    → 4 * mebibyte ≤ bytes
    → bytes % mebibyte ≡ 0
    → MergeBounds (merge_tree_settings bytes)
unfolding merge_tree_settings least
merge_tree_settings-bounds bytes low whole =
    let (rows_low, rows_high, rows_whole) = block_rows-bounds bytes in
    (ground arith, ground arith, ground arith, rows_low, rows_high, rows_whole)

-- The settings of merges, once they are derived: a block has from 4 to 10 MiB in whole MiB, and
-- from 8192 to 262144 rows in multiples of 8192.
pub merge_tree_settings_for_limits-bounds :
    (limits : Limits) (s : MergeTreeSettings)
    → merge_tree_settings_for_limits limits ≡ ok s
    → MergeBounds s
unfolding merge_tree_settings_for_limits
merge_tree_settings_for_limits-bounds limits s derived =
    let bytes : ℕ = block_bytes (merge_share limits) in
    let (_, checked) =
      >>-eq-ok (check_limits limits >> guard (not (merge_share limits == 0)) derived_zero) _
        derived in
    let (low, high, whole) = block_bytes-bounds (merge_share limits) in
    let same : merge_tree_settings bytes ≡ s = cc checked in
    subst MergeBounds same (merge_tree_settings-bounds bytes low whole)

insert_thread_count-bounds :
    (cpus : ℕ)
    → 1 ≤ cpus
    → (1 ≤ insert_thread_count cpus)
      × ((insert_thread_count cpus ≡ cpus / 2) ⊎ ((cpus ≡ 1) × (insert_thread_count cpus ≡ 1)))
      × (insert_thread_count cpus ≤ cpus)
unfolding insert_thread_count
insert_thread_count-bounds cpus some_cpu = elim (Bool-cases (ltb (cpus / 2) 1)) [
  | inl e ↦ rw e (omega arith, inr (ground arith, refl), some_cpu)
  | inr e ↦ rw e (ground arith, inl refl, omega arith)
]

percent_of-bounds :
    (memory : ℕ) → (percent_of 70 memory < 2 ^ 64) × (100 * percent_of 70 memory ≤ 70 * memory)
unfolding percent_of
percent_of-bounds memory = (omega arith, omega arith)

check_limits-ok :
    (limits : Limits)
    → check_limits limits ≡ ok tt
    → (1 ≤ limits.cpus) × (limits.cpus < 2 ^ 63) × (1 ≤ limits.memory_bytes)
unfolding check_limits
check_limits-ok limits checked = ground arith

-- What ClickHouse reads in the settings of an insert, once they are derived, is the number of threads,
-- which is half of the CPUs rounded down, or one for a single CPU, and a positive part of at most 70
-- percent of the memory.
pub insert_select_settings-reads :
    (limits : Limits) (s : InsertSettings)
    → insert_select_settings limits ≡ ok s
    → (threads : ℕ) × (usage : ℕ) × (parse_uint s.max_threads ≡ some threads)
      × (parse_uint s.max_insert_threads ≡ some threads)
      × (parse_uint s.max_memory_usage ≡ some usage)
      × (1 ≤ threads)
      × ((threads ≡ limits.cpus / 2) ⊎ ((limits.cpus ≡ 1) × (threads ≡ 1)))
      × (1 ≤ usage)
      × (100 * usage ≤ 70 * limits.memory_bytes)
unfolding insert_select_settings
insert_select_settings-reads limits s derived =
    let usage : ℕ = percent_of 70 limits.memory_bytes in
    let threads : ℕ = insert_thread_count limits.cpus in
    let (passed, same) =
      >>-eq-ok (check_limits limits >> guard (not (usage == 0)) derived_zero) _ derived in
    let (checked, used) =
      >>-eq-ok (check_limits limits) (guard (not (usage == 0)) derived_zero) passed in
    let (some_cpu, few_cpus, _) = check_limits-ok limits checked in
    let (one, half, fewer) = insert_thread_count-bounds limits.cpus some_cpu in
    let (small, part) = percent_of-bounds limits.memory_bytes in
    let positive : not (usage == 0) ≡ true = guard-ok _ _ used in
    let reads : parse_uint (format_uint threads) ≡ some threads =
      parse_uint-format_uint threads (omega arith) in
    let reads_usage : parse_uint (format_uint usage) ≡ some usage =
      parse_uint-format_uint usage small in
    let settings : InsertSettings = record {
      max_threads = format_uint threads;
      max_insert_threads = format_uint threads;
      max_memory_usage = format_uint usage;
    } in
    let given : settings ≡ s = cc same in
    (
      threads,
      usage,
      ap (λ (x : InsertSettings). parse_uint x.max_threads) (sym given) ∙ reads,
      ap (λ (x : InsertSettings). parse_uint x.max_insert_threads) (sym given) ∙ reads,
      ap (λ (x : InsertSettings). parse_uint x.max_memory_usage) (sym given) ∙ reads_usage,
      one,
      half,
      ground (arith, positive),
      part,
    )
