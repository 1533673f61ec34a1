-- ===== src/Resources/Tests.antt =====
-- The limits and settings of a machine with two CPUs in its quota and 8 GiB of memory.
use partforge.Resources.Host.{detect_cgroup_cpu_set}
use partforge.Base.Scan.{fields, split_byte}
use partforge.Resources.Host.{read_optional_file}
use partforge.Resources.Host.{detect_cgroup_quota_cpus}
use partforge.Base.Strconv.{format_uint, parse_int}
use partforge.Base.{trim_space}
use partforge.Base.{
  Text, ℕ, ◌^◌, ◌*◌, ◌/◌, ◌≤◌, ◌≡◌, ◌⊎◌, refl, ok, err, some, none, codes, text_eq, if◌then◌else◌,
  arith,
}
use partforge.Base.Strconv.{parse_uint}
use partforge.Resources.Cgroup.{
  parse_cpu_set, parse_cgroup_v2_cpu_quota, parse_cgroup_v1_cpu_quota, parse_cgroup_memory_limit,
  quota_to_cpus, malformed_range, zero_memory,
}
use partforge.Resources.Host.{
  Read, Machine, Limits, contents, missing, detect_limits, host_memory_bytes,
}
use partforge.Resources.Host.Detected.{detect_limits-bounds}
use partforge.Resources.Budget.{
  MergeTreeSettings, InsertSettings, mebibyte, merge_tree_settings_for_limits,
  insert_select_settings,
}
use partforge.Resources.Budget.Bounds.{
  MergeBounds, merge_tree_settings_for_limits-bounds, insert_select_settings-reads,
}

abbrev files : Text → Read
files path =
    if text_eq path (codes "/proc/meminfo")
    then contents (codes "MemTotal: 8388608 kB")
    else if text_eq path (codes "/sys/fs/cgroup/cpu.max")
    then contents (codes "150000 100000")
    else missing

abbrev host : Machine
host = record { num_cpu = 4; file = files }

abbrev limits : Limits
limits = record { cpus = 2; memory_bytes = 8 * 2 ^ 30 }

detects : detect_limits host ≡ ok limits
unfolding detect_limits detect_cgroup_quota_cpus read_optional_file text_eq
    parse_cgroup_v2_cpu_quota fields parse_int quota_to_cpus detect_cgroup_cpu_set host_memory_bytes
    split_byte parse_uint
detects = refl

detect_limits-bounds_example :
    (memory : ℕ) × (host_memory_bytes host ≡ ok memory)
    × (1 ≤ 2)
    × (2 ≤ 4)
    × (1 ≤ 8 * 2 ^ 30)
    × (8 * 2 ^ 30 ≤ memory)
detect_limits-bounds_example = detect_limits-bounds host limits (omega arith) (omega arith) detects

abbrev merge_settings : MergeTreeSettings
merge_settings = record {
  merge_max_block_size = 262144;
  merge_max_block_size_bytes = 10 * mebibyte;
  merge_selecting_sleep_ms = 1000;
  merge_scheduling_policy = codes "round_robin";
  default_compression_codec = codes "ZSTD(5)";
  pool_free_entries_threshold = 1;
}

derives_merge : merge_tree_settings_for_limits limits ≡ ok merge_settings
unfolding merge_tree_settings_for_limits
derives_merge = refl

merge_tree_settings_for_limits-bounds_example : MergeBounds merge_settings
merge_tree_settings_for_limits-bounds_example =
    merge_tree_settings_for_limits-bounds limits merge_settings derives_merge

abbrev insert_settings : InsertSettings
insert_settings = record {
  max_threads = codes "1";
  max_insert_threads = codes "1";
  max_memory_usage = codes "6012954214";
}

derives_insert : insert_select_settings limits ≡ ok insert_settings
unfolding insert_select_settings format_uint
derives_insert = refl

insert_select_settings-reads_example :
    (threads : ℕ) × (usage : ℕ) × (parse_uint insert_settings.max_threads ≡ some threads)
    × (parse_uint insert_settings.max_insert_threads ≡ some threads)
    × (parse_uint insert_settings.max_memory_usage ≡ some usage)
    × (1 ≤ threads)
    × ((threads ≡ limits.cpus / 2) ⊎ ((limits.cpus ≡ 1) × (threads ≡ 1)))
    × (1 ≤ usage)
    × (100 * usage ≤ 70 * limits.memory_bytes)
insert_select_settings-reads_example =
    insert_select_settings-reads limits insert_settings derives_insert

reads_ranges : parse_cpu_set (codes "0-3, 8,,10-11") ≡ ok 7
unfolding parse_cpu_set split_byte trim_space parse_int
reads_ranges = refl

refuses_reversed : parse_cpu_set (codes "3-0") ≡ err malformed_range
unfolding parse_cpu_set split_byte trim_space parse_int
refuses_reversed = refl

refuses_zero_memory : parse_cgroup_memory_limit (codes "0") ≡ err zero_memory
unfolding parse_cgroup_memory_limit text_eq trim_space parse_uint
refuses_zero_memory = refl

reads_unlimited : parse_cgroup_v2_cpu_quota (codes "max 100000") ≡ ok none
unfolding parse_cgroup_v2_cpu_quota fields text_eq
reads_unlimited = refl

reads_v1_unlimited : parse_cgroup_v1_cpu_quota (codes "-1") (codes "100000") ≡ ok none
unfolding parse_cgroup_v1_cpu_quota parse_int trim_space
reads_v1_unlimited = refl

rounds_up : quota_to_cpus 250001 100000 ≡ ok 3
unfolding quota_to_cpus
rounds_up = refl
