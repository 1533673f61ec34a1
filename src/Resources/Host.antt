-- ===== src/Resources/Host.antt =====
-- internal/resources/tuning.go: the limits of the machine and of its control group, from their files.
pub mod Detected
use partforge.Base.{
  Text, ℕ, List, [], ◌∷◌, Bool, true, false, Option, none, some, Result, ok, err, or_fail, ◌>>=◌,
  if◌then◌else◌, ◌&&◌, ◌||◌, ltb, ◌==◌, ◌*◌, ◌%◌, codes, text_eq, is_blank,
}
use partforge.Base.Scan.{fields, split_byte}
use partforge.Base.Strconv.{parse_uint, not_positive, word_size}
use partforge.Resources.Cgroup.{
  TuningError, unreadable_file, incomplete_quota, malformed_memory, no_cpu_count, no_memory_total,
  no_memory, parse_cgroup_v2_cpu_quota, parse_cgroup_v1_cpu_quota, parse_cpu_set,
  parse_cgroup_memory_limit,
}

-- What `os.ReadFile` does with a path.
pub data Read : Type 0 where
  contents : Text → Read
  missing : Read
  failed : Read

-- The machine: `runtime.NumCPU()` and the files under /sys and /proc.
pub record Machine : Type 0 where
  pub num_cpu : ℕ
  pub file : Text → Read

pub record Limits : Type 0 where
  pub cpus : ℕ
  pub memory_bytes : ℕ

unfoldable pub optional_file : Read → Result TuningError (Option Text)
optional_file (contents raw) = ok (some raw)
optional_file missing = ok none
optional_file failed = err unreadable_file

unfoldable pub read_optional_file : Machine → Text → Result TuningError (Option Text)
unfolding optional_file
read_optional_file machine path = optional_file (machine.file path)

v1_quota : Option Text → Option Text → Result TuningError (Option ℕ)
v1_quota none none = ok none
v1_quota none (some _) = err incomplete_quota
v1_quota (some _) none = err incomplete_quota
v1_quota (some quota) (some period) = parse_cgroup_v1_cpu_quota quota period

quota_by : Machine → Option Text → Result TuningError (Option ℕ)
unfolding v1_quota
quota_by machine (some raw) = parse_cgroup_v2_cpu_quota raw
quota_by machine none =
    read_optional_file machine (codes "/sys/fs/cgroup/cpu/cpu.cfs_quota_us") >>= λ quota.
    read_optional_file machine (codes "/sys/fs/cgroup/cpu/cpu.cfs_period_us") >>= λ period.
    v1_quota quota period

unfoldable pub detect_cgroup_quota_cpus : Machine → Result TuningError (Option ℕ)
unfolding quota_by
detect_cgroup_quota_cpus machine =
    read_optional_file machine (codes "/sys/fs/cgroup/cpu.max") >>= quota_by machine

cpu_set_or : Option Text → Result TuningError (Option ℕ) → Result TuningError (Option ℕ)
cpu_set_or none later = later
cpu_set_or (some raw) later =
    if is_blank raw then later else parse_cpu_set raw >>= λ count. ok (some count)

-- The first file that is there and not blank decides.
first_cpu_set : Machine → List Text → Result TuningError (Option ℕ)
unfolding cpu_set_or
first_cpu_set machine [] = ok none
first_cpu_set machine (path ∷ paths) =
    let later = first_cpu_set machine paths in
    read_optional_file machine path >>= λ found. cpu_set_or found later

unfoldable pub detect_cgroup_cpu_set : Machine → Result TuningError (Option ℕ)
unfolding first_cpu_set
detect_cgroup_cpu_set machine = first_cpu_set machine (
    codes "/sys/fs/cgroup/cpuset.cpus.effective"
    ∷ codes "/sys/fs/cgroup/cpuset.cpus"
    ∷ codes "/sys/fs/cgroup/cpuset/cpuset.cpus"
    ∷ [])

unfoldable pub with_candidate : Option ℕ → List ℕ → List ℕ
with_candidate none candidates = candidates
with_candidate (some n) candidates = n ∷ candidates

-- The least candidate that is positive as a signed number, or 0.
unfoldable pub least_cpus : ℕ → List ℕ → ℕ
least_cpus cpus [] = cpus
least_cpus cpus (candidate ∷ candidates) =
    let kept = least_cpus cpus candidates in
    let taken = least_cpus candidate candidates in
    if not_positive candidate then kept else if cpus == 0 || ltb candidate cpus then taken else kept

unfoldable pub detect_cpus : Machine → Result TuningError ℕ
unfolding least_cpus with_candidate
detect_cpus machine = detect_cgroup_quota_cpus machine >>= λ quota.
    detect_cgroup_cpu_set machine >>= λ cpu_set.
    let cpus = least_cpus 0 (machine.num_cpu ∷ with_candidate quota (with_candidate cpu_set [])) in
    if cpus == 0 then err no_cpu_count else ok cpus

mem_total : List Text → Option Text
mem_total (name ∷ value ∷ _ ∷ _) = if text_eq name (codes "MemTotal:") then some value else none
mem_total _ = none

memory_of : Option Text → Result TuningError ℕ → Result TuningError ℕ
memory_of none later = later
memory_of (some value) later =
    or_fail (parse_uint value) malformed_memory >>= λ kb. ok ((kb * 1024) % word_size)

memory_in : List Text → Result TuningError ℕ
unfolding mem_total memory_of
memory_in [] = err no_memory_total
memory_in (line ∷ lines) = let later = memory_in lines in memory_of (mem_total (fields line)) later

whole_file : Read → Result TuningError Text
whole_file (contents raw) = ok raw
whole_file _ = err unreadable_file

unfoldable pub host_memory_bytes : Machine → Result TuningError ℕ
unfolding whole_file memory_in
host_memory_bytes machine =
    whole_file (machine.file (codes "/proc/meminfo")) >>= λ raw. memory_in (split_byte 10 raw)

unfoldable pub lower_limit : ℕ → Option ℕ → ℕ
lower_limit memory none = memory
lower_limit memory (some limit) = if ltb limit memory then limit else memory

unfoldable pub limited_by : ℕ → Option Text → Result TuningError ℕ
unfolding lower_limit
limited_by memory none = ok memory
limited_by memory (some raw) =
    parse_cgroup_memory_limit raw >>= λ limit. ok (lower_limit memory limit)

unfoldable pub detect_memory_bytes : Machine → Result TuningError ℕ
unfolding limited_by
detect_memory_bytes machine = host_memory_bytes machine >>= λ host.
    read_optional_file machine (codes "/sys/fs/cgroup/memory.max") >>= limited_by host >>= λ memory.
    read_optional_file machine (codes "/sys/fs/cgroup/memory/memory.limit_in_bytes")
    >>= limited_by memory
    >>= λ least. if least == 0 then err no_memory else ok least

unfoldable pub detect_limits : Machine → Result TuningError Limits
unfolding detect_cpus detect_memory_bytes
detect_limits machine = detect_cpus machine >>= λ n.
    detect_memory_bytes machine >>= λ m. ok (record { cpus = n; memory_bytes = m })
