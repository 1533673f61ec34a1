-- ===== src/Resources/Host/Detected.antt =====
-- internal/resources/tuning.go: what the detected limits are bounded by.
use partforge.Base.{
  Text, ℕ, List, [], ◌∷◌, false, Option, none, some, ok, err, ◌>>=◌, >>=-eq-ok, if◌then◌else◌, ◌||◌,
  ltb, ◌==◌, ◌^◌, ◌≤◌, ◌<◌, ◌≡◌, subst, Bool-cases, inl, inr, arith,
}
use partforge.Base.Strconv.{not_positive}
use partforge.Resources.Cgroup.{no_cpu_count, parse_cgroup_memory_limit}
use partforge.Resources.Host.{
  Machine, Limits, read_optional_file, detect_cgroup_quota_cpus, detect_cgroup_cpu_set,
  with_candidate, least_cpus, detect_cpus, host_memory_bytes, lower_limit, limited_by,
  detect_memory_bytes, detect_limits,
}

-- A positive signed number.
abbrev Usable : ℕ → Type 0
Usable n = (1 ≤ n) × (n < 2 ^ 63)

least_cpus-kept :
    (cpus : ℕ) (candidates : List ℕ)
    → Usable cpus
    → Usable (least_cpus cpus candidates) × (least_cpus cpus candidates ≤ cpus)
unfolding least_cpus
least_cpus-kept cpus [] h = (h, omega arith)
least_cpus-kept cpus (candidate ∷ candidates) h = elim (Bool-cases (not_positive candidate)) [
  | inl bad ↦ rw bad (least_cpus-kept cpus candidates h)
  | inr good ↦ rw good (elim (Bool-cases (cpus == 0 || ltb candidate cpus)) [
    | inl lower ↦
        let (usable, below) = least_cpus-kept candidate candidates (ground arith) in
        rw lower (usable, ground arith)
    | inr higher ↦ rw higher (least_cpus-kept cpus candidates h)
  ])
]

least_cpus-first :
    (n : ℕ) (candidates : List ℕ) (cpus : ℕ)
    → Usable n
    → (if least_cpus 0 (n ∷ candidates) == 0
        then err no_cpu_count
        else ok (least_cpus 0 (n ∷ candidates)))
      ≡ ok cpus
    → (1 ≤ cpus) × (cpus ≤ n)
unfolding least_cpus
least_cpus-first n candidates cpus usable h =
    let good : not_positive n ≡ false = ground arith in
    let chosen : (if least_cpus n candidates == 0
          then err no_cpu_count
          else ok (least_cpus n candidates))
        ≡ ok cpus =
      rw good at h in
    let (found, below) = least_cpus-kept n candidates usable in ground arith

lower_limit-least : (memory : ℕ) (limit : Option ℕ) → lower_limit memory limit ≤ memory
unfolding lower_limit
lower_limit-least memory none = omega arith
lower_limit-least memory (some limit) = ground arith

limited_by-least :
    (memory : ℕ) (raw : Option Text) (least : ℕ) → limited_by memory raw ≡ ok least → least ≤ memory
unfolding limited_by
limited_by-least memory none least h = ground arith
limited_by-least memory (some raw) least h =
    let (limit, _, given) =
      >>=-eq-ok (parse_cgroup_memory_limit raw) (λ limit. ok (lower_limit memory limit)) h in
    let same : lower_limit memory limit ≡ least = cc given in
    subst (λ n. n ≤ memory) same (lower_limit-least memory limit)

detect_cpus-bounds :
    (machine : Machine) (cpus : ℕ)
    → Usable (machine.num_cpu)
    → detect_cpus machine ≡ ok cpus
    → (1 ≤ cpus) × (cpus ≤ machine.num_cpu)
unfolding detect_cpus
detect_cpus-bounds machine cpus usable h =
    let (quota, _, rest) = >>=-eq-ok (detect_cgroup_quota_cpus machine) _ h in
    let (cpu_set, _, last) = >>=-eq-ok (detect_cgroup_cpu_set machine) _ rest in
    least_cpus-first machine.num_cpu (with_candidate quota (with_candidate cpu_set [])) cpus usable
      last

detect_memory_bytes-bounds :
    (machine : Machine) (memory : ℕ)
    → detect_memory_bytes machine ≡ ok memory
    → (host : ℕ) × (host_memory_bytes machine ≡ ok host) × (1 ≤ memory) × (memory ≤ host)
unfolding detect_memory_bytes
detect_memory_bytes-bounds machine memory h =
    let (host, found, with_host) = >>=-eq-ok (host_memory_bytes machine) _ h in
    let (by_v2, v2, with_v2) =
      >>=-eq-ok (read_optional_file machine _ >>= limited_by host) _ with_host in
    let (_, _, limited_v2) = >>=-eq-ok (read_optional_file machine _) (limited_by host) v2 in
    let (by_v1, v1, last) =
      >>=-eq-ok (read_optional_file machine _ >>= limited_by by_v2) _ with_v2 in
    let (_, _, limited_v1) = >>=-eq-ok (read_optional_file machine _) (limited_by by_v2) v1 in
    let below_host : by_v2 ≤ host = limited_by-least host _ by_v2 limited_v2 in
    let below_v2 : by_v1 ≤ by_v2 = limited_by-least by_v2 _ by_v1 limited_v1 in
    (host, found, ground arith, ground arith)

-- What is detected: at least one CPU and one byte, no more CPUs than the machine has, and no
-- more memory than the kernel reports.
pub detect_limits-bounds :
    (machine : Machine) (limits : Limits)
    → 1 ≤ machine.num_cpu
    → machine.num_cpu < 2 ^ 63
    → detect_limits machine ≡ ok limits
    → (host : ℕ) × (host_memory_bytes machine ≡ ok host)
      × (1 ≤ limits.cpus)
      × (limits.cpus ≤ machine.num_cpu)
      × (1 ≤ limits.memory_bytes)
      × (limits.memory_bytes ≤ host)
unfolding detect_limits
detect_limits-bounds machine limits some_cpu few_cpus detected =
    let (cpus, found_cpus, rest) = >>=-eq-ok (detect_cpus machine) _ detected in
    let (memory, found_memory, last) = >>=-eq-ok (detect_memory_bytes machine) _ rest in
    let (host, found, some_memory, below) =
      detect_memory_bytes-bounds machine memory found_memory in
    let (some_cpus, fewer) = detect_cpus-bounds machine cpus (some_cpu, few_cpus) found_cpus in
    let built : Limits = record { cpus = cpus; memory_bytes = memory } in
    let same : built ≡ limits = cc last in
    subst
      (λ (l : Limits).
        (host : ℕ) × (host_memory_bytes machine ≡ ok host)
        × (1 ≤ l.cpus)
        × (l.cpus ≤ machine.num_cpu)
        × (1 ≤ l.memory_bytes)
        × (l.memory_bytes ≤ host))
      same (host, found, some_cpus, fewer, some_memory, below)
