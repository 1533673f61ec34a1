-- ===== src/Resources/Cgroup.antt =====
-- The parsers of internal/resources/tuning.go for the files of a control group.
use partforge.Base.{
  Text, ℕ, zero, suc, List, [], ◌∷◌, Bool, Option, none, some, Result, ok, err, or_fail, ◌>>=◌,
  if◌then◌else◌, ◌||◌, ltb, leb, ◌==◌, ◌+◌, ◌-◌, ◌*◌, ◌/◌, ◌%◌, ◌^◌, codes, text_eq, trim_space,
  null,
}
use partforge.Base.Scan.{fields, split_byte}
use partforge.Base.Strconv.{parse_int, parse_uint, not_positive, word_size}

pub data TuningError : Type 0 where
  unreadable_file : TuningError
  malformed_quota : TuningError
  quota_not_positive : TuningError
  period_not_positive : TuningError
  incomplete_quota : TuningError
  malformed_cpu_set : TuningError
  malformed_range : TuningError
  empty_cpu_set : TuningError
  malformed_memory : TuningError
  zero_memory : TuningError
  no_cpu_count : TuningError
  no_memory_total : TuningError
  no_cpus : TuningError
  no_memory : TuningError
  derived_zero : TuningError

-- `float64` arithmetic on positive numbers: 53 bits, rounding to the nearest and then to the even one.
round_to_even : ℕ → ℕ → ℕ
round_to_even a b =
    let q = a / b in
    let r = a % b in
    if ltb (2 * r) b then q else if ltb b (2 * r) then suc q else if q % 2 == 0 then q else suc q

-- The number of bits of `a / b`, up to the fuel.
quotient_bits : ℕ → ℕ → ℕ → ℕ
quotient_bits zero a b = 0
quotient_bits (suc fuel) a b =
    let rest = quotient_bits fuel a (2 * b) in if ltb a b then 0 else suc rest

-- `float64(n)` for `0 < n < 2 ^ 64`.
unfoldable pub float_of : ℕ → ℕ
unfolding quotient_bits round_to_even
float_of n =
    let k = quotient_bits 64 n 1 in
    if leb k 53 then n else round_to_even n (2 ^ (k - 53)) * 2 ^ (k - 53)

-- `math.Ceil(a / b)` on positive `float64` numbers that are whole.
unfoldable pub ceil_quotient : ℕ → ℕ → ℕ
unfolding quotient_bits round_to_even
ceil_quotient a b =
    let k = quotient_bits 64 a b in
    if ltb a b
    then 1
    else if leb k 53
    then (round_to_even (a * 2 ^ (53 - k)) b + (2 ^ (53 - k) - 1)) / 2 ^ (53 - k)
    else round_to_even a (b * 2 ^ (k - 53)) * 2 ^ (k - 53)

-- The conversion of 2 ^ 63, the largest result, to `int` gives the word 2 ^ 63, as on amd64.
unfoldable pub quota_to_cpus : ℕ → ℕ → Result TuningError ℕ
unfolding float_of ceil_quotient
quota_to_cpus quota period =
    if not_positive quota
    then err quota_not_positive
    else if not_positive period
    then err period_not_positive
    else ok (ceil_quotient (float_of quota) (float_of period))

limited : Result TuningError ℕ → Result TuningError (Option ℕ)
limited found = found >>= λ n. ok (some n)

v2_quota : List Text → Result TuningError (Option ℕ)
unfolding limited
v2_quota (quota ∷ period ∷ []) =
    if text_eq quota (codes "max")
    then ok none
    else or_fail (parse_int quota) malformed_quota >>= λ q.
        or_fail (parse_int period) malformed_quota >>= λ p. limited (quota_to_cpus q p)
v2_quota _ = err malformed_quota

unfoldable pub parse_cgroup_v2_cpu_quota : Text → Result TuningError (Option ℕ)
unfolding v2_quota
parse_cgroup_v2_cpu_quota raw = v2_quota (fields raw)

unfoldable pub parse_cgroup_v1_cpu_quota : Text → Text → Result TuningError (Option ℕ)
unfolding limited
parse_cgroup_v1_cpu_quota quota_raw period_raw =
    or_fail (parse_int (trim_space quota_raw)) malformed_quota >>= λ q.
    if leb (2 ^ 63) q
    then ok none
    else or_fail (parse_int (trim_space period_raw)) malformed_quota >>= λ p.
        limited (quota_to_cpus q p)

-- Signed `<` on words.
signed_ltb : ℕ → ℕ → Bool
signed_ltb a b = ltb ((a + 2 ^ 63) % word_size) ((b + 2 ^ 63) % word_size)

segment_cpus : List Text → Result TuningError ℕ
unfolding signed_ltb
segment_cpus (cpu ∷ []) = or_fail (parse_int cpu) malformed_cpu_set >>= λ _. ok 1
segment_cpus (first ∷ last ∷ []) = or_fail (parse_int first) malformed_cpu_set >>= λ start.
    or_fail (parse_int last) malformed_cpu_set >>= λ end.
    if signed_ltb end start
    then err malformed_range
    else ok ((end + (word_size - start) + 1) % word_size)
segment_cpus _ = err malformed_cpu_set

-- The sum of the segments as a word.
add_segments : ℕ → List Text → Result TuningError ℕ
unfolding segment_cpus
add_segments total [] = ok total
add_segments total (raw ∷ segments) =
    if null (trim_space raw)
    then add_segments total segments
    else segment_cpus (split_byte 45 (trim_space raw)) >>= λ n.
        add_segments ((total + n) % word_size) segments

unfoldable pub parse_cpu_set : Text → Result TuningError ℕ
unfolding add_segments
parse_cpu_set raw = add_segments 0 (split_byte 44 (trim_space raw)) >>= λ total.
    if total == 0 then err empty_cpu_set else ok total

unfoldable pub parse_cgroup_memory_limit : Text → Result TuningError (Option ℕ)
parse_cgroup_memory_limit raw =
    if text_eq (trim_space raw) (codes "max") || null (trim_space raw)
    then ok none
    else or_fail (parse_uint (trim_space raw)) malformed_memory >>= λ memory.
        if memory == 0 then err zero_memory else ok (some memory)
