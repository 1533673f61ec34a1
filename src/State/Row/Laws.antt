-- ===== src/State/Row/Laws.antt =====
-- What a full write of a part gives, and when.
use partforge.Base.{ℕ, ◌≡◌, Option, some, none, ok, false, arith, >>=-eq-ok, >>-eq-ok}
use partforge.State.Part.{Part, Clock, IsLawful, compacting, is, validate_part}
use partforge.State.Row.{
  Row, row_at, stale_time, original_ready_time, part_write_values, earlier, sooner,
}

pub part_write_values-eq-ok :
    (c : Clock) (p : Part) {r : Row}
    → part_write_values c p ≡ ok r
    → (stale : Option ℕ) × (ready_at : Option ℕ) × (validate_part p ≡ ok tt)
      × (stale_time c p ≡ ok stale)
      × (original_ready_time c p ≡ ok ready_at)
      × (row_at p stale ready_at ≡ r)
unfolding part_write_values
part_write_values-eq-ok c p h =
    let (valid, rest) = >>-eq-ok (validate_part p) _ h in
    let (stale, e, more) = >>=-eq-ok (stale_time c p) _ rest in
    let (ready_at, e', last) = >>=-eq-ok (original_ready_time c p) _ more in
    (stale, ready_at, valid, e, e', ground arith)

pub part_write_values_lem :
    (c : Clock) (p : Part) {stale ready_at : Option ℕ}
    → validate_part p ≡ ok tt
    → stale_time c p ≡ ok stale
    → original_ready_time c p ≡ ok ready_at
    → part_write_values c p ≡ ok (row_at p stale ready_at)
unfolding part_write_values
part_write_values_lem c p v s o = rw (v, s, o)

-- Only a compacting part has a time at which it becomes stale.
pub stale_time_idle :
    (c : Clock) (p : Part) → is p.status compacting ≡ false → stale_time c p ≡ ok none
unfolding stale_time
stale_time_idle c p h = rw h

-- A part that was taken up just now is as stale as the time that it carries.
pub stale_time_beat :
    (c : Clock) (p : Part) (now since : ℕ)
    → IsLawful c
    → p.status ≡ compacting
    → p.updated_at ≡ c.format now
    → c.parse p.compacting_at ≡ some since
    → stale_time c p ≡ ok (some (earlier (some now) since))
unfolding stale_time sooner
stale_time_beat c p now since l s u k =
    ground (arith, l.format_filled now, l.parse-format now, l.parse_blank p.compacting_at)
