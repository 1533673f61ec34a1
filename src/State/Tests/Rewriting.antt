-- ===== src/State/Tests/Rewriting.antt =====
-- The rewrite stage, from ready parts to the first hand-over.
use partforge.Base.{
  Text, ℕ, ◌≡◌, refl, ◌⊎◌, inl, List, [], ◌∷◌, true, false, Option, some, none, ok, is_blank,
  text_eq, All, codes, if◌then◌else◌, ◌==◌, ◌<◌,
}
use partforge.Base.Order.{first_where}
use partforge.State.Part.{Part, Status, validate_part, is_generated_compact_part}
use partforge.State.Row.{Row, row_at, part_write_values, stale_time, original_ready_time}
use partforge.State.Table.{
  Table, find, read_part, affected, same_key, save_part, replace, update_part,
}
use partforge.State.Table.Laws.{WellFormed}
use partforge.State.Table.Update.{read_part-save_part, update_part-effect}
use partforge.State.Command.{Command, exec, run}
use partforge.State.Rewrite.{
  claimable, ready_before, claim_part, claim_next_ready, compact_ready_part, mark_compact_ready,
  owned_by, released_part,
}
use partforge.State.Rewrite.Claiming.{claim_next_ready-first, claim_next_ready-succeeds}
use partforge.State.Rewrite.Ownership.{rewrite-owned, mark_compact_ready-handover}
use partforge.State.Lifecycle.{imported_final}
use partforge.State.Lifecycle.Sound.{Inv}
use partforge.State.Lifecycle.Execution.{run-final}
use partforge.State.Retry.{forced_to, to_finished, original_ready_part}
use partforge.State.Lifecycle.Permits.{permits}
use partforge.State.Lifecycle.Permits.Histories.{run-permits}
use partforge.State.Tests.Samples.{
  clock, clock-IsLawful, ready_part, larger_part, ready_table, worker, output, unlocked,
}

ready_table-WellFormed : WellFormed clock ready_table
unfolding part_write_values affected validate_part text_eq stale_time original_ready_time
    is_generated_compact_part is_blank same_key
ready_table-WellFormed = record { consistent = (refl, (refl, tt)); unique = (refl, (refl, tt)) }

ready_table-Inv : Inv clock ready_table
ready_table-Inv = record {
  well_formed = ready_table-WellFormed;
  bare = ((λ _. refl), ((λ _. refl), tt));
}

abbrev claimed_part : Part
claimed_part = claim_part clock worker 3 larger_part

abbrev claimed_table : Table
claimed_table = row_at ready_part none none ∷ row_at claimed_part none none ∷ []

claims_larger :
    claim_next_ready clock unlocked worker 3 ready_table ≡ ok (claimed_table, some claimed_part)
unfolding claim_next_ready is_blank first_where validate_part text_eq save_part part_write_values
    stale_time original_ready_time is_generated_compact_part affected same_key replace
claims_larger = refl

claim_next_ready-first_example :
    (All (λ r. claimable unlocked r ≡ false) ready_table
      × (claimed_table ≡ ready_table)
      × (some claimed_part ≡ none))
    ⊎ ((r : Row) × (find r.job_id r.part_id ready_table ≡ some r)
        × (claimable unlocked r ≡ true)
        × All (λ s. claimable unlocked s ≡ true → ready_before s r ≡ false) ready_table
        × (some claimed_part ≡ some (claim_part clock worker 3 r.data_part))
        × (read_part r.job_id r.part_id claimed_table ≡ ok (claim_part clock worker 3 r.data_part)))
claim_next_ready-first_example =
    claim_next_ready-first clock unlocked worker 3 ready_table claimed_table (some claimed_part)
      ready_table-Inv claims_larger

worker_named : is_blank worker ≡ false
unfolding is_blank
worker_named = refl

claim_next_ready-succeeds_example :
    (t' : Table) × (q : Option Part) × (claim_next_ready clock unlocked worker 3 ready_table
      ≡ ok (t', q))
claim_next_ready-succeeds_example =
    claim_next_ready-succeeds clock unlocked worker 3 ready_table ready_table-Inv worker_named

claimed_table-WellFormed : WellFormed clock claimed_table
unfolding part_write_values affected validate_part text_eq stale_time original_ready_time
    is_generated_compact_part is_blank same_key claim_part
claimed_table-WellFormed = record { consistent = (refl, (refl, tt)); unique = (refl, (refl, tt)) }

abbrev handed_part : Part
handed_part = compact_ready_part clock output 4 claimed_part

abbrev handed_table : Table
handed_table = row_at ready_part none none ∷ row_at handed_part none (some 4) ∷ []

hands_over : mark_compact_ready clock larger_part worker output 4 claimed_table ≡ ok handed_table
unfolding mark_compact_ready is_blank update_part read_part find same_key text_eq claim_part
    validate_part save_part part_write_values compact_ready_part stale_time original_ready_time
    is_generated_compact_part affected replace
hands_over = refl

mark_compact_ready-handover_example :
    (q : Part) × (read_part larger_part.job_id larger_part.part_id handed_table ≡ ok q)
    × (q.worker_id ≡ [])
    × (q.finished_key ≡ output.finished_key)
    × All (λ (id, n). (is_blank id ≡ false) × (0 < n)) q.rewrite.partition_counts
    × (q.status ≡ (if output.stats.count == 0 then Status.finished else Status.compact_ready))
    × ((job part : Text)
        → ((larger_part.job_id ≡ job) × (larger_part.part_id ≡ part) → ⊥)
        → find job part handed_table ≡ find job part claimed_table)
mark_compact_ready-handover_example =
    mark_compact_ready-handover clock larger_part worker output 4 claimed_table handed_table
      claimed_table-WellFormed hands_over

rewrite-owned_example :
    (r : Row) × (find larger_part.job_id larger_part.part_id claimed_table ≡ some r)
    × (owned_by worker r.data_part ≡ true)
rewrite-owned_example =
    rewrite-owned clock larger_part worker 4 claimed_table handed_table output [] none
      (inl hands_over)

abbrev history : List (ℕ × Command)
history =
    (3, Command.claim_ready unlocked worker)
    ∷ (4, Command.finish_rewrite larger_part worker output)
    ∷ []

run-permits_example :
    Inv clock (exec clock 5 (Command.claim_ready unlocked worker) (run clock history ready_table))
    × ((job part : Text) (r : Row)
        → find job part (run clock history ready_table) ≡ some r
        → (r' : Row) × (find job part
              (exec clock 5 (Command.claim_ready unlocked worker) (run clock history ready_table))
            ≡ some r')
          × ((r' ≡ r) ⊎ (permits (Command.claim_ready unlocked worker) r.status r'.status ≡ true)))
run-permits_example =
    run-permits clock clock-IsLawful history ready_table (tt, (tt, tt)) ready_table-Inv 5
      (Command.claim_ready unlocked worker) tt

abbrev imported_row : Row
imported_row = row_at (record ready_part { status = Status.imported }) none none

imported_table-Inv : Inv clock (imported_row ∷ [])
unfolding part_write_values affected validate_part text_eq stale_time original_ready_time
    is_generated_compact_part is_blank
imported_table-Inv = record {
  well_formed = record { consistent = (refl, tt); unique = (refl, tt) };
  bare = ((λ _. refl), tt);
}

finds_imported : find (codes "j") (codes "p") (imported_row ∷ []) ≡ some imported_row
unfolding find same_key text_eq
finds_imported = refl

run-final_example :
    (r' : Row) × (find (codes "j") (codes "p") (run clock history (imported_row ∷ [])) ≡ some r')
    × (r'.status ≡ imported_row.status)
run-final_example =
    run-final clock clock-IsLawful history (imported_row ∷ []) (tt, (tt, tt)) imported_table-Inv
      (codes "j") (codes "p") imported_row finds_imported imported_final

abbrev released_table : Table
released_table =
    row_at ready_part none none ∷ row_at (released_part clock 4 claimed_part) none none ∷ []

releases :
    update_part clock larger_part.job_id larger_part.part_id
      (owned_by worker)
      (released_part clock 4)
      claimed_table
    ≡ ok released_table
unfolding update_part read_part find same_key text_eq claim_part validate_part save_part
    part_write_values released_part stale_time original_ready_time is_generated_compact_part
    is_blank affected replace
releases = refl

released_part-key :
    (p : Part)
    → ((released_part clock 4 p).job_id ≡ p.job_id)
      × ((released_part clock 4 p).part_id ≡ p.part_id)
unfolding released_part
released_part-key p = (refl, refl)

update_part-effect_example :
    (r : Row) × (find larger_part.job_id larger_part.part_id claimed_table ≡ some r)
    × (owned_by worker r.data_part ≡ true)
    × (read_part larger_part.job_id larger_part.part_id released_table
        ≡ ok (released_part clock 4 r.data_part))
    × ((job' part' : Text)
        → ((larger_part.job_id ≡ job') × (larger_part.part_id ≡ part') → ⊥)
        → find job' part' released_table ≡ find job' part' claimed_table)
update_part-effect_example =
    update_part-effect clock larger_part.job_id larger_part.part_id (owned_by worker)
      (released_part clock 4) claimed_table released_table claimed_table-WellFormed
      released_part-key releases

saves : save_part clock claimed_part ready_table ≡ ok claimed_table
unfolding save_part part_write_values validate_part text_eq claim_part stale_time
    original_ready_time is_generated_compact_part is_blank affected same_key replace
saves = refl

read_part-save_part_example :
    (read_part claimed_part.job_id claimed_part.part_id claimed_table ≡ ok claimed_part)
    × ((job part : Text)
        → ((claimed_part.job_id ≡ job) × (claimed_part.part_id ≡ part) → ⊥)
        → find job part claimed_table ≡ find job part ready_table)
read_part-save_part_example = read_part-save_part clock claimed_part ready_table claimed_table saves

abbrev forced : Part
forced = forced_to clock to_finished 5 larger_part

abbrev forced_table : Table
forced_table = row_at ready_part none none ∷ row_at forced none none ∷ []

abbrev restarted_table : Table
restarted_table =
    row_at ready_part none none ∷ row_at (original_ready_part clock 5 claimed_part) none none ∷ []
