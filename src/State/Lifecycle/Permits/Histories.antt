-- ===== src/State/Lifecycle/Permits/Histories.antt =====
-- What each command on the table of internal/state/postgres.go may do to each stored part, after any
-- history of commands.
use partforge.Base.{
  Text, ℕ, ◌≡◌, subst, ◌⊎◌, Bool, true, List, some, Result, ok, >>=-eq-ok, All, arith,
}
use partforge.State.Part.{Clock, IsLawful, Error, Status}
use partforge.State.Row.{Row}
use partforge.State.Table.{Table, find}
use partforge.State.Upkeep.Settling.{
  gives_back, release_stale-Changes, finalize_compact_ready-Changes,
}
use partforge.State.Command.{Command, only_table, exec, run}
use partforge.State.Lifecycle.Sound.{Inv}
use partforge.State.Lifecycle.Execution.{Admissible, exec-Sound, run-Sound}
use partforge.State.Lifecycle.Changes.{Changes, Changes-weaken, commit-Changes}
use partforge.State.Lifecycle.Permits
use partforge.State.Lifecycle.Permits.{permits, Within}
use partforge.State.Lifecycle.Permits.Batches
use partforge.State.Lifecycle.Permits.Statements

only_table-Within :
    {A : Type 0} (t : Table) (may : Status → Status → Bool) (m : Result Error (Table × A))
    → ((t' : Table) (a : A) → m ≡ ok (t', a) → Changes may t t')
    → Within t may (only_table m)
only_table-Within t may m s t' h =
    let ((u, a), e, last) = >>=-eq-ok m _ h in
    let same : u ≡ t' = cc last in subst (Changes may t) same (s u a e)

module _ (c : Clock) (lawful : IsLawful c) (now : ℕ) where
  exec-permits : (k : Command) (t : Table) → Inv c t → Changes (permits k) t (exec c now k t)
  unfolding exec permits
  exec-permits (Command.create p) t i =
      commit-Changes _ t _ (Permits.create_part-Within c now t i.well_formed p)
  exec-permits (Command.claim_ready locked w) t i =
      commit-Changes _ t _
        (only_table-Within t _ _ (λ t' q. Batches.claim_next_ready-Within c locked w now t t' q i))
  exec-permits (Command.report_rewrite j p w g) t i =
      commit-Changes _ t _ (Statements.update_rewrite_progress-Within c j p w g now t i.well_formed)
  exec-permits (Command.finish_rewrite p w o) t i =
      commit-Changes _ t _ (Permits.mark_compact_ready-Within c now t i.well_formed p w o)
  exec-permits (Command.finish p w key) t i =
      commit-Changes _ t _ (Permits.mark_finished-Within c now t i.well_formed p w key)
  exec-permits (Command.fail p w cause) t i =
      commit-Changes _ t _ (Permits.mark_failed-Within c now t i.well_formed p w cause)
  exec-permits (Command.release p w) t i =
      commit-Changes _ t _ (Permits.release_in_progress-Within c now t i.well_formed p w)
  exec-permits (Command.claim_batch locked w o) t i = commit-Changes _ t _ (
      only_table-Within t _ _
        (λ t' b. Batches.claim_next_compact_batch-Within c now locked t w o t' b i))
  exec-permits (Command.beat_batch x w) t i =
      Statements.heartbeat_compact_batch-Changes c lawful x w now t i.well_formed
  exec-permits (Command.report_batch x w out ins outs stage merges progress) t i =
      Statements.update_compact_progress-Changes c lawful x out w ins outs stage merges progress now
        t i.well_formed
  exec-permits (Command.release_batch x w done) t i =
      commit-Changes _ t _ (Batches.release_compact_batch-Within c now t i.well_formed x w done)
  exec-permits (Command.fail_batch x w cause) t i =
      commit-Changes _ t _
        (Batches.mark_compact_batch_failed-Within c now t i.well_formed x w cause)
  exec-permits (Command.request_finalization ps) t i =
      commit-Changes _ t _ (Batches.request_compact_finalization-Within c now t i.well_formed ps)
  exec-permits (Command.complete_batch x out w) t i =
      commit-Changes _ t _ (Batches.complete_compaction-Within c x out w now t i.well_formed)
  exec-permits (Command.release_stale locked age) t i = commit-Changes _ t _ (λ t' h.
      Changes-weaken gives_back _ (λ s s' e. ground arith) t t'
        (release_stale-Changes c locked now age t t' i h))
  exec-permits (Command.finalize locked job window x) t i =
      commit-Changes _ t _ (finalize_compact_ready-Changes c locked now window x job t)
  exec-permits (Command.start_import p) t i =
      commit-Changes _ t _ (Permits.mark_importing-Within c now t i.well_formed p)
  exec-permits (Command.finish_import p) t i =
      commit-Changes _ t _ (Permits.mark_imported-Within c now t i.well_formed p)
  exec-permits (Command.undo_import p) t i =
      commit-Changes _ t _ (Permits.release_import-Within c now t i.well_formed p)
  exec-permits (Command.fail_import p cause) t i =
      commit-Changes _ t _ (Permits.mark_import_failed-Within c now t i.well_formed p cause)
  exec-permits (Command.retry_failed p) t i =
      commit-Changes _ t _ (Permits.retry_failed_part-Within c now t i.well_formed p)
  exec-permits (Command.retry_in_progress p) t i =
      commit-Changes _ t _ (Permits.retry_in_progress_part-Within c now t i.well_formed p)
  exec-permits (Command.retry_stale p) t i =
      commit-Changes _ t _ (Permits.retry_stale_in_progress_part-Within c now t i.well_formed p)
  exec-permits (Command.reset_timer p) t i =
      commit-Changes _ t _ (Permits.reset_compact_timer-Within c now t i.well_formed p)

-- After any history, the next command loses no part, and each part is as it was or has a status that
-- the table of changes permits this command to give it; one row stays for a key, with columns that
-- agree with the stored part. The clock's formatted times must read back, the first table must keep
-- the invariant, and created parts must not be in progress with counts of partitions.
pub run-permits :
    (c : Clock)
    → IsLawful c
    → (ks : List (ℕ × Command)) (t : Table) → All (λ (_, k). Admissible k) ks
    → Inv c t
    → (now : ℕ) (next : Command) → Admissible next
    → Inv c (exec c now next (run c ks t))
      × ((job part : Text) (r : Row)
          → find job part (run c ks t) ≡ some r
          → (r' : Row) × (find job part (exec c now next (run c ks t)) ≡ some r')
            × ((r' ≡ r) ⊎ (permits next r.status r'.status ≡ true)))
run-permits c l ks t b i now next a =
    let (j, _) = run-Sound c l ks t b i in
    ((exec-Sound c l now next (run c ks t) a j).0, exec-permits c l now next (run c ks t) j)
