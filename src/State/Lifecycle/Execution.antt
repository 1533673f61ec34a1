-- ===== src/State/Lifecycle/Execution.antt =====
-- Every command is sound, and so is every history of them.
use partforge.Base.{Text, ℕ, ◌≡◌, sym, subst, List, [], ◌∷◌, some, Result, ok, >>=-eq-ok, All}
use partforge.State.Part.{Clock, IsLawful, Error}
use partforge.State.Row.{Row}
use partforge.State.Table.{Table, find}
use partforge.State.Command.{Command, only_table, exec, run}
use partforge.State.Lifecycle.{◌⟶*◌, IsFinal, final-stays}
use partforge.State.Lifecycle.Sound.{Inv, Sound, Sound-refl, Sound-trans, BarePart}
use partforge.State.Lifecycle.Transactions
use partforge.State.Lifecycle.Claims.{claim_next_ready-Sound}
use partforge.State.Lifecycle.Saves.{
  claim_next_compact_batch-Sound, release_stale_compacting_parts-Sound,
}
use partforge.State.Lifecycle.Completion.{complete_compaction-Sound}
use partforge.State.Lifecycle.Statements.{
  update_rewrite_progress-Sound, heartbeat_compact_batch-Sound, update_compact_progress-Sound,
}
use partforge.State.Lifecycle.Finalizing.{finalize_compact_ready-Sound}

-- A part is created before its rewrite has counted partitions.
abbrev pub Admissible : Command → Type 0
Admissible (Command.create p) = BarePart p
Admissible _ = Unit

only_table-Sound :
    {A : Type 0} (c : Clock) (t : Table) (m : Result Error (Table × A))
    → ((t' : Table) (a : A) → m ≡ ok (t', a) → Sound c t t')
    → Transactions.Soundly c t (only_table m)
only_table-Sound c t m s t' h =
    let ((u, a), e, last) = >>=-eq-ok m _ h in
    let same : u ≡ t' = cc last in subst (Sound c t) same (s u a e)

module _ (c : Clock) (lawful : IsLawful c) (now : ℕ) where
  pub exec-Sound : (k : Command) (t : Table) → Admissible k → Sound c t (exec c now k t)
  unfolding exec
  exec-Sound (Command.create p) t b =
      Transactions.commit-Sound c t _ (Transactions.create_part-Sound c now t p b)
  exec-Sound (Command.claim_ready locked w) t b =
      Transactions.commit-Sound c t _
        (only_table-Sound c t _ (λ t' q. claim_next_ready-Sound c locked w now t t' q))
  exec-Sound (Command.report_rewrite j p w g) t b =
      Transactions.commit-Sound c t _ (update_rewrite_progress-Sound c j p w g now t)
  exec-Sound (Command.finish_rewrite p w o) t b =
      Transactions.commit-Sound c t _ (Transactions.mark_compact_ready-Sound c now t p w o)
  exec-Sound (Command.finish p w key) t b =
      Transactions.commit-Sound c t _ (Transactions.mark_finished-Sound c now t p w key)
  exec-Sound (Command.fail p w cause) t b =
      Transactions.commit-Sound c t _ (Transactions.mark_failed-Sound c now t p w cause)
  exec-Sound (Command.release p w) t b =
      Transactions.commit-Sound c t _ (Transactions.release_in_progress-Sound c now t p w)
  exec-Sound (Command.claim_batch locked w o) t b =
      Transactions.commit-Sound c t _
        (only_table-Sound c t _ (λ t' q. claim_next_compact_batch-Sound c now locked t w o t' q))
  exec-Sound (Command.beat_batch x w) t b = heartbeat_compact_batch-Sound c lawful x w now t
  exec-Sound (Command.report_batch x w out ins outs stage merges progress) t b =
      update_compact_progress-Sound c lawful x out w ins outs stage merges progress now t
  exec-Sound (Command.release_batch x w done) t b =
      Transactions.commit-Sound c t _ (Transactions.release_compact_batch-Sound c now t x w done)
  exec-Sound (Command.fail_batch x w cause) t b =
      Transactions.commit-Sound c t _
        (Transactions.mark_compact_batch_failed-Sound c now t x w cause)
  exec-Sound (Command.request_finalization ps) t b =
      Transactions.commit-Sound c t _ (Transactions.request_compact_finalization-Sound c now t ps)
  exec-Sound (Command.complete_batch x out w) t b =
      Transactions.commit-Sound c t _ (complete_compaction-Sound c x out w now t)
  exec-Sound (Command.release_stale locked age) t b =
      Transactions.commit-Sound c t _ (release_stale_compacting_parts-Sound c now locked t age)
  exec-Sound (Command.finalize locked job window x) t b =
      Transactions.commit-Sound c t _ (finalize_compact_ready-Sound c locked window x now job t)
  exec-Sound (Command.start_import p) t b =
      Transactions.commit-Sound c t _ (Transactions.mark_importing-Sound c now t p)
  exec-Sound (Command.finish_import p) t b =
      Transactions.commit-Sound c t _ (Transactions.mark_imported-Sound c now t p)
  exec-Sound (Command.undo_import p) t b =
      Transactions.commit-Sound c t _ (Transactions.release_import-Sound c now t p)
  exec-Sound (Command.fail_import p cause) t b =
      Transactions.commit-Sound c t _ (Transactions.mark_import_failed-Sound c now t p cause)
  exec-Sound (Command.retry_failed p) t b =
      Transactions.commit-Sound c t _ (Transactions.retry_failed_part-Sound c now t p)
  exec-Sound (Command.retry_in_progress p) t b =
      Transactions.commit-Sound c t _ (Transactions.retry_in_progress_part-Sound c now t p)
  exec-Sound (Command.retry_stale p) t b =
      Transactions.commit-Sound c t _ (Transactions.retry_stale_in_progress_part-Sound c now t p)
  exec-Sound (Command.reset_timer p) t b =
      Transactions.commit-Sound c t _ (Transactions.reset_compact_timer-Sound c now t p)

-- Whatever the workers, the importers and the maintenance do, the table keeps one row for a key,
-- with columns that agree with the stored part; and no part is lost, and the status of each moves
-- along a path of edges, possibly a long one. The clock's formatted times must read back, and created parts must not
-- be in progress with counts of partitions.
pub run-Sound :
    (c : Clock)
    → IsLawful c
    → (ks : List (ℕ × Command)) (t : Table) → All (λ (_, k). Admissible k) ks
    → Inv c t
    → Inv c (run c ks t)
      × ((job part : Text) (r : Row)
          → find job part t ≡ some r
          → (r' : Row) × (find job part (run c ks t) ≡ some r') × (r.status ⟶* r'.status))
unfolding run
run-Sound c l [] t b i = Sound-refl c t i
run-Sound c l ((now, k) ∷ ks) t (b, bs) i =
    let u = exec c now k t in
    Sound-trans c t u (run c ks u) (exec-Sound c l now k t b) (run-Sound c l ks u bs) i

-- A part that is imported or superseded stays so in every history, under the conditions on the
-- clock, the commands and the table before.
pub run-final :
    (c : Clock)
    → IsLawful c
    → (ks : List (ℕ × Command)) (t : Table) → All (λ (_, k). Admissible k) ks
    → Inv c t
    → (job part : Text) (r : Row) → find job part t ≡ some r
    → IsFinal r.status
    → (r' : Row) × (find job part (run c ks t) ≡ some r') × (r'.status ≡ r.status)
run-final c l ks t b i job part r found f =
    let (r', found', path) = (run-Sound c l ks t b i).1 job part r found in
    (r', found', sym (final-stays f path))
