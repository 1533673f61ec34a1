-- ===== src/State/Lifecycle/Steps.antt =====
-- The change that each operation makes to a part is an edge of the lifecycle, or a few.
use partforge.Base.{
  Text, ℕ, ◌≡◌, refl, sym, subst, inl, inr, Bool, true, false, not, ◌||◌, ◌==◌, arith,
  if◌then◌else◌, Bool-cases, null,
}
use partforge.State.Part.{Part, Clock, Status, is}
use partforge.State.Rewrite.{
  owned_by, Output, compact_ready_part, finished_part, failed_part, released_part,
}
use partforge.State.Import.{
  has_status, importing_part, imported_part, unimported_part, import_failed_part,
}
use partforge.State.Retry.{
  failed_retry_target, retried_part, restarted_part, anything, timer_reset_part,
}
use partforge.State.Compact.{
  compact_owned_or_unowned_ready, released_input, compact_failed_part, compacting_by,
  finalize_requested_part, awaits_compaction, superseded_part,
}
use partforge.State.Lifecycle.{
  ◌⟶◌, ◌⟶*◌, here, step, once, KeepsKey, rewritten, completed, rewrite_failed, given_up, taken,
  given_back, settled, finalized, replaced, compact_failed, import_started, import_done,
  import_undone, import_failed, retried_rewrite, retried_compact, retried_import,
}
use partforge.State.Lifecycle.Sound.{Good, leads_from}

-- A change to one status, other than the one in which a part must be bare.
to_status :
    {condition : Part → Bool} {mutate : Part → Part} (target : Status)
    → is target Status.in_progress ≡ false
    → KeepsKey mutate
    → ((p : Part) → (mutate p).status ≡ target)
    → ((p : Part) → condition p ≡ true → p.status ⟶* target)
    → Good condition mutate
to_status {mutate} target other key set leads = record {
  key = key;
  leads = λ p h. subst (λ s. p.status ⟶* s) (sym (set p)) (leads p h);
  bare = λ p b s. let e = set p in absurd (ground arith);
}

owned_leads :
    (worker : Text) (target : Status)
    → Status.in_progress ⟶ target
    → (p : Part) → owned_by worker p ≡ true
    → p.status ⟶* target
owned_leads worker target e p h =
    leads_from Status.in_progress target p.status (once e) (ground arith)

status_leads :
    (from to : Status) → from ⟶ to → (p : Part) → has_status from p ≡ true → p.status ⟶* to
status_leads from to e p h = leads_from from to p.status (once e) h

if_leads : (b : Bool) (s x y : Status) → s ⟶* x → s ⟶* y → s ⟶* (if b then x else y)
if_leads true s x y p q = p
if_leads false s x y p q = q

-- A part that waits for a compaction or is in one.
awaiting_leads :
    (target : Status)
    → Status.compacting ⟶* target
    → Status.compact_ready ⟶* target
    → (s : Status) → is s Status.compacting || is s Status.compact_ready ≡ true
    → s ⟶* target
awaiting_leads target p q s h = elim (Bool-cases (is s Status.compacting)) [
  | inl e ↦ leads_from Status.compacting target s p e
  | inr e ↦ leads_from Status.compact_ready target s q (ground arith)
]

held_awaits :
    (worker : Text) (p : Part)
    → compact_owned_or_unowned_ready worker p ≡ true
    → awaits_compaction p ≡ true
unfolding compact_owned_or_unowned_ready
held_awaits worker p h = ground arith

retried_part-status :
    (c : Clock) (target : Status) (now : ℕ) (p : Part)
    → (retried_part c target now p).status ≡ target
unfolding retried_part
retried_part-status c target now p = ground arith

failed_retry_target-leads :
    (p q : Part) → is q.status Status.failed ≡ true → q.status ⟶* failed_retry_target p
unfolding failed_retry_target
failed_retry_target-leads p q h =
    if_leads (not (null p.importing_at)) q.status Status.finished _
      (leads_from Status.failed Status.finished q.status (once retried_import) h)
      (if_leads (not (null p.compact_ready_at)) q.status Status.compact_ready Status.ready
        (leads_from Status.failed Status.compact_ready q.status (once retried_compact) h)
        (leads_from Status.failed Status.ready q.status (once retried_rewrite) h))

failed_retry_target-idle : (p : Part) → is (failed_retry_target p) Status.in_progress ≡ false
unfolding failed_retry_target
failed_retry_target-idle p = ground arith

module _ (c : Clock) (now : ℕ) where
  pub compact_ready_part-Good :
      (o : Output) (worker : Text) → Good (owned_by worker) (compact_ready_part c o now)
  unfolding compact_ready_part
  compact_ready_part-Good o worker = record {
    key = λ p. (refl, refl);
    leads = λ p h.
        if_leads (o.stats.count == 0) p.status Status.finished Status.compact_ready
          (owned_leads worker Status.finished completed p h)
          (owned_leads worker Status.compact_ready rewritten p h);
    bare = λ p b s. absurd (ground arith);
  }

  pub finished_part-Good : (key worker : Text) → Good (owned_by worker) (finished_part c key now)
  unfolding finished_part
  finished_part-Good key worker =
      to_status Status.finished refl (λ p. (refl, refl)) (λ p. refl)
        (owned_leads worker Status.finished completed)

  pub failed_part-Good : (cause worker : Text) → Good (owned_by worker) (failed_part c cause now)
  unfolding failed_part
  failed_part-Good cause worker =
      to_status Status.failed refl (λ p. (refl, refl)) (λ p. refl)
        (owned_leads worker Status.failed rewrite_failed)

  pub released_part-Good : (worker : Text) → Good (owned_by worker) (released_part c now)
  unfolding released_part
  released_part-Good worker =
      to_status Status.ready refl (λ p. (refl, refl)) (λ p. refl)
        (owned_leads worker Status.ready given_up)

  pub importing_part-Good : Good (has_status Status.finished) (importing_part c now)
  unfolding importing_part
  importing_part-Good =
      to_status Status.importing refl (λ p. (refl, refl)) (λ p. refl)
        (status_leads Status.finished Status.importing import_started)

  pub imported_part-Good : Good (has_status Status.importing) (imported_part c now)
  unfolding imported_part
  imported_part-Good =
      to_status Status.imported refl (λ p. (refl, refl)) (λ p. refl)
        (status_leads Status.importing Status.imported import_done)

  pub unimported_part-Good : Good (has_status Status.importing) (unimported_part c now)
  unfolding unimported_part
  unimported_part-Good =
      to_status Status.finished refl (λ p. (refl, refl)) (λ p. refl)
        (status_leads Status.importing Status.finished import_undone)

  pub import_failed_part-Good :
      (cause : Text) → Good (has_status Status.importing) (import_failed_part c cause now)
  unfolding import_failed_part
  import_failed_part-Good cause =
      to_status Status.failed refl (λ p. (refl, refl)) (λ p. refl)
        (status_leads Status.importing Status.failed import_failed)

  pub restarted_part-Good :
      (condition : Part → Bool)
      → ((p : Part) → condition p ≡ true → is p.status Status.in_progress ≡ true)
      → Good condition (restarted_part c now)
  unfolding restarted_part
  restarted_part-Good condition active =
      to_status Status.ready refl (λ p. (refl, refl)) (λ p. refl)
        (λ p h. leads_from Status.in_progress Status.ready p.status (once given_up) (active p h))

  pub retried_part-Good :
      (p : Part) → Good (has_status Status.failed) (retried_part c (failed_retry_target p) now)
  unfolding retried_part
  retried_part-Good p =
      to_status (failed_retry_target p) (failed_retry_target-idle p) (λ q. ground arith)
        (retried_part-status c (failed_retry_target p) now) (failed_retry_target-leads p)

  pub timer_reset_part-Good : Good anything (timer_reset_part c now)
  unfolding timer_reset_part
  timer_reset_part-Good = record {
    key = λ p. (refl, refl);
    leads = λ p h. here;
    bare = λ p b s. b s;
  }

  pub released_input-Good :
      (finalize : Bool) (worker : Text)
      → Good (compact_owned_or_unowned_ready worker) (released_input c finalize now)
  unfolding released_input compact_owned_or_unowned_ready
  released_input-Good finalize worker = record {
    key = λ p. (refl, refl);
    leads = λ p h.
        let done = finalize || not (null p.compact.finalize_requested_at) in
        awaiting_leads (if done then Status.finished else Status.compact_ready)
          (if_leads done Status.compacting Status.finished Status.compact_ready (once settled)
            (once given_back))
          (if_leads done Status.compact_ready Status.finished Status.compact_ready (once finalized)
            here)
          p.status (held_awaits worker p h);
    bare = λ p b s. absurd (ground arith);
  }

  pub compact_failed_part-Good :
      (cause worker : Text) → Good (compacting_by worker) (compact_failed_part c cause now)
  unfolding compact_failed_part
  compact_failed_part-Good cause worker =
      to_status Status.failed refl (λ p. (refl, refl)) (λ p. refl)
        (λ p h.
          leads_from Status.compacting Status.failed p.status (once compact_failed) (ground arith))

  pub finalize_requested_part-Good : Good awaits_compaction (finalize_requested_part c now)
  unfolding finalize_requested_part
  finalize_requested_part-Good = record {
    key = λ p. ground arith;
    leads = λ p h. elim (Bool-cases (is p.status Status.compact_ready)) [
      | inl e ↦ rw e (leads_from Status.compact_ready Status.finished p.status (once finalized) e)
      | inr e ↦ rw e here
    ];
    bare = λ p b s. ground arith;
  }

  pub superseded_part-Good :
      (output worker : Text)
      → Good (compact_owned_or_unowned_ready worker) (superseded_part c output now)
  unfolding superseded_part compact_owned_or_unowned_ready
  superseded_part-Good output worker =
      to_status Status.superseded refl (λ p. (refl, refl)) (λ p. refl)
        (λ p h.
          awaiting_leads Status.superseded (once replaced) (step taken (once replaced)) p.status
            (held_awaits worker p h))
