-- ===== src/Delivery/Journal/Moves.antt =====
-- action_journal.py: what any sequence of calls leaves of a journal entry.
use compilableworld_runtime.Base.{
  ℕ, String, true, ◌≡◌, refl, ap, ◌∙◌, inl, inr, Option, none, some, List, [], ◌∷◌, Outcome, ok,
  ◌==◌, pair_eq, string_eq, Bool-cases,
}
use compilableworld_runtime.Base.Dict.{lookup, insert, insert-cases, lookup-insert_self}
use compilableworld_runtime.Base.Exec.{continue, after_lift}
use compilableworld_runtime.Kernel.Value.{Fields}
use compilableworld_runtime.Delivery.Entry.{
  JournalStatus, JournalError, runtime_committed, outbox_enqueued, failed,
  ActionCommitJournalRecord, Key, required, identity, is_committed, assert_transition, may_move,
}
use compilableworld_runtime.Delivery.Journal.{
  Journal, prepare, prepare_over, record_runtime_committed, mark_outbox_enqueued, mark_failed, move,
  pending_delivery, commit_entry, enqueue_entry, fail_entry, candidate_of,
}
use mathlib.Core.Path.{subst, sym}
use compilableworld_runtime.Base.Lists.{Has, All-Has}
use compilableworld_runtime.Delivery.Journal.Pending.{Committed, pending-Committed, pending-Has}
use compilableworld_runtime.Delivery.Journal.Status.{
  reaches, reaches_refl, reaches_trans, may_move-reaches,
}

-- A later state of an entry.
pub record Later (r t : ActionCommitJournalRecord) : Type 0 where
  pub commit_id : t.commit_id ≡ r.commit_id
  pub action_id : t.action_id ≡ r.action_id
  pub runtime_instance_id : t.runtime_instance_id ≡ r.runtime_instance_id
  pub created_at : t.created_at ≡ r.created_at
  pub status : reaches r.status t.status ≡ true

abbrev pub AllLater : Journal → Journal → Type 0
AllLater s t =
    (key : Key) (r : ActionCommitJournalRecord)
    → lookup key s ≡ some r
    → (u : ActionCommitJournalRecord) × (lookup key t ≡ some u) × Later r u

same-Later : (r : ActionCommitJournalRecord) → Later r r
same-Later r = record {
  commit_id = refl;
  action_id = refl;
  runtime_instance_id = refl;
  created_at = refl;
  status = reaches_refl r.status;
}

AllLater-refl : (s : Journal) → AllLater s s
AllLater-refl s key r h = (r, h, same-Later r)

AllLater-trans : (s t u : Journal) → AllLater s t → AllLater t u → AllLater s u
AllLater-trans s t u p q key r h =
    let (x, hx, kx) = p key r h in
    let (y, hy, ky) = q key x hx in
    (
      y,
      hy,
      record {
        commit_id = ky.commit_id ∙ kx.commit_id;
        action_id = ky.action_id ∙ kx.action_id;
        runtime_instance_id = ky.runtime_instance_id ∙ kx.runtime_instance_id;
        created_at = ky.created_at ∙ kx.created_at;
        status = reaches_trans r.status x.status y.status kx.status ky.status;
      },
    )

insert-AllLater :
    (key : Key) (v : ActionCommitJournalRecord) (s : Journal)
    → ((r : ActionCommitJournalRecord) → lookup key s ≡ some r → Later r v)
    → AllLater s (insert key v s)
insert-AllLater key v s over k r h = elim (insert-cases key k v s) [
  | inl (same, now) ↦ (v, now, over r (ap (λ j. lookup j s) same ∙ h))
  | inr as_before ↦ (r, as_before ∙ h, same-Later r)
]

-- A change that sets the status to the target, and nothing of the identity.
abbrev Moves : (ActionCommitJournalRecord → ActionCommitJournalRecord) → JournalStatus → Type 0
Moves change target =
    (r : ActionCommitJournalRecord) → may_move r.status target ≡ true → Later r (change r)

move-AllLater :
    (key : Key) (change : ActionCommitJournalRecord → ActionCommitJournalRecord)
    (target : JournalStatus) (action : String) (o : Option ActionCommitJournalRecord) (s : Journal)
    → Moves change target
    → lookup key s ≡ o
    → AllLater s (move key change (assert_transition o action target) s).1
move-AllLater key change target action none s good found = AllLater-refl s
move-AllLater key change target action (some r) s good found =
    elim (Bool-cases (r.action_id == action)) [
      | inl own ↦ elim (Bool-cases (may_move r.status target)) [
        | inl may ↦
            rw (own, may)
              (insert-AllLater key (change r) s
                (λ x h. let e : r ≡ x = cc (found, h) in rw⁻¹ e (good r may)))
        | inr barred ↦ rw (own, barred) (AllLater-refl s)
      ]
      | inr other ↦ rw other (AllLater-refl s)
    ]

changed-Later :
    (r t : ActionCommitJournalRecord) (target : JournalStatus)
    → t.commit_id ≡ r.commit_id
    → t.action_id ≡ r.action_id
    → t.runtime_instance_id ≡ r.runtime_instance_id
    → t.created_at ≡ r.created_at
    → t.status ≡ target
    → may_move r.status target ≡ true
    → Later r t
changed-Later r t target a b c d e may = record {
  commit_id = a;
  action_id = b;
  runtime_instance_id = c;
  created_at = d;
  status = ap (λ x. reaches r.status x) e ∙ may_move-reaches r.status target may;
}

prepare_over-AllLater :
    (c : ActionCommitJournalRecord) (o : Option ActionCommitJournalRecord) (s : Journal)
    → lookup (c.session_id, c.idempotency_key) s ≡ o
    → AllLater s (prepare_over c o s).1
prepare_over-AllLater c none s found =
    insert-AllLater (c.session_id, c.idempotency_key) c s (λ r h. cc (h, found))
prepare_over-AllLater c (some r) s found = AllLater-refl s

delivered_not : {t : JournalStatus} → is_committed t ≡ true → t ≡ outbox_enqueued → ⊥
delivered_not c done = cc (rw done at c)

module _ (roundtrip : Fields → Fields) where
  pub data Call : Type 0 where
    preparing : (session key action runtime : String) (now : ℕ) (id : String) → Call
    committing : (session key action : String) (result : Fields) (now : ℕ) → Call
    enqueuing : (session key action outbox : String) (now : ℕ) → Call
    failing : (session key action error : String) (now : ℕ) → Call

  abbrev pub after : Call → Journal → Journal
  after (preparing session key action runtime now id) s =
      (prepare session key action runtime now id s).1
  after (committing session key action result now) s =
      (record_runtime_committed roundtrip session key action result now s).1
  after (enqueuing session key action outbox now) s =
      (mark_outbox_enqueued session key action outbox now s).1
  after (failing session key action error now) s = (mark_failed session key action error now s).1

  abbrev pub after_all : List Call → Journal → Journal
  after_all [] s = s
  after_all (c ∷ cs) s = after_all cs (after c s)

  after-AllLater : (c : Call) (s : Journal) → AllLater s (after c s)
  unfolding prepare record_runtime_committed mark_outbox_enqueued mark_failed
  after-AllLater (preparing session key action runtime now id) s =
      after_lift AllLater (identity session key action)
        (λ ids s.
          continue (required runtime none)
            (λ r s. prepare_over (candidate_of ids r now id) (lookup ids.0 s) s) s)
        s (AllLater-refl s)
        (λ ids _.
          after_lift AllLater (required runtime none)
            (λ r s. prepare_over (candidate_of ids r now id) (lookup ids.0 s) s) s (AllLater-refl s)
            (λ r _. prepare_over-AllLater (candidate_of ids r now id) (lookup ids.0 s) s refl))
  after-AllLater (committing session key action result now) s =
      after_lift AllLater (identity session key action)
        (λ ids s.
          move ids.0 (commit_entry (roundtrip result) now)
            (assert_transition (lookup ids.0 s) ids.1 runtime_committed) s)
        s (AllLater-refl s)
        (λ ids _.
          move-AllLater ids.0 (commit_entry (roundtrip result) now) runtime_committed ids.1
            (lookup ids.0 s) s
            (λ r may.
              changed-Later r (commit_entry (roundtrip result) now r) runtime_committed refl refl
                refl refl refl may)
            refl)
  after-AllLater (enqueuing session key action outbox now) s =
      after_lift AllLater (identity session key action)
        (λ ids s.
          continue (required outbox none)
            (λ o s.
              move ids.0 (enqueue_entry o now)
                (assert_transition (lookup ids.0 s) ids.1 outbox_enqueued) s)
            s)
        s (AllLater-refl s)
        (λ ids _.
          after_lift AllLater (required outbox none)
            (λ o s.
              move ids.0 (enqueue_entry o now)
                (assert_transition (lookup ids.0 s) ids.1 outbox_enqueued) s)
            s (AllLater-refl s)
            (λ o _.
              move-AllLater ids.0 (enqueue_entry o now) outbox_enqueued ids.1 (lookup ids.0 s) s
                (λ r may.
                  changed-Later r (enqueue_entry o now r) outbox_enqueued refl refl refl refl refl
                    may)
                refl))
  after-AllLater (failing session key action error now) s =
      after_lift AllLater (identity session key action)
        (λ ids s.
          continue (required error none)
            (λ e s.
              move ids.0 (fail_entry e now) (assert_transition (lookup ids.0 s) ids.1 failed) s)
            s)
        s (AllLater-refl s)
        (λ ids _.
          after_lift AllLater (required error none)
            (λ e s.
              move ids.0 (fail_entry e now) (assert_transition (lookup ids.0 s) ids.1 failed) s)
            s (AllLater-refl s)
            (λ e _.
              move-AllLater ids.0 (fail_entry e now) failed ids.1 (lookup ids.0 s) s
                (λ r may. changed-Later r (fail_entry e now r) failed refl refl refl refl refl may)
                refl))

  -- Whatever calls are made, in whatever order, an entry is never lost and stays that of the same
  -- commit, action and runtime; once the runtime committed it, it is never prepared or failed again,
  -- and once it failed, it stays failed.
  pub entries_kept : (cs : List Call) (s : Journal) → AllLater s (after_all cs s)
  entries_kept [] s = AllLater-refl s
  entries_kept (c ∷ cs) s =
      let rest = entries_kept cs (after c s) in
      AllLater-trans s (after c s) (after_all cs (after c s)) (after-AllLater c s) rest

  -- Recording the runtime's result for an action that was
  -- already handed to the outbox succeeds, and its entry, which keeps its outbox id, is then among
  -- those of `pending_delivery`, where it was not before: it waits for delivery again.
  pub delivered_waits_again :
      (session key action : String) (result : Fields) (now : ℕ) (s : Journal) {ids : Key × String}
      {r : ActionCommitJournalRecord}
      → identity session key action ≡ ok ids
      → lookup ids.0 s ≡ some r
      → r.action_id ≡ ids.1
      → r.status ≡ outbox_enqueued
      → let done = record_runtime_committed roundtrip session key action result now s in
        (u : ActionCommitJournalRecord) × (done.0 ≡ ok u)
        × (u.outbox_id ≡ r.outbox_id)
        × Has u (pending_delivery done.1)
        × ¬ Has r (pending_delivery s)
  unfolding record_runtime_committed
  delivered_waits_again session key action result now s {ids} {r} e found own done =
      let u = commit_entry (roundtrip result) now r in
      let recorded : record_runtime_committed roundtrip session key action result now s
          ≡ (ok u, insert ids.0 u s) =
        rw (e, found, (string_eq.beq_iff r.action_id ids.1).1 own, done) refl in
      (
        u,
        ap (λ (x : Outcome JournalError ActionCommitJournalRecord × Journal). x.0) recorded,
        refl,
        subst
            (λ (x : Outcome JournalError ActionCommitJournalRecord × Journal).
              Has u (pending_delivery x.1))
            (sym recorded)
            (pending-Has ids.0 u (insert ids.0 u s) (lookup-insert_self ids.0 u s) refl),
        λ m. delivered_not (All-Has Committed r (pending_delivery s) (pending-Committed s) m) done,
      )
