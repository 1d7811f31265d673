-- ===== src/Delivery/Journal/Status.antt =====
-- action_journal.py: how the status of an entry changes in time.
use compilableworld_runtime.Base.{Bool, true, false, ◌≡◌, refl, pair_eq, string_eq}
use compilableworld_runtime.Delivery.Entry.{
  JournalStatus, prepared, runtime_committed, outbox_enqueued, failed, may_move,
}

-- How the status of an entry may change in time: a prepared entry goes anywhere, one that the runtime
-- committed stays committed or enqueued, and a failed one stays failed.
abbrev pub reaches : JournalStatus → JournalStatus → Bool
reaches prepared t = true
reaches runtime_committed runtime_committed = true
reaches runtime_committed outbox_enqueued = true
reaches outbox_enqueued runtime_committed = true
reaches outbox_enqueued outbox_enqueued = true
reaches failed failed = true
reaches _ _ = false

pub reaches_refl : (a : JournalStatus) → reaches a a ≡ true
reaches_refl prepared = refl
reaches_refl runtime_committed = refl
reaches_refl outbox_enqueued = refl
reaches_refl failed = refl

pub reaches_trans :
    (a b c : JournalStatus) → reaches a b ≡ true → reaches b c ≡ true → reaches a c ≡ true
reaches_trans prepared b c h k = refl
reaches_trans runtime_committed runtime_committed c h k = k
reaches_trans runtime_committed outbox_enqueued runtime_committed h k = refl
reaches_trans runtime_committed outbox_enqueued outbox_enqueued h k = refl
reaches_trans runtime_committed outbox_enqueued prepared h k = cc
reaches_trans runtime_committed outbox_enqueued failed h k = cc
reaches_trans runtime_committed prepared c h k = cc
reaches_trans runtime_committed failed c h k = cc
reaches_trans outbox_enqueued outbox_enqueued c h k = k
reaches_trans outbox_enqueued runtime_committed runtime_committed h k = refl
reaches_trans outbox_enqueued runtime_committed outbox_enqueued h k = refl
reaches_trans outbox_enqueued runtime_committed prepared h k = cc
reaches_trans outbox_enqueued runtime_committed failed h k = cc
reaches_trans outbox_enqueued prepared c h k = cc
reaches_trans outbox_enqueued failed c h k = cc
reaches_trans failed failed c h k = k
reaches_trans failed prepared c h k = cc
reaches_trans failed runtime_committed c h k = cc
reaches_trans failed outbox_enqueued c h k = cc

pub may_move-reaches : (a b : JournalStatus) → may_move a b ≡ true → reaches a b ≡ true
may_move-reaches prepared b h = refl
may_move-reaches runtime_committed runtime_committed h = refl
may_move-reaches runtime_committed outbox_enqueued h = refl
may_move-reaches runtime_committed prepared h = h
may_move-reaches runtime_committed failed h = h
may_move-reaches outbox_enqueued runtime_committed h = refl
may_move-reaches outbox_enqueued outbox_enqueued h = refl
may_move-reaches outbox_enqueued prepared h = h
may_move-reaches outbox_enqueued failed h = h
may_move-reaches failed failed h = refl
may_move-reaches failed prepared h = h
may_move-reaches failed runtime_committed h = h
may_move-reaches failed outbox_enqueued h = h
