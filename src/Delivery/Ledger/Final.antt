-- ===== src/Delivery/Ledger/Final.antt =====
-- action_ledger.py: what any sequence of calls leaves of a reservation.
use compilableworld_runtime.Base.{
  ℕ, String, Bool, true, false, ◌≡◌, refl, ap, ◌∙◌, inl, inr, Option, none, some, List, [], ◌∷◌,
  Outcome, ok, err, ◌==◌, pair_eq, string_eq, Bool-cases,
}
use compilableworld_runtime.Base.Dict.{lookup, insert, insert-cases}
use compilableworld_runtime.Base.Exec.{continue}
use compilableworld_runtime.Kernel.Value.{Fields}
use compilableworld_runtime.Delivery.Reservation.{
  ActionReservationRecord, ReservationError, Key, record_key, is_reserved, read_reservation,
  read_identity, assert_completable, final_status,
}
use compilableworld_runtime.Delivery.Ledger.{
  Reservations, reserve, reserve_over, complete, finalize,
}

-- A later state of a reservation: the same action under the same fingerprint, and the very same
-- record once it is final.
pub record Kept (r t : ActionReservationRecord) : Type 0 where
  pub fingerprint : t.fingerprint ≡ r.fingerprint
  pub action_id : t.action_id ≡ r.action_id
  pub created_at : t.created_at ≡ r.created_at
  pub final : is_reserved r.status ≡ false → t ≡ r

abbrev pub AllKept : Reservations → Reservations → Type 0
AllKept s t =
    (key : Key) (r : ActionReservationRecord)
    → lookup key s ≡ some r
    → (u : ActionReservationRecord) × (lookup key t ≡ some u) × Kept r u

AllKept-refl : (s : Reservations) → AllKept s s
AllKept-refl s key r h =
    (r, h, record { fingerprint = refl; action_id = refl; created_at = refl; final = λ f. refl })

AllKept-trans : (s t u : Reservations) → AllKept s t → AllKept t u → AllKept s u
AllKept-trans s t u p q key r h =
    let (x, hx, kx) = p key r h in
    let (y, hy, ky) = q key x hx in
    (
      y,
      hy,
      record {
        fingerprint = ky.fingerprint ∙ kx.fingerprint;
        action_id = ky.action_id ∙ kx.action_id;
        created_at = ky.created_at ∙ kx.created_at;
        final = λ f.
            let same : x ≡ r = kx.final f in
            ky.final (ap (λ (z : ActionReservationRecord). is_reserved z.status) same ∙ f) ∙ same;
      },
    )

-- A write over a record that it keeps, or where there was none.
insert-AllKept :
    (key : Key) (v : ActionReservationRecord) (s : Reservations)
    → ((r : ActionReservationRecord) → lookup key s ≡ some r → Kept r v)
    → AllKept s (insert key v s)
unfolding AllKept-refl
insert-AllKept key v s over k r h = elim (insert-cases key k v s) [
  | inl (same, now) ↦ (v, now, over r (ap (λ j. lookup j s) same ∙ h))
  | inr before ↦ (r, before ∙ h, (AllKept-refl s k r h).2)
]

reserve_over-AllKept :
    (key : Key) (c : ActionReservationRecord) (o : Option ActionReservationRecord)
    (s : Reservations)
    → lookup key s ≡ o
    → AllKept s (reserve_over key c o s).1
reserve_over-AllKept key c none s found = insert-AllKept key c s (λ r h. cc (h, found))
reserve_over-AllKept key c (some r) s found = AllKept-refl s

reserve-AllKept :
    (session key fingerprint action : String) (now : ℕ) (s : Reservations)
    → AllKept s (reserve session key fingerprint action now s).1
unfolding reserve
reserve-AllKept session key fingerprint action now s =
    go (read_reservation session key fingerprint action now)
  where
    go :
        (o : Outcome ReservationError ActionReservationRecord)
        → AllKept s
            (continue o (λ c s. reserve_over (record_key c) c (lookup (record_key c) s) s) s).1
    go (ok c) = reserve_over-AllKept (record_key c) c (lookup (record_key c) s) s refl
    go (err e) = AllKept-refl s

module _ (roundtrip : Fields → Fields) where
  updated : ActionReservationRecord → Fields → Bool → ℕ → ActionReservationRecord
  updated r result succeeded now = record r {
    status = final_status succeeded;
    result = some (roundtrip result);
    updated_at = now;
  }

  updated-Kept :
      (r : ActionReservationRecord) (result : Fields) (succeeded : Bool) (now : ℕ)
      → is_reserved r.status ≡ true
      → Kept r (updated r result succeeded now)
  unfolding updated
  updated-Kept r result succeeded now open_ = record {
    fingerprint = refl;
    action_id = refl;
    created_at = refl;
    final = λ f. cc (open_, f);
  }

  finalize-AllKept :
      (key : Key) (result : Fields) (succeeded : Bool) (now : ℕ) (action : String)
      (o : Option ActionReservationRecord) (s : Reservations)
      → lookup key s ≡ o
      → AllKept s (finalize roundtrip key result succeeded now (assert_completable o action) s).1
  unfolding updated
  finalize-AllKept key result succeeded now action none s found = AllKept-refl s
  finalize-AllKept key result succeeded now action (some r) s found =
      elim (Bool-cases (r.action_id == action)) [
        | inl own ↦ elim (Bool-cases (is_reserved r.status)) [
          | inl waits ↦
              rw (own, waits)
                (insert-AllKept key (updated r result succeeded now) s (λ x h.
                  let e : r ≡ x = cc (found, h) in
                  rw⁻¹ e (updated-Kept r result succeeded now waits)))
          | inr done ↦ rw (own, done) (AllKept-refl s)
        ]
        | inr other ↦ rw other (AllKept-refl s)
      ]

  complete-AllKept :
      (session key action : String) (result : Fields) (succeeded : Bool) (now : ℕ)
      (s : Reservations)
      → AllKept s (complete roundtrip session key action result succeeded now s).1
  unfolding complete
  complete-AllKept session key action result succeeded now s = go (read_identity session key action)
    where
      go :
          (o : Outcome ReservationError (Key × String))
          → AllKept s
              (continue o
                (λ ids s.
                  finalize roundtrip ids.0 result succeeded now
                    (assert_completable (lookup ids.0 s) ids.1)
                    s)
                s).1
      go (ok ids) = finalize-AllKept ids.0 result succeeded now ids.1 (lookup ids.0 s) s refl
      go (err e) = AllKept-refl s

  pub data Call : Type 0 where
    reserving : (session key fingerprint action : String) (now : ℕ) → Call
    completing : (session key action : String) (result : Fields) (succeeded : Bool) (now : ℕ) → Call

  abbrev pub after : Call → Reservations → Reservations
  after (reserving session key fingerprint action now) s =
      (reserve session key fingerprint action now s).1
  after (completing session key action result succeeded now) s =
      (complete roundtrip session key action result succeeded now s).1

  abbrev pub after_all : List Call → Reservations → Reservations
  after_all [] s = s
  after_all (c ∷ cs) s = after_all cs (after c s)

  after-AllKept : (c : Call) (s : Reservations) → AllKept s (after c s)
  after-AllKept (reserving session key fingerprint action now) s =
      reserve-AllKept session key fingerprint action now s
  after-AllKept (completing session key action result succeeded now) s =
      complete-AllKept session key action result succeeded now s

  -- Whatever is reserved and completed, in whatever order and by whoever, a reservation is never
  -- lost, stays that of the same action under the same fingerprint, and is never changed once it is
  -- final.
  pub reservations_kept : (cs : List Call) (s : Reservations) → AllKept s (after_all cs s)
  reservations_kept [] s = AllKept-refl s
  reservations_kept (c ∷ cs) s =
      let rest = reservations_kept cs (after c s) in
      AllKept-trans s (after c s) (after_all cs (after c s)) (after-AllKept c s) rest
