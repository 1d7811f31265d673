-- ===== src/Delivery/Ledger/Once.antt =====
-- action_ledger.py: a key is reserved once, and gives back the result that it was completed with.
use compilableworld_runtime.Base.{
  ℕ, String, Bool, true, false, ◌≡◌, ◌≢◌, refl, sym, ap, ◌∙◌, inl, inr, Option, none, some, Outcome,
  ok, err, ◌==◌, pair_eq, string_eq, Bool-cases,
}
use compilableworld_runtime.Base.Dict.{lookup, lookup-insert_self}
use compilableworld_runtime.Base.Raising.{bind-ok}
use compilableworld_runtime.Base.Exec.{continue-ok}
use compilableworld_runtime.Kernel.Value.{Fields}
use compilableworld_runtime.Delivery.Reservation.{
  ActionReservationRecord, ReservationError, Key, record_key, is_reserved, read_reservation,
  read_identity, required, read_key, identity_of, reservation_of, candidate_of, assert_completable,
  final_status, resolve_existing,
}
use compilableworld_runtime.Delivery.Ledger.{
  Reservations, reserve, reserve_over, complete, finalize,
}

identity_of-key :
    (o : Outcome ReservationError String) (key : Key) {ids : Key × String}
    → identity_of o key ≡ ok ids
    → ids.0 ≡ key
identity_of-key (ok x) key {ids} h =
    let e : (key, x) ≡ ids = cc (h) in ap (λ (i : Key × String). i.0) (sym e)
identity_of-key (err e) key h = cc

reservation_of-key :
    (o p : Outcome ReservationError String) (now : ℕ) (key : Key) {c : ActionReservationRecord}
    → reservation_of o p now key ≡ ok c
    → (record_key c ≡ key) × (is_reserved c.status ≡ true)
reservation_of-key (ok x) (ok y) now key {c} h =
    let e : candidate_of key.0 key.1 x y now ≡ c = cc (h) in
    (
      ap (λ (r : ActionReservationRecord). record_key r) (sym e),
      ap (λ (r : ActionReservationRecord). is_reserved r.status) (sym e),
    )
reservation_of-key (ok x) (err e) now key h = cc
reservation_of-key (err e) p now key h = cc

read_reservation-key :
    (session key fingerprint action : String) (now : ℕ) {c : ActionReservationRecord}
    → read_reservation session key fingerprint action now ≡ ok c
    → (read_key session key ≡ ok (record_key c)) × (is_reserved c.status ≡ true)
unfolding read_reservation
read_reservation-key session key fingerprint action now {c} h =
    let (k, e, f) =
      bind-ok (read_key session key)
        (reservation_of (required fingerprint (some 128)) (required action none) now) h in
    let (same, waits) =
      reservation_of-key (required fingerprint (some 128)) (required action none) now k f in
    (e ∙ ap (λ (j : Key). ok j) (sym same), waits)

read_identity-key :
    (session key action : String) {ids : Key × String}
    → read_identity session key action ≡ ok ids
    → read_key session key ≡ ok ids.0
unfolding read_identity
read_identity-key session key action {ids} h =
    let (k, e, f) = bind-ok (read_key session key) (identity_of (required action none)) h in
    e ∙ ap (λ (j : Key). ok j) (sym (identity_of-key (required action none) k f))

-- The second reservation of a key that waits: a conflict, or in flight.
busy :
    (r : ActionReservationRecord) (fingerprint : String)
    → is_reserved r.status ≡ true
    → (t : ActionReservationRecord) → resolve_existing r fingerprint ≢ ok t
busy r fingerprint waits t h = elim (Bool-cases (r.fingerprint == fingerprint)) [
  | inl same ↦ cc (rw (same, waits) at h)
  | inr other ↦ cc (rw other at h)
]

-- A record that is final is given back to its fingerprint.
replayed :
    (r : ActionReservationRecord) (fingerprint : String)
    → is_reserved r.status ≡ false
    → r.fingerprint ≡ fingerprint
    → resolve_existing r fingerprint ≡ ok r
replayed r fingerprint done same =
    rw ((string_eq.beq_iff r.fingerprint fingerprint).1 same, done) refl

resolved :
    (x : ActionReservationRecord) (fingerprint : String) {r : ActionReservationRecord}
    → is_reserved r.status ≡ true
    → resolve_existing x fingerprint ≢ ok r
resolved x fingerprint {r} waits h = elim (Bool-cases (is_reserved x.status)) [
  | inl open_ ↦ busy x fingerprint open_ r h
  | inr done ↦ elim (Bool-cases (x.fingerprint == fingerprint)) [
    | inl same ↦
        let e : x ≡ r = cc (rw (same, done) at h) in
        cc (ap (λ (z : ActionReservationRecord). is_reserved z.status) e, waits, done)
    | inr other ↦ cc (rw other at h)
  ]
]

fresh_stored :
    (key : Key) (c : ActionReservationRecord) (o : Option ActionReservationRecord)
    (s : Reservations) {r : ActionReservationRecord}
    → (reserve_over key c o s).0 ≡ ok r
    → is_reserved r.status ≡ true
    → lookup key (reserve_over key c o s).1 ≡ some r
fresh_stored key c none s h waits =
    lookup-insert_self key c s ∙ ap (λ (x : ActionReservationRecord). some x) (cc (h))
fresh_stored key c (some x) s h waits = absurd (resolved x c.fingerprint waits h)

ok_injective : {k j : Key} (o : Outcome ReservationError Key) → o ≡ ok k → o ≡ ok j → k ≡ j
ok_injective o h g = cc (h, g)

-- The state that a call leaves whose arguments were read.
reserve-read :
    (session key fingerprint action : String) (now : ℕ) (s : Reservations)
    {c : ActionReservationRecord}
    → read_reservation session key fingerprint action now ≡ ok c
    → reserve session key fingerprint action now s
      ≡ reserve_over (record_key c) c (lookup (record_key c) s) s
unfolding reserve
reserve-read session key fingerprint action now s e = rw e refl

-- A call that returned read its arguments.
reserve-ok :
    (session key fingerprint action : String) (now : ℕ) (s : Reservations)
    {r : ActionReservationRecord}
    → (reserve session key fingerprint action now s).0 ≡ ok r
    → (c : ActionReservationRecord) × (read_reservation session key fingerprint action now ≡ ok c)
unfolding reserve
reserve-ok session key fingerprint action now s h =
    let (c, e, rest) =
      continue-ok (read_reservation session key fingerprint action now)
        (λ c s. reserve_over (record_key c) c (lookup (record_key c) s) s) s h in
    (c, e)

-- Once `reserve` has returned a reservation that waits, no second call for the same session and key
-- returns anything, whatever fingerprint and action it names, until the first is completed.
pub reserve_once :
    (session key fingerprint action : String) (now : ℕ) (s : Reservations)
    {r : ActionReservationRecord}
    → (reserve session key fingerprint action now s).0 ≡ ok r
    → is_reserved r.status ≡ true
    → (fingerprint' action' : String) (now' : ℕ) (t : ActionReservationRecord)
    → (reserve session key fingerprint' action' now'
        (reserve session key fingerprint action now s).1).0
      ≢ ok t
reserve_once session key fingerprint action now s {r} h waits fingerprint' action' now' t again =
    let s1 : Reservations = (reserve session key fingerprint action now s).1 in
    let (c, e) = reserve-ok session key fingerprint action now s h in
    let (d, f) = reserve-ok session key fingerprint' action' now' s1 again in
    let same : record_key c ≡ record_key d =
      ok_injective (read_key session key)
        (read_reservation-key session key fingerprint action now e).0
        (read_reservation-key session key fingerprint' action' now' f).0 in
    let first = reserve-read session key fingerprint action now s e in
    let stored : lookup (record_key c) s1 ≡ some r =
      ap
        (λ (x : Outcome ReservationError ActionReservationRecord × Reservations).
          lookup (record_key c) x.1)
        first
      ∙ fresh_stored (record_key c) c (lookup (record_key c) s) s
          (ap (λ (x : Outcome ReservationError ActionReservationRecord × Reservations). x.0)
              (sym first)
            ∙ h)
          waits in
    let found : lookup (record_key d) s1 ≡ some r =
      ap (λ (k : Key). lookup k s1) (sym same) ∙ stored in
    let second =
      ap (λ (x : Outcome ReservationError ActionReservationRecord × Reservations). x.0)
        (reserve-read session key fingerprint' action' now' s1 f) in
    let over =
      ap (λ (o : Option ActionReservationRecord). (reserve_over (record_key d) d o s1).0) found in
    busy r d.fingerprint waits t (sym over ∙ sym second ∙ again)

module _ (roundtrip : Fields → Fields) where
  finalized :
      (key : Key) (result : Fields) (succeeded : Bool) (now : ℕ)
      (o : Outcome ReservationError ActionReservationRecord) (s : Reservations)
      {r : ActionReservationRecord}
      → (finalize roundtrip key result succeeded now o s).0 ≡ ok r
      → (lookup key (finalize roundtrip key result succeeded now o s).1 ≡ some r)
        × (is_reserved r.status ≡ false)
        × (r.result ≡ some (roundtrip result))
  finalized key result succeeded now (err e) s h = cc
  finalized key result succeeded now (ok x) s {r} h =
      let updated : ActionReservationRecord = record x {
        status = final_status succeeded;
        result = some (roundtrip result);
        updated_at = now;
      } in
      let e : updated ≡ r = cc (h) in
      (
        lookup-insert_self key updated s ∙ ap (λ (z : ActionReservationRecord). some z) e,
        ap (λ (z : ActionReservationRecord). is_reserved z.status) (sym e) ∙ is_final succeeded,
        ap (λ (z : ActionReservationRecord). z.result) (sym e),
      )
    where
      is_final : (b : Bool) → is_reserved (final_status b) ≡ false
      is_final true = refl
      is_final false = refl

  -- After `complete` has returned a record, `reserve` with its session, key and fingerprint returns
  -- that record, with the result that was given, and changes nothing: the action is not run again.
  pub complete_replays :
      (session key action : String) (result : Fields) (succeeded : Bool) (now : ℕ)
      (s : Reservations) {r c : ActionReservationRecord}
      → (complete roundtrip session key action result succeeded now s).0 ≡ ok r
      → (fingerprint action' : String) (now' : ℕ)
      → read_reservation session key fingerprint action' now' ≡ ok c
      → r.fingerprint ≡ c.fingerprint
      → let s1 = (complete roundtrip session key action result succeeded now s).1 in
        (reserve session key fingerprint action' now' s1 ≡ (ok r, s1))
        × (r.result ≡ some (roundtrip result))
  unfolding complete
  complete_replays session key action result succeeded now s {r} {c} h fingerprint action' now' e
        same =
      let (ids, f, k) =
        continue-ok (read_identity session key action)
          (λ ids s.
            finalize roundtrip ids.0 result succeeded now
              (assert_completable (lookup ids.0 s) ids.1) s)
          s h in
      let s1 : Reservations = (complete roundtrip session key action result succeeded now s).1 in
      let done : complete roundtrip session key action result succeeded now s
          ≡ finalize roundtrip ids.0 result succeeded now
              (assert_completable (lookup ids.0 s) ids.1) s =
        rw f refl in
      let (stored, final, given) =
        finalized ids.0 result succeeded now (assert_completable (lookup ids.0 s) ids.1) s k in
      let one : ids.0 ≡ record_key c =
        ok_injective (read_key session key) (read_identity-key session key action f)
          (read_reservation-key session key fingerprint action' now' e).0 in
      let found : lookup (record_key c) s1 ≡ some r =
        ap
          (λ (x : Outcome ReservationError ActionReservationRecord × Reservations).
            lookup (record_key c) x.1)
          done
        ∙ ap
            (λ (j : Key).
              lookup j
                (finalize roundtrip ids.0 result succeeded now
                  (assert_completable (lookup ids.0 s) ids.1) s).1)
            (sym one)
        ∙ stored in
      (
        reserve-read session key fingerprint action' now' s1 e
            ∙ ap (λ (o : Option ActionReservationRecord). reserve_over (record_key c) c o s1) found
            ∙ ap (λ (o : Outcome ReservationError ActionReservationRecord). (o, s1))
                (replayed r c.fingerprint final same),
        given,
      )
