-- ===== src/Delivery/Ledger.antt =====
-- compilableworld_mcp/action_ledger.py: `ActionReservationStore` with `db_path is None`. A result is
-- what json reads back from its own text, which `roundtrip` stands for.
pub mod Once
pub mod Final
mod Tests
use compilableworld_runtime.Base.{
  ℕ, String, Bool, Option, none, some, Outcome, ok, err, pair_eq, string_eq,
}
use compilableworld_runtime.Base.Dict.{Dict, lookup, insert}
use compilableworld_runtime.Base.Exec.{Exec, lift, ◌>>=◌}
use compilableworld_runtime.Kernel.Value.{Fields}
use compilableworld_runtime.Delivery.Reservation.{
  ActionReservationRecord, ReservationError, Key, record_key, read_reservation, resolve_existing,
  read_identity, assert_completable, final_status, read_key,
}

abbrev pub Reservations : Type 0
Reservations = Dict Key ActionReservationRecord

abbrev pub Op : Type 0 → Type 0
Op A = Exec Reservations ReservationError A

-- `reserve` on the record found under the key.
abbrev pub reserve_over :
    Key → ActionReservationRecord → Option ActionReservationRecord → Op ActionReservationRecord
reserve_over key candidate none s = (ok candidate, insert key candidate s)
reserve_over key candidate (some r) s = (resolve_existing r candidate.fingerprint, s)

unfoldable pub reserve : String → String → String → String → ℕ → Op ActionReservationRecord
reserve session_id idempotency_key fingerprint action_id current =
    lift (read_reservation session_id idempotency_key fingerprint action_id current) >>= λ c s.
    reserve_over (record_key c) c (lookup (record_key c) s) s

module _ (roundtrip : Fields → Fields) where
  abbrev pub finalize :
      Key
      → Fields
      → Bool
      → ℕ
      → Outcome ReservationError ActionReservationRecord
      → Op ActionReservationRecord
  finalize key result succeeded current (err e) s = (err e, s)
  finalize key result succeeded current (ok r) s =
      let updated : ActionReservationRecord = record r {
        status = final_status succeeded;
        result = some (roundtrip result);
        updated_at = current;
      } in
      (ok updated, insert key updated s)

  unfoldable pub complete :
      String → String → String → Fields → Bool → ℕ → Op ActionReservationRecord
  complete session_id idempotency_key action_id result succeeded current =
      lift (read_identity session_id idempotency_key action_id) >>= λ ids s.
      let key : Key = ids.0 in
      finalize key result succeeded current (assert_completable (lookup key s) ids.1) s

pub get : String → String → Op (Option ActionReservationRecord)
get session_id idempotency_key =
    lift (read_key session_id idempotency_key) >>= λ key s. (ok (lookup key s), s)
