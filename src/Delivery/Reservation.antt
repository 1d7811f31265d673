-- ===== src/Delivery/Reservation.antt =====
-- compilableworld_mcp/action_ledger.py: reservations, and the checks that read no store.
use Prim.Native.String.{count}
use compilableworld_runtime.Base.{
  ℕ, String, Bool, true, false, Option, none, some, Outcome, ok, err, leb, ◌==◌, string_eq,
  if◌then◌else◌,
}
use compilableworld_runtime.Base.Raising.{◌>>=◌}
use compilableworld_runtime.Base.Text.{stripped}
use compilableworld_runtime.Kernel.Value.{Fields}

pub data ReservationStatus : Type 0 where
  reserved completed failed : ReservationStatus

-- The `code` of an `ActionReservationError`.
pub data ReservationError : Type 0 where
  invalid_action_reservation idempotency_conflict action_in_flight : ReservationError
  reservation_missing reservation_mismatch reservation_final : ReservationError

pub record ActionReservationRecord : Type 0 where
  pub session_id : String
  pub idempotency_key : String
  pub fingerprint : String
  pub action_id : String
  pub status : ReservationStatus
  pub result : Option Fields
  pub created_at : ℕ
  pub updated_at : ℕ

abbrev pub Key : Type 0
Key = String × String

abbrev fits : Option ℕ → String → Bool
fits none s = true
fits (some limit) s = leb (count s) limit

abbrev bounded : Option ℕ → Option String → Outcome ReservationError String
bounded limit none = err invalid_action_reservation
bounded limit (some s) = if fits limit s then ok s else err invalid_action_reservation

unfoldable pub required : String → Option ℕ → Outcome ReservationError String
required value limit = bounded limit (stripped value)

abbrev pub is_reserved : ReservationStatus → Bool
is_reserved reserved = true
is_reserved _ = false

abbrev pub resolve_existing :
    ActionReservationRecord → String → Outcome ReservationError ActionReservationRecord
resolve_existing r fingerprint =
    if r.fingerprint == fingerprint
    then (if is_reserved r.status then err action_in_flight else ok r)
    else err idempotency_conflict

abbrev pub assert_completable :
    Option ActionReservationRecord → String → Outcome ReservationError ActionReservationRecord
assert_completable none action = err reservation_missing
assert_completable (some r) action =
    if r.action_id == action
    then (if is_reserved r.status then ok r else err reservation_final)
    else err reservation_mismatch

abbrev pub candidate_of : String → String → String → String → ℕ → ActionReservationRecord
candidate_of session key digest action current = record {
  session_id = session;
  idempotency_key = key;
  fingerprint = digest;
  action_id = action;
  status = reserved;
  result = none;
  created_at = current;
  updated_at = current;
}

unfoldable pub read_key : String → String → Outcome ReservationError Key
unfolding required
read_key session_id idempotency_key = do
  session ← required session_id none
  key ← required idempotency_key (some 160)
  ok (session, key)

abbrev pub reservation_of :
    Outcome ReservationError String
    → Outcome ReservationError String
    → ℕ
    → Key
    → Outcome ReservationError ActionReservationRecord
reservation_of (ok digest) (ok action) current key =
    ok (candidate_of key.0 key.1 digest action current)
reservation_of (ok digest) (err e) current key = err e
reservation_of (err e) action current key = err e

-- What `reserve` makes of its arguments.
unfoldable pub read_reservation :
    String → String → String → String → ℕ → Outcome ReservationError ActionReservationRecord
unfolding required read_key
read_reservation session_id idempotency_key fingerprint action_id current = do
  key ← read_key session_id idempotency_key
  reservation_of (required fingerprint (some 128)) (required action_id none) current key

abbrev pub record_key : ActionReservationRecord → Key
record_key r = (r.session_id, r.idempotency_key)

abbrev pub final_status : Bool → ReservationStatus
final_status true = completed
final_status false = failed

abbrev pub identity_of :
    Outcome ReservationError String → Key → Outcome ReservationError (Key × String)
identity_of (ok action) key = ok (key, action)
identity_of (err e) key = err e

unfoldable pub read_identity : String → String → String → Outcome ReservationError (Key × String)
unfolding required read_key
read_identity session_id idempotency_key action_id = do
  key ← read_key session_id idempotency_key
  identity_of (required action_id none) key
