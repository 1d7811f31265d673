-- ===== src/Delivery/Ledger/Tests.antt =====
-- Reservations at concrete inputs.
use compilableworld_runtime.Base.{true, ◌≡◌, ◌≢◌, refl, some, [], ◌∷◌, ok}
use compilableworld_runtime.Base.Text.{stripped}
use compilableworld_runtime.Base.Compare.{pair_beq}
use compilableworld_runtime.Base.Dict.{lookup, insert}
use compilableworld_runtime.Kernel.Value.{Fields, end}
use compilableworld_runtime.Delivery.Reservation.{
  ActionReservationRecord, completed, candidate_of, read_reservation, read_identity, required,
  read_key,
}
use compilableworld_runtime.Delivery.Ledger.{Reservations, reserve, complete}
use compilableworld_runtime.Delivery.Ledger.Once.{reserve_once, complete_replays}
use compilableworld_runtime.Delivery.Ledger.Final.{
  AllKept, reserving, completing, after_all, reservations_kept,
}

abbrev same : Fields → Fields
same f = f

abbrev waiting : ActionReservationRecord
waiting = candidate_of "s" "k" "f" "a" 5

abbrev one : Reservations
one = (("s", "k"), waiting) ∷ []

reserve_once_example : (reserve " s" "k" "g" "b" 9 (reserve "s" "k" "f" "a" 5 []).1).0 ≢ ok waiting
unfolding reserve read_reservation required read_key stripped insert lookup
reserve_once_example = reserve_once "s" "k" "f" "a" 5 [] refl refl "g" "b" 9 waiting

complete_replays_example :
    (reserve "s" "k" "f" "z" 9 (complete same "s" "k" "a" end true 7 one).1 ≡ (
      ok (record waiting { status = completed; result = some end; updated_at = 7 }),
      (complete same "s" "k" "a" end true 7 one).1,
    ))
    × (some end ≡ some (same end))
unfolding complete read_identity read_reservation required read_key stripped insert lookup pair_beq
complete_replays_example = complete_replays same "s" "k" "a" end true 7 one refl "f" "z" 9 refl refl

reservations_kept_example :
    AllKept one
      (after_all same (completing "s" "k" "a" end true 7 ∷ reserving "s" "k" "f" "b" 8 ∷ []) one)
reservations_kept_example =
    reservations_kept same (completing "s" "k" "a" end true 7 ∷ reserving "s" "k" "f" "b" 8 ∷ [])
      one
