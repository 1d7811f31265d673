-- ===== src/Delivery/Outbox/Dedupe.antt =====
-- outbox.py: a dedupe key is enqueued once.
use compilableworld_runtime.Base.{
  ℕ, String, ◌≡◌, refl, sym, ap, ◌∙◌, inl, inr, Option, none, some, [], ◌∷◌, Outcome, ok, err, ◌==◌,
  string_eq, option_eq, Bool-cases,
}
use compilableworld_runtime.Base.Dict.{insert}
use compilableworld_runtime.Base.Exec.{continue-ok}
use compilableworld_runtime.Kernel.Value.{Fields}
use compilableworld_runtime.Delivery.Outbox.{
  Outbox, OutboxRecord, OutboxError, find_by_dedupe, add, add_new, enqueue, new_record, optional,
  required, or_now, invalid_outbox,
}
use compilableworld_runtime.Base.Text.{stripped}

find-insert :
    (key : String) (r : OutboxRecord) (s : Outbox)
    → r.dedupe_key ≡ some key
    → find_by_dedupe key s ≡ none
    → find_by_dedupe key (insert r.outbox_id r s) ≡ some r
unfolding find_by_dedupe insert
find-insert key r [] named gone = rw ((option_eq.beq_iff r.dedupe_key (some key)).1 named) refl
find-insert key r ((id, x) ∷ rest) named gone = elim (Bool-cases (id == r.outbox_id)) [
  | inl same ↦ rw (same, (option_eq.beq_iff r.dedupe_key (some key)).1 named) refl
  | inr other ↦ elim (Bool-cases (x.dedupe_key == some key)) [
    | inl taken ↦ cc (rw taken at gone)
    | inr free ↦
        let later = find-insert key r rest named (rw free at gone) in rw (other, free) later
  ]
]

optional-key :
    (o : Option String) {d : Option String}
    → (elim o [ none ↦ err invalid_outbox | some s ↦ ok (some s) ]) ≡ ok d
    → (k : String) × (d ≡ some k)
optional-key none h = cc
optional-key (some k) h = (k, cc (h))

new_record-dedupe :
    (event aggregate : Outcome OutboxError String) (dedupe : Outcome OutboxError (Option String))
    (payload : Fields) (now at : ℕ) (id : String) {r : OutboxRecord}
    → new_record event aggregate dedupe payload now at id ≡ ok r
    → dedupe ≡ ok r.dedupe_key
new_record-dedupe (ok e) (ok a) (ok d) payload now at id h = cc (h)
new_record-dedupe (ok e) (ok a) (err x) payload now at id h = cc
new_record-dedupe (ok e) (err x) dedupe payload now at id h = cc
new_record-dedupe (err x) aggregate dedupe payload now at id h = cc

add-key :
    (r : OutboxRecord) (k : String) (s : Outbox)
    → r.dedupe_key ≡ some k
    → add r r.dedupe_key s ≡ add_new r (find_by_dedupe k s) s
unfolding add
add-key r k s e = rw e refl

add-found :
    (r : OutboxRecord) (key : String) (o : Option OutboxRecord) (s : Outbox) {t : OutboxRecord}
    → r.dedupe_key ≡ some key
    → find_by_dedupe key s ≡ o
    → (add_new r o s).0 ≡ ok t
    → find_by_dedupe key (add_new r o s).1 ≡ some t
add-found r key none s named found h =
    find-insert key r s named found ∙ ap (λ (x : OutboxRecord). some x) (cc (h))
add-found r key (some x) s named found h = found ∙ ap (λ (x : OutboxRecord). some x) (cc (h))

module _ (roundtrip : Fields → Fields) where
  -- A call that returned made a new record under the key, and added it.
  enqueue-new :
      (event aggregate : String) (payload : Fields) (now : ℕ) (at : Option ℕ) (key id : String)
      (s : Outbox) {r : OutboxRecord}
      → (enqueue roundtrip event aggregate payload now at (some key) id s).0 ≡ ok r
      → (c : OutboxRecord) × (k : String) × (enqueue roundtrip event aggregate payload now at
            (some key)
            id
            s
          ≡ add_new c (find_by_dedupe k s) s)
        × (c.dedupe_key ≡ some k)
        × (optional (some key) ≡ ok (some k))
  unfolding enqueue
  enqueue-new event aggregate payload now at key id s {r} h =
      let made : Outcome OutboxError OutboxRecord =
        new_record (required event) (required aggregate) (optional (some key)) (roundtrip payload)
          now (or_now at now) id in
      let (c, e, rest) = continue-ok made (λ r. add r r.dedupe_key) s h in
      let named : optional (some key) ≡ ok c.dedupe_key =
        new_record-dedupe (required event) (required aggregate) (optional (some key))
          (roundtrip payload) now (or_now at now) id e in
      let (k, f) = optional-key (stripped key) named in
      (c, k, rw e (add-key c k s f), f, named ∙ ap (λ (x : Option String). ok x) f)

  -- Once an event stands in the outbox under a dedupe key, a second `enqueue` with that key that
  -- returns at all returns the record of the first, whatever it carries, and changes nothing.
  pub enqueue_once :
      (event aggregate : String) (payload : Fields) (now : ℕ) (at : Option ℕ) (key id : String)
      (s : Outbox) {r : OutboxRecord}
      → (enqueue roundtrip event aggregate payload now at (some key) id s).0 ≡ ok r
      → (event' aggregate' : String) (payload' : Fields) (now' : ℕ) (at' : Option ℕ) (id' : String)
        {t : OutboxRecord}
      → let s1 = (enqueue roundtrip event aggregate payload now at (some key) id s).1 in
        (enqueue roundtrip event' aggregate' payload' now' at' (some key) id' s1).0 ≡ ok t
        → enqueue roundtrip event' aggregate' payload' now' at' (some key) id' s1 ≡ (ok r, s1)
  enqueue_once event aggregate payload now at key id s {r} h event' aggregate' payload' now' at' id'
        {t} again =
      let s1 : Outbox = (enqueue roundtrip event aggregate payload now at (some key) id s).1 in
      let (c, k, e, named, o) = enqueue-new event aggregate payload now at key id s h in
      let (d, j, f, named', p) = enqueue-new event' aggregate' payload' now' at' key id' s1 again in
      let same : k ≡ j = cc (o, p) in
      let made : (add_new c (find_by_dedupe k s) s).0 ≡ ok r =
        ap (λ (x : Outcome OutboxError OutboxRecord × Outbox). x.0) (sym e) ∙ h in
      let found : find_by_dedupe j s1 ≡ some r =
        ap (λ (i : String). find_by_dedupe i s1) (sym same)
        ∙ ap (λ (x : Outcome OutboxError OutboxRecord × Outbox). find_by_dedupe k x.1) e
        ∙ add-found c k (find_by_dedupe k s) s named refl made in
      f ∙ ap (λ (x : Option OutboxRecord). add_new d x s1) found
