-- ===== src/Core/Server/Touch.antt =====
-- Lazy expiry: `touch` and ExpiryManager::check_and_expire, with the eviction hook.
use hermitdb.Prelude.{
  ℕ, codes, ◌≡◌, ◌≢◌, refl, ◌∙◌, sym, ap, [], ◌∷◌, Option, none, some, Bytes, suc, Bool, true,
  false, not, if◌then◌else◌, inl, inr, Option-cases, Bool-cases, get_elem?,
}
use hermitdb.Prelude.Int.{ℤ, ltb_ℤ}
use hermitdb.Prelude.Map.{find, erase}
use hermitdb.Protocol.Parser.{Command}
use hermitdb.Persist.Wal.{WalStatus, ok, io_error, corrupt, not_implemented}
use hermitdb.Core.Fault.{Result, ret}
use hermitdb.Core.Db
use hermitdb.Core.Expiry.{Expiry, Slot, untrack, expiry_at}
use hermitdb.Core.Expiry.Consistent.{IsConsistent}
use hermitdb.Core.Server.{
  Host, Server, appended, append_record, evict, expire, check_slot, check_found, check_and_expire,
  ◌>>=◌, pure,
}

-- Every append to the log returns, with success or not.
abbrev pub Answers : Host → Type 0
Answers h = (cmd : Command) (l : h.Log) → h.append cmd l ≢ none

-- Whether a deadline has passed.
abbrev pub is_due : Option ℤ → ℤ → Bool
is_due none now = false
is_due (some at) now = not (ltb_ℤ now at)

pub expiry_at-slot :
    (key : Bytes) (e : Expiry) (i : ℕ) (slot : Slot)
    → find key e.index ≡ some i
    → get_elem? e.slots i ≡ some slot
    → expiry_at key e ≡ some slot.at_ms
unfolding expiry_at
expiry_at-slot key e i slot found there = rw (found, there) refl

module _ {h : Host} where
  -- The call returned `a`, and left this keyspace and these deadlines.
  abbrev pub Leaves : {A : Type 0} → Result (A × Server h) → A → Db.Db → Expiry → Type 0
  Leaves r a db e = (s : Server h) × (r ≡ ret (a, s)) × (s.db ≡ db) × (s.expiry ≡ e)

  appended-Leaves :
      (o : Option (WalStatus × h.Log)) (s : Server h)
      → o ≢ none
      → Leaves (appended {h = h} o s) tt s.db s.expiry
  appended-Leaves none s ne = absurd (ne refl)
  appended-Leaves (some (ok, l)) s ne = (record s { log = l }, refl, refl, refl)
  appended-Leaves (some (io_error, l)) s ne =
      (record s { log = l; persistence_failed = true; shutdown = true }, refl, refl, refl)
  appended-Leaves (some (corrupt, l)) s ne =
      (record s { log = l; persistence_failed = true; shutdown = true }, refl, refl, refl)
  appended-Leaves (some (not_implemented, l)) s ne =
      (record s { log = l; persistence_failed = true; shutdown = true }, refl, refl, refl)

  module _ (answers : Answers h) where
    pub append_record-Leaves :
        (cmd : Command) (s : Server h) → Leaves (append_record {h = h} cmd s) tt s.db s.expiry
    unfolding append_record
    append_record-Leaves cmd s =
        let branch : Bool → Result (Unit {0} × Server h) =
          λ b. if b then ret (tt, s) else appended {h = h} (h.append cmd s.log) s in
        elim (Bool-cases s.persistence_failed) [
          | inl e ↦ (s, ap branch e, refl, refl)
          | inr e ↦
              let (s', r, db, table) = appended-Leaves (h.append cmd s.log) s (answers cmd s.log) in
              (s', ap branch e ∙ r, db, table)
        ]

    evict-Leaves :
        (key : Bytes) (s : Server h) → Leaves (evict {h = h} key s) tt (erase key s.db) s.expiry
    unfolding evict Db.del
    evict-Leaves key s =
        let s' : Server h = record s { db = erase key s.db } in
        let branch : Bool → Result (Unit {0} × Server h) =
          λ b. if b then append_record {h = h} (codes "DEL" ∷ key ∷ []) s' else ret (tt, s') in
        elim (Bool-cases s.attached) [
          | inl e ↦
              let (t, r, db, table) = append_record-Leaves (codes "DEL" ∷ key ∷ []) s' in
              (t, ap branch e ∙ r, db, table)
          | inr e ↦ (s', ap branch e, refl, refl)
        ]

    pub expire-Leaves :
        (key : Bytes) (s : Server h)
        → Leaves (expire {h = h} key s) true (erase key s.db) (untrack key s.expiry).1
    expire-Leaves key s =
        let (s', e, same, table) =
          evict-Leaves key (record s { expiry = (untrack key s.expiry).1 }) in
        let then_true : Result (Unit {0} × Server h) → Result (Bool × Server h) =
          λ r. ((λ _. r) >>= λ _. pure true) s in
        (s', ap then_true e, same, table)

    check_slot-Leaves :
        (key : Bytes) (slot : Slot) (s : Server h)
        → Leaves
            (check_slot {h = h} key (some slot) s)
            (is_due (some slot.at_ms) (h.wall_ms s.readings))
            (if is_due (some slot.at_ms) (h.wall_ms s.readings) then erase key s.db else s.db)
            (if is_due (some slot.at_ms) (h.wall_ms s.readings)
              then (untrack key s.expiry).1
              else s.expiry)
    check_slot-Leaves key slot s =
        let s' : Server h = record s { readings = suc s.readings } in
        elim (Bool-cases (ltb_ℤ (h.wall_ms s.readings) slot.at_ms)) [
          | inl early ↦ rw early (s', refl, refl, refl)
          | inr late ↦ rw late (expire-Leaves key s')
        ]

    -- On a consistent table of deadlines and a log whose appends return, the check of a key returns
    -- whether its deadline has passed at the present reading of the clock. If it has, then the key is
    -- gone from the keyspace and from the table, and otherwise both are as they were.
    pub check_and_expire_lem :
        (key : Bytes) (s : Server h)
        → IsConsistent s.expiry
        → (s' : Server h) × (due : Bool) × (due
            ≡ is_due (expiry_at key s.expiry) (h.wall_ms s.readings))
          × (check_and_expire key s ≡ ret (due, s'))
          × (s'.db ≡ (if due then erase key s.db else s.db))
          × (s'.expiry ≡ (if due then (untrack key s.expiry).1 else s.expiry))
    unfolding check_and_expire expiry_at
    check_and_expire_lem key s c = elim (Option-cases (find key s.expiry.index)) [
      | inl absent ↦ rw absent (s, false, refl, refl, refl, refl)
      | inr (i, found) ↦
          let (slot, there, _) = c.forward key i found in
          let (s', e, db, table) = check_slot-Leaves key slot s in
          (
            s',
            is_due (some slot.at_ms) (h.wall_ms s.readings),
            ap (λ o. is_due o (h.wall_ms s.readings))
                (sym (expiry_at-slot key s.expiry i slot found there)),
            ap (λ o. check_found {h = h} key o s) found
                ∙ ap (λ o. check_slot {h = h} key o s) there
                ∙ e,
            db,
            table,
          )
    ]
