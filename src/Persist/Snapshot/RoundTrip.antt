-- ===== src/Persist/Snapshot/RoundTrip.antt =====
-- The records of a snapshot, written and loaded: src/persist/snapshot.cpp.
use hermitdb.Prelude.{
  ℕ, suc, ◌≡◌, ◌≢◌, refl, ap, ◌∙◌, List, [], ◌∷◌, ◌++◌, Option, none, some, Bytes, length, true,
  false, append-split, bytes_eq, bytes_eq_iff, arith, inl, inr, Bool, codes,
}
use hermitdb.Prelude.Int.{ℤ}
use hermitdb.Prelude.Map.{find, put, find-put, Distinct}
use hermitdb.Protocol.Decimal.{to_string}
use hermitdb.Core.Db.{Db, restore_entry, exists}
use hermitdb.Core.Expiry.{Expiry, expiry_at}
use hermitdb.Core.Expiry.Consistent.{IsConsistent}
use hermitdb.Core.Expiry.Arming.{set_expiry-IsConsistent, expiry_at-set_expiry}
use hermitdb.Persist.Snapshot.{
  Record, get_record, put_record, put_records, records_of, load_records, Loaded, set_deadline,
}
use hermitdb.Persist.Snapshot.Entries.{RecordFits, get_record-Reads}

abbrev pub RecordsFit : List Record → Type 0
RecordsFit [] = Unit
RecordsFit (r ∷ rs) = RecordFits r × RecordsFit rs

-- The keyspace and the deadlines after the entries are restored.
pub restored : List Record → Db → Db
restored [] db = db
restored (r ∷ rs) db = restored rs (restore_entry r.key r.entry db)

pub rearmed : List Record → Expiry → Expiry
rearmed [] e = e
rearmed (r ∷ rs) e = rearmed rs (set_deadline r.key r.at_ms e)

abbrev load_read : ℕ → ℕ → Option (Record × Bytes) → Db → Expiry → Loaded
load_read n i o db e = elim o [
  | none ↦ record {
    error = some (codes "corrupt snapshot entry " ++ to_string i);
    db = db;
    expiry = e;
  }
  | some (r, rest) ↦
      load_records n (suc i) rest (restore_entry r.key r.entry db) (set_deadline r.key r.at_ms e)
]

load_records-suc :
    (n i : ℕ) (s : Bytes) (db : Db) (e : Expiry)
    → load_records (suc n) i s db e ≡ load_read n i (get_record s) db e
unfolding load_records
load_records-suc n i s db e = refl

pub load_records-put_records :
    (rs : List Record) (i : ℕ) (db : Db) (e : Expiry)
    → RecordsFit rs
    → load_records (length rs) i (put_records rs) db e
      ≡ record { error = none; db = restored rs db; expiry = rearmed rs e }
unfolding put_records restored rearmed
load_records-put_records [] i db e fits = unfold load_records in refl
load_records-put_records (r ∷ rs) i db e fits =
    load_records-suc (length rs) i (put_record r ++ put_records rs) db e
    ∙ ap (λ o. load_read (length rs) i o db e) ((get_record-Reads r fits.0).whole (put_records rs))
    ∙ load_records-put_records rs (suc i) (restore_entry r.key r.entry db)
        (set_deadline r.key r.at_ms e) fits.1

-- A cut inside the entries is an error.
pub load_records-torn :
    (rs : List Record) (i : ℕ) (db : Db) (e : Expiry) (t u : Bytes)
    → RecordsFit rs
    → t ++ u ≡ put_records rs
    → u ≢ []
    → (m : Bytes) × ((load_records (length rs) i t db e).error ≡ some m)
unfolding put_records
load_records-torn [] i db e [] u fits cut ne = absurd (ne cut)
load_records-torn [] i db e (x ∷ t) u fits cut ne = cc
load_records-torn (r ∷ rs) i db e t u fits cut ne =
    let step = ap (λ l. l.error) (load_records-suc (length rs) i t db e) in
    elim (append-split t u (put_record r) (put_records rs) cut) [
      | inl (w, same, more) ↦ (
        codes "corrupt snapshot entry " ++ to_string i,
        step
            ∙ ap (λ o. (load_read (length rs) i o db e).error)
                ((get_record-Reads r fits.0).torn t w same more),
      )
      | inr (w, same, rest) ↦
          let (m, late) =
            load_records-torn rs (suc i) (restore_entry r.key r.entry db)
              (set_deadline r.key r.at_ms e) w u fits.1 rest ne in
          (
            m,
            step
                ∙ ap (λ s. (load_read (length rs) i (get_record s) db e).error) same
                ∙ ap (λ o. (load_read (length rs) i o db e).error)
                    ((get_record-Reads r fits.0).whole w)
                ∙ late,
          )
    ]

unfoldable pub or_else {ℓ} : {A : Type ℓ} → Option A → Option A → Option A
or_else none b = b
or_else (some a) b = some a

pub find-restored :
    (m : Db) (e : Expiry) (db : Db) (j : Bytes)
    → Distinct m
    → find j (restored (records_of m e) db) ≡ or_else (find j m) (find j db)
unfolding restored records_of find or_else restore_entry
find-restored [] e db j d = refl
find-restored ((k, v) ∷ m) e db j d =
    find-restored m e (put k v db) j d.1 ∙ ground (arith, find-put k j v db, bytes_eq_iff k j)

unfoldable pub deadline_or : Bool → Option ℤ → Option ℤ → Option ℤ
deadline_or true a b = or_else a b
deadline_or false a b = b

set_deadline-IsConsistent :
    (key : Bytes) (at : Option ℤ) (e : Expiry)
    → IsConsistent e
    → IsConsistent (set_deadline key at e)
set_deadline-IsConsistent key none e c = c
set_deadline-IsConsistent key (some at) e c = set_expiry-IsConsistent e c key at

expiry_at-set_deadline :
    (key : Bytes) (at : Option ℤ) (e : Expiry) (j : Bytes)
    → IsConsistent e
    → expiry_at j (set_deadline key at e) ≡ deadline_or (bytes_eq key j) at (expiry_at j e)
unfolding deadline_or or_else
expiry_at-set_deadline key none e j c = ground arith
expiry_at-set_deadline key (some at) e j c = expiry_at-set_expiry e c key at j ∙ ground arith

pub rearmed-IsConsistent :
    (rs : List Record) (e : Expiry) → IsConsistent e → IsConsistent (rearmed rs e)
unfolding rearmed
rearmed-IsConsistent [] e c = c
rearmed-IsConsistent (r ∷ rs) e c =
    rearmed-IsConsistent rs (set_deadline r.key r.at_ms e)
      (set_deadline-IsConsistent r.key r.at_ms e c)

pub expiry_at-rearmed :
    (m : Db) (old e : Expiry) (j : Bytes)
    → IsConsistent e
    → expiry_at j (rearmed (records_of m old) e)
      ≡ deadline_or (exists j m) (expiry_at j old) (expiry_at j e)
unfolding rearmed records_of deadline_or or_else exists find
expiry_at-rearmed [] old e j c = refl
expiry_at-rearmed ((k, v) ∷ m) old e j c =
    let e' = set_deadline k (expiry_at k old) e in
    expiry_at-rearmed m old e' j (set_deadline-IsConsistent k (expiry_at k old) e c)
    ∙ ground (arith, expiry_at-set_deadline k (expiry_at k old) e j c, bytes_eq_iff k j)
