-- ===== src/Persist/Snapshot/Whole.antt =====
-- A whole snapshot, written, loaded or cut off: src/persist/snapshot.cpp.
use hermitdb.Prelude.{
  suc, ◌^◌, ◌<◌, ◌≡◌, ◌≢◌, refl, sym, ap, ◌∙◌, [], ◌∷◌, ◌++◌, Option, none, some, Bytes, length,
  true, false, if◌then◌else◌, append-split, bytes_eq_refl, arith, inl, inr, Bool, codes,
}
use hermitdb.Prelude.Int.{ℤ}
use hermitdb.Prelude.Map.{find}
use hermitdb.Core.Db.{Db, exists}
use hermitdb.Core.Db.Reachable.{Reachable, Reachable-Distinct}
use hermitdb.Core.Expiry.{Expiry, empty, expiry_at}
use hermitdb.Core.Expiry.Consistent.{IsConsistent, empty-IsConsistent}
use hermitdb.Persist.Snapshot.{
  put_records, records_of, snapshot_of, load_records, load_snapshot, Loaded, magic, put_u64,
  get_u64, get_raw, load_opened, load_counted, bad_magic, done, save_snapshot,
}
use hermitdb.Persist.Snapshot.Reads.{Reads, get_raw-Reads, get_uint-Reads}
use hermitdb.Persist.Snapshot.RoundTrip.{
  RecordsFit, restored, rearmed, load_records-put_records, load_records-torn, or_else, deadline_or,
  find-restored, rearmed-IsConsistent, expiry_at-rearmed,
}

length-records_of : (db : Db) (e : Expiry) → length (records_of db e) ≡ length db
unfolding records_of
length-records_of [] e = refl
length-records_of ((k, v) ∷ db) e = ap suc (length-records_of db e)

or_else-find {ℓ} : {V : Type ℓ} (o : Option V) (j : Bytes) → or_else o (find j []) ≡ o
unfolding or_else find
or_else-find none j = refl
or_else-find (some v) j = refl

deadline_or-empty :
    (b : Bool) (o : Option ℤ) (j : Bytes)
    → deadline_or b o (expiry_at j empty) ≡ (if b then o else none)
unfolding deadline_or or_else expiry_at find
deadline_or-empty true none j = refl
deadline_or-empty true (some at) j = refl
deadline_or-empty false o j = refl

magic-Reads : Reads (get_raw 4) magic magic
magic-Reads = get_raw-Reads magic

module _ (path : Bytes) (db₀ : Db) (e₀ : Expiry) where
  -- what `load_snapshot` does behind the magic
  load_behind :
      (rest : Bytes)
      → load_snapshot path (some (magic ++ rest)) db₀ e₀ ≡ load_counted (get_u64 rest) db₀ e₀
  unfolding load_snapshot
  load_behind rest =
      ap (λ o. load_opened path o db₀ e₀) (magic-Reads.whole rest)
      ∙ ap (λ b. if b then load_counted (get_u64 rest) db₀ e₀ else bad_magic path db₀ e₀)
          (bytes_eq_refl magic)

  load_torn :
      (t : Bytes) → get_raw 4 t ≡ none → load_snapshot path (some t) db₀ e₀ ≡ bad_magic path db₀ e₀
  unfolding load_snapshot
  load_torn t h = ap (λ o. load_opened path o db₀ e₀) h

module _ (path : Bytes) (db : Db) (e : Expiry) (few : length db < 2 ^ 64)
    (fits : RecordsFit (records_of db e)) where
  load_snapshot_of : load_snapshot path (some (snapshot_of db e)) [] empty ≡ record {
    error = none;
    db = restored (records_of db e) [];
    expiry = rearmed (records_of db e) empty;
  }
  unfolding snapshot_of
  load_snapshot_of =
      load_behind path [] empty (put_u64 (length db) ++ put_records (records_of db e))
      ∙ ap (λ o. load_counted o [] empty)
          ((get_uint-Reads 8 (length db) (omega arith)).whole (put_records (records_of db e)))
      ∙ ap (λ n. load_records n 0 (put_records (records_of db e)) [] empty)
          (sym (length-records_of db e))
      ∙ load_records-put_records (records_of db e) 0 [] empty fits

  -- A snapshot of a keyspace that the operations make, whose lengths and deadlines fit their fields
  -- in the file, is loaded into an empty server without an error. Every key has the entry that it had,
  -- and the deadline if it had an entry, no other key has an entry or a deadline, and the table of
  -- deadlines is consistent.
  pub load_snapshot-save_snapshot :
      Reachable db
      → (file : Option Bytes)
      → (l : Loaded) × (load_snapshot path (save_snapshot done path db e file).1 [] empty ≡ l)
        × (l.error ≡ none)
        × ((j : Bytes) → find j l.db ≡ find j db)
        × ((j : Bytes) → expiry_at j l.expiry ≡ (if exists j db then expiry_at j e else none))
        × IsConsistent l.expiry
  unfolding save_snapshot
  load_snapshot-save_snapshot reachable file =
      let rs = records_of db e in
      (
        record { error = none; db = restored rs []; expiry = rearmed rs empty },
        load_snapshot_of,
        refl,
        λ j. find-restored db e [] j (Reachable-Distinct db reachable) ∙ or_else-find (find j db) j,
        λ j.
            expiry_at-rearmed db e empty j empty-IsConsistent
            ∙ deadline_or-empty (exists j db) (expiry_at j e) j,
        rearmed-IsConsistent rs empty empty-IsConsistent,
      )

  -- A snapshot that is cut off before its end is refused with an error, whatever the server held.
  pub load_snapshot-torn :
      (t u : Bytes)
      → t ++ u ≡ snapshot_of db e
      → u ≢ []
      → (db₀ : Db) (e₀ : Expiry)
      → (m : Bytes) × ((load_snapshot path (some t) db₀ e₀).error ≡ some m)
  unfolding snapshot_of
  load_snapshot-torn t u cut ne db₀ e₀ =
      let rs = records_of db e in
      elim (append-split t u magic (put_u64 (length db) ++ put_records rs) cut) [
        | inl (w, same, more) ↦
            (_, ap (λ l. l.error) (load_torn path db₀ e₀ t (magic-Reads.torn t w same more)))
        | inr (w, same, rest) ↦
            elim (append-split w u (put_u64 (length db)) (put_records rs) rest) [
              | inl (w', same', more') ↦
                  let header = (get_uint-Reads 8 (length db) (omega arith)).torn w w' same' more' in
                  (
                    codes "truncated snapshot header",
                    ap (λ s. (load_snapshot path (some s) db₀ e₀).error) same
                        ∙ ap (λ l. l.error) (load_behind path db₀ e₀ w)
                        ∙ ap (λ o. (load_counted o db₀ e₀).error) header,
                  )
              | inr (w', same', rest') ↦
                  let header = (get_uint-Reads 8 (length db) (omega arith)).whole w' in
                  let (m, late) = load_records-torn rs 0 db₀ e₀ w' u fits rest' ne in
                  (
                    m,
                    ap (λ s. (load_snapshot path (some s) db₀ e₀).error) same
                        ∙ ap (λ l. l.error) (load_behind path db₀ e₀ w)
                        ∙ ap (λ s. (load_counted (get_u64 s) db₀ e₀).error) same'
                        ∙ ap (λ o. (load_counted o db₀ e₀).error) header
                        ∙ ap (λ n. (load_records n 0 w' db₀ e₀).error)
                            (sym (length-records_of db e))
                        ∙ late,
                  )
            ]
      ]
