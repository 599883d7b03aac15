-- ===== src/Persist/SnapshotTests.antt =====
-- Snapshots at concrete input.
use hermitdb.Prelude.{
  ◌≡◌, refl, [], ◌∷◌, ◌++◌, none, some, Bytes, codes, arith, if◌then◌else◌, bytes_eq,
}
use hermitdb.Prelude.Int.{pos}
use hermitdb.Prelude.Map.{find, put}
use hermitdb.Core.Db.{Db, str, list, set, lpush, exists}
use hermitdb.Core.Db.Reachable.{Reachable, by_set, by_lpush}
use hermitdb.Core.Expiry.{Expiry, empty, expiry_at}
use hermitdb.Core.Expiry.Consistent.{IsConsistent}
use hermitdb.Persist.Snapshot.{
  put_u64, put_records, records_of, snapshot_of, Loaded, load_snapshot, save_snapshot, done,
}
use hermitdb.Persist.Snapshot.RoundTrip.{RecordsFit}
use hermitdb.Core.Healthy.{IsHealthy}
use hermitdb.Persist.Snapshot.Restart.{load_snapshot-IsHealthy}
use hermitdb.Persist.Snapshot.Whole.{load_snapshot-save_snapshot, load_snapshot-torn}

-- a string under "s" with a deadline, and a list under "q" without one
abbrev stored : Db
stored = (codes "s", str (codes "v")) ∷ (codes "q", list (codes "a" ∷ [])) ∷ []

abbrev deadlines : Expiry
deadlines = record {
  slots = record { key = codes "s"; at_ms = pos 1700000000000 } ∷ [];
  index = (codes "s", 0) ∷ [];
}

stored-Reachable : Reachable stored
unfolding lpush find put bytes_eq set
stored-Reachable =
    by_lpush (codes "q") (codes "a") {n = 1} (by_set (codes "s") (codes "v") Reachable.empty) refl

stored-RecordsFit : RecordsFit (records_of stored deadlines)
unfolding records_of expiry_at find bytes_eq
stored-RecordsFit = (
  record { key_fits = omega arith; at_fits = (omega arith, omega arith); entry_fits = omega arith },
  (
    record { key_fits = omega arith; at_fits = tt; entry_fits = (omega arith, (omega arith, tt)) },
    tt,
  ),
)

load_snapshot-save_snapshot_example :
    (l : Loaded) × (load_snapshot
        (codes "s.hdb")
        (save_snapshot done (codes "s.hdb") stored deadlines none).1
        []
        empty
      ≡ l)
    × (l.error ≡ none)
    × ((j : Bytes) → find j l.db ≡ find j stored)
    × ((j : Bytes)
        → expiry_at j l.expiry ≡ (if exists j stored then expiry_at j deadlines else none))
    × IsConsistent l.expiry
load_snapshot-save_snapshot_example =
    load_snapshot-save_snapshot (codes "s.hdb") stored deadlines (omega arith) stored-RecordsFit
      stored-Reachable none

-- what stands behind the third byte
abbrev behind_third : Bytes
behind_third = b'1' ∷ (put_u64 2 ++ put_records (records_of stored deadlines))

torn_cut : codes "HDB" ++ behind_third ≡ snapshot_of stored deadlines
unfolding snapshot_of
torn_cut = refl

load_snapshot-torn_example :
    (m : Bytes) × ((load_snapshot (codes "s.hdb") (some (codes "HDB")) [] empty).error ≡ some m)
load_snapshot-torn_example =
    load_snapshot-torn (codes "s.hdb") stored deadlines (omega arith) stored-RecordsFit
      (codes "HDB") behind_third torn_cut (λ h. cc) [] empty

load_snapshot-IsHealthy_example :
    (l : Loaded) × (load_snapshot
        (codes "s.hdb")
        (save_snapshot done (codes "s.hdb") stored deadlines none).1
        []
        empty
      ≡ l)
    × (l.error ≡ none)
    × IsHealthy l.db l.expiry
load_snapshot-IsHealthy_example =
    load_snapshot-IsHealthy (codes "s.hdb") stored deadlines (omega arith) stored-RecordsFit
      stored-Reachable none
