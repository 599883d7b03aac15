-- ===== src/Persist/Snapshot/Restart.antt =====
-- The server behind a restart from a snapshot: load_snapshot of src/persist/snapshot.cpp.
use hermitdb.Prelude.{◌^◌, ◌<◌, ◌≡◌, ◌∙◌, sym, [], Option, none, Bytes, length, false, arith}
use hermitdb.Prelude.Map.{find}
use hermitdb.Core.Db.{Db, exists}
use hermitdb.Core.Db.Reachable.{Reachable, Reachable-NoEmptyList}
use hermitdb.Core.Expiry.{Expiry, empty}
use hermitdb.Core.Healthy.{IsHealthy}
use hermitdb.Persist.Snapshot.{records_of, Loaded, load_snapshot, save_snapshot, done}
use hermitdb.Persist.Snapshot.RoundTrip.{RecordsFit}
use hermitdb.Persist.Snapshot.Whole.{load_snapshot-save_snapshot}

absent : (j : Bytes) (db : Db) → find j db ≡ none → exists j db ≡ false
unfolding exists
absent j db h = ground arith

-- A snapshot of a keyspace that the operations make, whose lengths and deadlines fit their fields in
-- the file, is loaded into an empty server without an error, and in the server no list is empty, the
-- table of deadlines is consistent and only keys of the keyspace have deadlines, also if the table
-- that was saved had others.
pub load_snapshot-IsHealthy :
    (path : Bytes) (db : Db) (e : Expiry)
    → length db < 2 ^ 64
    → RecordsFit (records_of db e)
    → Reachable db
    → (file : Option Bytes)
    → (l : Loaded) × (load_snapshot path (save_snapshot done path db e file).1 [] empty ≡ l)
      × (l.error ≡ none)
      × IsHealthy l.db l.expiry
load_snapshot-IsHealthy path db e few fits reachable file =
    let (l, loads, fine, same, deadlines, consistent) =
      load_snapshot-save_snapshot path db e few fits reachable file in
    (
      l,
      loads,
      fine,
      record {
        full = λ key h. Reachable-NoEmptyList db reachable key (sym (same key) ∙ h);
        consistent = consistent;
        covered = λ j h. ground (arith, deadlines j, absent j db (sym (same j) ∙ h));
      },
    )
