-- ===== src/Boot/Tests.antt =====
-- Recovery at concrete input.
use hermitdb.Prelude.{◌≡◌, refl, List, [], ◌∷◌, ◌++◌, none, some, Bytes, codes, crlf, arith, true}
use hermitdb.Protocol.Parser.{Command}
use hermitdb.Protocol.Decimal.{to_string}
use hermitdb.Persist.Encoding.{encode, encode_all}
use hermitdb.Persist.Encoding.Torn.{IsTail}
use hermitdb.Persist.Wal.{always}
use hermitdb.Persist.Wal.Replay.{chunk, ReadReturn}
use hermitdb.Persist.Snapshot.{records_of, save_snapshot, done}
use hermitdb.Persist.Snapshot.RoundTrip.{RecordsFit}
use hermitdb.Core.Fault.{Result}
use hermitdb.Core.Db.{Db, str, set}
use hermitdb.Core.Db.Reachable.{Reachable, by_set}
use hermitdb.Core.Expiry.{Expiry, expiry_at}
use hermitdb.Core.Expiry
use hermitdb.Core.ServerTests.{still, still-Answers}
use hermitdb.Config.{Config, defaults, snapshot_path}
use hermitdb.Boot.{Disk, recover, fresh_server}
use hermitdb.Boot.Recovered.{Recovered, recover_lem, torn_disk}
use hermitdb.Boot.Torn.{Runs, Resumes, recover-Resumes}
use hermitdb.Core.Server.{Server}
use hermitdb.Prelude.Map.{find, put}

abbrev logging : Config
logging = record defaults { wal_enabled = true; fsync = some always }

abbrev stored : Db
stored = (codes "s", str (codes "v")) ∷ []

stored-Reachable : Reachable stored
unfolding set put
stored-Reachable = by_set (codes "s") (codes "v") Reachable.empty

stored-RecordsFit : RecordsFit (records_of stored Expiry.empty)
unfolding records_of expiry_at find
stored-RecordsFit = (record { key_fits = omega arith; at_fits = tt; entry_fits = omega arith }, tt)

abbrev pings : List Command
pings = (codes "PING" ∷ []) ∷ (codes "PING" ∷ []) ∷ []

-- one record, and the first byte of the second
abbrev torn : Bytes
torn = codes "*1" ++ crlf ++ codes "$4" ++ crlf ++ codes "PING" ++ crlf ++ codes "*"

abbrev lost : Bytes
lost = codes "1" ++ crlf ++ codes "$4" ++ crlf ++ codes "PING" ++ crlf

abbrev reads : List ReadReturn
reads = chunk torn ∷ []

-- the snapshot and the torn log
abbrev disk : Disk
disk = record (torn_disk reads torn) {
  has_snapshot = true;
  snapshot = (save_snapshot done (snapshot_path logging) stored Expiry.empty none).1;
}

recover_lem_example : Recovered true (recover logging disk (fresh_server still []))
recover_lem_example =
    recover_lem still still-Answers logging disk [] stored Expiry.empty none (omega arith)
      stored-RecordsFit stored-Reachable (λ h. refl)

torn_log : torn ++ lost ≡ encode_all pings
unfolding encode_all encode to_string
torn_log = refl

recover-Resumes_example :
    (finished rest : List Command) × (tail : Bytes) × (r : Result (Server still)) × (pings
      ≡ finished ++ rest)
    × (torn ≡ encode_all finished ++ tail)
    × IsTail tail rest
    × Runs finished (fresh_server still []) r
    × Resumes r
        (encode_all finished)
        (recover logging (torn_disk reads torn) (fresh_server still []))
recover-Resumes_example =
    recover-Resumes still logging [] pings torn lost reads refl (omega arith) torn_log refl tt
