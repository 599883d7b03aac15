-- ===== src/Boot/Torn.antt =====
-- The server that starts from a torn log, with any commands in it: src/main.cpp.
use hermitdb.Prelude.{◌≡◌, ◌⊎◌, inl, inr, refl, List, [], ◌∷◌, ◌++◌, Bytes, true}
use hermitdb.Protocol.Parser.{Command}
use hermitdb.Persist.Encoding.{encode_all, AllFit}
use hermitdb.Persist.Encoding.Torn.{IsTail}
use hermitdb.Persist.Wal.{ok}
use hermitdb.Persist.Wal.Replay.{apply_all, ReadReturn, replay_frame_cap}
use hermitdb.Persist.Wal.Replay.Recovery.{data_of, NoneBroken}
use hermitdb.Core.Fault.{Fault, Result, ret, fault}
use hermitdb.Core.Server.{Host, Server}
use hermitdb.Core.Dispatch.{execute}
use hermitdb.Config.{Config}
use hermitdb.Boot.{Start, serving, crashed, fresh_server, apply_record, replayed, recover}
use hermitdb.Boot.Recovered.{torn_disk, recover_torn}

Result-cases {ℓ} :
    {A : Type ℓ} (r : Result A) → ((a : A) × (r ≡ ret a)) ⊎ ((f : Fault) × (r ≡ fault f))
Result-cases (ret a) = inl (a, refl)
Result-cases (fault f) = inr (f, refl)

module _ {h : Host} where
  -- The commands are executed in order, the replies dropped, up to the first that faults.
  abbrev pub Runs : List Command → Server h → Result (Server h) → Type 0
  Runs [] s r = r ≡ ret s
  Runs (c ∷ cs) s r =
      ((reply : Bytes) × (t : Server h) × (execute c s ≡ ret (reply, t)) × Runs cs t r)
      ⊎ ((f : Fault) × (execute c s ≡ fault f) × (r ≡ fault f))

  -- The process serves with the server as it is and the log attached, or it has died of the fault.
  abbrev pub Resumes : Result (Server h) → Bytes → Start h → Type 0
  Resumes (ret s) log d = d ≡ serving (record s { attached = true }) log
  Resumes (fault f) log d = d ≡ crashed f

  apply_all-fault :
      (cs : List Command) (f : Fault) → apply_all (apply_record {h = h}) cs (fault f) ≡ fault f
  unfolding apply_all apply_record
  apply_all-fault [] f = refl
  apply_all-fault (c ∷ cs) f = apply_all-fault cs f

  apply_all-Runs :
      (cs : List Command) (s : Server h) → Runs cs s (apply_all apply_record cs (ret s))
  unfolding apply_all apply_record
  apply_all-Runs [] s = refl
  apply_all-Runs (c ∷ cs) s = elim (Result-cases (execute c s)) [
    | inl ((reply, t), e) ↦ inl (reply, t, e, rw e (apply_all-Runs cs t))
    | inr (f, e) ↦ inr (f, e, rw e (apply_all-fault cs f))
  ]

  replayed-Resumes : (r : Result (Server h)) (log : Bytes) → Resumes r log (replayed true ok r log)
  replayed-Resumes (ret s) log = refl
  replayed-Resumes (fault f) log = refl

module _ (h : Host) where
  -- With the log enabled and no snapshot, a log of records within the parser's limits that was cut off
  -- at any byte, which the reads return in any chunks, with any interruptions, is recovered, also where
  -- its commands set deadlines. The commands whose records are complete are executed once each and in
  -- order on a fresh server, up to a fault if there is one. If there is none, then the process serves
  -- with the server after them, the log attached and its file exactly those records. If there is one,
  -- then the process dies of it.
  pub recover-Resumes :
      (cfg : Config) (log : h.Log) (cs : List Command) (t u : Bytes) (reads : List ReadReturn)
      → cfg.wal_enabled ≡ true
      → AllFit replay_frame_cap cs
      → t ++ u ≡ encode_all cs
      → data_of reads ≡ t
      → NoneBroken reads
      → (finished rest : List Command) × (tail : Bytes) × (r : Result (Server h)) × (cs
          ≡ finished ++ rest)
        × (t ≡ encode_all finished ++ tail)
        × IsTail tail rest
        × Runs finished (fresh_server h log) r
        × Resumes r (encode_all finished) (recover cfg (torn_disk reads t) (fresh_server h log))
  recover-Resumes cfg log cs t u reads enabled fits cut all unbroken =
      let (finished, rest, tail, split, same, torn, e) =
        recover_torn h cfg log cs t u reads enabled fits cut all unbroken in
      let r = apply_all apply_record finished (ret (fresh_server h log)) in
      (
        finished,
        rest,
        tail,
        r,
        split,
        same,
        torn,
        apply_all-Runs finished (fresh_server h log),
        rw e (replayed-Resumes r (encode_all finished)),
      )
