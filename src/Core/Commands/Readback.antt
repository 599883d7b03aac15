-- ===== src/Core/Commands/Readback.antt =====
-- SET and the GET that follows it: src/core/commands.cpp.
use hermitdb.Prelude.{
  ◌≡◌, ◌∙◌, sym, ap, [], ◌∷◌, Option, none, some, Bytes, codes, Bool, true, false, if◌then◌else◌,
  arith, inl, inr, Option-cases, bytes_eq_iff,
}
use hermitdb.Prelude.Map.{find}
use hermitdb.Protocol.Writer.{simple, bulk}
use hermitdb.Core.Fault.{Result, ret}
use hermitdb.Core.Db
use hermitdb.Core.Expiry.{Expiry, untrack, expiry_at}
use hermitdb.Core.Expiry
use hermitdb.Core.Expiry.Consistent.{IsConsistent, untrack-IsConsistent, expiry_at-untrack}
use hermitdb.Core.Server.{Host, Server, touch, check_found, ◌>>=◌, pure}
use hermitdb.Core.Server.Touch.{Answers, check_and_expire_lem, expiry_at-slot}
use hermitdb.Core.Commands.Strings.{cmd_get, cmd_set, get_reply}
use hermitdb.Core.Replies.{wrongtype}
use hermitdb.Core.Db.{is_list}

-- A consistent table without a deadline for the key does not have it in the index.
find-expiry_at :
    (key : Bytes) (e : Expiry) → IsConsistent e → expiry_at key e ≡ none → find key e.index ≡ none
find-expiry_at key e c h = elim (Option-cases (find key e.index)) [
  | inl absent ↦ absent
  | inr (i, found) ↦
      let (slot, there, _) = c.forward key i found in
      cc (sym h ∙ expiry_at-slot key e i slot found there)
]

pub find-untrack :
    (key : Bytes) (e : Expiry) → IsConsistent e → find key (untrack key e).1.index ≡ none
find-untrack key e c =
    find-expiry_at key (untrack key e).1 (untrack-IsConsistent key e c)
      (expiry_at-untrack key e c key ∙ ground (arith, bytes_eq_iff key key))

module _ {h : Host} where
  -- a key without a deadline is not touched
  touch-absent :
      (key : Bytes) (s : Server h) → find key s.expiry.index ≡ none → touch key s ≡ ret (tt, s)
  unfolding touch
  touch-absent key s absent =
      ap (λ o. ((λ _. check_found {h = h} key o s) >>= λ _. pure tt) s) absent

  pub touch-IsConsistent :
      Answers h
      → (key : Bytes) (s : Server h) → IsConsistent s.expiry
      → (s' : Server h) × (touch key s ≡ ret (tt, s')) × IsConsistent s'.expiry
  unfolding touch
  touch-IsConsistent answers key s c =
      let (s', due, _, e, _, table) = check_and_expire_lem answers key s c in
      let kept : (b : Bool) → IsConsistent (if b then (untrack key s.expiry).1 else s.expiry) = λ b.
        elim b as (λ x. IsConsistent (if x then (untrack key s.expiry).1 else s.expiry)) [
          | true ↦ untrack-IsConsistent key s.expiry c
          | false ↦ c
        ] in
      (s', ap (λ r. ((λ _. r) >>= λ _. pure tt) s) e, rw table (kept due))

  -- the state that SET leaves, from the one that `touch` leaves
  abbrev pub stored : Bytes → Bytes → Server h → Server h
  stored key value s = record s { db = Db.set key value s.db; expiry = Expiry.persist key s.expiry }

  pub cmd_set-touched :
      (name key value : Bytes) (s s' : Server h)
      → touch key s ≡ ret (tt, s')
      → cmd_set (name ∷ key ∷ value ∷ []) s ≡ ret (simple (codes "OK"), stored key value s')
  unfolding cmd_set
  cmd_set-touched name key value s s' e =
      ap (λ r. ((λ _. r) >>= λ _ t. ret (simple (codes "OK"), stored key value t)) s) e

  pub cmd_get-stored :
      (name key value : Bytes) (s : Server h)
      → find key s.expiry.index ≡ none
      → find key s.db ≡ some (Db.str value)
      → cmd_get (name ∷ key ∷ []) s ≡ ret (bulk value, s)
  unfolding cmd_get
  cmd_get-stored name key value s absent held =
      let reply : Option Db.Entry → Result (Bytes × Server h) = λ o.
        (if is_list (Db.type_of_entry o) then pure wrongtype else pure (get_reply (Db.string_of o)))
          s in
      ap
        (λ r.
          ((λ _. r) >>= λ _ t.
          (if is_list (Db.type_of_entry (find key t.db))
              then pure wrongtype
              else pure (get_reply (Db.string_of (find key t.db))))
            t)
            s)
        (touch-absent key s absent)
      ∙ ap reply held
