-- ===== src/Core/Logged/Set.antt =====
-- SET of src/core/commands.cpp, on a server without deadlines.
use hermitdb.Prelude.{
  ◌≡◌, inl, inr, refl, ap, ◌∙◌, List, [], ◌∷◌, Bytes, codes, Bool, true, false, not, ◌||◌, ◌&&◌,
  bytes_eq, arith, Bool-cases,
}
use hermitdb.Prelude.Map.{find}
use hermitdb.Protocol.Parser.{Command}
use hermitdb.Protocol.Writer.{simple, error, null_bulk}
use hermitdb.Core.Fault.{Result, ret, fault}
use hermitdb.Core.Db
use hermitdb.Core.Db.{Db}
use hermitdb.Core.Expiry
use hermitdb.Core.Server.{Host, Server, touch}
use hermitdb.Core.Replies.{upper, wrong_arity}
use hermitdb.Core.Commands.Strings.{
  SetOptions, Options, refused, accepted, no_options, set_options, is_nx, is_xx, is_timed,
  set_value, set_parsed, cmd_set,
}
use hermitdb.Core.Dispatch.{log_set, records_of, is_error}
use hermitdb.Core.Logged.{plain, Logs, logged_records, set_record, Faithful, refused-Faithful}

-- Whether an EX or a PX stands among the options.
unfoldable pub is_time : Bytes → Bool
is_time a = bytes_eq (upper a) (codes "EX") || bytes_eq (upper a) (codes "PX")

unfoldable pub has_time : List Bytes → Bool
has_time [] = false
has_time (a ∷ l) = is_time a || has_time l

-- the options of a SET
abbrev pub behind_value : Command → List Bytes
behind_value (_ ∷ _ ∷ _ ∷ options) = options
behind_value _ = []

-- The options are refused by an error, or they set no deadline.
abbrev NoTime : Result Options → Type 0
NoTime (fault f) = ⊥
NoTime (ret (refused reply)) = is_error reply ≡ true
NoTime (ret (accepted o)) = o.have_expire ≡ false

set_options-NoTime :
    (l : List Bytes) (o : SetOptions)
    → has_time l ≡ false
    → o.have_expire ≡ false
    → NoTime (set_options l o)
unfolding set_options has_time is_time is_nx is_xx is_timed error
set_options-NoTime [] o h e = e
set_options-NoTime (a ∷ []) o h e = ground arith
set_options-NoTime (a ∷ v ∷ rest) o h e = ground (
  arith,
  set_options-NoTime (v ∷ rest) (record o { nx = true }),
  set_options-NoTime (v ∷ rest) (record o { xx = true }),
)

-- the records of a SET
logged-stored :
    (c key value : Bytes) (options : List Bytes)
    → logged_records log_set (c ∷ key ∷ value ∷ options) (simple (codes "OK"))
      ≡ set_record key value ∷ []
unfolding logged_records records_of simple bytes_eq
logged-stored c key value options = refl

logged-null_bulk :
    (c key value : Bytes) (options : List Bytes)
    → logged_records log_set (c ∷ key ∷ value ∷ options) null_bulk ≡ []
unfolding logged_records records_of null_bulk bytes_eq
logged-null_bulk c key value options = refl

module _ {h : Host} where
  -- the value is stored and the log gets a SET, or the condition NX or XX fails
  set_value-Faithful :
      (c key value : Bytes) (options : List Bytes) (o : SetOptions) (db : Db)
      → o.have_expire ≡ false
      → (reply : Bytes) × (after : Db) × ((s : Server h)
          → set_value key value o (plain s db) ≡ ret (reply, plain s after))
        × Logs log_set (c ∷ key ∷ value ∷ options) reply db after
  unfolding set_value touch find Expiry.persist
  set_value-Faithful c key value options o db e =
      elim (Bool-cases (o.nx && Db.exists key db || o.xx && not (Db.exists key db))) [
        | inl stays ↦ (
          null_bulk,
          db,
          λ s. ground (arith, stays),
          inl (logged-null_bulk c key value options, refl),
        )
        | inr changes ↦ (
          simple (codes "OK"),
          Db.set key value db,
          λ s. ground (arith, changes, e),
          inr (inr (key, value, logged-stored c key value options, refl)),
        )
      ]

  pub cmd_set-Faithful :
      (cmd : Command) (db : Db)
      → has_time (behind_value cmd) ≡ false
      → Faithful (cmd_set {h = h}) log_set cmd db
  unfolding cmd_set wrong_arity error
  cmd_set-Faithful [] db e =
      refused-Faithful cmd_set [] db (wrong_arity (codes "set")) log_set refl (λ s. refl)
  cmd_set-Faithful (c ∷ []) db e =
      refused-Faithful cmd_set (c ∷ []) db (wrong_arity (codes "set")) log_set refl (λ s. refl)
  cmd_set-Faithful (c ∷ key ∷ []) db e =
      refused-Faithful cmd_set (c ∷ key ∷ []) db (wrong_arity (codes "set")) log_set refl
        (λ s. refl)
  cmd_set-Faithful (c ∷ key ∷ value ∷ options) db e =
      go (set_options options no_options) refl (set_options-NoTime options no_options e refl)
    where
      go :
          (r : Result Options)
          → set_options options no_options ≡ r
          → NoTime r
          → Faithful (cmd_set {h = h}) log_set (c ∷ key ∷ value ∷ options) db
      go (fault f) same p = elim p [ ]
      go (ret (refused reply)) same p =
          refused-Faithful cmd_set (c ∷ key ∷ value ∷ options) db reply log_set p
            (λ s. ap (λ r. set_parsed {h = h} key value r (plain s db)) same)
      go (ret (accepted o)) same p =
          let (reply, after, runs, logs) = set_value-Faithful c key value options o db p in
          record {
            reply = reply;
            after = after;
            runs = λ s. ap (λ r. set_parsed {h = h} key value r (plain s db)) same ∙ runs s;
            logs = logs;
          }
