-- ===== src/Core/Healthy/Steps.antt =====
-- The steps that commands share, on a healthy server: `touch` and the monad of src/core/commands.cpp.
use hermitdb.Prelude.{◌≡◌, refl, sym, Option, none, some, Bytes, Bool, true, false, if◌then◌else◌}
use hermitdb.Prelude.Map.{erase}
use hermitdb.Core.Fault.{Result, ret, fault, signed_overflow}
use hermitdb.Core.Db.{Db}
use hermitdb.Core.Expiry.{Expiry, untrack}
use hermitdb.Core.Server.{Host, Server, M, ◌>>=◌, demand, check_and_expire, touch}
use mathlib.Core.Path.{subst}
use hermitdb.Core.Server.Touch.{Answers, check_and_expire_lem}
use hermitdb.Core.Healthy.{IsHealthy, drop-IsHealthy}

expired-IsHealthy :
    {db db' : Db} {e e' : Expiry}
    → IsHealthy db e
    → (due : Bool) (key : Bytes) → db' ≡ (if due then erase key db else db)
    → e' ≡ (if due then (untrack key e).1 else e)
    → IsHealthy db' e'
expired-IsHealthy s true key p q = rw (p, q) (drop-IsHealthy s key)
expired-IsHealthy s false key p q = rw (p, q) s

module _ {h : Host} where
  abbrev pub Healthy : Server h → Type 0
  Healthy s = IsHealthy s.db s.expiry

  -- The call returns, and leaves a healthy server, or an `int64_t` overflows.
  abbrev pub Safe : {A : Type 0} → Result (A × Server h) → Type 0
  Safe (ret (a, s)) = Healthy s
  Safe (fault f) = f ≡ signed_overflow

  then_Safe :
      {A B : Type 0} (r : Result (A × Server h)) (f : A → M h B)
      → Safe r
      → ((a : A) (s : Server h) → Healthy s → Safe (f a s))
      → Safe (elim r [ ret (a, s) ↦ f a s | fault e ↦ fault e ])
  then_Safe (ret (a, s)) f ok k = k a s ok
  then_Safe (fault e) f ok k = ok

  -- a step that is safe, and what follows it
  pub bind-Safe :
      {A B : Type 0} (m : M h A) (f : A → M h B) (s : Server h)
      → Safe (m s)
      → ((a : A) (s : Server h) → Healthy s → Safe (f a s))
      → Safe ((m >>= f) s)
  bind-Safe m f s ok k = then_Safe (m s) f ok k

  -- a step that is known to return
  pub returned-Safe :
      {A B : Type 0} (m : M h A) (f : A → M h B) (s : Server h) (a : A) (t : Server h)
      → m s ≡ ret (a, t)
      → Safe (f a t)
      → Safe ((m >>= f) s)
  returned-Safe m f s a t e ok =
      subst (λ r. Safe (elim r [ ret (a, s) ↦ f a s | fault e ↦ fault e ])) (sym e) ok

  pub choose-Safe :
      {A : Type 0} (b : Bool) (x y : M h A) (s : Server h)
      → (b ≡ true → Safe (x s))
      → (b ≡ false → Safe (y s))
      → Safe ((if b then x else y) s)
  choose-Safe true x y s f g = f refl
  choose-Safe false x y s f g = g refl

  -- a sum or product that may overflow
  pub demand-Safe :
      {A B : Type 0} (o : Option A) (f : A → M h B) (s : Server h)
      → ((a : A) → Safe (f a s))
      → Safe ((demand signed_overflow o >>= f) s)
  demand-Safe none f s k = refl
  demand-Safe (some a) f s k = k a

  module _ (answers : Answers h) where
    pub check_and_expire-Safe :
        (key : Bytes) (s : Server h) → Healthy s → Safe (check_and_expire {h = h} key s)
    check_and_expire-Safe key s ok =
        let (s', due, when, r, db, table) = check_and_expire_lem answers key s ok.consistent in
        rw r (expired-IsHealthy ok due key db table)

    pub touch-Safe : (key : Bytes) (s : Server h) → Healthy s → Safe (touch {h = h} key s)
    unfolding touch
    touch-Safe key s ok =
        bind-Safe (check_and_expire key) (λ _ t. ret (tt, t)) s (check_and_expire-Safe key s ok)
          (λ a t k. k)

    -- `touch` and then what looks at the key
    pub touched-Safe :
        {B : Type 0} (key : Bytes) (f : Unit {0} → M h B) (s : Server h)
        → Healthy s
        → ((s' : Server h) → Healthy s' → Safe (f tt s'))
        → Safe ((touch key >>= f) s)
    touched-Safe key f s ok k = bind-Safe (touch key) f s (touch-Safe key s ok) (λ a t o. k t o)
