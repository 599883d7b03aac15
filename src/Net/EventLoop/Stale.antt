-- ===== src/Net/EventLoop/Stale.antt =====
-- Events for a descriptor that was closed in the same batch.
use hermitdb.Prelude.{
  ℕ, ◌≡◌, refl, ap, ◌∙◌, List, [], ◌∷◌, ◌++◌, Bool, true, false, ◌==◌, if◌then◌else◌, arith,
  Bool-cases, inl, inr,
}
use hermitdb.Net.Table.{put}
use hermitdb.Net.Connection.{Interest, Handler, Loop, close_connection, modify_fd}
use hermitdb.Net.EventLoop.{Limits, Event, is_in, admit, dispatch, dispatch_all}
use hermitdb.Net.EventLoop.Keeps.{Keeps, AllApart, dispatch-keeps}

is_in-append : (k : ℕ) (a b : List ℕ) → is_in k a ≡ true → is_in k (a ++ b) ≡ true
is_in-append k [] b h = cc
is_in-append k (x ∷ a) b h = ground (arith, is_in-append k a b)

module _ {S : Type 0} (h : Handler S) (m : Limits) (fd : ℕ) where
  -- The descriptor was closed in this batch.
  abbrev IsClosed : Loop S → Type 0
  IsClosed l = is_in fd l.closed_this_batch ≡ true

  modify-closed :
      (k : ℕ) (ev : Interest) (b : Bool) (l : Loop S)
      → (modify_fd k ev b l).closed_this_batch ≡ l.closed_this_batch
  unfolding modify_fd
  modify-closed k ev b l = ground arith

  admit-closed :
      (k : ℕ) (b : Bool) (l : Loop S) → (admit h m k b l).closed_this_batch ≡ l.closed_this_batch
  unfolding admit
  admit-closed k b l = ground arith

  IsClosed-keeps : Keeps h m IsClosed
  unfolding close_connection
  IsClosed-keeps = record {
    closing = λ k l c. is_in-append fd l.closed_this_batch (k ∷ []) c;
    rearming = λ k conn old ev b l c here.
        ap (is_in fd) (modify-closed k ev b (record l { conns = put k conn l.conns })) ∙ c;
    noting = λ l wire stop app c. c;
    admitting = λ k b l apart c. ap (is_in fd) (admit-closed k b l) ∙ c;
  }

  -- the events that do not name the descriptor
  pub without : List Event → List Event
  without [] = []
  without (ev ∷ evs) = let rest = without evs in if ev.fd == fd then rest else ev ∷ rest

  dispatch-stale :
      (ev : Event) (l : Loop S)
      → (ev.fd == fd) ≡ true
      → (fd == m.listener) ≡ false
      → IsClosed l
      → dispatch h m ev l ≡ l
  unfolding dispatch
  dispatch-stale ev l same apart c = ground arith

  -- Once the connection of a descriptor is closed, the events of the batch that name the descriptor
  -- change nothing: the batch does what it does without them. This is so also if the number was given
  -- to a new client in the meantime. The kernel hands out no descriptor that is the listener's.
  pub dispatch_all-without :
      (evs : List Event) (l : Loop S)
      → (fd == m.listener) ≡ false
      → AllApart m evs
      → is_in fd l.closed_this_batch ≡ true
      → dispatch_all h m evs l ≡ dispatch_all h m (without evs) l
  unfolding dispatch_all without
  dispatch_all-without [] l apart all c = refl
  dispatch_all-without (ev ∷ evs) l apart all c = elim (Bool-cases (ev.fd == fd)) [
    | inl e ↦ rw e (
        ap (dispatch_all h m evs) (dispatch-stale ev l e apart c)
        ∙ dispatch_all-without evs l apart all.1 c)
    | inr e ↦ rw e (
        dispatch_all-without evs (dispatch h m ev l) apart all.1
          (dispatch-keeps IsClosed-keeps ev l all.0 c))
  ]
