-- ===== src/Net/EventLoop/Keeps.antt =====
-- What handling an event keeps, from what its parts keep.
use hermitdb.Prelude.{
  Bytes, ℕ, ◌≡◌, refl, List, [], ◌∷◌, Option, none, some, length, Bool, true, false, ltb, ◌++◌,
  ◌==◌, if◌then◌else◌,
}
use hermitdb.Net.Table.{find, put}
use hermitdb.Net.Connection.{
  Connection, Interest, input, both, Handler, Loop, Sends, push, SendEnd, drained, full, dead,
  flush, flush_pushed, close_connection, modify_fd, max_outbuf_bytes,
}
use hermitdb.Net.EventLoop.{
  Limits, Event, AcceptReturn, client, no_client, admit, accept_new_clients, ReadEnd, to_flush,
  gone, read_end, read_loop, handle_readable, write_part, serve, serve_found, dispatch,
  dispatch_all, is_in,
}

-- The parts of the handling of an event keep `P`.
pub record Keeps {S : Type 0} (h : Handler S) (m : Limits) (P : Loop S → Type 0) : Type 0 where
  pub closing : (fd : ℕ) (l : Loop S) → P l → P (close_connection fd l)
  pub rearming :
      (fd : ℕ) (conn c : Connection) (ev : Interest) (k : Bool) (l : Loop S)
      → P l
      → find fd l.conns ≡ some c
      → P (modify_fd fd ev k (record l { conns = put fd conn l.conns }))
  pub noting :
      (l : Loop S) (wire : List (ℕ × Bytes)) (stop : Bool) (app : S)
      → P l
      → P (record l { wire = wire; stop_requested = stop; app = app })
  pub admitting :
      (fd : ℕ) (registers : Bool) (l : Loop S)
      → (fd == m.listener) ≡ false
      → P l
      → P (admit h m fd registers l)

-- The kernel hands out no descriptor that is the listener's.
abbrev pub Apart : Limits → List AcceptReturn → Type 0
Apart m [] = Unit
Apart m (no_client ∷ rest) = Apart m rest
Apart m (client fd registers ∷ rest) = ((fd == m.listener) ≡ false) × Apart m rest

abbrev pub AllApart : Limits → List Event → Type 0
AllApart m [] = Unit
AllApart m (ev ∷ evs) = Apart m ev.accepts × AllApart m evs

module _ {S : Type 0} {h : Handler S} {m : Limits} {P : Loop S → Type 0} (keeps : Keeps h m P) where
  open keeps use {closing, rearming, noting, admitting}

  choose-keeps : (b : Bool) (x y : Bool × Loop S) → P x.1 → P y.1 → P (if b then x else y).1
  choose-keeps true x y h k = h
  choose-keeps false x y h k = k

  flush_pushed-keeps :
      (fd : ℕ) (conn c : Connection) (k : Bool) (end : SendEnd) (rest taken : List ℕ) (l : Loop S)
      → P l
      → find fd l.conns ≡ some c
      → P (flush_pushed fd conn k (record { end = end; rest = rest; taken = taken }) l).1
  flush_pushed-keeps fd conn c k dead rest taken l r here = closing fd l r
  flush_pushed-keeps fd conn c k drained rest taken l r here =
      choose-keeps conn.close_after_flush (false, close_connection fd l)
        (
          true,
          modify_fd fd input k (record l { conns = put fd (record conn { outbuf = [] }) l.conns }),
        )
        (closing fd l r) (rearming fd (record conn { outbuf = [] }) c input k l r here)
  flush_pushed-keeps fd conn c k full rest taken l r here =
      choose-keeps (ltb max_outbuf_bytes (length rest)) (false, close_connection fd l)
        (
          true,
          modify_fd fd both k (record l { conns = put fd (record conn { outbuf = rest }) l.conns }),
        )
        (closing fd l r) (rearming fd (record conn { outbuf = rest }) c both k l r here)

  flush-keeps :
      (fd : ℕ) (conn c : Connection) (sends : Sends) (l : Loop S)
      → P l
      → find fd l.conns ≡ some c
      → P (flush fd conn sends l).1
  unfolding flush
  flush-keeps fd conn c sends l r here =
      let p = push sends.answers conn.outbuf in
      flush_pushed-keeps fd conn c sends.modifies p.end p.rest p.taken
        (record l { wire = l.wire ++ (fd, p.taken) ∷ [] })
        (noting l (l.wire ++ (fd, p.taken) ∷ []) l.stop_requested l.app r) here

  read_end-keeps :
      (fd : ℕ) (c : Connection) (sends : Sends) (l : Loop S) (end : ReadEnd S)
      → P l
      → find fd l.conns ≡ some c
      → P (read_end h m.max_frame fd sends l end).1
  read_end-keeps fd c sends l (to_flush conn stop s) r here =
      flush-keeps fd conn c sends (record l { stop_requested = stop; app = s })
        (noting l l.wire stop s r) here
  read_end-keeps fd c sends l (gone stop s) r here =
      closing fd (record l { stop_requested = stop; app = s }) (noting l l.wire stop s r)

  accept-keeps :
      (answers : List AcceptReturn) (l : Loop S)
      → Apart m answers
      → P l
      → P (accept_new_clients h m answers l)
  unfolding accept_new_clients
  accept-keeps [] l apart r = r
  accept-keeps (no_client ∷ rest) l apart r = r
  accept-keeps (client fd registers ∷ rest) l apart r =
      accept-keeps rest (admit h m fd registers l) apart.1 (admitting fd registers l apart.0 r)

  write_part-keeps : (ev : Event) (p : Bool × Loop S) → P p.1 → P (write_part h m ev p)
  write_part-keeps ev (false, l) r = r
  write_part-keeps ev (true, l) r = go (find ev.fd l.conns) refl
    where
      go :
          (o : Option Connection)
          → find ev.fd l.conns ≡ o
          → P (elim o [
            | none ↦ l
            | some conn ↦ if ev.writable then (flush ev.fd conn ev.write_sends l).1 else l
          ])
      go none e = r
      go (some conn) e =
          elim ev.writable as (λ b. P (if b then (flush ev.fd conn ev.write_sends l).1 else l)) [
            | true ↦ flush-keeps ev.fd conn conn ev.write_sends l r e
            | false ↦ r
          ]

  read_part-keeps :
      (ev : Event) (conn : Connection) (l : Loop S)
      → P l
      → find ev.fd l.conns ≡ some conn
      → P (handle_readable h m.max_frame ev.fd conn ev.recvs ev.read_sends l).1
  unfolding handle_readable
  read_part-keeps ev conn l r here =
      read_end-keeps ev.fd conn ev.read_sends l
        (read_loop h m.max_frame ev.recvs 0 conn l.stop_requested l.app) r here

  serve-keeps :
      (ev : Event) (conn : Connection) (l : Loop S)
      → P l
      → find ev.fd l.conns ≡ some conn
      → P (serve h m ev conn l)
  unfolding serve
  serve-keeps ev conn l r here =
      let read = handle_readable h m.max_frame ev.fd conn ev.recvs ev.read_sends l in
      elim ev.hung_up
        as (λ b. P (
          if b
          then close_connection ev.fd l
          else write_part h m ev (if ev.readable then read else (true, l)))) [
            | true ↦ closing ev.fd l r
            | false ↦
                write_part-keeps ev (if ev.readable then read else (true, l))
                  (choose-keeps ev.readable read (true, l) (read_part-keeps ev conn l r here) r)
          ]

  serve_found-keeps :
      (ev : Event) (o : Option Connection) (l : Loop S)
      → P l
      → find ev.fd l.conns ≡ o
      → P (serve_found h m ev o l)
  serve_found-keeps ev none l r e = r
  serve_found-keeps ev (some conn) l r e = serve-keeps ev conn l r e

  -- the handling of one event
  pub dispatch-keeps : (ev : Event) (l : Loop S) → Apart m ev.accepts → P l → P (dispatch h m ev l)
  unfolding dispatch
  dispatch-keeps ev l apart r =
      let found = serve_found h m ev (find ev.fd l.conns) l in
      elim (ev.fd == m.listener)
        as (λ b. P (
          if b
          then accept_new_clients h m ev.accepts l
          else if is_in ev.fd l.closed_this_batch
          then l
          else found)) [
            | true ↦ accept-keeps ev.accepts l apart r
            | false ↦ elim (is_in ev.fd l.closed_this_batch) as (λ b. P (if b then l else found)) [
              | true ↦ r
              | false ↦ serve_found-keeps ev (find ev.fd l.conns) l r refl
            ]
          ]

  pub dispatch_all-keeps :
      (evs : List Event) (l : Loop S) → AllApart m evs → P l → P (dispatch_all h m evs l)
  unfolding dispatch_all
  dispatch_all-keeps [] l apart r = r
  dispatch_all-keeps (ev ∷ evs) l apart r =
      dispatch_all-keeps evs (dispatch h m ev l) apart.1 (dispatch-keeps ev l apart.0 r)
