-- ===== src/Net/Connection/Flush.antt =====
-- What a flush sends and what it keeps.
use hermitdb.Prelude.{
  ℕ, zero, suc, ◌≤◌, ◌≡◌, ◌≢◌, ◌⊎◌, inl, inr, refl, ap, ◌∙◌, List, [], ◌∷◌, ◌++◌, Option, none,
  some, Bytes, length, take, drop, Bool, true, false, ltb, ◌==◌, if◌then◌else◌, arith, append_assoc,
  take-append-drop, Option-cases,
}
use hermitdb.Net.Table.{find, put, find-put, find-erase}
use hermitdb.Net.Connection.{
  Connection, Interest, input, both, same_interest, Loop, Sends, SendReturn, sent, SendEnd, drained,
  full, dead, push, flush, flush_pushed, close_connection, modify_fd, max_outbuf_bytes, modified,
}

-- What is left agrees with how the loop ended.
abbrev Ends : SendEnd → Bytes → Type 0
Ends drained rest = rest ≡ []
Ends full rest = rest ≢ []
Ends dead rest = rest ≢ []

push-Ends :
    (answers : List SendReturn) (s : Bytes) → Ends (push answers s).end (push answers s).rest
unfolding push
push-Ends answers [] = refl
push-Ends [] (c ∷ s) = λ h. cc
push-Ends (sent zero ∷ answers) (c ∷ s) = λ h. cc
push-Ends (sent (suc n) ∷ answers) (c ∷ s) = push-Ends answers (drop n s)
push-Ends (SendReturn.interrupted ∷ answers) (c ∷ s) = push-Ends answers (c ∷ s)
push-Ends (SendReturn.again ∷ answers) (c ∷ s) = λ h. cc
push-Ends (SendReturn.broken ∷ answers) (c ∷ s) = λ h. cc

-- Nothing is lost, sent twice or reordered.
push-append :
    (answers : List SendReturn) (s : Bytes) → (push answers s).taken ++ (push answers s).rest ≡ s
unfolding push
push-append answers [] = refl
push-append [] (c ∷ s) = refl
push-append (sent zero ∷ answers) (c ∷ s) = refl
push-append (sent (suc n) ∷ answers) (c ∷ s) =
    append_assoc (c ∷ take n s) (push answers (drop n s)).taken (push answers (drop n s)).rest
    ∙ ap (λ r. c ∷ (take n s ++ r)) (push-append answers (drop n s))
    ∙ ap (λ r. c ∷ r) (take-append-drop n s)
push-append (SendReturn.interrupted ∷ answers) (c ∷ s) = push-append answers (c ∷ s)
push-append (SendReturn.again ∷ answers) (c ∷ s) = refl
push-append (SendReturn.broken ∷ answers) (c ∷ s) = refl

-- what the loop waits for, when this is left
abbrev pub wanted : Bytes → Interest
wanted [] = input
wanted (c ∷ s) = both

same_interest-eq : (a b : Interest) → same_interest a b ≡ true → a ≡ b
same_interest-eq input input h = refl
same_interest-eq both both h = refl
same_interest-eq input both h = cc
same_interest-eq both input h = cc

module _ {S : Type 0} (fd : ℕ) where
  -- The connection is kept with `rest` queued on it.
  pub record Kept (conn : Connection) (sends : Sends) (rest : Bytes) (l : Loop S) : Type 0 where
    pub bounded : length rest ≤ max_outbuf_bytes
    pub unfinished : conn.close_after_flush ≡ true → rest ≢ []
    pub held : find fd l.conns ≡ some (record conn { outbuf = rest })
    pub awaited : sends.modifies ≡ true → find fd l.interest ≡ some (wanted rest)

  -- The connection is gone.
  pub record Dropped (l : Loop S) : Type 0 where
    pub erased : find fd l.conns ≡ none
    pub forgotten : find fd l.interest ≡ none

  -- No other connection is touched, and neither is the server behind the handler.
  pub record Apart (l l' : Loop S) : Type 0 where
    pub conns_apart : (j : ℕ) → (fd == j) ≡ false → find j l'.conns ≡ find j l.conns
    pub interest_apart : (j : ℕ) → (fd == j) ≡ false → find j l'.interest ≡ find j l.interest
    pub app_apart : l'.app ≡ l.app
    pub stop_apart : l'.stop_requested ≡ l.stop_requested

  close-Dropped : (l : Loop S) → Dropped (close_connection fd l)
  unfolding close_connection
  close-Dropped l = record {
    erased = ground (arith, find-erase fd fd l.conns);
    forgotten = ground (arith, find-erase fd fd l.interest);
  }

  close-Apart : (l : Loop S) → Apart l (close_connection fd l)
  unfolding close_connection
  close-Apart l = record {
    conns_apart = λ j h. ground (arith, find-erase fd j l.conns);
    interest_apart = λ j h. ground (arith, find-erase fd j l.interest);
    app_apart = refl;
    stop_apart = refl;
  }

  pub modify-same :
      (ev : Interest) (m : Bool) (l : Loop S)
      → ((modify_fd fd ev m l).conns ≡ l.conns)
        × ((modify_fd fd ev m l).app ≡ l.app)
        × ((modify_fd fd ev m l).stop_requested ≡ l.stop_requested)
        × ((modify_fd fd ev m l).wire ≡ l.wire)
  unfolding modify_fd
  modify-same ev m l = (ground arith, ground arith, ground arith, ground arith)

  pub modify-cases :
      (ev : Interest) (m : Bool) (l : Loop S)
      → ((modify_fd fd ev m l).interest ≡ l.interest)
        ⊎ ((modify_fd fd ev m l).interest ≡ put fd ev l.interest)
  unfolding modify_fd
  modify-cases ev m l = go (find fd l.interest) m
    where
      go :
          (o : Option Interest) (m : Bool)
          → ((modified fd ev m o l).interest ≡ l.interest)
            ⊎ ((modified fd ev m o l).interest ≡ put fd ev l.interest)
      go none true = inr refl
      go none false = inl refl
      go (some old) m = kept (same_interest old ev) m
        where
          kept :
              (same m : Bool)
              → ((if same
                    then l
                    else if m
                    then record l { interest = put fd ev l.interest }
                    else l).interest
                  ≡ l.interest)
                ⊎ ((if same
                      then l
                      else if m
                      then record l { interest = put fd ev l.interest }
                      else l).interest
                    ≡ put fd ev l.interest)
          kept true m = inl refl
          kept false true = inr refl
          kept false false = inl refl

  modify-find : (ev : Interest) (l : Loop S) → find fd (modify_fd fd ev true l).interest ≡ some ev
  unfolding modify_fd
  modify-find ev l = elim (Option-cases (find fd l.interest)) [
    | inl absent ↦ ground (arith, find-put fd fd ev l.interest)
    | inr (old, present) ↦ ground (arith, find-put fd fd ev l.interest, same_interest-eq old ev)
  ]

  modify-other :
      (ev : Interest) (m : Bool) (l : Loop S) (j : ℕ)
      → (fd == j) ≡ false
      → find j (modify_fd fd ev m l).interest ≡ find j l.interest
  unfolding modify_fd
  modify-other ev m l j h = ground (arith, find-put fd j ev l.interest)

  -- the loop with the connection put back and its interest set
  abbrev rearmed : Connection → Interest → Bool → Loop S → Loop S
  rearmed conn ev m l = modify_fd fd ev m (record l { conns = put fd conn l.conns })

  rearmed-Apart :
      (conn : Connection) (ev : Interest) (m : Bool) (l : Loop S) → Apart l (rearmed conn ev m l)
  rearmed-Apart conn ev m l =
      let l' : Loop S = record l { conns = put fd conn l.conns } in
      let (conns, app, stop, wire) = modify-same ev m l' in
      record {
        conns_apart = λ j h. ap (find j) conns ∙ ground (arith, find-put fd j conn l.conns);
        interest_apart = λ j h. modify-other ev m l' j h;
        app_apart = app;
        stop_apart = stop;
      }

  rearmed-held :
      (conn : Connection) (ev : Interest) (m : Bool) (l : Loop S)
      → find fd (rearmed conn ev m l).conns ≡ some conn
  rearmed-held conn ev m l =
      let l' : Loop S = record l { conns = put fd conn l.conns } in
      ap (find fd) (modify-same ev m l').0 ∙ ground (arith, find-put fd fd conn l.conns)

  rearmed-awaited :
      (conn : Connection) (ev : Interest) (m : Bool) (l : Loop S)
      → m ≡ true
      → find fd (rearmed conn ev m l).interest ≡ some ev
  rearmed-awaited conn ev m l h = rw h (modify-find ev (record l { conns = put fd conn l.conns }))

  -- What a flush leaves.
  abbrev pub Flushed : Connection → Sends → Bytes → Bool × Loop S → Type 0
  Flushed conn sends rest (true, l) = Kept conn sends rest l
  Flushed conn sends rest (false, l) = Dropped l

  abbrev After : Connection → Sends → Bytes → Loop S → Bool × Loop S → Type 0
  After conn sends rest l r = Flushed conn sends rest r × Apart l r.1 × (r.1.wire ≡ l.wire)

  close-After :
      (conn : Connection) (sends : Sends) (rest : Bytes) (l : Loop S)
      → After conn sends rest l (false, close_connection fd l)
  close-After conn sends rest l = (close-Dropped l, close-Apart l, close-wire l)
    where
      close-wire : (l : Loop S) → (close_connection fd l).wire ≡ l.wire
      close-wire l = unfold close_connection in refl

  rearmed-After :
      (conn : Connection) (sends : Sends) (rest : Bytes) (l : Loop S)
      → length rest ≤ max_outbuf_bytes
      → (conn.close_after_flush ≡ true → rest ≢ [])
      → After conn sends rest l
          (true, rearmed (record conn { outbuf = rest }) (wanted rest) sends.modifies l)
  rearmed-After conn sends rest l small unfinished =
      let conn' : Connection = record conn { outbuf = rest } in
      let ev = wanted rest in
      let m = sends.modifies in
      (
        record {
          bounded = small;
          unfinished = unfinished;
          held = rearmed-held conn' ev m l;
          awaited = rearmed-awaited conn' ev m l;
        },
        rearmed-Apart conn' ev m l,
        (modify-same ev m (record l { conns = put fd conn' l.conns })).3,
      )

  choose :
      (conn : Connection) (sends : Sends) (rest : Bytes) (l : Loop S) (c : Bool)
      (a b : Bool × Loop S)
      → (c ≡ true → After conn sends rest l a)
      → (c ≡ false → After conn sends rest l b)
      → After conn sends rest l (if c then a else b)
  choose conn sends rest l true a b h k = h refl
  choose conn sends rest l false a b h k = k refl

  flush_pushed-After :
      (conn : Connection) (sends : Sends) (end : SendEnd) (rest taken : Bytes) (l : Loop S)
      → Ends end rest
      → After conn sends rest l
          (flush_pushed fd conn sends.modifies (record { end = end; rest = rest; taken = taken }) l)
  flush_pushed-After conn sends dead rest taken l e = close-After conn sends rest l
  flush_pushed-After conn sends drained [] taken l e =
      choose conn sends [] l conn.close_after_flush (false, close_connection fd l)
        (true, rearmed (record conn { outbuf = [] }) input sends.modifies l)
        (λ h. close-After conn sends [] l)
        (λ h. rearmed-After conn sends [] l (omega arith) (λ k. cc))
  flush_pushed-After conn sends drained (c ∷ rest) taken l e = cc
  flush_pushed-After conn sends full [] taken l e = absurd (e refl)
  flush_pushed-After conn sends full (c ∷ rest) taken l e =
      choose conn sends (c ∷ rest) l (ltb max_outbuf_bytes (length (c ∷ rest)))
        (false, close_connection fd l)
        (true, rearmed (record conn { outbuf = c ∷ rest }) both sends.modifies l)
        (λ h. close-After conn sends (c ∷ rest) l)
        (λ h. rearmed-After conn sends (c ∷ rest) l (ground arith) (λ k. e))

  -- A flush hands the kernel the first bytes that are queued, in order. It returns whether the
  -- connection is kept. If so then the rest is queued on it, within the limit, the loop waits for
  -- output exactly if there is a rest, unless `epoll_ctl` failed, and a connection that is to be closed
  -- still has a rest. If not then its table entries are gone. All other connections and the server
  -- behind the handler are as they were.
  pub flush_lem :
      (conn : Connection) (sends : Sends) (l : Loop S)
      → (taken rest : Bytes) × (taken ++ rest ≡ conn.outbuf)
        × ((flush fd conn sends l).1.wire ≡ l.wire ++ (fd, taken) ∷ [])
        × Flushed conn sends rest (flush fd conn sends l)
        × Apart l (flush fd conn sends l).1
  unfolding flush
  flush_lem conn sends l =
      let p = push sends.answers conn.outbuf in
      let l' : Loop S = record l { wire = l.wire ++ (fd, p.taken) ∷ [] } in
      let (done, apart, wire) =
        flush_pushed-After conn sends p.end p.rest p.taken l'
          (push-Ends sends.answers conn.outbuf) in
      (
        p.taken,
        p.rest,
        push-append sends.answers conn.outbuf,
        wire,
        done,
        record {
          conns_apart = apart.conns_apart;
          interest_apart = apart.interest_apart;
          app_apart = apart.app_apart;
          stop_apart = apart.stop_apart;
        },
      )
