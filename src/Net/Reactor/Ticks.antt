-- ===== src/Net/Reactor/Ticks.antt =====
-- The ticks and the timeout of the loop: src/net/event_loop.cpp.
use hermitdb.Prelude.{
  ◌+◌, ◌≤◌, ◌<◌, ◌≡◌, ◌⊎◌, inl, inr, refl, ap, ◌∙◌, List, [], ◌∷◌, arith, Bool, true, false, ◌||◌,
  if◌then◌else◌,
}
use hermitdb.Prelude.Int.{ℤ, pos, negsuc, pos_part, neg_part, ◌+ℤ◌, ◌-ℤ◌, leb_ℤ}
use hermitdb.Net.Connection.{Loop}
use hermitdb.Net.Reactor.{
  Tick, min_ℤ, clamp_ℤ, rescheduled, fired, fire_due, run_due_ticks, earliest, timeout_of,
  max_loop_timeout_ms,
}

-- The order of integers.
infix 50 ◌≤ℤ◌ ◌<ℤ◌
abbrev pub ◌≤ℤ◌ : ℤ → ℤ → Type 0
a ≤ℤ b = pos_part a + neg_part b ≤ pos_part b + neg_part a

abbrev pub ◌<ℤ◌ : ℤ → ℤ → Type 0
a <ℤ b = pos_part a + neg_part b < pos_part b + neg_part a

≤ℤ-min : (x next : ℤ) (d : ℤ) → x ≤ℤ min_ℤ next d → x ≤ℤ next
≤ℤ-min x next d h = ground arith

min-≤ℤ : (x next d : ℤ) → x ≤ℤ min_ℤ next d → x ≤ℤ d
min-≤ℤ x next d h = ground arith

-- `_-ℤ_` and `_+ℤ_` by their parts.
sub-parts :
    (a b : ℤ)
    → pos_part (a -ℤ b) + (neg_part a + pos_part b) ≡ neg_part (a -ℤ b) + (pos_part a + neg_part b)
unfolding ◌-ℤ◌
sub-parts a b = ground arith

add-parts :
    (a b : ℤ)
    → pos_part (a +ℤ b) + (neg_part a + neg_part b) ≡ neg_part (a +ℤ b) + (pos_part a + pos_part b)
unfolding ◌+ℤ◌
add-parts a b = ground arith

clamp-≤ℤ :
    (x : ℤ) → (pos 0 ≤ℤ clamp_ℤ x (pos 0) (pos 100)) × (clamp_ℤ x (pos 0) (pos 100) ≤ℤ pos 100)
clamp-≤ℤ x = ground arith

clamp-cases : (x : ℤ) → (clamp_ℤ x (pos 0) (pos 100) ≡ pos 0) ⊎ (clamp_ℤ x (pos 0) (pos 100) ≤ℤ x)
clamp-cases x = ground arith

min-cases : (next d x : ℤ) → x ≡ min_ℤ next d → (x ≡ next) ⊎ (d ≤ℤ x)
min-cases next d x e = ground (arith, e)

clamp-full : (x : ℤ) → pos 100 ≤ℤ x → clamp_ℤ x (pos 0) (pos 100) ≡ pos 100
clamp-full (pos n) h = ground arith
clamp-full (negsuc n) h = ground arith

clamp-≥ℤ : (x : ℤ) → x ≤ℤ pos 100 → x ≤ℤ clamp_ℤ x (pos 0) (pos 100)
clamp-≥ℤ x h = ground arith

after_full : (now e : ℤ) → e ≡ now +ℤ pos 100 → pos 100 ≤ℤ e -ℤ now
after_full now e p =
    omega (arith, sub-parts e now, add-parts now (pos 100), ap pos_part p, ap neg_part p)

at_most_full : (now e : ℤ) → e ≤ℤ now +ℤ pos 100 → e -ℤ now ≤ℤ pos 100
at_most_full now e h = omega (arith, sub-parts e now, add-parts now (pos 100), h)

no_sooner : (now e t : ℤ) → e -ℤ now ≤ℤ t → e ≤ℤ now +ℤ t
no_sooner now e t h = omega (arith, sub-parts e now, add-parts now t, h)

≤ℤ-trans : (a b c : ℤ) → a ≤ℤ b → b ≤ℤ c → a ≤ℤ c
≤ℤ-trans a b c h k = omega arith

-- A wait of `x - now` that starts at `now`.
no_later : (now e d t : ℤ) → t ≤ℤ e -ℤ now → e ≤ℤ d → now +ℤ t ≤ℤ d
no_later now e d t h k = omega (arith, sub-parts e now, add-parts now t, h, k)

module _ {S : Type 0} where
  -- Every tick's deadline is behind `now`, and no deadline is before `next`.
  abbrev pub AllAhead : ℤ → ℤ → List (Tick S) → Type 0
  AllAhead now next [] = Unit
  AllAhead now next (t ∷ ts) =
      (now <ℤ t.next_due_ms) × (next ≤ℤ t.next_due_ms) × AllAhead now next ts

  -- Every tick's interval is positive.
  abbrev pub AllPositive : List (Tick S) → Type 0
  AllPositive [] = Unit
  AllPositive (t ∷ ts) = (pos 0 <ℤ t.interval_ms) × AllPositive ts

  abbrev pub NoneBefore : ℤ → List (Tick S) → Type 0
  NoneBefore next [] = Unit
  NoneBefore next (t ∷ ts) = (next ≤ℤ t.next_due_ms) × NoneBefore next ts

  rescheduled-ahead :
      (now : ℤ) (t : Tick S) → pos 0 <ℤ t.interval_ms → now <ℤ (rescheduled now t).next_due_ms
  unfolding ◌+ℤ◌
  rescheduled-ahead now t h = ground arith

  fire_due-le :
      (now : ℤ) (ts : List (Tick S)) (next : ℤ) (l : Loop S) → (fire_due now ts next l).1 ≤ℤ next
  unfolding fire_due
  fire_due-le now [] next l = omega arith
  fire_due-le now (t ∷ ts) next l =
      ≤ℤ-min _ next (rescheduled now t).next_due_ms
        (fire_due-le now ts (min_ℤ next (rescheduled now t).next_due_ms) (fired now t l))

  earliest-le : (next : ℤ) (ts : List (Tick S)) → earliest next ts ≤ℤ next
  unfolding earliest
  earliest-le next [] = omega arith
  earliest-le next (t ∷ ts) = ground (arith, earliest-le (min_ℤ next t.next_due_ms) ts)

  earliest-NoneBefore : (next : ℤ) (ts : List (Tick S)) → NoneBefore (earliest next ts) ts
  unfolding earliest
  earliest-NoneBefore next [] = tt
  earliest-NoneBefore next (t ∷ ts) = (
    ground (arith, earliest-le (min_ℤ next t.next_due_ms) ts),
    earliest-NoneBefore (min_ℤ next t.next_due_ms) ts,
  )

  -- the ticks whose deadline is not behind `now`
  abbrev pub due_ticks : ℤ → List (Tick S) → List (Tick S)
  due_ticks now [] = []
  due_ticks now (t ∷ ts) =
      if leb_ℤ t.next_due_ms now then t ∷ due_ticks now ts else due_ticks now ts

  -- the callbacks of all these ticks, one after the other
  abbrev pub callbacks : List (Tick S) → Loop S → Loop S
  callbacks [] l = l
  callbacks (t ∷ ts) l =
      callbacks ts
        (record l { stop_requested = l.stop_requested || t.stops l.app; app = t.next l.app })

  fire_due_lem :
      (now : ℤ) (ts : List (Tick S)) (next : ℤ) (l : Loop S)
      → AllPositive ts
      → AllAhead now (fire_due now ts next l).1 (fire_due now ts next l).0
  unfolding fire_due
  fire_due_lem now [] next l ps = tt
  fire_due_lem now (t ∷ ts) next l (p, ps) =
      let d = (rescheduled now t).next_due_ms in
      (
        rescheduled-ahead now t p,
        min-≤ℤ _ next d (fire_due-le now ts (min_ℤ next d) (fired now t l)),
        fire_due_lem now ts (min_ℤ next d) (fired now t l) ps,
      )

  fired-callbacks :
      (now : ℤ) (t : Tick S) (ts : List (Tick S)) (l : Loop S)
      → callbacks (due_ticks now ts) (fired now t l) ≡ callbacks (due_ticks now (t ∷ ts)) l
  fired-callbacks now t ts l = go (leb_ℤ t.next_due_ms now)
    where
      called : Loop S
      called = record l { stop_requested = l.stop_requested || t.stops l.app; app = t.next l.app }

      go :
          (due : Bool)
          → callbacks (due_ticks now ts) (if due then called else l)
            ≡ callbacks (if due then t ∷ due_ticks now ts else due_ticks now ts) l
      go true = refl
      go false = refl

  fire_due-callbacks :
      (now : ℤ) (ts : List (Tick S)) (next : ℤ) (l : Loop S)
      → (fire_due now ts next l).2 ≡ callbacks (due_ticks now ts) l
  unfolding fire_due
  fire_due-callbacks now [] next l = refl
  fire_due-callbacks now (t ∷ ts) next l =
      fire_due-callbacks now ts (min_ℤ next (rescheduled now t).next_due_ms) (fired now t l)
      ∙ fired-callbacks now t ts l

  -- When every interval is positive, then after the ticks have run at `now` every tick's deadline is
  -- behind `now`, the deadline that is returned is not behind any of theirs and at most 100 ms behind
  -- `now`, and the callbacks that ran are those that were due, once each, in their order.
  pub run_due_ticks_lem :
      (now : ℤ) (ts : List (Tick S)) (l : Loop S)
      → AllPositive ts
      → (AllAhead now (run_due_ticks now ts l).1 (run_due_ticks now ts l).0
          × ((run_due_ticks now ts l).1 ≤ℤ now +ℤ max_loop_timeout_ms)
          × ((run_due_ticks now ts l).2 ≡ callbacks (due_ticks now ts) l))
  unfolding run_due_ticks
  run_due_ticks_lem now ts l ps = (
    fire_due_lem now ts (now +ℤ max_loop_timeout_ms) l ps,
    fire_due-le now ts (now +ℤ max_loop_timeout_ms) l,
    fire_due-callbacks now ts (now +ℤ max_loop_timeout_ms) l,
  )

  -- Every tick's deadline is not before the end of the wait, or there is no wait.
  abbrev pub NoLater : ℤ → ℤ → List (Tick S) → Type 0
  NoLater now timeout [] = Unit
  NoLater now timeout (t ∷ ts) =
      ((timeout ≡ pos 0) ⊎ (now +ℤ timeout ≤ℤ t.next_due_ms)) × NoLater now timeout ts

  -- Some tick's deadline is not behind `at`.
  abbrev pub SomeDue : ℤ → List (Tick S) → Type 0
  SomeDue at [] = ⊥
  SomeDue at (t ∷ ts) = (t.next_due_ms ≤ℤ at) ⊎ SomeDue at ts

  NoLater-clamp_ℤ :
      (now e : ℤ) (ts : List (Tick S))
      → NoneBefore e ts
      → NoLater now (clamp_ℤ (e -ℤ now) (pos 0) max_loop_timeout_ms) ts
  NoLater-clamp_ℤ now e [] n = tt
  NoLater-clamp_ℤ now e (t ∷ ts) (h, n) = (
    elim (clamp-cases (e -ℤ now)) [
      | inl z ↦ inl z
      | inr le ↦ inr (no_later now e t.next_due_ms _ le h)
    ],
    NoLater-clamp_ℤ now e ts n,
  )

  earliest-SomeDue :
      (next : ℤ) (ts : List (Tick S)) → (earliest next ts ≡ next) ⊎ SomeDue (earliest next ts) ts
  unfolding earliest
  earliest-SomeDue next [] = inl refl
  earliest-SomeDue next (t ∷ ts) = elim (earliest-SomeDue (min_ℤ next t.next_due_ms) ts) [
    | inl e ↦ elim (min-cases next t.next_due_ms _ e) [ inl f ↦ inl f | inr le ↦ inr (inl le) ]
    | inr s ↦ inr (inr s)
  ]

  SomeDue-≤ℤ : (a b : ℤ) (ts : List (Tick S)) → a ≤ℤ b → SomeDue a ts → SomeDue b ts
  SomeDue-≤ℤ a b [] h s = elim s [ ]
  SomeDue-≤ℤ a b (t ∷ ts) h (inl le) = inl (≤ℤ-trans t.next_due_ms a b le h)
  SomeDue-≤ℤ a b (t ∷ ts) h (inr s) = inr (SomeDue-≤ℤ a b ts h s)

  -- The timeout of the wait is between 0 and 100 ms. A wait that starts at `now` and lasts that long
  -- does not end behind the deadline of a tick, unless the timeout is 0, and when it ends some tick is
  -- due, unless the timeout is 100 ms.
  pub timeout_of_lem :
      (now : ℤ) (ts : List (Tick S))
      → (((pos 0 ≤ℤ timeout_of now ts) × (timeout_of now ts ≤ℤ max_loop_timeout_ms))
          × NoLater now (timeout_of now ts) ts
          × ((timeout_of now ts ≡ max_loop_timeout_ms) ⊎ SomeDue (now +ℤ timeout_of now ts) ts))
  unfolding timeout_of
  timeout_of_lem now ts =
      let e = earliest (now +ℤ max_loop_timeout_ms) ts in
      (
        clamp-≤ℤ (e -ℤ now),
        NoLater-clamp_ℤ now e ts (earliest-NoneBefore (now +ℤ max_loop_timeout_ms) ts),
        elim (earliest-SomeDue (now +ℤ max_loop_timeout_ms) ts) [
          | inl full ↦ inl (clamp-full (e -ℤ now) (after_full now e full))
          | inr s ↦ inr (
              SomeDue-≤ℤ e _ ts
                (no_sooner now e _ (
                  clamp-≥ℤ (e -ℤ now)
                    (at_most_full now e (earliest-le (now +ℤ max_loop_timeout_ms) ts))))
                s)
        ],
      )
