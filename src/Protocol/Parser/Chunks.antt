-- ===== src/Protocol/Parser/Chunks.antt =====
-- The loop ends, and the commands do not depend on how the input is cut into chunks.
use hermitdb.Prelude.{
  ℕ, zero, suc, ◌+◌, ◌≤◌, ◌<◌, ◌≡◌, ◌≢◌, refl, List, [], ◌∷◌, ◌++◌, Bytes, length, arith,
  append_assoc, append-nil, ap, sym, ◌∙◌,
}
use hermitdb.Protocol.Parser.{
  Command, Parser, round, Outcome, ready, failed, out_of_fuel, run, feed, size_checked, measure,
  extend, initial, round_at, on_line,
}
use hermitdb.Protocol.Parser.Lines.{take_line, cut_line}
use hermitdb.Protocol.Parser.Runs.{
  prepend-eq-ready, prepend_all, run_fuel, run-ne-out_of_fuel, run-extend,
}

-- The loop of the callers of `feed`: one call for each chunk that arrives.
unfoldable pub feed_all : ℕ → Parser → List Bytes → Outcome
feed_all max_frame p [] = ready p []
feed_all max_frame p (b ∷ bs) = elim (feed max_frame p b) [
  | ready q cs ↦ prepend_all cs (feed_all max_frame q bs)
  | failed e ↦ failed e
  | out_of_fuel ↦ out_of_fuel
]

size_checked-eq-ready :
    (max_frame : ℕ) (o : Outcome) {p : Parser} {cs : List Command}
    → size_checked max_frame o ≡ ready p cs
    → (o ≡ ready p cs) × (length p.unread ≤ max_frame)
unfolding size_checked
size_checked-eq-ready max_frame (ready q ds) h = ground arith
size_checked-eq-ready max_frame (failed e) h = cc
size_checked-eq-ready max_frame out_of_fuel h = cc

pub prepend_all-ready :
    (cs ds : List Command) (p : Parser) → prepend_all cs (ready p ds) ≡ ready p (cs ++ ds)
prepend_all-ready [] ds p = refl
prepend_all-ready (c ∷ cs) ds p = rw (prepend_all-ready cs ds p)

size_checked-ne-out_of_fuel :
    (max_frame : ℕ) (o : Outcome) → o ≢ out_of_fuel → size_checked max_frame o ≢ out_of_fuel
unfolding size_checked
size_checked-ne-out_of_fuel max_frame (ready p cs) h = λ e. ground arith
size_checked-ne-out_of_fuel max_frame (failed m) h = λ e. cc
size_checked-ne-out_of_fuel max_frame out_of_fuel h = h

-- `feed` always returns: the loop ends by a `break` or a `fail`.
pub feed-ne-out_of_fuel :
    (max_frame : ℕ) (p : Parser) (b : Bytes) → feed max_frame p b ≢ out_of_fuel
unfolding feed
feed-ne-out_of_fuel max_frame p b =
    size_checked-ne-out_of_fuel max_frame _
      (run-ne-out_of_fuel max_frame (suc (measure (extend p b))) (extend p b) (omega arith))

-- `feed` with any fuel that is enough
pub feed-run :
    (max_frame g : ℕ) (p : Parser) (b : Bytes)
    → measure (extend p b) < g
    → feed max_frame p b ≡ size_checked max_frame (run g max_frame (extend p b))
unfolding feed
feed-run max_frame g p b h =
    ap (size_checked max_frame)
      (run_fuel max_frame (suc (measure (extend p b))) g (extend p b) (omega arith) h)

extend-extend : (p : Parser) (a b : Bytes) → extend p (a ++ b) ≡ extend (extend p a) b
extend-extend p a b = ap (λ u. record p { unread = u }) (sym (append_assoc p.unread a b))

pub size_checked_ready :
    (max_frame : ℕ) (p : Parser) (cs : List Command)
    → length p.unread ≤ max_frame
    → size_checked max_frame (ready p cs) ≡ ready p cs
unfolding size_checked
size_checked_ready max_frame p cs h = ground arith

-- Two chunks that are accepted one after the other are accepted as one chunk: the same commands in
-- the same order, and the same parser afterwards.
pub feed-append :
    (max_frame : ℕ) (p : Parser) (a b : Bytes) {p₁ p₂ : Parser} {c₁ c₂ : List Command}
    → feed max_frame p a ≡ ready p₁ c₁
    → feed max_frame p₁ b ≡ ready p₂ c₂
    → feed max_frame p (a ++ b) ≡ ready p₂ (c₁ ++ c₂)
feed-append max_frame p a b {p₁} {p₂} {c₁} {c₂} h k =
    let f = suc (measure (extend p a)) in
    let g = suc (measure (extend p (a ++ b)) + measure (extend p₁ b)) in
    let (h', _) =
      size_checked-eq-ready max_frame _ (sym (feed-run max_frame f p a (omega arith)) ∙ h) in
    let (k', fits) =
      size_checked-eq-ready max_frame _ (sym (feed-run max_frame g p₁ b (omega arith)) ∙ k) in
    let enough : measure (extend (extend p a) b) < g =
      omega (arith, ap measure (extend-extend p a b)) in
    rw
      (
        feed-run max_frame g p (a ++ b) (omega arith),
        extend-extend p a b,
        run-extend max_frame f g (extend p a) b h' enough,
        k',
        prepend_all-ready c₁ c₂ p₂,
      )
      (size_checked_ready max_frame p₂ (c₁ ++ c₂) fits)

-- all the chunks, one behind the other
abbrev pub joined : Bytes → List Bytes → Bytes
joined b [] = b
joined b (d ∷ ds) = b ++ joined d ds

prepend_all-eq-ready :
    (cs : List Command) (o : Outcome) {p : Parser} {ds : List Command}
    → prepend_all cs o ≡ ready p ds
    → (es : List Command) × (o ≡ ready p es) × (ds ≡ cs ++ es)
prepend_all-eq-ready [] o {p} {ds} h = (ds, h, refl)
prepend_all-eq-ready (c ∷ cs) o h =
    let (es, e, same) = prepend-eq-ready zero c (prepend_all cs o) h in
    let (fs, e', same') = prepend_all-eq-ready cs o e in (fs, e', cc)

feed_all-nil : (max_frame : ℕ) (p : Parser) → feed_all max_frame p [] ≡ ready p []
unfolding feed_all
feed_all-nil max_frame p = refl

module _ (max_frame : ℕ) (p : Parser) (b : Bytes) (bs : List Bytes) where
  pub feed_all-ready :
      {r : Parser} {ds : List Command}
      → feed max_frame p b ≡ ready r ds
      → feed_all max_frame p (b ∷ bs) ≡ prepend_all ds (feed_all max_frame r bs)
  unfolding feed_all
  feed_all-ready e = rw (e, feed_all)

  feed_all-failed :
      {m : Bytes} → feed max_frame p b ≡ failed m → feed_all max_frame p (b ∷ bs) ≡ failed m
  unfolding feed_all
  feed_all-failed e = rw (e, feed_all)

  -- The first chunk of an input that is accepted is accepted.
  feed_all-first :
      {q : Parser} {cs : List Command} (o : Outcome)
      → feed max_frame p b ≡ o
      → feed_all max_frame p (b ∷ bs) ≡ ready q cs
      → (r : Parser) × (ds : List Command) × (feed max_frame p b ≡ ready r ds)
  feed_all-first (ready r ds) e h = (r, ds, e)
  feed_all-first (failed m) e h = cc (feed_all-failed e)
  feed_all-first out_of_fuel e h = absurd (feed-ne-out_of_fuel max_frame p b e)

-- However the input is cut into chunks, if every chunk is accepted then one call of `feed` on the
-- whole input accepts it, returns the same commands in order and leaves the same parser.
pub feed_all-feed :
    (max_frame : ℕ) (p : Parser) (b : Bytes) (bs : List Bytes) {q : Parser} {cs : List Command}
    → feed_all max_frame p (b ∷ bs) ≡ ready q cs
    → feed max_frame p (joined b bs) ≡ ready q cs
feed_all-feed max_frame p b [] {q} {cs} h =
    let (r, ds, e) = feed_all-first max_frame p b [] _ refl h in
    let all = sym (feed_all-ready max_frame p b [] e) ∙ h in
    let last : ready r ds ≡ ready q cs =
      rw (feed_all-nil max_frame r, prepend_all-ready ds [] r, append-nil ds) at all in
    e ∙ last
feed_all-feed max_frame p b (d ∷ bs) {q} {cs} h =
    let (r, ds, e) = feed_all-first max_frame p b (d ∷ bs) _ refl h in
    let all = sym (feed_all-ready max_frame p b (d ∷ bs) e) ∙ h in
    let (es, more, same) = prepend_all-eq-ready ds (feed_all max_frame r (d ∷ bs)) all in
    rw same (feed-append max_frame p b (joined d bs) e (feed_all-feed max_frame r d bs more))

-- If a first chunk is accepted, and it and a second as one chunk, then the second is accepted too.
pub feed-split :
    (max_frame : ℕ) (p : Parser) (a b : Bytes) {p₁ p₂ : Parser} {c₁ ds : List Command}
    → feed max_frame p a ≡ ready p₁ c₁
    → feed max_frame p (a ++ b) ≡ ready p₂ ds
    → (c₂ : List Command) × (feed max_frame p₁ b ≡ ready p₂ c₂) × (ds ≡ c₁ ++ c₂)
feed-split max_frame p a b {p₁} {p₂} {c₁} {ds} h k =
    let f = suc (measure (extend p a)) in
    let g = suc (measure (extend p (a ++ b)) + measure (extend p₁ b)) in
    let (h', _) =
      size_checked-eq-ready max_frame _ (sym (feed-run max_frame f p a (omega arith)) ∙ h) in
    let (k', fits) =
      size_checked-eq-ready max_frame _ (sym (feed-run max_frame g p (a ++ b) (omega arith)) ∙ k) in
    let enough : measure (extend (extend p a) b) < g =
      omega (arith, ap measure (extend-extend p a b)) in
    let whole : run g max_frame (extend (extend p a) b) ≡ ready p₂ ds =
      rw (extend-extend p a b) at k' in
    let (c₂, e, same) =
      prepend_all-eq-ready c₁ (run g max_frame (extend p₁ b))
        (sym (run-extend max_frame f g (extend p a) b h' enough) ∙ whole) in
    (
      c₂,
      rw (feed-run max_frame g p₁ b (omega arith), e) (size_checked_ready max_frame p₂ c₂ fits),
      same,
    )

-- With no input there is nothing to do.
pub feed-initial-nil : (max_frame : ℕ) → feed max_frame initial [] ≡ ready initial []
unfolding feed run round round_at on_line take_line cut_line
feed-initial-nil max_frame = ground arith
