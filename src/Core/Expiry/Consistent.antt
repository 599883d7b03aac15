-- ===== src/Core/Expiry/Consistent.antt =====
-- The vector and the index of ExpiryManager agree, and a removal removes one deadline:
-- ExpiryManager::untrack of src/core/expiry.cpp.
use hermitdb.Prelude.{
  ℕ, suc, ◌-◌, ◌<◌, ◌≡◌, sym, ◌∙◌, none, some, Bytes, length, get_elem?, set, take, true, false,
  ltb, ◌==◌, if◌then◌else◌, bytes_eq, bytes_eq_iff, arith, inl, inr, Option-cases, Bool-cases,
  get_elem?-lt, get_elem?-some, get_elem?-take, get_elem?-set, length-set, length-take,
}
use hermitdb.Prelude.Map.{find, put, erase, find-put, find-erase}
use hermitdb.Core.Expiry.{Slot, Expiry, empty, removed, untrack, expiry_at}

-- Every key in the index is the key of its slot, and every slot's key leads to that slot.
pub record IsConsistent (e : Expiry) : Type 0 where
  pub forward :
      (k : Bytes) (i : ℕ)
      → find k e.index ≡ some i
      → (s : Slot) × (get_elem? e.slots i ≡ some s) × (s.key ≡ k)
  pub backward : (i : ℕ) (s : Slot) → get_elem? e.slots i ≡ some s → find s.key e.index ≡ some i

-- What a removal does to the index and to the vector: `sl` is the last slot.
module _ (e : Expiry) (key : Bytes) (slot : ℕ) (sl : Slot) (last : ℕ)
    (size : length e.slots ≡ suc last) (at_last : get_elem? e.slots last ≡ some sl) where
  removed-last :
      (slot == last) ≡ true
      → removed key slot e ≡ record { slots = take last e.slots; index = erase key e.index }
  unfolding removed
  removed-last h = let l : length e.slots - 1 ≡ last = omega arith in rw (l, h, l)

  removed-inner :
      (slot == last) ≡ false
      → removed key slot e ≡ record {
        slots = take last (set e.slots slot sl);
        index = erase key (put sl.key slot e.index);
      }
  unfolding removed
  removed-inner h =
      let l : length e.slots - 1 ≡ last = omega arith in
      let l' : length (set e.slots slot sl) - 1 ≡ last =
        omega (arith, length-set e.slots slot sl) in
      rw (l, h, at_last, l')

  find-removed :
      (k : Bytes)
      → find k (removed key slot e).index ≡ (
          if bytes_eq key k
          then none
          else if slot == last
          then find k e.index
          else if bytes_eq sl.key k
          then some slot
          else find k e.index)
  find-removed k = elim (Bool-cases (slot == last)) [
    | inl h ↦ rw (removed-last h, h) (find-erase key k e.index)
    | inr h ↦
        rw (removed-inner h, h, find-erase key k (put sl.key slot e.index))
          (rw (find-put sl.key k slot e.index))
  ]

  get-removed :
      slot < length e.slots
      → (j : ℕ)
      → get_elem? (removed key slot e).slots j ≡ (
          if ltb j last
          then (if slot == last
              then get_elem? e.slots j
              else if slot == j
              then some sl
              else get_elem? e.slots j)
          else none)
  get-removed inside j = elim (Bool-cases (slot == last)) [
    | inl h ↦ rw (removed-last h, h) (get_elem?-take last e.slots j)
    | inr h ↦
        rw (removed-inner h, h, get_elem?-take last (set e.slots slot sl) j)
          (rw (get_elem?-set e.slots slot j sl inside))
  ]

-- What a removal does to a consistent table, seen from the outside.
module _ (e : Expiry) (c : IsConsistent e) (key : Bytes) (slot : ℕ)
    (found : find key e.index ≡ some slot) where
  -- the last slot
  last_slot :
      (last : ℕ) × (sl : Slot) × (length e.slots ≡ suc last) × (get_elem? e.slots last ≡ some sl)
  last_slot =
      let (s, at, same) = c.forward key slot found in
      let inside = get_elem?-lt e.slots slot at in
      let (sl, at_last) = get_elem?-some e.slots (length e.slots - 1) (omega arith) in
      (length e.slots - 1, sl, omega arith, at_last)

  removed-forward :
      (k : Bytes) (j : ℕ)
      → find k (removed key slot e).index ≡ some j
      → (s : Slot) × (get_elem? (removed key slot e).slots j ≡ some s) × (s.key ≡ k)
  removed-forward k j h =
      let (last, sl, size, at_last) = last_slot in
      let (s, at, same) = c.forward key slot found in
      let inside = get_elem?-lt e.slots slot at in
      let e' = sym (find-removed e key slot sl last size at_last k) ∙ h in
      elim (Bool-cases (bytes_eq key k)) [
        | inl gone ↦ cc (rw gone at e')
        | inr other ↦ elim (Bool-cases (slot == last)) [
          | inl h' ↦
              let old : find k e.index ≡ some j = rw (other, h') at e' in
              let (s', at', same') = c.forward k j old in
              let before = get_elem?-lt e.slots j at' in
              (
                s',
                get-removed e key slot sl last size at_last inside j
                    ∙ ground (arith, bytes_eq_iff key k),
                same',
              )
          | inr h' ↦ elim (Bool-cases (bytes_eq sl.key k)) [
            | inl mine ↦
                let here : some slot ≡ some j = rw (other, h', mine) at e' in
                (
                  sl,
                  get-removed e key slot sl last size at_last inside j ∙ ground arith,
                  (bytes_eq_iff sl.key k).0 mine,
                )
            | inr else_where ↦
                let old : find k e.index ≡ some j = rw (other, h', else_where) at e' in
                let (s', at', same') = c.forward k j old in
                let before = get_elem?-lt e.slots j at' in
                (
                  s',
                  get-removed e key slot sl last size at_last inside j
                      ∙ ground (arith, bytes_eq_iff key k, bytes_eq_iff sl.key k),
                  same',
                )
          ]
        ]
      ]

  removed-backward :
      (j : ℕ) (s : Slot)
      → get_elem? (removed key slot e).slots j ≡ some s
      → find s.key (removed key slot e).index ≡ some j
  removed-backward j s h =
      let (last, sl, size, at_last) = last_slot in
      let (s₀, at, same) = c.forward key slot found in
      let inside = get_elem?-lt e.slots slot at in
      let e' = sym (get-removed e key slot sl last size at_last inside j) ∙ h in
      find-removed e key slot sl last size at_last s.key
      ∙ ground (
        arith,
        e',
        c.backward j s,
        c.backward last sl at_last,
        bytes_eq_iff key s.key,
        bytes_eq_iff sl.key s.key,
      )

  -- one slot goes
  length-removed : suc (length (removed key slot e).slots) ≡ length e.slots
  length-removed =
      let (last, sl, size, at_last) = last_slot in
      elim (Bool-cases (slot == last)) [
        | inl h ↦
            rw (removed-last e key slot sl last size at_last h)
              (omega (arith, length-take last e.slots (omega (arith, size)), size))
        | inr h ↦
            let same = length-set e.slots slot sl in
            rw (removed-inner e key slot sl last size at_last h) (
              omega
                (arith, length-take last (set e.slots slot sl) (omega (arith, size, same)), size))
      ]

  expiry_at-removed :
      (k : Bytes)
      → expiry_at k (removed key slot e) ≡ (if bytes_eq key k then none else expiry_at k e)
  unfolding expiry_at
  expiry_at-removed k =
      let (last, sl, size, at_last) = last_slot in
      let (s₀, at, same) = c.forward key slot found in
      let inside = get_elem?-lt e.slots slot at in
      let index = find-removed e key slot sl last size at_last k in
      let slots = get-removed e key slot sl last size at_last inside in
      elim (Option-cases (find k e.index)) [
        | inl absent ↦
            ground
              (arith, index, c.backward last sl at_last, bytes_eq_iff key k, bytes_eq_iff sl.key k)
        | inr (i, present) ↦
            let (s', at', same') = c.forward k i present in
            let before = get_elem?-lt e.slots i at' in
            ground (
              arith,
              index,
              slots i,
              slots slot,
              c.backward last sl at_last,
              bytes_eq_iff key k,
              bytes_eq_iff sl.key k,
            )
      ]

pub empty-IsConsistent : IsConsistent empty
unfolding find
empty-IsConsistent = record { forward = λ k i h. cc; backward = λ i s h. cc }

-- Removing a deadline keeps the vector and the index in agreement.
pub untrack-IsConsistent :
    (key : Bytes) (e : Expiry) → IsConsistent e → IsConsistent (untrack key e).1
unfolding untrack
untrack-IsConsistent key e c = elim (Option-cases (find key e.index)) [
  | inl none_there ↦ rw none_there c
  | inr (slot, found) ↦ rw found (record {
    forward = removed-forward e c key slot found;
    backward = removed-backward e c key slot found;
  })
]

-- Removing a deadline removes that one and no other.
pub expiry_at-untrack :
    (key : Bytes) (e : Expiry)
    → IsConsistent e
    → (k : Bytes) → expiry_at k (untrack key e).1 ≡ (if bytes_eq key k then none else expiry_at k e)
unfolding untrack
expiry_at-untrack key e c k = elim (Option-cases (find key e.index)) [
  | inl absent ↦ rw absent (unfold expiry_at in ground (arith, bytes_eq_iff key k))
  | inr (slot, found) ↦ rw found (expiry_at-removed e c key slot found k)
]

-- Removing a deadline that there is removes one slot.
pub length-untrack :
    (key : Bytes) (e : Expiry) (slot : ℕ)
    → IsConsistent e
    → find key e.index ≡ some slot
    → suc (length (untrack key e).1.slots) ≡ length e.slots
unfolding untrack
length-untrack key e slot c found = rw found (length-removed e c key slot found)
