-- ===== src/Core/Expiry/Arming.antt =====
-- Arming a deadline: ExpiryManager::set_expiry of src/core/expiry.cpp.
use hermitdb.Prelude.{
  ℕ, zero, suc, ◌<◌, ◌≡◌, sym, ◌∙◌, List, [], ◌∷◌, Option, none, some, Bytes, length, get_elem?,
  ◌==◌, if◌then◌else◌, bytes_eq, bytes_eq_iff, arith, inl, inr, Option-cases, Bool-cases,
  get_elem?-lt, get_elem?-concat,
}
use hermitdb.Prelude.Int.{ℤ}
use hermitdb.Prelude.Map.{find, find-put}
use hermitdb.Core.Expiry.{Slot, Expiry, rearmed, armed, set_expiry, expiry_at}
use hermitdb.Core.Expiry.Consistent.{IsConsistent}

abbrev rearmed_slot : ℤ → Option Slot → Option Slot
rearmed_slot t none = none
rearmed_slot t (some s) = some (record s { at_ms = t })

get-rearmed :
    (l : List Slot) (i j : ℕ) (t : ℤ)
    → get_elem? (rearmed i t l) j
      ≡ (if i == j then rearmed_slot t (get_elem? l j) else get_elem? l j)
get-rearmed [] i j t = ground arith
get-rearmed (s ∷ l) zero zero t = ground arith
get-rearmed (s ∷ l) zero (suc j) t = ground arith
get-rearmed (s ∷ l) (suc i) zero t = ground arith
get-rearmed (s ∷ l) (suc i) (suc j) t = ground (arith, get-rearmed l i j t)

module _ (e : Expiry) (c : IsConsistent e) (key : Bytes) (t : ℤ) where
  index-lt : (k : Bytes) (i : ℕ) → find k e.index ≡ some i → i < length e.slots
  index-lt k i h = let (s, at, same) = c.forward k i h in get_elem?-lt e.slots i at

  armed_new-forward :
      (k : Bytes) (i : ℕ)
      → find k (armed key t e none).index ≡ some i
      → (s : Slot) × (get_elem? (armed key t e none).slots i ≡ some s) × (s.key ≡ k)
  armed_new-forward k i h =
      let new : Slot = record { key = key; at_ms = t } in
      let e' = sym (find-put key k (length e.slots) e.index) ∙ h in
      elim (Bool-cases (bytes_eq key k)) [
        | inl mine ↦
            (new, get_elem?-concat e.slots i new ∙ ground arith, (bytes_eq_iff key k).0 mine)
        | inr other ↦
            let (s, at, same) = c.forward k i (rw other at e') in
            let inside = get_elem?-lt e.slots i at in
            (s, get_elem?-concat e.slots i new ∙ ground arith, same)
      ]

  armed_new-backward :
      find key e.index ≡ none
      → (i : ℕ) (s : Slot) → get_elem? (armed key t e none).slots i ≡ some s
      → find s.key (armed key t e none).index ≡ some i
  armed_new-backward fresh i s h =
      let new : Slot = record { key = key; at_ms = t } in
      let e' = sym (get_elem?-concat e.slots i new) ∙ h in
      find-put key s.key (length e.slots) e.index
      ∙ ground (arith, c.backward i s, bytes_eq_iff key s.key)

  armed_old-forward :
      (slot : ℕ) (k : Bytes) (i : ℕ)
      → find k e.index ≡ some i
      → (s : Slot) × (get_elem? (rearmed slot t e.slots) i ≡ some s) × (s.key ≡ k)
  armed_old-forward slot k i h =
      let (s, at, same) = c.forward k i h in
      elim (Bool-cases (slot == i)) [
        | inl mine ↦ (record s { at_ms = t }, get-rearmed e.slots slot i t ∙ ground arith, same)
        | inr other ↦ (s, get-rearmed e.slots slot i t ∙ ground arith, same)
      ]

  armed_old-backward :
      (slot i : ℕ) (s : Slot)
      → get_elem? (rearmed slot t e.slots) i ≡ some s
      → find s.key e.index ≡ some i
  armed_old-backward slot i s h =
      let e' = sym (get-rearmed e.slots slot i t) ∙ h in
      elim (Option-cases (get_elem? e.slots i)) [
        | inl absent ↦ ground arith
        | inr (s', present) ↦ ground (arith, c.backward i s' present)
      ]

  -- Arming a deadline keeps the vector and the index in agreement.
  pub set_expiry-IsConsistent : IsConsistent (set_expiry key t e)
  unfolding set_expiry
  set_expiry-IsConsistent = elim (Option-cases (find key e.index)) [
    | inl fresh ↦
        rw fresh (record { forward = armed_new-forward; backward = armed_new-backward fresh })
    | inr (slot, found) ↦
        rw found (record { forward = armed_old-forward slot; backward = armed_old-backward slot })
  ]

  -- Arming a deadline sets that one and no other.
  pub expiry_at-set_expiry :
      (k : Bytes)
      → expiry_at k (set_expiry key t e) ≡ (if bytes_eq key k then some t else expiry_at k e)
  unfolding set_expiry expiry_at
  expiry_at-set_expiry k = elim (Option-cases (find key e.index)) [
    | inl fresh ↦
        rw (fresh, find-put key k (length e.slots) e.index)
          (elim (Option-cases (find k e.index)) [
            | inl absent ↦
                ground (
                  arith,
                  get_elem?-concat e.slots (length e.slots) (record { key = key; at_ms = t }),
                )
            | inr (i, present) ↦
                let inside = index-lt k i present in
                ground (
                  arith,
                  bytes_eq_iff key k,
                  get_elem?-concat e.slots (length e.slots) (record { key = key; at_ms = t }),
                  get_elem?-concat e.slots i (record { key = key; at_ms = t }),
                )
          ])
    | inr (slot, found) ↦
        let (s, at, same) = c.forward key slot found in
        rw found (elim (Option-cases (find k e.index)) [
          | inl absent ↦ ground (arith, bytes_eq_iff key k)
          | inr (i, present) ↦
              let (s', at', same') = c.forward k i present in
              ground (arith, get-rearmed e.slots slot i t, bytes_eq_iff key k)
        ])
  ]
