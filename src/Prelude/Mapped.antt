-- ===== src/Prelude/Mapped.antt =====
-- A function on each element of a list, and a write into the list.
use hermitdb.Prelude.{
  ℕ, zero, suc, ◌≡◌, refl, ap, sym, ◌∙◌, List, [], ◌∷◌, none, some, map, get_elem?, set,
}

pub map-set {ℓ κ} :
    {A : Type ℓ} {B : Type κ} (f : A → B) (xs : List A) (i : ℕ) (v : A)
    → map f (set xs i v) ≡ set (map f xs) i (f v)
map-set f [] i v = refl
map-set f (x ∷ xs) zero v = refl
map-set f (x ∷ xs) (suc i) v = ap (λ r. f x ∷ r) (map-set f xs i v)

pub get_elem?-map {ℓ κ} :
    {A : Type ℓ} {B : Type κ} (f : A → B) (xs : List A) (i : ℕ) {x : A}
    → get_elem? xs i ≡ some x
    → get_elem? (map f xs) i ≡ some (f x)
get_elem?-map f [] i e = cc
get_elem?-map f (x ∷ xs) zero e = ap (λ o. elim o [ none ↦ none | some y ↦ some (f y) ]) e
get_elem?-map f (x ∷ xs) (suc i) e = get_elem?-map f xs i e

-- an element that is written where it stands
pub map-set-same {ℓ κ} :
    {A : Type ℓ} {B : Type κ} (f : A → B) (xs : List A) (i : ℕ) {x : A} (v : A)
    → get_elem? xs i ≡ some x
    → f v ≡ f x
    → map f (set xs i v) ≡ map f xs
map-set-same f [] i v e same = refl
map-set-same f (x ∷ xs) zero v e same =
    ap (λ y. y ∷ map f xs) (same ∙ ap (λ o. elim o [ none ↦ f v | some y ↦ f y ]) (sym e))
map-set-same f (x ∷ xs) (suc i) v e same = ap (λ r. f x ∷ r) (map-set-same f xs i v e same)
