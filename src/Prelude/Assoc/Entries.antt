-- ===== src/Prelude/Assoc/Entries.antt =====
-- Properties of all entries of a map, and maps in which no key stands twice.
use Prim.Native.String.{String}
use mathlib.Core.Path.{◌≡◌, refl, subst, ap}
use mathlib.Core.Logic.{inl, inr}
use mathlib.Core.Option.{none, some}
use mathlib.Core.List.{[], ◌∷◌}
use native.Mathlib.Omega.{arith}
use text.Mathlib.Text.{◌==◌}
use text.Mathlib.TextEquality.{eq_iff}
use text.Mathlib.TextPositions.{eq_refl}
use grunyas.Prelude.Tests.{Bool-cases}
use grunyas.Prelude.Assoc.Defs.{Assoc, get, put, get-put}

module _ {ℓ κ} {V : Type ℓ} where
  abbrev pub Every : (String → V → Type κ) → Assoc V → Type κ
  Every P [] = Unit
  Every P ((k, v) ∷ m) = P k v × Every P m

  pub Every-put :
      (P : String → V → Type κ) (k : String) (v : V) (m : Assoc V)
      → P k v
      → Every P m
      → Every P (put k v m)
  unfolding put
  Every-put P k v [] p h = (p, tt)
  Every-put P k v ((j, w) ∷ m) p (q, h) = elim (Bool-cases (j == k)) [
    | inl e ↦ rw e (p, h)
    | inr e ↦ rw e (q, Every-put P k v m p h)
  ]

  pub Every-get :
      (P : String → V → Type κ) (k : String) (m : Assoc V) {v : V}
      → Every P m
      → get k m ≡ some v
      → P k v
  unfolding get
  Every-get P k [] {v} h e = cc
  Every-get P k ((j, w) ∷ m) {v} (q, h) e = elim (Bool-cases (j == k)) [
    | inl s ↦
        let same : w ≡ v = ground (arith, s, e) in
        subst (λ x. P x v) ((eq_iff j k).0 s) (subst (P j) same q)
    | inr s ↦ Every-get P k m h (rw s at e)
  ]

  pub Every-map :
      (P Q : String → V → Type κ) (m : Assoc V)
      → ((k : String) (v : V) → P k v → Q k v)
      → Every P m
      → Every Q m
  Every-map P Q [] f h = tt
  Every-map P Q ((k, v) ∷ m) f (p, h) = (f k v p, Every-map P Q m f h)

module _ {ℓ} {V : Type ℓ} where
  abbrev pub IsUnique : Assoc V → Type ℓ
  IsUnique [] = Unit
  IsUnique ((k, v) ∷ m) = (get k m ≡ none) × IsUnique m

  pub IsUnique-put : (k : String) (v : V) (m : Assoc V) → IsUnique m → IsUnique (put k v m)
  unfolding put
  IsUnique-put k v [] h = (unfold get in refl, tt)
  IsUnique-put k v ((j, w) ∷ m) (p, h) = elim (Bool-cases (j == k)) [
    | inl e ↦ rw e (subst (λ x. get x m ≡ none) ((eq_iff j k).0 e) p, h)
    | inr e ↦ rw e (rw get-put (ground (arith, eq_iff j k, eq_iff k j)), IsUnique-put k v m h)
  ]

-- In a map with unique keys, what holds of each look-up holds of each entry.
pub Every-of_get {ℓ κ} :
    {V : Type ℓ} (P : String → V → Type κ) (m : Assoc V)
    → IsUnique m
    → ((k : String) (v : V) → get k m ≡ some v → P k v)
    → Every P m
unfolding get
Every-of_get P [] u h = tt
Every-of_get P ((j, w) ∷ m) (absent, u) h = (
  h j w (rw eq_refl refl),
  Every-of_get P m u
      λ k v e. h k v (ground (arith, absent, e, eq_iff j k, ap (λ x. get x m) {x = j} {y = k})),
)
