-- ===== src/Config/Seen.antt =====
-- The lists of problems and the sets of seen keys in `Validate` of config/config.go.
use grunyas.Prelude.{
  ◌≡◌, refl, ◌≢◌, ap, Bool, true, false, List, [], ◌∷◌, ◌++◌, All, arith, str_eq, eq_iff, String, ℕ,
  ◌≤◌,
}
use grunyas.Prelude.Int.{ℤ, pos, negsuc, ltb_ℤ}
use grunyas.Config.Problems.{Problem, check, seen, Endpoint, same_endpoint}

pub append-nil {ℓ} :
    {A : Type ℓ} (xs : List A) {ys : List A} → xs ++ ys ≡ [] → (xs ≡ []) × (ys ≡ [])
append-nil [] e = (refl, e)
append-nil (x ∷ xs) e = cc

pub check-nil : (b : Bool) (p : Problem) → check b p ≡ [] → b ≡ false
check-nil true p e = cc
check-nil false p e = refl

pub check_append-nil :
    (b : Bool) (p : Problem) {ys : List Problem} → check b p ++ ys ≡ [] → (b ≡ false) × (ys ≡ [])
check_append-nil true p e = cc
check_append-nil false p e = (refl, e)

pub at_least : (n : ℤ) (k : ℕ) → ltb_ℤ n (pos k) ≡ false → (m : ℕ) × (n ≡ pos m) × (k ≤ m)
at_least (pos m) k e = (m, refl, ground (arith, e))
at_least (negsuc m) k e = cc

abbrev pub Distinct {ℓ} : {A : Type ℓ} → List A → Type ℓ
Distinct [] = Unit
Distinct (x ∷ xs) = All (λ y. y ≢ x) xs × Distinct xs

-- Each element is not among those before it.
abbrev pub Unseen {ℓ} : {A : Type ℓ} → (A → A → Bool) → List A → List A → Type 0
Unseen test before [] = Unit
Unseen test before (x ∷ xs) = (seen test x before ≡ false) × Unseen test (x ∷ before) xs

module _ {ℓ} {A : Type ℓ} (test : A → A → Bool) (same : (x : A) → test x x ≡ true) where
  differs : (x y : A) → test x y ≡ false → x ≢ y
  differs x y e p = absurd (ground (arith, e, same x, ap (test x) p))

  split_unseen :
      (x : A) (before xs : List A)
      → All (λ y. seen test y (x ∷ before) ≡ false) xs
      → All (λ y. y ≢ x) xs × All (λ y. seen test y before ≡ false) xs
  split_unseen x before [] h = (tt, tt)
  split_unseen x before (y ∷ ys) (e, h) =
      let (d, u) = split_unseen x before ys h in
      ((differs y x (ground (arith, e)), d), (ground (arith, e), u))

  pub Unseen-Distinct :
      (before xs : List A)
      → Unseen test before xs
      → All (λ y. seen test y before ≡ false) xs × Distinct xs
  Unseen-Distinct before [] h = (tt, tt)
  Unseen-Distinct before (x ∷ xs) (e, h) =
      let (u, d) = Unseen-Distinct (x ∷ before) xs h in
      let (n, v) = split_unseen x before xs u in ((e, v), (n, d))

pub str_same : (s : String) → str_eq s s ≡ true
str_same s = (eq_iff s s).1 refl

pub endpoint_same : (e : Endpoint) → same_endpoint e e ≡ true
endpoint_same (h, pos p) = ground (arith, str_same h)
endpoint_same (h, negsuc p) = ground (arith, str_same h)
