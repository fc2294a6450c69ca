-- ===== src/Base/Order.antt =====
-- `ORDER BY` on a numeric key: a stable insertion sort, and decimal numerals.
use Prim.Native.Nat.{ℕ, zero, suc, ◌+◌, ◌/◌, ◌%◌, ◌<◌}
use mathlib.Core.Path.{◌≡◌}
use mathlib.Core.Logic.{inl, inr}
use mathlib.Core.Bool.{false}
use mathlib.Core.List.{List, [], ◌∷◌, Perm}
use mathlib.Core.List.Perm
use native.Mathlib.Omega.{arith}
use txmill.Base.Lists.{All, take, is_empty}
use txmill.Base.Tests.{Bool-cases, ltb, leb, if◌then◌else◌}

module _ {A : Type 0} (key : A → ℕ) where
  abbrev pub insert_by : A → List A → List A
  insert_by x [] = x ∷ []
  insert_by x (y ∷ ys) = if leb (key x) (key y) then x ∷ y ∷ ys else y ∷ insert_by x ys

  abbrev pub order_by : List A → List A
  order_by [] = []
  order_by (x ∷ xs) = insert_by x (order_by xs)

  insert_by-perm : (x : A) (ys : List A) → Perm (insert_by x ys) (x ∷ ys)
  insert_by-perm x [] = Perm.rfl
  insert_by-perm x (y ∷ ys) = ground (
    arith,
    Perm.refl (x ∷ y ∷ ys),
    Perm.trans (Perm.cons y (insert_by-perm x ys)) (Perm.swap x y ys),
  )

  pub order_by-perm : (xs : List A) → Perm (order_by xs) xs
  order_by-perm [] = Perm.rfl
  order_by-perm (x ∷ xs) =
      Perm.trans (insert_by-perm x (order_by xs)) (Perm.cons x (order_by-perm xs))

-- What holds of every entry holds of every entry of the sorted list, and of its first ones.
module _ {A : Type 0} (P : A → Type 0) where
  pub All-insert_by :
      (key : A → ℕ) (x : A) (ys : List A) → P x → All P ys → All P (insert_by key x ys)
  All-insert_by key x [] p h = (p, tt)
  All-insert_by key x (y ∷ ys) p h = ground (arith, All-insert_by key x ys p h.1)

  pub All-order_by : (key : A → ℕ) (xs : List A) → All P xs → All P (order_by key xs)
  All-order_by key [] h = tt
  All-order_by key (x ∷ xs) h = All-insert_by key x (order_by key xs) h.0 (All-order_by key xs h.1)

  pub All-take : (n : ℕ) (xs : List A) → All P xs → All P (take n xs)
  All-take zero xs h = tt
  All-take (suc n) [] h = tt
  All-take (suc n) (x ∷ xs) h = (h.0, All-take n xs h.1)

abbrev pub digits_from : ℕ → ℕ → List ℕ → List ℕ
digits_from zero n out = out
digits_from (suc fuel) n out =
    let rest = digits_from fuel (n / 10) ((b'0' + n % 10) ∷ out) in
    if ltb n 10 then (b'0' + n) ∷ out else rest

-- `%d` of a non-negative number.
unfoldable pub decimal : ℕ → List ℕ
decimal n = digits_from (suc n) n []

pub digits_from-cons :
    (fuel n : ℕ) (out : List ℕ) → n < fuel → is_empty (digits_from fuel n out) ≡ false
digits_from-cons zero n out h = absurd (omega arith)
digits_from-cons (suc fuel) n out h = elim (Bool-cases (ltb n 10)) [
  | inl small ↦ ground arith
  | inr large ↦
      ground (arith, digits_from-cons fuel (n / 10) ((b'0' + n % 10) ∷ out) (ground arith))
]
