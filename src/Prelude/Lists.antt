-- ===== src/Prelude/Lists.antt =====
-- Lists measured and indexed by native numbers, under the library's names.
use Prim.Native.Nat.{ℕ, zero, suc, ◌+◌, ◌-◌, ◌≤◌, ◌<◌, min}
use mathlib.Core.Path.{◌≡◌, refl, ap}
use mathlib.Core.Logic.{◌≢◌}
use mathlib.Core.List.{List, [], ◌∷◌, ◌++◌, map}
use mathlib.Core.Option.{Option, none, some}
use native.Mathlib.Omega.{arith}

module _ {ℓ} {A : Type ℓ} where
  abbrev pub length : List A → ℕ
  length [] = 0
  length (x ∷ xs) = suc (length xs)

  abbrev pub get_elem? : List A → ℕ → Option A
  get_elem? [] i = none
  get_elem? (x ∷ xs) zero = some x
  get_elem? (x ∷ xs) (suc i) = get_elem? xs i

  -- A write out of bounds changes nothing.
  abbrev pub set : List A → ℕ → A → List A
  set [] i v = []
  set (x ∷ xs) zero v = v ∷ xs
  set (x ∷ xs) (suc i) v = x ∷ set xs i v

  pub length-append : (xs ys : List A) → length (xs ++ ys) ≡ length xs + length ys
  length-append [] ys = omega arith
  length-append (x ∷ xs) ys = omega (arith, length-append xs ys)

module _ {ℓ} {A : Type ℓ} where
  pub length-set : (xs : List A) (i : ℕ) (v : A) → length (set xs i v) ≡ length xs
  length-set [] i v = refl
  length-set (x ∷ xs) zero v = refl
  length-set (x ∷ xs) (suc i) v = ap suc (length-set xs i v)

  pub get_elem?-set_self :
      (xs : List A) (i : ℕ) (v : A) → i < length xs → get_elem? (set xs i v) i ≡ some v
  get_elem?-set_self [] i v h = elim h [ ]
  get_elem?-set_self (x ∷ xs) zero v h = refl
  get_elem?-set_self (x ∷ xs) (suc i) v h = get_elem?-set_self xs i v (omega arith)

  pub get_elem?-set_ne :
      (xs : List A) {i j : ℕ} (v : A) → i ≢ j → get_elem? (set xs i v) j ≡ get_elem? xs j
  get_elem?-set_ne [] v h = refl
  get_elem?-set_ne (x ∷ xs) {i = zero} {j = zero} v h = absurd (h refl)
  get_elem?-set_ne (x ∷ xs) {i = zero} {j = suc j} v h = refl
  get_elem?-set_ne (x ∷ xs) {i = suc i} {j = zero} v h = refl
  get_elem?-set_ne (x ∷ xs) {i = suc i} {j = suc j} v h = get_elem?-set_ne xs v (λ e. h (ap suc e))

module _ {ℓ} {A : Type ℓ} where
  abbrev pub get_or : List A → ℕ → A → A
  get_or [] i d = d
  get_or (x ∷ xs) zero d = x
  get_or (x ∷ xs) (suc i) d = get_or xs i d

  abbrev pub take : ℕ → List A → List A
  take zero xs = []
  take (suc n) [] = []
  take (suc n) (x ∷ xs) = x ∷ take n xs

  abbrev pub drop : ℕ → List A → List A
  drop zero xs = xs
  drop (suc n) [] = []
  drop (suc n) (x ∷ xs) = drop n xs

  abbrev pub replicate : ℕ → A → List A
  replicate zero a = []
  replicate (suc n) a = a ∷ replicate n a

  pub take-append-drop : (n : ℕ) (xs : List A) → take n xs ++ drop n xs ≡ xs
  take-append-drop zero xs = refl
  take-append-drop (suc n) [] = refl
  take-append-drop (suc n) (x ∷ xs) = rw (take-append-drop n xs)

  pub length-take : (n : ℕ) (xs : List A) → length (take n xs) ≡ min n (length xs)
  length-take zero xs = omega arith
  length-take (suc n) [] = omega arith
  length-take (suc n) (x ∷ xs) = omega (arith, length-take n xs)

  pub length-drop : (n : ℕ) (xs : List A) → length (drop n xs) ≡ length xs - n
  length-drop zero xs = omega arith
  length-drop (suc n) [] = omega arith
  length-drop (suc n) (x ∷ xs) = omega (arith, length-drop n xs)

  pub length-replicate : (n : ℕ) (a : A) → length (replicate n a) ≡ n
  length-replicate zero a = refl
  length-replicate (suc n) a = ap suc (length-replicate n a)

  pub length-map {κ} : {B : Type κ} (xs : List A) (f : A → B) → length (map f xs) ≡ length xs
  length-map [] f = refl
  length-map (x ∷ xs) f = ap suc (length-map xs f)

-- A predicate of all elements, which computes to a tuple.
abbrev pub All {ℓ κ} : {A : Type ℓ} → (A → Type κ) → List A → Type κ
All P [] = Unit
All P (x ∷ xs) = P x × All P xs

pub All-append {ℓ κ} :
    {A : Type ℓ} (P : A → Type κ) (xs ys : List A) → All P xs → All P ys → All P (xs ++ ys)
All-append P [] ys hx hy = hy
All-append P (x ∷ xs) ys hx hy = (hx.0, All-append P xs ys hx.1 hy)

pub All-weaken {ℓ κ κ'} :
    {A : Type ℓ} (P : A → Type κ) (Q : A → Type κ') (xs : List A)
    → ((x : A) → P x → Q x)
    → All P xs
    → All Q xs
All-weaken P Q [] f h = _
All-weaken P Q (x ∷ xs) f h = (f x h.0, All-weaken P Q xs f h.1)

abbrev pub IsByte : ℕ → Type 0
IsByte b = b < 256

abbrev pub IsBytes : List ℕ → Type 0
IsBytes = All IsByte

module _ {ℓ} {A : Type ℓ} where
  -- `memcpy(xs, ys, length ys)`; what does not fit is dropped.
  abbrev pub overwrite : List A → List A → List A
  overwrite [] ys = []
  overwrite (x ∷ xs) [] = x ∷ xs
  overwrite (x ∷ xs) (y ∷ ys) = y ∷ overwrite xs ys

  -- `memcpy(xs + i, ys, length ys)`
  abbrev pub copy_to : List A → ℕ → List A → List A
  copy_to xs zero ys = overwrite xs ys
  copy_to [] (suc i) ys = []
  copy_to (x ∷ xs) (suc i) ys = x ∷ copy_to xs i ys

  pub length-overwrite : (xs ys : List A) → length (overwrite xs ys) ≡ length xs
  length-overwrite [] ys = refl
  length-overwrite (x ∷ xs) [] = refl
  length-overwrite (x ∷ xs) (y ∷ ys) = ap suc (length-overwrite xs ys)

  pub length-copy_to : (xs : List A) (i : ℕ) (ys : List A) → length (copy_to xs i ys) ≡ length xs
  length-copy_to xs zero ys = length-overwrite xs ys
  length-copy_to [] (suc i) ys = refl
  length-copy_to (x ∷ xs) (suc i) ys = ap suc (length-copy_to xs i ys)

  take-overwrite :
      (xs ys : List A) → length ys ≤ length xs → take (length ys) (overwrite xs ys) ≡ ys
  take-overwrite [] [] h = refl
  take-overwrite [] (y ∷ ys) h = absurd (omega arith)
  take-overwrite (x ∷ xs) [] h = refl
  take-overwrite (x ∷ xs) (y ∷ ys) h = ap (λ t. y ∷ t) (take-overwrite xs ys (omega arith))

  -- A copy extends what stands before it.
  pub take-copy_to :
      (xs : List A) (i j : ℕ) (ys : List A)
      → i + length ys ≡ j
      → j ≤ length xs
      → take j (copy_to xs i ys) ≡ take i xs ++ ys
  take-copy_to xs zero j ys e h =
      let j_is : length ys ≡ j = omega arith in rw (← j_is) (take-overwrite xs ys (omega arith))
  take-copy_to [] (suc i) j ys e h = absurd (omega arith)
  take-copy_to (x ∷ xs) (suc i) zero ys e h = absurd (omega arith)
  take-copy_to (x ∷ xs) (suc i) (suc j) ys e h =
      ap (λ t. x ∷ t) (take-copy_to xs i j ys (omega arith) (omega arith))

  -- A write just behind a prefix extends it by one.
  pub take-set :
      (xs : List A) (i j : ℕ) (v : A)
      → i + 1 ≡ j
      → i < length xs
      → take j (set xs i v) ≡ take i xs ++ v ∷ []
  take-set [] i j v e h = absurd (omega arith)
  take-set (x ∷ xs) i zero v e h = absurd (omega arith)
  take-set (x ∷ xs) zero (suc j) v e h = let j_is : 0 ≡ j = omega arith in rw (← j_is)
  take-set (x ∷ xs) (suc i) (suc j) v e h =
      ap (λ t. x ∷ t) (take-set xs i j v (omega arith) (omega arith))

  pub take_all : (xs : List A) (n : ℕ) → length xs ≤ n → take n xs ≡ xs
  take_all [] zero h = refl
  take_all [] (suc n) h = refl
  take_all (x ∷ xs) zero h = absurd (omega arith)
  take_all (x ∷ xs) (suc n) h = ap (λ t. x ∷ t) (take_all xs n (omega arith))

  pub take-append : (xs ys : List A) (n : ℕ) → length xs ≡ n → take n (xs ++ ys) ≡ xs
  take-append [] ys zero h = refl
  take-append [] ys (suc n) h = absurd (omega arith)
  take-append (x ∷ xs) ys zero h = absurd (omega arith)
  take-append (x ∷ xs) ys (suc n) h = ap (λ t. x ∷ t) (take-append xs ys n (omega arith))

  pub drop-append : (xs ys : List A) (n : ℕ) → length xs ≡ n → drop n (xs ++ ys) ≡ ys
  drop-append [] ys zero h = refl
  drop-append [] ys (suc n) h = absurd (omega arith)
  drop-append (x ∷ xs) ys zero h = absurd (omega arith)
  drop-append (x ∷ xs) ys (suc n) h = drop-append xs ys n (omega arith)

  pub get_or-take : (xs : List A) (n i : ℕ) (d : A) → i < n → get_or (take n xs) i d ≡ get_or xs i d
  get_or-take [] zero i d h = absurd (omega arith)
  get_or-take [] (suc n) i d h = refl
  get_or-take (x ∷ xs) zero i d h = absurd (omega arith)
  get_or-take (x ∷ xs) (suc n) zero d h = refl
  get_or-take (x ∷ xs) (suc n) (suc i) d h = get_or-take xs n i d (omega arith)

  pub get_or-append_left :
      (xs ys : List A) (i : ℕ) (d : A) → i < length xs → get_or (xs ++ ys) i d ≡ get_or xs i d
  get_or-append_left [] ys i d h = absurd (omega arith)
  get_or-append_left (x ∷ xs) ys zero d h = refl
  get_or-append_left (x ∷ xs) ys (suc i) d h = get_or-append_left xs ys i d (omega arith)

  pub get_or-append_right :
      (xs ys : List A) (i j : ℕ) (d : A) → length xs + j ≡ i → get_or (xs ++ ys) i d ≡ get_or ys j d
  get_or-append_right [] ys i j d h = ap (λ k. get_or ys k d) (omega arith)
  get_or-append_right (x ∷ xs) ys zero j d h = absurd (omega arith)
  get_or-append_right (x ∷ xs) ys (suc i) j d h = get_or-append_right xs ys i j d (omega arith)

  pub get_or-drop :
      (xs : List A) (n i j : ℕ) (d : A) → n + i ≡ j → get_or (drop n xs) i d ≡ get_or xs j d
  get_or-drop xs zero i j d h = ap (λ k. get_or xs k d) (omega arith)
  get_or-drop [] (suc n) i zero d h = absurd (omega arith)
  get_or-drop [] (suc n) i (suc j) d h = refl
  get_or-drop (x ∷ xs) (suc n) i zero d h = absurd (omega arith)
  get_or-drop (x ∷ xs) (suc n) i (suc j) d h = get_or-drop xs n i j d (omega arith)

module _ {ℓ} {A : Type ℓ} where
  pub take-take : (xs : List A) (m n : ℕ) → m ≤ n → take m (take n xs) ≡ take m xs
  take-take xs zero n h = refl
  take-take [] (suc m) zero h = absurd (omega arith)
  take-take [] (suc m) (suc n) h = refl
  take-take (x ∷ xs) (suc m) zero h = absurd (omega arith)
  take-take (x ∷ xs) (suc m) (suc n) h = ap (λ t. x ∷ t) (take-take xs m n (omega arith))

  -- Copying a list is writing its first element and copying the rest.
  pub copy_to-set :
      (xs : List A) (i j : ℕ) (v : A) (ys : List A)
      → j ≡ i + 1
      → i < length xs
      → copy_to (set xs i v) j ys ≡ copy_to xs i (v ∷ ys)
  copy_to-set [] i j v ys e h = absurd (omega arith)
  copy_to-set (x ∷ xs) zero zero v ys e h = absurd (omega arith)
  copy_to-set (x ∷ xs) zero (suc zero) v ys e h = refl
  copy_to-set (x ∷ xs) zero (suc (suc j)) v ys e h = absurd (omega arith)
  copy_to-set (x ∷ xs) (suc i) zero v ys e h = absurd (omega arith)
  copy_to-set (x ∷ xs) (suc i) (suc j) v ys e h =
      ap (λ t. x ∷ t) (copy_to-set xs i j v ys (omega arith) (omega arith))

  pub copy_to-nil : (xs : List A) (i : ℕ) → copy_to xs i [] ≡ xs
  copy_to-nil [] zero = refl
  copy_to-nil (x ∷ xs) zero = refl
  copy_to-nil [] (suc i) = refl
  copy_to-nil (x ∷ xs) (suc i) = ap (λ t. x ∷ t) (copy_to-nil xs i)

module _ {ℓ} {A : Type ℓ} where
  pub get_or-set_self :
      (xs : List A) (i : ℕ) (v d : A) → i < length xs → get_or (set xs i v) i d ≡ v
  get_or-set_self [] i v d h = absurd (omega arith)
  get_or-set_self (x ∷ xs) zero v d h = refl
  get_or-set_self (x ∷ xs) (suc i) v d h = get_or-set_self xs i v d (omega arith)

  pub get_or-set_ne :
      (xs : List A) (i j : ℕ) (v d : A) → i ≢ j → get_or (set xs i v) j d ≡ get_or xs j d
  get_or-set_ne [] i j v d h = refl
  get_or-set_ne (x ∷ xs) zero zero v d h = absurd (h refl)
  get_or-set_ne (x ∷ xs) zero (suc j) v d h = refl
  get_or-set_ne (x ∷ xs) (suc i) zero v d h = refl
  get_or-set_ne (x ∷ xs) (suc i) (suc j) v d h = get_or-set_ne xs i j v d (λ e. h (ap suc e))
