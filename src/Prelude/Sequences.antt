-- ===== src/Prelude/Sequences.antt =====
-- Sequences of bytes and the list functions over the native numbers.
use Prim.Native.Nat.{ℕ, zero, suc, ◌+◌, ◌<◌, ◌≤◌}
use Prim.Native.Char.{code}
use Prim.Native.String.{String}
use mathlib.Core.Path.{◌≡◌, refl, ap}
use mathlib.Core.Bool.{Bool, true, false, ◌&&◌}
use mathlib.Core.Option.{Option, none, some}
use mathlib.Core.List.{List, [], ◌∷◌, ◌++◌}
use native.Mathlib.Omega.{arith}
use port_agent.Prelude.Tests.{◌==◌}

-- A `char` array or a `std::string`, each byte below 256.
abbrev pub Bytes : Type 0
Bytes = List ℕ

-- The bytes of an ASCII literal.
abbrev pub codes : String → Bytes
codes String.[] = []
codes (String.◌∷◌ c s) = code c ∷ codes s

module _ {ℓ} {A : Type ℓ} where
  abbrev pub length : List A → ℕ
  length [] = 0
  length (x ∷ xs) = suc (length xs)

  abbrev pub get_elem? : List A → ℕ → Option A
  get_elem? [] i = none
  get_elem? (x ∷ xs) zero = some x
  get_elem? (x ∷ xs) (suc i) = get_elem? xs i

  -- A write out of bounds changes nothing.
  abbrev pub set : List A → ℕ → A → List A
  set [] i v = []
  set (x ∷ xs) zero v = v ∷ xs
  set (x ∷ xs) (suc i) v = x ∷ set xs i v

  abbrev pub take : ℕ → List A → List A
  take zero xs = []
  take (suc n) [] = []
  take (suc n) (x ∷ xs) = x ∷ take n xs

  abbrev pub drop : ℕ → List A → List A
  drop zero xs = xs
  drop (suc n) [] = []
  drop (suc n) (x ∷ xs) = drop n xs

  pub length-append : (xs ys : List A) → length (xs ++ ys) ≡ length xs + length ys
  length-append [] ys = omega arith
  length-append (x ∷ xs) ys = omega (arith, length-append xs ys)

  pub take-length : (xs : List A) → take (length xs) xs ≡ xs
  take-length [] = refl
  take-length (x ∷ xs) = ap (λ l. x ∷ l) (take-length xs)

-- Every element satisfies `P`.
abbrev pub All {ℓ κ} : {A : Type ℓ} → (A → Type κ) → List A → Type κ
All P [] = Unit
All P (x ∷ xs) = P x × All P xs

abbrev pub bytes_eq : Bytes → Bytes → Bool
bytes_eq [] [] = true
bytes_eq (x ∷ xs) (y ∷ ys) = (x == y) && bytes_eq xs ys
bytes_eq _ _ = false

pub bytes_eq_sound : (xs ys : Bytes) → bytes_eq xs ys ≡ true → xs ≡ ys
bytes_eq_sound [] [] h = refl
bytes_eq_sound [] (y ∷ ys) h = cc
bytes_eq_sound (x ∷ xs) [] h = cc
bytes_eq_sound (x ∷ xs) (y ∷ ys) h = ground (arith, bytes_eq_sound xs ys)

pub bytes_eq_refl : (xs : Bytes) → bytes_eq xs xs ≡ true
bytes_eq_refl [] = refl
bytes_eq_refl (x ∷ xs) = ground (arith, bytes_eq_refl xs)

-- memcpy(buf + o, src, n), with every write inside the buffer.
abbrev pub write_at : ℕ → Bytes → Bytes → Bytes
write_at o [] buf = buf
write_at o (b ∷ src) buf = write_at (suc o) src (set buf o b)

module _ {ℓ} {A : Type ℓ} where
  pub length-take_append :
      (n : ℕ) (xs ys : List A) → n ≤ length xs → length (take n xs ++ ys) ≡ n + length ys
  length-take_append zero xs ys h = omega arith
  length-take_append (suc n) [] ys h = absurd (omega arith)
  length-take_append (suc n) (x ∷ xs) ys h = omega (arith, length-take_append n xs ys (omega arith))

  pub drop-take_append : (n : ℕ) (xs ys : List A) → n ≤ length xs → drop n (take n xs ++ ys) ≡ ys
  drop-take_append zero xs ys h = refl
  drop-take_append (suc n) [] ys h = absurd (omega arith)
  drop-take_append (suc n) (x ∷ xs) ys h = drop-take_append n xs ys (omega arith)

  pub length-drop_add : (n : ℕ) (xs : List A) → n ≤ length xs → n + length (drop n xs) ≡ length xs
  length-drop_add zero xs h = omega arith
  length-drop_add (suc n) [] h = absurd (omega arith)
  length-drop_add (suc n) (x ∷ xs) h = omega (arith, length-drop_add n xs (omega arith))

-- A byte, and a list of bytes.
abbrev pub IsBytes : Bytes → Type 0
IsBytes = All (λ b. b < 256)

pub IsBytes-drop : (n : ℕ) (bs : Bytes) → IsBytes bs → IsBytes (drop n bs)
IsBytes-drop zero bs h = h
IsBytes-drop (suc n) [] h = tt
IsBytes-drop (suc n) (b ∷ bs) h = IsBytes-drop n bs h.1

pub IsBytes-take_append :
    (n : ℕ) (xs ys : Bytes) → IsBytes xs → IsBytes ys → IsBytes (take n xs ++ ys)
IsBytes-take_append zero xs ys h k = k
IsBytes-take_append (suc n) [] ys h k = k
IsBytes-take_append (suc n) (x ∷ xs) ys h k = (h.0, IsBytes-take_append n xs ys h.1 k)

module _ {ℓ} {A : Type ℓ} where
  pub take-set :
      (n : ℕ) (xs : List A) (v : A)
      → n < length xs
      → take (suc n) (set xs n v) ≡ take n xs ++ v ∷ []
  take-set n [] v h = absurd (omega arith)
  take-set zero (x ∷ xs) v h = refl
  take-set (suc n) (x ∷ xs) v h = ap (λ l. x ∷ l) (take-set n xs v (omega arith))

  pub length-set : (n : ℕ) (xs : List A) (v : A) → length (set xs n v) ≡ length xs
  length-set n [] v = refl
  length-set zero (x ∷ xs) v = refl
  length-set (suc n) (x ∷ xs) v = ap suc (length-set n xs v)

  pub length-take_of_le : (n : ℕ) (xs : List A) → n ≤ length xs → length (take n xs) ≡ n
  length-take_of_le zero xs h = refl
  length-take_of_le (suc n) [] h = absurd (omega arith)
  length-take_of_le (suc n) (x ∷ xs) h = ap suc (length-take_of_le n xs (omega arith))

  pub drop-append : (n : ℕ) (xs ys : List A) → n ≤ length xs → drop n (xs ++ ys) ≡ drop n xs ++ ys
  drop-append zero xs ys h = refl
  drop-append (suc n) [] ys h = absurd (omega arith)
  drop-append (suc n) (x ∷ xs) ys h = drop-append n xs ys (omega arith)

  pub take_snoc :
      (n : ℕ) (xs : List A) (v : A)
      → get_elem? xs n ≡ some v
      → take (suc n) xs ≡ take n xs ++ v ∷ []
  take_snoc n [] v h = cc
  take_snoc zero (x ∷ xs) v h = cc
  take_snoc (suc n) (x ∷ xs) v h = ap (λ l. x ∷ l) (take_snoc n xs v h)

  pub get_elem?_of_lt : (n : ℕ) (xs : List A) → n < length xs → (v : A) × (get_elem? xs n ≡ some v)
  get_elem?_of_lt n [] h = absurd (omega arith)
  get_elem?_of_lt zero (x ∷ xs) h = (x, refl)
  get_elem?_of_lt (suc n) (x ∷ xs) h = get_elem?_of_lt n xs (omega arith)

module _ {ℓ κ} {A : Type ℓ} (P : A → Type κ) where
  pub All-snoc : (l : List A) (x : A) → All P l → P x → All P (l ++ x ∷ [])
  All-snoc [] x h p = (p, tt)
  All-snoc (y ∷ l) x h p = (h.0, All-snoc l x h.1 p)

pub All-map {ℓ κ} :
    {A : Type ℓ} (P Q : A → Type κ) (l : List A) → ((x : A) → P x → Q x) → All P l → All Q l
All-map P Q [] f h = tt
All-map P Q (x ∷ l) f h = (f x h.0, All-map P Q l f h.1)

module _ {ℓ} {A : Type ℓ} where
  -- `k` more elements behind the first `n`.
  pub take-append_drop :
      (n k m : ℕ) (xs : List A) → m ≡ n + k → take n xs ++ take k (drop n xs) ≡ take m xs
  take-append_drop zero k m xs e = let same : k ≡ m = omega arith in ap (λ j. take j xs) same
  take-append_drop (suc n) zero zero xs e = absurd (omega arith)
  take-append_drop (suc n) zero (suc m) [] e = refl
  take-append_drop (suc n) (suc k) zero xs e = absurd (omega arith)
  take-append_drop (suc n) (suc k) (suc m) [] e = refl
  take-append_drop (suc n) zero (suc m) (x ∷ xs) e =
      ap (λ l. x ∷ l) (take-append_drop n zero m xs (omega arith))
  take-append_drop (suc n) (suc k) (suc m) (x ∷ xs) e =
      ap (λ l. x ∷ l) (take-append_drop n (suc k) m xs (omega arith))
