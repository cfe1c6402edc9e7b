-- ===== src/Publisher/Rotation/Digits.antt =====
-- What the date and the time of a file name tell apart.
use port_agent.Prelude.{
  ℕ, ◌+◌, ◌/◌, ◌%◌, ◌≡◌, ◌↔◌, refl, ap, ◌∙◌, arith, Bytes, [], ◌∷◌, ◌++◌, length,
}
use port_agent.Config.{RotationType}
use port_agent.Publisher.Rotation.{LocalTime, two_digits, file_date, file_time}

abbrev pub first : Bytes → ℕ
first [] = 0
first (x ∷ l) = x

abbrev pub rest : Bytes → Bytes
rest [] = []
rest (x ∷ l) = l

-- Two lists that begin with equally many bytes are equal in both parts.
pub append_parts : (a b k l : Bytes) → length a ≡ length b → a ++ k ≡ b ++ l → (a ≡ b) × (k ≡ l)
append_parts [] [] k l e h = (refl, h)
append_parts [] (y ∷ b) k l e h = absurd (omega arith)
append_parts (x ∷ a) [] k l e h = absurd (omega arith)
append_parts (x ∷ a) (y ∷ b) k l e h =
    let (p, q) = append_parts a b k l (omega arith) (ap rest h) in
    (ap (λ u. u ∷ a) (ap first h) ∙ ap (λ v. y ∷ v) p, q)

pub two_digits-same : (m n : ℕ) → two_digits m ≡ two_digits n → m ≡ n
unfolding two_digits
two_digits-same m n h =
    let p : 48 + m / 10 ≡ 48 + n / 10 = ap first h in
    let q : 48 + m % 10 ≡ 48 + n % 10 = ap (λ x. first (rest x)) h in omega arith

pub length-two_digits : (m n : ℕ) → length (two_digits m) ≡ length (two_digits n)
unfolding two_digits
length-two_digits m n = refl

pub length-file_date : (t t' : LocalTime) → length (file_date t) ≡ length (file_date t')
unfolding file_date two_digits
length-file_date t t' = refl

pub length-file_time :
    (r : RotationType) (t t' : LocalTime) → length (file_time r t) ≡ length (file_time r t')
unfolding file_time two_digits
length-file_time r t t' = refl

abbrev pub SameDate : LocalTime → LocalTime → Type 0
SameDate t t' = (t.year ≡ t'.year) × (t.month ≡ t'.month) × (t.day ≡ t'.day)

-- The date that is printed tells every two days apart.
pub file_date_iff : (t t' : LocalTime) → (file_date t ≡ file_date t') ↔ SameDate t t'
unfolding file_date
file_date_iff t t' = (
  (λ h.
      let (c, k) = append_parts _ _ _ _ (length-two_digits (t.year / 100) (t'.year / 100)) h in
      let (y, l) = append_parts _ _ _ _ (length-two_digits (t.year % 100) (t'.year % 100)) k in
      let (m, d) = append_parts _ _ _ _ (length-two_digits t.month t'.month) l in
      let c' = two_digits-same (t.year / 100) (t'.year / 100) c in
      let y' = two_digits-same (t.year % 100) (t'.year % 100) y in
      (omega (arith, c', y'), two_digits-same _ _ m, two_digits-same _ _ d)),
  λ (y, m, d). cc,
)
