-- ===== src/Text/Decimal.antt =====
-- `std::to_string` can be read back, so different numbers have different names.
use pick_up_the_light_server.Prelude.{
  ℕ, zero, suc, ◌+◌, ◌-◌, ◌*◌, ◌/◌, ◌<◌, ◌≡◌, refl, sym, ap, ◌∙◌, [], ◌∷◌, ◌++◌, arith, ltb,
  Bool-cases, inl, inr,
}
use pick_up_the_light_server.Text.{Bytes, decimal, to_string}

-- The number that decimal digits stand for, after a number `acc` already read.
pub value : ℕ → Bytes → ℕ
value acc [] = acc
value acc (c ∷ cs) = value (10 * acc + (c - b'0')) cs

value-append : (acc : ℕ) (xs ys : Bytes) → value acc (xs ++ ys) ≡ value (value acc xs) ys
unfolding value
value-append acc [] ys = refl
value-append acc (x ∷ xs) ys = value-append (10 * acc + (x - b'0')) xs ys

value-decimal : (f n : ℕ) → n < f → value 0 (decimal f n) ≡ n
unfolding value decimal
value-decimal zero n h = elim h [ ]
value-decimal (suc f) n h = elim (Bool-cases (ltb n 10)) [
  | inl small ↦ rw small (omega arith)
  | inr large ↦ rw (large, value-append) (omega (arith, value-decimal f (n / 10) (ground arith)))
]

pub value-to_string : (n : ℕ) → value 0 (to_string n) ≡ n
unfolding to_string
value-to_string n = value-decimal (suc n) n (omega arith)

pub to_string-injective : (m n : ℕ) → to_string m ≡ to_string n → m ≡ n
to_string-injective m n h = sym (value-to_string m) ∙ ap (value 0) h ∙ value-to_string n
