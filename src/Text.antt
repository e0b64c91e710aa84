-- ===== src/Text.antt =====
-- `std::string`: a sequence of bytes. The literals of the source are ASCII where the model uses
-- them; the Chinese texts of the log lines are not modelled.
pub mod Decimal
use Prim.Native.Char.{code}
use pick_up_the_light_server.Prelude.{
  ℕ, suc, zero, ◌+◌, ◌/◌, ◌%◌, ◌≡◌, ◌↔◌, refl, Bool, true, false, List, [], ◌∷◌, ◌++◌, String,
  arith, ltb, ◌&&◌, ◌==◌ as nat_beq, if◌then◌else◌,
}

abbrev pub Bytes : Type 0
Bytes = List ℕ

-- A string literal.
unfoldable pub bytes : String → Bytes
bytes String.[] = []
bytes (String.◌∷◌ c s) = code c ∷ bytes s

-- `std::string::operator==`
infix 50 ◌==◌
unfoldable pub ◌==◌ : Bytes → Bytes → Bool
[] == [] = true
[] == (y ∷ ys) = false
(x ∷ xs) == [] = false
(x ∷ xs) == (y ∷ ys) = nat_beq x y && xs == ys

pub ==_iff : (xs ys : Bytes) → ((xs == ys) ≡ true) ↔ (xs ≡ ys)
unfolding ◌==◌
==_iff [] [] = ground arith
==_iff [] (y ∷ ys) = ground arith
==_iff (x ∷ xs) [] = ground arith
==_iff (x ∷ xs) (y ∷ ys) = ground (arith, ==_iff xs ys)

-- The string that a `char*` stands for: the bytes before the first NUL.
unfoldable pub c_string : Bytes → Bytes
c_string [] = []
c_string (x ∷ xs) = let rest = c_string xs in if nat_beq x 0 then [] else x ∷ rest

-- Digits of `std::to_string`, on fuel; `n` is fuel enough, since a division by ten makes it smaller.
decimal : ℕ → ℕ → Bytes
decimal zero n = []
decimal (suc f) n =
    let more = decimal f (n / 10) in
    if ltb n 10 then (b'0' + n) ∷ [] else more ++ (b'0' + n % 10) ∷ []

unfoldable pub to_string : ℕ → Bytes
unfolding decimal
to_string n = decimal (suc n) n
