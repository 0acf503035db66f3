-- ===== src/Base/Text.antt =====
-- Texts as the codes of their characters, and std::string::find.
use Prim.Native.Char.{code}
use Prim.Native.String.{String}
use mathlib.Core.Bool.{Bool, true, false, ◌||◌, ◌&&◌}
use mathlib.Core.Option.{Option, none, some}
use mathlib.Core.List.{List, [], ◌∷◌, ◌++◌}
use mcpd.Base.Tests.{◌==◌, leb, if◌then◌else◌}
use mcpd.Base.Int.{ℤ, pos, negsuc}
use Prim.Native.Nat.{ℕ, zero, suc, ◌+◌, ◌-◌, ◌*◌, ◌/◌, ◌%◌}

abbrev pub codes : String → List ℕ
codes String.[] = []
codes (String.◌∷◌ c s) = code c ∷ codes s

abbrev pub starts_with : List ℕ → List ℕ → Bool
starts_with [] text = true
starts_with (c ∷ prefix') [] = false
starts_with (c ∷ prefix') (d ∷ text) = (c == d) && starts_with prefix' text

-- `text.find(part) != std::string::npos`
abbrev pub contains : List ℕ → List ℕ → Bool
contains [] part = starts_with part []
contains (c ∷ text) part = starts_with part (c ∷ text) || contains text part

-- The decimal digits of a number, as std::ostream and std::to_string print it. `n + 1` rounds are enough.
abbrev digits_of : ℕ → ℕ → List ℕ
digits_of zero n = []
digits_of (suc fuel) n =
    let rest = digits_of fuel (n / 10) in
    if n / 10 == 0 then (n + 48) ∷ [] else rest ++ ((n % 10 + 48) ∷ [])

unfoldable pub decimal : ℕ → List ℕ
decimal n = digits_of (suc n) n

unfoldable pub decimal_ℤ : ℤ → List ℕ
decimal_ℤ (pos n) = decimal n
decimal_ℤ (negsuc n) = codes "-" ++ decimal (suc n)

-- operator== of two strings.
abbrev pub same_text : List ℕ → List ℕ → Bool
same_text [] [] = true
same_text [] (d ∷ text) = false
same_text (c ∷ text) [] = false
same_text (c ∷ text) (d ∷ other) = (c == d) && same_text text other

-- std::isspace in the C locale.
abbrev pub is_space : ℕ → Bool
is_space c = c == 32 || (leb 9 c && leb c 13)

abbrev pub is_digit : ℕ → Bool
is_digit c = leb 48 c && leb c 57

-- The digits at the front of a text, read in base 10; `some` when there is at least one.
abbrev pub read_digits : Option ℕ → List ℕ → Option ℕ
read_digits read [] = read
read_digits none (c ∷ text) = if is_digit c then read_digits (some (c - 48)) text else none
read_digits (some n) (c ∷ text) =
    if is_digit c then read_digits (some (n * 10 + (c - 48))) text else some n

abbrev pub skip_spaces : List ℕ → List ℕ
skip_spaces [] = []
skip_spaces (c ∷ text) = let rest = skip_spaces text in if is_space c then rest else c ∷ text

abbrev negated : Option ℕ → Option ℤ
negated none = none
negated (some zero) = some (pos 0)
negated (some (suc n)) = some (negsuc n)

abbrev plain_number : Option ℕ → Option ℤ
plain_number none = none
plain_number (some n) = some (pos n)

abbrev signed_number : List ℕ → Option ℤ
signed_number [] = none
signed_number (c ∷ text) =
    if c == 45
    then negated (read_digits none text)
    else plain_number (read_digits none (if c == 43 then text else c ∷ text))

-- The number that std::stol and std::stoi read: spaces, a sign, digits; what follows the digits is ignored.
abbrev pub read_number : List ℕ → Option ℤ
read_number text = signed_number (skip_spaces text)
