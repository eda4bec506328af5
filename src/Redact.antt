-- ===== src/Redact.antt =====
-- The scrubber of personal data, internal/redact/redact.go. A compiled expression is the function that
-- cuts a text at its matches, as ReplaceAllStringFunc of the regexp package does; which texts compile,
-- and to what, is a parameter. The map of custom patterns is given in the order of its sorted names.
pub mod Luhn
pub mod Patterns
use heave.Prelude.{
  ℕ, suc, ◌+◌, ◌-◌, ◌*◌, ◌%◌, Bool, true, false, not, ◌&&◌, ◌||◌, Option, none, some, List, [], ◌∷◌,
  ◌++◌, ltb, leb, ◌==◌, if◌then◌else◌, length, Bytes, bytes, Dict, lookup, insert,
}
use mathlib.Core.List.{reverse}
use heave.Firewall.Local.{is_empty}

-- A text is cut into plain parts and matches, in order.
pub data Piece : Type 0 where
  plain matched : Bytes → Piece

abbrev pub Regexp : Type 0
Regexp = Bytes → List Piece

pub record Rule : Type 0 where
  pub name : Bytes
  pub re : Regexp
  pub placeholder : Bytes
  pub is_match : Bytes → Bool

pub record Redactor : Type 0 where
  pub enabled : Bool
  pub rules : List Rule

abbrev pub is_digit : ℕ → Bool
is_digit c = leb 48 c && leb c 57

unfoldable pub digits : Bytes → List ℕ
digits [] = []
digits (c ∷ s) = let rest = digits s in if is_digit c then (c - 48) ∷ rest else rest

unfoldable pub doubled : ℕ → ℕ
doubled d = if ltb 9 (d * 2) then d * 2 - 9 else d * 2

-- The sum from the last digit on, every second one doubled.
unfoldable pub luhn_sum : Bool → List ℕ → ℕ
unfolding doubled
luhn_sum double [] = 0
luhn_sum double (d ∷ ds) = (if double then doubled d else d) + luhn_sum (not double) ds

unfoldable pub luhn_valid : Bytes → Bool
unfolding luhn_sum digits
luhn_valid s =
    let ds = digits s in
    if ltb (length ds) 13 || ltb 19 (length ds)
    then false
    else luhn_sum false (reverse ds) % 10 == 0

-- What the regexp package does with a text that is to be an expression.
abbrev pub Compiler : Type 0
Compiler = Bytes → Option Regexp

abbrev pub custom_rule : Bytes → Regexp → Rule
custom_rule name re = record {
  name = name;
  re = re;
  placeholder = bytes "[REDACTED_" ++ (name ++ bytes "]");
  is_match = λ s. true;
}

-- The custom patterns that compile.
unfoldable pub custom_rules : Compiler → List (Bytes × Bytes) → List Rule
custom_rules compile [] = []
custom_rules compile ((name, text) ∷ patterns) =
    let rest = custom_rules compile patterns in
    elim (compile text) [ none ↦ rest | some re ↦ custom_rule name re ∷ rest ]

-- The built-in rules are an argument.
unfoldable pub new : Compiler → List Rule → Bool → List (Bytes × Bytes) → Redactor
unfolding custom_rules
new compile builtin enabled patterns = record {
  enabled = enabled;
  rules = if enabled then builtin ++ custom_rules compile patterns else [];
}

unfoldable pub validate_patterns : Compiler → List (Bytes × Bytes) → Bool
validate_patterns compile [] = true
validate_patterns compile ((name, text) ∷ patterns) =
    let rest = validate_patterns compile patterns in
    elim (compile text) [ none ↦ false | some re ↦ rest ]

-- ReplaceAllStringFunc, with the number of the replacements.
unfoldable pub replace : Rule → List Piece → Bytes × ℕ
replace ru [] = ([], 0)
replace ru (plain s ∷ pieces) = let (rest, n) = replace ru pieces in (s ++ rest, n)
replace ru (matched s ∷ pieces) =
    let (rest, n) = replace ru pieces in
    if ru.is_match s then (ru.placeholder ++ rest, suc n) else (s ++ rest, n)

abbrev pub count_of : Bytes → Dict ℕ → ℕ
count_of name counts = elim (lookup name counts) [ none ↦ 0 | some n ↦ n ]

unfoldable pub redact_all : List Rule → Bytes → Dict ℕ → Bytes × Dict ℕ
unfolding replace
redact_all [] s counts = (s, counts)
redact_all (ru ∷ rules) s counts =
    let (t, n) = replace ru (ru.re s) in
    redact_all rules t
      (if ltb 0 n then insert ru.name (count_of ru.name counts + n) counts else counts)

unfoldable pub redact : Redactor → Bytes → Bytes × Dict ℕ
unfolding redact_all
redact r s = if not r.enabled || is_empty s then (s, []) else redact_all r.rules s []
