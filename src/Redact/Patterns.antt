-- ===== src/Redact/Patterns.antt =====
-- The custom patterns of internal/redact/redact.go.
use heave.Prelude.{
  ◌≤◌, ◌≡◌, refl, inl, inr, List, [], ◌∷◌, ◌==◌, length, arith, Option-cases, Bytes,
}
use heave.Redact.{Compiler, custom_rules, validate_patterns}

length-custom_rules :
    (compile : Compiler) (patterns : List (Bytes × Bytes))
    → length (custom_rules compile patterns) ≤ length patterns
unfolding custom_rules
length-custom_rules compile [] = omega arith
length-custom_rules compile ((name, text) ∷ patterns) =
    let fewer = length-custom_rules compile patterns in
    elim (Option-cases (compile text)) [
      | inl bad ↦ rw (bad, custom_rules) (omega arith)
      | inr (re, good) ↦ rw (good, custom_rules) (omega arith)
    ]

-- ValidatePatterns accepts exactly the patterns of which New skips none.
pub validate_patterns-custom_rules :
    (compile : Compiler) (patterns : List (Bytes × Bytes))
    → validate_patterns compile patterns
      ≡ (length (custom_rules compile patterns) == length patterns)
unfolding custom_rules validate_patterns
validate_patterns-custom_rules compile [] = refl
validate_patterns-custom_rules compile ((name, text) ∷ patterns) =
    let fewer = length-custom_rules compile patterns in
    let same = validate_patterns-custom_rules compile patterns in
    elim (Option-cases (compile text)) [
      | inl bad ↦ rw (bad, custom_rules, validate_patterns) (ground arith)
      | inr (re, good) ↦ rw (good, custom_rules, validate_patterns) (ground arith)
    ]
