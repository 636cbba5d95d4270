-- ===== src/Policy/Reason.antt =====
-- format_decision of kernel/policy.c: the text of a decision.
use glass_os.Prelude.{
  ℕ, zero, suc, ◌+◌, ◌/◌, ◌%◌, ◌==◌, [], ◌∷◌, refl, ap, inl, inr, Bool-cases, ◌-◌, ◌≡◌, sym, Bool,
  ◌++◌, take, text, append_assoc, if◌then◌else◌,
}
use mathlib.Core.List.{reverse, reverse-cons}
use glass_os.Text.{Text, digits_of}
use glass_os.Text.Append.{decimal, append_text-take, append_text-nil, append_decimal32-take}
use glass_os.Policy.{format_decision, policy_decision_size}

-- What format_decision appends, before it is clipped to the 48-byte buffer.
abbrev printed_text : Bool → Text → ℕ → ℕ → Text
printed_text allowed operation rule_number revision =
    (if allowed then text "allow:" else text "deny:")
    ++ (operation
        ++ (text ",rev=" ++ (decimal 10 revision ++ (text ",rule=" ++ decimal 10 rule_number))))

-- format_decision writes the first 47 bytes of the effect, the operation, the revision and the rule.
format_decision-take :
    (allowed : Bool) (operation : Text) (rule_number revision : ℕ)
    → format_decision allowed operation rule_number revision
      ≡ take (policy_decision_size - 1) (printed_text allowed operation rule_number revision)
unfolding format_decision
format_decision-take allowed operation rule_number revision =
    rw
      (
        append_text-nil,
        append_text-take policy_decision_size (if allowed then text "allow:" else text "deny:")
            operation,
        append_text-take,
        append_decimal32-take,
        append_text-take,
        append_decimal32-take,
      )
      (simp append_assoc)

-- The decimal digits of a number that is not 0, the last ten at most.
abbrev pub digits : ℕ → ℕ → Text
digits zero v = []
digits (suc room) v = if v == 0 then [] else digits room (v / 10) ++ (48 + v % 10) ∷ []

abbrev pub numeral : ℕ → Text
numeral v = if v == 0 then 48 ∷ [] else digits 10 v

-- The text of a decision: the effect, the operation, the revision and the rule.
abbrev pub decision_text : Bool → Text → ℕ → ℕ → Text
decision_text allowed operation rule_number revision =
    (if allowed then text "allow:" else text "deny:")
    ++ (operation ++ (text ",rev=" ++ (numeral revision ++ (text ",rule=" ++ numeral rule_number))))

reverse-digits_of : (room v : ℕ) → reverse (digits_of room v) ≡ digits room v
unfolding digits_of
reverse-digits_of zero v = refl
reverse-digits_of (suc room) v = elim (Bool-cases (v == 0)) [
  | inl e ↦ rw e refl
  | inr e ↦
      rw (e, reverse-cons) (ap (λ t. t ++ (48 + v % 10) ∷ []) (reverse-digits_of room (v / 10)))
]

decimal-numeral : (v : ℕ) → decimal 10 v ≡ numeral v
unfolding decimal
decimal-numeral v = ap (λ t. if v == 0 then 48 ∷ [] else t) (reverse-digits_of 10 v)

-- format_decision writes the first 47 bytes of that text.
pub format_decision_lem :
    (allowed : Bool) (operation : Text) (rule_number revision : ℕ)
    → format_decision allowed operation rule_number revision
      ≡ take 47 (decision_text allowed operation rule_number revision)
format_decision_lem allowed operation rule_number revision =
    rw (sym (decimal-numeral revision), sym (decimal-numeral rule_number))
      (format_decision-take allowed operation rule_number revision)
