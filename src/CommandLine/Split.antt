-- ===== src/CommandLine/Split.antt =====
-- Splitting a command line: what is quoted comes back.
use ssh_agent_bridge.Base.{
  ℕ, ◌≡◌, ◌≢◌, refl, sym, ap, ◌∙◌, true, false, ◌||◌, List, [], ◌∷◌, ◌++◌, append_assoc, append-nil,
  ◌==◌, All, arith, Bool-cases, inl, inr, ==→eq, length, ◌<◌,
}
use ssh_agent_bridge.Util.{WideString}
use ssh_agent_bridge.CommandLine.{is_empty, split_char, split_rest, split_command_line}

-- An argument in quotes, and a line of them with a blank behind each.
abbrev pub quoted : WideString → WideString
quoted arg = b'"' ∷ (arg ++ b'"' ∷ [])

abbrev pub line_of : List WideString → WideString
line_of [] = []
line_of (arg ∷ args) = quoted arg ++ b' ' ∷ line_of args

-- What quotes can hold: at least a character, and no quote.
abbrev pub IsQuotable : WideString → Type 0
IsQuotable arg = (0 < length arg) × All (λ c. c ≢ b'"') arg

-- A character other than a quote is kept within quotes.
split_char-within :
    (c : ℕ) (tmp : WideString) (ret : List WideString)
    → c ≢ b'"'
    → split_char c (record { skip_space = false; tmp = tmp; ret = ret })
      ≡ record { skip_space = false; tmp = tmp ++ c ∷ []; ret = ret }
unfolding split_char
split_char-within c tmp ret other = elim (Bool-cases (c == b'"')) [
  | inl same ↦ absurd (other (==→eq c b'"' same))
  | inr differs ↦ elim (Bool-cases (c == b' ' || c == 9)) [
    | inl blank ↦ rw (differs, blank) refl
    | inr letter ↦ rw (differs, letter) refl
  ]
]

split_rest-within :
    (arg rest tmp : WideString) (ret : List WideString)
    → All (λ c. c ≢ b'"') arg
    → split_rest (arg ++ rest) (record { skip_space = false; tmp = tmp; ret = ret })
      ≡ split_rest rest (record { skip_space = false; tmp = tmp ++ arg; ret = ret })
unfolding split_rest
split_rest-within [] rest tmp ret ok = rw (append-nil tmp) refl
split_rest-within (c ∷ arg) rest tmp ret ok =
    ap (split_rest (arg ++ rest)) (split_char-within c tmp ret ok.0)
    ∙ split_rest-within arg rest (tmp ++ c ∷ []) ret ok.1
    ∙ ap (λ t. split_rest rest (record { skip_space = false; tmp = t; ret = ret }))
        (append_assoc tmp (c ∷ []) arg)

split_rest-line_of :
    (args ret : List WideString)
    → All IsQuotable args
    → split_rest (line_of args) (record { skip_space = true; tmp = []; ret = ret }) ≡ ret ++ args
unfolding split_rest split_char is_empty
split_rest-line_of [] ret ok = sym (append-nil ret)
split_rest-line_of ((c ∷ arg) ∷ args) ret ok =
    ap (λ l. split_rest l (record { skip_space = false; tmp = []; ret = ret }))
      (append_assoc (c ∷ arg) (b'"' ∷ []) (b' ' ∷ line_of args))
    ∙ split_rest-within (c ∷ arg) (b'"' ∷ b' ' ∷ line_of args) [] ret ok.0.1
    ∙ split_rest-line_of args (ret ++ (c ∷ arg) ∷ []) ok.1
    ∙ append_assoc ret ((c ∷ arg) ∷ []) args
split_rest-line_of ([] ∷ args) ret ok = absurd (omega (arith, ok.0.0))

-- A line of arguments, each in quotes, none empty and none with a quote inside, is split back into
-- these arguments, blanks and tabs within them included.
pub split_command_line-line_of :
    (args : List WideString) → All IsQuotable args → split_command_line (line_of args) ≡ args
unfolding split_command_line
split_command_line-line_of args ok = split_rest-line_of args [] ok
