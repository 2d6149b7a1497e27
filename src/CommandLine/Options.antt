-- ===== src/CommandLine/Options.antt =====
-- Which command lines are taken: a grammar of the arguments, and the options that they set.
use ssh_agent_bridge.Base.{
  ℕ, ◌≤◌, ◌≡◌, ◌≢◌, refl, true, false, List, [], ◌∷◌, ltb, arith, Bool-cases, inl, inr, ◌⊎◌,
}
use ssh_agent_bridge.Util.{WideString}
use ssh_agent_bridge.CommandLine.{
  LogLevel, debug, info, warning, error, invalid, CommandLineOption, Word, word_log_level,
  word_service, word_debug, word_console, word_config, word_install_service, word_uninstall_service,
  word_unknown, stops, skips_one, word_of, level_of, read_word, read_level, exclusive_counter,
  validate, read_arguments, extract_command_line_option, no_options,
}

module _ (towlower : ℕ → ℕ) where
  -- `Accepts args o o'`: every argument is a known word, or stands behind one that takes it, and
  -- together they turn the options `o` into `o'`, the later over the earlier.
  pub data Accepts : List WideString → CommandLineOption → CommandLineOption → Type 0 where
    end : {o : CommandLineOption} → Accepts [] o o
    log_level :
        {o o' : CommandLineOption} {args : List WideString} (word level : WideString)
        → word_of towlower word ≡ word_log_level
        → level_of towlower level ≢ invalid
        → Accepts args (record o { log_level = level_of towlower level }) o'
        → Accepts (word ∷ level ∷ args) o o'
    config :
        {o o' : CommandLineOption} {args : List WideString} (word path : WideString)
        → word_of towlower word ≡ word_config
        → Accepts args (record o { config_path = path }) o'
        → Accepts (word ∷ path ∷ args) o o'
    service :
        {o o' : CommandLineOption} {args : List WideString} (word : WideString)
        → word_of towlower word ≡ word_service
        → Accepts args (record o { is_service = true }) o'
        → Accepts (word ∷ args) o o'
    is_debug :
        {o o' : CommandLineOption} {args : List WideString} (word : WideString)
        → word_of towlower word ≡ word_debug
        → Accepts args (record o { is_debug = true }) o'
        → Accepts (word ∷ args) o o'
    console :
        {o o' : CommandLineOption} {args : List WideString} (word : WideString)
        → word_of towlower word ≡ word_console
        → Accepts args (record o { alloc_console = true }) o'
        → Accepts (word ∷ args) o o'
    install :
        {o o' : CommandLineOption} {args : List WideString} (word : WideString)
        → word_of towlower word ≡ word_install_service
        → Accepts args (record o { is_install_service = true }) o'
        → Accepts (word ∷ args) o o'
    uninstall :
        {o o' : CommandLineOption} {args : List WideString} (word : WideString)
        → word_of towlower word ≡ word_uninstall_service
        → Accepts args (record o { is_uninstall_service = true }) o'
        → Accepts (word ∷ args) o o'

  -- The arguments are accepted with at most one service mode, and `r` has what they set.
  pub record IsAccepted (args : List WideString) (o r : CommandLineOption) : Type 0 where
    pub options : CommandLineOption
    pub accepts : Accepts args o options
    pub exclusive : exclusive_counter options ≤ 1
    pub result_is : r ≡ record options { is_good = true }

  on_rest :
      {args args' : List WideString} {o o' r : CommandLineOption}
      → ((t : CommandLineOption) → Accepts args' o' t → Accepts args o t)
      → IsAccepted args' o' r
      → IsAccepted args o r
  on_rest f a = record {
    options = a.options;
    accepts = f a.options a.accepts;
    exclusive = a.exclusive;
    result_is = a.result_is;
  }

  validate-IsAccepted :
      (o : CommandLineOption)
      → o.is_good ≡ false
      → (validate o).is_good ≡ true
      → IsAccepted [] o (validate o)
  unfolding validate
  validate-IsAccepted o bad = elim (Bool-cases (ltb 1 (exclusive_counter o))) [
    | inl many ↦ rw many (λ good. cc)
    | inr few ↦ rw few (λ good. record {
      options = o;
      accepts = end;
      exclusive = ground (arith, few);
      result_is = refl;
    })
  ]

  last-IsAccepted :
      (cur : WideString) (o : CommandLineOption)
      → o.is_good ≡ false
      → (w : Word) → word_of towlower cur ≡ w
      → (read_arguments towlower (cur ∷ []) o).is_good ≡ true
      → IsAccepted (cur ∷ []) o (read_arguments towlower (cur ∷ []) o)
  unfolding read_arguments read_word
  last-IsAccepted cur o bad word_service e =
      rw (e, read_arguments)
        (λ good. on_rest (λ t a. service cur e a) (validate-IsAccepted _ bad good))
  last-IsAccepted cur o bad word_debug e =
      rw (e, read_arguments)
        (λ good. on_rest (λ t a. is_debug cur e a) (validate-IsAccepted _ bad good))
  last-IsAccepted cur o bad word_console e =
      rw (e, read_arguments)
        (λ good. on_rest (λ t a. console cur e a) (validate-IsAccepted _ bad good))
  last-IsAccepted cur o bad word_install_service e =
      rw (e, read_arguments)
        (λ good. on_rest (λ t a. install cur e a) (validate-IsAccepted _ bad good))
  last-IsAccepted cur o bad word_uninstall_service e =
      rw (e, read_arguments)
        (λ good. on_rest (λ t a. uninstall cur e a) (validate-IsAccepted _ bad good))
  last-IsAccepted cur o bad word_log_level e = rw (e, read_arguments) (λ good. cc)
  last-IsAccepted cur o bad word_config e = rw (e, read_arguments) (λ good. cc)
  last-IsAccepted cur o bad word_unknown e = rw (e, read_arguments) (λ good. cc)

  read_level-cases :
      (l : LogLevel) (o : CommandLineOption)
      → ((read_level l o ≡ stops) × (l ≡ invalid))
        ⊎ ((read_level l o ≡ skips_one (record o { log_level = l })) × (l ≢ invalid))
  unfolding read_level
  read_level-cases invalid o = inl (refl, refl)
  read_level-cases debug o = inr (refl, λ e. cc)
  read_level-cases info o = inr (refl, λ e. cc)
  read_level-cases warning o = inr (refl, λ e. cc)
  read_level-cases error o = inr (refl, λ e. cc)

  -- The rest is read well: a hypothesis for each length that a word may take.
  abbrev IsReadWell : List WideString → Type 0
  IsReadWell args =
      (o : CommandLineOption)
      → o.is_good ≡ false
      → (read_arguments towlower args o).is_good ≡ true
      → IsAccepted args o (read_arguments towlower args o)

  word-IsAccepted :
      (cur next : WideString) (rest : List WideString) (o : CommandLineOption)
      → IsReadWell (next ∷ rest)
      → IsReadWell rest
      → o.is_good ≡ false
      → (w : Word) → word_of towlower cur ≡ w
      → (read_arguments towlower (cur ∷ next ∷ rest) o).is_good ≡ true
      → IsAccepted (cur ∷ next ∷ rest) o (read_arguments towlower (cur ∷ next ∷ rest) o)
  unfolding read_arguments read_word
  word-IsAccepted cur next rest o one two bad word_service e =
      rw (e, read_arguments) (λ good. on_rest (λ t a. service cur e a) (one _ bad good))
  word-IsAccepted cur next rest o one two bad word_debug e =
      rw (e, read_arguments) (λ good. on_rest (λ t a. is_debug cur e a) (one _ bad good))
  word-IsAccepted cur next rest o one two bad word_console e =
      rw (e, read_arguments) (λ good. on_rest (λ t a. console cur e a) (one _ bad good))
  word-IsAccepted cur next rest o one two bad word_install_service e =
      rw (e, read_arguments) (λ good. on_rest (λ t a. install cur e a) (one _ bad good))
  word-IsAccepted cur next rest o one two bad word_uninstall_service e =
      rw (e, read_arguments) (λ good. on_rest (λ t a. uninstall cur e a) (one _ bad good))
  word-IsAccepted cur next rest o one two bad word_config e =
      rw (e, read_arguments) (λ good. on_rest (λ t a. config cur next e a) (two _ bad good))
  word-IsAccepted cur next rest o one two bad word_log_level e =
      elim (read_level-cases (level_of towlower next) o) [
        | inl (halt, bad_level) ↦ rw (e, read_arguments, halt) (λ good. cc)
        | inr (go, good_level) ↦
            rw (e, read_arguments, go)
              (λ good. on_rest (λ t a. log_level cur next e good_level a) (two _ bad good))
      ]
  word-IsAccepted cur next rest o one two bad word_unknown e = rw (e, read_arguments) (λ good. cc)

  read_arguments-IsAccepted : (args : List WideString) → IsReadWell args
  unfolding read_arguments
  read_arguments-IsAccepted [] o bad = validate-IsAccepted o bad
  read_arguments-IsAccepted (cur ∷ []) o bad = last-IsAccepted cur o bad _ refl
  read_arguments-IsAccepted (cur ∷ next ∷ rest) o bad =
      word-IsAccepted cur next rest o (read_arguments-IsAccepted (next ∷ rest))
        (read_arguments-IsAccepted rest) bad _ refl

  -- Options that are good come from a command line whose arguments are all accepted: each is a known
  -- word, with the level or path that it needs behind it, a level is a known one, at most one of the
  -- three service modes is asked for, and the options are what the arguments set.
  pub extract_command_line_option-IsAccepted :
      (program : WideString) (args : List WideString)
      → (extract_command_line_option towlower (program ∷ args)).is_good ≡ true
      → IsAccepted args no_options (extract_command_line_option towlower (program ∷ args))
  unfolding extract_command_line_option
  extract_command_line_option-IsAccepted program args good =
      read_arguments-IsAccepted args no_options refl good

  validate-few :
      (t : CommandLineOption) → exclusive_counter t ≤ 1 → validate t ≡ record t { is_good = true }
  unfolding validate
  validate-few t h = elim (Bool-cases (ltb 1 (exclusive_counter t))) [
    | inl many ↦ absurd (ground (arith, many))
    | inr fewer ↦ rw fewer refl
  ]

  read_level-good :
      (l : LogLevel) (o : CommandLineOption)
      → l ≢ invalid
      → read_level l o ≡ skips_one (record o { log_level = l })
  unfolding read_level
  read_level-good l o good = elim (read_level-cases l o) [
    | inl (halt, bad) ↦ absurd (good bad)
    | inr (go, ok) ↦ go
  ]

  read_arguments-Accepts :
      (ws : List WideString) {s t : CommandLineOption}
      → Accepts ws s t
      → exclusive_counter t ≤ 1
      → read_arguments towlower ws s ≡ record t { is_good = true }
  unfolding read_arguments read_word
  read_arguments-Accepts _ end h = validate-few _ h
  read_arguments-Accepts _ (config {args = ws} word path e a) h =
      rw (e, read_arguments) (read_arguments-Accepts ws a h)
  read_arguments-Accepts _ (log_level {o = o} {args = ws} word level e good a) h =
      rw (e, read_arguments, read_level-good (level_of towlower level) o good)
        (read_arguments-Accepts ws a h)
  read_arguments-Accepts (_ ∷ []) (service word e a) h =
      rw (e, read_arguments) (read_arguments-Accepts [] a h)
  read_arguments-Accepts (_ ∷ n ∷ ws) (service word e a) h =
      rw (e, read_arguments) (read_arguments-Accepts (n ∷ ws) a h)
  read_arguments-Accepts (_ ∷ []) (is_debug word e a) h =
      rw (e, read_arguments) (read_arguments-Accepts [] a h)
  read_arguments-Accepts (_ ∷ n ∷ ws) (is_debug word e a) h =
      rw (e, read_arguments) (read_arguments-Accepts (n ∷ ws) a h)
  read_arguments-Accepts (_ ∷ []) (console word e a) h =
      rw (e, read_arguments) (read_arguments-Accepts [] a h)
  read_arguments-Accepts (_ ∷ n ∷ ws) (console word e a) h =
      rw (e, read_arguments) (read_arguments-Accepts (n ∷ ws) a h)
  read_arguments-Accepts (_ ∷ []) (install word e a) h =
      rw (e, read_arguments) (read_arguments-Accepts [] a h)
  read_arguments-Accepts (_ ∷ n ∷ ws) (install word e a) h =
      rw (e, read_arguments) (read_arguments-Accepts (n ∷ ws) a h)
  read_arguments-Accepts (_ ∷ []) (uninstall word e a) h =
      rw (e, read_arguments) (read_arguments-Accepts [] a h)
  read_arguments-Accepts (_ ∷ n ∷ ws) (uninstall word e a) h =
      rw (e, read_arguments) (read_arguments-Accepts (n ∷ ws) a h)

  -- Arguments that the grammar accepts, with at most one service mode, give good options with what
  -- they set.
  pub extract_command_line_option-Accepts :
      (program : WideString) (args : List WideString) (o : CommandLineOption)
      → Accepts args no_options o
      → exclusive_counter o ≤ 1
      → extract_command_line_option towlower (program ∷ args) ≡ record o { is_good = true }
  unfolding extract_command_line_option
  extract_command_line_option-Accepts program args o a few = read_arguments-Accepts args a few
