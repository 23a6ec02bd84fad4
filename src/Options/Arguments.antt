-- ===== src/Options/Arguments.antt =====
-- What the options of src/options.c do to the arguments and to the messages of src/log.c.
use Prim.Native.String.{String}
use emu_gb.Base.{
  ℕ, ◌<◌, ◌≡◌, ◌≢◌, refl, arith, none, [], ◌∷◌, Outcome, ok, err, undefined, ◌>>=◌, Returns,
}
use emu_gb.Options.{
  Options, key_silent, key_arg, key_end, Argp, parse_opt, parse_options, log_trace,
}
use emu_gb.Options.Log.{log_print, log_color}

-- How argp hands two words that are no options to this parser, which accepts them: as arguments with
-- their numbers, and then the end.
abbrev pub OnTwoWords : Outcome {0} Unit → Argp → String → String → Type 0
OnTwoWords argp_usage argp_parse a b =
    (o : Options)
    → argp_parse (parse_opt argp_usage) (a ∷ b ∷ []) o ≡ (do
      (r0, o0) ← parse_opt argp_usage key_arg a 0 o
      (r1, o1) ← parse_opt argp_usage key_arg b 1 o0
      (r2, o2) ← parse_opt argp_usage key_end "" 2 o1
      ok o2)

-- With two arguments on the command line, where one is expected, the second is stored outside of `args`,
-- whatever `argp_usage` does.
pub second_argument :
    (argp_usage : Outcome {0} Unit) (argp_parse : Argp) (a b : String) (o : Options)
    → OnTwoWords argp_usage argp_parse a b
    → parse_options argp_usage argp_parse (a ∷ b ∷ []) o ≡ err undefined
unfolding parse_options parse_opt
second_argument argp_usage argp_parse a b o h = h o

-- `-s` hides every message of `log_color`, and every one of `log_print` but traces; these depend on `-t`
-- alone, before it and after it.
pub log_print-silent :
    (argp_usage : Outcome {0} Unit) (value : String) (arg_num level : ℕ) (o : Options)
    → level < 4
    → Returns (parse_opt argp_usage key_silent value arg_num o) (λ r.
      (level ≢ log_trace → log_print level r.1 ≡ none)
      × (log_color r.1 ≡ none)
      × (log_print log_trace r.1 ≡ log_print log_trace o))
unfolding parse_opt log_print log_color
log_print-silent argp_usage value arg_num level o h = (λ ne. ground arith, refl, ground arith)
