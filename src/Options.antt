-- ===== src/Options.antt =====
-- src/options.c and include/options.h: the options, as the argp library hands them to the parser.
pub mod Log
pub mod Arguments
use Prim.Native.String.{String}
use text.Mathlib.Text
use emu_gb.Base.{
  ℕ, ◌-◌, ◌^◌, Bool, true, false, Option, none, some, List, Outcome, ok, err, undefined, ◌>>=◌, ltb,
  if◌then◌else◌,
}

-- `log_level`, an enumeration without negative members, which is unsigned.
abbrev pub log_info : ℕ
log_info = 0

abbrev pub log_trace : ℕ
log_trace = 1

abbrev pub log_warning : ℕ
log_warning = 2

abbrev pub log_error : ℕ
log_error = 3

-- `struct options`; `args` has one cell, which is NULL before an argument is seen.
pub record Options : Type 0 where
  pub args : Option String
  pub trace : Bool
  pub log_level : ℕ
  pub exit_infinite_loop : Bool
  pub blargg : Bool

-- The static of `get_options`, before the options are parsed.
abbrev pub default_options : Options
default_options = record {
  args = none;
  trace = false;
  log_level = log_info;
  exit_infinite_loop = false;
  blargg = false;
}

-- What argp calls the parser with: the characters of the options, an argument, the end, and the other
-- keys of argp.h.
pub data Key : Type 0 where
  key_trace key_exit key_blargg key_silent key_level key_arg key_end key_other : Key

abbrev pub nb_args : ℕ
nb_args = 1

-- The result of the parser: 0 or ARGP_ERR_UNKNOWN.
pub data Parsed : Type 0 where
  accepted unknown : Parsed

-- `-1` as an unsigned number of 32 bits.
abbrev pub no_level : ℕ
no_level = 2 ^ 32 - 1

-- The level that the value of `-l` names. The warning for another value is left out.
unfoldable pub level_of : String → ℕ
level_of value =
    if Text.◌==◌ value "TRACE"
    then log_trace
    else if Text.◌==◌ value "WARNING"
    then log_warning
    else if Text.◌==◌ value "ERROR"
    then log_error
    else log_info

-- `state->arg_num` is `arg_num`. `argp_usage`, which prints a text and ends the program unless argp was
-- told otherwise, is a parameter.
module _ (argp_usage : Outcome {0} Unit) where
  unfoldable pub parse_opt : Key → String → ℕ → Options → Outcome (Parsed × Options)
  parse_opt key_trace value arg_num o = ok (accepted, record o { trace = true })
  parse_opt key_exit value arg_num o = ok (accepted, record o { exit_infinite_loop = true })
  parse_opt key_blargg value arg_num o = ok (accepted, record o { blargg = true })
  parse_opt key_silent value arg_num o = ok (accepted, record o { log_level = no_level })
  parse_opt key_level value arg_num o = ok (accepted, record o { log_level = level_of value })
  parse_opt key_arg value arg_num o = do
    done ← (if ltb nb_args arg_num then argp_usage else ok tt)
    (if ltb arg_num nb_args then ok (accepted, record o { args = some value }) else err undefined)
  parse_opt key_end value arg_num o = do
    done ← (if ltb arg_num nb_args then argp_usage else ok tt)
    ok (accepted, o)
  parse_opt key_other value arg_num o = ok (unknown, o)

-- `argp_parse` is a parameter, with the parser, the words of the command line and the options.
abbrev pub Argp : Type 0
Argp =
    (Key → String → ℕ → Options → Outcome (Parsed × Options))
    → List String
    → Options
    → Outcome Options

unfoldable pub parse_options : Outcome {0} Unit → Argp → List String → Options → Outcome Options
parse_options argp_usage argp_parse argv o = argp_parse (parse_opt argp_usage) argv o
