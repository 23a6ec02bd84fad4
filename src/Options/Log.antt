-- ===== src/Options/Log.antt =====
-- src/log.c: which messages the options let through, and where they go.
use Prim.Native.String.{String}
use emu_gb.Base.{
  ℕ, ◌==◌, not, Option, none, some, List, Outcome, ok, err, undefined, ltb, leb, if◌then◌else◌,
  length, get_or,
}
use emu_gb.Options.{Options, log_info, log_trace, log_warning}

pub data Stream : Type 0 where
  stdout stderr : Stream

-- The stream that `log_print` writes its message to, if it writes it.
unfoldable pub log_print : ℕ → Options → Option Stream
log_print level o =
    let stream : Option Stream = some (if leb log_warning level then stderr else stdout) in
    if level == log_trace
    then (if not o.trace then none else stream)
    else if ltb level o.log_level
    then none
    else stream

unfoldable pub log_color : Options → Option Stream
log_color o = if ltb log_info o.log_level then none else some stdout

-- An argument of a conversion: a string, the characters of a string in memory, a number, or a byte that
-- is shown with its sign.
pub data Arg : Type 0 where
  str : String → Arg
  chars : List ℕ → Arg
  num : ℕ → Arg
  signed : ℕ → Arg

-- A read of an array of names.
abbrev pub name_at : List String → ℕ → Outcome String
name_at names k = if ltb k (length names) then ok (get_or names k "") else err undefined

-- A line that a call of `log_print` writes, or none.
abbrev pub logged : Option Stream → String → Option (Stream × String)
logged none line = none
logged (some stream) line = some (stream, line)
