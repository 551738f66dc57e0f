-- ===== src/Deps.antt =====
-- src/bpt/build/file_deps.cpp: what a compiler says it has read, how the build database keeps it,
-- and what a later build finds changed.
pub mod Recorded
pub mod Prior
mod Tests
use mathlib.Core.Option
use mathlib.Core.List.{reverse}
use bpt.Prelude.{
  ℕ, zero, suc, ◌-◌, min, Bool, true, false, not, ◌&&◌, Option, none, some, List, [], ◌∷◌, ◌++◌,
  ◌==◌, if◌then◌else◌, length, take, drop, Bytes, codes, bytes_eq, ◌>>=◌,
}
use bpt.Text.{trim_view, starts_with, ends_with, split}
use bpt.Shlex.{split_shell_string}
use bpt.Database.{
  FileSystem, Completed, Database, InputInfo, record_compilation, forget_inputs_of, record_dep,
  inputs_of, command_of,
}

pub data FileDepsMode : Type 0 where
  none_mode : FileDepsMode
  msvc : FileDepsMode
  gnu : FileDepsMode

-- `file_deps_info`. A time is a number of ticks.
pub record FileDepsInfo : Type 0 where
  pub output : Bytes
  pub inputs : List Bytes
  pub command : Completed
  pub compile_start_time : ℕ

abbrev pub no_command : Completed
no_command = record { quoted_command = []; output = []; toolchain_hash = 0; duration = 0 }

abbrev pub no_deps : FileDepsInfo
no_deps = record { output = []; inputs = []; command = no_command; compile_start_time = 0 }

abbrev pub colon : Bytes
colon = codes ":"

abbrev pub deps_of_words : List Bytes → FileDepsInfo
deps_of_words [] = no_deps
deps_of_words (head ∷ inputs) =
    if ends_with head colon
    then record no_deps { output = take (length head - 1) head; inputs = inputs }
    else no_deps

-- The text without its escaped newlines is computed by the source, and not used.
unfoldable pub parse_mkfile_deps_str : Bytes → FileDepsInfo
parse_mkfile_deps_str str = deps_of_words (split_shell_string str)

abbrev pub newline : ℕ
newline = 10

-- One round of the loop of `parse_msvc_output_for_deps`, for its inputs and its cleaned output.
abbrev pub msvc_line : FileSystem → Bytes → Bytes → List Bytes × Bytes → List Bytes × Bytes
msvc_line fs leader full_line (inputs, cleaned) =
    let trimmed = trim_view full_line in
    if starts_with trimmed leader
    then (inputs ++ fs.weakly_canonical (trim_view (drop (length leader) trimmed)) ∷ [], cleaned)
    else (inputs, cleaned ++ (full_line ++ newline ∷ []))

abbrev pub msvc_lines : FileSystem → Bytes → List Bytes → List Bytes × Bytes → List Bytes × Bytes
msvc_lines fs leader [] st = st
msvc_lines fs leader (l ∷ lines) st = msvc_lines fs leader lines (msvc_line fs leader l st)

abbrev pub pop_back_nonempty : Bytes → Bytes
pop_back_nonempty [] = []
pop_back_nonempty (c ∷ s) = take (length s) (c ∷ s)

unfoldable pub parse_msvc_output_for_deps :
    FileSystem → Bytes → Bytes → Option (FileDepsInfo × Bytes)
parse_msvc_output_for_deps fs output leader =
    Option.map
      (λ lines.
        let (inputs, cleaned) = msvc_lines fs leader lines ([], []) in
        (record no_deps { inputs = inputs }, pop_back_nonempty cleaned))
      (split output (newline ∷ []))

-- The loop of `update_deps_info`; `fs::last_write_time` throws for a file that does not exist.
abbrev pub record_inputs : FileSystem → Bytes → ℕ → List Bytes → Database → Option Database
record_inputs fs output start [] db = some db
record_inputs fs output start (inp ∷ inputs) db = fs.last_write_time inp >>= λ mtime.
    record_inputs fs output start inputs (record_dep fs inp output (min mtime start) db)

unfoldable pub update_deps_info : FileSystem → FileDepsInfo → Database → Option Database
update_deps_info fs deps db =
    record_inputs fs deps.output deps.compile_start_time deps.inputs
      (forget_inputs_of fs deps.output (record_compilation fs deps.output deps.command db))

-- `prior_compilation`.
pub record PriorCompilation : Type 0 where
  pub newer_inputs : List Bytes
  pub previous_command : Completed

-- The filter of `get_prior_compilation`.
abbrev pub differs : Option ℕ → ℕ → Bool
differs none prev = true
differs (some mtime) prev = not (mtime == prev)

abbrev pub is_newer : FileSystem → InputInfo → Bool
is_newer fs input =
    if bytes_eq (fs.extension input.path) (codes ".syncheck")
    then false
    else differs (fs.last_write_time input.path) input.prev_mtime

abbrev pub newer : FileSystem → List InputInfo → List Bytes
newer fs [] = []
newer fs (i ∷ infos) = let rest = newer fs infos in if is_newer fs i then i.path ∷ rest else rest

unfoldable pub get_prior_compilation : FileSystem → Database → Bytes → Option PriorCompilation
get_prior_compilation fs db output_path = command_of fs output_path db >>= λ cmd.
    inputs_of fs output_path db >>= λ inputs.
    some (record { newer_inputs = newer fs inputs; previous_command = cmd })
