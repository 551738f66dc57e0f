-- ===== src/Toolchain.antt =====
-- src/bpt/toolchain/toolchain.cpp: the command lines that a toolchain makes for a compiler, an
-- archiver and a linker.
--
-- `none` means that a replacement does not end, which `Toolchain.Parts` shows of no command. Writing
-- the file of a syntax check is left out.
pub mod Parts
mod Tests
use mathlib.Core.Option
use bpt.Prelude.{
  ℕ, zero, suc, Bool, true, false, Option, none, some, List, [], ◌∷◌, ◌++◌, ltb, if◌then◌else◌,
  length, Bytes, codes, bytes_eq, ◌>>=◌,
}
use bpt.Text.{replace}
use bpt.Deps.{FileDepsMode, none_mode, msvc, gnu}

-- The functions of std::filesystem::path that are called.
pub record PathOps : Type 0 where
  pub normal : Bytes → Bytes
  pub proximate : Bytes → Bytes → Bytes
  pub extension : Bytes → Bytes
  pub with_extension : Bytes → Bytes → Bytes
  pub beside : Bytes → Bytes → Bytes

pub data Language : Type 0 where
  automatic : Language
  c : Language
  cxx : Language

pub record Toolchain : Type 0 where
  pub c_compile : List Bytes
  pub cxx_compile : List Bytes
  pub inc_template : List Bytes
  pub extern_inc_template : List Bytes
  pub def_template : List Bytes
  pub link_archive : List Bytes
  pub link_exe : List Bytes
  pub warning_flags : List Bytes
  pub tty_flags : List Bytes
  pub c_source_type_flags : List Bytes
  pub cxx_source_type_flags : List Bytes
  pub syntax_only_flags : List Bytes
  pub deps_mode : FileDepsMode

pub record Knobs : Type 0 where
  pub is_tty : Bool
  pub tweaks_dir : Option Bytes
  pub cache_buster : Option Bytes

pub record CompileFileSpec : Type 0 where
  pub source_path : Bytes
  pub out_path : Bytes
  pub definitions : List Bytes
  pub include_dirs : List Bytes
  pub external_include_dirs : List Bytes
  pub lang : Language
  pub enable_warnings : Bool
  pub syntax_only : Bool

-- `replace` for the strings of a vector.
abbrev pub replace_each : List Bytes → Bytes → Bytes → Option (List Bytes)
replace_each [] key repl = some []
replace_each (s ∷ strings) key repl =
    replace s key repl >>= λ t. replace_each strings key repl >>= λ ts. some (t ∷ ts)

-- A loop that extends a vector with what it makes of each element.
abbrev pub extend_each : (Bytes → Option (List Bytes)) → List Bytes → Option (List Bytes)
extend_each f [] = some []
extend_each f (s ∷ strings) = f s >>= λ part. extend_each f strings >>= λ rest. some (part ++ rest)

abbrev pub include_args : Toolchain → Bytes → Option (List Bytes)
include_args tc p = replace_each tc.inc_template (codes "[path]") p

abbrev pub external_include_args : Toolchain → Bytes → Option (List Bytes)
external_include_args tc p = replace_each tc.extern_inc_template (codes "[path]") p

abbrev pub definition_args : Toolchain → Bytes → Option (List Bytes)
definition_args tc s = replace_each tc.def_template (codes "[def]") s

abbrev pub shortest_path_from : PathOps → Bytes → Bytes → Bytes
shortest_path_from ops file base =
    let relative = ops.proximate (ops.normal file) base in
    let abs = ops.normal file in if ltb (length abs) (length relative) then abs else relative

abbrev pub language_of : PathOps → CompileFileSpec → Language → Language
language_of ops spec automatic =
    if bytes_eq (ops.extension spec.source_path) (codes ".c")
    then c
    else if bytes_eq (ops.extension spec.source_path) (codes ".C")
    then c
    else cxx
language_of ops spec c = c
language_of ops spec cxx = cxx

abbrev pub for_language {ℓ} : {A : Type ℓ} → Language → A → A → A
for_language c x y = x
for_language cxx x y = y
for_language automatic x y = y

abbrev pub optional_args : (Bytes → Option (List Bytes)) → Option Bytes → Option (List Bytes)
optional_args f none = some []
optional_args f (some p) = f p

abbrev pub when : Bool → List Bytes → List Bytes
when b flags = if b then flags else []

abbrev pub depfile_of : PathOps → CompileFileSpec → FileDepsMode → Option Bytes
depfile_of ops spec gnu =
    some (ops.with_extension spec.out_path (ops.extension spec.out_path ++ codes ".d"))
depfile_of ops spec msvc = none
depfile_of ops spec none_mode = none

abbrev pub deps_flags : CompileFileSpec → FileDepsMode → Option Bytes → List Bytes
deps_flags spec gnu (some depfile) =
    codes "-MD" ∷ codes "-MF" ∷ depfile ∷ codes "-MQ" ∷ spec.out_path ∷ []
deps_flags spec gnu none = []
deps_flags spec msvc depfile = codes "/showIncludes" ∷ []
deps_flags spec none_mode depfile = []

-- The flags of a compilation, in the order in which they are added.
abbrev pub all_flags :
    PathOps
    → Toolchain
    → CompileFileSpec
    → Knobs
    → Language
    → List Bytes
    → List Bytes
    → List Bytes
    → List Bytes
    → List Bytes
    → List Bytes
all_flags ops tc spec knobs lang buster includes externals tweaks defs =
    when knobs.is_tty tc.tty_flags
    ++ (buster
        ++ (when spec.syntax_only (
              tc.syntax_only_flags
              ++ for_language lang tc.c_source_type_flags tc.cxx_source_type_flags)
            ++ (includes
                ++ (externals
                    ++ (tweaks
                        ++ (defs
                            ++ (when spec.enable_warnings tc.warning_flags
                                ++ deps_flags spec tc.deps_mode
                                    (depfile_of ops spec tc.deps_mode))))))))

unfoldable pub compile_flags :
    PathOps → Toolchain → CompileFileSpec → Bytes → Knobs → Language → Option (List Bytes)
compile_flags ops tc spec cwd knobs lang =
    optional_args (λ b. definition_args tc (codes "__bpt_cachebust=" ++ b)) knobs.cache_buster
    >>= λ buster.
        extend_each (λ d. include_args tc (shortest_path_from ops d cwd)) spec.include_dirs
        >>= λ includes.
            extend_each (external_include_args tc) spec.external_include_dirs >>= λ externals.
            optional_args (λ d. include_args tc (shortest_path_from ops d cwd)) knobs.tweaks_dir
            >>= λ tweaks. extend_each (definition_args tc) spec.definitions >>= λ defs.
                some (all_flags ops tc spec knobs lang buster includes externals tweaks defs)

abbrev pub in_file : PathOps → CompileFileSpec → Bytes
in_file ops spec =
    if spec.syntax_only
    then ops.beside spec.out_path spec.source_path ++ codes ".syncheck"
    else spec.source_path

-- One argument of the template of a compiler.
abbrev pub compile_arg : Bytes → Bytes → List Bytes → Bytes → Option (List Bytes)
compile_arg input output flags arg =
    if bytes_eq arg (codes "[flags]")
    then some flags
    else replace arg (codes "[in]") input >>= λ a.
        replace a (codes "[out]") output >>= λ b. some (b ∷ [])

unfoldable pub create_compile_command :
    PathOps → Toolchain → CompileFileSpec → Bytes → Knobs → Option (List Bytes × Option Bytes)
unfolding compile_flags
create_compile_command ops tc spec cwd knobs =
    let lang = language_of ops spec spec.lang in
    compile_flags ops tc spec cwd knobs lang >>= λ flags.
    extend_each (compile_arg (in_file ops spec) spec.out_path flags)
      (for_language lang tc.c_compile tc.cxx_compile)
    >>= λ command. some (command, depfile_of ops spec tc.deps_mode)

abbrev pub shortest_paths : PathOps → Bytes → List Bytes → List Bytes
shortest_paths ops base [] = []
shortest_paths ops base (p ∷ paths) = shortest_path_from ops p base ∷ shortest_paths ops base paths

-- One argument of the template of an archiver or a linker.
abbrev pub link_arg : PathOps → Bytes → List Bytes → Bytes → Bytes → Option (List Bytes)
link_arg ops cwd inputs output arg =
    if bytes_eq arg (codes "[in]")
    then some (shortest_paths ops cwd inputs)
    else replace arg (codes "[out]") (shortest_path_from ops output cwd) >>= λ a. some (a ∷ [])

unfoldable pub create_archive_command :
    PathOps → Toolchain → List Bytes → Bytes → Bytes → Option (List Bytes)
create_archive_command ops tc inputs output cwd =
    extend_each (link_arg ops cwd inputs output) tc.link_archive

unfoldable pub create_link_executable_command :
    PathOps → Toolchain → List Bytes → Bytes → Bytes → Option (List Bytes)
create_link_executable_command ops tc inputs output cwd =
    extend_each (link_arg ops cwd inputs output) tc.link_exe
