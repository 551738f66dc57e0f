-- ===== src/Toolchain/Tests.antt =====
use bpt.Prelude.{true, false, none, some, List, [], ◌∷◌, ◌++◌, ◌≡◌, inl, inr, refl, Bytes, codes}
use bpt.Text.{replace}
use bpt.Deps.{gnu}
use bpt.Toolchain.{
  PathOps, Toolchain, Knobs, CompileFileSpec, automatic, compile_flags, create_compile_command,
  create_link_executable_command, depfile_of,
}
use bpt.Toolchain.Parts.{definition, args_for, IsPart, create_compile_command-IsPart}

abbrev ops : PathOps
ops = record {
  normal = λ p. p;
  proximate = λ p base. p;
  extension = λ p. codes ".cpp";
  with_extension = λ p e. p ++ e;
  beside = λ p q. q;
}

abbrev gcc : Toolchain
gcc = record {
  c_compile = codes "gcc" ∷ codes "[flags]" ∷ codes "[in]" ∷ [];
  cxx_compile = codes "g++" ∷ codes "[flags]" ∷ codes "-c" ∷ codes "[in]" ∷ codes "-o[out]" ∷ [];
  inc_template = codes "-I" ∷ codes "[path]" ∷ [];
  extern_inc_template = codes "-isystem" ∷ codes "[path]" ∷ [];
  def_template = codes "-D" ∷ codes "[def]" ∷ [];
  link_archive = codes "ar" ∷ codes "[out]" ∷ codes "[in]" ∷ [];
  link_exe = codes "g++" ∷ codes "[in]" ∷ codes "-o[out]" ∷ [];
  warning_flags = codes "-Wall" ∷ [];
  tty_flags = [];
  c_source_type_flags = [];
  cxx_source_type_flags = [];
  syntax_only_flags = [];
  deps_mode = gnu;
}

abbrev knobs : Knobs
knobs = record { is_tty = true; tweaks_dir = none; cache_buster = none }

abbrev spec : CompileFileSpec
spec = record {
  source_path = codes "a.cpp";
  out_path = codes "a.o";
  definitions = codes "X=1" ∷ [];
  include_dirs = codes "inc" ∷ [];
  external_include_dirs = [];
  lang = automatic;
  enable_warnings = true;
  syntax_only = false;
}

compiles :
    create_compile_command ops gcc spec (codes "cwd") knobs
    ≡ some (
      codes "g++"
          ∷ codes "-I"
          ∷ codes "inc"
          ∷ codes "-D"
          ∷ codes "X=1"
          ∷ codes "-Wall"
          ∷ codes "-MD"
          ∷ codes "-MF"
          ∷ codes "a.o.cpp.d"
          ∷ codes "-MQ"
          ∷ codes "a.o"
          ∷ codes "-c"
          ∷ codes "a.cpp"
          ∷ codes "-oa.o"
          ∷ [],
      some (codes "a.o.cpp.d"),
    )
unfolding create_compile_command compile_flags replace
compiles = refl

links :
    create_link_executable_command ops gcc
      (codes "a.o" ∷ codes "b.o" ∷ [])
      (codes "app")
      (codes "cwd")
    ≡ some (codes "g++" ∷ codes "a.o" ∷ codes "b.o" ∷ codes "-oapp" ∷ [])
unfolding create_link_executable_command replace
links = refl

create_compile_command-IsPart_example :
    (command : List Bytes) × (args : List Bytes) × (create_compile_command ops gcc spec
        (codes "cwd")
        knobs
      ≡ some (command, depfile_of ops spec gnu))
    × (args_for ops gcc (codes "cwd") (definition (codes "X=1")) ≡ some args)
    × IsPart args command
create_compile_command-IsPart_example =
    create_compile_command-IsPart ops gcc spec (codes "cwd") knobs (definition (codes "X=1"))
      (inl refl) (inr (inl refl))
