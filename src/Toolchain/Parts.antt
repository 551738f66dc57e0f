-- ===== src/Toolchain/Parts.antt =====
-- What a command line is made of.
use mathlib.Core.Option
use mathlib.Core.Path.{subst}
use bpt.Prelude.{
  ℕ, Option, none, some, List, [], ◌∷◌, ◌++◌, append-nil, append_assoc, ◌≡◌, inl, inr, refl, sym,
  ap, ◌∙◌, Bytes, codes, bytes_eq, Bool-cases, Elem, >>=-eq-some,
}
use bpt.Text.{replace, joinstr}
use bpt.Text.Split.{split_total, replace-eq-joinstr}
use bpt.Toolchain.{
  PathOps, Toolchain, Knobs, CompileFileSpec, Language, replace_each, extend_each, include_args,
  external_include_args, definition_args, shortest_path_from, language_of, for_language,
  optional_args, when, depfile_of, all_flags, compile_flags, in_file, compile_arg,
  create_compile_command,
}

-- The arguments stand in the command line next to each other, in this order.
abbrev pub IsPart : List Bytes → List Bytes → Type 0
IsPart part whole =
    (before : List Bytes) × (after : List Bytes) × (whole ≡ before ++ (part ++ after))

IsPart-left : (part whole rest : List Bytes) → IsPart part whole → IsPart part (whole ++ rest)
IsPart-left part whole rest (before, after, e) = (
  before,
  after ++ rest,
  ap (λ w. w ++ rest) e
      ∙ append_assoc before (part ++ after) rest
      ∙ ap (λ w. before ++ w) (append_assoc part after rest),
)

IsPart-right : (part whole rest : List Bytes) → IsPart part whole → IsPart part (rest ++ whole)
IsPart-right part whole rest (before, after, e) =
    (rest ++ before, after, ap (λ w. rest ++ w) e ∙ sym (append_assoc rest before (part ++ after)))

IsPart-self : (part : List Bytes) → IsPart part part
IsPart-self part = ([], [], sym (append-nil part))

IsPart-trans : (a b c : List Bytes) → IsPart a b → IsPart b c → IsPart a c
IsPart-trans a b c (before, after, e) (before', after', e') =
    subst (IsPart a) (sym e')
      (IsPart-right a (b ++ after') before' (IsPart-left a b after' (before, after, e)))

replace-some :
    (s : Bytes) (k : ℕ) (key repl : Bytes) → (r : Bytes) × (replace s (k ∷ key) repl ≡ some r)
replace-some s k key repl =
    let (ps, e, i) = split_total k key s in
    (joinstr repl ps, replace-eq-joinstr k key s repl ∙ ap (Option.map (joinstr repl)) e)

replace_each-some :
    (strings : List Bytes) (k : ℕ) (key repl : Bytes)
    → (r : List Bytes) × (replace_each strings (k ∷ key) repl ≡ some r)
replace_each-some [] k key repl = ([], refl)
replace_each-some (s ∷ strings) k key repl =
    let (t, e) = replace-some s k key repl in
    let (ts, es) = replace_each-some strings k key repl in (t ∷ ts, rw (replace_each, e, es))

extend_each-some :
    (f : Bytes → Option (List Bytes)) (strings : List Bytes)
    → ((s : Bytes) → (part : List Bytes) × (f s ≡ some part))
    → (r : List Bytes) × (extend_each f strings ≡ some r)
extend_each-some f [] h = ([], refl)
extend_each-some f (s ∷ strings) h =
    let (part, e) = h s in
    let (rest, es) = extend_each-some f strings h in (part ++ rest, rw (extend_each, e, es))

extend_each-IsPart :
    (f : Bytes → Option (List Bytes)) (strings : List Bytes) (s : Bytes) (part r : List Bytes)
    → Elem s strings
    → f s ≡ some part
    → extend_each f strings ≡ some r
    → IsPart part r
extend_each-IsPart f [] s part r m e h = absurd m
extend_each-IsPart f (t ∷ strings) s part r m e h =
    let (first, ft, h1) = >>=-eq-some (f t) _ h in
    let (rest, fs, h2) = >>=-eq-some (extend_each f strings) _ h1 in
    let is : first ++ rest ≡ r = cc h2 in
    elim m [
      | inl same ↦
          let here : part ≡ first = cc (e, ft, ap f same) in
          subst (IsPart part) is
            (IsPart-left part first rest (subst (IsPart part) here (IsPart-self part)))
      | inr m ↦
          subst (IsPart part) is
            (IsPart-right part rest first (extend_each-IsPart f strings s part rest m e fs))
    ]

-- What a flag is made for.
pub data FlagSource : Type 0 where
  definition : Bytes → FlagSource
  include_dir : Bytes → FlagSource
  external_include_dir : Bytes → FlagSource

abbrev pub IsGiven : CompileFileSpec → FlagSource → Type 0
IsGiven spec (definition d) = Elem d spec.definitions
IsGiven spec (include_dir d) = Elem d spec.include_dirs
IsGiven spec (external_include_dir d) = Elem d spec.external_include_dirs

abbrev pub args_for : PathOps → Toolchain → Bytes → FlagSource → Option (List Bytes)
args_for ops tc cwd (definition d) = definition_args tc d
args_for ops tc cwd (include_dir d) = include_args tc (shortest_path_from ops d cwd)
args_for ops tc cwd (external_include_dir d) = external_include_args tc d

optional_args-some :
    (f : Bytes → Option (List Bytes)) (o : Option Bytes)
    → ((s : Bytes) → (part : List Bytes) × (f s ≡ some part))
    → (r : List Bytes) × (optional_args f o ≡ some r)
optional_args-some f none h = ([], refl)
optional_args-some f (some s) h = h s

module _ (ops : PathOps) (tc : Toolchain) (spec : CompileFileSpec) (cwd : Bytes)
    (knobs : Knobs) where
  defined : (s : Bytes) → (r : List Bytes) × (definition_args tc s ≡ some r)
  defined s = replace_each-some tc.def_template 91 (codes "def]") s

  included :
      (d : Bytes) → (r : List Bytes) × (include_args tc (shortest_path_from ops d cwd) ≡ some r)
  included d = replace_each-some tc.inc_template 91 (codes "path]") (shortest_path_from ops d cwd)

  external : (d : Bytes) → (r : List Bytes) × (external_include_args tc d ≡ some r)
  external d = replace_each-some tc.extern_inc_template 91 (codes "path]") d

  -- The lists that the flags are put together from.
  record Pieces (lang : Language) : Type 0 where
    buster : List Bytes
    includes : List Bytes
    externals : List Bytes
    tweaks : List Bytes
    defs : List Bytes
    includes_made :
        extend_each (λ d. include_args tc (shortest_path_from ops d cwd)) spec.include_dirs
        ≡ some includes
    externals_made :
        extend_each (external_include_args tc) spec.external_include_dirs ≡ some externals
    defs_made : extend_each (definition_args tc) spec.definitions ≡ some defs
    made :
        compile_flags ops tc spec cwd knobs lang
        ≡ some (all_flags ops tc spec knobs lang buster includes externals tweaks defs)

  pieces : (lang : Language) → Pieces lang
  unfolding compile_flags
  pieces lang =
      let (buster, b) =
        optional_args-some (λ s. definition_args tc (codes "__bpt_cachebust=" ++ s))
          knobs.cache_buster (λ s. defined (codes "__bpt_cachebust=" ++ s)) in
      let (includes, i) =
        extend_each-some (λ d. include_args tc (shortest_path_from ops d cwd)) spec.include_dirs
          included in
      let (externals, e) =
        extend_each-some (external_include_args tc) spec.external_include_dirs external in
      let (tweaks, t) =
        optional_args-some (λ d. include_args tc (shortest_path_from ops d cwd)) knobs.tweaks_dir
          included in
      let (defs, d) = extend_each-some (definition_args tc) spec.definitions defined in
      record {
        buster = buster;
        includes = includes;
        externals = externals;
        tweaks = tweaks;
        defs = defs;
        includes_made = i;
        externals_made = e;
        defs_made = d;
        made = rw (compile_flags, b, i, e, t, d);
      }

  abbrev flags_of : (lang : Language) → Pieces lang → List Bytes
  flags_of lang p = all_flags ops tc spec knobs lang p.buster p.includes p.externals p.tweaks p.defs

  flags-IsPart :
      (lang : Language) (p : Pieces lang) (x : FlagSource)
      → IsGiven spec x
      → (args : List Bytes) × (args_for ops tc cwd x ≡ some args) × IsPart args (flags_of lang p)
  flags-IsPart lang p (definition d) g =
      let (args, a) = defined d in
      (
        args,
        a,
        IsPart-right args _ (when knobs.is_tty tc.tty_flags) (
            IsPart-right args _ p.buster (
              IsPart-right args _ _ (
                IsPart-right args _ p.includes (
                  IsPart-right args _ p.externals (
                    IsPart-right args _ p.tweaks (
                      IsPart-left args p.defs _ (
                        extend_each-IsPart (definition_args tc) spec.definitions d args p.defs g a
                          p.defs_made))))))),
      )
  flags-IsPart lang p (include_dir d) g =
      let (args, a) = included d in
      (
        args,
        a,
        IsPart-right args _ (when knobs.is_tty tc.tty_flags) (
            IsPart-right args _ p.buster (
              IsPart-right args _ _ (
                IsPart-left args p.includes _ (
                  extend_each-IsPart (λ d. include_args tc (shortest_path_from ops d cwd))
                    spec.include_dirs d args p.includes g a p.includes_made)))),
      )
  flags-IsPart lang p (external_include_dir d) g =
      let (args, a) = external d in
      (
        args,
        a,
        IsPart-right args _ (when knobs.is_tty tc.tty_flags) (
            IsPart-right args _ p.buster (
              IsPart-right args _ _ (
                IsPart-right args _ p.includes (
                  IsPart-left args p.externals _ (
                    extend_each-IsPart (external_include_args tc) spec.external_include_dirs d args
                      p.externals g a p.externals_made))))),
      )

  compile_arg-some :
      (input output : Bytes) (flags : List Bytes) (arg : Bytes)
      → (part : List Bytes) × (compile_arg input output flags arg ≡ some part)
  compile_arg-some input output flags arg = elim (Bool-cases (bytes_eq arg (codes "[flags]"))) [
    | inl same ↦ (flags, rw (same))
    | inr other ↦
        let (a, ea) = replace-some arg 91 (codes "in]") input in
        let (b, eb) = replace-some a 91 (codes "out]") output in (b ∷ [], rw (other, ea, eb))
  ]

  -- When the template of the compiler for the language of a file has an argument [flags],
  -- create_compile_command makes a command for the file, and the arguments for any definition,
  -- include directory or external include directory that was given stand in it next to each other
  -- and in order.
  pub create_compile_command-IsPart :
      (x : FlagSource)
      → IsGiven spec x
      → Elem
          (codes "[flags]")
          (for_language (language_of ops spec spec.lang) tc.c_compile tc.cxx_compile)
      → (command : List Bytes) × (args : List Bytes) × (create_compile_command ops tc spec cwd knobs
          ≡ some (command, depfile_of ops spec tc.deps_mode))
        × (args_for ops tc cwd x ≡ some args)
        × IsPart args command
  unfolding create_compile_command
  create_compile_command-IsPart x g m =
      let lang = language_of ops spec spec.lang in
      let p = pieces lang in
      let flags = flags_of lang p in
      let f = compile_arg (in_file ops spec) spec.out_path flags in
      let template = for_language lang tc.c_compile tc.cxx_compile in
      let (command, e) =
        extend_each-some f template (compile_arg-some (in_file ops spec) spec.out_path flags) in
      let (args, a, part) = flags-IsPart lang p x g in
      let whole = extend_each-IsPart f template (codes "[flags]") flags command m refl e in
      (
        command,
        args,
        rw (create_compile_command, p.made, e),
        a,
        IsPart-trans args flags command part whole,
      )
