-- ===== src/Lib.antt =====
-- A model of the core of bpt, a build system and library manager for C and C++.
--
-- The program reads libraries and their usage requirements (src/libman, src/bpt/usage_reqs.cpp),
-- searches directories with globs (src/bpt/util/glob.cpp, whose parts are the file name patterns of
-- src/bpt/util/fnmatch.cpp), reads license expressions (src/bpt/project/spdx.cpp), and reads and
-- writes command lines (src/bpt/util/shlex.cpp, src/bpt/util/proc.common.cpp). The files of libman,
-- the license expressions and the command lines use the string helpers of src/bpt/util/string.hpp.
-- Its own command line is read by the parser of src/debate, whose errors suggest the nearest spelling
-- (src/bpt/dym.cpp).
--
-- A build makes a ticket for each file of its plan (src/bpt/build/plan/compile_exec.cpp): it asks
-- the build database (src/bpt/db/database.cpp) for the compilation before, by
-- src/bpt/build/file_deps.cpp, and decides whether the file is compiled. The command of a ticket
-- is made from the templates of a toolchain (src/bpt/toolchain/toolchain.cpp). The tickets are
-- handled on several threads (src/bpt/util/parallel.hpp); what each compiler says it has read is
-- parsed, and in the end it is recorded in the database, for the next build to ask.
--
-- Which file models which part:
--   Text      src/bpt/util/string.hpp: find, rfind, split, replace, joinstr, trim_view and the tests
--             made of them.
--   Shlex     src/bpt/util/shlex.cpp (split_shell_string as an automaton: Lexer, step) and the
--             quoting of src/bpt/util/proc.common.cpp and proc.hpp (needs_quoting, quote_argument,
--             quote_command).
--   Fnmatch   src/bpt/util/fnmatch.cpp: PatternElem for the classes, match for the virtual
--             functions, compile_oneof, compile_lit, compile_next and compile for pattern_impl.
--   Glob      src/bpt/util/glob.cpp: compile_glob_expr, check_matches, and the coroutine: Frame for
--             glob_iter_state, reenter, increment. It uses Fnmatch.
--   Usage     src/bpt/usage_reqs.cpp with src/libman/library.hpp and usage.hpp: add, get, link_paths
--             and include_paths; Usage.Cycle has find_cycle, find_usage_cycle and verify_acyclic.
--   Libman    src/libman/parse.cpp and parse.hpp: parse_string, parse_line and write_pairs, the readers
--             with read (Libman.Read), and the fields of src/libman/package.cpp.
--   Spdx      src/bpt/project/spdx.cpp: the parser and the printer of license expressions.
--   Database  src/bpt/db/database.cpp: the tables bpt_source_files, bpt_compilations (Compilation) and
--             bpt_compile_deps (Dep) with the cache of identifiers as a record, and each statement as
--             a function: record_file for _record_file, record_dep, record_compilation,
--             forget_inputs_of, inputs_of, command_of. Also normalize_path of
--             src/bpt/util/fs/path.cpp. FileSystem holds what std::filesystem does.
--   Deps      src/bpt/build/file_deps.cpp: parse_mkfile_deps_str, parse_msvc_output_for_deps,
--             update_deps_info and get_prior_compilation, over Database.
--   Compile   src/bpt/build/plan/compile_exec.cpp: mk_compile_ticket, handle_compilation (with
--             run_compilation for the part after its first return), and the updates of compile_all.
--             Run is a run of the compiler. It uses Deps and Shlex.
--   Parallel  src/bpt/util/parallel.hpp: Pool for the locals of parallel_run, Worker for the places in
--             run_one, thread_step for what one thread does between two calls of the mutex or of fn;
--             steps runs any schedule of threads.
--   Debate    src/debate/argument_parser.cpp and argument.cpp: Engine for parse_engine, with one
--             function for each of its members; Debate.Parse has the groups of short arguments, the
--             positional arguments, the subcommands and run.
--   Dym       src/bpt/dym.cpp and dym.hpp: lev_edit_distance and did_you_mean.
--   Toolchain src/bpt/toolchain/toolchain.cpp: create_compile_command, create_archive_command and
--             create_link_executable_command from the templates of a toolchain. It uses replace of Text.
--   Siphash   src/bpt/util/siphash.hpp: the digest, with the wrap-around of 64 bits written out.
--   Prelude   names and lemmas that the others share.
--
-- How code becomes definitions. A text is the list of its bytes, a position in it the suffix that
-- begins there. A class is a record, a std::map an association list in the order of its keys (the
-- vertices of the cycle search, which are only looked up and overwritten, are a function). State is
-- passed explicitly; an exception is a constructor of the result. A loop whose progress is not
-- structural takes fuel, and its result type has a constructor for the end of the fuel:
--   - split and replace take one round more than the text has bytes, since each round removes a
--     separator that is not empty;
--   - the compilers of patterns and globs take as many rounds as the text has bytes;
--   - find_usage_cycle takes one more than there are libraries, since a deeper search would visit a
--     library twice;
--   - the parser of license expressions takes one more than the text has bytes, since each round
--     removes a token;
--   - the binary search of find_with_id takes as many rounds as the table has entries, since each round
--     removes one: when none is left, the range is empty, and the entry found last is the result;
--   - include_paths and link_paths recur without a bound in the source, so their fuel is an argument;
--   - the loop of normalize_path takes as many rounds as the path has bytes, since a parent is shorter,
--     but for a root, where the loop of the source does not end: still_going is that result, and
--     normalize_path is then the root;
--   - the loop over a group of short arguments takes one round more than the group has characters,
--     since each round takes one of them, and its end of the fuel is out_of_rounds;
--   - run of the argument parser takes one round for each word, and its fuel is an argument;
--   - increment may call reenter any number of times, and its fuel is an argument.
--
-- The tables of src/bpt/project/spdx.inl and spdx-exc.inl are arguments.
--
-- Not modelled: the compile-time patterns of fnmatch.hpp, from_lm_index, nested_kvlist, library
-- and index files, symbolic links and file system errors during a walk, log messages, the actions
-- of subcommands and the help texts of src/debate, the spec of a file that
-- src/bpt/build/plan/compile_file.cpp makes, the reading of toolchains from JSON, and the parts of
-- the program that this library has no file for: processes and files, archives and executables,
-- the solver, the package repositories, the commands of src/bpt/cli.
pub mod Compile
pub mod Database
pub mod Debate
pub mod Deps
pub mod Dym
pub mod Fnmatch
pub mod Glob
pub mod Libman
pub mod Parallel
pub mod Prelude
pub mod Shlex
pub mod Siphash
pub mod Spdx
pub mod Text
pub mod Toolchain
pub mod Usage
