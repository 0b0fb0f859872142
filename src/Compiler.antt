-- ===== src/Compiler.antt =====
-- libs/compiler/src/compiler.cpp: options, errors and the parts of a compilation.
pub mod Relevance
pub mod Select
pub mod Citations
pub mod Store
pub mod Compile
pub mod Publish
use wiki.Base.{ℕ, Bool, List, Bytes, Result, ok, err}

pub data CompilerErrorKind : Type 0 where
  invalid_project invalid_concept source_not_found no_evidence model_failed validation_failed
        state_error :
      CompilerErrorKind

pub record CompilerError : Type 0 where
  pub kind : CompilerErrorKind
  pub message : Bytes

abbrev pub compiler_error : CompilerErrorKind → Bytes → CompilerError
compiler_error kind message = record { kind = kind; message = message }

pub record CompileOptions : Type 0 where
  pub concept_title : Bytes
  pub source_ids : List Bytes
  pub regenerate : Bool

-- `catch (const std::exception& error) { throw CompilerError(kind, error.what()); }`
unfoldable pub as_compiler_error :
    {A : Type 0} → CompilerErrorKind → Result Bytes A → Result CompilerError A
as_compiler_error kind (ok a) = ok a
as_compiler_error kind (err message) = err (compiler_error kind message)
