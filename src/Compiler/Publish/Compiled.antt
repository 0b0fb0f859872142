-- ===== src/Compiler/Publish/Compiled.antt =====
-- compile as a whole: it publishes an accepted proposal, or leaves every table but the log of runs
-- as it was (libs/compiler/src/compiler.cpp).
use wiki.Base.{ok}
use wiki.Domain.Unicode.{Unicode}
use wiki.Compiler.Store.{Store}
use wiki.Compiler.Compile.{Services}
use wiki.Compiler.Publish.{CompileResult, Compiled}
use wiki.Compiler.Publish.Accepted.{Accepted}
use wiki.Compiler.Publish.Published.{Published}

module _ (u : Unicode) (v : Services) where
  abbrev Returned : Store → CompileResult → Compiled u v
  Returned t result = (t, ok result)
