-- ===== src/Import/Act.antt =====
-- Steps of an import that change the retained files and may throw.
use wiki.Base.{Option, none, some, Bytes, Result, ok, err, bytes_eq, if◌then◌else◌}
use wiki.Import.{ImportError}

-- A regular file with its bytes, or anything else that stands at a path.
pub data Entry : Type 0 where
  file : Bytes → Entry
  no_file : Entry

abbrev pub Files : Type 0
Files = Bytes → Option Entry

abbrev pub put : Bytes → Option Entry → Files → Files
put path entry files p = if bytes_eq p path then entry else files p

abbrev pub Act : Type 0 → Type 0
Act A = Files → Files × Result ImportError A

abbrev pub continue :
    {A B : Type 0} → Files × Result ImportError A → (A → Act B) → Files × Result ImportError B
continue (files, err e) next = (files, err e)
continue (files, ok a) next = next a files

infixl 5 ◌>>=◌ ◌>>◌
-- The next step runs on the files that are left, unless an exception was thrown.
abbrev pub ◌>>=◌ : {A B : Type 0} → Act A → (A → Act B) → Act B
◌>>=◌ act next files = continue (act files) next

abbrev pub ◌>>◌ : {B : Type 0} → Act (Unit {0}) → Act B → Act B
first >> next = first >>= λ done. next

abbrev pub lift : {A : Type 0} → Result ImportError A → Act A
lift m files = (files, m)

abbrev pub look : Bytes → Act (Option Entry)
look path files = (files, ok (files path))

abbrev pub write : Bytes → Bytes → Act (Unit {0})
write path bytes files = (put path (some (file bytes)) files, ok tt)

-- `catch (...) { … remove(path) … throw; }`
abbrev pub removing :
    {A : Type 0} → Bytes → Files × Result ImportError A → Files × Result ImportError A
removing path (files, err e) = (put path none files, err e)
removing path (files, ok a) = (files, ok a)
