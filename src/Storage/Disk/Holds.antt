-- ===== src/Storage/Disk/Holds.antt =====
-- Reasoning about a run step by step: what holds of every state that a crash can leave, and at the end.
use wiki.Base.{List, All, All-append, All-map}
use wiki.Storage.Disk.{Disk, Exit, done, failed, Run, Action, continue, ◌>>=◌}

-- What is at the end of the run: `Q` of the result, or `E` after an error.
abbrev pub Ends {ℓ} : {A : Type ℓ} → (Disk → Type 0) → (A → Disk → Type 0) → Exit A → Disk → Type 0
Ends E Q (done a) d = Q a d
Ends E Q (failed message) d = E d

pub record Holds {ℓ} {A : Type ℓ} (P E : Disk → Type 0) (Q : A → Disk → Type 0) (r : Run A)
    : Type ℓ where
  pub visited : All P r.trace
  pub ends : Ends E Q r.exit r.disk

Holds-continue {ℓ κ} :
    {A : Type ℓ} {B : Type κ} (P E : Disk → Type 0) (Q : A → Disk → Type 0) (R : B → Disk → Type 0)
    (trace : List Disk) (d : Disk) (x : Exit A) (f : A → Action B)
    → All P trace
    → Ends E Q x d
    → ((a : A) (e : Disk) → Q a e → Holds P E R (f a e))
    → Holds P E R (continue trace d x f)
Holds-continue P E Q R trace d (done a) f t q k =
    let h = k a d q in record { visited = All-append P trace _ t h.visited; ends = h.ends }
Holds-continue P E Q R trace d (failed message) f t q k = record { visited = t; ends = q }

-- The states of a sequence are those of its parts.
pub Holds-bind {ℓ κ} :
    {A : Type ℓ} {B : Type κ} {P E : Disk → Type 0} {Q : A → Disk → Type 0} {R : B → Disk → Type 0}
    (m : Action A) (f : A → Action B) (d : Disk)
    → Holds P E Q (m d)
    → ((a : A) (e : Disk) → Q a e → Holds P E R (f a e))
    → Holds P E R ((m >>= f) d)
Holds-bind {P} {E} {Q} {R} m f d h k = Holds-continue P E Q R _ _ _ f h.visited h.ends k

Ends-map {ℓ} :
    {A : Type ℓ} (E : Disk → Type 0) (Q R : A → Disk → Type 0) (x : Exit A) (d : Disk)
    → ((a : A) (e : Disk) → Q a e → R a e)
    → Ends E Q x d
    → Ends E R x d
Ends-map E Q R (done a) d f q = f a d q
Ends-map E Q R (failed message) d f q = q

-- What holds of a run can be weakened.
pub Holds-map {ℓ} :
    {A : Type ℓ} {P P' E : Disk → Type 0} {Q R : A → Disk → Type 0} (r : Run A)
    → ((d : Disk) → P d → P' d)
    → ((a : A) (e : Disk) → Q a e → R a e)
    → Holds P E Q r
    → Holds P' E R r
Holds-map {P} {P'} {E} {Q} {R} r f g h = record {
  visited = All-map P P' f r.trace h.visited;
  ends = Ends-map E Q R r.exit r.disk g h.ends;
}

-- So can what holds after an error.
pub Holds-weaken {ℓ} :
    {A : Type ℓ} {P P' E E' : Disk → Type 0} {Q : A → Disk → Type 0} (r : Run A)
    → ((d : Disk) → P d → P' d)
    → ((d : Disk) → E d → E' d)
    → Holds P E Q r
    → Holds P' E' Q r
Holds-weaken {P} {P'} {E} {E'} {Q} r f g h = record {
  visited = All-map P P' f r.trace h.visited;
  ends = weaken E E' Q r.exit r.disk g h.ends;
}
  where
    weaken :
        {A : Type ℓ} (E E' : Disk → Type 0) (Q : A → Disk → Type 0) (x : Exit A) (d : Disk)
        → ((d : Disk) → E d → E' d)
        → Ends E Q x d
        → Ends E' Q x d
    weaken E E' Q (done a) d g q = q
    weaken E E' Q (failed message) d g q = g d q
