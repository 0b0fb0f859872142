-- ===== src/Domain/Validate/Citations.antt =====
-- What an accepted citation satisfies.
use wiki.Base.{
  ◌≤◌, ◌<◌, ◌≡◌, ◌↔◌, refl, ◌↔◌, Bool, true, false, List, [], ◌∷◌, arith, Bytes, codes, All,
  append-eq-nil, for_index-nil, ltb→lt, lt→ltb, leb→le, le→leb,
}
use wiki.Domain.Unicode.{Unicode}
use wiki.Domain.Types.{Citation, Issues}
use wiki.Domain.Id.{is_valid_id}
use wiki.Domain.Markdown.{validate_plain_text}
use wiki.Domain.Validate.{
  prefixed, require, max_citation_start, max_citation_end, validate_citation, validate_citations,
}

pub require-nil : (b : Bool) (path message : Bytes) → require b path message ≡ [] → b ≡ true
unfolding require
require-nil true path message h = refl
require-nil false path message h = cc

require-true : (b : Bool) (path message : Bytes) → b ≡ true → require b path message ≡ []
unfolding require
require-true true path message h = refl
require-true false path message h = cc

prefixed-nil : (prefix : Bytes) (issues : Issues) → prefixed prefix issues ≡ [] → issues ≡ []
unfolding prefixed
prefixed-nil prefix [] h = refl
prefixed-nil prefix (i ∷ issues) h = cc

-- A page identifier, a span that is not empty and fits SQLite's signed integers, and a quote that
-- is safe text.
pub record IsCited (u : Unicode) (c : Citation) : Type 0 where
  pub page : is_valid_id c.page_id (codes "pg_") ≡ true
  pub span : c.start_char < c.end_char
  pub fits : c.end_char ≤ max_citation_end
  pub safe : validate_plain_text u c.quote false false ≡ []

pub validate_citation-IsCited :
    (u : Unicode) (c : Citation) → validate_citation u c ≡ [] → IsCited u c
unfolding validate_citation
validate_citation-IsCited u c h =
    let (h3, f) = append-eq-nil _ _ h in
    let (h2, e) = append-eq-nil _ _ h3 in
    let (h1, d) = append-eq-nil _ _ h2 in
    let (a, b) = append-eq-nil _ _ h1 in
    record {
      page = require-nil _ _ _ a;
      span = ltb→lt _ _ (require-nil _ _ _ e);
      fits = leb→le _ _ (require-nil _ _ _ d);
      safe = prefixed-nil _ _ f;
    }

IsCited-validate_citation : (u : Unicode) (c : Citation) → IsCited u c → validate_citation u c ≡ []
unfolding validate_citation
IsCited-validate_citation u c v =
    rw
      (
        require-true _ _ _ v.page,
        require-true _ _ _ (le→leb c.start_char max_citation_start (omega (arith, v.span, v.fits))),
        require-true _ _ _ (le→leb c.end_char max_citation_end v.fits),
        require-true _ _ _ (lt→ltb c.start_char c.end_char v.span),
        v.safe,
      )
      (unfold prefixed in refl)

-- `validate_citation` finds nothing exactly where the page has a page's identifier, the span is not
-- empty and ends at 2^63 − 1 at most, and the quote is plain text.
pub validate_citation_lem :
    (u : Unicode) (c : Citation) → (validate_citation u c ≡ []) ↔ IsCited u c
validate_citation_lem u c = (validate_citation-IsCited u c, IsCited-validate_citation u c)

pub validate_citations-IsCited :
    (u : Unicode) (path : Bytes) (cs : List Citation)
    → validate_citations u path cs ≡ []
    → All (IsCited u) cs
unfolding validate_citations
validate_citations-IsCited u path cs h =
    for_index-nil _ (IsCited u) (λ i c e. validate_citation-IsCited u c (prefixed-nil _ _ e)) 0 cs h
