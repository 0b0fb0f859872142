-- ===== src/Domain/Json/Accepts.antt =====
-- What is parsed passed every check: libs/domain/src/json.cpp, require_keys, require_shape,
-- require_semantics and parse_document.
use wiki.Base.{
  ◌≡◌, refl, ap, Bool, true, not, ◌||◌, any, bytes_eq, throw_if, throw_if-ok, err-ne-ok, ◌∙◌, some,
  List, [], ◌∷◌, ◌++◌, Bytes, ok-cancel, subst, Result, ok, err, arith, All, >>=-eq-ok, some-cancel,
  none-ne-some,
}
use wiki.Domain.Unicode.{Unicode}
use wiki.Domain.Types.{ArticleProposal, Issues}
use wiki.Domain.Json.{
  Json, Thrown, JsonContract, Fields, end, field, null, boolean, unsigned, signed, negative, float,
  string, array, object, contract, message, contains, require_object, all_present, all_allowed,
  require_none, require_keys, parse_document,
}
use wiki.Domain.Json.Read.{proposal_keys, read_proposal, from_json, parse_article_proposal}
use wiki.Domain.Validate.{validate_proposal}
use wiki.Domain.Validate.Proposals.{IsProposal, validate_proposal-IsProposal}

require_none-ok : (issues : Issues) {done : Unit {0}} → require_none issues ≡ ok done → issues ≡ []
unfolding require_none
require_none-ok [] h = refl
require_none-ok (i ∷ issues) h = cc

parse_document-ok :
    {A : Type 0} (m : Result Thrown A) (value : A)
    → (parse_document m).value ≡ some value
    → (m ≡ ok value) × ((parse_document m).issues ≡ [])
unfolding parse_document
parse_document-ok (ok a) value h = (ap ok (some-cancel h), refl)
parse_document-ok (err (contract found)) value h = absurd (none-ne-some h)
parse_document-ok (err (message what)) value h = absurd (none-ne-some h)

-- Every key is one of the names.
unfoldable pub AllNamed : Fields → List Bytes → Type 0
AllNamed end names = Unit
AllNamed (field key v fs) names = (any (bytes_eq key) names ≡ true) × AllNamed fs names

-- An object that has each of the required keys and no key but these and the optional ones.
pub record HasKeys (document : Json) (required optional : List Bytes) : Type 0 where
  pub fields : Fields
  pub shape : document ≡ object fields
  pub present : All (λ key. contains document key ≡ true) required
  pub named : AllNamed fields (required ++ optional)

all_present-All :
    (document : Json) (required : List Bytes) (path : Bytes) {done : Unit {0}}
    → all_present document required path ≡ ok done
    → All (λ key. contains document key ≡ true) required
unfolding all_present
all_present-All document [] path h = tt
all_present-All document (key ∷ required) path h =
    let (a, first, rest) = >>=-eq-ok (throw_if (not (contains document key)) _) _ h in
    (ground (arith, throw_if-ok _ _ first), all_present-All document required path rest)

any-append : (p : Bytes → Bool) (xs ys : List Bytes) → any p (xs ++ ys) ≡ (any p xs || any p ys)
any-append p [] ys = refl
any-append p (x ∷ xs) ys = ground (arith, any-append p xs ys)

all_allowed-AllNamed :
    (fs : Fields) (required optional : List Bytes) (path : Bytes) {done : Unit {0}}
    → all_allowed fs required optional path ≡ ok done
    → AllNamed fs (required ++ optional)
unfolding all_allowed AllNamed
all_allowed-AllNamed end required optional path h = tt
all_allowed-AllNamed (field key v fs) required optional path h =
    let (a, first, rest) =
      >>=-eq-ok (throw_if (not (any (bytes_eq key) required || any (bytes_eq key) optional)) _) _
        h in
    (
      any-append (bytes_eq key) required optional ∙ ground (arith, throw_if-ok _ _ first),
      all_allowed-AllNamed fs required optional path rest,
    )

require_object-ok :
    (document : Json) (path : Bytes) {fields : Fields}
    → require_object document path ≡ ok fields
    → document ≡ object fields
unfolding require_object
require_object-ok (object fs) path h = ap object (ok-cancel h)
require_object-ok null path h = absurd (err-ne-ok h)
require_object-ok (boolean b) path h = absurd (err-ne-ok h)
require_object-ok (unsigned n) path h = absurd (err-ne-ok h)
require_object-ok (signed n) path h = absurd (err-ne-ok h)
require_object-ok (negative n) path h = absurd (err-ne-ok h)
require_object-ok (float n) path h = absurd (err-ne-ok h)
require_object-ok (string s) path h = absurd (err-ne-ok h)
require_object-ok (array xs) path h = absurd (err-ne-ok h)

require_keys-HasKeys :
    (document : Json) (required optional : List Bytes) (path : Bytes) {done : Unit {0}}
    → require_keys document required optional path ≡ ok done
    → HasKeys document required optional
unfolding require_keys
require_keys-HasKeys document required optional path h =
    let (fields, shape, later) = >>=-eq-ok (require_object document path) _ h in
    let (a, present, allowed) = >>=-eq-ok (all_present document required path) _ later in
    record {
      fields = fields;
      shape = require_object-ok document path shape;
      present = all_present-All document required path present;
      named = all_allowed-AllNamed fields required optional path allowed;
    }

-- A document that gives a proposal passed the schema and every rule for proposals: nothing is
-- reported, it is an object with the five keys of a proposal and no other, the proposal has no issue,
-- and so version 1, an identity that agrees with its
-- operation, a slug, distinct aliases, and citations that are valid and fit everywhere.
pub parse_article_proposal-Accepts :
    (u : Unicode) (shape : JsonContract → Json → Issues) (document : Json) (p : ArticleProposal)
    → (parse_article_proposal u shape document).value ≡ some p
    → ((parse_article_proposal u shape document).issues ≡ [])
      × (shape JsonContract.article_proposal document ≡ [])
      × HasKeys document proposal_keys []
      × (validate_proposal u p ≡ [])
      × IsProposal u p
unfolding parse_article_proposal from_json read_proposal
parse_article_proposal-Accepts u shape document p h =
    let (returned, clean) =
      parse_document-ok
        (from_json u shape JsonContract.article_proposal read_proposal (validate_proposal u)
          document)
        p h in
    let (a, shaped, later) =
      >>=-eq-ok (require_none (shape JsonContract.article_proposal document)) _ returned in
    let (value, reads, rest) = >>=-eq-ok (read_proposal document) _ later in
    let (b, valid, last) = >>=-eq-ok (require_none (validate_proposal u value)) _ rest in
    let same : value ≡ p = ok-cancel last in
    let good : validate_proposal u p ≡ [] =
      subst (λ q. validate_proposal u q ≡ []) same (require_none-ok _ valid) in
    let (done, keys, read) = >>=-eq-ok (require_keys document proposal_keys [] []) _ reads in
    (
      clean,
      require_none-ok _ shaped,
      require_keys-HasKeys document proposal_keys [] [] keys,
      good,
      validate_proposal-IsProposal u p good,
    )
