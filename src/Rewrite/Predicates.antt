-- ===== src/Rewrite/Predicates.antt =====
-- What `ILikeRewriter` (src/rewrite/predicates.rs) does to the rows that a predicate keeps.
use postgresql_trino_gateway.Prelude.{
  ℕ, ◌==◌, ◌≡◌, Bool, true, false, not, ◌&&◌, ◌||◌, Option, none, some, List, [], ◌∷◌, map, All,
  if◌then◌else◌, is_empty,
}
use postgresql_trino_gateway.Prelude.Text.{Text}
use postgresql_trino_gateway.Sql.{Expr}

-- A code point of a pattern escapes the next one, is a wildcard, or stands for itself.
pub data Kind : Type 0 where
  escape any_text any_one itself : Kind

abbrev pub wildcard : ℕ → Kind
wildcard c = if c == b'%' then Kind.any_text else if c == b'_' then Kind.any_one else Kind.itself

abbrev pub kind : Option ℕ → ℕ → Kind
kind none c = wildcard c
kind (some e) c = if c == e then Kind.escape else wildcard c

pub data Token : Type 0 where
  literal : ℕ → Token
  many one broken : Token

-- A code point in front of the tokens `after` it; `behind` are those after it if it escapes.
abbrev pub token_before : Kind → ℕ → (after behind : List Token) → List Token
token_before Kind.escape c after behind = behind
token_before Kind.any_text c after behind = Token.many ∷ after
token_before Kind.any_one c after behind = Token.one ∷ after
token_before Kind.itself c after behind = Token.literal c ∷ after

-- A pattern as tokens; `escaped` tells that the escape was just read. It may not end a pattern.
abbrev pub tokens : Option ℕ → (escaped : Bool) → Text → List Token
tokens esc true [] = Token.broken ∷ []
tokens esc false [] = []
tokens esc true (c ∷ p) = Token.literal c ∷ tokens esc false p
tokens esc false (c ∷ p) = token_before (kind esc c) c (tokens esc false p) (tokens esc true p)

abbrev pub any_suffix : (Text → Bool) → Text → Bool
any_suffix f [] = f []
any_suffix f (c ∷ s) = f (c ∷ s) || any_suffix f s

module _ (same : ℕ → ℕ → Bool) where
  abbrev pub matches : List Token → Text → Bool
  matches [] s = is_empty s
  matches (Token.literal c ∷ ts) [] = false
  matches (Token.literal c ∷ ts) (d ∷ s) = same c d && matches ts s
  matches (Token.one ∷ ts) [] = false
  matches (Token.one ∷ ts) (d ∷ s) = matches ts s
  matches (Token.many ∷ ts) s = any_suffix (matches ts) s
  matches (Token.broken ∷ ts) s = false

  -- A predicate on texts that may be NULL.
  abbrev pub tested : Bool → Option ℕ → (pattern text : Option Text) → Option Bool
  tested negated esc (some p) (some s) =
      let m = matches (tokens esc false p) s in some (if negated then not m else m)
  tested negated esc none s = none
  tested negated esc (some p) none = none

-- PostgreSQL's escape: a backslash where there is no ESCAPE, and none where it is empty.
abbrev pub pg_escape : Option Text → Option ℕ
pg_escape none = some b'\\'
pg_escape (some []) = none
pg_escape (some (c ∷ s)) = some c

-- Trino has an escape only where there is an ESCAPE. It refuses an empty one.
abbrev pub trino_escape : Option Text → Option ℕ
trino_escape (some (c ∷ s)) = some c
trino_escape e = none

-- The texts of ESCAPE and of the pattern have the same escapes for PostgreSQL and for Trino.
abbrev pub EscapesAlike : Option Text → Option Text → Type 0
EscapesAlike (some (c ∷ s)) p = Unit
EscapesAlike (some []) p = ⊥
EscapesAlike none none = Unit
EscapesAlike none (some p) = All (λ c. (c == b'\\') ≡ false) p

abbrev pub mapped : (ℕ → ℕ) → Option Text → Option Text
mapped fold none = none
mapped fold (some s) = some (map fold s)

module _ (fold : ℕ → ℕ) (value : Expr → Option Text) where
  -- What Trino's LIKE and PostgreSQL's ILIKE say of the values of their arguments, where case is
  -- folded by `fold`. (An escape in front of an ordinary letter, which Trino refuses, stands for the
  -- letter in both.)
  abbrev pub holds : Expr → Option Bool
  holds (Expr.like negated any e p esc) =
      tested (λ a b. a == b) negated (trino_escape esc) (value p) (value e)
  holds (Expr.i_like negated any e p esc) =
      tested (λ a b. fold a == fold b) negated (pg_escape esc) (value p) (value e)
  holds e = none

abbrev fold_token : (ℕ → ℕ) → Token → Token
fold_token fold (Token.literal c) = Token.literal (fold c)
fold_token fold t = t
