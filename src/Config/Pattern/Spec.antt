-- ===== src/Config/Pattern/Spec.antt =====
-- What a username pattern means, part by part, and that `ParsePattern` followed by `Match` agrees.
use sshmux.Base.{
  Text, codes, Bool, true, false, not, ◌&&◌, ◌||◌, Option, none, some, List, [], ◌∷◌, ◌++◌, any,
  ltb, length, ok, err, error_of, >>=-eq-ok, if◌then◌else◌, has_prefix, trim_prefix, ◌≡◌, refl,
  any-append, length-append, arith, ◌∙◌, sym, any-Perm, Option-cases, Bool-cases, inl, inr, ◌⊎◌,
  is_some,
}
use mathlib.Core.Option
use mathlib.Core.List.{Perm}
use sshmux.Externals.{Libs}
use sshmux.Config.Pattern.{
  compile_pattern, Pattern, empty_pattern, is_regexp, regexp_text, add_regexp, add_glob, add_part,
  parse_parts, parse_pattern, match_glob, match,
}

abbrev is_deny : Text → Bool
is_deny part = has_prefix part (codes "!")

-- A part without its deny mark.
abbrev body : Text → Text
body part = if is_deny part then trim_prefix part (codes "!") else part

module _ (L : Libs) where
  -- Whether the text of a part, read as a regular expression or as a glob, fits a value.
  pub body_matches : Text → Text → Bool
  body_matches part v =
      if is_regexp L part
      then elim (L.compile (regexp_text L part)) [ none ↦ false | some re ↦ L.match_string re v ]
      else match_glob L part v

  -- A part that cannot be parsed: a regular expression that does not compile.
  pub is_bad : Text → Bool
  is_bad part = is_regexp L part && not (is_some (L.compile (regexp_text L part)))

  abbrev denied_by : Text → Text → Bool
  denied_by v part = is_deny part && body_matches (body part) v

  abbrev allowed_by : Text → Text → Bool
  allowed_by v part = not (is_deny part) && body_matches (body part) v

  -- Some part denies nothing and is a rule that allows.
  abbrev pub accepts : List Text → Text → Bool
  accepts parts v =
      not (any (denied_by v) parts)
      && (any (allowed_by v) parts || not (any (λ part. not (is_deny part)) parts))

  abbrev denies : Pattern L → Text → Bool
  denies p v = any (λ g. match_glob L g v) p.deny || any (λ re. L.match_string re v) p.deny_regexp

  abbrev allows : Pattern L → Text → Bool
  allows p v = any (λ g. match_glob L g v) p.allow || any (λ re. L.match_string re v) p.allow_regexp

  abbrev has_allow : Pattern L → Bool
  has_allow p = ltb 0 (length p.allow) || ltb 0 (length p.allow_regexp)

  match_lem :
      (p : Pattern L) (v : Text)
      → match L p v ≡ (not (denies p v) && (allows p v || not (has_allow p)))
  unfolding match
  match_lem p v = ground arith

  -- What one part adds to the three tests.
  record Adds (p q : Pattern L) (deny : Bool) (part v : Text) : Type 0 where
    denying : denies q v ≡ (denies p v || (deny && body_matches part v))
    allowing : allows q v ≡ (allows p v || (not deny && body_matches part v))
    counting : has_allow q ≡ (has_allow p || not deny)

  add_glob-Adds :
      (deny : Bool) (part v : Text) (p : Pattern L)
      → is_regexp L part ≡ false
      → Adds p (add_glob L deny part p) deny part v
  unfolding add_glob body_matches
  add_glob-Adds true part v p h =
      ground (arith, any-append (λ g. match_glob L g v) p.deny (part ∷ []))
  add_glob-Adds false part v p h = ground (
    arith,
    any-append (λ g. match_glob L g v) p.allow (part ∷ []),
    length-append p.allow (part ∷ []),
  )

  add_regexp-Adds :
      (deny : Bool) (part v : Text) (p q : Pattern L) (re : L.Regexp)
      → is_regexp L part ≡ true
      → L.compile (regexp_text L part) ≡ some re
      → add_regexp L deny part (some re) p ≡ ok q
      → Adds p q deny part v
  unfolding add_regexp body_matches
  add_regexp-Adds true part v p q re h c e =
      ground (arith, any-append (λ r. L.match_string r v) p.deny_regexp (re ∷ []))
  add_regexp-Adds false part v p q re h c e = ground (
    arith,
    any-append (λ r. L.match_string r v) p.allow_regexp (re ∷ []),
    length-append p.allow_regexp (re ∷ []),
  )

  add_part-Adds :
      (deny : Bool) (part v : Text) (p q : Pattern L)
      → add_part L deny part p ≡ ok q
      → Adds p q deny part v
  unfolding add_part
  add_part-Adds deny part v p q h = elim (Bool-cases (is_regexp L part)) [
    | inl r ↦ elim (Option-cases (L.compile (regexp_text L part))) [
      | inl e ↦ absurd (ground arith)
      | inr (re, e) ↦ add_regexp-Adds deny part v p q re r e (ground arith)
    ]
    | inr g ↦ ground (arith, add_glob-Adds deny part v p g)
  ]

  -- What a list of parts adds.
  record AddsAll (p q : Pattern L) (parts : List Text) (v : Text) : Type 0 where
    denying : denies q v ≡ (denies p v || any (denied_by v) parts)
    allowing : allows q v ≡ (allows p v || any (allowed_by v) parts)
    counting : has_allow q ≡ (has_allow p || any (λ part. not (is_deny part)) parts)

  parse_parts-AddsAll :
      (parts : List Text) (v : Text) (p q : Pattern L)
      → parse_parts L parts p ≡ ok q
      → AddsAll p q parts v
  unfolding parse_parts
  parse_parts-AddsAll [] v p q h = ground arith
  parse_parts-AddsAll (part ∷ parts) v p q h =
      let (r, first, rest) = >>=-eq-ok (add_part L (is_deny part) (body part) p) _ h in
      ground (
        arith,
        add_part-Adds (is_deny part) (body part) v p r first,
        parse_parts-AddsAll parts v r q rest,
      )

  -- A parsed pattern matches a value exactly when no deny part fits it and some allow part does,
  -- or there is no allow part.
  pub match-parse_pattern :
      (parts : List Text) (v : Text) (p : Pattern L)
      → parse_pattern L parts ≡ ok p
      → match L p v ≡ accepts parts v
  unfolding parse_pattern
  match-parse_pattern parts v p h =
      ground (arith, match_lem p v, parse_parts-AddsAll parts v (empty_pattern L) p h)

  add_part-cases :
      (deny : Bool) (part : Text) (p : Pattern L)
      → ((is_bad part ≡ true) × (add_part L deny part p ≡ err (compile_pattern part)))
        ⊎ ((is_bad part ≡ false) × ((q : Pattern L) × (add_part L deny part p ≡ ok q)))
  unfolding add_part add_regexp is_bad
  add_part-cases deny part p = elim (Bool-cases (is_regexp L part)) [
    | inl r ↦ elim (Option-cases (L.compile (regexp_text L part))) [
      | inl e ↦ inl (ground arith)
      | inr (re, e) ↦ elim (Bool-cases deny) [
        | inl d ↦
            inr (ground arith, (record p { deny_regexp = p.deny_regexp ++ re ∷ [] }, ground arith))
        | inr d ↦
            inr
              (ground arith, (record p { allow_regexp = p.allow_regexp ++ re ∷ [] }, ground arith))
      ]
    ]
    | inr g ↦ inr (ground arith, (add_glob L deny part p, ground arith))
  ]

  -- The text of the first part that cannot be parsed.
  pub first_bad : List Text → Option Text
  first_bad [] = none
  first_bad (part ∷ parts) = if is_bad (body part) then some (body part) else first_bad parts

  parse_parts-err :
      (parts : List Text) (p : Pattern L)
      → error_of (parse_parts L parts p) ≡ Option.map compile_pattern (first_bad parts)
  unfolding parse_parts first_bad
  parse_parts-err [] p = refl
  parse_parts-err (part ∷ parts) p = elim (add_part-cases (is_deny part) (body part) p) [
    | inl (b, e) ↦ ground arith
    | inr (b, (q, e)) ↦ ground (arith, parse_parts-err parts q)
  ]

  -- `ParsePattern` fails exactly when some part is a regular expression that does not compile, and
  -- the error names the first such part.
  pub parse_pattern-error_of :
      (parts : List Text)
      → error_of (parse_pattern L parts) ≡ Option.map compile_pattern (first_bad parts)
  unfolding parse_pattern
  parse_pattern-error_of parts = parse_parts-err parts (empty_pattern L)

  accepts-Perm : {ps qs : List Text} (v : Text) → Perm ps qs → accepts ps v ≡ accepts qs v
  accepts-Perm v h =
      cc (
        any-Perm (denied_by v) h,
        any-Perm (allowed_by v) h,
        any-Perm (λ part. not (is_deny part)) h,
      )

  -- The order in which the parts of a pattern are listed makes no difference to what it matches.
  pub match-parse_pattern_perm :
      {ps qs : List Text} (v : Text) (p q : Pattern L)
      → Perm ps qs
      → parse_pattern L ps ≡ ok p
      → parse_pattern L qs ≡ ok q
      → match L p v ≡ match L q v
  match-parse_pattern_perm {ps} {qs} v p q h hp hq =
      match-parse_pattern ps v p hp ∙ accepts-Perm v h ∙ sym (match-parse_pattern qs v q hq)
