-- ===== src/Config/Pattern.antt =====
-- internal/config/pattern.go: patterns of usernames.
pub mod Spec
use sshmux.Base.{
  Text, codes, Bool, true, false, not, ◌&&◌, ◌||◌, Option, none, some, List, [], ◌∷◌, ◌++◌, any,
  ltb, leb, length, Result, ok, err, ◌>>=◌, if◌then◌else◌, has_prefix, has_suffix, trim_prefix,
  trim_suffix,
}
use sshmux.Externals.{Libs}

-- `fmt.Errorf("compile pattern %q: %w", part, err)`
pub data PatternError : Type 0 where
  compile_pattern : Text → PatternError

module _ (L : Libs) where
  pub record Pattern : Type 0 where
    pub allow_regexp : List L.Regexp
    pub deny_regexp : List L.Regexp
    pub allow : List Text
    pub deny : List Text

  abbrev pub empty_pattern : Pattern
  empty_pattern = record { allow_regexp = []; deny_regexp = []; allow = []; deny = [] }

  -- `strings.HasPrefix(part, "/") && strings.HasSuffix(part, "/") && len(part) >= 2`
  unfoldable pub is_regexp : Text → Bool
  is_regexp part = has_prefix part (codes "/") && has_suffix part (codes "/") && leb 2 (length part)

  unfoldable pub regexp_text : Text → Text
  regexp_text part = trim_suffix (trim_prefix part (codes "/")) (codes "/")

  unfoldable pub add_regexp : Bool → Text → Option L.Regexp → Pattern → Result PatternError Pattern
  add_regexp deny part none p = err (compile_pattern part)
  add_regexp true part (some re) p = ok (record p { deny_regexp = p.deny_regexp ++ re ∷ [] })
  add_regexp false part (some re) p = ok (record p { allow_regexp = p.allow_regexp ++ re ∷ [] })

  unfoldable pub add_glob : Bool → Text → Pattern → Pattern
  add_glob true part p = record p { deny = p.deny ++ part ∷ [] }
  add_glob false part p = record p { allow = p.allow ++ part ∷ [] }

  -- The rest of a round of `ParsePattern`, once the deny mark is cut off.
  unfoldable pub add_part : Bool → Text → Pattern → Result PatternError Pattern
  unfolding add_regexp add_glob
  add_part deny part p =
      if is_regexp part
      then add_regexp deny part (L.compile (regexp_text part)) p
      else ok (add_glob deny part p)

  -- The loop of `ParsePattern` over the parts.
  unfoldable pub parse_parts : List Text → Pattern → Result PatternError Pattern
  parse_parts [] p = ok p
  parse_parts (part ∷ parts) p =
      let deny = has_prefix part (codes "!") in
      add_part deny (if deny then trim_prefix part (codes "!") else part) p >>= λ q.
      parse_parts parts q

  unfoldable pub parse_pattern : List Text → Result PatternError Pattern
  unfolding parse_parts
  parse_pattern parts = parse_parts parts empty_pattern

  -- `matchGlob`
  unfoldable pub match_glob : Text → Text → Bool
  match_glob pattern value = elim (L.path_match pattern value) [ none ↦ false | some m ↦ m ]

  -- `Pattern.Match`
  unfoldable pub match : Pattern → Text → Bool
  match p value =
      if any (λ deny. match_glob deny value) p.deny
      then false
      else if any (λ deny. L.match_string deny value) p.deny_regexp
      then false
      else let has_allow = ltb 0 (length p.allow) || ltb 0 (length p.allow_regexp) in
        if any (λ allow. match_glob allow value) p.allow
        then true
        else if any (λ allow. L.match_string allow value) p.allow_regexp
        then true
        else not has_allow
