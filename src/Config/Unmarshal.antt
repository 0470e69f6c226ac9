-- ===== src/Config/Unmarshal.antt =====
-- internal/config/stringslice.go, duration.go and the `UnmarshalJSON` methods: from a value of the
-- YAML file, converted to JSON, to a value of the configuration.
use sshmux.Base.{
  Text, Option, none, some, List, [], ◌∷◌, ℤ, pos, Result, ok, err, ◌>>=◌, ◌==◌, text_eq,
  if◌then◌else◌,
}
use sshmux.Externals.{Libs, System}
use sshmux.Config.Pattern.{Pattern, PatternError, parse_pattern}
use sshmux.Config.SshKey.{SshKey, KeyError, parse_ssh_key}

-- An element of a JSON array, as far as a slice of strings tells elements apart.
pub data Element : Type 0 where
  null : Element
  str : Text → Element
  other : Element

-- A JSON value, as far as the methods tell values apart. `other` is a number, a Boolean or an object.
pub data Json : Type 0 where
  null : Json
  str : Text → Json
  seq : List Element → Json
  other : Json

-- `json.Unmarshal` into a string: `null` leaves the empty string that is there.
unfoldable pub unmarshal_string : Json → Option Text
unmarshal_string Json.null = some []
unmarshal_string (Json.str s) = some s
unmarshal_string _ = none

unfoldable pub unmarshal_element : Element → Option Text
unmarshal_element Element.null = some []
unmarshal_element (Element.str s) = some s
unmarshal_element Element.other = none

unfoldable pub unmarshal_elements : List Element → Option (List Text)
unmarshal_elements [] = some []
unmarshal_elements (e ∷ es) = elim (unmarshal_element e) [
  | none ↦ none
  | some s ↦ elim (unmarshal_elements es) [ none ↦ none | some ss ↦ some (s ∷ ss) ]
]

-- `json.Unmarshal` into a slice of strings: `null` gives the nil slice.
unfoldable pub unmarshal_strings : Json → Option (List Text)
unmarshal_strings Json.null = some []
unmarshal_strings (Json.seq es) = unmarshal_elements es
unmarshal_strings _ = none

pub data UnmarshalError : Type 0 where
  -- "expected string or sequence"
  expected_string_or_sequence : UnmarshalError
  -- "expected duration string"
  expected_duration : UnmarshalError
  -- "parse duration %q: %w"
  parse_duration_failed : Text → UnmarshalError
  -- the error of `json.Unmarshal` into a string
  not_a_string : UnmarshalError
  pattern : PatternError → UnmarshalError
  key : KeyError → UnmarshalError

-- `StringOrSlice.UnmarshalJSON`
unfoldable pub unmarshal_string_or_slice : Json → Result UnmarshalError (List Text)
unmarshal_string_or_slice j = elim (unmarshal_string j) [
  | some single ↦ ok (single ∷ [])
  | none ↦ elim (unmarshal_strings j) [
    | some multiple ↦ ok multiple
    | none ↦ err expected_string_or_sequence
  ]
]

abbrev map_err {ℓ} :
    {A : Type ℓ} {E : Type 0} → (E → UnmarshalError) → Result E A → Result UnmarshalError A
map_err f (ok a) = ok a
map_err f (err e) = err (f e)

module _ (L : Libs) where
  -- `Duration.UnmarshalJSON`
  unfoldable pub unmarshal_duration : Json → Result UnmarshalError ℤ
  unmarshal_duration j = elim (unmarshal_string j) [
    | none ↦ err expected_duration
    | some value ↦ if value == [] then ok (pos 0) else elim (L.parse_duration value) [
      | none ↦ err (parse_duration_failed value)
      | some d ↦ ok d
    ]
  ]

  -- `Pattern.UnmarshalJSON`
  unfoldable pub unmarshal_pattern : Json → Result UnmarshalError (Pattern L)
  unmarshal_pattern j = do
    parts ← unmarshal_string_or_slice j
    map_err pattern (parse_pattern L parts)

  -- `SSHKey.UnmarshalJSON`
  unfoldable pub unmarshal_ssh_key : System → Json → Result UnmarshalError (SshKey L)
  unmarshal_ssh_key sys j = elim (unmarshal_string j) [
    | none ↦ err not_a_string
    | some raw ↦ map_err key (parse_ssh_key L sys raw)
  ]
