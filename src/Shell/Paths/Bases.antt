-- ===== src/Shell/Paths/Bases.antt =====
-- `path.Base` of the names that `fsName` gives: their last element.
use sshmux.Base.{
  Text, List, [], ◌∷◌, ◌++◌, reverse, ◌==◌, text_eq, nat_eq, if◌then◌else◌, ◌≡◌, ◌≢◌, refl, sym, ap,
  ◌∙◌, arith, append-nil, append_assoc,
}
use mathlib.Core.List.{reverse-cons, reverse-reverse, reverse-append}
use sshmux.Shell.Paths.{slash, join, before_slash, drop_slashes, base}
use sshmux.Shell.Paths.Names.{NoSlash, IsProper, render}
use sshmux.Shell.Paths.Parents.{NoSlash-reverse, join-snoc}

before_slash_stops : (p t : Text) → NoSlash p → before_slash (p ++ slash ∷ t) ≡ p
unfolding before_slash nat_eq
before_slash_stops [] t h = refl
before_slash_stops (c ∷ p) t h = ground (arith, before_slash_stops p t h.1)

before_slash_all : (p : Text) → NoSlash p → before_slash p ≡ p
unfolding before_slash
before_slash_all [] h = refl
before_slash_all (c ∷ p) h = ground (arith, before_slash_all p h.1)

drop_slashes_none : (p t : Text) → p ≢ [] → NoSlash p → drop_slashes (p ++ t) ≡ p ++ t
unfolding drop_slashes
drop_slashes_none [] t n h = absurd (n refl)
drop_slashes_none (c ∷ p) t n h = ground arith

base_of : Text → Text
base_of s =
    let name = reverse (before_slash (drop_slashes (reverse s))) in
    if name == [] then slash ∷ [] else name

base-ne-nil : (s : Text) → s ≢ [] → base s ≡ base_of s
unfolding base base_of
base-ne-nil [] n = absurd (n refl)
base-ne-nil (c ∷ s) n = refl

reverse-ne-nil : (s : Text) → s ≢ [] → reverse s ≢ []
reverse-ne-nil s n h = n (sym (reverse-reverse s) ∙ ap reverse h)

base_of_last : (s q : Text) → IsProper q → base_of (s ++ slash ∷ q) ≡ q
unfolding base_of
base_of_last s q h = ground (
  arith,
  reverse-append s (slash ∷ q),
  reverse-cons slash q,
  append_assoc (reverse q) (slash ∷ []) (reverse s),
  drop_slashes_none (reverse q) (slash ∷ reverse s) (reverse-ne-nil q h.0) (NoSlash-reverse q h.3),
  before_slash_stops (reverse q) (reverse s) (NoSlash-reverse q h.3),
  reverse-reverse q,
  h.0,
)

base_of_only : (q : Text) → IsProper q → base_of q ≡ q
unfolding base_of
base_of_only q h = ground (
  arith,
  drop_slashes_none (reverse q) [] (reverse-ne-nil q h.0) (NoSlash-reverse q h.3),
  append-nil (reverse q),
  before_slash_all (reverse q) (NoSlash-reverse q h.3),
  reverse-reverse q,
  h.0,
)

snoc-ne-nil : (s q : Text) → q ≢ [] → s ++ slash ∷ q ≢ []
snoc-ne-nil [] q n h = cc
snoc-ne-nil (c ∷ s) q n h = cc

-- The base of a name is its last element.
pub base-render : (ps : List Text) (q : Text) → IsProper q → base (render (ps ++ q ∷ [])) ≡ q
unfolding render join
base-render [] q h = base-ne-nil q h.0 ∙ base_of_only q h
base-render (p ∷ ps) q h =
    ap base (join-snoc p ps q)
    ∙ base-ne-nil (join (p ∷ ps) ++ slash ∷ q) (snoc-ne-nil (join (p ∷ ps)) q h.0)
    ∙ base_of_last (join (p ∷ ps)) q h
