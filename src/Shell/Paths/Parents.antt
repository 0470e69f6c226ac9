-- ===== src/Shell/Paths/Parents.antt =====
-- `path.Dir` of the names that `fsName` gives: the name without its last element.
use sshmux.Base.{
  Text, false, List, [], ◌∷◌, ◌++◌, reverse, text_eq, nat_eq, ◌≡◌, ◌≢◌, ◌⊎◌, refl, sym, subst,
  trim_prefix, strip, ap, ◌∙◌, All, All-append, arith, append-nil, append_assoc, inl, inr,
}
use mathlib.Core.List.{reverse-cons, reverse-reverse, reverse-append}
use sshmux.Shell.Paths.{
  slash, split, join, go_up, clean_element, clean_elements, is_abs, clean, from_slash, dir, fs_name,
}
use sshmux.Shell.Paths.Names.{
  NoSlash, IsProper, split-append-slash, elements, render, AreElements, elements-AreElements,
  AreElements-NoSlash, join-ne-nil, fs_name-render, elements-render,
}

from_slash_skip : (p t : Text) → NoSlash p → from_slash (p ++ slash ∷ t) ≡ slash ∷ t
unfolding from_slash nat_eq
from_slash_skip [] t h = refl
from_slash_skip (c ∷ p) t h = ground (arith, from_slash_skip p t h.1)

from_slash_none : (p : Text) → NoSlash p → from_slash p ≡ []
unfolding from_slash
from_slash_none [] h = refl
from_slash_none (c ∷ p) h = ground (arith, from_slash_none p h.1)

pub NoSlash-reverse : (p : Text) → NoSlash p → NoSlash (reverse p)
NoSlash-reverse [] h = tt
NoSlash-reverse (c ∷ p) h =
    rw reverse-cons
      (All-append (λ c. c ≢ slash) (reverse p) (c ∷ []) (NoSlash-reverse p h.1) (h.0, tt))

pub join-snoc :
    (p : Text) (ps : List Text) (q : Text) → join ((p ∷ ps) ++ q ∷ []) ≡ join (p ∷ ps) ++ slash ∷ q
unfolding join
join-snoc p [] q = refl
join-snoc p (r ∷ ps) q =
    ap (λ t. p ++ slash ∷ t) (join-snoc r ps q)
    ∙ sym (append_assoc p (slash ∷ join (r ∷ ps)) (slash ∷ q))

pub is_abs-join :
    (p : Text) (ps : List Text) (t : Text) → IsProper p → is_abs (join (p ∷ ps) ++ t) ≡ false
unfolding is_abs join
is_abs-join [] ps t h = absurd (h.0 refl)
is_abs-join (c ∷ p) [] t h = ground arith
is_abs-join (c ∷ p) (q ∷ ps) t h = ground arith

split-slash_end :
    (p : Text) (ps : List Text)
    → All NoSlash (p ∷ ps)
    → split (join (p ∷ ps) ++ slash ∷ []) ≡ (p ∷ ps) ++ [] ∷ []
unfolding join
split-slash_end p [] h = split-append-slash p [] h.0 ∙ unfold split in refl
split-slash_end p (q ∷ ps) h =
    ap split (append_assoc p (slash ∷ join (q ∷ ps)) (slash ∷ []))
    ∙ split-append-slash p (join (q ∷ ps) ++ slash ∷ []) h.0
    ∙ ap (λ xs. p ∷ xs) (split-slash_end q ps h.1)

clean_elements_slash_end :
    (kept parts : List Text)
    → All IsProper parts
    → clean_elements false kept (parts ++ [] ∷ []) ≡ reverse parts ++ kept
unfolding clean_elements clean_element text_eq
clean_elements_slash_end kept [] h = refl
clean_elements_slash_end kept (part ∷ parts) h = ground (
  arith,
  clean_elements_slash_end (part ∷ kept) parts h.1,
  reverse-cons part parts,
  append_assoc (reverse parts) (part ∷ []) kept,
)

clean-slash_end :
    (p : Text) (ps : List Text)
    → AreElements (p ∷ ps)
    → clean (join (p ∷ ps) ++ slash ∷ []) ≡ join (p ∷ ps)
unfolding clean
clean-slash_end p ps h = ground (
  arith,
  is_abs-join p ps (slash ∷ []) h.0,
  split-slash_end p ps (AreElements-NoSlash (p ∷ ps) h),
  clean_elements_slash_end [] (p ∷ ps) h,
  append-nil (reverse (p ∷ ps)),
  reverse-reverse (p ∷ ps),
  join-ne-nil p ps h.0.0,
)

from_slash-reverse :
    (s q : Text) → NoSlash q → from_slash (reverse (s ++ slash ∷ q)) ≡ slash ∷ reverse s
from_slash-reverse s q h =
    ap from_slash (
      reverse-append s (slash ∷ q)
      ∙ ap (λ t. t ++ reverse s) (reverse-cons slash q)
      ∙ append_assoc (reverse q) (slash ∷ []) (reverse s))
    ∙ from_slash_skip (reverse q) (reverse s) (NoSlash-reverse q h)

-- The parent of a name is the name without its last element.
pub dir-render :
    (ps : List Text) (q : Text)
    → AreElements ps
    → IsProper q
    → dir (render (ps ++ q ∷ [])) ≡ render ps
unfolding dir render clean join from_slash
dir-render [] q h k =
    ap (λ t. clean (reverse t)) (from_slash_none (reverse q) (NoSlash-reverse q k.3))
    ∙ unfold clean split clean_elements clean_element is_abs join text_eq in refl
dir-render (p ∷ ps) q h k =
    ap dir (join-snoc p ps q)
    ∙ ap (λ t. clean (reverse t)) (from_slash-reverse (join (p ∷ ps)) q k.3)
    ∙ ap clean (
        reverse-cons slash (reverse (join (p ∷ ps)))
        ∙ ap (λ t. t ++ slash ∷ []) (reverse-reverse (join (p ∷ ps))))
    ∙ clean-slash_end p ps h

-- A list is empty or has a last element.
abbrev pub Ends : List Text → Type 0
Ends ps = (ps ≡ []) ⊎ ((qs : List Text) × (q : Text) × (ps ≡ qs ++ q ∷ []))

pub ends : (ps : List Text) → Ends ps
ends [] = inl refl
ends (p ∷ ps) = elim (ends ps) [
  | inl e ↦ inr ([], p, ap (λ xs. p ∷ xs) e)
  | inr (qs, q, e) ↦ inr (p ∷ qs, q, ap (λ xs. p ∷ xs) e)
]

pub All_of_front :
    (ps : List Text) (q : Text) → AreElements (ps ++ q ∷ []) → AreElements ps × IsProper q
All_of_front [] q h = (tt, h.0)
All_of_front (p ∷ ps) q h = let (front, last) = All_of_front ps q h.1 in ((h.0, front), last)

root_parent : fs_name (dir (render [])) ≡ dir (render [])
unfolding fs_name dir render from_slash clean split clean_elements clean_element go_up is_abs join
    trim_prefix strip nat_eq text_eq
root_parent = refl

dir-elements : (ps : List Text) → AreElements ps → fs_name (dir (render ps)) ≡ dir (render ps)
dir-elements ps h = elim (ends ps) [
  | inl e ↦ subst (λ xs. fs_name (dir (render xs)) ≡ dir (render xs)) (sym e) root_parent
  | inr (qs, q, e) ↦
      let (front, last) = All_of_front qs q (subst AreElements e h) in
      subst (λ xs. fs_name (dir (render xs)) ≡ dir (render xs)) (sym e)
        (ap fs_name (dir-render qs q front last)
          ∙ fs_name-render (render qs)
          ∙ ap render (elements-render qs front)
          ∙ sym (dir-render qs q front last))
]

-- The parent of a name from `fsName` is such a name itself.
pub fs_name-dir : (name : Text) → fs_name (dir (fs_name name)) ≡ dir (fs_name name)
fs_name-dir name =
    subst (λ t. fs_name (dir t) ≡ dir t) (sym (fs_name-render name))
      (dir-elements (elements name) (elements-AreElements name))
