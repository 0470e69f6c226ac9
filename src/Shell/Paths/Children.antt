-- ===== src/Shell/Paths/Children.antt =====
-- `path.Join` on the names that `fsName` gives: the children of a directory.
use sshmux.Base.{
  Text, false, List, [], ◌∷◌, ◌++◌, reverse, text_eq, nat_eq, ◌≡◌, ◌≢◌, refl, sym, subst, ap, ◌∙◌,
  All, All-append, arith, append-nil, append_assoc, inl, inr, ◌↔◌,
}
use mathlib.Core.List.{reverse-cons, reverse-reverse}
use sshmux.Shell.Paths.{
  slash, dot, join, clean_element, clean_elements, is_abs, clean, before_slash, drop_slashes, dir,
  base, join_path, fs_name,
}
use sshmux.Shell.Paths.Names.{
  NoSlash, IsProper, split-append-slash, split-join, elements, render, AreElements,
  elements-AreElements, AreElements-NoSlash, join-ne-nil, fs_name-render, elements-render,
}
use sshmux.Shell.Paths.Parents.{join-snoc, is_abs-join, ends, All_of_front, dir-render}
use sshmux.Shell.Paths.Bases.{base-render}

join_path-ne-nil : (a b : Text) → a ≢ [] → b ≢ [] → join_path a b ≡ clean (a ++ slash ∷ b)
unfolding join_path
join_path-ne-nil [] b n m = absurd (n refl)
join_path-ne-nil (c ∷ a) [] n m = absurd (m refl)
join_path-ne-nil (c ∷ a) (d ∷ b) n m = refl

clean_elements_kept :
    (kept parts : List Text)
    → All IsProper parts
    → clean_elements false kept parts ≡ reverse parts ++ kept
unfolding clean_elements clean_element text_eq
clean_elements_kept kept [] h = refl
clean_elements_kept kept (part ∷ parts) h = ground (
  arith,
  clean_elements_kept (part ∷ kept) parts h.1,
  reverse-cons part parts,
  append_assoc (reverse parts) (part ∷ []) kept,
)

clean-join :
    (p : Text) (ps : List Text) → AreElements (p ∷ ps) → clean (join (p ∷ ps)) ≡ join (p ∷ ps)
unfolding clean
clean-join p ps h = ground (
  arith,
  append-nil (join (p ∷ ps)),
  is_abs-join p ps [] h.0,
  split-join p ps (AreElements-NoSlash (p ∷ ps) h),
  clean_elements_kept [] (p ∷ ps) h,
  append-nil (reverse (p ∷ ps)),
  reverse-reverse (p ∷ ps),
  join-ne-nil p ps h.0.0,
)

single : (q : Text) → join (q ∷ []) ≡ q
unfolding join
single q = refl

dot-NoSlash : NoSlash dot
dot-NoSlash = ((λ e. cc), tt)

from_dot_is_relative : (q : Text) → is_abs (dot ++ slash ∷ q) ≡ false
unfolding is_abs nat_eq
from_dot_is_relative q = refl

dot_dropped : (q : Text) → clean_elements false [] (dot ∷ q ∷ []) ≡ clean_elements false [] (q ∷ [])
unfolding clean_elements clean_element text_eq nat_eq
dot_dropped q = refl

base_of_root : base (render []) ≡ dot
unfolding base render before_slash drop_slashes text_eq nat_eq
base_of_root = refl

clean_from_dot : (q : Text) → IsProper q → clean (dot ++ slash ∷ q) ≡ q
unfolding clean
clean_from_dot q h = ground (
  arith,
  from_dot_is_relative q,
  split-append-slash dot q dot-NoSlash,
  split-join q [] (h.3, tt),
  single q,
  dot_dropped q,
  clean_elements_kept [] (q ∷ []) (h, tt),
  h.0,
)

-- `path.Join` of a directory and an element is the name with that element behind.
pub join_path-render :
    (ps : List Text) (q : Text)
    → AreElements ps
    → IsProper q
    → join_path (render ps) q ≡ render (ps ++ q ∷ [])
unfolding render
join_path-render [] q h k =
    join_path-ne-nil dot q (λ e. cc) k.0 ∙ clean_from_dot q k ∙ sym (single q)
join_path-render (p ∷ ps) q h k =
    join_path-ne-nil (join (p ∷ ps)) q (join-ne-nil p ps h.0.0) k.0
    ∙ ap clean (sym (join-snoc p ps q))
    ∙ clean-join p (ps ++ q ∷ []) (All-append IsProper (p ∷ ps) (q ∷ []) h (k, tt))

-- A name that `fsName` gives.
abbrev pub IsName : Text → Type 0
IsName k = fs_name k ≡ k

IsName-render : (k : Text) → IsName k → k ≡ render (elements k)
IsName-render k h = sym h ∙ fs_name-render k

child_of_parts :
    (ks : List Text) (d q : Text)
    → AreElements ks
    → IsProper q
    → dir (render ks) ≡ d
    → base (render ks) ≡ q
    → render ks ≡ join_path d q
child_of_parts ks d q h k in_d named = elim (ends ks) [
  | inl e ↦ absurd (k.1 (sym named ∙ ap (λ xs. base (render xs)) e ∙ base_of_root))
  | inr (qs, r, e) ↦
      let (front, last) = All_of_front qs r (subst AreElements e h) in
      let is_q = sym (base-render qs r last) ∙ ap (λ xs. base (render xs)) (sym e) ∙ named in
      let is_d = sym (dir-render qs r front last) ∙ ap (λ xs. dir (render xs)) (sym e) ∙ in_d in
      ap render e
      ∙ sym (join_path-render qs r front last)
      ∙ ap (λ t. join_path t r) is_d
      ∙ ap (join_path d) is_q
]

-- A name is the child `q` of a directory exactly if that is its parent and `q` its base.
pub child_iff :
    (k d q : Text)
    → IsName k
    → IsName d
    → IsProper q
    → ((dir k ≡ d) × (base k ≡ q)) ↔ (k ≡ join_path d q)
child_iff k d q hk hd h =
    let ks = elements k in
    let ds = elements d in
    (
      (λ (x : (dir k ≡ d) × (base k ≡ q)).
          IsName-render k hk
          ∙ child_of_parts ks d q (elements-AreElements k) h
              (ap dir (sym (IsName-render k hk)) ∙ x.0) (ap base (sym (IsName-render k hk)) ∙ x.1)),
      (λ (e : k ≡ join_path d q).
          let child =
            e
            ∙ ap (λ t. join_path t q) (IsName-render d hd)
            ∙ join_path-render ds q (elements-AreElements d) h in
          (
            ap dir child ∙ dir-render ds q (elements-AreElements d) h ∙ sym (IsName-render d hd),
            ap base child ∙ base-render ds q h,
          )),
    )

snoc-ne : (ps : List Text) (q : Text) → ps ++ q ∷ [] ≢ ps
snoc-ne [] q h = cc
snoc-ne (p ∷ ps) q h = snoc-ne ps q cc

-- No name is its own child.
pub join_path-ne : (d q : Text) → IsName d → IsProper q → join_path d q ≢ d
join_path-ne d q hd h e =
    let ds = elements d in
    let proper = elements-AreElements d in
    snoc-ne ds q (
      sym (elements-render (ds ++ q ∷ []) (All-append IsProper ds (q ∷ []) proper (h, tt)))
      ∙ ap elements (
          sym (join_path-render ds q proper h)
          ∙ ap (λ t. join_path t q) (sym (IsName-render d hd))
          ∙ e))

render-IsName : (ps : List Text) → AreElements ps → IsName (render ps)
render-IsName ps h = fs_name-render (render ps) ∙ ap render (elements-render ps h)

pub join_path-IsName : (d q : Text) → IsName d → IsProper q → IsName (join_path d q)
join_path-IsName d q hd h =
    let ds = elements d in
    let proper = elements-AreElements d in
    let child = ap (λ t. join_path t q) (IsName-render d hd) ∙ join_path-render ds q proper h in
    subst IsName (sym child)
      (render-IsName (ds ++ q ∷ []) (All-append IsProper ds (q ∷ []) proper (h, tt)))
