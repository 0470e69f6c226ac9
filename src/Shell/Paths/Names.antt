-- ===== src/Shell/Paths/Names.antt =====
-- `fsName` is a normal form of paths below the root: a list of proper elements.
use sshmux.Base.{
  ℕ, Text, true, List, [], ◌∷◌, ◌++◌, reverse, ◌==◌, text_eq, nat_eq, if◌then◌else◌, trim_prefix,
  strip, ◌≡◌, ◌≢◌, ◌⊎◌, refl, sym, ap, ◌∙◌, All, All-append, arith, append-nil, append_assoc, inl,
  inr,
}
use mathlib.Core.List.{reverse-cons, reverse-reverse}
use sshmux.Shell.Paths.{
  slash, dot, dot_dot, split, join, add_byte, go_up, clean_element, clean_elements, is_abs, clean,
  fs_name, display_path,
}

-- An element without a slash.
abbrev pub NoSlash : Text → Type 0
NoSlash = All (λ c. c ≢ slash)

-- An element of a path that `path.Clean` keeps at the root.
abbrev pub IsProper : Text → Type 0
IsProper p = (p ≢ []) × (p ≢ dot) × (p ≢ dot_dot) × NoSlash p

split-ne-nil : (s : Text) → split s ≢ []
unfolding split
split-ne-nil [] = λ h. cc
split-ne-nil (c ∷ s) = ground arith

add_byte-NoSlash :
    (c : ℕ) (parts : List Text) → parts ≢ [] → All NoSlash parts → All NoSlash (add_byte c parts)
add_byte-NoSlash c [] n h = absurd (n refl)
add_byte-NoSlash c (part ∷ parts) n h = ground arith

split-NoSlash : (s : Text) → All NoSlash (split s)
unfolding split
split-NoSlash [] = (tt, tt)
split-NoSlash (c ∷ s) = add_byte-NoSlash c (split s) (split-ne-nil s) (split-NoSlash s)

split-slash : (s : Text) → split (slash ∷ s) ≡ [] ∷ split s
unfolding split
split-slash s = ground (arith, split-ne-nil s)

split_single : (p : Text) → NoSlash p → split p ≡ p ∷ []
unfolding split
split_single [] h = refl
split_single (c ∷ p) h = ground (arith, split_single p h.1)

pub split-append-slash : (p s : Text) → NoSlash p → split (p ++ slash ∷ s) ≡ p ∷ split s
unfolding split
split-append-slash [] s h = split-slash s
split-append-slash (c ∷ p) s h = ground (arith, split-append-slash p s h.1)

-- The elements of a path are found again.
pub split-join : (p : Text) (ps : List Text) → All NoSlash (p ∷ ps) → split (join (p ∷ ps)) ≡ p ∷ ps
unfolding join
split-join p [] h = split_single p h.0
split-join p (q ∷ ps) h =
    split-append-slash p (join (q ∷ ps)) h.0 ∙ ap (λ xs. p ∷ xs) (split-join q ps h.1)

-- The elements of a path from the root, with nothing to clean.
pub elements : Text → List Text
elements name = reverse (clean_elements true [] (split (slash ∷ name)))

-- The name of the path with the given elements.
unfoldable pub render : List Text → Text
render [] = dot
render (p ∷ ps) = join (p ∷ ps)

clean_element-IsProper :
    (kept : List Text) (part : Text)
    → All IsProper kept
    → NoSlash part
    → All IsProper (clean_element true kept part)
unfolding clean_element go_up
clean_element-IsProper [] part h k = ground arith
clean_element-IsProper (p ∷ kept) part h k = ground arith

clean_elements-IsProper :
    (kept parts : List Text)
    → All IsProper kept
    → All NoSlash parts
    → All IsProper (clean_elements true kept parts)
unfolding clean_elements
clean_elements-IsProper kept [] h k = h
clean_elements-IsProper kept (part ∷ parts) h k =
    clean_elements-IsProper (clean_element true kept part) parts
      (clean_element-IsProper kept part h k.0) k.1

-- Proper elements are all kept.
clean_elements_of_IsProper :
    (kept parts : List Text)
    → All IsProper parts
    → clean_elements true kept parts ≡ reverse parts ++ kept
unfolding clean_elements clean_element
clean_elements_of_IsProper kept [] h = refl
clean_elements_of_IsProper kept (part ∷ parts) h = ground (
  arith,
  clean_elements_of_IsProper (part ∷ kept) parts h.1,
  reverse-cons part parts,
  append_assoc (reverse parts) (part ∷ []) kept,
)

All-reverse : (ps : List Text) → All IsProper ps → All IsProper (reverse ps)
All-reverse [] h = tt
All-reverse (p ∷ ps) h =
    rw reverse-cons (All-append IsProper (reverse ps) (p ∷ []) (All-reverse ps h.1) (h.0, tt))

abbrev pub AreElements : List Text → Type 0
AreElements = All IsProper

pub elements-AreElements : (name : Text) → AreElements (elements name)
unfolding elements
elements-AreElements name =
    All-reverse _
      (clean_elements-IsProper [] (split (slash ∷ name)) tt (split-NoSlash (slash ∷ name)))

pub AreElements-NoSlash : (ps : List Text) → AreElements ps → All NoSlash ps
AreElements-NoSlash [] h = tt
AreElements-NoSlash (p ∷ ps) h = (h.0.3, AreElements-NoSlash ps h.1)

pub join-ne-nil : (p : Text) (ps : List Text) → p ≢ [] → join (p ∷ ps) ≢ []
unfolding join
join-ne-nil p [] h = h
join-ne-nil [] (q ∷ ps) h = absurd (h refl)
join-ne-nil (c ∷ p) (q ∷ ps) h = λ e. cc

render_lem :
    (ps : List Text) → AreElements ps → (if join ps == [] then dot else join ps) ≡ render ps
unfolding render
render_lem [] h = unfold join text_eq in refl
render_lem (p ∷ ps) h = ground (arith, join-ne-nil p ps h.0.0)

-- `fsName` writes out the elements of the path.
pub fs_name-render : (name : Text) → fs_name name ≡ render (elements name)
unfolding fs_name clean is_abs trim_prefix strip elements nat_eq
fs_name-render name = render_lem _ (elements-AreElements name)

clean_elements_skip :
    (kept parts : List Text)
    → clean_elements true kept ([] ∷ parts) ≡ clean_elements true kept parts
unfolding clean_elements clean_element text_eq
clean_elements_skip kept parts = refl

-- The elements of a name that is written out are those that were written.
pub elements-render : (ps : List Text) → AreElements ps → elements (render ps) ≡ ps
unfolding elements render
elements-render [] h = unfold split clean_elements clean_element nat_eq text_eq in refl
elements-render (p ∷ ps) h =
    rw (split-slash, split-join p ps (AreElements-NoSlash (p ∷ ps) h))
      (rw (
        clean_elements_skip,
        clean_elements_of_IsProper [] (p ∷ ps) h,
        append-nil,
        reverse-reverse,
      ))

-- A name is not changed by `fsName` again.
pub fs_name_idem : (name : Text) → fs_name (fs_name name) ≡ fs_name name
fs_name_idem name =
    fs_name-render (fs_name name)
    ∙ ap render (ap elements (fs_name-render name) ∙ elements-render _ (elements-AreElements name))
    ∙ sym (fs_name-render name)

-- A name from `fsName` is `.` or a list of proper elements: none is empty, `.` or `..`. So it
-- stays below the root, whatever path the shell was given.
pub fs_name-AreElements : (name : Text) → (fs_name name ≡ dot) ⊎ AreElements (split (fs_name name))
fs_name-AreElements name =
    rw fs_name-render (render-AreElements (elements name) (elements-AreElements name))
  where
    render-AreElements :
        (ps : List Text) → AreElements ps → (render ps ≡ dot) ⊎ AreElements (split (render ps))
    render-AreElements [] h = inl (unfold render in refl)
    render-AreElements (p ∷ ps) h =
        inr (unfold render in rw (split-join p ps (AreElements-NoSlash (p ∷ ps) h)) h)

elements-slash : (s : Text) → elements (slash ∷ s) ≡ elements s
unfolding elements
elements-slash s = rw (split-slash (slash ∷ s), split-slash s, clean_elements_skip) refl

fs_name-slash : (s : Text) → fs_name (slash ∷ s) ≡ fs_name s
fs_name-slash s = fs_name-render (slash ∷ s) ∙ ap render (elements-slash s) ∙ sym (fs_name-render s)

fs_name_of_root : fs_name (slash ∷ []) ≡ dot
unfolding fs_name clean is_abs trim_prefix strip nat_eq text_eq split clean_elements clean_element
    join
fs_name_of_root = refl

-- The path that an error shows for a name stands for that name again.
pub fs_name-display_path : (name : Text) → fs_name (display_path (fs_name name)) ≡ fs_name name
unfolding display_path
fs_name-display_path name =
    ground (arith, fs_name-slash (fs_name name), fs_name_idem name, fs_name_of_root)
