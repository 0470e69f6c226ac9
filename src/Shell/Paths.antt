-- ===== src/Shell/Paths.antt =====
-- The functions of package path that the shell calls, and `fsName` and `displayPath` of
-- support/hello-world-shell/fs.go.
pub mod Names
pub mod Parents
pub mod Bases
pub mod Children
use sshmux.Base.{
  ℕ, Text, Bool, true, false, ◌||◌, List, [], ◌∷◌, ◌++◌, reverse, ◌==◌, text_eq, nat_eq,
  if◌then◌else◌, trim_prefix,
}

abbrev pub slash : ℕ
slash = b'/'

-- `.`
abbrev pub dot : Text
dot = b'.' ∷ []

abbrev pub dot_dot : Text
dot_dot = b'.' ∷ b'.' ∷ []

-- Puts a byte before the first part; a slash begins a part of its own.
abbrev pub add_byte : ℕ → List Text → List Text
add_byte c [] = (c ∷ []) ∷ []
add_byte c (part ∷ parts) = if c == slash then [] ∷ part ∷ parts else (c ∷ part) ∷ parts

-- The elements of a path: the parts between the slashes.
unfoldable pub split : Text → List Text
split [] = [] ∷ []
split (c ∷ s) = add_byte c (split s)

-- The elements with a slash between each two.
unfoldable pub join : List Text → Text
join [] = []
join (p ∷ []) = p
join (p ∷ q ∷ ps) = p ++ slash ∷ join (q ∷ ps)

-- `..` takes the element before it away. At the root there is none to take.
unfoldable pub go_up : Bool → List Text → List Text
go_up rooted [] = if rooted then [] else dot_dot ∷ []
go_up rooted (p ∷ kept) = if p == dot_dot then dot_dot ∷ p ∷ kept else kept

-- One element of `path.Clean`. The elements that are kept stand in reverse order; empty elements
-- and `.` go.
unfoldable pub clean_element : Bool → List Text → Text → List Text
clean_element rooted kept part =
    if part == [] || part == dot
    then kept
    else if part == dot_dot
    then go_up rooted kept
    else part ∷ kept

unfoldable pub clean_elements : Bool → List Text → List Text → List Text
clean_elements rooted kept [] = kept
clean_elements rooted kept (part ∷ parts) =
    clean_elements rooted (clean_element rooted kept part) parts

-- `path.IsAbs`
unfoldable pub is_abs : Text → Bool
is_abs [] = false
is_abs (c ∷ s) = c == slash

-- `path.Clean`
unfoldable pub clean : Text → Text
clean s =
    let kept = join (reverse (clean_elements (is_abs s) [] (split s))) in
    if is_abs s then slash ∷ kept else if kept == [] then dot else kept

-- What stands before the first slash, and what begins with it.
unfoldable pub before_slash : Text → Text
before_slash [] = []
before_slash (c ∷ s) = if c == slash then [] else c ∷ before_slash s

unfoldable pub from_slash : Text → Text
from_slash [] = []
from_slash (c ∷ s) = if c == slash then c ∷ s else from_slash s

-- `path.Dir`: the path up to its last slash, cleaned.
unfoldable pub dir : Text → Text
dir s = clean (reverse (from_slash (reverse s)))

-- Drops slashes at the front: of a reversed path, those at its end.
unfoldable pub drop_slashes : Text → Text
drop_slashes [] = []
drop_slashes (c ∷ s) = if c == slash then drop_slashes s else c ∷ s

-- `path.Base`
unfoldable pub base : Text → Text
base [] = dot
base (c ∷ s) =
    let name = reverse (before_slash (drop_slashes (reverse (c ∷ s)))) in
    if name == [] then slash ∷ [] else name

-- `path.Join(a, b)`
unfoldable pub join_path : Text → Text → Text
join_path [] [] = []
join_path [] (c ∷ b) = clean (c ∷ b)
join_path (c ∷ a) [] = clean (c ∷ a)
join_path (c ∷ a) (d ∷ b) = clean (c ∷ a ++ slash ∷ d ∷ b)

-- `fsName`
unfoldable pub fs_name : Text → Text
fs_name name =
    let rest = trim_prefix (clean (slash ∷ name)) (slash ∷ []) in if rest == [] then dot else rest

-- `displayPath`
unfoldable pub display_path : Text → Text
display_path name = if name == dot then slash ∷ [] else slash ∷ name
