-- ===== src/Shell/WriteFs/Seen.antt =====
-- The map of `ReadDir`, after each of its three loops, and the entries in their order.
use sshmux.Base.{
  Text, Bool, true, false, not, ◌&&◌, ◌||◌, List, [], ◌∷◌, ◌==◌, text_eq, is_some, if◌then◌else◌,
  Map, lookup, insert, erase, lookup-insert, All, ◌≡◌, ◌≢◌, refl, ap, ◌∙◌, arith,
}
use sshmux.Shell.Paths.{dir, base, join_path}
use sshmux.Shell.Paths.Names.{IsProper}
use sshmux.Shell.Paths.Children.{IsName, child_iff}
use sshmux.Shell.WriteFs.{
  DirEntry, WriteFs, is_set, seen_base, seen_files, seen_dirs, insert_sorted, sort_entries,
}

-- Whether an entry has the name
unfoldable pub is_listed : Text → List DirEntry → Bool
is_listed n [] = false
is_listed n (e ∷ entries) = n == e.name || is_listed n entries

abbrev has : Text → Map Text DirEntry → Bool
has n seen = is_some (lookup n seen)

-- Each entry stands under its own name.
abbrev Named : Map Text DirEntry → Type 0
Named seen = All (λ p. p.0 ≡ p.1.name) seen

is_listed-insert_sorted :
    (n : Text) (e : DirEntry) (es : List DirEntry)
    → is_listed n (insert_sorted e es) ≡ (n == e.name || is_listed n es)
unfolding is_listed insert_sorted
is_listed-insert_sorted n e [] = refl
is_listed-insert_sorted n e (f ∷ fs) = ground (arith, is_listed-insert_sorted n e fs)

pub is_listed-sort_entries :
    (n : Text) (seen : Map Text DirEntry)
    → Named seen
    → is_listed n (sort_entries seen) ≡ has n seen
unfolding sort_entries is_listed lookup
is_listed-sort_entries n [] h = refl
is_listed-sort_entries n ((k, e) ∷ seen) (h, hs) =
    ground
      (arith, h, is_listed-insert_sorted n e (sort_entries seen), is_listed-sort_entries n seen hs)

Named-erase : (k : Text) (seen : Map Text DirEntry) → Named seen → Named (erase k seen)
unfolding erase
Named-erase k [] h = tt
Named-erase k ((j, e) ∷ seen) (h, hs) = ground (arith, h, Named-erase k seen hs)

Named-insert : (e : DirEntry) (seen : Map Text DirEntry) → Named seen → Named (insert e.name e seen)
unfolding insert
Named-insert e seen h = (refl, Named-erase e.name seen h)

has-insert :
    (n k : Text) (e : DirEntry) (seen : Map Text DirEntry)
    → has n (insert k e seen) ≡ (n == k || has n seen)
has-insert n k e seen = ground (arith, lookup-insert n k e seen)

has_if :
    (n : Text) (b : Bool) (x y : Map Text DirEntry)
    → has n (if b then x else y) ≡ (if b then has n x else has n y)
has_if n true x y = refl
has_if n false x y = refl

pub has-seen_base :
    (del : Map Text Bool) (d n : Text) (es : List DirEntry) (seen : Map Text DirEntry)
    → has n (seen_base del d es seen)
      ≡ (has n seen || (is_listed n es && not (is_set (join_path d n) del)))
unfolding seen_base is_listed
has-seen_base del d n [] seen = ground arith
has-seen_base del d n (e ∷ es) seen =
    let gone = is_set (join_path d e.name) del in
    has-seen_base del d n es (if gone then seen else insert e.name e seen)
    ∙ ap (λ b. b || (is_listed n es && not (is_set (join_path d n) del)))
        (has_if n gone seen (insert e.name e seen))
    ∙ ground (arith, has-insert n e.name e seen)

-- The files and the directories that were made stand under names that `fsName` gives, and a directory
-- that is in its map is made.
pub record IsKeyed (w : WriteFs) : Type 0 where
  pub file_names : All (λ p. IsName p.0) w.files
  pub dir_names : All (λ p. IsName p.0 × (p.1 ≡ true)) w.dirs

pub has-seen_files :
    (del : Map Text Bool) (d n : Text) (files : Map Text Text) (seen : Map Text DirEntry)
    → All (λ p. IsName p.0) files
    → IsName d
    → IsProper n
    → has n (seen_files del d files seen)
      ≡ (has n seen || (is_some (lookup (join_path d n) files) && not (is_set (join_path d n) del)))
unfolding seen_files lookup
has-seen_files del d n [] seen names hd hn = ground arith
has-seen_files del d n ((path, content) ∷ files) seen (name, names) hd hn =
    let here = dir path == d && not (is_set path del) in
    let with_it = insert (base path) (record { name = base path; is_dir = false }) seen in
    has-seen_files del d n files (if here then with_it else seen) names hd hn
    ∙ ap (λ b. b || (is_some (lookup (join_path d n) files) && not (is_set (join_path d n) del)))
        (has_if n here with_it seen)
    ∙ ground (
      arith,
      has-insert n (base path) (record { name = base path; is_dir = false }) seen,
      child_iff path d n name hd hn,
    )

pub has-seen_dirs :
    (del : Map Text Bool) (d n : Text) (dirs : Map Text Bool) (seen : Map Text DirEntry)
    → All (λ p. IsName p.0 × (p.1 ≡ true)) dirs
    → IsName d
    → IsProper n
    → join_path d n ≢ d
    → has n (seen_dirs del d dirs seen)
      ≡ (has n seen || (is_set (join_path d n) dirs && not (is_set (join_path d n) del)))
unfolding seen_dirs lookup is_set
has-seen_dirs del d n [] seen names hd hn other = ground arith
has-seen_dirs del d n ((path, made) ∷ dirs) seen (name, names) hd hn other =
    let here = not (path == d) && dir path == d && not (is_set path del) in
    let with_it = insert (base path) (record { name = base path; is_dir = true }) seen in
    has-seen_dirs del d n dirs (if here then with_it else seen) names hd hn other
    ∙ ap (λ b. b || (is_set (join_path d n) dirs && not (is_set (join_path d n) del)))
        (has_if n here with_it seen)
    ∙ ground (
      arith,
      name.1,
      has-insert n (base path) (record { name = base path; is_dir = true }) seen,
      child_iff path d n name.0 hd hn,
    )

Named-if :
    (b : Bool) (e : DirEntry) (seen : Map Text DirEntry)
    → Named seen
    → Named (if b then insert e.name e seen else seen)
Named-if true e seen h = Named-insert e seen h
Named-if false e seen h = h

pub Named-seen_base :
    (del : Map Text Bool) (d : Text) (es : List DirEntry) (seen : Map Text DirEntry)
    → Named seen
    → Named (seen_base del d es seen)
unfolding seen_base
Named-seen_base del d [] seen h = h
Named-seen_base del d (e ∷ es) seen h =
    Named-seen_base del d es _
      (elim (is_set (join_path d e.name) del)
        as (λ b. Named (if b then seen else insert e.name e seen)) [
          | true ↦ h
          | false ↦ Named-insert e seen h
        ])

pub Named-seen_files :
    (del : Map Text Bool) (d : Text) (files : Map Text Text) (seen : Map Text DirEntry)
    → Named seen
    → Named (seen_files del d files seen)
unfolding seen_files
Named-seen_files del d [] seen h = h
Named-seen_files del d ((path, content) ∷ files) seen h = Named-seen_files del d files _ (
    Named-if (dir path == d && not (is_set path del)) (record { name = base path; is_dir = false })
      seen h)

pub Named-seen_dirs :
    (del : Map Text Bool) (d : Text) (dirs : Map Text Bool) (seen : Map Text DirEntry)
    → Named seen
    → Named (seen_dirs del d dirs seen)
unfolding seen_dirs
Named-seen_dirs del d [] seen h = h
Named-seen_dirs del d ((path, made) ∷ dirs) seen h = Named-seen_dirs del d dirs _ (
    Named-if (not (path == d) && dir path == d && not (is_set path del))
      (record { name = base path; is_dir = true }) seen h)
