-- ===== src/Shell/WriteFs/Listing.antt =====
-- `ReadDir`: the entries of a directory are the names that can be opened in it.
use sshmux.Base.{
  Text, false, not, ◌&&◌, ◌||◌, Option, List, [], text_eq, Result, ok, err, is_ok, is_some, lookup,
  ◌≡◌, ◌∙◌, arith,
}
use sshmux.Shell.Paths.{join_path, fs_name}
use sshmux.Shell.Paths.Names.{IsProper, fs_name_idem}
use sshmux.Shell.Paths.Children.{IsName, join_path-ne, join_path-IsName}
use sshmux.Shell.WriteFs.{
  DirEntry, Node, WriteFs, FsError, is_set, base_read_dir, seen_base, seen_files, seen_dirs,
  sort_entries, read_dir, stat,
}
use sshmux.Shell.WriteFs.View.{kind, stat-kind}
use sshmux.Shell.WriteFs.Seen.{
  is_listed, is_listed-sort_entries, has-seen_base, IsKeyed, has-seen_files, has-seen_dirs,
  Named-seen_base, Named-seen_files, Named-seen_dirs,
}

-- What the read-only file system lists in a directory is what it can open there, and it opens nothing
-- below what is not a directory.
abbrev pub IsListing : (Text → Option Node) → Type 0
IsListing base_fs =
    (d n : Text)
    → IsName d
    → IsProper n
    → is_some (base_fs (join_path d n))
      ≡ elim (base_read_dir base_fs d) [ ok entries ↦ is_listed n entries | err e ↦ false ]

-- The entries that `ReadDir` gives, from those of the read-only file system
abbrev all_entries : WriteFs → Text → List DirEntry → List DirEntry
all_entries w d es =
    sort_entries
      (seen_dirs w.deleted d w.dirs (seen_files w.deleted d w.files (seen_base w.deleted d es [])))

abbrev entries_of : Result FsError (List DirEntry) → List DirEntry
entries_of (ok es) = es
entries_of (err e) = []

is_listed-all_entries :
    (w : WriteFs) (d n : Text) (es : List DirEntry)
    → IsKeyed w
    → IsName d
    → IsProper n
    → let c = join_path d n in
      is_listed n (all_entries w d es) ≡ (
        not (is_set c w.deleted)
        && (is_listed n es || is_some (lookup c w.files) || is_set c w.dirs))
is_listed-all_entries w d n es keyed hd hn =
    let base_seen = seen_base w.deleted d es [] in
    let files_seen = seen_files w.deleted d w.files base_seen in
    is_listed-sort_entries n _ (
      Named-seen_dirs w.deleted d w.dirs files_seen
        (Named-seen_files w.deleted d w.files base_seen (Named-seen_base w.deleted d es [] tt)))
    ∙ has-seen_dirs w.deleted d n w.dirs files_seen keyed.dir_names hd hn (join_path-ne d n hd hn)
    ∙ unfold lookup in
      ground (
        arith,
        has-seen_files w.deleted d n w.files base_seen keyed.file_names hd hn,
        has-seen_base w.deleted d n es [],
      )

-- The entries of a directory are exactly the names that can be opened in it.
pub read_dir-is_listed :
    (w : WriteFs) (path n : Text) (entries : List DirEntry)
    → IsKeyed w
    → IsListing w.base_fs
    → IsProper n
    → read_dir w path ≡ ok entries
    → is_listed n entries ≡ is_ok (stat w (join_path (fs_name path) n))
unfolding read_dir kind is_listed
read_dir-is_listed w path n entries keyed listing hn h =
    let d = fs_name path in
    let hd = fs_name_idem path in
    let c = join_path d n in
    ground (
      arith,
      h,
      listing d n hd hn,
      stat-kind w c,
      join_path-IsName d n hd hn,
      is_listed-all_entries w d n [] keyed hd hn,
      is_listed-all_entries w d n (entries_of (base_read_dir w.base_fs d)) keyed hd hn,
    )
