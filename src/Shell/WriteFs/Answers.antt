-- ===== src/Shell/WriteFs/Answers.antt =====
-- Every operation of the file system answers as its table of entries says.
use sshmux.Base.{
  Text, true, false, ◌||◌, [], text_eq, ok, err, is_ok, if◌then◌else◌, valid_utf8, ◌≡◌, inl, inr,
  arith, Result-cases,
}
use sshmux.Shell.Paths.{fs_name}
use sshmux.Shell.Paths.Names.{fs_name_idem}
use sshmux.Shell.WriteFs.{
  WriteFs, not_exist, invalid, missing, stat, is_set, read_node, read_file, base_read_dir, read_dir,
}
use sshmux.Shell.WriteFs.View.{kind, contents, stat-kind, read_file-contents}
use sshmux.Shell.WriteFs.Operations.{rmdir, rename, rename_target, touch}
use sshmux.Shell.WriteFs.Space.{
  Op, write_file, remove_file, make_dir, remove_dir, rename_file, touch_file, perform, IsGentle,
}
use sshmux.Shell.WriteFs.Refinement.{rename_target-moved_to}
use sshmux.Shell.WriteFs.Table.{look, held, look-entry}
use sshmux.Shell.WriteFs.Guards.{
  is_file, is_absent, lacks_space, is_occupied, is_unreadable, can_hold, allowed, Answers,
  look-is_folder, look-is_file, look-is_absent, remove-Answers, mkdir-Answers, HasRoot,
  write-Answers,
}

rmdir-Answers :
    (w : WriteFs) (path : Text)
    → Answers
        (rmdir w path)
        (allowed (remove_dir path) (look w))
        false
        (is_occupied w (remove_dir path))
        false
unfolding rmdir allowed kind read_dir base_read_dir is_occupied
rmdir-Answers w path =
    let folded = look-is_folder w path in
    let seen = stat-kind w (fs_name path) in
    record {
      succeeds = ground (arith, folded, seen, fs_name_idem path);
      fails = λ e b h. ground (arith, b, h, folded, seen, fs_name_idem path);
    }

look-is_file_of_read :
    (w : WriteFs) (path : Text)
    → is_set (fs_name path) w.dirs ≡ false
    → is_file (look w (fs_name path)) ≡ is_ok (read_file w (fs_name path))
unfolding kind contents read_node
look-is_file_of_read w path plain =
    ground
      (arith, look-entry w (fs_name path), fs_name_idem path, read_file-contents w (fs_name path))

held_of_read :
    (w : WriteFs) (path content : Text)
    → is_set (fs_name path) w.dirs ≡ false
    → read_file w (fs_name path) ≡ ok content
    → held (look w (fs_name path)) ≡ content
unfolding kind contents read_node
held_of_read w path content plain h =
    ground
      (arith, look-entry w (fs_name path), fs_name_idem path, read_file-contents w (fs_name path))

rename-Answers :
    (w : WriteFs) (old_path new_path : Text)
    → HasRoot w
    → is_set (fs_name old_path) w.dirs ≡ false
    → Answers
        (rename w old_path new_path)
        (allowed (rename_file old_path new_path) (look w))
        (lacks_space w (rename_file old_path new_path))
        false
        false
unfolding rename allowed lacks_space
rename-Answers w old_path new_path root plain =
    let target = rename_target w (fs_name old_path) (fs_name new_path) in
    let file = look-is_file_of_read w old_path plain in
    let moved = rename_target-moved_to w old_path new_path in
    elim (Result-cases (read_file w (fs_name old_path))) [
      | inl (e', x) ↦ record {
        succeeds = ground (arith, x, file);
        fails = λ e b h. absurd (ground (arith, b, x, file));
      }
      | inr (content, x) ↦
          let answers = write-Answers w target content false root in
          let kept = held_of_read w old_path content plain x in
          record {
            succeeds = ground (arith, x, file, moved, kept, answers.succeeds);
            fails = λ e b h. ground (arith, b, h, x, file, moved, kept, answers.fails e);
          }
    ]

can_hold-fs_name :
    (w : WriteFs) (path : Text) → can_hold (look w) (fs_name path) ≡ can_hold (look w) path
can_hold-fs_name w path =
    ground (arith, fs_name_idem path, look-is_folder w path, look-is_folder w (fs_name path))

-- What `stat` says of a name where nothing stands
stat_of_absent :
    (w : WriteFs) (path : Text)
    → is_absent (look w path) ≡ true
    → stat w (fs_name path)
      ≡ err (
          if is_set (fs_name path) w.deleted || valid_utf8 (fs_name path)
          then not_exist (fs_name path)
          else invalid (fs_name path))
unfolding kind missing
stat_of_absent w path h =
    ground (arith, look-is_absent w path, stat-kind w (fs_name path), fs_name_idem path)

touch-Answers :
    (w : WriteFs) (path : Text)
    → HasRoot w
    → Answers
        (touch w path)
        (allowed (touch_file path) (look w))
        (lacks_space w (touch_file path))
        false
        (is_unreadable w (touch_file path))
unfolding touch allowed lacks_space is_unreadable
touch-Answers w path root =
    let answers = write-Answers w (fs_name path) [] false root in
    let file = look-is_file w path in
    let absence = look-is_absent w path in
    let gone = stat_of_absent w path in
    let seen = stat-kind w (fs_name path) in
    let holds = can_hold-fs_name w path in
    record {
      succeeds =
          ground (arith, answers.succeeds, file, absence, gone, seen, holds, fs_name_idem path);
      fails = λ e b h.
          ground
            (arith, b, h, answers.fails e, file, absence, gone, seen, holds, fs_name_idem path);
    }

-- Every operation succeeds exactly where the table allows it and none of three reasons to refuse it
-- holds: what it stores, with the files that were written under other names, exceeds the limit; the
-- directory that it removes has entries; or the name that it touches is neither there nor marked as
-- deleted, and is not valid UTF-8. Where the table allows an operation that fails, the error is the one
-- of a reason that holds. A rename of a made directory is left out, and the root must not be deleted.
pub perform-Answers :
    (w : WriteFs) (op : Op)
    → HasRoot w
    → IsGentle w op
    → Answers
        (perform w op)
        (allowed op (look w))
        (lacks_space w op)
        (is_occupied w op)
        (is_unreadable w op)
unfolding allowed lacks_space is_occupied is_unreadable
perform-Answers w (write_file path content append) root gentle =
    write-Answers w path content append root
perform-Answers w (remove_file path) root gentle = remove-Answers w path
perform-Answers w (make_dir path) root gentle = mkdir-Answers w path
perform-Answers w (remove_dir path) root gentle = rmdir-Answers w path
perform-Answers w (rename_file old_path new_path) root gentle =
    rename-Answers w old_path new_path root gentle
perform-Answers w (touch_file path) root gentle = touch-Answers w path root
