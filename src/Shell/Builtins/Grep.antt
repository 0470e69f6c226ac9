-- ===== src/Shell/Builtins/Grep.antt =====
-- The lines that `grep` prints.
use sshmux.Base.{
  ℕ, Text, Bool, true, false, List, [], ◌∷◌, ◌++◌, nat_eq, if◌then◌else◌, has_infix, All, ◌≡◌, ◌≢◌,
  refl, arith, ap, ◌∙◌, append_assoc,
}
use sshmux.Shell.Ran.{newline}
use sshmux.Shell.Reading.{add_to_lines, lines, matching_lines, grep_text}

abbrev NoNewline : Text → Type 0
NoNewline l = All (λ c. c ≢ 10) l

lines-ne-nil : (s : Text) → lines s ≢ []
unfolding lines nat_eq
lines-ne-nil [] = ground arith
lines-ne-nil (c ∷ s) = ground (arith, lines-ne-nil s)

add_to_lines-NoNewline :
    (c : ℕ) (ls : List Text) → ls ≢ [] → All NoNewline ls → All NoNewline (add_to_lines c ls)
add_to_lines-NoNewline c [] ne h = absurd (ne refl)
add_to_lines-NoNewline c (l ∷ ls) ne h = ground arith

lines-NoNewline : (s : Text) → All NoNewline (lines s)
unfolding lines
lines-NoNewline [] = (tt, tt)
lines-NoNewline (c ∷ s) = add_to_lines-NoNewline c (lines s) (lines-ne-nil s) (lines-NoNewline s)

lines-append : (l s : Text) → NoNewline l → lines (l ++ 10 ∷ s) ≡ l ∷ lines s
unfolding lines
lines-append [] s h = ground (arith, lines-ne-nil s)
lines-append (c ∷ l) s h = ground (arith, lines-append l s)

-- The lines that contain the pattern
pub matching : Text → List Text → List Text
matching pattern [] = []
matching pattern (l ∷ ls) =
    let rest = matching pattern ls in if has_infix l pattern then l ∷ rest else rest

lines_chosen :
    (b : Bool) (l rest : Text) (ls : List Text)
    → NoNewline l
    → lines rest ≡ ls ++ [] ∷ []
    → lines (if b then l ++ newline ++ rest else rest) ≡ (if b then l ∷ ls else ls) ++ [] ∷ []
lines_chosen true l rest ls h e =
    ap lines (append_assoc l newline rest) ∙ lines-append l rest h ∙ ap (λ xs. l ∷ xs) e
lines_chosen false l rest ls h e = e

lines-matching_lines :
    (pattern : Text) (ls : List Text)
    → All NoNewline ls
    → lines (matching_lines pattern ls) ≡ matching pattern ls ++ [] ∷ []
unfolding matching_lines matching
lines-matching_lines pattern [] h = unfold lines in refl
lines-matching_lines pattern (l ∷ ls) (h, hs) =
    lines_chosen (has_infix l pattern) l (matching_lines pattern ls) (matching pattern ls) h
      (lines-matching_lines pattern ls hs)

-- What `grep` prints, read as lines again, is the lines of the text that contain the pattern, each
-- once for each time that it stands there and in their order, with the empty rest behind the last
-- newline.
pub lines-grep_text :
    (pattern text : Text)
    → lines (grep_text pattern text) ≡ matching pattern (lines text) ++ [] ∷ []
unfolding grep_text
lines-grep_text pattern text = lines-matching_lines pattern (lines text) (lines-NoNewline text)
