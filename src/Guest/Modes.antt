-- ===== src/Guest/Modes.antt =====
-- `terminalModesString` of support/guest/main.go: the terminal modes of a PTY request, as a text.
use sshmux.Base.{
  ℕ, zero, suc, ◌+◌, ◌*◌, ◌-◌, ◌/◌, ◌%◌, ◌<◌, Text, List, [], ◌∷◌, ◌++◌, map, ltb, nat_eq, Map,
  lookup, get_or, if◌then◌else◌, ◌≡◌, refl, ap, ◌∙◌, arith,
}
use mathlib.Core.Logic.{∥∥₁_elim}
use mathlib.Core.List.{Perm, Permᴰ}
use sshmux.Server.Command.{join_comma}

-- `%d` of a number that is not negative, from its last digit on. The first number is fuel.
unfoldable pub decimal_on : ℕ → ℕ → Text
decimal_on zero n = []
decimal_on (suc k) n =
    let rest = decimal_on k (n / 10) in
    if ltb n 10 then (48 + n) ∷ [] else rest ++ (48 + n % 10) ∷ []

unfoldable pub decimal : ℕ → Text
unfolding decimal_on
decimal n = decimal_on (suc n) n

-- `sort.Ints`
unfoldable pub insert_key : ℕ → List ℕ → List ℕ
insert_key k [] = k ∷ []
insert_key k (j ∷ ks) = if ltb j k then j ∷ insert_key k ks else k ∷ j ∷ ks

unfoldable pub sort_keys : List ℕ → List ℕ
unfolding insert_key
sort_keys [] = []
sort_keys (k ∷ ks) = insert_key k (sort_keys ks)

-- The keys of the map, in the order in which it is listed
unfoldable pub keys : Map ℕ ℕ → List ℕ
keys [] = []
keys ((k, v) ∷ m) = k ∷ keys m

-- "%d=%d"
abbrev pub mode : Map ℕ ℕ → ℕ → Text
mode modes op = decimal op ++ b'=' ∷ decimal (get_or (lookup op modes) 0)

-- `terminalModesString`
unfoldable pub terminal_modes_string : Map ℕ ℕ → Text
unfolding sort_keys keys
terminal_modes_string modes = join_comma (map (mode modes) (sort_keys (keys modes)))

insert_key_comm :
    (a b : ℕ) (ks : List ℕ) → insert_key a (insert_key b ks) ≡ insert_key b (insert_key a ks)
unfolding insert_key
insert_key_comm a b [] = ground arith
insert_key_comm a b (k ∷ ks) = ground (arith, insert_key_comm a b ks)

-- What a text of digits stands for
pub number_from : ℕ → Text → ℕ
number_from n [] = n
number_from n (c ∷ s) = number_from (n * 10 + (c - 48)) s

number_from-snoc :
    (n : ℕ) (s : Text) (c : ℕ) → number_from n (s ++ c ∷ []) ≡ number_from n s * 10 + (c - 48)
unfolding number_from
number_from-snoc n [] c = refl
number_from-snoc n (d ∷ s) c = number_from-snoc (n * 10 + (d - 48)) s c

number_from-decimal_on : (k n : ℕ) → n < k → number_from 0 (decimal_on k n) ≡ n
unfolding decimal_on number_from
number_from-decimal_on zero n h = absurd (omega arith)
number_from-decimal_on (suc k) n h = ground (
  arith,
  number_from-snoc 0 (decimal_on k (n / 10)) (48 + n % 10),
  number_from-decimal_on k (n / 10),
)

-- The fuel of `decimal` is enough: the digits stand for the number.
pub number_from-decimal : (n : ℕ) → number_from 0 (decimal n) ≡ n
unfolding decimal
number_from-decimal n = number_from-decimal_on (suc n) n (omega arith)

sort_keys-Permᴰ : {ks js : List ℕ} → Permᴰ ks js → sort_keys ks ≡ sort_keys js
unfolding sort_keys
sort_keys-Permᴰ Permᴰ.nil = refl
sort_keys-Permᴰ (Permᴰ.cons e h) = cc (e, sort_keys-Permᴰ h)
sort_keys-Permᴰ (Permᴰ.swap {a} {b} {l} e e') = cc (insert_key_comm a b (sort_keys l), e, e')
sort_keys-Permᴰ (Permᴰ.trans h k) = sort_keys-Permᴰ h ∙ sort_keys-Permᴰ k

List-IsSet : IsSet (List ℕ)
List-IsSet = hlevel

sort_keys-Perm : {ks js : List ℕ} → Perm ks js → sort_keys ks ≡ sort_keys js
sort_keys-Perm p = ∥∥₁_elim p (List-IsSet _ _) sort_keys-Permᴰ

map_same : (f g : ℕ → Text) (ks : List ℕ) → ((k : ℕ) → f k ≡ g k) → map f ks ≡ map g ks
map_same f g [] h = refl
map_same f g (k ∷ ks) h = ground (arith, h k, map_same f g ks h)

-- The text is the same in whatever order the map is listed.
pub terminal_modes_string-Perm :
    (m m' : Map ℕ ℕ)
    → Perm (keys m) (keys m')
    → ((op : ℕ) → lookup op m ≡ lookup op m')
    → terminal_modes_string m ≡ terminal_modes_string m'
unfolding terminal_modes_string
terminal_modes_string-Perm m m' p same =
    ap (λ ks. join_comma (map (mode m) ks)) (sort_keys-Perm p)
    ∙ ap join_comma (
        map_same (mode m) (mode m') (sort_keys (keys m'))
          (λ op. ap (λ v. decimal op ++ b'=' ∷ decimal (get_or v 0)) (same op)))
