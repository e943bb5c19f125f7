-- ===== src/Chat/Disk/Lines.antt =====
-- Files that hold a name on each line, as 局域网聊天/server_tool.c writes and reads them.
use mathlib.Core.List.{append_assoc}
use learningproject.Common.{
  ℕ, ◌+◌, ◌-◌, ◌≤◌, ◌<◌, ◌≡◌, ◌≢◌, refl, sym, ap, ap₂, ◌∙◌, Bool, false, ◌||◌, List, [], ◌∷◌, ◌++◌,
  arith, inl, inr, Bool-cases, if◌then◌else◌, length,
}
use learningproject.Chat.Text.{str_eq}
use learningproject.Chat.Text.Laws.{Without, before-append, before_of_Without, str_eq_iff}
use learningproject.Chat.Disk.{fgets_from, lines_of, print_without, some_line}

-- a name on each line
unfoldable pub print_lines : List (List ℕ) → List ℕ
print_lines [] = []
print_lines (n ∷ ns) = n ++ 10 ∷ print_lines ns

-- Each name is without a newline, and fits with one into a buffer of `size` bytes.
abbrev pub AllFit : ℕ → List (List ℕ) → Type 0
AllFit size [] = Unit
AllFit size (n ∷ ns) = Without 10 n × (length n + 2 ≤ size) × AllFit size ns

-- the lines other than `victim`
pub without : List ℕ → List (List ℕ) → List (List ℕ)
without victim [] = []
without victim (n ∷ ns) = if str_eq n victim then without victim ns else n ∷ without victim ns

-- A line that fits is read whole.
pub fgets-line :
    (full room : ℕ) (n rest : List ℕ)
    → Without 10 n
    → length n + 1 ≤ room
    → fgets_from full room (n ++ 10 ∷ rest) ≡ (n ++ 10 ∷ []) ∷ fgets_from full full rest
unfolding fgets_from
fgets-line full room [] rest w h = refl
fgets-line full room (b ∷ bs) rest w h = ground (arith, fgets-line full (room - 1) bs rest w.1)

-- What was printed a name on each line is read back, if each name fits with its newline.
pub lines_of-print_lines :
    (size : ℕ) (names : List (List ℕ))
    → AllFit size names
    → lines_of size (print_lines names) ≡ names
unfolding print_lines fgets_from
lines_of-print_lines size [] h = refl
lines_of-print_lines size (n ∷ ns) h =
    rw (fgets-line (size - 1) (size - 1) n (print_lines ns) h.0 (omega (arith, h.1)))
      (ap₂ ◌∷◌ (before-append 10 n [] h.0) (lines_of-print_lines size ns h.2))

fgets-full :
    (full room : ℕ) (n rest : List ℕ)
    → Without 10 n
    → length n ≡ room
    → 0 < room
    → fgets_from full room (n ++ rest) ≡ n ∷ fgets_from full full rest
unfolding fgets_from
fgets-full full room [] rest w h p = absurd (omega arith)
fgets-full full room (b ∷ []) rest w h p = ground arith
fgets-full full room (b ∷ c ∷ bs) rest w h p =
    ground (arith, fgets-full full (room - 1) (c ∷ bs) rest w.1)

-- A name of exactly `size - 1` bytes fills the buffer, and its newline is read as an empty line.
pub lines_of_full :
    (size : ℕ) (n : List ℕ)
    → Without 10 n
    → length n + 1 ≡ size
    → 2 ≤ size
    → lines_of size (print_lines (n ∷ [])) ≡ n ∷ [] ∷ []
unfolding print_lines fgets_from
lines_of_full size n w h p =
    rw (fgets-full (size - 1) (size - 1) n (10 ∷ []) w (omega arith) (omega arith))
      (ap₂ ◌∷◌ (before_of_Without 10 n w) (ap (λ l. l ∷ []) (before-append 10 [] [] tt)))

pub print_without-lem :
    (victim : List ℕ) (ns : List (List ℕ))
    → print_without victim ns ≡ print_lines (without victim ns)
unfolding print_without print_lines without
print_without-lem victim [] = refl
print_without-lem victim (n ∷ ns) = elim (Bool-cases (str_eq n victim)) [
  | inl e ↦ rw e (print_without-lem victim ns)
  | inr e ↦ rw e (
      append_assoc n (10 ∷ []) (print_without victim ns)
      ∙ ap (λ r. n ++ 10 ∷ r) (print_without-lem victim ns))
]

pub print_lines-append :
    (xs ys : List (List ℕ)) → print_lines (xs ++ ys) ≡ print_lines xs ++ print_lines ys
unfolding print_lines
print_lines-append [] ys = refl
print_lines-append (x ∷ xs) ys =
    rw (print_lines-append xs ys) (sym (append_assoc x (10 ∷ print_lines xs) (print_lines ys)))

-- Whether a line is in the file
pub some_line-append :
    (p : List ℕ → Bool) (xs ys : List (List ℕ))
    → some_line p (xs ++ ys) ≡ (some_line p xs || some_line p ys)
unfolding some_line
some_line-append p [] ys = refl
some_line-append p (x ∷ xs) ys = ground (arith, some_line-append p xs ys)

pub some_line-without :
    (victim : List ℕ) (ns : List (List ℕ))
    → some_line (λ l. str_eq l victim) (without victim ns) ≡ false
unfolding some_line without
some_line-without victim [] = refl
some_line-without victim (n ∷ ns) = ground (arith, some_line-without victim ns)

-- Other lines stay.
pub some_line-without_ne :
    (victim other : List ℕ) (ns : List (List ℕ))
    → victim ≢ other
    → some_line (λ l. str_eq l other) (without victim ns) ≡ some_line (λ l. str_eq l other) ns
unfolding some_line without
some_line-without_ne victim other [] ne = refl
some_line-without_ne victim other (n ∷ ns) ne =
    ground (arith, some_line-without_ne victim other ns ne, str_eq_iff n victim, str_eq_iff n other)

pub AllFit-append :
    (size : ℕ) (xs ys : List (List ℕ)) → AllFit size xs → AllFit size ys → AllFit size (xs ++ ys)
AllFit-append size [] ys hx hy = hy
AllFit-append size (x ∷ xs) ys hx hy = (hx.0, hx.1, AllFit-append size xs ys hx.2 hy)

pub AllFit-without :
    (size : ℕ) (v : List ℕ) (xs : List (List ℕ)) → AllFit size xs → AllFit size (without v xs)
unfolding without
AllFit-without size v [] h = tt
AllFit-without size v (x ∷ xs) h = elim (Bool-cases (str_eq x v)) [
  | inl e ↦ rw e (AllFit-without size v xs h.2)
  | inr e ↦ rw e (h.0, h.1, AllFit-without size v xs h.2)
]
