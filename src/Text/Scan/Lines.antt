-- ===== src/Text/Scan/Lines.antt =====
-- `bufio.Scanner` against a plain split at the newlines, and the bound on what it finds.
use tilt_common.Base.{
  ℕ, suc, ◌<◌, ◌≤◌, Bool-cases, inl, inr, ◌≡◌, refl, sym, ap, ◌∙◌, Bool, true, false, List, [], ◌∷◌,
  ◌++◌, ◌==◌, leb, arith, if◌then◌else◌, Bytes, length, length-append, append-nil, append_assoc,
}
use tilt_common.Text.Scan.{drop_cr, last_line, last_size, scan_from, scan_lines}

-- Text that is put before the first of the segments.
abbrev pub before : Bytes → List Bytes → List Bytes
before s [] = s ∷ []
before s (l ∷ ls) = (s ++ l) ∷ ls

-- The text between the newlines.
unfoldable pub segments : Bytes → List Bytes
segments [] = [] ∷ []
segments (c ∷ s) = let rest = segments s in if c == b'\n' then [] ∷ rest else before (c ∷ []) rest

-- The segments as lines, up to the first that does not fit; what follows the last newline is a line
-- if it is not empty, and fits if it is shorter than `last`.
unfoldable pub fitting : ℕ → ℕ → List Bytes → List Bytes × Bool
fitting size last [] = ([], false)
fitting size last (l ∷ []) = if leb last (length l) then ([], true) else (last_line l, false)
fitting size last (l ∷ m ∷ ls) =
    let rest = fitting size last (m ∷ ls) in
    if leb size (length l) then ([], true) else (drop_cr l ∷ rest.0, rest.1)

before-before : (s t : Bytes) (ls : List Bytes) → before s (before t ls) ≡ before (s ++ t) ls
before-before s t [] = refl
before-before s t (l ∷ ls) = ap (λ m. m ∷ ls) (sym (append_assoc s t l))

before-nil : (s : Bytes) → before [] (segments s) ≡ segments s
unfolding segments
before-nil [] = refl
before-nil (c ∷ s) = by_first (c == b'\n') (segments s)
  where
    by_first :
        (b : Bool) (ls : List Bytes)
        → before [] (if b then [] ∷ ls else before (c ∷ []) ls)
          ≡ (if b then [] ∷ ls else before (c ∷ []) ls)
    by_first true ls = refl
    by_first false [] = refl
    by_first false (l ∷ ls) = refl

leb-append :
    (size : ℕ) (line l : Bytes)
    → leb size (length line) ≡ true
    → leb size (length (line ++ l)) ≡ true
leb-append size line l h = ground (arith, length-append line l)

leb-append-last :
    (size last c : ℕ) (line l : Bytes)
    → last ≤ suc size
    → leb size (length line) ≡ true
    → leb last (length (line ++ c ∷ l)) ≡ true
leb-append-last size last c line l k h = ground (arith, length-append line (c ∷ l))

-- A line that is too long already is too long with what follows it.
fitting-char :
    (size last c : ℕ) (line : Bytes) (ls : List Bytes)
    → last ≤ suc size
    → leb size (length line) ≡ true
    → fitting size last (before line (before (c ∷ []) ls)) ≡ ([], true)
unfolding fitting
fitting-char size last c line [] k h = rw (leb-append-last size last c line [] k h)
fitting-char size last c line (l ∷ []) k h = rw (leb-append-last size last c line l k h)
fitting-char size last c line (l ∷ m ∷ ls) k h = rw (leb-append size line (c ∷ l) h)

-- One line, and what follows it.
abbrev then_lines : Bool → Bytes → List Bytes × Bool → List Bytes × Bool
then_lines too_long l rest = if too_long then ([], true) else (drop_cr l ∷ rest.0, rest.1)

abbrev last_step : Bool → Bytes → List Bytes × Bool
last_step too_long l = if too_long then ([], true) else (last_line l, false)

fitting-step :
    (size last : ℕ) (l : Bytes) (ls : List Bytes)
    → fitting size last (l ∷ before [] ls)
      ≡ then_lines (leb size (length l)) l (fitting size last (before [] ls))
unfolding fitting
fitting-step size last l [] = refl
fitting-step size last l (m ∷ ls) = refl

fitting-newline :
    (size last : ℕ) (line s : Bytes)
    → fitting size last (before line ([] ∷ segments s))
      ≡ then_lines (leb size (length line)) line (fitting size last (before [] (segments s)))
fitting-newline size last line s =
    ap (λ ls. fitting size last ((line ++ []) ∷ ls)) (sym (before-nil s))
    ∙ ap (λ l. fitting size last (l ∷ before [] (segments s))) (append-nil line)
    ∙ fitting-step size last line (segments s)

-- One character, if the buffer is full.
full_step :
    (size last c : ℕ) (line s : Bytes) (b : Bool)
    → last ≤ suc size
    → leb size (length line) ≡ true
    → fitting size last (before line (if b then [] ∷ segments s else before (c ∷ []) (segments s)))
      ≡ ([], true)
full_step size last c line s true k h =
    fitting-newline size last line s
    ∙ ap (λ b. then_lines b line (fitting size last (before [] (segments s)))) h
full_step size last c line s false k h = fitting-char size last c line (segments s) k h

-- One character, if the buffer is not full.
scan_step :
    (size last c : ℕ) (line s : Bytes) (b : Bool)
    → leb size (length line) ≡ false
    → scan_from size last [] s ≡ fitting size last (before [] (segments s))
    → scan_from size last (line ++ c ∷ []) s
      ≡ fitting size last (before (line ++ c ∷ []) (segments s))
    → (if b
        then (drop_cr line ∷ (scan_from size last [] s).0, (scan_from size last [] s).1)
        else scan_from size last (line ++ c ∷ []) s)
      ≡ fitting size last
          (before line (if b then [] ∷ segments s else before (c ∷ []) (segments s)))
scan_step size last c line s true h p q =
    ap (λ r. then_lines false line r) p
    ∙ ap (λ b. then_lines b line (fitting size last (before [] (segments s)))) (sym h)
    ∙ sym (fitting-newline size last line s)
scan_step size last c line s false h p q =
    q ∙ ap (fitting size last) (sym (before-before line (c ∷ []) (segments s)))

scan_from-fitting :
    (size last : ℕ) (line s : Bytes)
    → last ≤ suc size
    → scan_from size last line s ≡ fitting size last (before line (segments s))
unfolding scan_from segments fitting
scan_from-fitting size last line [] k = ap (λ l. fitting size last (l ∷ [])) (sym (append-nil line))
scan_from-fitting size last line (c ∷ s) k =
    let ended = scan_from-fitting size last [] s k in
    let longer = scan_from-fitting size last (line ++ c ∷ []) s k in
    elim (Bool-cases (leb size (length line))) [
      | inl h ↦ rw h (sym (full_step size last c line s (c == b'\n') k h))
      | inr h ↦ rw h (scan_step size last c line s (c == b'\n') h ended longer)
    ]

last_size-bound : (together : Bool) (size : ℕ) → last_size together size ≤ suc size
last_size-bound true size = omega arith
last_size-bound false size = omega arith

-- The scanner finds the lines of the text up to the first that does not fit into its buffer, and it
-- gives up exactly there: it agrees with splitting the whole text at the newlines first.
scan_lines-fitting :
    (together : Bool) (size : ℕ) (s : Bytes)
    → scan_lines together size s ≡ fitting size (last_size together size) (segments s)
unfolding scan_lines
scan_lines-fitting together size s =
    let last = last_size together size in
    scan_from-fitting size last [] s (last_size-bound together size)
    ∙ ap (fitting size last) (before-nil s)

-- Each segment is shorter than the buffer, the last one than `last`.
unfoldable pub AllFit : ℕ → ℕ → List Bytes → Type 0
AllFit size last [] = Unit
AllFit size last (l ∷ []) = length l < last
AllFit size last (l ∷ m ∷ ls) = (length l < size) × AllFit size last (m ∷ ls)

-- The segments as lines, whatever their length.
unfoldable pub lines_of : List Bytes → List Bytes
lines_of [] = []
lines_of (l ∷ []) = last_line l
lines_of (l ∷ m ∷ ls) = drop_cr l ∷ lines_of (m ∷ ls)

-- Where nothing is cut off, all segments fit, and their lines are all found.
abbrev IsCut : ℕ → ℕ → List Bytes → List Bytes × Bool → Type 0
IsCut size last ls (found, too_long) =
    too_long ≡ false → AllFit size last ls × (found ≡ lines_of ls)

fitting-IsCut : (size last : ℕ) (ls : List Bytes) → IsCut size last ls (fitting size last ls)
unfolding fitting lines_of AllFit
fitting-IsCut size last [] = λ h. (tt, refl)
fitting-IsCut size last (l ∷ []) = by_length (leb last (length l)) refl
  where
    by_length : (b : Bool) → leb last (length l) ≡ b → IsCut size last (l ∷ []) (last_step b l)
    by_length true p h = cc
    by_length false p h = (ground arith, refl)
fitting-IsCut size last (l ∷ m ∷ ls) =
    by_length (leb size (length l)) refl (fitting size last (m ∷ ls))
      (fitting-IsCut size last (m ∷ ls))
  where
    by_length :
        (b : Bool)
        → leb size (length l) ≡ b
        → (rest : List Bytes × Bool) → IsCut size last (m ∷ ls) rest
        → IsCut size last (l ∷ m ∷ ls) (then_lines b l rest)
    by_length true p rest k h = cc
    by_length false p rest k h =
        let (short, found) = k h in ((ground arith, short), ap (λ r. drop_cr l ∷ r) found)

pub scan_lines-lines_of :
    (together : Bool) (size : ℕ) (s : Bytes)
    → (scan_lines together size s).1 ≡ false
    → AllFit size (last_size together size) (segments s)
      × ((scan_lines together size s).0 ≡ lines_of (segments s))
scan_lines-lines_of together size s h =
    let e = scan_lines-fitting together size s in
    let (short, found) =
      fitting-IsCut size (last_size together size) (segments s) (sym (ap (λ r. r.1) e) ∙ h) in
    (short, ap (λ r. r.0) e ∙ found)
