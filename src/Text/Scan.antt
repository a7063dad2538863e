-- ===== src/Text/Scan.antt =====
-- `bufio.Scanner` over lines, with a buffer of a given size.
pub mod Lines
use tilt_common.Base.{
  ℕ, ◌*◌, ◌≡◌, refl, Bool, true, false, List, [], ◌∷◌, ◌++◌, ◌==◌, leb, if◌then◌else◌, Bytes, codes,
  length, suc,
}

-- A line without the carriage return that it may end in.
unfoldable pub drop_cr : Bytes → Bytes
drop_cr [] = []
drop_cr (c ∷ []) = if c == b'\r' then [] else c ∷ []
drop_cr (c ∷ d ∷ s) = c ∷ drop_cr (d ∷ s)

abbrev last_line : Bytes → List Bytes
last_line [] = []
last_line (c ∷ s) = drop_cr (c ∷ s) ∷ []

-- The length from which a last line without a newline is too long. Where the read that fills the
-- buffer also reports the end, the scanner does not have to read on, and a full buffer is a line.
abbrev pub last_size : Bool → ℕ → ℕ
last_size together size = if together then suc size else size

-- The lines that are found, and whether the scanner gave up because its buffer was full. `line` is
-- what the current line holds so far, and `last` the length from which the last one is too long.
scan_from : ℕ → ℕ → Bytes → Bytes → List Bytes × Bool
unfolding drop_cr
scan_from size last line [] = if leb last (length line) then ([], true) else (last_line line, false)
scan_from size last line (c ∷ s) =
    let ended = scan_from size last [] s in
    let longer = scan_from size last (line ++ c ∷ []) s in
    if leb size (length line)
    then ([], true)
    else if c == b'\n'
    then (drop_cr line ∷ ended.0, ended.1)
    else longer

-- `together` tells whether the last read reports the end with its bytes.
unfoldable pub scan_lines : Bool → ℕ → Bytes → List Bytes × Bool
unfolding scan_from
scan_lines together size s = scan_from size (last_size together size) [] s

-- 16 MiB
abbrev pub max_scanner_buf : ℕ
max_scanner_buf = 16 * 1024 * 1024

scan_lines_test : scan_lines true 4 (codes "ab\r\n\nx") ≡ (codes "ab" ∷ [] ∷ codes "x" ∷ [], false)
unfolding scan_lines
scan_lines_test = refl

scan_lines_too_long : scan_lines true 4 (codes "a\nabcd\n") ≡ (codes "a" ∷ [], true)
unfolding scan_lines
scan_lines_too_long = refl

scan_lines_full :
    (scan_lines true 4 (codes "a\nabcd") ≡ (codes "a" ∷ codes "abcd" ∷ [], false))
    × (scan_lines false 4 (codes "a\nabcd") ≡ (codes "a" ∷ [], true))
unfolding scan_lines
scan_lines_full = (refl, refl)
