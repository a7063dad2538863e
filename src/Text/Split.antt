-- ===== src/Text/Split.antt =====
-- Cutting a text at a separator: what comes back from a text that was joined.
use tilt_common.Base.{
  ℕ, ◌≡◌, ◌≢◌, refl, ap, ◌∙◌, some, List, [], ◌∷◌, ◌++◌, append-nil, append_assoc, arith, Bytes,
  All,
}
use tilt_common.Text.{cut, split_lines, split_crlf}

abbrev pub Lacks : ℕ → Bytes → Type 0
Lacks b s = All (λ c. c ≢ b) s

pub cut_at_sep :
    (sep : ℕ) (before after : Bytes)
    → Lacks sep before
    → cut sep (before ++ sep ∷ after) ≡ (before, some after)
unfolding cut
cut_at_sep sep [] after h = ground arith
cut_at_sep sep (c ∷ before) after (hc, h) = ground (arith, cut_at_sep sep before after h)

-- Lines, each ended by "\r\n".
unfoldable pub end_lines : List Bytes → Bytes
end_lines [] = []
end_lines (line ∷ lines) = line ++ b'\r' ∷ b'\n' ∷ end_lines lines

split_lines_step :
    (line : Bytes) (c d : ℕ) (s : Bytes)
    → c ≢ b'\r'
    → split_lines line (c ∷ d ∷ s) ≡ split_lines (line ++ c ∷ []) (d ∷ s)
unfolding split_lines
split_lines_step line c d s h = ground arith

split_lines-append :
    (line s rest : Bytes)
    → Lacks b'\r' s
    → split_lines line (s ++ b'\r' ∷ b'\n' ∷ rest) ≡ (line ++ s) ∷ split_lines [] rest
split_lines-append line [] rest h = unfold split_lines in rw append-nil
split_lines-append line (c ∷ []) rest (hc, h) =
    split_lines_step line c _ _ hc ∙ unfold split_lines in refl
split_lines-append line (c ∷ d ∷ s) rest (hc, h) =
    split_lines_step line c d _ hc
    ∙ split_lines-append (line ++ c ∷ []) (d ∷ s) rest h
    ∙ rw (append_assoc line (c ∷ []) (d ∷ s))

-- Lines that hold no carriage return come back, and behind the last separator the empty text.
pub split_crlf-end_lines :
    (lines : List Bytes) → All (Lacks b'\r') lines → split_crlf (end_lines lines) ≡ lines ++ [] ∷ []
unfolding split_crlf end_lines
split_crlf-end_lines [] h = refl
split_crlf-end_lines (line ∷ lines) (hl, h) =
    split_lines-append [] line (end_lines lines) hl ∙ ap (◌∷◌ line) (split_crlf-end_lines lines h)
