-- ===== src/WriteSpool/Reopen.antt =====
-- Start-up reads back what rewrites and appends have written.
use mathlib.Core.List.{append_assoc, append-nil}
use buy_not_buy_com.Common.{
  ℕ, ◌≡◌, ◌≢◌, refl, sym, ap, ◌∙◌, ◌≡⟨◌⟩◌, ◌∎, true, some, List, [], ◌∷◌, ◌++◌, length, arith,
}
use buy_not_buy_com.WriteSpool.{
  newline, Codec, SpoolOptions, WriteSpool, split_lines, line_of, contents_of, read_line,
  read_lines, empty_spool, create_write_spool,
}
use buy_not_buy_com.WriteSpool.Lines.{IsInline, split_lines-line}

-- What the program relies on of JSON: a plain entry comes back, on one line that is not empty.
pub record IsCodec {A : Type 0} (codec : Codec A) : Type 0 where
  pub round_trip : (e : A) → codec.decode (codec.encode e) ≡ some e
  pub inline : (e : A) → IsInline (codec.encode e)
  pub filled : (e : A) → codec.encode e ≢ []

abbrev pub first_part : List (List ℕ) → List ℕ
first_part [] = []
first_part (p ∷ ps) = p

abbrev pub later_parts : List (List ℕ) → List (List ℕ)
later_parts [] = []
later_parts (p ∷ ps) = ps

split_lines-parts :
    (cs : List ℕ) → split_lines cs ≡ first_part (split_lines cs) ∷ later_parts (split_lines cs)
unfolding split_lines
split_lines-parts [] = refl
split_lines-parts (c ∷ cs) = ground (arith, split_lines-parts cs)

module _ {A : Type 0} (codec : Codec A) (laws : IsCodec codec) where
  read_line-some :
      (line : List ℕ) (e : A) (s : WriteSpool A)
      → line ≢ []
      → codec.decode line ≡ some e
      → read_line codec line s ≡ record s { entries = s.entries ++ e ∷ [] }
  unfolding read_line
  read_line-some [] e s h k = absurd (h refl)
  read_line-some (c ∷ cs) e s h k = rw (k, read_line)

  read_lines-more :
      (line rest : List ℕ) (s : WriteSpool A)
      → read_lines codec (line ∷ split_lines rest) s
        ≡ read_lines codec (split_lines rest) (read_line codec line s)
  unfolding read_lines
  read_lines-more [] rest s = rw (split_lines-parts rest)
  read_lines-more (c ∷ cs) rest s = rw (split_lines-parts rest)

  pub read_contents :
      (es : List A) (rest : List ℕ) (s : WriteSpool A)
      → read_lines codec (split_lines (contents_of codec es ++ rest)) s
        ≡ read_lines codec (split_lines rest) (record s { entries = s.entries ++ es })
  unfolding contents_of line_of
  read_contents [] rest s = rw append-nil
  read_contents (e ∷ es) rest s =
      read_lines codec
        (split_lines (((codec.encode e ++ (newline ∷ [])) ++ contents_of codec es) ++ rest)) s
      ≡⟨ ap (λ x. read_lines codec (split_lines x) s)
          (append_assoc (codec.encode e ++ (newline ∷ [])) (contents_of codec es) rest
            ∙ append_assoc (codec.encode e) (newline ∷ []) (contents_of codec es ++ rest)) ⟩
        read_lines codec
          (split_lines (codec.encode e ++ (newline ∷ (contents_of codec es ++ rest)))) s
      ≡⟨ ap (λ x. read_lines codec x s)
          (split_lines-line (codec.encode e) (contents_of codec es ++ rest) (laws.inline e)) ⟩
        read_lines codec (codec.encode e ∷ split_lines (contents_of codec es ++ rest)) s
      ≡⟨ read_lines-more (codec.encode e) (contents_of codec es ++ rest) s ⟩
        read_lines codec (split_lines (contents_of codec es ++ rest))
          (read_line codec (codec.encode e) s)
      ≡⟨ ap (read_lines codec (split_lines (contents_of codec es ++ rest)))
          (read_line-some (codec.encode e) e s (laws.filled e) (laws.round_trip e)) ⟩
        read_lines codec (split_lines (contents_of codec es ++ rest))
          (record s { entries = s.entries ++ e ∷ [] })
      ≡⟨ read_contents es rest (record s { entries = s.entries ++ e ∷ [] }) ⟩
        read_lines codec (split_lines rest) (record s { entries = (s.entries ++ e ∷ []) ++ es })
      ≡⟨ ap (λ x. read_lines codec (split_lines rest) (record s { entries = x }))
          (append_assoc s.entries (e ∷ []) es) ⟩
        read_lines codec (split_lines rest) (record s { entries = s.entries ++ e ∷ es }) ∎

  contents_alone :
      (es : List A)
      → read_lines codec (split_lines (contents_of codec es)) empty_spool
        ≡ record empty_spool { entries = es }
  unfolding read_lines split_lines empty_spool
  contents_alone es =
      ap (λ x. read_lines codec (split_lines x) empty_spool)
        (sym (append-nil (contents_of codec es)))
      ∙ read_contents es [] empty_spool

  -- A file of whole lines is read back as its entries, with nothing torn and the size of the file.
  pub create_write_spool-contents :
      (o : SpoolOptions A) (es : List A)
      → o.enabled ≡ true
      → create_write_spool codec o true (some (contents_of codec es))
        ≡ record empty_spool { entries = es; file_bytes = length (contents_of codec es) }
  unfolding create_write_spool empty_spool
  create_write_spool-contents o es h = ground (arith, h, contents_alone es)
