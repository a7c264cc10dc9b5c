-- ===== src/WriteSpool/Loss.antt =====
-- Where the spool loses entries.
use mathlib.Core.List.{append_assoc}
use buy_not_buy_com.Common.{
  ℕ, ◌+◌, ◌≤◌, ◌<◌, ◌≡◌, ◌≢◌, refl, sym, ap, ◌∙◌, Bool, true, false, some, none, List, [], ◌∷◌,
  ◌++◌, All-append, length, arith,
}
use buy_not_buy_com.WriteBuffer.{tally}
use buy_not_buy_com.WriteSpool.{
  newline, Codec, SpoolOptions, WriteSpool, durable, split_lines, line_of, contents_of, read_line,
  read_lines, empty_spool, create_write_spool, evict_spooled, make_room, rewrite, write_line,
  append,
}
use buy_not_buy_com.WriteSpool.Lines.{IsInline, split_lines-line}
use buy_not_buy_com.WriteSpool.Reopen.{IsCodec, read_contents}

module _ {A : Type 0} (codec : Codec A) (o : SpoolOptions A) where
  -- Once the loop begins, it ends with an empty queue.
  evict_spooled-all :
      (n : ℕ) (es : List A) (s : WriteSpool A)
      → o.max_bytes < s.file_bytes + n
      → let t = evict_spooled codec o n es s in
        (t.entries ≡ []) × (t.evicted ≡ s.evicted + length es)
  unfolding evict_spooled
  evict_spooled-all n [] s h = ground arith
  evict_spooled-all n (e ∷ es) s h = ground (
    arith,
    h,
    evict_spooled-all n es (record s {
      evicted = s.evicted + 1;
      evicted_by_market = tally (o.market_of e) s.evicted_by_market;
    }),
  )

  -- An append that does not fit evicts the whole queue, however little room it needs: with a disk that
  -- works, the queue and the file then hold the new entry alone, and all the others are counted as
  -- evicted.
  pub append_past_bound :
      (e : A) (s : WriteSpool A) (file : List ℕ)
      → o.enabled ≡ true
      → s.refused ≡ false
      → o.max_bytes < s.file_bytes + length (line_of codec e)
      → let (t, file', done) = append codec o e true durable s file in
        (t.entries ≡ e ∷ [])
        × (t.evicted ≡ s.evicted + length s.entries)
        × (file' ≡ line_of codec e)
        × (done ≡ true)
  unfolding append make_room rewrite write_line contents_of
  append_past_bound e s file on ready over =
      ground (arith, evict_spooled-all (length (line_of codec e)) s.entries s over)

  append-fits :
      (e : A) (r : Bool) (s : WriteSpool A) (file : List ℕ)
      → o.enabled ≡ true
      → s.refused ≡ false
      → s.file_bytes + length (line_of codec e) ≤ o.max_bytes
      → let (t, file', done) = append codec o e r durable s file in
        (file' ≡ file ++ line_of codec e) × (done ≡ true)
  unfolding append make_room write_line
  append-fits e r s file on ready fits = ground arith

  read_line-refused :
      (line : List ℕ) (s : WriteSpool A) → (read_line codec line s).refused ≡ s.refused
  unfolding read_line
  read_line-refused [] s = refl
  read_line-refused (c ∷ cs) s = ground arith

  read_lines-refused :
      (parts : List (List ℕ)) (s : WriteSpool A) → (read_lines codec parts s).refused ≡ s.refused
  unfolding read_lines
  read_lines-refused [] s = refl
  read_lines-refused ([] ∷ []) s = refl
  read_lines-refused ((c ∷ cs) ∷ []) s = refl
  read_lines-refused (line ∷ next ∷ rest) s =
      read_lines-refused (next ∷ rest) (read_line codec line s) ∙ read_line-refused line s

  create_write_spool-ready :
      (raw : List ℕ)
      → o.enabled ≡ true
      → let s = create_write_spool codec o true (some raw) in
        (s.refused ≡ false) × (s.file_bytes ≡ length raw)
  unfolding create_write_spool empty_spool
  create_write_spool-ready raw on =
      ground (arith, on, read_lines-refused (split_lines raw) empty_spool)

  create_write_spool-entries :
      (raw : List ℕ)
      → o.enabled ≡ true
      → (create_write_spool codec o true (some raw)).entries
        ≡ (read_lines codec (split_lines raw) empty_spool).entries
  unfolding create_write_spool
  create_write_spool-entries raw on = ground (arith, on)

  -- A line that is no JSON value is skipped.
  read_lines-unreadable :
      (line : List ℕ) (s : WriteSpool A)
      → codec.decode line ≡ none
      → (read_lines codec (line ∷ [] ∷ []) s).entries ≡ s.entries
  unfolding read_lines read_line
  read_lines-unreadable [] s h = refl
  read_lines-unreadable (c ∷ cs) s h = ground (arith, h)

  module _ (laws : IsCodec codec) where
    read_after_torn :
        (es : List A) (f : List ℕ) (e : A)
        → IsInline f
        → codec.decode (f ++ codec.encode e) ≡ none
        → (read_lines codec
            (split_lines ((contents_of codec es ++ f) ++ line_of codec e))
            empty_spool).entries
          ≡ es
    unfolding line_of empty_spool split_lines
    read_after_torn es f e inline bad =
        let line = f ++ codec.encode e in
        let s = record empty_spool { entries = es } in
        ap (λ x. (read_lines codec (split_lines x) empty_spool).entries)
          (append_assoc (contents_of codec es) f (codec.encode e ++ newline ∷ [])
            ∙ ap (λ x. contents_of codec es ++ x)
                (sym (append_assoc f (codec.encode e) (newline ∷ []))))
        ∙ ap (λ x. x.entries) (read_contents codec laws es (line ++ newline ∷ []) empty_spool)
        ∙ ap (λ x. (read_lines codec x s).entries)
            (split_lines-line line []
              (All-append (λ c. c ≢ newline) f (codec.encode e) inline (laws.inline e)))
        ∙ read_lines-unreadable line s bad

    -- An entry appended after a torn line is lost by a restart although its append was confirmed: if
    -- the file ends in a fragment that makes no JSON value with the text of the entry, start-up keeps
    -- the fragment in the file, the append writes the entry behind it and returns true, and the next
    -- start-up skips the line of both and has no more entries than the first.
    pub append_after_torn :
        (es : List A) (f : List ℕ) (e : A) (r : Bool)
        → o.enabled ≡ true
        → IsInline f
        → codec.decode (f ++ codec.encode e) ≡ none
        → length (contents_of codec es ++ f) + length (line_of codec e) ≤ o.max_bytes
        → let file = contents_of codec es ++ f in
          let s = create_write_spool codec o true (some file) in
          let (t, file', done) = append codec o e r durable s file in
          (done ≡ true) × ((create_write_spool codec o true (some file')).entries ≡ es)
    append_after_torn es f e r on inline bad fits =
        let file = contents_of codec es ++ f in
        let s = create_write_spool codec o true (some file) in
        let (ready, size) = create_write_spool-ready file on in
        let (wrote, done) = append-fits e r s file on ready (omega (arith, size, fits)) in
        (
          done,
          rw wrote (
              create_write_spool-entries (file ++ line_of codec e) on
              ∙ read_after_torn es f e inline bad),
        )
